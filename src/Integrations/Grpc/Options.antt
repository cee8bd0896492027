-- ===== src/Integrations/Grpc/Options.antt =====
-- integrations/grpc/interceptor.go: the settings of the interceptors, their options, and the codes that count as
-- a fault of the server. What a code's number and name are is the grpc package's matter.
use duckbug_go.Base.{ℕ, String, Bool, true, false, Option, none, some, List, [], ◌++◌}
use duckbug_go.Base.Float.{float_one, float_tenth}
use duckbug_go.Integrations.Middleware.Options.{apply_options}

-- `codes.Code`.
pub data Code : Type 0 where
  ok canceled unknown invalid_argument deadline_exceeded not_found already_exists : Code
  permission_denied resource_exhausted failed_precondition aborted out_of_range : Code
  unimplemented internal unavailable data_loss unauthenticated : Code
  other_code : ℕ → Code

-- A function that may be nil is `none`.
pub record Config : Type 0 where
  pub capture_panics : Bool
  pub repanic : Bool
  pub capture_metadata : Bool
  pub capture_transactions : Bool
  pub transaction_sample_rate : ℕ
  pub ignored_methods : List String
  pub ignored_method_prefixes : List String
  pub skip_method : Option (String → Bool)
  pub should_capture : Option (Code → Bool)

abbrev pub InterceptorOption : Type 0
InterceptorOption = Config → Config

unfoldable pub default_should_capture : Code → Bool
default_should_capture unknown = true
default_should_capture deadline_exceeded = true
default_should_capture unimplemented = true
default_should_capture internal = true
default_should_capture unavailable = true
default_should_capture data_loss = true
default_should_capture code = false

-- The literal of `newConfig`.
abbrev pub default_config : Config
default_config = record {
  capture_panics = true;
  repanic = false;
  capture_metadata = false;
  capture_transactions = false;
  transaction_sample_rate = float_one;
  ignored_methods = [];
  ignored_method_prefixes = [];
  skip_method = none;
  should_capture = none;
}

-- The test that a nil one is replaced by.
abbrev capture_or_default : Option (Code → Bool) → Option (Code → Bool)
unfolding default_should_capture
capture_or_default none = some default_should_capture
capture_or_default (some test) = some test

unfoldable pub new_config : List (Option InterceptorOption) → Config
unfolding apply_options capture_or_default
new_config options =
    let config = apply_options options default_config in
    record config { should_capture = capture_or_default config.should_capture }

unfoldable pub with_capture_panics : Bool → InterceptorOption
with_capture_panics enabled config = record config { capture_panics = enabled }

unfoldable pub with_repanic : Bool → InterceptorOption
with_repanic enabled config = record config { repanic = enabled }

unfoldable pub with_capture_metadata : Bool → InterceptorOption
with_capture_metadata enabled config = record config { capture_metadata = enabled }

unfoldable pub with_capture_transactions : Bool → InterceptorOption
with_capture_transactions enabled config = record config { capture_transactions = enabled }

unfoldable pub with_transaction_sample_rate : ℕ → InterceptorOption
with_transaction_sample_rate rate config = record config { transaction_sample_rate = rate }

unfoldable pub with_ignored_methods : List String → InterceptorOption
with_ignored_methods methods config = record config {
  ignored_methods = config.ignored_methods ++ methods;
}

unfoldable pub with_ignored_method_prefixes : List String → InterceptorOption
with_ignored_method_prefixes prefixes config = record config {
  ignored_method_prefixes = config.ignored_method_prefixes ++ prefixes;
}

unfoldable pub with_skip_method : Option (String → Bool) → InterceptorOption
with_skip_method skip config = record config { skip_method = skip }

unfoldable pub with_should_capture : Option (Code → Bool) → InterceptorOption
with_should_capture test config = record config { should_capture = test }

unfoldable pub with_production_defaults : InterceptorOption
with_production_defaults config = record config {
  capture_panics = true;
  capture_metadata = true;
  capture_transactions = true;
  transaction_sample_rate = float_tenth;
}
