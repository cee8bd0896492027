-- ===== src/Integrations/Middleware/Options.antt =====
-- integrations/nethttp/middleware.go: the options of the middleware.
use duckbug_go.Base.{ℕ, ◌*◌, String, Bool, true, false, Option, none, some, List, [], ◌∷◌, ◌++◌}
use duckbug_go.Base.Int.{ℤ, pos}
use duckbug_go.Base.Float.{float_one, float_tenth}
use duckbug_go.Integrations.Middleware.Requests.{Config, Request}

abbrev pub MiddlewareOption : Type 0
MiddlewareOption = Config → Config

abbrev pub default_production_transaction_sample_rate : ℕ
default_production_transaction_sample_rate = float_tenth

-- The defaults of `Middleware`.
abbrev pub default_config : Config
default_config = record {
  capture_panics = true;
  capture_handled5xx = false;
  repanic = false;
  read_body = false;
  max_body_bytes = pos (64 * 1024);
  handled5xx_max_body_bytes = pos (4 * 1024);
  capture_transactions = false;
  transaction_sample_rate = float_one;
  ignored_paths = [];
  ignored_path_prefixes = [];
  skip_request = none;
}

-- The loop over the options, of which some may be nil.
unfoldable pub apply_options {ℓ} : {C : Type ℓ} → List (Option (C → C)) → C → C
apply_options [] config = config
apply_options (none ∷ options) config = apply_options options config
apply_options (some option ∷ options) config = apply_options options (option config)

unfoldable pub middleware_config : List (Option MiddlewareOption) → Config
unfolding apply_options
middleware_config options = apply_options options default_config

unfoldable pub with_capture_panics : Bool → MiddlewareOption
with_capture_panics enabled config = record config { capture_panics = enabled }

unfoldable pub with_production_defaults : MiddlewareOption
with_production_defaults config = record config {
  capture_panics = true;
  capture_handled5xx = true;
  capture_transactions = true;
  handled5xx_max_body_bytes = pos (4 * 1024);
  transaction_sample_rate = default_production_transaction_sample_rate;
}

unfoldable pub with_capture_handled5xx : Bool → MiddlewareOption
with_capture_handled5xx enabled config = record config { capture_handled5xx = enabled }

unfoldable pub with_repanic : Bool → MiddlewareOption
with_repanic enabled config = record config { repanic = enabled }

unfoldable pub with_read_body : Bool → MiddlewareOption
with_read_body enabled config = record config { read_body = enabled }

unfoldable pub with_max_body_bytes : ℤ → MiddlewareOption
with_max_body_bytes limit config = record config { max_body_bytes = limit }

unfoldable pub with_handled5xx_max_body_bytes : ℤ → MiddlewareOption
with_handled5xx_max_body_bytes limit config = record config { handled5xx_max_body_bytes = limit }

unfoldable pub with_capture_transactions : Bool → MiddlewareOption
with_capture_transactions enabled config = record config { capture_transactions = enabled }

unfoldable pub with_transaction_sample_rate : ℕ → MiddlewareOption
with_transaction_sample_rate rate config = record config { transaction_sample_rate = rate }

unfoldable pub with_ignored_paths : List String → MiddlewareOption
with_ignored_paths paths config = record config { ignored_paths = config.ignored_paths ++ paths }

unfoldable pub with_ignored_path_prefixes : List String → MiddlewareOption
with_ignored_path_prefixes prefixes config = record config {
  ignored_path_prefixes = config.ignored_path_prefixes ++ prefixes;
}

unfoldable pub with_skip_request : Option (Request → Bool) → MiddlewareOption
with_skip_request skip config = record config { skip_request = skip }
