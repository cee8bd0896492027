-- ===== src/Provider/Config.antt =====
-- providers/duckbug/provider.go: the configuration, its options, and the constructor's defaults. Durations
-- are in nanoseconds.
use duckbug_go.Base.{
  ℕ, zero, suc, String, Bool, false, not, ◌*◌, Option, none, some, List, [], ◌∷◌, ◌==◌,
}
use duckbug_go.Base.Int.{ℤ, pos, negsuc}
use Prim.Native.Char.{code}
use duckbug_go.Text.{trim_space, trim_right}
use duckbug_go.Provider.Payload.{PrivacyOptions, default_privacy_options, BeforeSendFunc}

-- The transport is configured apart from the rest: `has_transport` says whether one is given.
pub record Config : Type 0 where
  pub dsn : String
  pub has_transport : Bool
  pub batch_size : ℤ
  pub disable_async : Bool
  pub queue_size : ℤ
  pub flush_interval : ℤ
  pub privacy : PrivacyOptions
  pub before_send : Option BeforeSendFunc
  pub has_failure_handler : Bool
  pub timeout : ℤ
  pub connection_timeout : ℤ
  pub max_retries : ℤ
  pub retry_delay : ℤ

-- `Option`, which may be nil.
abbrev pub ConfigOption : Type 0
ConfigOption = Option (Config → Config)

abbrev pub millisecond : ℕ
millisecond = 1000 * 1000

abbrev pub second : ℕ
second = 1000 * millisecond

abbrev apply_option : ConfigOption → Config → Config
apply_option none c = c
apply_option (some f) c = f c

apply_options : List ConfigOption → Config → Config
apply_options [] c = c
apply_options (o ∷ options) c = apply_options options (apply_option o c)

-- The configuration that `New` builds.
unfoldable pub configure : String → List ConfigOption → Config
unfolding apply_options
configure dsn options = apply_options options (record {
  dsn = dsn;
  has_transport = false;
  batch_size = pos 1;
  disable_async = false;
  queue_size = pos 1024;
  flush_interval = pos (2 * second);
  privacy = default_privacy_options;
  before_send = none;
  has_failure_handler = false;
  timeout = pos (2 * second);
  connection_timeout = pos (300 * millisecond);
  max_retries = pos 0;
  retry_delay = pos (100 * millisecond);
})

-- A number that must be positive, and else has a default.
abbrev pub positive_or : ℕ → ℤ → ℕ
positive_or d (pos zero) = d
positive_or d (pos (suc n)) = suc n
positive_or d (negsuc n) = d

-- What `NewWithConfig` makes of the configuration.
pub record Settings : Type 0 where
  pub dsn : String
  pub batch_size : ℕ
  pub async : Bool
  pub queue_size : ℕ
  pub flush_interval : ℕ
  pub privacy : PrivacyOptions
  pub before_send : Option BeforeSendFunc
  pub has_failure_handler : Bool

unfoldable pub new_with_config : Config → Settings
new_with_config c = record {
  dsn = trim_right (λ x. code x == b'/') (trim_space c.dsn);
  batch_size = positive_or 1 c.batch_size;
  async = not c.disable_async;
  queue_size = positive_or 1024 c.queue_size;
  flush_interval = positive_or (2 * second) c.flush_interval;
  privacy = c.privacy;
  before_send = c.before_send;
  has_failure_handler = c.has_failure_handler;
}

unfoldable pub with_batch_size : ℤ → ConfigOption
with_batch_size size = some (λ c. record c { batch_size = size })

unfoldable pub with_async : Bool → ConfigOption
with_async enabled = some (λ c. record c { disable_async = not enabled })

unfoldable pub with_queue_size : ℤ → ConfigOption
with_queue_size size = some (λ c. record c { queue_size = size })

unfoldable pub with_flush_interval : ℤ → ConfigOption
with_flush_interval interval = some (λ c. record c { flush_interval = interval })

unfoldable pub with_privacy : PrivacyOptions → ConfigOption
with_privacy options = some (λ c. record c { privacy = options })

unfoldable pub with_before_send : Option BeforeSendFunc → ConfigOption
with_before_send fn = some (λ c. record c { before_send = fn })

unfoldable pub with_transport_failure_handler : Bool → ConfigOption
with_transport_failure_handler given = some (λ c. record c { has_failure_handler = given })

unfoldable pub with_transport : Bool → ConfigOption
with_transport given = some (λ c. record c { has_transport = given })

unfoldable pub with_timeout : ℤ → ConfigOption
with_timeout timeout = some (λ c. record c { timeout = timeout })

unfoldable pub with_connection_timeout : ℤ → ConfigOption
with_connection_timeout timeout = some (λ c. record c { connection_timeout = timeout })

unfoldable pub with_max_retries : ℤ → ConfigOption
with_max_retries max_retries = some (λ c. record c { max_retries = max_retries })

unfoldable pub with_retry_delay : ℤ → ConfigOption
with_retry_delay delay = some (λ c. record c { retry_delay = delay })
