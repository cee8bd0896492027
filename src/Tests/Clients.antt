-- ===== src/Tests/Clients.antt =====
-- The client's payloads.
use duckbug_go.Base.{true, ◌≡◌, none, some, [], ◌∷◌}
use duckbug_go.Base.Int.{pos}
use duckbug_go.Value.{str, bool, lookup}
use duckbug_go.Core.Level.{any_text, normalize_level}
use duckbug_go.Core.Duck.{Duck, Circumstances, Capture, error_payload, log_payload}
use duckbug_go.Core.Duck.Safe.{AllSafe}
use duckbug_go.Core.Duck.Sanitized.{error_payload-AllSafe}
use duckbug_go.Core.Duck.Carried.{Carries, log_payload-Carries, error_payload-Carries}
use duckbug_go.Tests.{ascii, plain_reflection, login, any_value, fresh}

abbrev pub client : Duck
client = record {
  providers = [];
  scope = record fresh { user = some login };
  pond = record {
    sensitive_fields = "password" ∷ [];
    sensitive_header_names = [];
    mask = "***";
    env_provider = ("PASSWORD", "quack") ∷ [];
  };
}

abbrev pub calm : Circumstances
calm = record { event_id = "id-1"; now = pos 1000; request = none }

abbrev boom : Capture
boom = record {
  message = "boom";
  chain = ("*errors.errorString", "boom") ∷ [];
  handled = true;
  mechanism = "manual";
  stack_override = "";
  frames = [];
}

error_payload-AllSafe_example :
    AllSafe client.pond (error_payload calm none boom (some any_value) client)
error_payload-AllSafe_example =
    error_payload-AllSafe calm none boom (some any_value) client
      (((tt, (tt, ((tt, tt), (tt, (tt, tt))))), tt, tt, tt), tt)

log_payload-Carries_example :
    Carries calm none "hi" client
      (log_payload calm none (any_text "info") "hi" (some any_value) client)
    × (lookup "level" (log_payload calm none (any_text "info") "hi" (some any_value) client)
        ≡ some (str (normalize_level (any_text "info"))))
log_payload-Carries_example =
    log_payload-Carries calm none (any_text "info") "hi" (some any_value) client

error_payload-Carries_example :
    Carries calm (some (pos 7)) "boom" client (error_payload calm (some (pos 7)) boom none client)
    × (lookup "handled" (error_payload calm (some (pos 7)) boom none client) ≡ some (bool true))
error_payload-Carries_example = error_payload-Carries calm (some (pos 7)) boom none client
