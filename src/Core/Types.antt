-- ===== src/Core/Types.antt =====
-- core/types.go: event types, events and transport results.
use duckbug_go.Base.{
  ℕ, String, str_eq, leb, ltb, Bool, true, false, not, ◌&&◌, ◌||◌, Option, List, if◌then◌else◌,
}
use duckbug_go.Value.{Fields}

-- `EventType` is a text: the three that the package declares, and any other.
pub data EventType : Type 0 where
  errors logs transactions : EventType
  other : String → EventType

unfoldable pub type_name : EventType → String
type_name errors = "errors"
type_name logs = "logs"
type_name transactions = "transactions"
type_name (other s) = s

-- `Event`. The payload is a map that may be nil.
pub record Event : Type 0 where
  pub type : EventType
  pub payload : Option Fields

pub record BatchItemResult : Type 0 where
  pub id : String
  pub event_id : String
  pub group_id : String
  pub status : String

-- Status codes and attempts are not negative. A result that never had a response has the code 0.
pub record TransportResult : Type 0 where
  pub status_code : ℕ
  pub response_body : String
  pub error_message : String
  pub attempts : ℕ
  pub duplicate : Bool
  pub items : List BatchItemResult

unfoldable pub is_success : TransportResult → Bool
is_success r =
    if not (str_eq r.error_message "")
    then false
    else (leb 200 r.status_code && ltb r.status_code 300 || r.duplicate)

pub record FailureInfo : Type 0 where
  pub type : EventType
  pub items : List Fields
  pub result : TransportResult
  pub message : String

-- `a == b` on event types.
abbrev pub same_type : EventType → EventType → Bool
same_type errors errors = true
same_type logs logs = true
same_type transactions transactions = true
same_type (other s) (other t) = str_eq s t
same_type _ _ = false
