-- ===== src/Integrations/Grpc/Capture.antt =====
-- integrations/grpc/interceptor.go: the methods that are left alone, the context of a call, its transaction and
-- the report of its error. The peer, the metadata and the status of an error are those of the grpc package.
use Prim.Native.String.{◌++◌ as str_append}
use duckbug_go.Base.{
  ℕ, String, Bool, true, ◌||◌, Option, none, some, List, [], ◌∷◌, if◌then◌else◌, is_nil,
}
use duckbug_go.Base.Int.{ℤ, pos}
use duckbug_go.Text.{trim_space, is_blank}
use duckbug_go.Value.{Value, str, int, Fields, end, field}
use duckbug_go.Pond.{RequestContext}
use duckbug_go.Core.Util.{Reflection}
use duckbug_go.Core.Duck.{Duck, put_text}
use duckbug_go.Core.Transaction.{Transaction, set_context, add_measurement, finish}
use duckbug_go.Integrations.Rules.{
  Values, Network, any_listed, any_prefix, skips, put_values, has_suffix, sampled,
}
use duckbug_go.Integrations.Report.{
  Failure, Report, transaction_report, quack_context_details, start_transaction_named,
}
use duckbug_go.Integrations.Grpc.Options.{
  Config, Code, ok, unknown, deadline_exceeded, unimplemented, internal, unavailable, data_loss,
}

-- The number of a code, and `Code.String`.
pub record Codes : Type 0 where
  pub number_of : Code → ℕ
  pub name_of : Code → String

-- An error of a handler: `status.Code` of it, and the message of `status.FromError`, if that finds a status.
pub record RpcError : Type 0 where
  pub code : Code
  pub status_message : Option String

-- What the context of a call has: the peer's address and the metadata, and the method of the info, if any.
pub record Incoming : Type 0 where
  pub peer_addr : Option String
  pub metadata : Option Values
  pub full_method : Option String

-- `status.Code`.
abbrev pub code_of : Option RpcError → Code
code_of none = ok
code_of (some e) = e.code

abbrev pub method_of : Incoming → String
method_of i = elim i.full_method [ none ↦ "" | some s ↦ s ]

unfoldable pub should_ignore_method : String → Config → Bool
unfolding any_listed any_prefix
should_ignore_method full_method config =
    skips config.skip_method full_method
    || any_listed (trim_space full_method) config.ignored_methods
    || any_prefix (trim_space full_method) config.ignored_method_prefixes

unfoldable pub transaction_name : String → String
transaction_name full_method = if is_blank full_method then "grpc" else trim_space full_method

unfoldable pub grpc_status_error : ⦃c : Codes⦄ → Code → String → String
grpc_status_error ⦃c⦄ code full_method =
    let method = if is_blank full_method then "unknown" else trim_space full_method in
    str_append "grpc " (str_append (c.name_of code) (str_append ": " method))

module _ ⦃n : Network⦄ where
  abbrev ip_or_text : String → String
  ip_or_text text = elim (n.parse_ip text) [ none ↦ text | some ip ↦ ip ]

  abbrev address_ip : String → String
  address_ip addr = elim (n.split_host addr) [
    | none ↦ ip_or_text addr
    | some host ↦ ip_or_text host
  ]

  unfoldable pub client_ip : Option String → String
  client_ip none = ""
  client_ip (some addr) = address_ip (trim_space addr)

-- The loop of `metadataToMap`, which leaves out binary values.
unfoldable pub metadata_from : Values → Fields → Fields
unfolding has_suffix
metadata_from [] out = out
metadata_from ((key, values) ∷ md) out =
    metadata_from md (if has_suffix key "-bin" then out else put_values key values out)

unfoldable pub metadata_to_map : Option Values → Option Fields
unfolding metadata_from
metadata_to_map none = none
metadata_to_map (some md) = if is_nil md then none else some (metadata_from md end)

unfoldable pub build_request_context : ⦃n : Network⦄ → Incoming → Config → RequestContext
unfolding client_ip metadata_to_map
build_request_context i config = record {
  ip = client_ip i.peer_addr;
  url = trim_space (method_of i);
  method = "gRPC";
  headers = if config.capture_metadata then metadata_to_map i.metadata else none;
  query_params = none;
  body_params = none;
  cookies = none;
  session = none;
  files = none;
}

-- `shouldCaptureTransaction`, at what `rand.Float64()` returns.
unfoldable pub should_capture_transaction : ℕ → ℕ → Code → Option (Code → Bool) → Bool
unfolding sampled
should_capture_transaction draw rate code should_capture =
    if skips should_capture code then true else sampled draw rate

unfoldable pub transaction_status_from_code : Code → String
transaction_status_from_code ok = "ok"
transaction_status_from_code unknown = "internal_error"
transaction_status_from_code internal = "internal_error"
transaction_status_from_code data_loss = "internal_error"
transaction_status_from_code unavailable = "internal_error"
transaction_status_from_code deadline_exceeded = "internal_error"
transaction_status_from_code unimplemented = "internal_error"
transaction_status_from_code code = "invalid_argument"

module _ ⦃r : Reflection⦄ where
  abbrev pub described : String → Option Transaction → Option Transaction
  described full_method none = none
  described full_method (some tx) =
      some (set_context (Value.map (field "method" (str full_method) end)) tx)

  -- The last three arguments are the new ids and the time.
  unfoldable pub start_transaction :
      Option Duck → String → Config → String → String → ℤ → Option Transaction
  unfolding start_transaction_named set_context transaction_name
  start_transaction duck full_method config trace_id span_id now =
      if config.capture_transactions
      then described full_method (
          start_transaction_named duck (transaction_name full_method) "grpc.server" trace_id span_id
            now)
      else none

module _ ⦃r : Reflection⦄ ⦃c : Codes⦄ where
  -- The transaction as it is captured, finished at the given time.
  unfoldable pub finished : Code → ℤ → Transaction → Transaction
  unfolding add_measurement finish transaction_status_from_code
  finished code now tx =
      finish (transaction_status_from_code code) [] now
        (add_measurement "grpc.status_code" (int (pos (c.number_of code))) "code" tx)

  unfoldable pub capture_transaction :
      Option Duck
      → Code
      → Option Transaction
      → (force : Bool) → Config
      → (draw : ℕ) → ℤ
      → List Report
  unfolding finished should_capture_transaction
  capture_transaction none code tx force config draw now = []
  capture_transaction (some d) code none force config draw now = []
  capture_transaction (some d) code (some tx) force config draw now =
      if force
        || should_capture_transaction draw config.transaction_sample_rate code config.should_capture
      then transaction_report (finished code now tx) ∷ []
      else []

module _ ⦃c : Codes⦄ where
  -- The trimmed message of an error's status, or nothing.
  abbrev message_of : Option RpcError → String
  message_of none = ""
  message_of (some e) = elim e.status_message [ none ↦ "" | some s ↦ trim_space s ]

  unfoldable pub error_details : String → Code → Option RpcError → Fields
  error_details full_method code e =
      put_text "responseMessage" (message_of e)
        (field "method" (str full_method) (field "grpcCode" (str (c.name_of code)) end))

  -- `captureError`; `fail` makes the error of a text, at the frames of the call. A configuration of `newConfig`
  -- has a test.
  unfoldable pub capture_error :
      (String → Failure) → Option Duck → String → Code → Option RpcError → Config → List Report
  unfolding error_details grpc_status_error quack_context_details
  capture_error fail none full_method code e config = []
  capture_error fail (some d) full_method code e config =
      if skips config.should_capture code
      then quack_context_details (fail (grpc_status_error code full_method))
          (some (Value.map (error_details full_method code e))) true "grpc_status"
        ∷ []
      else []
