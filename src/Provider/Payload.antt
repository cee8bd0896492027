-- ===== src/Provider/Payload.antt =====
-- providers/duckbug/provider.go: what happens to a payload before it is sent. The result of
-- `core.NewEventID()` enters as an argument.
pub mod Strip
pub mod Lookup
pub mod Prepare
pub mod Minted
pub mod Masked
pub mod Kept
use duckbug_go.Base.{
  String, str_eq, Bool, true, false, not, ◌||◌, Option, none, some, List, [], ◌∷◌, if◌then◌else◌,
}
use duckbug_go.Text.{is_blank, trim_space}
use duckbug_go.Value.{
  Value, null, str, list, nil_map, Items, nil, cons, Fields, end, field, of_map, non_empty, entries,
  is_empty, insert, delete, lookup,
}
use duckbug_go.Value
use duckbug_go.Core.Types.{EventType}

pub record PrivacyOptions : Type 0 where
  pub capture_request_context : Bool
  pub capture_headers : Bool
  pub capture_body : Bool
  pub capture_session : Bool
  pub capture_cookies : Bool
  pub capture_files : Bool
  pub capture_env : Bool

abbrev pub default_privacy_options : PrivacyOptions
default_privacy_options = record {
  capture_request_context = true;
  capture_headers = true;
  capture_body = true;
  capture_session = true;
  capture_cookies = true;
  capture_files = true;
  capture_env = false;
}

-- `BeforeSendFunc`: the updated payload, and whether to keep the event.
abbrev pub BeforeSendFunc : Type 0
BeforeSendFunc = EventType → Option Fields → Option Fields × Bool

unfoldable mutual
  -- `cloneMap` at a value of a map. A list is copied with the maps that stand in it; what else it holds is shared.
  pub clone_value : Value → Value
  clone_value (Value.map fs) = of_map (non_empty (clone_fields fs))
  clone_value (list xs) = list (clone_items xs)
  clone_value v = v

  pub clone_item : Value → Value
  clone_item (Value.map fs) = of_map (non_empty (clone_fields fs))
  clone_item v = v

  pub clone_items : Items → Items
  clone_items nil = nil
  clone_items (cons v xs) = cons (clone_item v) (clone_items xs)

  pub clone_fields : Fields → Fields
  clone_fields end = end
  clone_fields (field k v fs) = field k (clone_value v) (clone_fields fs)

unfoldable pub clone_map : Option Fields → Option Fields
clone_map none = none
clone_map (some fs) = non_empty (clone_fields fs)

-- A cleaned map or list is kept unless nothing is left in it.
abbrev pub kept_map : Fields → Option Value
kept_map end = none
kept_map (field k v fs) = some (Value.map (field k v fs))

abbrev pub kept_list : Items → Option Value
kept_list nil = none
kept_list (cons v xs) = some (list (cons v xs))

abbrev pub add_entry : String → Option Value → Fields → Fields
add_entry k none fs = fs
add_entry k (some v) fs = field k v fs

abbrev pub add_item : Option Value → Items → Items
add_item none xs = xs
add_item (some v) xs = cons v xs

unfoldable mutual
  -- The body of the loop of `stripNilValues`: what an entry's value becomes, if the entry stays.
  pub strip_value : Value → Option Value
  strip_value null = none
  strip_value nil_map = none
  strip_value (Value.map fs) = kept_map (strip_fields fs)
  strip_value (list xs) = kept_list (strip_items xs)
  strip_value v = some v

  -- The body of the loop over a list, which does not go into the lists in it.
  pub strip_item : Value → Option Value
  strip_item null = none
  strip_item nil_map = none
  strip_item (Value.map fs) = kept_map (strip_fields fs)
  strip_item v = some v

  pub strip_items : Items → Items
  strip_items nil = nil
  strip_items (cons v xs) = add_item (strip_item v) (strip_items xs)

  pub strip_fields : Fields → Fields
  strip_fields end = end
  strip_fields (field k v fs) = add_entry k (strip_value v) (strip_fields fs)

unfoldable pub strip_nil_values : Option Fields → Option Fields
strip_nil_values none = none
strip_nil_values (some fs) = non_empty (strip_fields fs)

abbrev pub delete_unless : Bool → String → Fields → Fields
delete_unless captured k fs = if captured then fs else delete k fs

unfoldable pub apply_privacy : Fields → PrivacyOptions → Fields
apply_privacy payload o =
    let context =
      if not o.capture_request_context
      then delete "files" (
          delete "session" (
            delete "cookies" (
              delete "bodyParams" (
                delete "queryParams"
                  (delete "headers" (delete "method" (delete "url" (delete "ip" payload))))))))
      else delete_unless o.capture_files "files" (
          delete_unless o.capture_session "session" (
            delete_unless o.capture_cookies "cookies" (
              delete_unless o.capture_body "bodyParams"
                (delete_unless o.capture_headers "headers" payload)))) in
    delete_unless o.capture_env "env" context

-- An id that ingest would honour: a text that is not blank.
abbrev pub is_usable_id : Option Value → Bool
is_usable_id (some (str s)) = not (is_blank s)
is_usable_id _ = false

unfoldable pub ensure_event_id : String → Fields → Fields
ensure_event_id minted payload =
    if is_usable_id (lookup "eventId" payload)
    then payload
    else insert "eventId" (str minted) payload

-- The last part of `preparePayload`.
abbrev pub identified : String → Option Fields → Option Fields
identified minted none = none
identified minted (some prepared) = some (ensure_event_id minted prepared)

-- What the answer of the hook leaves.
abbrev pub after_hook : Option Fields × Bool → Option Fields
after_hook (updated, keep) =
    if not keep || is_empty (entries updated) then none else strip_nil_values (clone_map updated)

abbrev pub run_hook : Option BeforeSendFunc → EventType → Option Fields → Option Fields
run_hook none t prepared = prepared
run_hook (some hook) t prepared = after_hook (hook t (clone_map prepared))

-- `preparePayload`: none if the event is dropped.
unfoldable pub prepare_payload :
    PrivacyOptions → Option BeforeSendFunc → String → EventType → Option Fields → Option Fields
prepare_payload privacy before_send minted t payload =
    if is_empty (entries payload)
    then none
    else identified minted (
        run_hook before_send t
          (strip_nil_values (some (apply_privacy (entries (clone_map payload)) privacy))))
