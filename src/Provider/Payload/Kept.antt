-- ===== src/Provider/Payload/Kept.antt =====
-- providers/duckbug/provider.go: preparing a payload leaves its entries safe.
use duckbug_go.Base.{
  String, str_eq, Bool, true, false, not, Option, none, some, ◌≡◌, inl, inr, Bool-cases,
  if◌then◌else◌,
}
use duckbug_go.Text.{Unicode, contains}
use duckbug_go.Value.{Value, str, Fields, end, field, non_empty, entries, delete, lookup}
use duckbug_go.Pond.{Pond}
use duckbug_go.Core.Types.{EventType}
use duckbug_go.Core.Duck.Safe.{AllSafe, put-AllSafe, unsanitized}
use duckbug_go.Core.Duck.Delivered.{OptSafe}
use duckbug_go.Provider.Payload.{
  PrivacyOptions, clone_value, clone_fields, clone_map, add_entry, strip_value, strip_fields,
  strip_nil_values, delete_unless, apply_privacy, is_usable_id, ensure_event_id, identified,
  prepare_payload,
}
use duckbug_go.Provider.Payload.Masked.{clone_value-IsMasked, strip_value-KeptItem, KeptItem}

module _ ⦃u : Unicode⦄ (p : Pond) where
  clone_fields-AllSafe : (fs : Fields) → AllSafe p fs → AllSafe p (clone_fields fs)
  unfolding AllSafe clone_value
  clone_fields-AllSafe end h = tt
  clone_fields-AllSafe (field k v fs) (inl m, h) =
      (inl (clone_value-IsMasked p v m), clone_fields-AllSafe fs h)
  clone_fields-AllSafe (field k v fs) (inr e, h) = (inr e, clone_fields-AllSafe fs h)

  add_masked-AllSafe :
      (k : String) (o : Option Value) (fs : Fields)
      → KeptItem p o
      → AllSafe p fs
      → AllSafe p (add_entry k o fs)
  unfolding AllSafe
  add_masked-AllSafe k none fs h i = i
  add_masked-AllSafe k (some v) fs h i = (inl h, i)

  add_excepted-AllSafe :
      (k : String) (o : Option Value) (fs : Fields)
      → contains k unsanitized ≡ true
      → AllSafe p fs
      → AllSafe p (add_entry k o fs)
  unfolding AllSafe
  add_excepted-AllSafe k none fs e i = i
  add_excepted-AllSafe k (some v) fs e i = (inr e, i)

  strip_fields-AllSafe : (fs : Fields) → AllSafe p fs → AllSafe p (strip_fields fs)
  unfolding AllSafe strip_value
  strip_fields-AllSafe end h = tt
  strip_fields-AllSafe (field k v fs) (inl m, h) =
      add_masked-AllSafe k (strip_value v) (strip_fields fs) (strip_value-KeptItem p v m)
        (strip_fields-AllSafe fs h)
  strip_fields-AllSafe (field k v fs) (inr e, h) =
      add_excepted-AllSafe k (strip_value v) (strip_fields fs) e (strip_fields-AllSafe fs h)

  delete-AllSafe : (k : String) (fs : Fields) → AllSafe p fs → AllSafe p (delete k fs)
  unfolding AllSafe delete
  delete-AllSafe k end h = tt
  delete-AllSafe k (field j v fs) h = elim (Bool-cases (str_eq j k)) [
    | inl e ↦ rw e (delete-AllSafe k fs h.1)
    | inr e ↦ rw e (h.0, delete-AllSafe k fs h.1)
  ]

  delete_unless-AllSafe :
      (b : Bool) (k : String) (fs : Fields) → AllSafe p fs → AllSafe p (delete_unless b k fs)
  delete_unless-AllSafe true k fs h = h
  delete_unless-AllSafe false k fs h = delete-AllSafe k fs h

  either-AllSafe :
      (b : Bool) (fs gs : Fields) → AllSafe p fs → AllSafe p gs → AllSafe p (if b then fs else gs)
  either-AllSafe true fs gs h i = h
  either-AllSafe false fs gs h i = i

  apply_privacy-AllSafe :
      (fs : Fields) (o : PrivacyOptions) → AllSafe p fs → AllSafe p (apply_privacy fs o)
  unfolding apply_privacy
  apply_privacy-AllSafe fs o h = delete_unless-AllSafe o.capture_env "env" _ (
      either-AllSafe (not o.capture_request_context) _ _
        (delete-AllSafe "files" _ (
          delete-AllSafe "session" _ (
            delete-AllSafe "cookies" _ (
              delete-AllSafe "bodyParams" _ (
                delete-AllSafe "queryParams" _ (
                  delete-AllSafe "headers" _ (
                    delete-AllSafe "method" _
                      (delete-AllSafe "url" _ (delete-AllSafe "ip" fs h)))))))))
        (delete_unless-AllSafe o.capture_files "files" _ (
          delete_unless-AllSafe o.capture_session "session" _ (
            delete_unless-AllSafe o.capture_cookies "cookies" _ (
              delete_unless-AllSafe o.capture_body "bodyParams" _
                (delete_unless-AllSafe o.capture_headers "headers" fs h))))))

  ensure_event_id-AllSafe :
      (minted : String) (fs : Fields) → AllSafe p fs → AllSafe p (ensure_event_id minted fs)
  unfolding ensure_event_id
  ensure_event_id-AllSafe minted fs h =
      either-AllSafe (is_usable_id (lookup "eventId" fs)) fs _ h
        (put-AllSafe p "eventId" (str minted) fs tt h)

  entries-AllSafe : (fs : Fields) → AllSafe p fs → AllSafe p (entries (non_empty fs))
  unfolding AllSafe
  entries-AllSafe end h = tt
  entries-AllSafe (field k v fs) h = h

  identified-OptSafe :
      (minted : String) (fs : Fields) → AllSafe p fs → OptSafe p (identified minted (non_empty fs))
  identified-OptSafe minted end h = tt
  identified-OptSafe minted (field k v fs) h = ensure_event_id-AllSafe minted (field k v fs) h

  cleaned-OptSafe :
      (privacy : PrivacyOptions) (minted : String) (fs : Fields)
      → AllSafe p fs
      → OptSafe p (
          identified minted
            (strip_nil_values (some (apply_privacy (entries (clone_map (some fs))) privacy))))
  unfolding strip_nil_values clone_map
  cleaned-OptSafe privacy minted fs h = identified-OptSafe minted _ (
      strip_fields-AllSafe _ (
        apply_privacy-AllSafe _ privacy
          (entries-AllSafe (clone_fields fs) (clone_fields-AllSafe fs h))))

  -- Without a hook, a payload whose entries are safe is prepared to one whose entries are safe.
  pub prepare_payload-OptSafe :
      (privacy : PrivacyOptions) (minted : String) (t : EventType) (payload : Option Fields)
      → OptSafe p payload
      → OptSafe p (prepare_payload privacy none minted t payload)
  unfolding prepare_payload
  prepare_payload-OptSafe privacy minted t none h = tt
  prepare_payload-OptSafe privacy minted t (some end) h = tt
  prepare_payload-OptSafe privacy minted t (some (field k v fs)) h =
      cleaned-OptSafe privacy minted (field k v fs) h
