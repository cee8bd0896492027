-- ===== src/Provider/Payload/Prepare.antt =====
-- providers/duckbug/provider.go: the results of `preparePayload`.
use duckbug_go.Base.{
  String, str_eq, Bool, true, false, not, ◌||◌, Option, none, some, List, [], ◌∷◌, ◌≡◌, refl, ◌∙◌,
  Bool-cases, inl, inr, if◌then◌else◌, arith,
}
use duckbug_go.Text.{is_blank, contains}
use duckbug_go.Value.{str, Fields, end, field, lookup, non_empty, entries, insert, is_empty}
use duckbug_go.Value.Entries.{lookup-insert_self}
use duckbug_go.Core.Types.{EventType}
use duckbug_go.Provider.Payload.{
  PrivacyOptions, BeforeSendFunc, clone_value, clone_fields, clone_map, strip_fields,
  strip_nil_values, apply_privacy, ensure_event_id, is_usable_id, identified, run_hook, after_hook,
  prepare_payload,
}
use duckbug_go.Provider.Payload.Strip.{IsCleanFields, fields-IsClean}
use duckbug_go.Provider.Payload.Lookup.{
  strip_fields_keeps, lookup-clone_fields, lookup-non_empty, excluded_keys, lookup-apply_privacy,
}

abbrev pub OptCleanMap : Option Fields → Type 0
OptCleanMap none = Unit
OptCleanMap (some fs) = IsCleanFields fs × (is_empty fs ≡ false)

strip-CleanMap : (m : Option Fields) → OptCleanMap (strip_nil_values m)
unfolding strip_nil_values
strip-CleanMap none = tt
strip-CleanMap (some fs) = kept (strip_fields fs) (fields-IsClean fs)
  where
    kept : (gs : Fields) → IsCleanFields gs → OptCleanMap (non_empty gs)
    kept end h = tt
    kept (field k v gs) h = (h, refl)

after_hook-CleanMap : (u : Option Fields) (keep : Bool) → OptCleanMap (after_hook (u, keep))
after_hook-CleanMap u keep = elim (Bool-cases (not keep || is_empty (entries u))) [
  | inl e ↦ rw e tt
  | inr e ↦ rw e (strip-CleanMap (clone_map u))
]

run_hook-CleanMap :
    (hook : Option BeforeSendFunc) (t : EventType) (m : Option Fields)
    → OptCleanMap m
    → OptCleanMap (run_hook hook t m)
run_hook-CleanMap none t m h = h
run_hook-CleanMap (some f) t m h = after_hook-CleanMap (f t (clone_map m)).0 (f t (clone_map m)).1

insert-CleanMap :
    (k s : String) (fs : Fields) → IsCleanFields fs → OptCleanMap (some (insert k (str s) fs))
unfolding insert
insert-CleanMap k s end h = ((tt, tt), refl)
insert-CleanMap k s (field j w fs) h = elim (Bool-cases (str_eq j k)) [
  | inl e ↦ rw e ((tt, h.1), refl)
  | inr e ↦ rw e ((h.0, (insert-CleanMap k s fs h.1).0), refl)
]

-- The payload is clean, not empty, and carries an id that ingest honours.
abbrev IsReady : Option Fields → Type 0
IsReady none = Unit
IsReady (some fs) =
    IsCleanFields fs × (is_empty fs ≡ false) × (is_usable_id (lookup "eventId" fs) ≡ true)

identified-IsReady :
    (minted : String) (m : Option Fields)
    → is_blank minted ≡ false
    → OptCleanMap m
    → IsReady (identified minted m)
unfolding ensure_event_id
identified-IsReady minted none b h = tt
identified-IsReady minted (some fs) b h = elim (Bool-cases (is_usable_id (lookup "eventId" fs))) [
  | inl e ↦ rw e (h.0, h.1, e)
  | inr e ↦
      let added = insert-CleanMap "eventId" minted fs h.0 in
      rw e (added.0, added.1, rw (lookup-insert_self "eventId" (str minted) fs) (rw b))
]

-- A prepared payload is not empty and holds no null, no empty map and no empty list, and its "eventId" is
-- a text that is not blank, whatever the privacy options and the hook are, as long as the ids that
-- `NewEventID` mints are not blank.
pub prepare_payload-IsReady :
    (o : PrivacyOptions) (hook : Option BeforeSendFunc) (minted : String) (t : EventType)
    (payload : Option Fields) {q : Fields}
    → is_blank minted ≡ false
    → prepare_payload o hook minted t payload ≡ some q
    → IsCleanFields q × (is_empty q ≡ false) × (is_usable_id (lookup "eventId" q) ≡ true)
unfolding prepare_payload
prepare_payload-IsReady o hook minted t payload b e =
    elim (Bool-cases (is_empty (entries payload))) [
      | inl z ↦ absurd (let e' : none ≡ some _ = rw z at e in cc)
      | inr z ↦
          ready (identified minted (run_hook hook t _)) (rw z at e)
            (identified-IsReady minted _ b (run_hook-CleanMap hook t _ (strip-CleanMap _)))
    ]
  where
    ready : (m : Option Fields) {q : Fields} → m ≡ some q → IsReady m → IsReady (some q)
    ready none x h = absurd (cc)
    ready (some fs) {q} x h = let same : fs ≡ q = ground arith in rw (← same) h

module _ (o : PrivacyOptions) (minted : String) (t : EventType) where
  cleaned : Fields → Fields
  cleaned fs = strip_fields (apply_privacy (entries (clone_map (some fs))) o)

unless-event_id :
    (b : Bool) (k : String) (ks : List String)
    → str_eq "eventId" k ≡ false
    → contains "eventId" ks ≡ false
    → contains "eventId" (if b then ks else k ∷ ks) ≡ false
unfolding contains
unless-event_id true k ks n h = h
unless-event_id false k ks n h = rw (n, h)

excluded_keys-event_id : (o : PrivacyOptions) → contains "eventId" (excluded_keys o) ≡ false
unfolding contains
excluded_keys-event_id o =
    unless-event_id o.capture_env "env" _ refl (elim (Bool-cases o.capture_request_context) [
      | inl e ↦ rw e (
          unless-event_id o.capture_files "files" _ refl (
            unless-event_id o.capture_session "session" _ refl (
              unless-event_id o.capture_cookies "cookies" _ refl (
                unless-event_id o.capture_body "bodyParams" _ refl
                  (unless-event_id o.capture_headers "headers" [] refl refl)))))
      | inr e ↦ rw e
    ])

identified_keeps :
    (minted s : String) (fs : Fields)
    → lookup "eventId" fs ≡ some (str s)
    → is_blank s ≡ false
    → lookup "eventId" (entries (identified minted (non_empty fs))) ≡ some (str s)
unfolding ensure_event_id lookup
identified_keeps minted s end e b = cc
identified_keeps minted s (field k v fs) e b =
    let usable : is_usable_id (lookup "eventId" (field k v fs)) ≡ true = rw (e, b) in rw usable e

id-filtered :
    (o : PrivacyOptions) (s : String) (fs : Fields)
    → lookup "eventId" fs ≡ some (str s)
    → lookup "eventId" (apply_privacy (entries (clone_map (some fs))) o) ≡ some (str s)
unfolding clone_map clone_value
id-filtered o s fs e =
    lookup-apply_privacy "eventId" (entries (non_empty (clone_fields fs))) o
    ∙ rw (
      excluded_keys-event_id o,
      lookup-non_empty "eventId" (clone_fields fs),
      lookup-clone_fields "eventId" fs,
      e,
    )

-- Without a hook, a payload whose "eventId" is a text that is not blank is not dropped and keeps that id.
pub prepare_payload-keeps_id :
    (o : PrivacyOptions) (minted : String) (t : EventType) (s : String) (fs : Fields)
    → lookup "eventId" fs ≡ some (str s)
    → is_blank s ≡ false
    → lookup "eventId" (entries (prepare_payload o none minted t (some fs))) ≡ some (str s)
unfolding prepare_payload strip_nil_values lookup cleaned
prepare_payload-keeps_id o minted t s end e b = cc
prepare_payload-keeps_id o minted t s (field j v fs) e b =
    identified_keeps minted s (cleaned o minted t (field j v fs))
      (strip_fields_keeps "eventId" _ (id-filtered o s (field j v fs) e)) b
