-- ===== src/Core/Duck/Identified.antt =====
-- core/duck.go and core/types.go: the ids of the events that a dispatch hands to the providers.
use duckbug_go.Base.{
  String, str_eq, false, Option, some, List, [], ◌∷◌, ◌≡◌, refl, ◌∙◌, Bool-cases, inl, inr, arith,
}
use duckbug_go.Text.{Unicode}
use duckbug_go.Value.{Value, str, Fields, end, field, non_empty, entries, is_empty, lookup}
use duckbug_go.Pond.{Pond}
use duckbug_go.Core.Types.{EventType}
use duckbug_go.Core.Transaction.{
  Span, Transaction, get_status, get_context, get_measurements, get_spans,
}
use duckbug_go.Core.Util.{Reflection, clone_map, clone_value, clone_fields}
use duckbug_go.Core.Duck.{Duck, Circumstances}
use duckbug_go.Core.Duck.Entries.{skip-insert, skip-put_text, id-base_payload}
use duckbug_go.Core.Duck.Dispatch.{
  new_event, is_null, put_value, put_spans, put_measurements, build_transaction_payload,
}

-- The value under "eventId".
abbrev pub id_of : Option Fields → Option Value
id_of m = lookup "eventId" (entries m)

clone_fields_keeps :
    (k : String) (fs : Fields) {s : String}
    → lookup k fs ≡ some (str s)
    → lookup k (clone_fields fs) ≡ some (str s)
unfolding lookup clone_value
clone_fields_keeps k end h = cc
clone_fields_keeps k (field j v fs) {s} h = elim (Bool-cases (str_eq j k)) [
  | inl e ↦ let text : v ≡ str s = ground arith in rw (e, text)
  | inr e ↦ rw e (clone_fields_keeps k fs (rw e at h))
]

entries-non_empty : (k : String) (fs : Fields) → lookup k (entries (non_empty fs)) ≡ lookup k fs
entries-non_empty k end = refl
entries-non_empty k (field j v fs) = refl

-- The event of a payload has the payload's id.
pub id-new_event :
    (t : EventType) (fs : Fields) {s : String}
    → lookup "eventId" fs ≡ some (str s)
    → id_of (new_event t fs).payload ≡ some (str s)
unfolding new_event clone_map
id-new_event t fs h =
    entries-non_empty "eventId" (clone_fields fs) ∙ clone_fields_keeps "eventId" fs h

module _ ⦃u : Unicode⦄ (k : String) (p : Pond) (fs : Fields) where
  skip-put_value :
      (j : String) (v : Value) → str_eq j k ≡ false → lookup k (put_value p j v fs) ≡ lookup k fs
  skip-put_value j v e = elim (Bool-cases (is_null v)) [
    | inl n ↦ rw n
    | inr n ↦ rw n (skip-insert k j fs e _)
  ]

  skip-put_spans :
      (ss : List Span) → str_eq "spans" k ≡ false → lookup k (put_spans p ss fs) ≡ lookup k fs
  skip-put_spans [] e = refl
  skip-put_spans (s ∷ ss) e = skip-insert k "spans" fs e _

  skip-put_measurements :
      (m : Option Fields)
      → str_eq "measurements" k ≡ false
      → lookup k (put_measurements p m fs) ≡ lookup k fs
  skip-put_measurements m e = elim (Bool-cases (is_empty (entries m))) [
    | inl n ↦ rw n
    | inr n ↦ rw n (skip-insert k "measurements" fs e _)
  ]

-- The payload of a transaction holds the id that was minted for it.
pub id-transaction_payload :
    ⦃u : Unicode⦄ ⦃r : Reflection⦄ (c : Circumstances) (t : Transaction) (d : Duck)
    → lookup "eventId" (build_transaction_payload c t d) ≡ some (str c.event_id)
unfolding build_transaction_payload
id-transaction_payload c t d =
    skip-insert k "duration" _ refl _
    ∙ skip-insert k "endTime" _ refl _
    ∙ skip-insert k "startTime" _ refl _
    ∙ skip-put_spans k d.pond _ (get_spans (some t)) refl
    ∙ skip-put_measurements k d.pond _ (get_measurements (some t)) refl
    ∙ skip-put_value k d.pond _ "context" (get_context (some t)) refl
    ∙ skip-put_text k "status" _ refl (get_status (some t))
    ∙ skip-insert k "op" _ refl _
    ∙ skip-insert k "transaction" _ refl _
    ∙ skip-put_text k "parentSpanId" _ refl _
    ∙ skip-insert k "spanId" _ refl _
    ∙ skip-insert k "traceId" _ refl _
    ∙ id-base_payload c d
  where
    k : String
    k = "eventId"
