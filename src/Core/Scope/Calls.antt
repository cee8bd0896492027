-- ===== src/Core/Scope/Calls.antt =====
-- core/scope.go: histories of calls, and what a scope then holds.
use duckbug_go.Base.{
  String, str_eq, false, Option, none, some, List, [], ◌∷◌, ◌≡◌, Bool-cases, inl, inr,
}
use duckbug_go.Base.Int.{ℤ}
use duckbug_go.Text.{trim_space}
use duckbug_go.Text.Trim.{trim_space_idem}
use duckbug_go.Value.{Fields, lookup}
use duckbug_go.Core.Util.{Reflection, normalize_string_map}
use duckbug_go.Core.Scope.{
  Scope, set_tag, set_tags, clear_tags, set_user, clear_user, set_release, set_environment,
  set_dist, set_server_name, set_service, set_request_id, set_transaction, set_trace,
  set_fingerprint, set_sdk, set_runtime, set_extra, set_platform, add_breadcrumb, clear_breadcrumbs,
  tag_text, add_normalized, stamped,
}
use duckbug_go.Core.Scope.Tidy.{
  OptTidy, normalize_string_map-OptTidy, AllTags, set_text-AllTags, tag_text-IsTag, AllMaps,
  IsBreadcrumb, append_map-AllMaps, stamped-IsBreadcrumb,
}

pub data Call : Type 0 where
  sets_tag : String → Option String → Call
  sets_tags : List (String × Option String) → Call
  clears_tags : Call
  sets_user : Option Fields → Call
  clears_user : Call
  sets_release sets_environment sets_dist sets_server_name sets_service : String → Call
  sets_request_id sets_transaction sets_fingerprint sets_platform : String → Call
  sets_trace : String → String → Call
  sets_sdk sets_runtime sets_extra : Option Fields → Call
  adds_breadcrumb : ℤ → Option Fields → Call
  clears_breadcrumbs : Call

unfoldable pub call : ⦃r : Reflection⦄ → Call → Scope → Scope
call (sets_tag key value) = set_tag key value
call (sets_tags values) = set_tags values
call clears_tags = clear_tags
call (sets_user user) = set_user user
call clears_user = clear_user
call (sets_release v) = set_release v
call (sets_environment v) = set_environment v
call (sets_dist v) = set_dist v
call (sets_server_name v) = set_server_name v
call (sets_service v) = set_service v
call (sets_request_id v) = set_request_id v
call (sets_transaction v) = set_transaction v
call (sets_fingerprint v) = set_fingerprint v
call (sets_platform v) = set_platform v
call (sets_trace trace_id span_id) = set_trace trace_id span_id
call (sets_sdk v) = set_sdk v
call (sets_runtime v) = set_runtime v
call (sets_extra v) = set_extra v
call (adds_breadcrumb now b) = add_breadcrumb now b
call clears_breadcrumbs = clear_breadcrumbs

unfoldable pub calls : ⦃r : Reflection⦄ → List Call → Scope → Scope
calls [] s = s
calls (c ∷ cs) s = calls cs (call c s)

-- The texts are trimmed, and the platform is never blank.
abbrev pub HasTexts : Scope → Type 0
HasTexts s =
    (trim_space s.release ≡ s.release)
    × (trim_space s.environment ≡ s.environment)
    × (trim_space s.dist ≡ s.dist)
    × (trim_space s.server_name ≡ s.server_name)
    × (trim_space s.service ≡ s.service)
    × (trim_space s.request_id ≡ s.request_id)
    × (trim_space s.transaction ≡ s.transaction)
    × (trim_space s.trace_id ≡ s.trace_id)
    × (trim_space s.span_id ≡ s.span_id)
    × (trim_space s.fingerprint ≡ s.fingerprint)
    × (trim_space s.platform ≡ s.platform)
    × (str_eq s.platform "" ≡ false)

-- The texts, the tags, the user and the extra data, and the breadcrumbs are as their setters leave them.
abbrev pub WellFormed : Scope → Type 0
WellFormed s =
    HasTexts s
    × AllTags s.tags
    × OptTidy s.user
    × OptTidy s.extra
    × AllMaps IsBreadcrumb s.breadcrumbs

set_tag-WellFormed :
    (key : String) (value : Option String) (s : Scope)
    → WellFormed s
    → WellFormed (set_tag key value s)
unfolding set_tag
set_tag-WellFormed key value s w = elim (Bool-cases (str_eq (trim_space key) "")) [
  | inl e ↦ rw e w
  | inr e ↦ rw e (
    w.0,
    set_text-AllTags (trim_space key) (tag_text (trim_space key) value) s.tags
        (trim_space_idem key, e) (tag_text-IsTag (trim_space key) value) w.1,
    w.2,
    w.3,
    w.4,
  )
]

set_tags-WellFormed :
    (values : List (String × Option String)) (s : Scope)
    → WellFormed s
    → WellFormed (set_tags values s)
unfolding set_tags
set_tags-WellFormed [] s w = w
set_tags-WellFormed ((key, value) ∷ values) s w =
    set_tags-WellFormed values (set_tag key value s) (set_tag-WellFormed key value s w)

set_platform-WellFormed : (v : String) (s : Scope) → WellFormed s → WellFormed (set_platform v s)
unfolding set_platform
set_platform-WellFormed v s w = elim (Bool-cases (str_eq (trim_space v) "")) [
  | inl e ↦ rw e w
  | inr e ↦ rw e (assumption (w, trim_space_idem v, e))
]

add_normalized-WellFormed :
    (now : ℤ) (b : Option Fields) (s : Scope)
    → OptTidy b
    → WellFormed s
    → WellFormed (add_normalized now b s)
add_normalized-WellFormed now none s t w = w
add_normalized-WellFormed now (some b) s t w = (
  w.0,
  w.1,
  w.2,
  w.3,
  append_map-AllMaps IsBreadcrumb (stamped now b (lookup "timestamp" b)) s.breadcrumbs
      (stamped-IsBreadcrumb now b t) w.4,
)

-- Each method keeps the scope well formed.
pub call-WellFormed : ⦃r : Reflection⦄ (c : Call) (s : Scope) → WellFormed s → WellFormed (call c s)
unfolding call clear_tags set_user clear_user set_release set_environment set_dist set_server_name
    set_service set_request_id set_transaction set_trace set_fingerprint set_sdk set_runtime
    set_extra add_breadcrumb clear_breadcrumbs
call-WellFormed (sets_tag key value) s w = set_tag-WellFormed key value s w
call-WellFormed (sets_tags values) s w = set_tags-WellFormed values s w
call-WellFormed clears_tags s w = (w.0, tt, w.2, w.3, w.4)
call-WellFormed (sets_user user) s w = (w.0, w.1, normalize_string_map-OptTidy user, w.3, w.4)
call-WellFormed clears_user s w = (w.0, w.1, tt, w.3, w.4)
call-WellFormed (sets_release v) s w = assumption (w, trim_space_idem v)
call-WellFormed (sets_environment v) s w = assumption (w, trim_space_idem v)
call-WellFormed (sets_dist v) s w = assumption (w, trim_space_idem v)
call-WellFormed (sets_server_name v) s w = assumption (w, trim_space_idem v)
call-WellFormed (sets_service v) s w = assumption (w, trim_space_idem v)
call-WellFormed (sets_request_id v) s w = assumption (w, trim_space_idem v)
call-WellFormed (sets_transaction v) s w = assumption (w, trim_space_idem v)
call-WellFormed (sets_fingerprint v) s w = assumption (w, trim_space_idem v)
call-WellFormed (sets_platform v) s w = set_platform-WellFormed v s w
call-WellFormed (sets_trace trace_id span_id) s w =
    assumption (w, trim_space_idem trace_id, trim_space_idem span_id)
call-WellFormed (sets_sdk v) s w = w
call-WellFormed (sets_runtime v) s w = w
call-WellFormed (sets_extra v) s w = (w.0, w.1, w.2, normalize_string_map-OptTidy v, w.4)
call-WellFormed (adds_breadcrumb now b) s w =
    add_normalized-WellFormed now (normalize_string_map b) s (normalize_string_map-OptTidy b) w
call-WellFormed clears_breadcrumbs s w = (w.0, w.1, w.2, w.3, tt)

-- Whatever setters are called in whatever order, a well-formed scope stays well formed: its texts are trimmed,
-- its platform is not blank, each tag is its key or its key with a colon and a text, the user and the extra
-- data are normalized under trimmed keys that are not blank, and every breadcrumb has a time.
pub calls-WellFormed :
    ⦃r : Reflection⦄ (cs : List Call) (s : Scope) → WellFormed s → WellFormed (calls cs s)
unfolding calls
calls-WellFormed [] s w = w
calls-WellFormed (c ∷ cs) s w = calls-WellFormed cs (call c s) (call-WellFormed c s w)
