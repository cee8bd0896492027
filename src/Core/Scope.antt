-- ===== src/Core/Scope.antt =====
-- core/scope.go: what is attached to every event. A method that sets a part returns the new scope; the
-- lock makes each method one step. The text that `fmt.Sprint` makes of a tag's value and the result of
-- `time.Now().UnixMilli()` are arguments.
pub mod Calls
pub mod Tidy
use Prim.Native.Char.{code}
use Prim.Native.String.{◌++◌ as str_append}
use duckbug_go.Base.{
  ℕ, String, str_eq, ◌==◌, Bool, true, false, Option, none, some, List, [], ◌∷◌, ◌++◌,
  if◌then◌else◌,
}
use duckbug_go.Base.Int.{ℤ}
use duckbug_go.Text.{trim_space, cut}
use duckbug_go.Value.{
  Value, int, Fields, end, field, Maps, no_maps, cons_map, lookup, insert, entries, non_empty,
}
use duckbug_go.Pond.{set_text}
use duckbug_go.Core.Util.{Reflection, normalize_string_map, clone_map, clone_fields}

pub record ScopeSnapshot : Type 0 where
  pub tags : List String
  pub user : Option Fields
  pub release : String
  pub environment : String
  pub dist : String
  pub server_name : String
  pub service : String
  pub request_id : String
  pub transaction : String
  pub trace_id : String
  pub span_id : String
  pub fingerprint : String
  pub breadcrumbs : Maps
  pub sdk : Option Fields
  pub runtime : Option Fields
  pub extra : Option Fields
  pub platform : String

-- The tags are a map from keys to texts.
pub record Scope : Type 0 where
  pub tags : List (String × String)
  pub user : Option Fields
  pub release : String
  pub environment : String
  pub dist : String
  pub server_name : String
  pub service : String
  pub request_id : String
  pub transaction : String
  pub trace_id : String
  pub span_id : String
  pub fingerprint : String
  pub breadcrumbs : Maps
  pub sdk : Option Fields
  pub runtime : Option Fields
  pub extra : Option Fields
  pub platform : String

-- The text of a tag before its first colon, or all of it.
abbrev before_colon : String → Option (String × String) → String
before_colon tag none = tag
before_colon tag (some (before, after)) = before

unfoldable pub tags_from : List String → List (String × String) → List (String × String)
tags_from [] tags = tags
tags_from (tag ∷ rest) tags = tags_from rest (set_text (before_colon tag (cut b':' tag)) tag tags)

unfoldable pub clone_breadcrumbs : Maps → Maps
clone_breadcrumbs no_maps = no_maps
clone_breadcrumbs (cons_map fs ms) = cons_map (entries (clone_map (some fs))) (clone_breadcrumbs ms)

unfoldable pub new_scope : ScopeSnapshot → Scope
unfolding tags_from
new_scope s = record {
  tags = tags_from s.tags [];
  user = clone_map s.user;
  release = s.release;
  environment = s.environment;
  dist = s.dist;
  server_name = s.server_name;
  service = s.service;
  request_id = s.request_id;
  transaction = s.transaction;
  trace_id = s.trace_id;
  span_id = s.span_id;
  fingerprint = s.fingerprint;
  breadcrumbs = clone_breadcrumbs s.breadcrumbs;
  sdk = clone_map s.sdk;
  runtime = clone_map s.runtime;
  extra = clone_map s.extra;
  platform = if str_eq s.platform "" then "go" else s.platform;
}

-- The text of a tag without a value, and of one with a value.
abbrev pub tag_text : String → Option String → String
tag_text key none = key
tag_text key (some value) = str_append key (str_append ":" (trim_space value))

unfoldable pub set_tag : String → Option String → Scope → Scope
set_tag key value s =
    let k = trim_space key in
    if str_eq k "" then s else record s { tags = set_text k (tag_text k value) s.tags }

unfoldable pub set_tags : List (String × Option String) → Scope → Scope
set_tags [] s = s
set_tags ((key, value) ∷ values) s = set_tags values (set_tag key value s)

unfoldable pub clear_tags : Scope → Scope
clear_tags s = record s { tags = [] }

unfoldable pub clear_user : Scope → Scope
clear_user s = record s { user = none }

unfoldable pub set_release : String → Scope → Scope
set_release value s = record s { release = trim_space value }

unfoldable pub set_environment : String → Scope → Scope
set_environment value s = record s { environment = trim_space value }

unfoldable pub set_dist : String → Scope → Scope
set_dist value s = record s { dist = trim_space value }

unfoldable pub set_server_name : String → Scope → Scope
set_server_name value s = record s { server_name = trim_space value }

unfoldable pub set_service : String → Scope → Scope
set_service value s = record s { service = trim_space value }

unfoldable pub set_request_id : String → Scope → Scope
set_request_id value s = record s { request_id = trim_space value }

unfoldable pub set_transaction : String → Scope → Scope
set_transaction value s = record s { transaction = trim_space value }

unfoldable pub set_trace : String → String → Scope → Scope
set_trace trace_id span_id s = record s {
  trace_id = trim_space trace_id;
  span_id = trim_space span_id;
}

unfoldable pub set_fingerprint : String → Scope → Scope
set_fingerprint value s = record s { fingerprint = trim_space value }

unfoldable pub set_platform : String → Scope → Scope
set_platform value s =
    let trimmed = trim_space value in
    if str_eq trimmed "" then s else record s { platform = trimmed }

unfoldable pub clear_breadcrumbs : Scope → Scope
clear_breadcrumbs s = record s { breadcrumbs = no_maps }

-- `append(breadcrumbs, b)`.
unfoldable pub append_map : Fields → Maps → Maps
append_map b no_maps = cons_map b no_maps
append_map b (cons_map fs ms) = cons_map fs (append_map b ms)

-- A breadcrumb with a time.
abbrev pub stamped : ℤ → Fields → Option Value → Fields
stamped now b none = insert "timestamp" (int now) b
stamped now b (some v) = b

abbrev add_normalized : ℤ → Option Fields → Scope → Scope
add_normalized now none s = s
add_normalized now (some b) s = record s {
  breadcrumbs = append_map (stamped now b (lookup "timestamp" b)) s.breadcrumbs;
}

module _ ⦃r : Reflection⦄ where
  unfoldable pub set_user : Option Fields → Scope → Scope
  set_user user s = record s { user = normalize_string_map user }

  unfoldable pub set_sdk : Option Fields → Scope → Scope
  set_sdk value s = record s { sdk = normalize_string_map value }

  unfoldable pub set_runtime : Option Fields → Scope → Scope
  set_runtime value s = record s { runtime = normalize_string_map value }

  unfoldable pub set_extra : Option Fields → Scope → Scope
  set_extra value s = record s { extra = normalize_string_map value }

  unfoldable pub add_breadcrumb : ℤ → Option Fields → Scope → Scope
  add_breadcrumb now breadcrumb s = add_normalized now (normalize_string_map breadcrumb) s

-- The texts of a map.
unfoldable pub texts : List (String × String) → List String
texts [] = []
texts ((k, v) ∷ m) = v ∷ texts m

unfoldable pub snapshot : Scope → ScopeSnapshot
snapshot s = record {
  tags = texts s.tags;
  user = clone_map s.user;
  release = s.release;
  environment = s.environment;
  dist = s.dist;
  server_name = s.server_name;
  service = s.service;
  request_id = s.request_id;
  transaction = s.transaction;
  trace_id = s.trace_id;
  span_id = s.span_id;
  fingerprint = s.fingerprint;
  breadcrumbs = clone_breadcrumbs s.breadcrumbs;
  sdk = clone_map s.sdk;
  runtime = clone_map s.runtime;
  extra = clone_map s.extra;
  platform = s.platform;
}
