-- ===== src/Core/Duck/Entries.antt =====
-- core/duck.go: what the part of a payload that all events share holds under a key.
use duckbug_go.Base.{
  String, str_eq, false, Option, none, some, List, [], ◌∷◌, ◌≡◌, refl, ◌∙◌, Bool-cases, inl, inr,
}
use duckbug_go.Text.{Unicode}
use duckbug_go.Value.{Value, str, maps, Fields, end, field, Maps, no_maps, cons_map, lookup, insert}
use duckbug_go.Value.Entries.{lookup-insert}
use duckbug_go.Pond.{Pond, CollectedContext, collect, sanitize_value}
use duckbug_go.Pond.Masked.{sanitize_value-maps}
use duckbug_go.Core.Scope.{ScopeSnapshot, snapshot, clone_breadcrumbs}
use duckbug_go.Core.Duck.{
  Duck, Circumstances, put_text, put_map, put_tags, put_sanitized_map, put_breadcrumbs, put_labels,
  put_scope, put_collected, build_base_payload,
}

module _ (k j : String) (fs : Fields) (e : str_eq j k ≡ false) where
  pub skip-insert : (v : Value) → lookup k (insert j v fs) ≡ lookup k fs
  skip-insert v = lookup-insert j k v fs ∙ rw e

  pub skip-put_text : (s : String) → lookup k (put_text j s fs) ≡ lookup k fs
  skip-put_text s = elim (Bool-cases (str_eq s "")) [
    | inl b ↦ rw b
    | inr b ↦ rw b (skip-insert (str s))
  ]

  skip-put_map : (m : Option Fields) → lookup k (put_map j m fs) ≡ lookup k fs
  skip-put_map none = refl
  skip-put_map (some m) = skip-insert (Value.map m)

  skip-put_sanitized_map :
      ⦃u : Unicode⦄ (p : Pond) (m : Option Fields)
      → lookup k (put_sanitized_map p j m fs) ≡ lookup k fs
  skip-put_sanitized_map p none = refl
  skip-put_sanitized_map p (some m) = skip-insert (sanitize_value p false (Value.map m))

skip-put_tags :
    (k : String) (fs : Fields) (tags : List String)
    → str_eq "dTags" k ≡ false
    → lookup k (put_tags tags fs) ≡ lookup k fs
skip-put_tags k fs [] e = refl
skip-put_tags k fs (t ∷ ts) e = skip-insert k "dTags" fs e _

abbrev pub found_breadcrumbs : Maps → Option Value
found_breadcrumbs no_maps = none
found_breadcrumbs (cons_map m ms) = some (maps (cons_map m ms))

module _ ⦃u : Unicode⦄ where
  skip-put_breadcrumbs :
      (k : String) (p : Pond) (fs : Fields) (ms : Maps)
      → str_eq "breadcrumbs" k ≡ false
      → lookup k (put_breadcrumbs p ms fs) ≡ lookup k fs
  skip-put_breadcrumbs k p fs no_maps e = refl
  skip-put_breadcrumbs k p fs (cons_map m ms) e = skip-insert k "breadcrumbs" fs e _

  lookup-put_breadcrumbs :
      (p : Pond) (fs : Fields) (ms : Maps)
      → lookup "breadcrumbs" fs ≡ none
      → lookup "breadcrumbs" (put_breadcrumbs p ms fs) ≡ found_breadcrumbs ms
  lookup-put_breadcrumbs p fs no_maps e = e
  lookup-put_breadcrumbs p fs (cons_map m ms) e =
      lookup-insert "breadcrumbs" "breadcrumbs" _ fs
      ∙ rw (sanitize_value-maps p false (cons_map m ms))

abbrev collected_keys : List String
collected_keys =
    "ip" ∷ "url" ∷ "method" ∷ "headers" ∷ "queryParams" ∷ "bodyParams" ∷ "cookies" ∷ "session"
    ∷ "files" ∷ "env" ∷ []

abbrev label_keys : List String
label_keys =
    "dTags" ∷ "user" ∷ "release" ∷ "environment" ∷ "dist" ∷ "serverName" ∷ "service" ∷ "requestId"
    ∷ "transaction" ∷ "traceId" ∷ "spanId" ∷ "fingerprint" ∷ []

abbrev other_keys : List String
other_keys = "sdk" ∷ "runtime" ∷ "extra" ∷ "platform" ∷ []

-- None of the keys is `k`.
abbrev pub Avoid : String → List String → Type 0
Avoid k [] = Unit {0}
Avoid k (j ∷ js) = (str_eq j k ≡ false) × Avoid k js

module _ ⦃u : Unicode⦄ (k : String) where
  skip-put_collected :
      (c : CollectedContext) (fs : Fields)
      → Avoid k collected_keys
      → lookup k (put_collected c fs) ≡ lookup k fs
  unfolding put_collected
  skip-put_collected c fs
        (ip, (url, (method, (h, (q, (b, (cookies, (session, (files, (env, _)))))))))) =
      skip-put_map k "env" _ env c.env
      ∙ skip-put_map k "files" _ files c.files
      ∙ skip-put_map k "session" _ session c.session
      ∙ skip-put_map k "cookies" _ cookies c.cookies
      ∙ skip-put_map k "bodyParams" _ b c.body_params
      ∙ skip-put_map k "queryParams" _ q c.query_params
      ∙ skip-put_map k "headers" _ h c.headers
      ∙ skip-put_text k "method" _ method c.method
      ∙ skip-put_text k "url" _ url c.url
      ∙ skip-put_text k "ip" _ ip c.ip

  skip-put_labels :
      (p : Pond) (s : ScopeSnapshot) (fs : Fields)
      → Avoid k label_keys
      → lookup k (put_labels p s fs) ≡ lookup k fs
  unfolding put_labels
  skip-put_labels p s fs
        (
          tags,
          (
            user,
            (
              release,
              (env, (dist, (server, (service, (request, (tr, (trace, (span, (print, _))))))))),
            ),
          ),
        ) =
      skip-put_text k "fingerprint" _ print s.fingerprint
      ∙ skip-put_text k "spanId" _ span s.span_id
      ∙ skip-put_text k "traceId" _ trace s.trace_id
      ∙ skip-put_text k "transaction" _ tr s.transaction
      ∙ skip-put_text k "requestId" _ request s.request_id
      ∙ skip-put_text k "service" _ service s.service
      ∙ skip-put_text k "serverName" _ server s.server_name
      ∙ skip-put_text k "dist" _ dist s.dist
      ∙ skip-put_text k "environment" _ env s.environment
      ∙ skip-put_text k "release" _ release s.release
      ∙ skip-put_sanitized_map k "user" _ user p s.user
      ∙ skip-put_tags k fs s.tags tags

  to_breadcrumbs :
      (p : Pond) (s : ScopeSnapshot) (fs : Fields)
      → Avoid k other_keys
      → lookup k (put_scope p s fs) ≡ lookup k (put_breadcrumbs p s.breadcrumbs (put_labels p s fs))
  unfolding put_scope
  to_breadcrumbs p s fs (sdk, (runtime, (extra, (platform, _)))) =
      skip-put_text k "platform" _ platform s.platform
      ∙ skip-put_sanitized_map k "extra" _ extra p s.extra
      ∙ skip-put_sanitized_map k "runtime" _ runtime p s.runtime
      ∙ skip-put_sanitized_map k "sdk" _ sdk p s.sdk

module _ ⦃u : Unicode⦄ (c : Circumstances) (d : Duck) where
  -- The payload of every event holds the id that was minted for it.
  pub id-base_payload : lookup "eventId" (build_base_payload c d) ≡ some (str c.event_id)
  unfolding build_base_payload lookup
  id-base_payload =
      skip-put_collected "eventId" (collect d.pond c.request) _
        (refl, (refl, (refl, (refl, (refl, (refl, (refl, (refl, (refl, (refl, tt))))))))))
      ∙ to_breadcrumbs "eventId" d.pond (snapshot d.scope) _ (refl, (refl, (refl, (refl, tt))))
      ∙ skip-put_breadcrumbs "eventId" d.pond
          (put_labels d.pond (snapshot d.scope) (field "eventId" (str c.event_id) end))
          (snapshot d.scope).breadcrumbs refl
      ∙ skip-put_labels "eventId" d.pond (snapshot d.scope) (field "eventId" (str c.event_id) end) (
        refl,
        (refl, (refl, (refl, (refl, (refl, (refl, (refl, (refl, (refl, (refl, (refl, tt))))))))))),
      )

  pub breadcrumbs-base_payload :
      lookup "breadcrumbs" (build_base_payload c d)
      ≡ found_breadcrumbs (clone_breadcrumbs d.scope.breadcrumbs)
  unfolding build_base_payload snapshot lookup
  breadcrumbs-base_payload =
      skip-put_collected "breadcrumbs" (collect d.pond c.request) _
        (refl, (refl, (refl, (refl, (refl, (refl, (refl, (refl, (refl, (refl, tt))))))))))
      ∙ to_breadcrumbs "breadcrumbs" d.pond (snapshot d.scope) _ (refl, (refl, (refl, (refl, tt))))
      ∙ lookup-put_breadcrumbs d.pond _ _ (
          skip-put_labels "breadcrumbs" d.pond (snapshot d.scope) _ (
            refl,
            (
              refl,
              (refl, (refl, (refl, (refl, (refl, (refl, (refl, (refl, (refl, (refl, tt)))))))))),
            ),
          ))
