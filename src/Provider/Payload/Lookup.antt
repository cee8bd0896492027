-- ===== src/Provider/Payload/Lookup.antt =====
-- providers/duckbug/provider.go: what a map holds at a key after each step of the preparation.
use duckbug_go.Base.{
  String, str_eq, eq_iff, Bool, true, false, not, Option, none, some, List, [], ◌∷◌, ◌≡◌, refl, ap,
  ◌∙◌, Bool-cases, inl, inr, if◌then◌else◌, arith,
}
use duckbug_go.Text.{contains}
use duckbug_go.Value.{Value, str, Fields, end, field, lookup, delete, IsMap, non_empty, entries}
use duckbug_go.Value.Entries.{lookup-delete, delete-IsMap}
use duckbug_go.Provider.Payload.{
  PrivacyOptions, clone_value, clone_fields, strip_value, strip_fields, add_entry, delete_unless,
  apply_privacy,
}

abbrev pub strip_found : Option Value → Option Value
strip_found none = none
strip_found (some v) = strip_value v

abbrev clone_found : Option Value → Option Value
clone_found none = none
clone_found (some v) = some (clone_value v)

lookup_hit : (k : String) (v : Value) (fs : Fields) → lookup k (field k v fs) ≡ some v
unfolding lookup
lookup_hit k v fs = rw ((eq_iff k k).1 refl)

lookup_miss :
    (j k : String) (v : Value) (fs : Fields)
    → str_eq j k ≡ false
    → lookup k (field j v fs) ≡ lookup k fs
unfolding lookup
lookup_miss j k v fs e = rw e

add_entry_hit :
    (k : String) (o : Option Value) (fs : Fields)
    → lookup k fs ≡ none
    → lookup k (add_entry k o fs) ≡ o
add_entry_hit k none fs e = e
add_entry_hit k (some v) fs e = lookup_hit k v fs

add_entry_miss :
    (j k : String) (o : Option Value) (fs : Fields)
    → str_eq j k ≡ false
    → lookup k (add_entry j o fs) ≡ lookup k fs
add_entry_miss j k none fs e = refl
add_entry_miss j k (some v) fs e = lookup_miss j k v fs e

-- Stripping acts on each key alone.
pub lookup-strip_fields :
    (k : String) (fs : Fields) → IsMap fs → lookup k (strip_fields fs) ≡ strip_found (lookup k fs)
unfolding lookup strip_fields
lookup-strip_fields k end m = refl
lookup-strip_fields k (field j v fs) m = elim (Bool-cases (str_eq j k)) [
  | inl e ↦
      let jk : j ≡ k = (eq_iff j k).0 e in
      let gone : lookup k fs ≡ none = rw (← jk) m.0 in
      rw (e, jk)
        (add_entry_hit k (strip_value v) (strip_fields fs)
          (lookup-strip_fields k fs m.1 ∙ ap strip_found gone))
  | inr e ↦
      rw e (add_entry_miss j k (strip_value v) (strip_fields fs) e ∙ lookup-strip_fields k fs m.1)
]

-- A text stays where it is found first.
pub strip_fields_keeps :
    (k : String) (fs : Fields) {s : String}
    → lookup k fs ≡ some (str s)
    → lookup k (strip_fields fs) ≡ some (str s)
unfolding lookup strip_fields strip_value
strip_fields_keeps k end h = cc
strip_fields_keeps k (field j v fs) {s} h = elim (Bool-cases (str_eq j k)) [
  | inl e ↦
      let jk : j ≡ k = (eq_iff j k).0 e in
      let text : v ≡ str s = ground arith in rw (jk, text) (lookup_hit k (str s) (strip_fields fs))
  | inr e ↦
      add_entry_miss j k (strip_value v) (strip_fields fs) e ∙ strip_fields_keeps k fs (rw e at h)
]

pub lookup-clone_fields :
    (k : String) (fs : Fields) → lookup k (clone_fields fs) ≡ clone_found (lookup k fs)
unfolding lookup clone_fields
lookup-clone_fields k end = refl
lookup-clone_fields k (field j v fs) = elim (Bool-cases (str_eq j k)) [
  | inl e ↦ rw e
  | inr e ↦ rw e (lookup-clone_fields k fs)
]

pub clone_fields-IsMap : (fs : Fields) → IsMap fs → IsMap (clone_fields fs)
unfolding clone_fields
clone_fields-IsMap end m = tt
clone_fields-IsMap (field k v fs) m =
    (lookup-clone_fields k fs ∙ ap clone_found m.0, clone_fields-IsMap fs m.1)

pub lookup-non_empty : (k : String) (fs : Fields) → lookup k (entries (non_empty fs)) ≡ lookup k fs
lookup-non_empty k end = refl
lookup-non_empty k (field j v fs) = refl

-- The keys that the privacy options leave out.
abbrev unless : Bool → String → List String → List String
unless captured k ks = if captured then ks else k ∷ ks

abbrev request_keys : List String
request_keys =
    "files" ∷ "session" ∷ "cookies" ∷ "bodyParams" ∷ "queryParams" ∷ "headers" ∷ "method" ∷ "url"
    ∷ "ip" ∷ []

abbrev pub excluded_keys : PrivacyOptions → List String
excluded_keys o = unless o.capture_env "env" (
    if not o.capture_request_context
    then request_keys
    else unless o.capture_files "files" (
        unless o.capture_session "session" (
          unless o.capture_cookies "cookies"
            (unless o.capture_body "bodyParams" (unless o.capture_headers "headers" [])))))

delete_all : List String → Fields → Fields
delete_all [] fs = fs
delete_all (k ∷ ks) fs = delete k (delete_all ks fs)

delete_unless-all :
    (b : Bool) (k : String) (ks : List String) (fs : Fields)
    → delete_unless b k (delete_all ks fs) ≡ delete_all (unless b k ks) fs
unfolding delete_all
delete_unless-all true k ks fs = refl
delete_unless-all false k ks fs = refl

delete_request :
    (context files session cookies body headers : Bool) (fs : Fields)
    → (if not context
        then delete "files" (
            delete "session" (
              delete "cookies" (
                delete "bodyParams" (
                  delete "queryParams"
                    (delete "headers" (delete "method" (delete "url" (delete "ip" fs))))))))
        else delete_unless files "files" (
            delete_unless session "session" (
              delete_unless cookies "cookies"
                (delete_unless body "bodyParams" (delete_unless headers "headers" fs)))))
      ≡ delete_all
          (if not context
            then request_keys
            else unless files "files" (
                unless session "session" (
                  unless cookies "cookies"
                    (unless body "bodyParams" (unless headers "headers" [])))))
          fs
unfolding delete_all
delete_request false files session cookies body headers fs = refl
delete_request true files session cookies body headers fs =
    ap
      (λ m. delete_unless files "files" (
        delete_unless session "session"
          (delete_unless cookies "cookies" (delete_unless body "bodyParams" m))))
      (delete_unless-all headers "headers" [] fs)
    ∙ ap
        (λ m.
          delete_unless files "files"
            (delete_unless session "session" (delete_unless cookies "cookies" m)))
        (delete_unless-all body "bodyParams" _ fs)
    ∙ ap (λ m. delete_unless files "files" (delete_unless session "session" m))
        (delete_unless-all cookies "cookies" _ fs)
    ∙ ap (delete_unless files "files") (delete_unless-all session "session" _ fs)
    ∙ delete_unless-all files "files" _ fs

apply_privacy-all :
    (fs : Fields) (o : PrivacyOptions) → apply_privacy fs o ≡ delete_all (excluded_keys o) fs
unfolding apply_privacy
apply_privacy-all fs o =
    ap (delete_unless o.capture_env "env") (
      delete_request o.capture_request_context o.capture_files o.capture_session o.capture_cookies
        o.capture_body o.capture_headers fs)
    ∙ delete_unless-all o.capture_env "env" _ fs

lookup-delete_all :
    (k : String) (ks : List String) (fs : Fields)
    → lookup k (delete_all ks fs) ≡ (if contains k ks then none else lookup k fs)
unfolding delete_all contains
lookup-delete_all k [] fs = refl
lookup-delete_all k (x ∷ ks) fs =
    lookup-delete x k (delete_all ks fs)
    ∙ ground (arith, eq_iff x k, eq_iff k x, lookup-delete_all k ks fs)

delete_all-IsMap : (ks : List String) (fs : Fields) → IsMap fs → IsMap (delete_all ks fs)
unfolding delete_all
delete_all-IsMap [] fs m = m
delete_all-IsMap (k ∷ ks) fs m = delete-IsMap k (delete_all ks fs) (delete_all-IsMap ks fs m)

pub lookup-apply_privacy :
    (k : String) (fs : Fields) (o : PrivacyOptions)
    → lookup k (apply_privacy fs o) ≡ (if contains k (excluded_keys o) then none else lookup k fs)
lookup-apply_privacy k fs o =
    ap (lookup k) (apply_privacy-all fs o) ∙ lookup-delete_all k (excluded_keys o) fs

pub apply_privacy-IsMap : (fs : Fields) (o : PrivacyOptions) → IsMap fs → IsMap (apply_privacy fs o)
apply_privacy-IsMap fs o m = rw (apply_privacy-all fs o) (delete_all-IsMap (excluded_keys o) fs m)
