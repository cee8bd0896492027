-- ===== src/Integrations/Middleware/Plain.antt =====
-- integrations/nethttp/middleware.go: the maps of a request's context are JSON-like data.
use duckbug_go.Base.{
  ℕ, String, Bool, true, false, Option, none, some, List, [], ◌∷◌, inl, inr, Bool-cases,
  if◌then◌else◌, is_nil,
}
use duckbug_go.Text.{Unicode}
use duckbug_go.Value.{str, Fields, end, any_items}
use duckbug_go.Pond.Masked.{IsPlain, IsPlainFields, IsPlainItems}
use duckbug_go.Core.Util.{
  Reflection, Json, json_null, json_bool, json_float, json_string, json_array, json_object, decoded,
}
use duckbug_go.Core.Util.Normal.{normalize_value-IsPlain, normalize_value-decoded}
use duckbug_go.Core.Duck.Plain.{OptPlain}
use duckbug_go.Core.Duck.Spans.{insert-IsPlain}
use duckbug_go.Core.Duck.Safe.{RequestPlain}
use duckbug_go.Integrations.Rules.{Values, Network, one_or_list, put_values, values_from}
use duckbug_go.Integrations.Middleware.Requests.{
  Request, Config, Encodings, Body, values_to_map, headers_to_map, cookies_from, cookies_to_map,
  object_of, values_of, parse_body, reads_body, body_params, build_request_context,
}

texts-IsPlain : (xs : List String) → IsPlainItems (any_items str xs)
unfolding any_items
texts-IsPlain [] = tt
texts-IsPlain (x ∷ xs) = (tt, texts-IsPlain xs)

one_or_list-IsPlain : (xs : List String) → IsPlain (one_or_list xs)
one_or_list-IsPlain [] = texts-IsPlain []
one_or_list-IsPlain (x ∷ []) = tt
one_or_list-IsPlain (x ∷ y ∷ xs) = texts-IsPlain (x ∷ y ∷ xs)

pub put_values-IsPlain :
    (k : String) (xs : List String) (out : Fields)
    → IsPlainFields out
    → IsPlainFields (put_values k xs out)
put_values-IsPlain k xs out h = elim (Bool-cases (is_nil xs)) [
  | inl e ↦ rw e h
  | inr e ↦ rw e (insert-IsPlain k _ out (one_or_list-IsPlain xs) h)
]

values_from-IsPlain :
    (m : Values) (out : Fields) → IsPlainFields out → IsPlainFields (values_from m out)
unfolding values_from
values_from-IsPlain [] out h = h
values_from-IsPlain ((k, xs) ∷ m) out h = values_from-IsPlain m _ (put_values-IsPlain k xs out h)

values_to_map-OptPlain : (m : Values) → OptPlain (values_to_map m)
unfolding values_to_map
values_to_map-OptPlain [] = tt
values_to_map-OptPlain (x ∷ m) = values_from-IsPlain (x ∷ m) end tt

headers_to_map-OptPlain : (m : Values) → OptPlain (headers_to_map m)
unfolding headers_to_map
headers_to_map-OptPlain [] = tt
headers_to_map-OptPlain (x ∷ m) = values_from-IsPlain (x ∷ m) end tt

cookies_from-IsPlain :
    (m : List (String × String)) (out : Fields)
    → IsPlainFields out
    → IsPlainFields (cookies_from m out)
unfolding cookies_from
cookies_from-IsPlain [] out h = h
cookies_from-IsPlain ((k, v) ∷ m) out h = cookies_from-IsPlain m _ (insert-IsPlain k _ out tt h)

cookies_to_map-OptPlain : (m : List (String × String)) → OptPlain (cookies_to_map m)
unfolding cookies_to_map
cookies_to_map-OptPlain [] = tt
cookies_to_map-OptPlain (x ∷ m) = cookies_from-IsPlain (x ∷ m) end tt

module _ ⦃r : Reflection⦄ where
  decoded-IsPlain : (j : Json) → IsPlain (decoded j)
  decoded-IsPlain j = rw (← normalize_value-decoded j) (normalize_value-IsPlain (decoded j))

  object_of-OptPlain : (o : Option Json) → OptPlain (object_of o)
  unfolding decoded
  object_of-OptPlain none = tt
  object_of-OptPlain (some json_null) = tt
  object_of-OptPlain (some (json_bool b)) = tt
  object_of-OptPlain (some (json_float x)) = tt
  object_of-OptPlain (some (json_string s)) = tt
  object_of-OptPlain (some (json_array xs)) = tt
  object_of-OptPlain (some (json_object fs)) = decoded-IsPlain (json_object fs)

values_of-OptPlain : (o : Option Values) → OptPlain (values_of o)
values_of-OptPlain none = tt
values_of-OptPlain (some m) = values_to_map-OptPlain m

optional-OptPlain : (b : Bool) (m : Option Fields) → OptPlain m → OptPlain (if b then none else m)
optional-OptPlain true m h = tt
optional-OptPlain false m h = h

module _ ⦃u : Unicode⦄ ⦃r : Reflection⦄ ⦃e : Encodings⦄ where
  either-OptPlain :
      (b c : Bool) (m k : Option Fields)
      → OptPlain m
      → OptPlain k
      → OptPlain (if b then m else if c then k else none)
  either-OptPlain true c m k h i = h
  either-OptPlain false true m k h i = i
  either-OptPlain false false m k h i = tt

  parse_body-OptPlain : (t : String) (bytes : List ℕ) → OptPlain (parse_body t bytes)
  unfolding parse_body
  parse_body-OptPlain t bytes =
      either-OptPlain _ _ _ _ (object_of-OptPlain (e.unmarshal bytes))
        (values_of-OptPlain (e.parse_query bytes))

  abbrev first_of : Option Fields × Request → Option Fields
  first_of q = q.0

  read-OptPlain :
      (b : Bool) (m : Option Fields) (x y : Request)
      → OptPlain m
      → OptPlain (first_of (if b then (m, x) else (none, y)))
  read-OptPlain true m x y h = h
  read-OptPlain false m x y h = tt

  body-OptPlain :
      (o : Option Body) (req : Request) (config : Config)
      → OptPlain (body_params (record req { body = o }) config).0
  unfolding body_params
  body-OptPlain none req config = tt
  body-OptPlain (some b) req config =
      read-OptPlain (reads_body (record req { body = some b }) config) _ _ _
        (optional-OptPlain b.fails _ (parse_body-OptPlain _ b.bytes))

module _ ⦃u : Unicode⦄ ⦃r : Reflection⦄ ⦃n : Network⦄ ⦃e : Encodings⦄ where
  -- Every map of the request's context is JSON-like data.
  pub context-RequestPlain :
      (req : Request) (config : Config) → RequestPlain (some (build_request_context req config).0)
  unfolding build_request_context
  context-RequestPlain req config = (
    headers_to_map-OptPlain req.header,
    values_to_map-OptPlain req.url.query,
    body-OptPlain req.body req config,
    cookies_to_map-OptPlain req.cookies,
    tt,
    tt,
  )
