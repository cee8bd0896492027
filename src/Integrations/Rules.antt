-- ===== src/Integrations/Rules.antt =====
-- integrations/nethttp/middleware.go and integrations/grpc/interceptor.go: what the two server integrations do
-- alike: lists of ignored names, sampling, and maps of lists of texts. The loops are those of nethttp; the ones
-- of grpc are written the same.
use duckbug_go.Base.{
  ℕ, ◌+◌, String, str_eq, Bool, true, false, not, ◌&&◌, ◌||◌, leb, ◌==◌, Option, none, some, List,
  [], ◌∷◌, if◌then◌else◌, is_nil,
}
use duckbug_go.Base.Float.{float_le, float_lt, float_zero, float_one}
use duckbug_go.Text.{trim_space, has_prefix, is_blank}
use duckbug_go.Value.{Value, str, list, Fields, insert, any_items}
use Prim.Native.Char.{code}

-- `net.ParseIP` with `String`, and the host of `net.SplitHostPort`.
pub record Network : Type 0 where
  pub parse_ip : String → Option String
  pub split_host : String → Option String

abbrev pub text_or_empty : Option String → String
text_or_empty none = ""
text_or_empty (some s) = s

-- `http.Header` and `url.Values`: the texts of each key.
abbrev pub Values : Type 0
Values = List (String × List String)

abbrev first_value : List String → String
first_value [] = ""
first_value (v ∷ vs) = v

-- `Header.Get`, at a canonical key.
unfoldable pub get_header : String → Values → String
get_header key [] = ""
get_header key ((k, values) ∷ header) =
    if str_eq k key then first_value values else get_header key header

-- The loop over `IgnoredPaths`, or `IgnoredMethods`.
unfoldable pub any_listed : String → List String → Bool
any_listed path [] = false
any_listed path (item ∷ items) = str_eq path (trim_space item) || any_listed path items

-- The loop over `IgnoredPathPrefixes`, or `IgnoredMethodPrefixes`.
unfoldable pub any_prefix : String → List String → Bool
any_prefix path [] = false
any_prefix path (item ∷ items) =
    not (is_blank item) && has_prefix path (trim_space item) || any_prefix path items

abbrev pub skips {ℓ} : {A : Type ℓ} → Option (A → Bool) → A → Bool
skips none a = false
skips (some f) a = f a

-- Simple case folding of what folds to an ASCII letter: besides the capitals, U+017F is an s and U+212A a k.
abbrev fold_code : ℕ → ℕ
fold_code n =
    if leb 65 n && leb n 90
    then n + 32
    else if n == 0x17f
    then 115
    else if n == 0x212a
    then 107
    else n

-- `strings.EqualFold`, at a second text that is ASCII.
unfoldable pub equal_fold : String → String → Bool
equal_fold String.[] String.[] = true
equal_fold String.[] (String.◌∷◌ d t) = false
equal_fold (String.◌∷◌ c s) String.[] = false
equal_fold (String.◌∷◌ c s) (String.◌∷◌ d t) =
    fold_code (code c) == fold_code (code d) && equal_fold s t

-- `strings.Contains`.
unfoldable pub has_infix : String → String → Bool
unfolding has_prefix
has_infix String.[] sub = has_prefix "" sub
has_infix (String.◌∷◌ c s) sub = has_prefix (String.◌∷◌ c s) sub || has_infix s sub

-- The value of an entry: one text, or a list.
abbrev pub one_or_list : List String → Value
one_or_list [] = list (any_items str [])
one_or_list (v ∷ []) = str v
one_or_list (v ∷ w ∷ vs) = list (any_items str (v ∷ w ∷ vs))

-- The body of the loops of `headersToMap` and `valuesToMap`.
abbrev pub put_values : String → List String → Fields → Fields
put_values key values out = if is_nil values then out else insert key (one_or_list values) out

unfoldable pub values_from : Values → Fields → Fields
values_from [] out = out
values_from ((key, values) ∷ m) out = values_from m (put_values key values out)

-- The switch of `shouldCaptureTransaction`, at what `rand.Float64()` returns.
unfoldable pub sampled : (draw rate : ℕ) → Bool
unfolding float_le float_lt
sampled draw rate =
    if float_le rate float_zero
    then false
    else if float_le float_one rate
    then true
    else float_lt draw rate

-- `strings.HasSuffix`.
unfoldable pub has_suffix : String → String → Bool
has_suffix String.[] suffix = str_eq suffix ""
has_suffix (String.◌∷◌ c s) suffix = str_eq (String.◌∷◌ c s) suffix || has_suffix s suffix
