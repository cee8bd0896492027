-- ===== src/Text.antt =====
-- What the source uses of Go's `strings`: `TrimSpace`, `TrimLeft`, `TrimRight`, `ToLower`, `HasPrefix`
-- and `strings.Cut`, over texts that are lists of characters.
pub mod Trim
use Prim.Native.Char.{Char, code, nul}
use duckbug_go.Base.{
  ℕ, zero, suc, ◌-◌, ◌/◌, ◌%◌, Bool, true, false, ◌&&◌, ◌||◌, String, str_eq, leb, ◌==◌,
  if◌then◌else◌, Option, none, some, List, [], ◌∷◌,
}

-- `unicode.IsSpace`: the white space of `strings.TrimSpace`.
is_space_code : ℕ → Bool
is_space_code n =
    leb 9 n && leb n 13
    || n == 32
    || n == 0x85
    || n == 0xa0
    || n == 0x1680
    || leb 0x2000 n && leb n 0x200a
    || n == 0x2028
    || n == 0x2029
    || n == 0x202f
    || n == 0x205f
    || n == 0x3000

unfoldable pub is_space : Char → Bool
unfolding is_space_code
is_space c = is_space_code (code c)

unfoldable pub trim_left : (Char → Bool) → String → String
trim_left f String.[] = ""
trim_left f (String.◌∷◌ c s) = if f c then trim_left f s else String.◌∷◌ c s

abbrev pub keep_char : (Char → Bool) → Char → String → String
keep_char f c String.[] = if f c then "" else String.◌∷◌ c ""
keep_char f c (String.◌∷◌ d s) = String.◌∷◌ c (String.◌∷◌ d s)

unfoldable pub trim_right : (Char → Bool) → String → String
trim_right f String.[] = ""
trim_right f (String.◌∷◌ c s) = keep_char f c (trim_right f s)

-- `strings.TrimSpace`.
unfoldable pub trim_space : String → String
unfolding trim_left trim_right is_space
trim_space s = trim_right is_space (trim_left is_space s)

-- The simple case mappings outside of ASCII, `unicode.ToLower` and `unicode.ToUpper`, are tables of the
-- Unicode database.
pub record Unicode : Type 0 where
  pub lower_rune : Char → Char
  pub upper_rune : Char → Char

unfoldable pub char_or : Char → ℕ → String → Char
char_or d n String.[] = d
char_or d n (String.◌∷◌ c s) = if n == 0 then c else char_or d (n - 1) s

lower_char : Unicode → Char → Char
unfolding char_or
lower_char u c =
    if leb (code c) 127
    then (if leb 65 (code c) && leb (code c) 90
        then char_or c (code c - 65) "abcdefghijklmnopqrstuvwxyz"
        else c)
    else u.lower_rune c

lower_all : Unicode → String → String
unfolding lower_char
lower_all u String.[] = ""
lower_all u (String.◌∷◌ c s) = String.◌∷◌ (lower_char u c) (lower_all u s)

-- `strings.ToLower`.
unfoldable pub to_lower : ⦃u : Unicode⦄ → String → String
unfolding lower_all
to_lower ⦃u⦄ s = lower_all u s

-- A text is blank when `strings.TrimSpace` leaves nothing.
abbrev pub is_blank : String → Bool
is_blank s = str_eq (trim_space s) ""

-- `_, ok := set[key]` for a set of texts.
unfoldable pub contains : String → List String → Bool
contains k [] = false
contains k (x ∷ xs) = str_eq k x || contains k xs

-- The text before the first character `c`, and the text after it.
abbrev cut_cons : Char → Option (String × String) → Option (String × String)
cut_cons c none = none
cut_cons c (some (before, after)) = some (String.◌∷◌ c before, after)

-- `strings.Cut` at a separator of one character.
unfoldable pub cut : ℕ → String → Option (String × String)
cut separator String.[] = none
cut separator (String.◌∷◌ c s) =
    if code c == separator then some ("", s) else cut_cons c (cut separator s)

upper_char : Unicode → Char → Char
unfolding char_or
upper_char u c =
    if leb (code c) 127
    then (if leb 97 (code c) && leb (code c) 122
        then char_or c (code c - 97) "ABCDEFGHIJKLMNOPQRSTUVWXYZ"
        else c)
    else u.upper_rune c

upper_all : Unicode → String → String
unfolding upper_char
upper_all u String.[] = ""
upper_all u (String.◌∷◌ c s) = String.◌∷◌ (upper_char u c) (upper_all u s)

-- `strings.ToUpper`.
unfoldable pub to_upper : ⦃u : Unicode⦄ → String → String
unfolding upper_all
to_upper ⦃u⦄ s = upper_all u s

digits_from : ℕ → ℕ → String → String
unfolding char_or
digits_from zero n acc = acc
digits_from (suc fuel) n acc =
    let text = String.◌∷◌ (char_or nul (n % 10) "0123456789") acc in
    let rest = digits_from fuel (n / 10) text in if n / 10 == 0 then text else rest

-- `strconv.Itoa` at a number that is not negative, which has at most as many digits as it has units.
unfoldable pub itoa : ℕ → String
unfolding digits_from
itoa n = digits_from (suc n) n ""

unfoldable pub has_prefix : String → String → Bool
has_prefix s String.[] = true
has_prefix String.[] (String.◌∷◌ d t) = false
has_prefix (String.◌∷◌ c s) (String.◌∷◌ d t) = code c == code d && has_prefix s t
