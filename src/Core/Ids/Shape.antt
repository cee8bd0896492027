-- ===== src/Core/Ids/Shape.antt =====
-- core/util.go: the shape of event ids.
use Prim.Native.Char.{Char, code}
use duckbug_go.Base.{
  ℕ, zero, suc, ◌-◌, ◌/◌, ◌%◌, ◌^◌, ◌==◌, leb, Bool, true, false, ◌&&◌, ◌||◌, String, Option, none,
  some, List, [], ◌∷◌, ◌≡◌, ◌≢◌, refl, ◌∙◌, ◌⊎◌, inl, inr, arith, Bool-cases,
}
use duckbug_go.Text.{char_or}
use duckbug_go.Text.{is_blank}
use duckbug_go.Text.Trim.{is_blank-visible, is_space-visible}
use duckbug_go.Core.Ids.{
  hex_digit, hex_digits, dash, byte, Bytes, version_byte, variant_byte, random_id, clock_id,
  new_event_id,
}

pub data Slot : Type 0 where
  hex_slot dash_slot version_slot variant_slot : Slot

-- '0' to '9' and 'a' to 'f'; '-'; '4'; and '8', '9', 'a' or 'b'.
abbrev pub fits : Slot → ℕ → Bool
fits hex_slot n = leb 48 n && leb n 57 || leb 97 n && leb n 102
fits dash_slot n = n == 45
fits version_slot n = n == 52
fits variant_slot n = n == 56 || n == 57 || n == 97 || n == 98

unfoldable pub has_shape : List Slot → String → Bool
has_shape [] String.[] = true
has_shape [] (String.◌∷◌ c s) = false
has_shape (t ∷ ts) String.[] = false
has_shape (t ∷ ts) (String.◌∷◌ c s) = fits t (code c) && has_shape ts s

abbrev pub hexes : ℕ → List Slot → List Slot
hexes zero ts = ts
hexes (suc w) ts = hexes w (hex_slot ∷ ts)

-- The 36 characters of the id.
abbrev pub uuid4 : List Slot
uuid4 = hexes 8 (
    dash_slot
    ∷ hexes 4 (
        dash_slot
        ∷ version_slot
        ∷ hexes 3 (dash_slot ∷ variant_slot ∷ hexes 3 (dash_slot ∷ hexes 12 []))))

false≢true : false ≢ true
false≢true e = ground arith

abbrev pub all_hex : String → Bool
all_hex String.[] = true
all_hex (String.◌∷◌ c s) = fits hex_slot (code c) && all_hex s

and_split : (a b : Bool) → (a && b) ≡ true → (a ≡ true) × (b ≡ true)
and_split true b h = (refl, h)
and_split false b h = elim (false≢true h) [ ]

char_or-hex :
    (d : Char) (n : ℕ) (s : String)
    → fits hex_slot (code d) ≡ true
    → all_hex s ≡ true
    → fits hex_slot (code (char_or d n s)) ≡ true
unfolding char_or
char_or-hex d n String.[] h e = h
char_or-hex d n (String.◌∷◌ c s) h e =
    let split = and_split (fits hex_slot (code c)) (all_hex s) e in
    elim (Bool-cases (n == 0)) [
      | inl z ↦ rw z split.0
      | inr z ↦ rw z (char_or-hex d (n - 1) s h split.1)
    ]

pub hex_char : (n : ℕ) → fits hex_slot (code (hex_digit n)) ≡ true
unfolding hex_digit
hex_char n = char_or-hex "0" n "0123456789abcdef" refl refl

has_shape-hex_digits :
    (w n : ℕ) (ts : List Slot) (rest : String)
    → has_shape (hexes w ts) (hex_digits w n rest) ≡ has_shape ts rest
unfolding hex_digits has_shape
has_shape-hex_digits zero n ts rest = refl
has_shape-hex_digits (suc w) n ts rest =
    has_shape-hex_digits w (n / 16) (hex_slot ∷ ts) _ ∙ rw (hex_char (n % 16))

has_shape-dash :
    (ts : List Slot) (rest : String) → has_shape (dash_slot ∷ ts) (dash rest) ≡ has_shape ts rest
unfolding has_shape
has_shape-dash ts rest = refl

version_digit : (b : ℕ) → version_byte b / 16 % 16 ≡ 4
version_digit b = omega arith

has_shape-version :
    (b : ℕ) (ts : List Slot) (rest : String)
    → has_shape (version_slot ∷ hex_slot ∷ ts) (hex_digits 2 (version_byte b) rest)
      ≡ has_shape ts rest
unfolding hex_digits has_shape hex_digit char_or
has_shape-version b ts rest = rw (version_digit b) (rw (hex_char (version_byte b % 16)))

variant_digit :
    (b : ℕ)
    → (variant_byte b / 16 % 16 ≡ 8)
      ⊎ (variant_byte b / 16 % 16 ≡ 9)
      ⊎ (variant_byte b / 16 % 16 ≡ 10)
      ⊎ (variant_byte b / 16 % 16 ≡ 11)
variant_digit b = ground arith

fits-variant : (b : ℕ) → fits variant_slot (code (hex_digit (variant_byte b / 16 % 16))) ≡ true
unfolding hex_digit char_or
fits-variant b = elim (variant_digit b) [
  | inl e ↦ rw e
  | inr (inl e) ↦ rw e
  | inr (inr (inl e)) ↦ rw e
  | inr (inr (inr e)) ↦ rw e
]

has_shape-variant :
    (b : ℕ) (ts : List Slot) (rest : String)
    → has_shape (variant_slot ∷ hex_slot ∷ ts) (hex_digits 2 (variant_byte b) rest)
      ≡ has_shape ts rest
unfolding hex_digits has_shape
has_shape-variant b ts rest = rw (fits-variant b, hex_char (variant_byte b % 16))

has_shape-byte :
    (b : ℕ) (ts : List Slot) (rest : String)
    → has_shape (hex_slot ∷ hex_slot ∷ ts) (byte b rest) ≡ has_shape ts rest
has_shape-byte b ts rest = has_shape-hex_digits 2 b ts rest

nothing_left : has_shape [] "" ≡ true
unfolding has_shape
nothing_left = refl

random_id-uuid4 : (d : Bytes) → has_shape uuid4 (random_id d) ≡ true
unfolding random_id
random_id-uuid4 d =
    has_shape-byte d.b0 _ _
    ∙ has_shape-byte d.b1 _ _
    ∙ has_shape-byte d.b2 _ _
    ∙ has_shape-byte d.b3 _ _
    ∙ has_shape-dash _ _
    ∙ has_shape-byte d.b4 _ _
    ∙ has_shape-byte d.b5 _ _
    ∙ has_shape-dash _ _
    ∙ has_shape-version d.b6 _ _
    ∙ has_shape-byte d.b7 _ _
    ∙ has_shape-dash _ _
    ∙ has_shape-variant d.b8 _ _
    ∙ has_shape-byte d.b9 _ _
    ∙ has_shape-dash _ _
    ∙ has_shape-byte d.b10 _ _
    ∙ has_shape-byte d.b11 _ _
    ∙ has_shape-byte d.b12 _ _
    ∙ has_shape-byte d.b13 _ _
    ∙ has_shape-byte d.b14 _ _
    ∙ has_shape-byte d.b15 _ _
    ∙ nothing_left

has_shape-four :
    (ts : List Slot) (rest : String)
    → has_shape (version_slot ∷ ts) (String.◌∷◌ "4" rest) ≡ has_shape ts rest
unfolding has_shape
has_shape-four ts rest = refl

has_shape-a :
    (ts : List Slot) (rest : String)
    → has_shape (variant_slot ∷ ts) (String.◌∷◌ "a" rest) ≡ has_shape ts rest
unfolding has_shape
has_shape-a ts rest = refl

clock_id-uuid4 : (now : ℕ) → has_shape uuid4 (clock_id now) ≡ true
unfolding clock_id
clock_id-uuid4 now =
    has_shape-hex_digits 8 (now / 2 ^ 32 % 2 ^ 32) _ _
    ∙ has_shape-dash _ _
    ∙ has_shape-hex_digits 4 (now / 2 ^ 16 % 2 ^ 16) _ _
    ∙ has_shape-dash _ _
    ∙ has_shape-four _ _
    ∙ has_shape-hex_digits 3 (now % 2 ^ 12) _ _
    ∙ has_shape-dash _ _
    ∙ has_shape-a _ _
    ∙ has_shape-hex_digits 3 (now / 16 % 2 ^ 12) _ _
    ∙ has_shape-dash _ _
    ∙ has_shape-hex_digits 12 (now % 2 ^ 48) _ _
    ∙ nothing_left

-- Every event id, from random bytes or from the clock, has the 36 characters of a version 4 UUID: digits in
-- groups of eight, four, four, four and twelve, the version 4 and one of the variants 8, 9, a and b.
pub new_event_id-uuid4 :
    (random : Option Bytes) (now : ℕ) → has_shape uuid4 (new_event_id random now) ≡ true
unfolding new_event_id
new_event_id-uuid4 none now = clock_id-uuid4 now
new_event_id-uuid4 (some d) now = random_id-uuid4 d

not_blank : (s : String) → has_shape uuid4 s ≡ true → is_blank s ≡ false
unfolding has_shape
not_blank String.[] h = elim (false≢true h) [ ]
not_blank (String.◌∷◌ c s) h =
    let first = (and_split (fits hex_slot (code c)) _ h).0 in
    is_blank-visible c s (is_space-visible c (ground arith) (ground arith))

-- No event id is blank.
pub is_blank-new_event_id :
    (random : Option Bytes) (now : ℕ) → is_blank (new_event_id random now) ≡ false
is_blank-new_event_id random now =
    not_blank (new_event_id random now) (new_event_id-uuid4 random now)
