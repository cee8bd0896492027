-- ===== src/Text/Trim.antt =====
-- Trimming of white space: both ends of what is left.
use Prim.Native.Char.{Char, code}
use duckbug_go.Base.{
  ◌≤◌, str_eq, eq_iff, arith, true, ◌≡◌, refl, Bool, false, String, Bool-cases, inl, inr, ap,
}
use duckbug_go.Text.{
  trim_left, trim_right, trim_space, keep_char, is_space, is_space_code, is_blank,
}

module _ (f : Char → Bool) where
  abbrev NoLead : String → Type 0
  NoLead String.[] = Unit {0}
  NoLead (String.◌∷◌ c s) = f c ≡ false

  trim_left-NoLead : (s : String) → NoLead (trim_left f s)
  unfolding trim_left
  trim_left-NoLead String.[] = tt
  trim_left-NoLead (String.◌∷◌ c s) = elim (Bool-cases (f c)) [
    | inl e ↦ rw e (trim_left-NoLead s)
    | inr e ↦ rw e e
  ]

  trim_left_of_NoLead : (s : String) → NoLead s → trim_left f s ≡ s
  unfolding trim_left
  trim_left_of_NoLead String.[] h = refl
  trim_left_of_NoLead (String.◌∷◌ c s) h = rw h

  keep_char-NoLead : (c : Char) (s : String) → f c ≡ false → NoLead (keep_char f c s)
  keep_char-NoLead c String.[] h = rw h h
  keep_char-NoLead c (String.◌∷◌ d s) h = h

  trim_right-NoLead : (s : String) → NoLead s → NoLead (trim_right f s)
  unfolding trim_right
  trim_right-NoLead String.[] h = tt
  trim_right-NoLead (String.◌∷◌ c s) h = keep_char-NoLead c (trim_right f s) h

  trim_right-keep_char :
      (c : Char) (s : String)
      → trim_right f s ≡ s
      → trim_right f (keep_char f c s) ≡ keep_char f c s
  unfolding trim_right
  trim_right-keep_char c String.[] h = elim (Bool-cases (f c)) [ inl e ↦ rw e | inr e ↦ rw (e, e) ]
  trim_right-keep_char c (String.◌∷◌ d s) h = ap (keep_char f c) h

  trim_right_idem : (s : String) → trim_right f (trim_right f s) ≡ trim_right f s
  unfolding trim_right
  trim_right_idem String.[] = refl
  trim_right_idem (String.◌∷◌ c s) = trim_right-keep_char c (trim_right f s) (trim_right_idem s)

pub trim_space_idem : (s : String) → trim_space (trim_space s) ≡ trim_space s
unfolding trim_space
trim_space_idem s =
    rw (trim_left_of_NoLead is_space _ (trim_right-NoLead is_space _ (trim_left-NoLead is_space s)))
      (trim_right_idem is_space (trim_left is_space s))

is_filled : String → Bool
is_filled String.[] = false
is_filled (String.◌∷◌ c s) = true

filled : (c : Char) (s : String) → str_eq (String.◌∷◌ c s) "" ≡ false
unfolding is_filled
filled c s = elim (Bool-cases (str_eq (String.◌∷◌ c s) "")) [
  | inl e ↦
      let empty : true ≡ false = ap is_filled ((eq_iff (String.◌∷◌ c s) "").0 e) in ground arith
  | inr e ↦ e
]

keep_char-visible :
    (c : Char) (s : String) → is_space c ≡ false → str_eq (keep_char is_space c s) "" ≡ false
keep_char-visible c String.[] e = rw e (filled c "")
keep_char-visible c (String.◌∷◌ d s) e = filled c (String.◌∷◌ d s)

-- A text that starts with a character that is not white space is not blank.
pub is_blank-visible :
    (c : Char) (s : String) → is_space c ≡ false → is_blank (String.◌∷◌ c s) ≡ false
unfolding trim_space trim_left trim_right
is_blank-visible c s e = rw e (keep_char-visible c (trim_right is_space s) e)

-- The characters from '0' to 'f' are not white space.
pub is_space-visible : (c : Char) → 48 ≤ code c → code c ≤ 102 → is_space c ≡ false
unfolding is_space is_space_code
is_space-visible c l h = ground arith
