-- ===== src/Core/Ids/Hex.antt =====
-- core/util.go: the ids of traces and spans.
use duckbug_go.Base.{
  ℕ, zero, suc, ◌+◌, ◌*◌, ◌/◌, ◌%◌, true, String, Option, none, some, List, [], ◌∷◌, length, ◌≡◌,
  refl, ap, ◌∙◌, arith,
}
use duckbug_go.Base.Int.{pos}
use duckbug_go.Core.Ids.{
  hex_digit, hex_digits, hex_of_bytes, padded_hex, default_hex_id, default_trace_id,
  default_span_id,
}
use duckbug_go.Core.Ids.Shape.{all_hex, hex_char}

-- The number of characters.
abbrev pub characters : String → ℕ
characters String.[] = 0
characters (String.◌∷◌ c s) = suc (characters s)

-- That many hexadecimal digits, and nothing else.
abbrev pub IsHex : ℕ → String → Type 0
IsHex n s = (characters s ≡ n) × (all_hex s ≡ true)

hex_digits-IsHex : (w n k : ℕ) (rest : String) → IsHex k rest → IsHex (w + k) (hex_digits w n rest)
unfolding hex_digits
hex_digits-IsHex zero n k rest h = (h.0 ∙ omega arith, h.1)
hex_digits-IsHex (suc w) n k rest h =
    let (size, digits) =
      hex_digits-IsHex w (n / 16) (suc k) (String.◌∷◌ (hex_digit (n % 16)) rest)
        (ap suc h.0, rw (hex_char (n % 16)) h.1) in
    (size ∙ omega arith, digits)

hex_of_bytes-IsHex : (bytes : List ℕ) → IsHex (length bytes * 2) (hex_of_bytes bytes)
unfolding hex_of_bytes
hex_of_bytes-IsHex [] = (refl, refl)
hex_of_bytes-IsHex (b ∷ bytes) =
    let (size, digits) = hex_digits-IsHex 2 b _ (hex_of_bytes bytes) (hex_of_bytes-IsHex bytes) in
    (size ∙ omega arith, digits)

-- The bytes that `rand.Read` filled are as many as were asked for.
abbrev pub Filled : ℕ → Option (List ℕ) → Type 0
Filled n none = Unit
Filled n (some bytes) = length bytes ≡ n

default_hex_id-IsHex :
    (n : ℕ) (random : Option (List ℕ)) (now : ℕ)
    → Filled n random
    → IsHex (n * 2) (default_hex_id (pos n) random now)
unfolding default_hex_id padded_hex
default_hex_id-IsHex zero random now h = (refl, refl)
default_hex_id-IsHex (suc n) none now h =
    let (size, digits) = hex_digits-IsHex (suc n * 2) now 0 "" (refl, refl) in
    (size ∙ omega arith, digits)
default_hex_id-IsHex (suc n) (some bytes) now h =
    let (size, digits) = hex_of_bytes-IsHex bytes in (size ∙ ap (λ k. k * 2) h, digits)

-- Trace ids are 32 hexadecimal digits and span ids 16, from random bytes as from the clock.
pub trace_and_span_ids :
    (random random' : Option (List ℕ)) (now now' : ℕ)
    → Filled 16 random
    → Filled 8 random'
    → IsHex 32 (default_trace_id random now) × IsHex 16 (default_span_id random' now')
unfolding default_trace_id default_span_id
trace_and_span_ids random random' now now' h i =
    (default_hex_id-IsHex 16 random now h, default_hex_id-IsHex 8 random' now' i)
