-- ===== src/Core/Ids.antt =====
-- core/util.go: the ids of events, traces and spans. The bytes of `rand.Read`, if it succeeds, and the clock's
-- nanoseconds, which are not negative, are arguments. Masks of bits are remainders.
pub mod Shape
pub mod Hex
use Prim.Native.Char.{Char}
use duckbug_go.Base.{
  ℕ, zero, suc, ◌+◌, ◌-◌, ◌*◌, ◌/◌, ◌%◌, ◌^◌, String, Option, none, some, List, [], ◌∷◌,
}
use duckbug_go.Base.Int.{ℤ, pos, negsuc}
use duckbug_go.Text.{char_or}

-- The digit of a number below 16.
unfoldable pub hex_digit : ℕ → Char
unfolding char_or
hex_digit n = char_or "0" n "0123456789abcdef"

-- The last `w` hexadecimal digits of a number, before a text.
unfoldable pub hex_digits : ℕ → ℕ → String → String
unfolding hex_digit
hex_digits zero n rest = rest
hex_digits (suc w) n rest = hex_digits w (n / 16) (String.◌∷◌ (hex_digit (n % 16)) rest)

abbrev pub dash : String → String
dash rest = String.◌∷◌ "-" rest

-- The sixteen bytes of an id.
pub record Bytes : Type 0 where
  pub b0 : ℕ
  pub b1 : ℕ
  pub b2 : ℕ
  pub b3 : ℕ
  pub b4 : ℕ
  pub b5 : ℕ
  pub b6 : ℕ
  pub b7 : ℕ
  pub b8 : ℕ
  pub b9 : ℕ
  pub b10 : ℕ
  pub b11 : ℕ
  pub b12 : ℕ
  pub b13 : ℕ
  pub b14 : ℕ
  pub b15 : ℕ

abbrev pub byte : ℕ → String → String
byte b rest = hex_digits 2 b rest

-- `(b & 0x0f) | 0x40`, and `(b & 0x3f) | 0x80`.
abbrev pub version_byte : ℕ → ℕ
version_byte b = b % 16 + 64

abbrev pub variant_byte : ℕ → ℕ
variant_byte b = b % 64 + 128

unfoldable pub random_id : Bytes → String
unfolding hex_digits
random_id d = byte d.b0 (
    byte d.b1 (
      byte d.b2 (
        byte d.b3 (
          dash (
            byte d.b4 (
              byte d.b5 (
                dash (
                  byte (version_byte d.b6) (
                    byte d.b7 (
                      dash (
                        byte (variant_byte d.b8) (
                          byte d.b9 (
                            dash (
                              byte d.b10 (
                                byte d.b11 (
                                  byte d.b12
                                    (byte d.b13 (byte d.b14 (byte d.b15 "")))))))))))))))))))

-- The id when there are no random bytes.
unfoldable pub clock_id : ℕ → String
unfolding hex_digits
clock_id now = hex_digits 8 (now / 2 ^ 32 % 2 ^ 32) (
    dash (
      hex_digits 4 (now / 2 ^ 16 % 2 ^ 16) (
        dash (
          String.◌∷◌ "4" (
            hex_digits 3 (now % 2 ^ 12) (
              dash (
                String.◌∷◌ "a"
                  (hex_digits 3 (now / 16 % 2 ^ 12) (dash (hex_digits 12 (now % 2 ^ 48) ""))))))))))

-- `defaultHexID` at bytes that `rand.Read` filled.
unfoldable pub hex_of_bytes : List ℕ → String
unfolding hex_digits
hex_of_bytes [] = ""
hex_of_bytes (b ∷ bs) = byte b (hex_of_bytes bs)

-- The clock's hexadecimal digits, padded with zeros to the width, or the last ones if there are more.
unfoldable pub padded_hex : ℕ → ℕ → String
unfolding hex_digits
padded_hex width now = hex_digits width now ""

-- `defaultHexID`. `rand.Read` fills as many bytes as are asked for.
unfoldable pub default_hex_id : ℤ → Option (List ℕ) → ℕ → String
unfolding hex_of_bytes padded_hex
default_hex_id (negsuc n) random now = ""
default_hex_id (pos zero) random now = ""
default_hex_id (pos (suc n)) (some bytes) now = hex_of_bytes bytes
default_hex_id (pos (suc n)) none now = padded_hex (suc n * 2) now

-- `defaultTraceID` and `defaultSpanID`.
unfoldable pub default_trace_id : Option (List ℕ) → ℕ → String
unfolding default_hex_id
default_trace_id random now = default_hex_id (pos 16) random now

unfoldable pub default_span_id : Option (List ℕ) → ℕ → String
unfolding default_hex_id
default_span_id random now = default_hex_id (pos 8) random now

-- `NewEventID`.
unfoldable pub new_event_id : Option Bytes → ℕ → String
unfolding random_id clock_id
new_event_id (some d) now = random_id d
new_event_id none now = clock_id now
