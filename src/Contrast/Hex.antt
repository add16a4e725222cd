-- ===== src/Contrast/Hex.antt =====
-- frontend/lib/contrast.ts:
-- What is read of a colour that is written in hexadecimal digits.
use Prim.Native.Char.{Char, code}
use blackbox_agent_accountab.Prelude.{
  ℕ, zero, suc, ◌+◌, ◌*◌, ◌/◌, ◌%◌, ◌<◌, ◌≡◌, refl, ap, ◌∙◌, subst, String, Bool, true, not, ◌&&◌,
  ◌||◌, some, arith, ◌==◌, Bool-cases, inl, inr,
}
use blackbox_agent_accountab.Js.{is_space}
use blackbox_agent_accountab.Js.Hexadecimal.{parse_hex, hex_value}
use blackbox_agent_accountab.Contrast.{hex_to_rgb}

abbrev nth_char : String → ℕ → Char
nth_char String.[] n = "f"
nth_char (String.◌∷◌ c s) zero = c
nth_char (String.◌∷◌ c s) (suc n) = nth_char s n

abbrev hex_digit : ℕ → Char
hex_digit n = nth_char "0123456789abcdef" n

-- Two digits before a text.
abbrev hex_byte : ℕ → String → String
hex_byte n s = String.◌∷◌ (hex_digit (n / 16)) (String.◌∷◌ (hex_digit (n % 16)) s)

-- A colour as style sheets write it.
abbrev pub to_hex : ℕ → ℕ → ℕ → String
to_hex r g b = String.◌∷◌ "#" (hex_byte r (hex_byte g (hex_byte b "")))

abbrev all_below : ℕ → (ℕ → Bool) → Bool
all_below zero p = true
all_below (suc n) p = p n && all_below n p

all_below-lt : (n : ℕ) (p : ℕ → Bool) (d : ℕ) → all_below n p ≡ true → d < n → p d ≡ true
all_below-lt zero p d h k = absurd (omega arith)
all_below-lt (suc n) p d h k = elim (Bool-cases (d == n)) [
  | inl last ↦ let e : n ≡ d = ground arith in subst (λ i. p i ≡ true) e (ground arith)
  | inr earlier ↦ all_below-lt n p d (ground arith) (ground arith)
]

-- A code point that is read as the digit `d`, and as nothing else.
abbrev is_digit : ℕ → ℕ → Bool
is_digit d c =
    hex_value c == d && not (is_space c) && not (c == b'#') && not (c == b'x' || c == b'X')

hex_digit-is_digit : (d : ℕ) → d < 16 → is_digit d (code (hex_digit d)) ≡ true
unfolding is_space
hex_digit-is_digit d h = all_below-lt 16 (λ i. is_digit i (code (hex_digit i))) d refl h

parse_hex-digits :
    (a b : ℕ) (c d : Char)
    → a < 16
    → b < 16
    → is_digit a (code c) ≡ true
    → is_digit b (code d) ≡ true
    → parse_hex (String.◌∷◌ c (String.◌∷◌ d "")) ≡ some (a * 16 + b)
unfolding parse_hex
parse_hex-digits a b c d p q h k = ground arith

parse_hex-hex_byte : (n : ℕ) → n < 256 → parse_hex (hex_byte n "") ≡ some n
parse_hex-hex_byte n h =
    let e : n / 16 * 16 + n % 16 ≡ n = omega arith in
    parse_hex-digits (n / 16) (n % 16) (hex_digit (n / 16)) (hex_digit (n % 16)) (omega arith)
      (omega arith) (hex_digit-is_digit (n / 16) (omega arith))
      (hex_digit-is_digit (n % 16) (omega arith))
    ∙ ap some e

-- The channels of a colour that is written as six digits after "#" are the bytes that were written.
pub hex_to_rgb-to_hex :
    (r g b : ℕ) → r < 256 → g < 256 → b < 256 → hex_to_rgb (to_hex r g b) ≡ (some r, some g, some b)
unfolding hex_to_rgb
hex_to_rgb-to_hex r g b p q s =
    rw (parse_hex-hex_byte r p, parse_hex-hex_byte g q, parse_hex-hex_byte b s) refl
