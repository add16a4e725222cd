-- ===== src/Js/Encoding.antt =====
-- Percent-encoding: `encodeURIComponent`, and the form encoding of `URLSearchParams`.
use Prim.Native.Char.{code}
use Prim.Native.String
use Prim.Native.String.{String}
use text.Mathlib.TextLemmas.{nil-append, cons-append}
use blackbox_agent_accountab.Prelude.{
  ℕ, zero, suc, ◌+◌, ◌/◌, ◌%◌, Bool, true, ◌&&◌, ◌||◌, List, [], ◌∷◌, ltb, leb, ◌==◌, if◌then◌else◌,
  ◌≡◌, refl, arith, Bool-cases, inl, inr,
}
use blackbox_agent_accountab.Js.{char_at, template}

-- The bytes of a code point in UTF-8.
unfoldable pub utf8 : ℕ → List ℕ
utf8 c =
    if ltb c 0x80
    then c ∷ []
    else if ltb c 0x800
    then (0xc0 + c / 64) ∷ (0x80 + c % 64) ∷ []
    else if ltb c 0x10000
    then (0xe0 + c / 4096) ∷ (0x80 + c / 64 % 64) ∷ (0x80 + c % 64) ∷ []
    else (0xf0 + c / 262144) ∷ (0x80 + c / 4096 % 64) ∷ (0x80 + c / 64 % 64) ∷ (0x80 + c % 64) ∷ []

abbrev hex : ℕ → String
hex n = char_at "0123456789ABCDEF" n

abbrev percent : List ℕ → String
percent [] = ""
percent (b ∷ bs) = template ("%" ∷ hex (b / 16) ∷ hex (b % 16) ∷ percent bs ∷ [])

abbrev is_alnum : ℕ → Bool
is_alnum c = (leb b'a' c && leb c b'z') || (leb b'A' c && leb c b'Z') || (leb b'0' c && leb c b'9')

-- What `encodeURIComponent` leaves as it is: letters, digits and `-_.!~*'()`.
unfoldable pub is_unreserved : ℕ → Bool
is_unreserved c =
    is_alnum c
    || c == b'-'
    || c == b'_'
    || c == b'.'
    || c == b'!'
    || c == b'~'
    || c == b'*'
    || c == 39
    || c == b'('
    || c == b')'

unfoldable pub encode_uri_component : String → String
unfolding utf8 is_unreserved
encode_uri_component String.[] = ""
encode_uri_component (String.◌∷◌ c s) = template (
    (if is_unreserved (code c) then String.◌∷◌ c "" else percent (utf8 (code c)))
    ∷ encode_uri_component s
    ∷ [])

-- One character of a form's value: a space becomes `+`.
abbrev form_char : ℕ → String → String
form_char c kept =
    if is_alnum c || c == b'*' || c == b'-' || c == b'.' || c == b'_'
    then kept
    else if c == 32
    then "+"
    else percent (utf8 c)

-- A value as `URLSearchParams` prints it.
unfoldable pub form_encode : String → String
unfolding utf8
form_encode String.[] = ""
form_encode (String.◌∷◌ c s) = template (form_char (code c) (String.◌∷◌ c "") ∷ form_encode s ∷ [])

-- Every code point of the text satisfies the test.
abbrev pub AllCodes : (ℕ → Bool) → String → Type 0
AllCodes p String.[] = Unit
AllCodes p (String.◌∷◌ c s) = (p (code c) ≡ true) × AllCodes p s

AllCodes-append :
    (p : ℕ → Bool) (s t : String) → AllCodes p s → AllCodes p t → AllCodes p (String.◌++◌ s t)
AllCodes-append p String.[] t h k = rw nil-append k
AllCodes-append p (String.◌∷◌ c s) t (q, h) k = rw cons-append (q, AllCodes-append p s t h k)

AllCodes-char_at : (p : ℕ → Bool) (s : String) (n : ℕ) → AllCodes p s → AllCodes p (char_at s n)
AllCodes-char_at p String.[] n h = tt
AllCodes-char_at p (String.◌∷◌ c s) zero (q, h) = (q, tt)
AllCodes-char_at p (String.◌∷◌ c s) (suc n) (q, h) = AllCodes-char_at p s n h

-- What may stand in an encoded component.
abbrev pub is_component : ℕ → Bool
is_component c = is_unreserved c || c == b'%'

hex-AllCodes : (n : ℕ) → AllCodes is_component (hex n)
unfolding is_unreserved
hex-AllCodes n = AllCodes-char_at is_component "0123456789ABCDEF" n (ground arith)

AllCodes-percent : (bs : List ℕ) → AllCodes is_component (percent bs)
unfolding is_unreserved
AllCodes-percent [] = tt
AllCodes-percent (b ∷ bs) =
    AllCodes-append is_component "%" _ (refl, tt)
      (AllCodes-append is_component (hex (b / 16)) _ (hex-AllCodes (b / 16)) (
        AllCodes-append is_component (hex (b % 16)) _ (hex-AllCodes (b % 16))
          (AllCodes-append is_component (percent bs) "" (AllCodes-percent bs) tt)))

kept_lem : (c : ℕ) → is_unreserved c ≡ true → is_component c ≡ true
kept_lem c h = rw h

-- An encoded component holds only unreserved characters and `%`.
pub encode_uri_component-AllCodes : (s : String) → AllCodes is_component (encode_uri_component s)
unfolding encode_uri_component
encode_uri_component-AllCodes String.[] = tt
encode_uri_component-AllCodes (String.◌∷◌ c s) =
    let rest =
      AllCodes-append is_component (encode_uri_component s) "" (encode_uri_component-AllCodes s)
        tt in
    elim (Bool-cases (is_unreserved (code c))) [
      | inl kept ↦
          rw kept
            (AllCodes-append is_component (String.◌∷◌ c "") _ (kept_lem (code c) kept, tt) rest)
      | inr other ↦ rw other (
          AllCodes-append is_component (percent (utf8 (code c))) _
            (AllCodes-percent (utf8 (code c))) rest)
    ]
