-- ===== src/Js.antt =====
-- What the program uses of JavaScript's own library: template texts, `String(n)`, `includes`, `trim`,
-- `split(",")`, `Math.max`, `encodeURIComponent` and the encoding of `URLSearchParams`.
-- Texts are lists of code points, without the lone surrogates at which `encodeURIComponent` throws.
pub mod Decimal
pub mod Encoding
pub mod Includes
pub mod Hexadecimal
use Prim.Native.Char.{Char, code}
use Prim.Native.String
use Prim.Native.String.{String}
use blackbox_agent_accountab.Prelude.{
  ℕ, zero, suc, ◌+◌, ◌*◌, ◌/◌, ◌%◌, Bool, true, false, not, ◌&&◌, ◌||◌, List, [], ◌∷◌, ltb, leb,
  ◌==◌, if◌then◌else◌,
}

-- A template literal, as the list of its pieces.
abbrev pub template : List String → String
template [] = ""
template (s ∷ ss) = String.◌++◌ s (template ss)

-- The digits of `n`, the last first, with fuel.
abbrev digits_from : ℕ → ℕ → List ℕ
digits_from zero n = []
digits_from (suc f) n =
    let rest = digits_from f (n / 10) in if ltb n 10 then n ∷ [] else (n % 10) ∷ rest

pub digits : ℕ → List ℕ
digits n = digits_from (suc n) n

abbrev pub char_at : String → ℕ → String
char_at String.[] n = ""
char_at (String.◌∷◌ c s) zero = String.◌∷◌ c ""
char_at (String.◌∷◌ c s) (suc n) = char_at s n

abbrev show_digits : List ℕ → String
show_digits [] = ""
show_digits (d ∷ ds) = String.◌++◌ (show_digits ds) (char_at "0123456789" d)

-- `String(n)` for a natural number.
unfoldable pub to_string : ℕ → String
unfolding digits
to_string n = show_digits (digits n)

abbrev pub has_prefix : String → String → Bool
has_prefix String.[] s = true
has_prefix (String.◌∷◌ c t) String.[] = false
has_prefix (String.◌∷◌ c t) (String.◌∷◌ d s) = code c == code d && has_prefix t s

-- `s.includes(t)`
unfoldable pub includes : String → String → Bool
includes String.[] t = has_prefix t ""
includes (String.◌∷◌ c s) t = has_prefix t (String.◌∷◌ c s) || includes s t

-- The white space that `trim` removes.
unfoldable pub is_space : ℕ → Bool
is_space c =
    (leb 9 c && leb c 13)
    || c == 32
    || c == 160
    || c == 5760
    || (leb 8192 c && leb c 8202)
    || c == 8232
    || c == 8233
    || c == 8239
    || c == 8287
    || c == 12288
    || c == 65279

abbrev pub trim_start : String → String
trim_start String.[] = ""
trim_start (String.◌∷◌ c s) =
    let rest = trim_start s in if is_space (code c) then rest else String.◌∷◌ c s

abbrev pub cons_trimmed : Char → String → String
cons_trimmed c String.[] = if is_space (code c) then "" else String.◌∷◌ c ""
cons_trimmed c (String.◌∷◌ d s) = String.◌∷◌ c (String.◌∷◌ d s)

abbrev pub trim_end : String → String
trim_end String.[] = ""
trim_end (String.◌∷◌ c s) = cons_trimmed c (trim_end s)

unfoldable pub trim : String → String
unfolding is_space
trim s = trim_end (trim_start s)

abbrev pub cons_first : Char → List String → List String
cons_first c [] = String.◌∷◌ c "" ∷ []
cons_first c (s ∷ ss) = String.◌∷◌ c s ∷ ss

-- `s.split(",")`
unfoldable pub split_commas : String → List String
split_commas String.[] = "" ∷ []
split_commas (String.◌∷◌ c s) =
    let rest = split_commas s in if code c == b',' then "" ∷ rest else cons_first c rest

-- `s.slice(k)`
abbrev pub slice : ℕ → String → String
slice zero s = s
slice (suc k) String.[] = ""
slice (suc k) (String.◌∷◌ c s) = slice k s

-- The first `k` code points.
abbrev pub take : ℕ → String → String
take zero s = ""
take (suc k) String.[] = ""
take (suc k) (String.◌∷◌ c s) = String.◌∷◌ c (take k s)
