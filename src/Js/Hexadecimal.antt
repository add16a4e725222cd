-- ===== src/Js/Hexadecimal.antt =====
-- What the program uses of JavaScript's own library: `parseInt` of hexadecimal digits.
use Prim.Native.Char.{code}
use blackbox_agent_accountab.Prelude.{
  ℕ, ◌+◌, ◌-◌, ◌*◌, String, ◌&&◌, ◌||◌, Option, none, some, ltb, leb, ◌==◌, if◌then◌else◌,
}
use blackbox_agent_accountab.Js.{trim_start}

-- The value of a hexadecimal digit, or 16 where the code point is none.
abbrev pub hex_value : ℕ → ℕ
hex_value c =
    if leb b'0' c && leb c b'9'
    then c - b'0'
    else (if leb b'a' c && leb c b'f'
        then 10 + (c - b'a')
        else (if leb b'A' c && leb c b'F' then 10 + (c - b'A') else 16))

abbrev value_of : Option ℕ → ℕ
value_of none = 0
value_of (some n) = n

abbrev pub hex_digits : Option ℕ → String → Option ℕ
hex_digits acc String.[] = acc
hex_digits acc (String.◌∷◌ c s) =
    let rest = hex_digits (some (value_of acc * 16 + hex_value (code c))) s in
    if ltb (hex_value (code c)) 16 then rest else acc

abbrev drop_0x : String → String
drop_0x (String.◌∷◌ c (String.◌∷◌ d s)) =
    if code c == b'0' && (code d == b'x' || code d == b'X')
    then s
    else String.◌∷◌ c (String.◌∷◌ d s)
drop_0x s = s

-- `parseInt(s, 16)`, or none for NaN; a sign is left out.
unfoldable pub parse_hex : String → Option ℕ
parse_hex s = hex_digits none (drop_0x (trim_start s))
