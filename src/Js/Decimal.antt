-- ===== src/Js/Decimal.antt =====
-- `String(n)`: the digits and the number that they stand for.
use blackbox_agent_accountab.Prelude.{ℕ, zero, suc, ◌+◌, ◌*◌, ◌/◌, ◌<◌, ◌≡◌, List, [], ◌∷◌, arith}
use blackbox_agent_accountab.Js.{digits_from, digits}

abbrev pub value : List ℕ → ℕ
value [] = 0
value (d ∷ ds) = d + 10 * value ds

value-digits_from : (f n : ℕ) → n < f → value (digits_from f n) ≡ n
value-digits_from zero n h = absurd (omega arith)
value-digits_from (suc f) n h = ground (arith, value-digits_from f (n / 10))

abbrev pub IsDigits : List ℕ → Type 0
IsDigits [] = Unit
IsDigits (d ∷ ds) = (d < 10) × IsDigits ds

digits_from-IsDigits : (f n : ℕ) → IsDigits (digits_from f n)
digits_from-IsDigits zero n = tt
digits_from-IsDigits (suc f) n = ground (arith, digits_from-IsDigits f (n / 10))

-- The decimal digits of a number, the last first, are below ten and have the number as their value.
pub digits_lem : (n : ℕ) → (value (digits n) ≡ n) × IsDigits (digits n)
unfolding digits
digits_lem n = (value-digits_from (suc n) n (omega arith), digits_from-IsDigits (suc n) n)
