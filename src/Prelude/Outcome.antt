-- ===== src/Prelude/Outcome.antt =====
-- What an awaited promise settles with: a value, or the text `String(e)` of what it throws.
use Prim.Native.String.{String}

pub data Result {ℓ} (A : Type ℓ) : Type ℓ where
  ok : A → Result A
  err : String → Result A
