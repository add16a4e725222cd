-- ===== src/Js/Includes.antt =====
-- What a text that is put together includes.
use Prim.Native.String
use Prim.Native.String.{String}
use text.Mathlib.TextLemmas.{nil-append, cons-append}
use blackbox_agent_accountab.Prelude.{
  ◌≡◌, refl, true, false, Bool, ◌||◌, arith, inl, inr, Bool-cases,
}
use blackbox_agent_accountab.Js.{has_prefix, includes}

or_true : (b : Bool) → (b || true) ≡ true
or_true true = refl
or_true false = refl

or_false : {a b : Bool} → a ≡ false → (a || b) ≡ true → b ≡ true
or_false e h = ground arith

has_prefix-append : (t s r : String) → has_prefix t s ≡ true → has_prefix t (String.◌++◌ s r) ≡ true
has_prefix-append String.[] s r h = refl
has_prefix-append (String.◌∷◌ c t) String.[] r h = cc
has_prefix-append (String.◌∷◌ c t) (String.◌∷◌ d s) r h =
    rw cons-append (ground (arith, has_prefix-append t s r))

-- A text includes what its end includes.
pub includes-append_right :
    (a s t : String) → includes s t ≡ true → includes (String.◌++◌ a s) t ≡ true
unfolding includes
includes-append_right String.[] s t h = rw nil-append h
includes-append_right (String.◌∷◌ c a) s t h =
    rw cons-append (rw (includes-append_right a s t h) (or_true _))

or_nil : (s t : String) → has_prefix t s ≡ true → includes s t ≡ true
unfolding includes
or_nil String.[] t h = h
or_nil (String.◌∷◌ c s) t h = rw h

-- A text includes what its beginning includes.
pub includes-append_left :
    (s b t : String) → includes s t ≡ true → includes (String.◌++◌ s b) t ≡ true
unfolding includes
includes-append_left String.[] b t h = or_nil (String.◌++◌ "" b) t (has_prefix-append t "" b h)
includes-append_left (String.◌∷◌ c s) b t h = elim (Bool-cases (has_prefix t (String.◌∷◌ c s))) [
  | inl now ↦ or_nil (String.◌++◌ (String.◌∷◌ c s) b) t (has_prefix-append t (String.◌∷◌ c s) b now)
  | inr later ↦ rw cons-append (rw (includes-append_left s b t (or_false later h)) (or_true _))
]
