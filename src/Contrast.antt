-- ===== src/Contrast.antt =====
-- frontend/lib/contrast.ts: how well two colours stand out from each other.
--
-- The arithmetic of floating-point numbers is a parameter.
pub mod Hex
pub mod Ratio
use Prim.Native.Char.{code}
use Prim.Native.String
use blackbox_agent_accountab.Prelude.{
  ℕ, String, Bool, true, false, Option, none, some, if◌then◌else◌, ◌==◌,
}
use blackbox_agent_accountab.Js.{slice, take}
use blackbox_agent_accountab.Js.Hexadecimal.{parse_hex}

-- `s.replace("#", "")`
abbrev pub remove_hash : String → String
remove_hash String.[] = ""
remove_hash (String.◌∷◌ c s) =
    let rest = remove_hash s in if code c == b'#' then s else String.◌∷◌ c rest

-- The channels, where none is NaN.
unfoldable pub hex_to_rgb : String → Option ℕ × Option ℕ × Option ℕ
hex_to_rgb hex =
    let clean = remove_hash hex in
    (
      parse_hex (take 2 (slice 0 clean)),
      parse_hex (take 2 (slice 2 clean)),
      parse_hex (take 2 (slice 4 clean)),
    )

-- Floating-point numbers, and the operations that are used of them.
pub record Numbers : Type 1 where
  pub F : Type 0
  pub nan : F
  -- a number over a power of ten
  pub decimal : ℕ → ℕ → F
  pub plus : F → F → F
  pub times : F → F → F
  pub over : F → F → F
  -- `Math.pow`, `Math.max` and `Math.min`
  pub power : F → F → F
  pub larger : F → F → F
  pub smaller : F → F → F
  -- `<=`
  pub at_most : F → F → Bool

module _ (N : Numbers) where
  abbrev pub channel : Option ℕ → N.F
  channel none = N.nan
  channel (some n) = N.decimal n 0

  -- A channel as it counts for the luminance.
  abbrev pub linear : Option ℕ → N.F
  linear x =
      let c = N.over (channel x) (N.decimal 255 0) in
      if N.at_most c (N.decimal 3928 5)
      then N.over c (N.decimal 1292 2)
      else N.power (N.over (N.plus c (N.decimal 55 3)) (N.decimal 1055 3)) (N.decimal 24 1)

  unfoldable pub relative_luminance : String → N.F
  unfolding hex_to_rgb
  relative_luminance hex =
      let (r, g, b) = hex_to_rgb hex in
      N.plus
        (N.plus (N.times (N.decimal 2126 4) (linear r)) (N.times (N.decimal 7152 4) (linear g)))
        (N.times (N.decimal 722 4) (linear b))

  unfoldable pub contrast_ratio : String → String → N.F
  unfolding relative_luminance
  contrast_ratio hex_a hex_b =
      let lum_a = relative_luminance hex_a in
      let lum_b = relative_luminance hex_b in
      N.over (N.plus (N.larger lum_a lum_b) (N.decimal 5 2))
        (N.plus (N.smaller lum_a lum_b) (N.decimal 5 2))

  unfoldable pub meets_wcag_aa : String → String → Bool → Bool
  unfolding contrast_ratio
  meets_wcag_aa hex_a hex_b large_text =
      let ratio = contrast_ratio hex_a hex_b in
      if large_text then N.at_most (N.decimal 3 0) ratio else N.at_most (N.decimal 45 1) ratio
