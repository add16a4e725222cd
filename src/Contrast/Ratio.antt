-- ===== src/Contrast/Ratio.antt =====
-- frontend/lib/contrast.ts:
-- How the tests of two colours hang together.
use blackbox_agent_accountab.Prelude.{◌≡◌, ap, ◌∙◌, String, true, false}
use blackbox_agent_accountab.Contrast.{Numbers, relative_luminance, contrast_ratio, meets_wcag_aa}

module _ (N : Numbers) where
  -- Where `Math.max` and `Math.min` do not depend on the order of their arguments, the ratio does not.
  pub contrast_ratio_comm :
      (a b : String)
      → ((x y : N.F) → N.larger x y ≡ N.larger y x)
      → ((x y : N.F) → N.smaller x y ≡ N.smaller y x)
      → contrast_ratio N a b ≡ contrast_ratio N b a
  unfolding contrast_ratio
  contrast_ratio_comm a b h k =
      let x = relative_luminance N a in
      let y = relative_luminance N b in
      ap (λ l. N.over (N.plus l (N.decimal 5 2)) (N.plus (N.smaller x y) (N.decimal 5 2))) (h x y)
      ∙ ap (λ d. N.over (N.plus (N.larger y x) (N.decimal 5 2)) (N.plus d (N.decimal 5 2))) (k x y)

  -- Where `<=` is transitive and 3 is at most 4.5, two colours that pass for normal text pass for
  -- large text.
  pub meets_wcag_aa_large :
      (a b : String)
      → ((x y z : N.F) → N.at_most x y ≡ true → N.at_most y z ≡ true → N.at_most x z ≡ true)
      → N.at_most (N.decimal 3 0) (N.decimal 45 1) ≡ true
      → meets_wcag_aa N a b false ≡ true
      → meets_wcag_aa N a b true ≡ true
  unfolding meets_wcag_aa
  meets_wcag_aa_large a b trans le h =
      trans (N.decimal 3 0) (N.decimal 45 1) (contrast_ratio N a b) le h
