-- ===== src/SceneProgress/Scenes.antt =====
-- frontend/lib/sceneProgress.ts:
-- When a scene that is being revealed is active.
use blackbox_agent_accountab.Prelude.{
  ◌≡◌, ◌⊎◌, inl, inr, subst, sym, ◌∙◌, Bool, true, false, ◌&&◌, refl,
}
use blackbox_agent_accountab.SceneProgress.{
  Numbers, zero_of, one_of, get_scene_local_progress, is_scene_active,
}

both : (a b : Bool) → a ≡ true → b ≡ true → (a && b) ≡ true
both a b h k = rw (h, k) refl

module _ (N : Numbers) (irrefl : (x : N.F) → N.less x x ≡ false)
    (trans : (x y z : N.F) → N.less x y ≡ true → N.less y z ≡ true → N.less x z ≡ true)
    (larger_choice : (x y : N.F) → (N.larger x y ≡ x) ⊎ (N.larger x y ≡ y))
    (smaller_choice : (x y : N.F) → (N.smaller x y ≡ x) ⊎ (N.smaller x y ≡ y)) where
  not_itself : (x y : N.F) → x ≡ y → N.less x y ≡ true → ⊥
  not_itself x y e h = let f = subst (λ z. N.less x z ≡ false) e (irrefl x) in cc

  -- A clamped number that is strictly between the bounds is the number.
  clamp_strict :
      (x lo hi : N.F)
      → N.less lo (N.smaller (N.larger x lo) hi) ≡ true
      → N.less (N.smaller (N.larger x lo) hi) hi ≡ true
      → N.smaller (N.larger x lo) hi ≡ x
  clamp_strict x lo hi h k = elim (smaller_choice (N.larger x lo) hi) [
    | inl e ↦ elim (larger_choice x lo) [
      | inl f ↦ e ∙ f
      | inr f ↦ absurd (not_itself lo (N.smaller (N.larger x lo) hi) (sym (e ∙ f)) h)
    ]
    | inr e ↦ absurd (not_itself (N.smaller (N.larger x lo) hi) hi e k)
  ]

  -- Where `<` is irreflexive and transitive, and `Math.max` and `Math.min` give one of their arguments:
  -- a scene whose progress is strictly between 0 and 1 is active, whatever the offset, the number of
  -- scenes and the index, for every buffer whose negative is below 0 and that added to 1 gives more.
  pub revealing-IsActive :
      (offset count index buffer : N.F)
      → N.less (N.negate buffer) (zero_of N) ≡ true
      → N.less (one_of N) (N.plus (one_of N) buffer) ≡ true
      → N.less (zero_of N) (get_scene_local_progress N offset count index) ≡ true
      → N.less (get_scene_local_progress N offset count index) (one_of N) ≡ true
      → is_scene_active N offset count index buffer ≡ true
  unfolding get_scene_local_progress is_scene_active
  revealing-IsActive offset count index buffer low high h k =
      let span = N.over (one_of N) count in
      let raw = N.over (N.minus offset (N.times index span)) span in
      let e = clamp_strict raw (zero_of N) (one_of N) h k in
      let above = subst (λ x. N.less (zero_of N) x ≡ true) e h in
      let below = subst (λ x. N.less x (one_of N) ≡ true) e k in
      both _ _ (trans (N.negate buffer) (zero_of N) raw low above)
        (trans raw (one_of N) (N.plus (one_of N) buffer) below high)
