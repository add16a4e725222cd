-- ===== src/SceneProgress.antt =====
-- frontend/lib/sceneProgress.ts: which scene of the landing page a scroll offset is in.
--
-- The arithmetic of floating-point numbers is a parameter.
pub mod Scenes
use blackbox_agent_accountab.Prelude.{ℕ, Bool, ◌&&◌}

-- Floating-point numbers, and the operations that are used of them.
pub record Numbers : Type 1 where
  pub F : Type 0
  -- a number over a power of ten
  pub decimal : ℕ → ℕ → F
  pub plus : F → F → F
  pub minus : F → F → F
  pub times : F → F → F
  pub over : F → F → F
  pub negate : F → F
  -- `Math.max`, `Math.min` and `Math.floor`
  pub larger : F → F → F
  pub smaller : F → F → F
  pub floor : F → F
  -- `<`
  pub less : F → F → Bool

module _ (N : Numbers) where
  abbrev pub zero_of : N.F
  zero_of = N.decimal 0 0

  abbrev pub one_of : N.F
  one_of = N.decimal 1 0

  abbrev pub scene_count : N.F
  scene_count = N.decimal 5 0

  unfoldable pub get_active_scene_index : N.F → N.F → N.F
  get_active_scene_index offset count =
      let clamped = N.smaller (N.larger offset zero_of) (N.decimal 999999 6) in
      N.floor (N.times clamped count)

  unfoldable pub get_scene_local_progress : N.F → N.F → N.F → N.F
  get_scene_local_progress offset count index =
      let scene_span = N.over one_of count in
      let scene_start = N.times index scene_span in
      let local = N.over (N.minus offset scene_start) scene_span in
      N.smaller (N.larger local zero_of) one_of

  unfoldable pub is_scene_active : N.F → N.F → N.F → N.F → Bool
  is_scene_active offset count index buffer =
      let scene_span = N.over one_of count in
      let scene_start = N.times index scene_span in
      let raw_local = N.over (N.minus offset scene_start) scene_span in
      N.less (N.negate buffer) raw_local && N.less raw_local (N.plus one_of buffer)
