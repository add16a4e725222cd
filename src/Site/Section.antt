-- ===== src/Site/Section.antt =====
-- frontend/components/landing/LandingBody.tsx, FadeInSection, and frontend/lib/useReducedMotion.ts: when
-- a section of the landing page can be seen.
--
-- The observer of intersections and the media query are parameters: what they report are events.
pub mod Opacity
use blackbox_agent_accountab.Prelude.{
  ℕ, String, Bool, true, false, ◌&&◌, ◌||◌, List, [], ◌∷◌, if◌then◌else◌,
}

-- The state of a section: `visible`, whether its observer and the listener of the media query are
-- there, and what the media query matches as the hook knows it.
pub record Section : Type 0 where
  pub visible : Bool
  pub observing : Bool
  pub reduced_motion : Bool

-- As the server renders it, which knows no media query.
abbrev pub rendered : Section
rendered = record { visible = false; observing = false; reduced_motion = false }

pub data Happens : Type 0 where
  -- the section is mounted, where the media query matches or not
  mounts : Bool → Happens
  -- the observer calls back with its entries, the first and the others, each intersecting or not
  observes : Bool → List Bool → Happens
  -- the media query changes to match or not to
  prefers : Bool → Happens
  unmounts : Happens

-- `useReducedMotion`: the hook follows the media query while its listener is there.
abbrev pub prefer : Bool → Section → Section
prefer m s = record s { reduced_motion = if s.observing then m else s.reduced_motion }

unfoldable pub step : Happens → Section → Section
step (mounts m) s = record s { observing = true; reduced_motion = m }
step (observes b bs) s = record s { visible = s.visible || (s.observing && b) }
step (prefers m) s = prefer m s
step unmounts s = record s { observing = false }

abbrev pub history : List Happens → Section → Section
history [] s = s
history (h ∷ hs) s = history hs (step h s)

-- The styles of a section.
unfoldable pub opacity : Section → ℕ
opacity s = if s.reduced_motion || s.visible then 1 else 0

unfoldable pub transition : Section → String
transition s = if s.reduced_motion then "none" else "opacity 250ms ease-out"
