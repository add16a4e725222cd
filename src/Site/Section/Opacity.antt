-- ===== src/Site/Section/Opacity.antt =====
-- frontend/components/landing/LandingBody.tsx, FadeInSection:
-- When a section can be seen, told from what was reported.
use blackbox_agent_accountab.Prelude.{
  ◌≡◌, refl, Bool, true, false, ◌||◌, List, [], ◌∷◌, if◌then◌else◌, arith,
}
use blackbox_agent_accountab.Site.Section.{
  Section, rendered, Happens, mounts, observes, prefers, unmounts, step, history, opacity,
}

-- What the last report of the media query was, after `m`.
abbrev pub last_preference : Bool → List Happens → Bool
last_preference m [] = m
last_preference m (prefers b ∷ hs) = last_preference b hs
last_preference m (mounts b ∷ hs) = last_preference b hs
last_preference m (_ ∷ hs) = last_preference m hs

-- The first entry of some report intersected.
abbrev pub came_into_view : List Happens → Bool
came_into_view [] = false
came_into_view (observes b bs ∷ hs) = b || came_into_view hs
came_into_view (_ ∷ hs) = came_into_view hs

abbrev stays : List Happens → Bool
stays [] = true
stays (unmounts ∷ hs) = false
stays (_ ∷ hs) = stays hs

-- The section stays mounted throughout.
abbrev pub Stays : List Happens → Type 0
Stays hs = stays hs ≡ true

history_lem :
    (hs : List Happens) (s : Section)
    → Stays hs
    → s.observing ≡ true
    → ((history hs s).reduced_motion ≡ last_preference s.reduced_motion hs)
      × ((history hs s).visible ≡ (s.visible || came_into_view hs))
unfolding step
history_lem [] s h o = (refl, ground arith)
history_lem (mounts m ∷ hs) s h o =
    history_lem hs (record s { observing = true; reduced_motion = m }) h refl
history_lem (observes b bs ∷ hs) s h o =
    let (r, v) = history_lem hs (step (observes b bs) s) h o in (r, ground arith)
history_lem (prefers m ∷ hs) s h o =
    let (r, v) = history_lem hs (step (prefers m) s) h o in ground arith
history_lem (unmounts ∷ hs) s h o = cc

-- From the mounting of a section on, and while it stays mounted: it can be seen exactly if the media
-- query last asked for reduced motion, or the first entry of some report of its observer intersected; the
-- other entries of a report count for nothing.
pub opacity_refines :
    (m : Bool) (hs : List Happens)
    → Stays hs
    → opacity (history (mounts m ∷ hs) rendered)
      ≡ (if last_preference m hs || came_into_view hs then 1 else 0)
unfolding opacity step
opacity_refines m hs h =
    let (r, v) = history_lem hs (step (mounts m) rendered) h refl in rw (r, v) refl
