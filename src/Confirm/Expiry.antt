-- ===== src/Confirm/Expiry.antt =====
-- frontend/lib/useConfirm.ts:
-- How long a message is shown.
use blackbox_agent_accountab.Prelude.{
  ℕ, ◌+◌, ◌≤◌, ◌<◌, ◌≡◌, String, Option, none, some, List, [], ◌∷◌, arith, ltb, if◌then◌else◌,
}
use blackbox_agent_accountab.Confirm.{
  Confirm, fresh, show, pass, Happens, shows, passes, step, history,
}

-- The message and the timer belong together: either neither is set, or both are, and the timer is
-- due within the delay from now, and not yet.
abbrev IsTimed : ℕ → Option String → Option ℕ → ℕ → Type 0
IsTimed ms none none now = Unit
IsTimed ms (some m) (some t) now = (now < t) × (t ≤ now + ms)
IsTimed ms _ _ now = ⊥

abbrev pub IsValid : ℕ → Confirm → Type 0
IsValid ms c = IsTimed ms c.message c.timer c.now

step-IsValid :
    (ms : ℕ) (h : Happens) (c : Confirm) → 0 < ms → IsValid ms c → IsValid ms (step ms h c)
unfolding step
step-IsValid ms (shows m) c p v = ground arith
step-IsValid ms (passes d) c p v = ground arith

from-IsValid :
    (ms : ℕ) (hs : List Happens) (c : Confirm)
    → 0 < ms
    → IsValid ms c
    → IsValid ms (history ms hs c)
unfolding history
from-IsValid ms [] c p v = v
from-IsValid ms (h ∷ hs) c p v = from-IsValid ms hs (step ms h c) p (step-IsValid ms h c p v)

-- However a hook with a positive delay is used: a message is shown exactly while a timer is set, and
-- that timer is due after now and within the delay.
pub history-IsValid : (ms t : ℕ) (hs : List Happens) → 0 < ms → IsValid ms (history ms hs (fresh t))
history-IsValid ms t hs p = from-IsValid ms hs (fresh t) p tt

-- After `show`, and if nothing else is shown, the message is there for less than the delay and gone
-- from then on, whatever message and timer there were before.
pub pass-show :
    (ms d : ℕ) (m : String) (c : Confirm)
    → (pass d (show ms m c)).message ≡ (if ltb d ms then some m else none)
unfolding pass show
pass-show ms d m c = ground arith
