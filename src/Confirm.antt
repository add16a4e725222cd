-- ===== src/Confirm.antt =====
-- frontend/lib/useConfirm.ts: a message that goes away by itself.
--
-- Time is in milliseconds. The timer that is set last is the only one: `show` clears the one before,
-- and so does the end of the component.
pub mod Expiry
pub mod Spec
use blackbox_agent_accountab.Prelude.{
  ℕ, ◌+◌, String, Option, none, some, leb, if◌then◌else◌, List, [], ◌∷◌,
}

pub record Confirm : Type 0 where
  pub now : ℕ
  pub message : Option String
  -- when the timer fires
  pub timer : Option ℕ

abbrev pub fresh : ℕ → Confirm
fresh t = record { now = t; message = none; timer = none }

-- `show(msg)`, for a hook with the delay `ms`
unfoldable pub show : ℕ → String → Confirm → Confirm
show ms msg c = record c { message = some msg; timer = some (c.now + ms) }

abbrev fire_due : Option ℕ → Confirm → Confirm
fire_due none c = c
fire_due (some t) c = if leb t c.now then record c { message = none; timer = none } else c

-- The clock goes on, and a timer that is due fires.
unfoldable pub pass : ℕ → Confirm → Confirm
pass d c = fire_due c.timer (record c { now = c.now + d })

-- The end of the component clears the timer.
unfoldable pub unmount : Confirm → Confirm
unmount c = record c { timer = none }

-- What happens to the hook.
pub data Happens : Type 0 where
  shows : String → Happens
  passes : ℕ → Happens

unfoldable pub step : ℕ → Happens → Confirm → Confirm
unfolding show pass
step ms (shows m) c = show ms m c
step ms (passes d) c = pass d c

unfoldable pub history : ℕ → List Happens → Confirm → Confirm
unfolding step
history ms [] c = c
history ms (h ∷ hs) c = history ms hs (step ms h c)
