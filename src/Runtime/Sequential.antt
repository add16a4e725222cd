-- ===== src/Runtime/Sequential.antt =====
-- One handler alone, with nothing else running while it waits.
use blackbox_agent_accountab.Prelude.{List, [], ◌∷◌, ◌++◌, Result}
use blackbox_agent_accountab.Runtime.{Prog, done, act, call, race, spawn}

module _ {S Req : Type 0} {R : Req → Type 0} (reply : (r : Req) → Result (R r)) where
  -- The state at the end and the calls that settled, in order; of two calls that are out together
  -- the first settles first.
  abbrev pub exec : Prog S Req R → S → S × List Req
  exec done s = (s, [])
  exec (act f p) s = exec p (f s)
  exec (call r k) s = let (s', rs) = exec (k (reply r)) s in (s', r ∷ rs)
  exec (race r k r' k') s = let (s', rs) = exec (k (reply r)) s in (s', r ∷ rs)
  exec (spawn p q) s = let (s', rs) = exec p s in let (s'', qs) = exec q s' in (s'', rs ++ qs)
