-- ===== src/Runtime/Tests/Threads.antt =====
-- A control whose cancellation is requested before the process is attached.
use swaw_kit.Prelude.{◌≡◌, refl, ◌≢◌, ◌≤◌, inr, Bool, none, [], ◌∷◌, arith, length, ℕ}
use swaw_kit.Runtime.Control.{
  starting, canceling, attach, begin_cancel, mark_start_failed, finish_cancel, cancel_result,
}
use swaw_kit.Runtime.Control.System.{
  answered, System, new_system, begun, attached_by, Reach, here, next, attaches, begins, calls,
  finishes,
}
use swaw_kit.Runtime.Control.Cancel.{
  Settled, Wakes, cancel_at_most_once, cancel_result-Settled, sections-Wakes,
}
use swaw_kit.Runtime.Control.Resolves.{Resolves, Resolves-of_Reach}

abbrev handle : ℕ
handle = 7

abbrev requested : System ℕ
requested = begun new_system

abbrev bound : System ℕ
bound = attached_by handle requested

abbrev to_bound : Reach (new_system {C = ℕ}) bound
to_bound = next (next here begins) (attaches handle)

bound_state : (r : Bool) → bound.state ≢ starting r
unfolding attached_by begun attach begin_cancel
bound_state r e = ground arith

cancel_at_most_once_example : length bound.answers ≤ 1
cancel_at_most_once_example = cancel_at_most_once to_bound

cancel_result-Settled_example : Settled bound.state bound.answers
cancel_result-Settled_example =
    cancel_result-Settled {m = new_system} here (next here (attaches handle))

bound_waits : cancel_result bound.state ≡ none
unfolding attached_by begun attach begin_cancel cancel_result
bound_waits = refl

abbrev called : System ℕ
called = record bound { finishers = answered handle none ∷ []; answers = none ∷ [] }

abbrev resolved : System ℕ
resolved = record called { state = (finish_cancel handle none called.state).state; finishers = [] }

abbrev to_called : Reach bound called
unfolding attached_by begun attach begin_cancel
to_called = next here (calls [] [] handle none refl)

abbrev to_resolved : Reach called resolved
to_resolved = next here (finishes [] [] handle none refl)

Resolves-of_Reach_example : Resolves to_called resolved
Resolves-of_Reach_example =
    Resolves-of_Reach to_bound bound_state (inr bound_waits) to_called to_resolved

sections-Wakes_example :
    Wakes canceling (attach handle canceling)
    × Wakes canceling (mark_start_failed {C = ℕ} canceling)
    × Wakes canceling (begin_cancel {C = ℕ} canceling)
    × Wakes canceling (finish_cancel handle none canceling)
sections-Wakes_example = sections-Wakes handle none canceling
