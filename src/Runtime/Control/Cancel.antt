-- ===== src/Runtime/Control/Cancel.antt =====
-- Cancellation of an operation: one call of the control, its answer to every waiter, no lost waiter.
use swaw_kit.Prelude.{
  ◌≡◌, refl, ◌≢◌, true, false, Option, none, some, List, [], ◌∷◌, arith, Text, ok, length, ◌≤◌,
}
use swaw_kit.Runtime.Control.{
  OperationControlState, starting, canceling, attached, start_failed, Section, attach,
  mark_start_failed, begin_cancel, finish_cancel, cancel_result, cancel_answer, join_control,
}
use swaw_kit.Runtime.Control.System.{
  Finisher, System, new_system, attached_by, begun, refused, attaches, begins, refuses, calls,
  finishes, Reach, here, next, Consistent, is_starting, is_waiting, is_answered, is_attached,
  is_canceled, is_refused,
}
use swaw_kit.Runtime.Control.Invariant.{Step-IsConsistent, Reach-IsConsistent}

one_answer :
    {C : Type 0} {s : OperationControlState C} {fs : List (Finisher C)} {given : List (Option Text)}
    → Consistent s fs given
    → length given ≤ 1
one_answer (is_starting r) = omega arith
one_answer (is_waiting c) = omega arith
one_answer (is_answered c a) = omega arith
one_answer (is_attached c e) = omega arith
one_answer (is_canceled c a) = omega arith
one_answer is_refused = omega arith

-- However the threads interleave, `cancel` of the process control is called at most once.
pub cancel_at_most_once :
    {C : Type 0} {m : System C} → Reach (new_system {C = C}) m → length m.answers ≤ 1
cancel_at_most_once r = one_answer (Reach-IsConsistent (is_starting false) r)

-- A cancellation was requested, or nothing is there to cancel.
abbrev Requested : {C : Type 0} → OperationControlState C → Type 0
Requested (starting r) = r ≡ true
Requested canceling = Unit
Requested (attached _ r _) = r ≡ true
Requested start_failed = Unit

begin_cancel-Requested :
    {C : Type 0} (s : OperationControlState C) → Requested (begin_cancel s).state
unfolding begin_cancel
begin_cancel-Requested (starting r) = refl
begin_cancel-Requested canceling = tt
begin_cancel-Requested (attached c true e) = refl
begin_cancel-Requested (attached c false e) = tt
begin_cancel-Requested start_failed = tt

attach-Requested :
    {C : Type 0} (control : C) (s : OperationControlState C)
    → Requested s
    → Requested (attach control s).state
unfolding attach
attach-Requested control (starting true) h = tt
attach-Requested control (starting false) h = h
attach-Requested control canceling h = h
attach-Requested control (attached c r e) h = h
attach-Requested control start_failed h = h

mark_start_failed-Requested :
    {C : Type 0} (s : OperationControlState C) → Requested s → Requested (mark_start_failed s).state
unfolding mark_start_failed
mark_start_failed-Requested (starting r) h = tt
mark_start_failed-Requested canceling h = h
mark_start_failed-Requested (attached c r e) h = h
mark_start_failed-Requested start_failed h = h

finish_cancel-Requested :
    {C : Type 0} (control : C) (answer : Option Text) (s : OperationControlState C)
    → Requested s
    → Requested (finish_cancel control answer s).state
unfolding finish_cancel
finish_cancel-Requested control answer (starting r) h = h
finish_cancel-Requested control answer canceling h = refl
finish_cancel-Requested control answer (attached c r e) h = h
finish_cancel-Requested control answer start_failed h = h

Reach-Requested : {C : Type 0} {m v : System C} → Requested m.state → Reach m v → Requested v.state
unfolding attached_by begun refused
Reach-Requested h here = h
Reach-Requested h (next {u} r (attaches c)) = attach-Requested c u.state (Reach-Requested h r)
Reach-Requested h (next {u} r begins) = begin_cancel-Requested u.state
Reach-Requested h (next {u} r refuses) = mark_start_failed-Requested u.state (Reach-Requested h r)
Reach-Requested h (next {u} r (calls before behind c a e)) = Reach-Requested h r
Reach-Requested h (next {u} r (finishes before behind c a e)) =
    finish_cancel-Requested c a u.state (Reach-Requested h r)

-- The result of a requested cancellation: not there yet, a success where the process never
-- started, or what the only call of the control's `cancel` answered.
pub data Settled {C : Type 0} : OperationControlState C → List (Option Text) → Type 0 where
  waits :
      {s : OperationControlState C} {given : List (Option Text)}
      → cancel_result s ≡ none
      → Settled s given
  never_started :
      {s : OperationControlState C}
      → s ≡ start_failed
      → cancel_result s ≡ some (ok tt)
      → Settled s []
  reports :
      {s : OperationControlState C} (answer : Option Text)
      → cancel_result s ≡ some (cancel_answer answer)
      → Settled s (answer ∷ [])

settle :
    {C : Type 0} {s : OperationControlState C} {fs : List (Finisher C)} {given : List (Option Text)}
    → Consistent s fs given
    → Requested s
    → Settled s given
unfolding cancel_result
settle (is_starting true) h = waits refl
settle (is_starting false) h = absurd (ground arith)
settle (is_waiting c) h = waits refl
settle (is_answered c a) h = waits refl
settle (is_attached c e) h = absurd (ground arith)
settle (is_canceled c a) h = reports a refl
settle is_refused h = never_started refl refl

-- Whenever a cancellation has begun, and however the threads go on, `cancel_result` never answers
-- that none was requested: it waits, succeeds on a process that never started, or passes on what
-- the process control answered.
pub cancel_result-Settled :
    {C : Type 0} {m v : System C}
    → Reach new_system m
    → Reach (begun m) v
    → Settled v.state v.answers
unfolding begun
cancel_result-Settled {m} r q =
    settle
      (Reach-IsConsistent (Step-IsConsistent begins (Reach-IsConsistent (is_starting false) r)) q)
      (Reach-Requested (begin_cancel-Requested m.state) q)

-- A section that lets a waiter go on notifies it.
abbrev pub Wakes : {C R : Type 0} → OperationControlState C → Section C R → Type 0
Wakes s done =
    (join_control s ≡ none → join_control done.state ≢ none → done.notifies ≡ true)
    × (cancel_result s ≡ none → cancel_result done.state ≢ none → done.notifies ≡ true)

-- No wake-up is lost: each section after which a waiter of `join` or `cancel_result` need no longer
-- wait notifies the waiters.
pub sections-Wakes :
    {C : Type 0} (control : C) (answer : Option Text) (s : OperationControlState C)
    → Wakes s (attach control s)
      × Wakes s (mark_start_failed s)
      × Wakes s (begin_cancel s)
      × Wakes s (finish_cancel control answer s)
unfolding attach mark_start_failed begin_cancel finish_cancel cancel_result join_control
sections-Wakes control answer (starting true) = ground arith
sections-Wakes control answer (starting false) = ground arith
sections-Wakes control answer canceling = ground arith
sections-Wakes control answer (attached c true e) = ground arith
sections-Wakes control answer (attached c false e) = ground arith
sections-Wakes control answer start_failed = ground arith
