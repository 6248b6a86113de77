-- ===== src/Runtime/Control/Resolves.antt =====
-- A waiter of a control waits only for the threads inside `finish_cancel`.
use mathlib.Core.List.{append-nil}
use swaw_kit.Prelude.{
  ℕ, ◌+◌, ◌≤◌, ◌<◌, ◌⊎◌, ◌≡◌, refl, sym, ap, subst, ◌∙◌, ◌≢◌, Bool, true, false, Option, none, List,
  [], ◌∷◌, ◌++◌, arith, Text,
}
use swaw_kit.Runtime.Control.{
  OperationControlState, starting, canceling, attached, start_failed, attach, mark_start_failed,
  begin_cancel, finish_cancel, cancel_result, join_control,
}
use swaw_kit.Runtime.Control.System.{
  Finisher, to_cancel, answered, System, new_system, attached_by, begun, refused, after_attach,
  after_begin, Step, attaches, begins, refuses, calls, finishes, Reach, here, next, Consistent,
  is_starting, is_waiting, is_answered, is_attached, is_canceled, is_refused,
}
use swaw_kit.Runtime.Control.Invariant.{Reach-IsConsistent}

-- The steps of the threads inside `finish_cancel`: the call of `cancel`, and the section behind it.
abbrev pub finisher_step : {C : Type 0} {m v : System C} → Step m v → ℕ
finisher_step (attaches c) = 0
finisher_step begins = 0
finisher_step refuses = 0
finisher_step (calls before behind c a e) = 1
finisher_step (finishes before behind c a e) = 1

abbrev pub finisher_steps : {C : Type 0} {m v : System C} → Reach m v → ℕ
finisher_steps here = 0
finisher_steps (next r s) = finisher_steps r + finisher_step s

-- The steps that the threads inside `finish_cancel` have left.
abbrev work : {C : Type 0} → List (Finisher C) → ℕ
work [] = 0
work (to_cancel c ∷ fs) = 2 + work fs
work (answered c a ∷ fs) = 1 + work fs

work-call :
    {C : Type 0} (before behind : List (Finisher C)) (c : C) (a : Option Text)
    → work (before ++ to_cancel c ∷ behind) ≡ 1 + work (before ++ answered c a ∷ behind)
work-call [] behind c a = omega arith
work-call (to_cancel d ∷ before) behind c a = omega (arith, work-call before behind c a)
work-call (answered d b ∷ before) behind c a = omega (arith, work-call before behind c a)

-- A cancellation that has been answered.
abbrev IsCanceled : {C : Type 0} → OperationControlState C → Type 0
IsCanceled (attached _ true _) = Unit
IsCanceled (attached _ false _) = ⊥
IsCanceled (starting _) = ⊥
IsCanceled canceling = ⊥
IsCanceled start_failed = ⊥

attach-IsCanceled :
    {C : Type 0} (c : C) (s : OperationControlState C)
    → IsCanceled s
    → IsCanceled (attach c s).state
unfolding attach
attach-IsCanceled c (attached d true a) h = tt
attach-IsCanceled c (attached d false a) h = absurd h
attach-IsCanceled c (starting r) h = absurd h
attach-IsCanceled c canceling h = absurd h
attach-IsCanceled c start_failed h = absurd h

begin_cancel-IsCanceled :
    {C : Type 0} (s : OperationControlState C) → IsCanceled s → IsCanceled (begin_cancel s).state
unfolding begin_cancel
begin_cancel-IsCanceled (attached d true a) h = tt
begin_cancel-IsCanceled (attached d false a) h = absurd h
begin_cancel-IsCanceled (starting r) h = absurd h
begin_cancel-IsCanceled canceling h = absurd h
begin_cancel-IsCanceled start_failed h = absurd h

mark_start_failed-IsCanceled :
    {C : Type 0} (s : OperationControlState C)
    → IsCanceled s
    → IsCanceled (mark_start_failed s).state
unfolding mark_start_failed
mark_start_failed-IsCanceled (attached d true a) h = tt
mark_start_failed-IsCanceled (attached d false a) h = absurd h
mark_start_failed-IsCanceled (starting r) h = absurd h
mark_start_failed-IsCanceled canceling h = absurd h
mark_start_failed-IsCanceled start_failed h = absurd h

finish_cancel-IsCanceled :
    {C : Type 0} (c : C) (answer : Option Text) (s : OperationControlState C)
    → IsCanceled s
    → IsCanceled (finish_cancel c answer s).state
unfolding finish_cancel
finish_cancel-IsCanceled c answer (attached d true a) h = tt
finish_cancel-IsCanceled c answer (attached d false a) h = absurd h
finish_cancel-IsCanceled c answer (starting r) h = absurd h
finish_cancel-IsCanceled c answer canceling h = absurd h
finish_cancel-IsCanceled c answer start_failed h = absurd h

Reach-IsCanceled :
    {C : Type 0} {m v : System C} → IsCanceled m.state → Reach m v → IsCanceled v.state
unfolding attached_by begun refused
Reach-IsCanceled h here = h
Reach-IsCanceled h (next {u} r (attaches c)) = attach-IsCanceled c u.state (Reach-IsCanceled h r)
Reach-IsCanceled h (next {u} r begins) = begin_cancel-IsCanceled u.state (Reach-IsCanceled h r)
Reach-IsCanceled h (next {u} r refuses) =
    mark_start_failed-IsCanceled u.state (Reach-IsCanceled h r)
Reach-IsCanceled h (next {u} r (calls before behind c a e)) = Reach-IsCanceled h r
Reach-IsCanceled h (next {u} r (finishes before behind c a e)) =
    finish_cancel-IsCanceled c a u.state (Reach-IsCanceled h r)

-- Of a cancellation in progress: the steps that are left, or its end.
data Stage {C : Type 0} (total steps : ℕ) (v : System C) : Type 0 where
  still : v.state ≡ canceling → steps + work v.finishers ≡ total → Stage total steps v
  over : IsCanceled v.state → Stage total steps v

canceling-attached_by :
    {C : Type 0} (c : C) (u : System C)
    → u.state ≡ canceling
    → ((attached_by c u).state ≡ canceling) × (work (attached_by c u).finishers ≡ work u.finishers)
unfolding attached_by attach
canceling-attached_by {C = C} c u h = (
  ap (λ (s : OperationControlState C). (attach c s).state) h,
  ap (λ (s : OperationControlState C). work (u.finishers ++ after_attach c (attach c s).result)) h
      ∙ ap work (append-nil u.finishers),
)

canceling-begun :
    {C : Type 0} (u : System C)
    → u.state ≡ canceling
    → ((begun u).state ≡ canceling) × (work (begun u).finishers ≡ work u.finishers)
unfolding begun begin_cancel
canceling-begun {C = C} u h = (
  ap (λ (s : OperationControlState C). (begin_cancel s).state) h,
  ap (λ (s : OperationControlState C). work (u.finishers ++ after_begin (begin_cancel s).result)) h
      ∙ ap work (append-nil u.finishers),
)

canceling-refused :
    {C : Type 0} (u : System C)
    → u.state ≡ canceling
    → ((refused u).state ≡ canceling) × (work (refused u).finishers ≡ work u.finishers)
unfolding refused mark_start_failed
canceling-refused {C = C} u h =
    (ap (λ (s : OperationControlState C). (mark_start_failed s).state) h, refl)

Step-Stage :
    {C : Type 0} {total steps : ℕ} {u v : System C} (s : Step u v)
    → Stage total steps u
    → Stage total (steps + finisher_step s) v
unfolding finish_cancel
Step-Stage {u = u} s (over h) = over (Reach-IsCanceled h (next here s))
Step-Stage {u = u} (attaches c) (still h k) =
    let p = canceling-attached_by c u h in still p.0 (omega (arith, k, p.1))
Step-Stage {u = u} begins (still h k) =
    let p = canceling-begun u h in still p.0 (omega (arith, k, p.1))
Step-Stage {u = u} refuses (still h k) =
    let p = canceling-refused u h in still p.0 (omega (arith, k, p.1))
Step-Stage {u = u} (calls before behind c a e) (still h k) =
    still h (omega (arith, k, ap work e, work-call before behind c a))
Step-Stage {u = u} (finishes before behind c a e) (still h k) =
    over (subst (λ s. IsCanceled (finish_cancel c a s).state) (sym h) tt)

Reach-Stage :
    {C : Type 0} {m v : System C}
    → m.state ≡ canceling
    → (r : Reach m v) → Stage (work m.finishers) (finisher_steps r) v
Reach-Stage h here = still h (omega arith)
Reach-Stage h (next r s) = Step-Stage s (Reach-Stage h r)

-- Of a cancellation in progress, at most two steps are left, and a thread to take them.
canceling-work :
    {C : Type 0} {s : OperationControlState C} {fs : List (Finisher C)} {given : List (Option Text)}
    → Consistent s fs given
    → s ≡ canceling
    → (work fs ≤ 2) × (0 < work fs)
canceling-work (is_starting r) h = ground arith
canceling-work (is_waiting c) h = (omega arith, omega arith)
canceling-work (is_answered c a) h = (omega arith, omega arith)
canceling-work (is_attached c e) h = ground arith
canceling-work (is_canceled c a) h = ground arith
canceling-work is_refused h = ground arith

waiting-canceling :
    {C : Type 0} (s : OperationControlState C)
    → ((x : Bool) → s ≢ starting x)
    → (join_control s ≡ none) ⊎ (cancel_result s ≡ none)
    → s ≡ canceling
unfolding join_control cancel_result
waiting-canceling (starting x) a w = absurd (a x refl)
waiting-canceling canceling a w = refl
waiting-canceling (attached c true e) a w = ground arith
waiting-canceling (attached c false e) a w = ground arith
waiting-canceling start_failed a w = ground arith

canceled-returns :
    {C : Type 0} (s : OperationControlState C)
    → IsCanceled s
    → (join_control s ≢ none) × (cancel_result s ≢ none)
unfolding join_control cancel_result
canceled-returns (attached c true e) h = (ground arith, ground arith)
canceled-returns (attached c false e) h = absurd h
canceled-returns (starting x) h = absurd h
canceled-returns canceling h = absurd h
canceled-returns start_failed h = absurd h

-- Where the threads have brought a waiter by `r`, and whatever they do then, to `u`.
pub data Resolves {C : Type 0} {m v : System C} (r : Reach m v) (u : System C) : Type 0 where
  goes_on : v.finishers ≢ [] → finisher_steps r < 2 → Resolves r u
  returns : join_control u.state ≢ none → cancel_result u.state ≢ none → Resolves r u

Resolves-of_Stage :
    {C : Type 0} {m v u : System C}
    → Reach new_system v
    → (work m.finishers ≤ 2)
    → (r : Reach m v) → Stage (work m.finishers) (finisher_steps r) v
    → Reach v u
    → Resolves r u
Resolves-of_Stage {u = u} o b r (over h) q =
    let p = canceled-returns u.state (Reach-IsCanceled h q) in returns p.0 p.1
Resolves-of_Stage o b r (still h k) q =
    let w = canceling-work (Reach-IsConsistent (is_starting false) o) h in
    goes_on (λ e. omega (arith, w.1, ap work e)) (omega (arith, w.1, b, k))

then_reach : {C : Type 0} {m v u : System C} → Reach m v → Reach v u → Reach m u
then_reach r here = r
then_reach r (next q s) = next (then_reach r q) s

-- When the start of a process has been answered and a waiter waits, in `join` or in
-- `cancel_result`, then whatever steps `r` the threads take: either a thread is still inside
-- `finish_cancel` and fewer than two of the steps were such a thread's, or both `join` and
-- `cancel_result` return, and they still do after any further steps of the threads.
pub Resolves-of_Reach :
    {C : Type 0} {m v u : System C}
    → Reach new_system m
    → ((requested : Bool) → m.state ≢ starting requested)
    → (join_control m.state ≡ none) ⊎ (cancel_result m.state ≡ none)
    → (r : Reach m v) → Reach v u
    → Resolves r u
Resolves-of_Reach {m = m} o a w r q =
    let h = waiting-canceling m.state a w in
    let b = canceling-work (Reach-IsConsistent (is_starting false) o) h in
    Resolves-of_Stage (then_reach o r) b.0 r (Reach-Stage h r) q
