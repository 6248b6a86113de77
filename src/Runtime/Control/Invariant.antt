-- ===== src/Runtime/Control/Invariant.antt =====
-- The state of a control goes with the threads inside `finish_cancel` and the answers they got.
use swaw_kit.Prelude.{◌≡◌, sym, true, false, Option, none, List, [], ◌∷◌, ◌++◌, arith, Text}
use swaw_kit.Runtime.Control.{
  OperationControlState, attach, mark_start_failed, begin_cancel, finish_cancel,
}
use swaw_kit.Runtime.Control.System.{
  Finisher, to_cancel, answered, System, attached_by, begun, refused, Step, attaches, begins,
  refuses, calls, finishes, Reach, here, next, Consistent, is_starting, is_waiting, is_answered,
  is_attached, is_canceled, is_refused, after_attach, after_begin,
}

attach-Consistent :
    {C : Type 0} (control : C) {s : OperationControlState C} {fs : List (Finisher C)}
    {given : List (Option Text)}
    → Consistent s fs given
    → Consistent
        (attach control s).state
        (fs ++ after_attach control (attach control s).result)
        given
unfolding attach
attach-Consistent control (is_starting true) = is_waiting control
attach-Consistent control (is_starting false) = is_attached control none
attach-Consistent control (is_waiting c) = is_waiting c
attach-Consistent control (is_answered c a) = is_answered c a
attach-Consistent control (is_attached c e) = is_attached c e
attach-Consistent control (is_canceled c a) = is_canceled c a
attach-Consistent control is_refused = is_refused

begin_cancel-Consistent :
    {C : Type 0} {s : OperationControlState C} {fs : List (Finisher C)} {given : List (Option Text)}
    → Consistent s fs given
    → Consistent (begin_cancel s).state (fs ++ after_begin (begin_cancel s).result) given
unfolding begin_cancel
begin_cancel-Consistent (is_starting r) = is_starting true
begin_cancel-Consistent (is_waiting c) = is_waiting c
begin_cancel-Consistent (is_answered c a) = is_answered c a
begin_cancel-Consistent (is_attached c e) = is_waiting c
begin_cancel-Consistent (is_canceled c a) = is_canceled c a
begin_cancel-Consistent is_refused = is_refused

mark_start_failed-Consistent :
    {C : Type 0} {s : OperationControlState C} {fs : List (Finisher C)} {given : List (Option Text)}
    → Consistent s fs given
    → Consistent (mark_start_failed s).state fs given
unfolding mark_start_failed
mark_start_failed-Consistent (is_starting r) = is_refused
mark_start_failed-Consistent (is_waiting c) = is_waiting c
mark_start_failed-Consistent (is_answered c a) = is_answered c a
mark_start_failed-Consistent (is_attached c e) = is_attached c e
mark_start_failed-Consistent (is_canceled c a) = is_canceled c a
mark_start_failed-Consistent is_refused = is_refused

none-split : {A : Type 0} (before behind : List A) (x : A) → [] ≡ before ++ x ∷ behind → ⊥
none-split [] behind x e = ground arith
none-split (b ∷ bs) behind x e = ground arith

one-split :
    {A : Type 0} (y : A) (before behind : List A) (x : A)
    → y ∷ [] ≡ before ++ x ∷ behind
    → (before ≡ []) × (x ≡ y) × (behind ≡ [])
one-split y [] behind x e = ground arith
one-split y (b ∷ bs) behind x e = absurd (none-split bs behind x (ground arith))

call-Consistent :
    {C : Type 0} {s : OperationControlState C} {fs : List (Finisher C)} {given : List (Option Text)}
    (before behind : List (Finisher C)) (control : C) (answer : Option Text)
    → Consistent s fs given
    → fs ≡ before ++ to_cancel control ∷ behind
    → Consistent s (before ++ answered control answer ∷ behind) (given ++ answer ∷ [])
call-Consistent before behind control answer (is_starting r) e =
    absurd (none-split before behind _ e)
call-Consistent before behind control answer (is_waiting c) e =
    let (first, _, last) = one-split _ before behind _ e in
    rw (first, last) (is_answered control answer)
call-Consistent before behind control answer (is_answered c a) e =
    absurd (let (_, other, _) = one-split _ before behind _ e in ground arith)
call-Consistent before behind control answer (is_attached c e) h =
    absurd (none-split before behind _ h)
call-Consistent before behind control answer (is_canceled c a) e =
    absurd (none-split before behind _ e)
call-Consistent before behind control answer is_refused e = absurd (none-split before behind _ e)

finish_cancel-Consistent :
    {C : Type 0} {s : OperationControlState C} {fs : List (Finisher C)} {given : List (Option Text)}
    (before behind : List (Finisher C)) (control : C) (answer : Option Text)
    → Consistent s fs given
    → fs ≡ before ++ answered control answer ∷ behind
    → Consistent (finish_cancel control answer s).state (before ++ behind) given
unfolding finish_cancel
finish_cancel-Consistent before behind control answer (is_starting r) e =
    absurd (none-split before behind _ e)
finish_cancel-Consistent before behind control answer (is_waiting c) e =
    absurd (let (_, other, _) = one-split _ before behind _ e in ground arith)
finish_cancel-Consistent before behind control answer (is_answered c a) e =
    let (first, same, last) = one-split _ before behind _ e in
    let value : answer ≡ a = ground arith in
    rw (first, last, sym value) (is_canceled control answer)
finish_cancel-Consistent before behind control answer (is_attached c e) h =
    absurd (none-split before behind _ h)
finish_cancel-Consistent before behind control answer (is_canceled c a) e =
    absurd (none-split before behind _ e)
finish_cancel-Consistent before behind control answer is_refused e =
    absurd (none-split before behind _ e)

abbrev pub IsConsistent : {C : Type 0} → System C → Type 0
IsConsistent m = Consistent m.state m.finishers m.answers

pub Step-IsConsistent : {C : Type 0} {m v : System C} → Step m v → IsConsistent m → IsConsistent v
unfolding attached_by begun refused
Step-IsConsistent (attaches control) h = attach-Consistent control h
Step-IsConsistent begins h = begin_cancel-Consistent h
Step-IsConsistent refuses h = mark_start_failed-Consistent h
Step-IsConsistent (calls before behind control answer e) h =
    call-Consistent before behind control answer h e
Step-IsConsistent (finishes before behind control answer e) h =
    finish_cancel-Consistent before behind control answer h e

pub Reach-IsConsistent : {C : Type 0} {m v : System C} → IsConsistent m → Reach m v → IsConsistent v
Reach-IsConsistent h here = h
Reach-IsConsistent h (next r s) = Step-IsConsistent s (Reach-IsConsistent h r)
