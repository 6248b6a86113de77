-- ===== src/Runtime/Control/System.antt =====
-- The control among its threads: the sections in any order, and what runs between them.
use swaw_kit.Prelude.{
  ◌≡◌, Bool, true, false, Option, none, some, List, [], ◌∷◌, ◌++◌, Text, Result, ok,
}
use swaw_kit.Runtime.Control.{
  ControlError, OperationControlState, starting, canceling, attached, start_failed, new_control,
  attach, mark_start_failed, begin_cancel, finish_cancel,
}

-- A thread inside `finish_cancel`: before the call of the control's `cancel`, or behind it.
pub data Finisher (C : Type 0) : Type 0 where
  to_cancel : C → Finisher C
  answered : C → Option Text → Finisher C

-- `answers` are those that the calls of `cancel` gave, in their order.
pub record System (C : Type 0) : Type 0 where
  pub state : OperationControlState C
  pub finishers : List (Finisher C)
  pub answers : List (Option Text)

abbrev pub new_system : {C : Type 0} → System C
new_system = record { state = new_control; finishers = []; answers = [] }

abbrev pub after_attach : {C : Type 0} → C → Result ControlError Bool → List (Finisher C)
after_attach control (ok true) = to_cancel control ∷ []
after_attach control _ = []

abbrev pub after_begin : {C : Type 0} → Option C → List (Finisher C)
after_begin (some control) = to_cancel control ∷ []
after_begin none = []

-- `attach` and `begin_cancel` leave a finisher where they call `finish_cancel`.
unfoldable pub attached_by : {C : Type 0} → C → System C → System C
attached_by control m =
    let s = attach control m.state in
    record m { state = s.state; finishers = m.finishers ++ after_attach control s.result }

unfoldable pub begun : {C : Type 0} → System C → System C
begun m =
    let s = begin_cancel m.state in
    record m { state = s.state; finishers = m.finishers ++ after_begin s.result }

unfoldable pub refused : {C : Type 0} → System C → System C
refused m = record m { state = (mark_start_failed m.state).state }

pub data Step {C : Type 0} (m : System C) : System C → Type 0 where
  attaches : (control : C) → Step m (attached_by control m)
  begins : Step m (begun m)
  refuses : Step m (refused m)
  calls :
      (before behind : List (Finisher C)) (control : C) (answer : Option Text)
      → m.finishers ≡ before ++ to_cancel control ∷ behind
      → Step m (record m {
        finishers = before ++ answered control answer ∷ behind;
        answers = m.answers ++ answer ∷ [];
      })
  finishes :
      (before behind : List (Finisher C)) (control : C) (answer : Option Text)
      → m.finishers ≡ before ++ answered control answer ∷ behind
      → Step m (record m {
        state = (finish_cancel control answer m.state).state;
        finishers = before ++ behind;
      })

pub data Reach {C : Type 0} (m : System C) : System C → Type 0 where
  here : Reach m m
  next : {u v : System C} → Reach m u → Step u v → Reach m v

-- The finishers and answers that go with a state.
pub data Consistent {C : Type 0}
    : OperationControlState C → List (Finisher C) → List (Option Text) → Type 0 where
  is_starting : (requested : Bool) → Consistent (starting requested) [] []
  is_waiting : (control : C) → Consistent canceling (to_cancel control ∷ []) []
  is_answered :
      (control : C) (answer : Option Text)
      → Consistent canceling (answered control answer ∷ []) (answer ∷ [])
  is_attached : (control : C) (e : Option Text) → Consistent (attached control false e) [] []
  is_canceled :
      (control : C) (answer : Option Text)
      → Consistent (attached control true answer) [] (answer ∷ [])
  is_refused : Consistent start_failed [] []
