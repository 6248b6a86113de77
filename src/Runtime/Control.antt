-- ===== src/Runtime/Control.antt =====
-- The control of one operation (_lib/proj/_app/src/runtime_service/registry/operation_control.rs).
--
-- Each function is one section under the mutex, which is never poisoned; its Boolean says whether
-- the section notifies the waiters. `C` is the handle of the process (`dyn ProcessControl`), whose
-- `cancel` runs outside the mutex, between two sections.
pub mod System
pub mod Invariant
pub mod Cancel
pub mod Resolves
use swaw_kit.Prelude.{
  ◌≡◌, Bool, true, false, not, Option, none, some, if◌then◌else◌, Text, ascii, Result, ok, err,
}

pub data ControlError : Type 0 where
  registry_unavailable : ControlError

pub data OperationControlState (C : Type 0) : Type 0 where
  starting : Bool → OperationControlState C
  canceling : OperationControlState C
  attached : C → Bool → Option Text → OperationControlState C
  start_failed : OperationControlState C

-- `OperationControl::new`.
abbrev pub new_control : {C : Type 0} → OperationControlState C
new_control = starting false

-- What a section leaves: the state, whether it notifies, and its result.
pub record Section (C R : Type 0) : Type 0 where
  pub state : OperationControlState C
  pub notifies : Bool
  pub result : R

abbrev section : {C R : Type 0} → OperationControlState C → Bool → R → Section C R
section s n r = record { state = s; notifies = n; result = r }

-- The section of `attach`: `true` when the caller is to run `finish_cancel`.
unfoldable pub attach :
    {C : Type 0} → C → OperationControlState C → Section C (Result ControlError Bool)
attach control (starting true) = section canceling false (ok true)
attach control (starting false) = section (attached control false none) true (ok false)
attach control s = section s false (err registry_unavailable)

-- `OperationControl::start_failed`.
unfoldable pub mark_start_failed :
    {C : Type 0} → OperationControlState C → Section C (Result ControlError (Unit {0}))
mark_start_failed (starting _) = section start_failed true (ok tt)
mark_start_failed s = section s false (err registry_unavailable)

-- The section of `begin_cancel`: the control on which the caller is to run `finish_cancel`.
unfoldable pub begin_cancel : {C : Type 0} → OperationControlState C → Section C (Option C)
begin_cancel (starting _) = section (starting true) false none
begin_cancel (attached control false e) = section canceling false (some control)
begin_cancel s = section s false none

-- The section of `finish_cancel` behind the answer of the control's `cancel`.
unfoldable pub finish_cancel :
    {C : Type 0} → C → Option Text → OperationControlState C → Section C (Unit {0})
finish_cancel control error canceling = section (attached control true error) true tt
finish_cancel control error s = section s true tt

abbrev pub cancel_answer : Option Text → Result Text (Unit {0})
cancel_answer none = ok tt
cancel_answer (some e) = err e

-- One turn of the loop of `cancel_result`: none when it waits.
unfoldable pub cancel_result :
    {C : Type 0} → OperationControlState C → Option (Result Text (Unit {0}))
cancel_result (starting true) = none
cancel_result (starting false) = some (err (ascii "operation cancellation was not requested"))
cancel_result canceling = none
cancel_result (attached _ true e) = some (cancel_answer e)
cancel_result (attached _ false _) = some (err (ascii "operation cancellation was not requested"))
cancel_result start_failed = some (ok tt)

-- One turn of the loop of `join`: none when it waits, else the control to join, if any.
unfoldable pub join_control : {C : Type 0} → OperationControlState C → Option (Option C)
join_control (starting _) = none
join_control canceling = none
join_control (attached control _ _) = some (some control)
join_control start_failed = some none
