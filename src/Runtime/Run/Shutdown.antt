-- ===== src/Runtime/Run/Shutdown.antt =====
-- The part of a run in the shutdown of the service: `begin_shutdown_cancel` and
-- `finish_shutdown_cancel` of registry/run.rs, around the calls of the process control.
use swaw_kit.Prelude.{◌≡◌, ◌⊎◌, Bool, false, arith, if◌then◌else◌, Text, Result, ok, err}
use swaw_kit.Runtime.Run.{
  CommandRun, running, canceling, is_canceling, begin_cancel, rollback_cancel,
}
use swaw_kit.Runtime.Run.Invariant.{SameOutput}

-- `CommandRun::begin_shutdown_cancel`: `true` when `begin_cancel` of the control is to be called.
unfoldable pub begin_shutdown_cancel : CommandRun → CommandRun × Bool
begin_shutdown_cancel run = if run.cancelable then begin_cancel run else (run, false)

-- The part of `finish_shutdown_cancel` behind the answer of the control.
unfoldable pub settle_shutdown :
    Result Text (Unit {0}) → CommandRun → CommandRun × Result Text (Unit {0})
settle_shutdown (ok _) run = (run, ok tt)
settle_shutdown (err e) run = (rollback_cancel run, err e)

-- `CommandRun::finish_shutdown_cancel`; the control is asked only when the run is canceling.
unfoldable pub finish_shutdown_cancel :
    Result Text (Unit {0}) → CommandRun → CommandRun × Result Text (Unit {0})
finish_shutdown_cancel answer run =
    if is_canceling run.state.status then settle_shutdown answer run else (run, ok tt)

pub begin_shutdown_cancel-SameOutput :
    (run : CommandRun) → SameOutput run (begin_shutdown_cancel run).0
unfolding begin_shutdown_cancel begin_cancel
begin_shutdown_cancel-SameOutput run = ground arith

pub finish_shutdown_cancel-SameOutput :
    (answer : Result Text (Unit {0})) (run : CommandRun)
    → SameOutput run (finish_shutdown_cancel answer run).0
unfolding finish_shutdown_cancel settle_shutdown rollback_cancel
finish_shutdown_cancel-SameOutput (ok _) run = ground arith
finish_shutdown_cancel-SameOutput (err e) run = ground arith

pub begin_shutdown_cancel_status :
    (run : CommandRun)
    → ((begin_shutdown_cancel run).0.state.status ≡ run.state.status)
      ⊎ ((run.state.status ≡ running) × ((begin_shutdown_cancel run).0.state.status ≡ canceling))
unfolding begin_shutdown_cancel begin_cancel
begin_shutdown_cancel_status run = ground arith

pub finish_shutdown_cancel_status :
    (answer : Result Text (Unit {0})) (run : CommandRun)
    → ((finish_shutdown_cancel answer run).0.state.status ≡ run.state.status)
      ⊎ ((run.state.status ≡ canceling)
          × ((finish_shutdown_cancel answer run).0.state.status ≡ running))
unfolding finish_shutdown_cancel settle_shutdown rollback_cancel
finish_shutdown_cancel_status (ok _) run = ground arith
finish_shutdown_cancel_status (err e) run = ground arith
