-- ===== src/Runtime/Run/Ended.antt =====
-- A run that has ended: nothing changes it.
use swaw_kit.Prelude.{
  ◌≡◌, refl, ap, ◌∙◌, inl, inr, true, Bool-cases, Option, arith, Text, Result, ok, err, is_empty,
}
use swaw_kit.Runtime.Journal.{RunJournalStream, Writer, AppendIo, RunJournalEvent}
use swaw_kit.Runtime.Run.{
  CommandRun, is_terminal, append_journal_event, append_output, append_progress, request_cancel,
  settle_cancel, begin_cancel, complete, fail_start,
}
use swaw_kit.Runtime.Run.Shutdown.{finish_shutdown_cancel, begin_shutdown_cancel}
use swaw_kit.Runtime.Run.Polling.{
  RunStep, wrote, progressed, asked, answered, shutdown_began, shutdown_answered, completed,
  start_refused, RunReach, here, next,
}

append_journal_event_ended :
    (call : Writer → Writer × Result Text (Option RunJournalEvent)) (run : CommandRun)
    → is_terminal run.state.status ≡ true
    → append_journal_event call run ≡ run
unfolding append_journal_event
append_journal_event_ended call run t = simp t refl

append_output_ended :
    (io : AppendIo) (stream : RunJournalStream) (text : Text) (run : CommandRun)
    → is_terminal run.state.status ≡ true
    → append_output io stream text run ≡ run
unfolding append_output
append_output_ended io stream text run t = elim (Bool-cases (is_empty text)) [
  | inl nothing ↦ simp nothing refl
  | inr more ↦ simp more (append_journal_event_ended _ run t)
]

settle_cancel_ended :
    (answer : Result Text (Unit {0})) (run : CommandRun)
    → is_terminal run.state.status ≡ true
    → (settle_cancel answer run).0 ≡ run
unfolding settle_cancel
settle_cancel_ended (ok _) run t = refl
settle_cancel_ended (err e) run t = ground arith

finish_shutdown_cancel_ended :
    (answer : Result Text (Unit {0})) (run : CommandRun)
    → is_terminal run.state.status ≡ true
    → (finish_shutdown_cancel answer run).0 ≡ run
unfolding finish_shutdown_cancel
finish_shutdown_cancel_ended answer run t = ground arith

ended_step : {u v : CommandRun} → RunStep u v → is_terminal u.state.status ≡ true → v ≡ u
unfolding append_progress request_cancel begin_shutdown_cancel begin_cancel complete fail_start
ended_step {u} (wrote io stream text) k = append_output_ended io stream text u k
ended_step {u} (progressed io p) k = append_journal_event_ended _ u k
ended_step {u} asked k = ground arith
ended_step {u} (answered a) k = settle_cancel_ended a u k
ended_step {u} shutdown_began k = ground arith
ended_step {u} (shutdown_answered a) k = finish_shutdown_cancel_ended a u k
ended_step {u} (completed io outcome) k = ground arith
ended_step {u} (start_refused io m) k = ground arith

-- A run that has ended never changes again: no method of it, nor any sequence of them, alters its
-- output, its status, its error or its journal.
pub RunReach_terminal :
    {r s : CommandRun} → is_terminal r.state.status ≡ true → RunReach r s → s ≡ r
RunReach_terminal t here = refl
RunReach_terminal {r} t (next before step) =
    let same = RunReach_terminal t before in
    ended_step step (ap (λ (q : CommandRun). is_terminal q.state.status) same ∙ t) ∙ same
