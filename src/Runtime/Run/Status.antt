-- ===== src/Runtime/Run/Status.antt =====
-- The status of a run: its state machine, and how a completion ends it.
use swaw_kit.Prelude.{
  ℕ, ◌≡◌, refl, ◌⊎◌, inl, inr, true, false, not, Bool-cases, Option, none, some, arith, Text,
  Result, ok, err, is_empty,
}
use swaw_kit.Runtime.Journal.{
  RunJournalStream, Writer, AppendIo, CommandProgress, FinishIo, RunJournalEvent, finish_exited,
  finish_canceled, finish_failed,
}
use swaw_kit.Runtime.Run.{
  CommandRun, CommandRunState, RunState, running, canceling, exited, canceled, failed, is_terminal,
  retain, take_answer, append_journal_event, append_output, append_progress, request_cancel,
  settle_cancel, ProcessOutcome, process_exited, process_failed, complete, complete_running,
  complete_canceled, complete_exited, complete_failed, fail_start,
}
use swaw_kit.Runtime.Run.Shutdown.{begin_shutdown_cancel_status, finish_shutdown_cancel_status}
use swaw_kit.Runtime.Run.Invariant
use swaw_kit.Runtime.Run.Polling.{
  RunStep, wrote, progressed, asked, answered, shutdown_began, shutdown_answered, completed,
  start_refused,
}

-- The transitions of a run.
pub data Edge : CommandRunState → CommandRunState → Type 0 where
  cancel_begins : Edge running canceling
  cancel_rolled_back : Edge canceling running
  exits : Edge running exited
  is_canceled : Edge canceling canceled
  fails : Edge running failed
  fails_canceling : Edge canceling failed

take_answer_status :
    (run : CommandRun) (journal : Writer) (answer : Result Text (Option RunJournalEvent))
    → (take_answer (journal, answer) run).state.status ≡ run.state.status
unfolding take_answer retain
take_answer_status run journal (ok (some event)) = refl
take_answer_status run journal (ok none) = refl
take_answer_status run journal (err e) = refl

append_journal_event_status :
    (call : Writer → Writer × Result Text (Option RunJournalEvent)) (run : CommandRun)
    → (append_journal_event call run).state.status ≡ run.state.status
append_journal_event_status call run = elim (Invariant.append_journal_event-cases call run) [
  | inl same ↦ rw same
  | inr (taken, _) ↦ rw taken (take_answer_status run (call run.journal).0 (call run.journal).1)
]

append_output_status :
    (io : AppendIo) (stream : RunJournalStream) (text : Text) (run : CommandRun)
    → (append_output io stream text run).state.status ≡ run.state.status
unfolding append_output
append_output_status io stream text run = elim (Bool-cases (is_empty text)) [
  | inl nothing ↦ rw nothing
  | inr more ↦ rw more (append_journal_event_status _ run)
]

append_progress_status :
    (io : AppendIo) (p : CommandProgress) (run : CommandRun)
    → (append_progress io p run).state.status ≡ run.state.status
unfolding append_progress
append_progress_status io p run = append_journal_event_status _ run

complete_canceled_status :
    (answer : Writer × Result Text (Unit {0})) (s : RunState)
    → ((complete_canceled answer s).1.status ≡ canceled)
      ⊎ ((complete_canceled answer s).1.status ≡ failed)
unfolding complete_canceled
complete_canceled_status (w, ok _) s = inl refl
complete_canceled_status (w, err e) s = inr refl

complete_exited_status :
    (code : ℕ) (answer : Writer × Result Text (Unit {0})) (s : RunState)
    → ((complete_exited code answer s).1.status ≡ exited)
      ⊎ ((complete_exited code answer s).1.status ≡ failed)
unfolding complete_exited
complete_exited_status code (w, ok _) s = inl refl
complete_exited_status code (w, err e) s = inr refl

complete_failed_status :
    (message : Text) (answer : Writer × Result Text (Unit {0})) (s : RunState)
    → (complete_failed message answer s).1.status ≡ failed
unfolding complete_failed
complete_failed_status message (w, ok _) s = refl
complete_failed_status message (w, err e) s = refl

-- How a completion ends a run, by its status before.
abbrev pub Ends : CommandRunState → CommandRunState → Type 0
Ends running after = (after ≡ exited) ⊎ (after ≡ failed)
Ends canceling after = (after ≡ canceled) ⊎ (after ≡ failed)
Ends before after = after ≡ before

complete_running_status :
    (io : FinishIo) (outcome : ProcessOutcome) (run : CommandRun)
    → ((complete_running io outcome run).state.status ≡ exited)
      ⊎ ((complete_running io outcome run).state.status ≡ failed)
unfolding complete_running
complete_running_status io (process_exited code) run =
    complete_exited_status code (finish_exited io code run.journal) run.state
complete_running_status io (process_failed m) run =
    inr (complete_failed_status m (finish_failed io m run.journal) run.state)

complete_by :
    (io : FinishIo) (outcome : ProcessOutcome) (run : CommandRun) (status : CommandRunState)
    → run.state.status ≡ status
    → Ends status (complete io outcome run).0.state.status
unfolding complete
complete_by io outcome run running e = ground (arith, complete_running_status io outcome run)
complete_by io outcome run canceling e =
    ground (arith, complete_canceled_status (finish_canceled io run.journal) run.state)
complete_by io outcome run exited e = ground arith
complete_by io outcome run canceled e = ground arith
complete_by io outcome run failed e = ground arith

-- Whatever the process and the journal report, a completion ends the run: a running one as exited
-- or failed, a canceling one as canceled or failed, and one that had ended stays as it was.
pub complete-Ends :
    (io : FinishIo) (outcome : ProcessOutcome) (run : CommandRun)
    → Ends run.state.status (complete io outcome run).0.state.status
      × (is_terminal (complete io outcome run).0.state.status ≡ true)
      × ((complete io outcome run).1 ≡ not (is_terminal run.state.status))
complete-Ends io outcome run = (
  complete_by io outcome run run.state.status refl,
  ended run.state.status _ (complete_by io outcome run run.state.status refl),
  unfold complete in ground arith,
)
  where
    ended : (before after : CommandRunState) → Ends before after → is_terminal after ≡ true
    ended running after h = ground arith
    ended canceling after h = ground arith
    ended exited after h = ground arith
    ended canceled after h = ground arith
    ended failed after h = ground arith

Ends-Edge :
    (before after : CommandRunState) → Ends before after → (after ≡ before) ⊎ Edge before after
Ends-Edge running after h = grind (arith, exits, fails)
Ends-Edge canceling after h = grind (arith, is_canceled, fails_canceling)
Ends-Edge exited after h = inl h
Ends-Edge canceled after h = inl h
Ends-Edge failed after h = inl h

pub fail_start_status :
    (io : FinishIo) (message : Text) (run : CommandRun)
    → (is_terminal run.state.status ≡ false → (fail_start io message run).state.status ≡ failed)
      × (is_terminal run.state.status ≡ true → fail_start io message run ≡ run)
unfolding fail_start
fail_start_status io m run = (
  λ live. ground (arith, complete_failed_status m (finish_failed io m run.journal) run.state),
  λ ended. ground arith,
)

fail_start_by :
    (io : FinishIo) (message : Text) (run : CommandRun) (status : CommandRunState)
    → run.state.status ≡ status
    → ((fail_start io message run).state.status ≡ status)
      ⊎ Edge status (fail_start io message run).state.status
fail_start_by io m run running e = grind (arith, fails, (fail_start_status io m run).0)
fail_start_by io m run canceling e = grind (arith, fails_canceling, (fail_start_status io m run).0)
fail_start_by io m run exited e = inl (grind (arith, (fail_start_status io m run).1))
fail_start_by io m run canceled e = inl (grind (arith, (fail_start_status io m run).1))
fail_start_by io m run failed e = inl (grind (arith, (fail_start_status io m run).1))

-- Each method leaves the status alone or follows an edge of the diagram.
pub RunStep-Edge :
    {r s : CommandRun}
    → RunStep r s
    → (s.state.status ≡ r.state.status) ⊎ Edge r.state.status s.state.status
RunStep-Edge {r} (wrote io stream text) = inl (append_output_status io stream text r)
RunStep-Edge {r} (progressed io p) = inl (append_progress_status io p r)
RunStep-Edge {r} asked = unfold request_cancel in grind (arith, cancel_begins)
RunStep-Edge {r} (answered (ok _)) = unfold settle_cancel in inl refl
RunStep-Edge {r} (answered (err e)) = unfold settle_cancel in grind (arith, cancel_rolled_back)
RunStep-Edge {r} shutdown_began = grind (arith, cancel_begins, begin_shutdown_cancel_status r)
RunStep-Edge {r} (shutdown_answered a) =
    grind (arith, cancel_rolled_back, finish_shutdown_cancel_status a r)
RunStep-Edge {r} (completed io outcome) = Ends-Edge r.state.status _ (complete-Ends io outcome r).0
RunStep-Edge {r} (start_refused io m) = fail_start_by io m r r.state.status refl
