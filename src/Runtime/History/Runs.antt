-- ===== src/Runtime/History/Runs.antt =====
-- The journal of a run, from its start to its end, and its reader.
use swaw_kit.Prelude.{
  ℕ, ◌≡◌, refl, sym, ap, subst, ◌∙◌, inl, inr, Bool, true, false, Bool-cases, Option, none, some,
  arith, is_empty, Text, Result, ok, err, Result-cases, Option-cases,
}
use swaw_kit.Runtime.Journal.{
  RunJournalEvent, RunJournalStream, CommandProgress, output, progress, map_some, worker_phase,
  Writer, AppendIo, append, journal_output, FinishIo, finish_exited, finish_canceled, finish_failed,
  RunJournalSource, new_writer,
}
use swaw_kit.Runtime.Run
use swaw_kit.Runtime.Run.{
  CommandRun, RunState, take_answer, append_journal_event, append_output, append_progress,
  request_cancel, settle_cancel, begin_cancel, rollback_cancel, ProcessOutcome, process_exited,
  process_failed, complete, complete_running, complete_canceled, complete_exited, complete_failed,
  fail_start, new_run,
}
use swaw_kit.Runtime.Run.Shutdown.{begin_shutdown_cancel, finish_shutdown_cancel, settle_shutdown}
use swaw_kit.Runtime.Run.Polling.{
  RunStep, wrote, progressed, asked, answered, shutdown_began, shutdown_answered, completed,
  start_refused, RunReach, here, next,
}
use swaw_kit.Runtime.Run.Status.{complete-Ends, fail_start_status}
use swaw_kit.Runtime.History.{consistent_fields}
use swaw_kit.Runtime.History.Written.{
  IsClean, IsReady, append-IsClean, finish-IsClean, new_writer-IsClean,
}

-- The journal holds a contiguous stream, and goes on with it while the run lives.
pub record IsWritten (id address : Text) (run : CommandRun) : Type 0 where
  pub clean : IsClean id address run.journal
  pub ready :
      Run.is_terminal run.state.status ≡ false
      → run.state.journal_error ≡ none
      → IsReady run.journal

module _ (id address : Text) where
  record IsGood (answer : Writer × Result Text (Option RunJournalEvent)) : Type 0 where
    clean : IsClean id address answer.0
    ready : (o : Option RunJournalEvent) → answer.1 ≡ ok o → IsReady answer.0

  journal_output-IsGood :
      (io : AppendIo) (stream : RunJournalStream) (text : Text) (w : Writer)
      → IsClean id address w
      → IsReady w
      → IsGood (journal_output io worker_phase stream text w)
  unfolding journal_output
  journal_output-IsGood io stream text w h ready = elim (Bool-cases (is_empty text)) [
    | inl nothing ↦ simp nothing (record { clean = h; ready = λ o done. ready })
    | inr more ↦
        let (clean, onward) =
          append-IsClean id address io worker_phase (output stream text) w h ready in
        simp more (record {
          clean = clean;
          ready = λ o done. elim (Result-cases (append io worker_phase (output stream text) w).1) [
            | inl (e, made) ↦ onward e made
            | inr (e, refused) ↦ absurd (ground arith)
          ];
        })
  ]

  progress-IsGood :
      (io : AppendIo) (p : CommandProgress) (w : Writer)
      → IsClean id address w
      → IsReady w
      → IsGood (
        (append io worker_phase (progress p) w).0,
        map_some (append io worker_phase (progress p) w).1,
      )
  progress-IsGood io p w h ready =
      let (clean, onward) = append-IsClean id address io worker_phase (progress p) w h ready in
      record {
        clean = clean;
        ready = λ o done. elim (Result-cases (append io worker_phase (progress p) w).1) [
          | inl (e, made) ↦ onward e made
          | inr (e, refused) ↦ absurd (ground arith)
        ];
      }

  take_answer-IsWritten :
      (run : CommandRun) (journal : Writer) (answer : Result Text (Option RunJournalEvent))
      → IsGood (journal, answer)
      → IsWritten id address (take_answer (journal, answer) run)
  unfolding take_answer
  take_answer-IsWritten run journal (ok (some e)) g = record {
    clean = g.clean;
    ready = λ _ _. g.ready (some e) refl;
  }
  take_answer-IsWritten run journal (ok none) g = record {
    clean = g.clean;
    ready = λ _ _. g.ready none refl;
  }
  take_answer-IsWritten run journal (err e) g = record {
    clean = g.clean;
    ready = λ live h. absurd (ground arith);
  }

  append_journal_event-IsWritten :
      (call : Writer → Writer × Result Text (Option RunJournalEvent)) (run : CommandRun)
      → (IsClean id address run.journal → IsReady run.journal → IsGood (call run.journal))
      → IsWritten id address run
      → IsWritten id address (append_journal_event call run)
  unfolding append_journal_event
  append_journal_event-IsWritten call run good v =
      elim (Bool-cases (Run.is_terminal run.state.status)) [
        | inl ended ↦ simp ended v
        | inr live ↦ elim (Option-cases run.state.journal_error) [
          | inr (e, fault) ↦ simp (live, fault) v
          | inl fine ↦
              simp (live, fine)
                (take_answer-IsWritten run (call run.journal).0 (call run.journal).1
                  (good v.clean (v.ready live fine)))
        ]
      ]

  append_output-IsWritten :
      (io : AppendIo) (stream : RunJournalStream) (text : Text) (run : CommandRun)
      → IsWritten id address run
      → IsWritten id address (append_output io stream text run)
  unfolding append_output
  append_output-IsWritten io stream text run v = elim (Bool-cases (is_empty text)) [
    | inl nothing ↦ simp nothing v
    | inr more ↦ simp more (
        append_journal_event-IsWritten _ run
          (λ h r. journal_output-IsGood io stream text run.journal h r) v)
  ]

  append_progress-IsWritten :
      (io : AppendIo) (p : CommandProgress) (run : CommandRun)
      → IsWritten id address run
      → IsWritten id address (append_progress io p run)
  unfolding append_progress
  append_progress-IsWritten io p run v =
      append_journal_event-IsWritten _ run (λ h r. progress-IsGood io p run.journal h r) v

  -- The journals that the completions leave.
  pub finish_exited-IsClean :
      (io : FinishIo) (code : ℕ) (w : Writer)
      → IsClean id address w
      → IsClean id address (finish_exited io code w).0
  unfolding finish_exited
  finish_exited-IsClean io code w h =
      finish-IsClean id address io _ _ _ w (λ now. unfold consistent_fields in refl) h

  finish_canceled-IsClean :
      (io : FinishIo) (w : Writer)
      → IsClean id address w
      → IsClean id address (finish_canceled io w).0
  unfolding finish_canceled
  finish_canceled-IsClean io w h =
      finish-IsClean id address io _ _ _ w (λ now. unfold consistent_fields in refl) h

  finish_failed-IsClean :
      (io : FinishIo) (message : Text) (w : Writer)
      → IsClean id address w
      → IsClean id address (finish_failed io message w).0
  unfolding finish_failed
  finish_failed-IsClean io message w h =
      finish-IsClean id address io _ _ _ w (λ now. unfold consistent_fields in ground arith) h

  complete_journal :
      (io : FinishIo) (outcome : ProcessOutcome) (run : CommandRun)
      → IsClean id address run.journal
      → IsClean id address (complete io outcome run).0.journal
  unfolding complete complete_running complete_canceled complete_exited complete_failed
  complete_journal io (process_exited code) run h =
      ground (
        arith,
        finish_exited-IsClean io code run.journal h,
        finish_canceled-IsClean io run.journal h,
      )
  complete_journal io (process_failed m) run h =
      ground
        (arith, finish_failed-IsClean io m run.journal h, finish_canceled-IsClean io run.journal h)

  fail_start_journal :
      (io : FinishIo) (message : Text) (run : CommandRun)
      → IsClean id address run.journal
      → IsClean id address (fail_start io message run).journal
  unfolding fail_start complete_failed
  fail_start_journal io message run h =
      ground (arith, finish_failed-IsClean io message run.journal h)

  fail_start-ended :
      (io : FinishIo) (message : Text) (run : CommandRun)
      → Run.is_terminal (fail_start io message run).state.status ≡ true
  fail_start-ended io message run = elim (Bool-cases (Run.is_terminal run.state.status)) [
    | inl ended ↦
        ap (λ (r : CommandRun). Run.is_terminal r.state.status)
          ((fail_start_status io message run).1 ended)
        ∙ ended
    | inr live ↦ ap Run.is_terminal ((fail_start_status io message run).0 live)
  ]

  -- A method that leaves the journal and its error alone, and does not revive the run.
  record Spares (r s : CommandRun) : Type 0 where
    journal : s.journal ≡ r.journal
    fault : s.state.journal_error ≡ r.state.journal_error
    ended : Run.is_terminal s.state.status ≡ Run.is_terminal r.state.status

  Spares-IsWritten :
      {r s : CommandRun} → Spares r s → IsWritten id address r → IsWritten id address s
  Spares-IsWritten {r} {s} p v = record {
    clean = subst (IsClean id address) (sym p.journal) v.clean;
    ready =
        λ live h. subst IsReady (sym p.journal) (v.ready (sym p.ended ∙ live) (sym p.fault ∙ h));
  }

  request_cancel-Spares : (run : CommandRun) → Spares run (request_cancel run).0
  unfolding request_cancel begin_cancel
  request_cancel-Spares run = ground arith

  settle_cancel-Spares :
      (answer : Result Text (Unit {0})) (run : CommandRun) → Spares run (settle_cancel answer run).0
  unfolding settle_cancel rollback_cancel
  settle_cancel-Spares (ok _) run = ground arith
  settle_cancel-Spares (err e) run = ground arith

  begin_shutdown_cancel-Spares : (run : CommandRun) → Spares run (begin_shutdown_cancel run).0
  unfolding begin_shutdown_cancel begin_cancel
  begin_shutdown_cancel-Spares run = ground arith

  finish_shutdown_cancel-Spares :
      (answer : Result Text (Unit {0})) (run : CommandRun)
      → Spares run (finish_shutdown_cancel answer run).0
  unfolding finish_shutdown_cancel settle_shutdown rollback_cancel
  finish_shutdown_cancel-Spares (ok _) run = ground arith
  finish_shutdown_cancel-Spares (err e) run = ground arith

  RunStep-IsWritten :
      {r s : CommandRun} → RunStep r s → IsWritten id address r → IsWritten id address s
  RunStep-IsWritten {r} (wrote io stream text) v = append_output-IsWritten io stream text r v
  RunStep-IsWritten {r} (progressed io p) v = append_progress-IsWritten io p r v
  RunStep-IsWritten {r} asked v = Spares-IsWritten (request_cancel-Spares r) v
  RunStep-IsWritten {r} (answered a) v = Spares-IsWritten (settle_cancel-Spares a r) v
  RunStep-IsWritten {r} shutdown_began v = Spares-IsWritten (begin_shutdown_cancel-Spares r) v
  RunStep-IsWritten {r} (shutdown_answered a) v =
      Spares-IsWritten (finish_shutdown_cancel-Spares a r) v
  RunStep-IsWritten {r} (completed io outcome) v = record {
    clean = complete_journal io outcome r v.clean;
    ready = λ live h. absurd (ground (arith, (complete-Ends io outcome r).1));
  }
  RunStep-IsWritten {r} (start_refused io m) v = record {
    clean = fail_start_journal io m r v.clean;
    ready = λ live h. absurd (ground (arith, fail_start-ended io m r));
  }

  RunReach-IsWritten :
      {r s : CommandRun} → RunReach r s → IsWritten id address r → IsWritten id address s
  RunReach-IsWritten here v = v
  RunReach-IsWritten (next r s) v = RunStep-IsWritten s (RunReach-IsWritten r v)

  new_run-IsWritten :
      (source : RunJournalSource) (started argument_count : ℕ) (cancelable : Bool)
      → IsWritten id address
          (new_run id address (new_writer id address source started argument_count) cancelable)
  unfolding new_run
  new_run-IsWritten source started argument_count cancelable = record {
    clean = new_writer-IsClean id address source started argument_count;
    ready = λ live h. unfold new_writer in (refl, λ whole. refl);
  }

  -- From the start of a run on, its journal holds a contiguous stream of events, and a state file
  -- that the reader accepts.
  pub started_run-IsWritten :
      (source : RunJournalSource) (started argument_count : ℕ) (cancelable : Bool)
      {run : CommandRun}
      → RunReach
          (new_run id address (new_writer id address source started argument_count) cancelable)
          run
      → IsWritten id address run
  started_run-IsWritten source started argument_count cancelable reach =
      RunReach-IsWritten reach (new_run-IsWritten source started argument_count cancelable)
