-- ===== src/Runtime/Run/Invariant.antt =====
-- The invariant of a command run: its retained output is counted, bounded and in order.
use swaw_kit.Prelude.{
  ℕ, ◌+◌, ◌≤◌, ◌≡◌, refl, subst, ◌⊎◌, inl, inr, Bool, false, Bool-cases, Option, none, some, List,
  [], ◌∷◌, ◌++◌, arith, Text, Result, ok, err, is_empty,
}
use swaw_kit.Runtime.Journal.{
  RunJournalEvent, RunJournalStream, Writer, AppendIo, CommandProgress, FinishIo, retained_bytes,
  finish_exited, finish_canceled, finish_failed, worker_phase,
}
use swaw_kit.Runtime.Journal.Invariant.{Chain, Chain-snoc}
use swaw_kit.Runtime.Journal.Answers.{IsAnswer, journal_output-IsAnswer, append_progress-IsAnswer}
use swaw_kit.Runtime.Run.{
  CommandRun, RunState, is_terminal, new_run, retain, trim, take_answer, append_journal_event,
  append_output, append_progress, request_cancel, settle_cancel, ProcessOutcome, process_exited,
  process_failed, complete, complete_running, complete_canceled, complete_exited, complete_failed,
  fail_start,
}
use swaw_kit.Runtime.Run.Trim.{total_bytes, IsWithin, IsTrimmed, trim-IsTrimmed}

-- The retained events follow one another from some number on up to the cursor.
pub record IsRun (run : CommandRun) : Type 0 where
  pub first : ℕ
  pub chain : Chain first run.state.events run.state.next_cursor
  pub counted : run.state.output_bytes ≡ total_bytes run.state.events
  pub within : IsWithin run.state.events
  pub behind : run.state.next_cursor ≤ run.journal.next_sequence

pub new_run-IsRun :
    (id address : Text) (journal : Writer) (cancelable : Bool)
    → IsRun (new_run id address journal cancelable)
unfolding new_run
new_run-IsRun id address journal cancelable = record {
  first = 0;
  chain = refl;
  counted = refl;
  within = omega arith;
  behind = omega arith;
}

Chain-drop :
    (first : ℕ) (gone kept : List RunJournalEvent) (last : ℕ)
    → Chain first (gone ++ kept) last
    → (from : ℕ) × Chain from kept last
Chain-drop first [] kept last h = (first, h)
Chain-drop first (e ∷ gone) kept last (_, h) = Chain-drop e.sequence gone kept last h

pub total_bytes-snoc :
    (es : List RunJournalEvent) (e : RunJournalEvent)
    → total_bytes (es ++ e ∷ []) ≡ total_bytes es + retained_bytes e
total_bytes-snoc [] e = omega arith
total_bytes-snoc (x ∷ es) e = omega (arith, total_bytes-snoc es e)

-- The trimming of one new event, in the terms of the state.
pub retain-IsTrimmed :
    (event : RunJournalEvent) (s : RunState)
    → s.output_bytes ≡ total_bytes s.events
    → IsTrimmed
        (s.events ++ event ∷ [])
        s.truncated
        (trim (s.output_bytes + retained_bytes event) (s.events ++ event ∷ []) s.truncated)
retain-IsTrimmed event s counted =
    let size : s.output_bytes + retained_bytes event ≡ total_bytes (s.events ++ event ∷ []) =
      omega (arith, counted, total_bytes-snoc s.events event) in
    rw size (trim-IsTrimmed (s.events ++ event ∷ []) s.truncated)

take_answer-IsRun :
    (run : CommandRun) (journal : Writer) (answer : Result Text (Option RunJournalEvent))
    → IsRun run
    → IsAnswer run.journal (journal, answer)
    → IsRun (take_answer (journal, answer) run)
unfolding take_answer retain
take_answer-IsRun run journal (ok (some event)) v a =
    let (number, known) = a.numbered event refl in
    let t = retain-IsTrimmed event run.state v.counted in
    let longer =
      Chain-snoc v.first run.state.events run.state.next_cursor event v.chain
        (omega (arith, v.behind)) in
    let (from, chain) =
      Chain-drop v.first t.gone _ event.sequence
        (subst (λ es. Chain v.first es event.sequence) t.parts longer) in
    record {
      first = from;
      chain = chain;
      counted = t.counted;
      within = t.within;
      behind = omega (arith, known);
    }
take_answer-IsRun run journal (ok none) v a = record {
  first = v.first;
  chain = v.chain;
  counted = v.counted;
  within = v.within;
  behind = omega (arith, v.behind, a.monotone);
}
take_answer-IsRun run journal (err e) v a = record {
  first = v.first;
  chain = v.chain;
  counted = v.counted;
  within = v.within;
  behind = omega (arith, v.behind, a.monotone);
}

-- A call of the journal is either left out or answered.
pub append_journal_event-cases :
    (call : Writer → Writer × Result Text (Option RunJournalEvent)) (run : CommandRun)
    → (append_journal_event call run ≡ run)
      ⊎ ((append_journal_event call run ≡ take_answer (call run.journal) run)
          × (is_terminal run.state.status ≡ false))
unfolding append_journal_event
append_journal_event-cases call run = ground arith

append_journal_event-IsRun :
    (call : Writer → Writer × Result Text (Option RunJournalEvent)) (run : CommandRun)
    → IsRun run
    → IsAnswer run.journal (call run.journal)
    → IsRun (append_journal_event call run)
append_journal_event-IsRun call run v a = elim (append_journal_event-cases call run) [
  | inl same ↦ rw same v
  | inr (taken, _) ↦ rw taken (take_answer-IsRun run (call run.journal).0 (call run.journal).1 v a)
]

pub append_output-IsRun :
    (io : AppendIo) (stream : RunJournalStream) (text : Text) (run : CommandRun)
    → IsRun run
    → IsRun (append_output io stream text run)
unfolding append_output
append_output-IsRun io stream text run v = elim (Bool-cases (is_empty text)) [
  | inl nothing ↦ rw nothing v
  | inr more ↦ rw more (
      append_journal_event-IsRun _ run v
        (journal_output-IsAnswer io worker_phase stream text run.journal))
]

pub append_progress-IsRun :
    (io : AppendIo) (p : CommandProgress) (run : CommandRun)
    → IsRun run
    → IsRun (append_progress io p run)
unfolding append_progress
append_progress-IsRun io p run v =
    append_journal_event-IsRun _ run v (append_progress-IsAnswer io worker_phase p run.journal)

-- A step that leaves the output and the journal's counter alone.
pub record SameOutput (r r' : CommandRun) : Type 0 where
  pub cursor : r'.state.next_cursor ≡ r.state.next_cursor
  pub events : r'.state.events ≡ r.state.events
  pub output_bytes : r'.state.output_bytes ≡ r.state.output_bytes
  pub truncated : r'.state.truncated ≡ r.state.truncated
  pub sequence : r'.journal.next_sequence ≡ r.journal.next_sequence

pub SameOutput-IsRun : {r r' : CommandRun} → SameOutput r r' → IsRun r → IsRun r'
SameOutput-IsRun s v = record {
  first = v.first;
  chain = rw (s.events, s.cursor) v.chain;
  counted = rw (s.events, s.output_bytes) v.counted;
  within = rw s.events v.within;
  behind = omega (arith, s.cursor, s.sequence, v.behind);
}

pub request_cancel-SameOutput : (run : CommandRun) → SameOutput run (request_cancel run).0
unfolding request_cancel
request_cancel-SameOutput run = ground arith

pub settle_cancel-SameOutput :
    (answer : Result Text (Unit {0})) (run : CommandRun)
    → SameOutput run (settle_cancel answer run).0
unfolding settle_cancel
settle_cancel-SameOutput (ok _) run = ground arith
settle_cancel-SameOutput (err e) run = ground arith

pub complete-SameOutput :
    (io : FinishIo) (outcome : ProcessOutcome) (run : CommandRun)
    → SameOutput run (complete io outcome run).0
unfolding complete complete_running complete_canceled complete_exited complete_failed finish_exited
    finish_canceled finish_failed
complete-SameOutput io (process_exited code) run = ground arith
complete-SameOutput io (process_failed message) run = ground arith

pub fail_start-SameOutput :
    (io : FinishIo) (message : Text) (run : CommandRun) → SameOutput run (fail_start io message run)
unfolding fail_start complete_failed finish_failed
fail_start-SameOutput io message run = ground arith
