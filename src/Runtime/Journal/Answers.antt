-- ===== src/Runtime/Journal/Answers.antt =====
-- What a call of the journal answers, and how it moves the sequence counter.
use swaw_kit.Prelude.{
  ℕ, ◌+◌, ◌≤◌, ◌≡◌, inl, inr, Option, some, arith, Text, Result, ok, Result-cases,
}
use swaw_kit.Runtime.Journal.{
  RunJournalPhase, RunJournalStream, RunJournalStatus, RunJournalEventData, RunJournalEvent, Writer,
  AppendIo, append, append_next, append_event, append_line, append_truncated, journal_output,
  FinishIo, finish, output, progress, CommandProgress, map_some,
}

module _ (io : AppendIo) (phase : RunJournalPhase) (payload : RunJournalEventData)
    (w : Writer) where
  -- The counter never falls.
  pub append_next_sequence : w.next_sequence ≤ (append io phase payload w).0.next_sequence
  unfolding append append_next append_event append_line append_truncated
  append_next_sequence = ground arith

  -- The event of a successful append carries the next number.
  pub append-ok_sequence :
      {event : RunJournalEvent}
      → (append io phase payload w).1 ≡ ok event
      → (event.sequence ≡ w.next_sequence + 1)
        × ((append io phase payload w).0.next_sequence ≡ event.sequence)
  unfolding append append_next append_event append_line append_truncated
  append-ok_sequence h = ground arith

-- The same of the answer of any call that a run makes.
pub record IsAnswer (w : Writer) (answer : Writer × Result Text (Option RunJournalEvent))
    : Type 0 where
  pub monotone : w.next_sequence ≤ answer.0.next_sequence
  pub numbered :
      (event : RunJournalEvent)
      → answer.1 ≡ ok (some event)
      → (event.sequence ≡ w.next_sequence + 1) × (answer.0.next_sequence ≡ event.sequence)

pub journal_output-IsAnswer :
    (io : AppendIo) (phase : RunJournalPhase) (stream : RunJournalStream) (text : Text) (w : Writer)
    → IsAnswer w (journal_output io phase stream text w)
unfolding journal_output
journal_output-IsAnswer io phase stream text w = record {
  monotone = ground (arith, append_next_sequence io phase (output stream text) w);
  numbered = λ event h. elim (Result-cases (append io phase (output stream text) w).1) [
    | inl (e, made) ↦
        let facts = append-ok_sequence io phase (output stream text) w made in
        ground (arith, facts.0, facts.1)
    | inr (e, refused) ↦ absurd (ground arith)
  ];
}

pub append_progress-IsAnswer :
    (io : AppendIo) (phase : RunJournalPhase) (p : CommandProgress) (w : Writer)
    → IsAnswer w ((append io phase (progress p) w).0, map_some (append io phase (progress p) w).1)
append_progress-IsAnswer io phase p w = record {
  monotone = append_next_sequence io phase (progress p) w;
  numbered = λ event h. elim (Result-cases (append io phase (progress p) w).1) [
    | inl (e, made) ↦
        let facts = append-ok_sequence io phase (progress p) w made in
        ground (arith, facts.0, facts.1)
    | inr (e, refused) ↦ absurd (ground arith)
  ];
}

pub finish_next_sequence :
    (io : FinishIo) (status : RunJournalStatus) (code : Option ℕ) (e : Option Text) (w : Writer)
    → (finish io status code e w).0.next_sequence ≡ w.next_sequence
unfolding finish
finish_next_sequence io status code e w = ground arith
