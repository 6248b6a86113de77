-- ===== src/Runtime/Journal/Invariant.antt =====
-- What holds of a journal writer between two calls, whatever the operating system answers.
use mathlib.Core.Bool.{not}
use swaw_kit.Prelude.{
  ◌+◌, length, length-append, ℕ, ◌≤◌, ◌<◌, ◌≡◌, refl, inl, inr, Bool-cases, true, false, Option,
  none, some, List, [], ◌∷◌, ◌++◌, arith, Text, Result, ok, err,
}
use swaw_kit.Runtime.Journal.{
  RunJournalPhase, RunJournalStatus, is_terminal, RunJournalEventData, RunJournalEvent,
  RunJournalSource, Writer, new_writer, AppendIo, append, append_next, append_event, append_line,
  append_truncated, FinishIo, finish,
}

-- The sequence numbers rise from `first`, exclusive, and end at `last`.
abbrev pub Chain : ℕ → List RunJournalEvent → ℕ → Type 0
Chain first [] last = first ≡ last
Chain first (e ∷ es) last = (first < e.sequence) × Chain e.sequence es last

pub Chain-snoc :
    (first : ℕ) (es : List RunJournalEvent) (last : ℕ) (e : RunJournalEvent)
    → Chain first es last
    → last < e.sequence
    → Chain first (es ++ e ∷ []) e.sequence
Chain-snoc first [] last e h later = (ground arith, refl)
Chain-snoc first (x ∷ es) last e (rise, h) later = (rise, Chain-snoc x.sequence es last e h later)

pub Chain-le :
    (first : ℕ) (es : List RunJournalEvent) (last : ℕ) → Chain first es last → first ≤ last
Chain-le first [] last h = omega arith
Chain-le first (e ∷ es) last (rise, h) = omega (arith, Chain-le e.sequence es last h)

pub record IsWriter (w : Writer) : Type 0 where
  pub chain : Chain 0 w.events w.state.event_count
  pub counted : w.state.event_count ≤ w.next_sequence
  pub announced : w.published.event_count ≤ w.state.event_count
  pub measured : w.file_bytes ≡ w.stored_event_bytes + length w.cut
  pub fits : w.stored_event_bytes ≤ 8388608
  pub leased : is_terminal w.state.status ≡ not w.owned
  pub agrees : is_terminal w.published.status ≡ is_terminal w.state.status
  pub settled : is_terminal w.state.status ≡ true → w.published ≡ w.state

-- A new journal satisfies the invariant.
pub new_writer-IsWriter :
    (id address : Text) (source : RunJournalSource) (started argument_count : ℕ)
    → IsWriter (new_writer id address source started argument_count)
unfolding new_writer
new_writer-IsWriter id address source started argument_count = ground arith

-- The event carries the sequence number that was just taken.
append_event-IsWriter :
    (io : AppendIo) (event : RunJournalEvent) (w : Writer)
    → is_terminal w.state.status ≡ false
    → IsWriter w
    → w.state.event_count < event.sequence
    → event.sequence ≤ w.next_sequence
    → IsWriter (append_event io event w).0
unfolding append_event append_line append_truncated
append_event-IsWriter io event w live v later known = ground (
  arith,
  Chain-snoc 0 w.events w.state.event_count event v.chain later,
  length-append {0} w.cut io.partial,
)

append_next-IsWriter :
    (io : AppendIo) (phase : RunJournalPhase) (payload : RunJournalEventData) (w : Writer)
    → is_terminal w.state.status ≡ false
    → IsWriter w
    → IsWriter (append_next io phase payload w).0
unfolding append_next
append_next-IsWriter io phase payload w live v = by_clock io.clock refl
  where
    by_clock :
        (clock : Result Text ℕ) → io.clock ≡ clock → IsWriter (append_next io phase payload w).0
    by_clock (err e) h =
        rw (h, append_next)
          (record {
            chain = v.chain;
            counted = omega arith;
            announced = v.announced;
            measured = v.measured;
            agrees = v.agrees;
            fits = v.fits;
            leased = v.leased;
            settled = v.settled;
          })
    by_clock (ok now) h =
        rw (h, append_next)
          (append_event-IsWriter io _ _ live
            (record {
              chain = v.chain;
              counted = omega arith;
              announced = v.announced;
              measured = v.measured;
              agrees = v.agrees;
              fits = v.fits;
              leased = v.leased;
              settled = v.settled;
            })
            (omega arith) (omega arith))

-- `append` keeps the invariant on every answer of the operating system.
pub append-IsWriter :
    (io : AppendIo) (phase : RunJournalPhase) (payload : RunJournalEventData) (w : Writer)
    → IsWriter w
    → IsWriter (append io phase payload w).0
unfolding append
append-IsWriter io phase payload w v = elim (Bool-cases (is_terminal w.state.status)) [
  | inl done ↦ rw done v
  | inr live ↦ by_error w.write_error refl live
]
  where
    by_error :
        (e : Option Text)
        → w.write_error ≡ e
        → is_terminal w.state.status ≡ false
        → IsWriter (append io phase payload w).0
    by_error (some e) h live = rw (live, h, append) v
    by_error none h live = rw (live, h, append) (append_next-IsWriter io phase payload w live v)

-- `finish` keeps the invariant.
pub finish-IsWriter :
    (io : FinishIo) (status : RunJournalStatus) (exit_code : Option ℕ) (error : Option Text)
    (w : Writer)
    → is_terminal status ≡ true
    → IsWriter w
    → IsWriter (finish io status exit_code error w).0
unfolding finish
finish-IsWriter io status exit_code error w t v = ground arith
