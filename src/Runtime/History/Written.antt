-- ===== src/Runtime/History/Written.antt =====
-- What the journal of a run holds is what the reader expects.
use swaw_kit.Prelude.{
  ℕ, ◌+◌, ◌⊎◌, ◌≡◌, refl, inl, inr, true, false, Bool-cases, Option, none, some, List, [], ◌∷◌,
  ◌++◌, arith, Text, ok, err, Result-cases,
}
use swaw_kit.Runtime.Journal.{
  RunJournalEvent, RunJournalPhase, RunJournalEventData, RunJournalStatus, is_terminal, Writer,
  AppendIo, append, append_next, append_event, append_line, append_truncated, FinishIo, finish,
  finish_with, completed_state, RunJournalSource, new_writer,
}
use swaw_kit.Runtime.History.{consistent_fields}
use swaw_kit.Runtime.History.Stored.{Contiguous}

pub record IsClean (id address : Text) (w : Writer) : Type 0 where
  pub contiguous : Contiguous 0 w.events w.state.event_count
  pub cut : w.write_error ≡ none → w.cut ≡ []
  pub named : w.state.id ≡ id
  pub placed : w.state.address ≡ address
  pub consistent : consistent_fields w.state.status w.state ≡ true
  pub settled : is_terminal w.state.status ≡ true → w.published ≡ w.state

-- The next record continues the stream, unless the journal is truncated.
abbrev pub IsReady : Writer → Type 0
IsReady w =
    (w.write_error ≡ none) × (w.state.truncated ≡ false → w.state.event_count ≡ w.next_sequence)

Contiguous-snoc :
    (first : ℕ) (es : List RunJournalEvent) (last : ℕ) (e : RunJournalEvent)
    → Contiguous first es last
    → e.sequence ≡ last + 1
    → Contiguous first (es ++ e ∷ []) e.sequence
Contiguous-snoc first [] last e h number = (ground arith, refl)
Contiguous-snoc first (x ∷ es) last e (rise, h) number =
    (rise, Contiguous-snoc x.sequence es last e h number)

pub new_writer-IsClean :
    (id address : Text) (source : RunJournalSource) (started argument_count : ℕ)
    → IsClean id address (new_writer id address source started argument_count)
unfolding new_writer consistent_fields
new_writer-IsClean id address source started argument_count = ground arith

module _ (id address : Text) where
  append_event-IsClean :
      (io : AppendIo) (event : RunJournalEvent) (w : Writer)
      → is_terminal w.state.status ≡ false
      → IsClean id address w
      → w.write_error ≡ none
      → (w.state.truncated ≡ false → event.sequence ≡ w.state.event_count + 1)
      → IsClean id address (append_event io event w).0
  unfolding append_event append_line append_truncated consistent_fields
  append_event-IsClean io event w live h fine number =
      ground (arith, Contiguous-snoc 0 w.events w.state.event_count event h.contiguous)

  append_event-IsReady :
      (io : AppendIo) (event e : RunJournalEvent) (w : Writer)
      → w.write_error ≡ none
      → event.sequence ≡ w.next_sequence
      → (append_event io event w).1 ≡ ok e
      → IsReady (append_event io event w).0
  unfolding append_event append_line append_truncated
  append_event-IsReady io event e w fine number done = ground arith

  -- The number is taken before the clock is read.
  abbrev taken : Writer → Writer
  taken w = record w { next_sequence = w.next_sequence + 1 }

  abbrev event_of : RunJournalPhase → RunJournalEventData → Writer → ℕ → RunJournalEvent
  event_of phase payload w now = record {
    sequence = w.next_sequence + 1;
    timestamp_unix_ms = now;
    phase = phase;
    payload = payload;
  }

  append_next-by :
      (io : AppendIo) (phase : RunJournalPhase) (payload : RunJournalEventData) (w : Writer)
      → ((e : Text) × (append_next io phase payload w ≡ (taken w, err e)))
        ⊎ ((now : ℕ) × (append_next io phase payload w
              ≡ append_event io (event_of phase payload w now) (taken w)))
  unfolding append_next append_event append_truncated append_line
  append_next-by io phase payload w = elim (Result-cases io.clock) [
    | inl (now, h) ↦ inr (now, rw (h, append_next) refl)
    | inr (e, h) ↦ inl (e, rw (h, append_next) refl)
  ]

  taken-IsClean : (w : Writer) → IsClean id address w → IsClean id address (taken w)
  taken-IsClean w h = record {
    contiguous = h.contiguous;
    cut = h.cut;
    named = h.named;
    placed = h.placed;
    consistent = h.consistent;
    settled = h.settled;
  }

  append_next-IsClean :
      (io : AppendIo) (phase : RunJournalPhase) (payload : RunJournalEventData) (w : Writer)
      → is_terminal w.state.status ≡ false
      → IsClean id address w
      → IsReady w
      → IsClean id address (append_next io phase payload w).0
        × ((e : RunJournalEvent)
            → (append_next io phase payload w).1 ≡ ok e
            → IsReady (append_next io phase payload w).0)
  append_next-IsClean io phase payload w live h (fine, next) =
      elim (append_next-by io phase payload w) [
        | inl (fault, same) ↦ rw same (taken-IsClean w h, λ e done. absurd (ground arith))
        | inr (now, same) ↦ rw same (
          append_event-IsClean io (event_of phase payload w now) (taken w) live (taken-IsClean w h)
              fine (λ whole. ground (arith, next whole)),
          λ e done.
              append_event-IsReady io (event_of phase payload w now) e (taken w) fine refl done,
        )
      ]

  pub append-IsClean :
      (io : AppendIo) (phase : RunJournalPhase) (payload : RunJournalEventData) (w : Writer)
      → IsClean id address w
      → IsReady w
      → IsClean id address (append io phase payload w).0
        × ((e : RunJournalEvent)
            → (append io phase payload w).1 ≡ ok e
            → IsReady (append io phase payload w).0)
  unfolding append
  append-IsClean io phase payload w h ready = elim (Bool-cases (is_terminal w.state.status)) [
    | inl ended ↦ simp ended (h, λ e done. ready)
    | inr live ↦ simp (live, ready.0) (append_next-IsClean io phase payload w live h ready)
  ]

  -- `finish` with the arguments that the three callers give it.
  pub finish-IsClean :
      (io : FinishIo) (status : RunJournalStatus) (code : Option ℕ) (error : Option Text)
      (w : Writer)
      → ((now : ℕ)
          → consistent_fields status (record w.state {
            status = status;
            exit_code = code;
            error = error;
            finished_at_unix_ms = some now;
          })
            ≡ true)
      → IsClean id address w
      → IsClean id address (finish io status code error w).0
  unfolding finish finish_with completed_state consistent_fields
  finish-IsClean io status code error w fine h = elim (Result-cases io.clock) [
    | inl (now, clock) ↦ ground (arith, fine now)
    | inr (e, clock) ↦ ground arith
  ]
