-- ===== src/Runtime/Journal/Life.antt =====
-- The life of a journal: any calls of `append` and `finish`, whatever the operating system answers.
use swaw_kit.Prelude.{
  ◌+◌, ◌≤◌, ◌<◌, ◌∙◌, false, ok, err, ℕ, ◌≡◌, refl, ◌≢◌, ◌⊎◌, true, Option, none, arith, Text,
}
use swaw_kit.Runtime.Journal.{
  RunJournalPhase, RunJournalStatus, running, exited, canceled, failed, append_next, append_event,
  append_line, append_truncated, is_terminal, RunJournalEventData, RunJournalSource, Writer,
  new_writer, AppendIo, append, FinishIo, finish,
}
use swaw_kit.Runtime.Journal.Invariant.{
  IsWriter, new_writer-IsWriter, append-IsWriter, finish-IsWriter,
}

-- `finish` is only called with a terminal status, by `finish_exited` and its siblings.
pub data JournalStep (w : Writer) : Writer → Type 0 where
  appended :
      (io : AppendIo) (phase : RunJournalPhase) (payload : RunJournalEventData)
      → JournalStep w (append io phase payload w).0
  finished :
      (io : FinishIo) (status : RunJournalStatus) (exit_code : Option ℕ) (error : Option Text)
      → is_terminal status ≡ true
      → JournalStep w (finish io status exit_code error w).0

pub data JournalReach (w : Writer) : Writer → Type 0 where
  here : JournalReach w w
  next : {u v : Writer} → JournalReach w u → JournalStep u v → JournalReach w v

JournalStep-IsWriter : {w v : Writer} → JournalStep w v → IsWriter w → IsWriter v
JournalStep-IsWriter {w} (appended io phase payload) h = append-IsWriter io phase payload w h
JournalStep-IsWriter {w} (finished io status exit_code error t) h =
    finish-IsWriter io status exit_code error w t h

JournalReach-IsWriter : {w v : Writer} → JournalReach w v → IsWriter w → IsWriter v
JournalReach-IsWriter here h = h
JournalReach-IsWriter (next r s) h = JournalStep-IsWriter s (JournalReach-IsWriter r h)

-- In every journal that was started and then used in any way: the sequence numbers of the complete
-- records rise strictly up to the event count, and the published count is at most that one; the
-- file keeps within 8 MiB, but for what a failed write has left behind the records; the owner lease
-- is held exactly until the terminal state, and that state is the published one.
pub journal_invariant :
    (id address : Text) (source : RunJournalSource) (started argument_count : ℕ) {w : Writer}
    → JournalReach (new_writer id address source started argument_count) w
    → IsWriter w
journal_invariant id address source started argument_count r =
    JournalReach-IsWriter r (new_writer-IsWriter id address source started argument_count)

append_terminal :
    (io : AppendIo) (phase : RunJournalPhase) (payload : RunJournalEventData) (w : Writer)
    → is_terminal w.state.status ≡ true
    → (append io phase payload w).0 ≡ w
unfolding append
append_terminal io phase payload w t = rw t

finish_terminal :
    (io : FinishIo) (status : RunJournalStatus) (exit_code : Option ℕ) (error : Option Text)
    (w : Writer)
    → is_terminal w.state.status ≡ true
    → (finish io status exit_code error w).0 ≡ w
unfolding finish
finish_terminal io status exit_code error w t = rw t

-- A journal that has reached a terminal state never changes again.
pub JournalReach_terminal :
    {w v : Writer} → is_terminal w.state.status ≡ true → JournalReach w v → v ≡ w
JournalReach_terminal t here = refl
JournalReach_terminal {w} t (next {u} r (appended io phase payload)) =
    let same = JournalReach_terminal t r in rw same (append_terminal io phase payload w t)
JournalReach_terminal {w} t (next {u} r (finished io status exit_code error _)) =
    let same = JournalReach_terminal t r in rw same (finish_terminal io status exit_code error w t)

-- A write of the output was lost, and the run has not been reported as a success.
pub record IsLost (w : Writer) : Type 0 where
  pub lost : w.write_error ≢ none
  pub status : (w.state.status ≡ running) ⊎ (w.state.status ≡ failed)
  pub published : (w.published.status ≡ running) ⊎ (w.published.status ≡ failed)

JournalStep-IsLost : {w v : Writer} → JournalStep w v → IsLost w → IsLost v
JournalStep-IsLost {w} (appended io phase payload) h = unfold append in ground arith
JournalStep-IsLost {w} (finished io status exit_code error t) h = unfold finish in ground arith

JournalReach-IsLost : {w v : Writer} → JournalReach w v → IsLost w → IsLost v
JournalReach-IsLost here h = h
JournalReach-IsLost (next r s) h = JournalStep-IsLost s (JournalReach-IsLost r h)

-- The answers with which an `append` loses its event: the write of the record that fits is refused,
-- or the publication of the truncation by one that does not.
pub data Loses (io : AppendIo) (w : Writer) : Type 0 where
  refused_write :
      (now bytes : ℕ) (fault : Text)
      → io.clock ≡ ok now
      → io.encoded ≡ ok bytes
      → w.stored_event_bytes + bytes ≤ 8388608
      → io.write ≡ err fault
      → Loses io w
  refused_publication :
      (now bytes : ℕ) (fault : Text)
      → io.clock ≡ ok now
      → io.encoded ≡ ok bytes
      → 8388608 < w.stored_event_bytes + bytes
      → io.publish ≡ err fault
      → Loses io w

running_of_live : (s : RunJournalStatus) → is_terminal s ≡ false → s ≡ running
running_of_live running h = refl
running_of_live exited h = absurd (ground arith)
running_of_live canceled h = absurd (ground arith)
running_of_live failed h = absurd (ground arith)

losing-IsLost :
    (io : AppendIo) (phase : RunJournalPhase) (payload : RunJournalEventData) (w : Writer)
    → w.state.status ≡ running
    → w.published.status ≡ running
    → w.write_error ≡ none
    → w.state.truncated ≡ false
    → Loses io w
    → IsLost (append io phase payload w).0
unfolding append append_next append_event append_line append_truncated
losing-IsLost io phase payload w live public fine whole
      (refused_write now bytes fault clock encoded small write) =
    ground (arith, clock, encoded, small, write)
losing-IsLost io phase payload w live public fine whole
      (refused_publication now bytes fault clock encoded large publish) =
    ground (arith, clock, encoded, large, publish)

-- Once the write of a record, or the publication of the truncation, has failed in a live journal, the
-- run is never recorded as exited or canceled, neither in memory nor in the published state: only as
-- running or failed.
pub append-IsLost :
    (id address : Text) (source : RunJournalSource) (started argument_count : ℕ) {w v : Writer}
    (io : AppendIo) (phase : RunJournalPhase) (payload : RunJournalEventData)
    → JournalReach (new_writer id address source started argument_count) w
    → is_terminal w.state.status ≡ false
    → w.write_error ≡ none
    → w.state.truncated ≡ false
    → Loses io w
    → JournalReach (append io phase payload w).0 v
    → IsLost v
append-IsLost id address source started argument_count {w} io phase payload r live fine whole lost
      onward =
    let invariant = journal_invariant id address source started argument_count r in
    JournalReach-IsLost onward (
      losing-IsLost io phase payload w (running_of_live w.state.status live)
        (running_of_live w.published.status (invariant.agrees ∙ live)) fine whole lost)
