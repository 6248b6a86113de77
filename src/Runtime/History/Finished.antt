-- ===== src/Runtime/History/Finished.antt =====
-- Reading the journal of a run that has ended.
use swaw_kit.Prelude.{
  ℕ, ◌+◌, ◌≤◌, ◌≡◌, ◌≢◌, refl, sym, ap, subst, ◌∙◌, Bool, true, false, none, some, [], arith,
  length, Text, Avoids, ok, err,
}
use swaw_kit.Runtime.Journal.{
  RunJournalPhase, RunJournalEventData, is_terminal, Writer, AppendIo, append, append_next,
  append_event, append_line, FinishIo, finish, finish_with, finish_exited, completed_state,
  RunJournalSource, new_writer, failed,
}
use swaw_kit.Runtime.Run.{CommandRun, new_run}
use swaw_kit.Runtime.Run.Polling.{RunReach}
use swaw_kit.Runtime.History.{RecoveryIo, RunJournalDocument, read_run, incomplete_record}
use swaw_kit.Runtime.History.Lines.{Codec, file_of}
use swaw_kit.Runtime.History.Stored.{wanted}
use swaw_kit.Runtime.History.Recovery.{
  IsStored, IsDocument, read_run_terminal, read_document_settled, read_document_incomplete,
}
use swaw_kit.Runtime.History.Written.{IsClean, IsReady, append-IsClean}
use swaw_kit.Runtime.History.Runs.{started_run-IsWritten, finish_exited-IsClean}

IsClean-IsStored :
    {id address : Text} {w : Writer} → IsClean id address w → IsStored id address w.state
IsClean-IsStored h = record { named = h.named; placed = h.placed; consistent = h.consistent }

-- What a reader gets of a settled journal whose writes have all succeeded.
pub record IsReadable (codec : Codec) (io : RecoveryIo) (id address : Text) (after : ℕ) (w : Writer)
    : Type 0 where
  pub document : RunJournalDocument
  pub read :
      read_run codec.parse io id address after (file_of codec id w.events w.cut) ≡ ok document
  pub content : IsDocument w.published (wanted after w.events) w.state.event_count document

clean_journal-IsReadable :
    (codec : Codec) (io : RecoveryIo) (id address : Text) (after : ℕ) (w : Writer)
    → IsClean id address w
    → is_terminal w.state.status ≡ true
    → w.write_error ≡ none
    → length (file_of codec id w.events w.cut) ≤ 8388608
    → io.first ≡ ok w.published
    → IsReadable codec io id address after w
clean_journal-IsReadable codec io id address after w h ended fine fits first =
    let bare : w.cut ≡ [] = h.cut fine in
    let same = h.settled ended in
    let (document, read, content) =
      read_document_settled codec id after w.events w.state.event_count w.cut h.contiguous
        (subst (Avoids b'\n') (sym bare) tt) fits w.state ended refl bare in
    record {
      document = document;
      read =
          read_run_terminal codec io id address after w.state (file_of codec id w.events w.cut)
            (IsClean-IsStored h) ended (first ∙ ap (λ s. ok s) same)
          ∙ read;
      content =
          subst (λ s. IsDocument s (wanted after w.events) w.state.event_count document) (sym same)
            content;
    }

-- The journal of a run that has ended, none of whose writes failed and whose file keeps within
-- 8 MiB, is read back: the published state, and of its events behind the cursor the longest end
-- that the limits of one response allow, in order; when older ones are left out, the document is
-- marked as truncated.
pub finished_run-IsReadable :
    (codec : Codec) (io : RecoveryIo) (id address : Text) (source : RunJournalSource)
    (started argument_count : ℕ) (cancelable : Bool) (after : ℕ) {run : CommandRun}
    → RunReach
        (new_run id address (new_writer id address source started argument_count) cancelable)
        run
    → is_terminal run.journal.state.status ≡ true
    → run.journal.write_error ≡ none
    → length (file_of codec id run.journal.events run.journal.cut) ≤ 8388608
    → io.first ≡ ok run.journal.published
    → IsReadable codec io id address after run.journal
finished_run-IsReadable codec io id address source started argument_count cancelable after {run}
      reach ended fine fits first =
    clean_journal-IsReadable codec io id address after run.journal
      (started_run-IsWritten id address source started argument_count cancelable reach).clean ended
      fine fits first

-- The answers of a write that fails in the middle of a record, and of a completion that succeeds.
pub record Cuts (io : AppendIo) (fin : FinishIo) (w : Writer) (now bytes done : ℕ) (fault : Text)
    : Type 0 where
  pub clock : io.clock ≡ ok now
  pub encoded : io.encoded ≡ ok bytes
  pub small : w.stored_event_bytes + bytes ≤ 8388608
  pub write : io.write ≡ err fault
  pub partial : io.partial ≢ []
  pub clean : Avoids b'\n' io.partial
  pub finish_clock : fin.clock ≡ ok done
  pub publish : fin.publish ≡ ok tt

-- The journal behind both.
abbrev pub cut_journal :
    AppendIo → FinishIo → RunJournalPhase → RunJournalEventData → ℕ → Writer → Writer
cut_journal io fin phase payload code w = (finish_exited fin code (append io phase payload w).0).0

cut_append :
    (io : AppendIo) (fin : FinishIo) (phase : RunJournalPhase) (payload : RunJournalEventData)
    (w : Writer) (now bytes done : ℕ) (fault : Text)
    → IsReady w
    → w.cut ≡ []
    → is_terminal w.state.status ≡ false
    → w.state.truncated ≡ false
    → Cuts io fin w now bytes done fault
    → ((append io phase payload w).0.cut ≡ io.partial)
      × ((append io phase payload w).0.write_error ≡ some fault)
      × (is_terminal (append io phase payload w).0.state.status ≡ false)
unfolding append append_next append_event append_line
cut_append io fin phase payload w now bytes done fault ready bare live whole c =
    ground (arith, c.clock, c.encoded, c.small, c.write)

cut_finish :
    (fin : FinishIo) (code done : ℕ) (fault : Text) (w : Writer)
    → fin.clock ≡ ok done
    → fin.publish ≡ ok tt
    → is_terminal w.state.status ≡ false
    → w.write_error ≡ some fault
    → ((finish_exited fin code w).0.state.status ≡ failed)
      × ((finish_exited fin code w).0.cut ≡ w.cut)
unfolding finish_exited finish finish_with completed_state
cut_finish fin code done fault w clock publish live lost = ground (arith, clock, publish)

-- A write that fails in the middle of a record leaves the part that it has written, and the
-- completion publishes a terminal state without cutting it off: the run that has failed is refused
-- by the reader, whose terminal runs end with a complete record.
pub failed_write-unreadable :
    (codec : Codec) (io : AppendIo) (fin : FinishIo) (rio : RecoveryIo) (id address : Text)
    (phase : RunJournalPhase) (payload : RunJournalEventData) (code after now bytes done : ℕ)
    (fault : Text) (w : Writer)
    → IsClean id address w
    → IsReady w
    → is_terminal w.state.status ≡ false
    → w.state.truncated ≡ false
    → Cuts io fin w now bytes done fault
    → rio.first ≡ ok (cut_journal io fin phase payload code w).published
    → length (
        file_of codec id
          (cut_journal io fin phase payload code w).events
          (cut_journal io fin phase payload code w).cut)
      ≤ 8388608
    → read_run codec.parse rio id address after (
        file_of codec id
          (cut_journal io fin phase payload code w).events
          (cut_journal io fin phase payload code w).cut)
      ≡ err incomplete_record
failed_write-unreadable codec io fin rio id address phase payload code after now bytes done fault w
      clean ready live whole c first fits =
    let (left, lost, alive) =
      cut_append io fin phase payload w now bytes done fault ready (clean.cut ready.0) live whole
        c in
    let (ended, kept) =
      cut_finish fin code done fault (append io phase payload w).0 c.finish_clock c.publish alive
        lost in
    let v = cut_journal io fin phase payload code w in
    let written : IsClean id address v =
      finish_exited-IsClean id address fin code (append io phase payload w).0
        (append-IsClean id address io phase payload w clean ready).0 in
    let over : is_terminal v.state.status ≡ true = ap is_terminal ended in
    let tail : v.cut ≡ io.partial = kept ∙ left in
    read_run_terminal codec rio id address after v.state (file_of codec id v.events v.cut)
      (IsClean-IsStored written) over (first ∙ ap (λ s. ok s) (written.settled over))
    ∙ read_document_incomplete codec id after v.events v.state.event_count v.cut written.contiguous
        (subst (Avoids b'\n') (sym tail) c.clean) fits v.state over
        (λ bare. c.partial (sym tail ∙ bare))
