-- ===== src/Runtime/History/Interrupted.antt =====
-- The first reader of a run whose owner has ended, and every later reader.
use swaw_kit.Prelude.{
  Option, none, some, err, ℕ, ◌≤◌, ◌≡◌, refl, ap, ◌∙◌, List, [], arith, length, Text, Avoids, ok,
  ◌>>=◌,
}
use swaw_kit.Runtime.Journal.{RunJournalEvent, running, StoredRunState}
use swaw_kit.Runtime.History.{
  reconcile, HistoryError, publish_stored_state, HistoryResult, RecoveryIo, interrupted, Reconciled,
  RunJournalDocument, read_document, read_run,
}
use swaw_kit.Runtime.History.Lines.{Codec, file_of, file_of-le}
use swaw_kit.Runtime.History.Stored.{Contiguous, wanted}
use swaw_kit.Runtime.History.Recovery.{
  IsStored, Recovers, IsDocument, interrupted-IsStored, reconcile-by, recovered, read_run_terminal,
  read_document_settled,
}

-- The content of the state file of a run, `s` before.
abbrev pub on_disk : StoredRunState → Option StoredRunState → StoredRunState
on_disk s none = s
on_disk s (some published) = published

-- The recovery of the run `s`: its document, what the recovery leaves on disk, and that whoever reads
-- that later gets the same document. When the publication is refused, there is no document.
pub record IsRecovery (codec : Codec) (io : RecoveryIo) (id address : Text) (after : ℕ)
    (s : StoredRunState) (now : ℕ) (es : List RunJournalEvent) (last : ℕ) (tail : Text)
    : Type 0 where
  pub document : RunJournalDocument
  pub read : read_run codec.parse io id address after (file_of codec id es tail) ≡ ok document
  pub content : IsDocument (interrupted now last s) (wanted after es) last document
  pub left : Reconciled
  pub reconciled : reconcile codec.parse io id address (file_of codec id es tail) ≡ ok left
  pub cut_off : left.file ≡ file_of codec id es []
  pub again :
      (later : RecoveryIo)
      → read_run codec.parse
          (record later { first = ok (on_disk s left.published) })
          id
          address
          after
          left.file
        ≡ ok document
  pub unpublished :
      (e : HistoryError)
      → read_run codec.parse
          (record io { publish = err e })
          id
          address
          after
          (file_of codec id es tail)
        ≡ err e

-- The first reader of a run that is recorded as running, but whose owner has ended, settles it: the
-- run is failed, its events are all the complete records, and the incomplete one behind them is cut
-- off. Every later reader of the state and events files that it leaves gets the same document. When
-- the new state cannot be published, the read fails with that error.
pub read_run-IsRecovery :
    (codec : Codec) (io : RecoveryIo) (id address : Text) (after : ℕ) (s : StoredRunState) (now : ℕ)
    (es : List RunJournalEvent) (last : ℕ) (tail : Text)
    → Contiguous 0 es last
    → Avoids b'\n' tail
    → length (file_of codec id es tail) ≤ 8388608
    → IsStored id address s
    → s.status ≡ running
    → s.event_count ≤ last
    → Recovers io s now
    → io.publish ≡ ok tt
    → IsRecovery codec io id address after s now es last tail
unfolding read_run publish_stored_state
read_run-IsRecovery codec io id address after s now es last tail contiguous clean fits stored live
      counted r published =
    let bare : length (file_of codec id es []) ≤ 8388608 =
      omega (arith, fits, file_of-le codec id es tail) in
    let settled = interrupted now last s in
    let (document, read, content) =
      read_document_settled codec id after es last [] contiguous tt bare settled refl refl refl in
    let done =
      reconcile-by codec id address es last tail contiguous clean fits io s now stored live r
        counted
      ∙ ap
          (λ answer.
            recovered settled (file_of codec id es []) (publish_stored_state answer settled))
          published in
    record {
      document = document;
      read =
          ap
            (λ (m : HistoryResult Reconciled).
              m >>= λ x. read_document codec.parse id after x.state x.file)
            done
          ∙ read;
      content = content;
      left = record { state = settled; published = some settled; file = file_of codec id es [] };
      reconciled = done;
      cut_off = refl;
      again = λ later.
          read_run_terminal codec (record later { first = ok settled }) id address after settled
            (file_of codec id es []) (interrupted-IsStored id address s now last stored) refl refl
          ∙ read;
      unpublished = λ e.
          ap
            (λ (m : HistoryResult Reconciled).
              m >>= λ x. read_document codec.parse id after x.state x.file)
            (reconcile-by codec id address es last tail contiguous clean fits
              (record io { publish = err e }) s now stored live
              (record {
                first = r.first;
                acquired = r.acquired;
                second = r.second;
                sync = r.sync;
                clock = r.clock;
              })
              counted);
    }
