-- ===== src/Runtime/History/Recovery.antt =====
-- Runs whose owner has ended: they are settled once, and stay readable.
use swaw_kit.Prelude.{
  ◌>>=◌, Option, ℕ, ◌≤◌, ◌≡◌, ◌≢◌, refl, ◌||◌, inl, inr, Bool, true, false, Bool-cases, none, List,
  [], arith, ltb, ◌==◌, length, is_empty, Text, text_eq_self, Avoids, ok, err,
}
use swaw_kit.Runtime.Journal.{RunJournalEvent, running, is_terminal, StoredRunState}
use swaw_kit.Runtime.History.{
  Reconciled, HistoryResult, publish_stored_state, sync_complete_event_stream, incomplete_record,
  EventRead, consistent_fields, validate_state, read_state, RecoveryIo, interrupted,
  complete_stream, recover, reconcile_owned, reconcile, RunJournalDocument, read_document, read_run,
}
use swaw_kit.Runtime.History.Lines.{Codec, file_of, records_bytes, take_bytes-file_of}
use swaw_kit.Runtime.History.Stored.{
  Contiguous, wanted, IsResponse, IsEventRead, read_events-file_of, read_events_incomplete,
}

-- A state file whose content `read_state` accepts.
pub record IsStored (id address : Text) (s : StoredRunState) : Type 0 where
  pub named : s.id ≡ id
  pub placed : s.address ≡ address
  pub consistent : consistent_fields s.status s ≡ true

pub read_state-ok :
    (id address : Text) (s : StoredRunState)
    → IsStored id address s
    → read_state id address (ok s) ≡ ok s
unfolding read_state validate_state
read_state-ok id address s h =
    ground (arith, h.named, h.placed, h.consistent, text_eq_self s.id, text_eq_self s.address)

-- The answers under which a run is recovered, but for that of the publication.
pub record Recovers (io : RecoveryIo) (s : StoredRunState) (now : ℕ) : Type 0 where
  pub first : io.first ≡ ok s
  pub acquired : io.acquired ≡ ok true
  pub second : io.second ≡ ok s
  pub sync : io.sync ≡ ok tt
  pub clock : io.clock ≡ ok now

pub interrupted-IsStored :
    (id address : Text) (s : StoredRunState) (now count : ℕ)
    → IsStored id address s
    → IsStored id address (interrupted now count s)
unfolding consistent_fields
interrupted-IsStored id address s now count h = record {
  named = h.named;
  placed = h.placed;
  consistent = refl;
}

-- What the recovery leaves, by the answer to the publication.
abbrev pub recovered :
    StoredRunState → Text → HistoryResult (Option StoredRunState) → HistoryResult Reconciled
recovered s file answer =
    answer >>= λ published. ok (record { state = s; published = published; file = file })

module _ (codec : Codec) (id address : Text) (es : List RunJournalEvent) (last : ℕ) (tail : Text)
    (contiguous : Contiguous 0 es last) (clean : Avoids b'\n' tail)
    (fits : length (file_of codec id es tail) ≤ 8388608) where
  recover-by :
      (io : RecoveryIo) (s : StoredRunState) (now : ℕ)
      → Recovers io s now
      → s.event_count ≤ last
      → recover codec.parse io id address s (file_of codec id es tail)
        ≡ recovered
            (interrupted now last s)
            (file_of codec id es [])
            (publish_stored_state io.publish (interrupted now last s))
  unfolding recover sync_complete_event_stream
  recover-by io s now r counted =
      let (read, done, is) =
        read_events-file_of codec id 0 es last tail contiguous clean fits true (ground arith) in
      let enough : ltb last s.event_count ≡ false = ground (arith, counted) in
      let cut : complete_stream read (file_of codec id es tail) ≡ file_of codec id es [] =
        cut_to read is in
      simp (done, is.cursor, enough, r.sync, r.clock, cut) refl
    where
      cut_to :
          (read : EventRead)
          → IsEventRead (wanted 0 es) last (records_bytes codec id es) tail read
          → complete_stream read (file_of codec id es tail) ≡ file_of codec id es []
      cut_to read is = elim (Bool-cases (is_empty tail)) [
        | inl nothing ↦
            let bare : tail ≡ [] = ground arith in ground (arith, is.tailed, nothing, bare)
        | inr more ↦ ground (arith, is.tailed, more, is.valid, take_bytes-file_of codec id es tail)
      ]

  pub reconcile-by :
      (io : RecoveryIo) (s : StoredRunState) (now : ℕ)
      → IsStored id address s
      → s.status ≡ running
      → Recovers io s now
      → s.event_count ≤ last
      → reconcile codec.parse io id address (file_of codec id es tail)
        ≡ recovered
            (interrupted now last s)
            (file_of codec id es [])
            (publish_stored_state io.publish (interrupted now last s))
  unfolding reconcile reconcile_owned
  reconcile-by io s now stored live r counted =
      let status : is_terminal s.status ≡ false = ground (arith, live) in
      simp (r.first, read_state-ok id address s stored, status, r.acquired, r.second)
        (recover-by io s now r counted)

-- A terminal state is left as it is.
reconcile_terminal :
    (codec : Codec) (io : RecoveryIo) (id address : Text) (s : StoredRunState) (file : Text)
    → IsStored id address s
    → is_terminal s.status ≡ true
    → io.first ≡ ok s
    → reconcile codec.parse io id address file
      ≡ ok (record { state = s; published = none; file = file })
unfolding reconcile
reconcile_terminal codec io id address s file stored ended first =
    simp (first, read_state-ok id address s stored, ended) refl

pub read_run_terminal :
    (codec : Codec) (io : RecoveryIo) (id address : Text) (after : ℕ) (s : StoredRunState)
    (file : Text)
    → IsStored id address s
    → is_terminal s.status ≡ true
    → io.first ≡ ok s
    → read_run codec.parse io id address after file ≡ read_document codec.parse id after s file
unfolding read_run
read_run_terminal codec io id address after s file stored ended first =
    simp (reconcile_terminal codec io id address s file stored ended first) refl

-- The document of a run of which nothing is lost but what the response leaves out.
pub record IsDocument (s : StoredRunState) (asked : List RunJournalEvent) (last : ℕ)
    (d : RunJournalDocument) : Type 0 where
  pub state : d.state ≡ s
  pub cursor : d.next_cursor ≡ last
  pub left_out : Bool
  pub truncated : d.truncated ≡ (s.truncated || left_out)
  pub response : IsResponse asked d.events left_out

module _ (codec : Codec) (id : Text) (after : ℕ) (es : List RunJournalEvent) (last : ℕ)
    (tail : Text) (contiguous : Contiguous 0 es last) (clean : Avoids b'\n' tail)
    (fits : length (file_of codec id es tail) ≤ 8388608) where
  -- The document of a settled run, all of whose events are stored.
  pub read_document_settled :
      (s : StoredRunState)
      → is_terminal s.status ≡ true
      → s.event_count ≡ last
      → tail ≡ []
      → (d : RunJournalDocument) × (read_document codec.parse id after s (file_of codec id es tail)
          ≡ ok d)
        × IsDocument s (wanted after es) last d
  unfolding read_document
  read_document_settled s ended counted bare =
      let (read, done, is) =
        read_events-file_of codec id after es last tail contiguous clean fits false
          (ground (arith, bare)) in
      let same : (s.event_count == read.next_cursor) ≡ true = ground (arith, is.cursor, counted) in
      (
        record {
          state = s;
          next_cursor = read.next_cursor;
          events = read.events;
          truncated = s.truncated || read.response_truncated;
        },
        simp (ended, done, same) refl,
        record {
          state = refl;
          cursor = is.cursor;
          left_out = read.response_truncated;
          truncated = refl;
          response = is.response;
        },
      )

  -- An incomplete record behind a settled run is an error.
  pub read_document_incomplete :
      (s : StoredRunState)
      → is_terminal s.status ≡ true
      → tail ≢ []
      → read_document codec.parse id after s (file_of codec id es tail) ≡ err incomplete_record
  unfolding read_document
  read_document_incomplete s ended some_tail =
      simp
        (ended, read_events_incomplete codec id after es last tail contiguous clean fits some_tail)
        refl
