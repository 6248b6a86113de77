-- ===== src/Runtime/History.antt =====
-- The reader of stored run journals (_lib/proj/_app/src/run_journal/read.rs).
--
-- The events file is its bytes. serde's decoding of a record is the argument `parse`; the state
-- file's content, the owner lease, the clock and the writes are arguments that carry the answers.
pub mod Lines
pub mod Stored
pub mod Recovery
pub mod Interrupted
pub mod Written
pub mod Runs
pub mod Finished
pub mod Listing
use swaw_kit.Prelude.{
  ℕ, suc, ◌+◌, ◌-◌, ◌*◌, Bool, true, false, not, ◌&&◌, ◌||◌, Option, none, some, List, [], ◌∷◌,
  ◌++◌, ltb, leb, ◌==◌, length, is_empty, if◌then◌else◌, Text, ascii, text_eq, Result, ok, err,
  reject_if, ok_or, ◌>>=◌, ◌>>◌,
}
use swaw_kit.Runtime.Journal.{
  RunJournalEvent, RunJournalSource, RunJournalStatus, running, exited, canceled, failed,
  is_terminal, StoredRunState, retained_bytes,
}
use swaw_kit.Runtime.Run.{Retained, trim}

abbrev pub journal_event_schema : Text
journal_event_schema = ascii "swawkit.command-run-event/v2"

abbrev pub max_stored_events_file_bytes : ℕ
max_stored_events_file_bytes = 8 * 1024 * 1024

abbrev pub interrupted_error : Text
interrupted_error = ascii "command execution owner ended before publishing a terminal state"

pub record StoredRunEvent : Type 0 where
  pub schema : Text
  pub run_id : Text
  pub event : RunJournalEvent

-- The errors of the reader; `refused` is one of the operating system.
pub data HistoryError : Type 0 where
  run_not_found : HistoryError
  count_mismatch : HistoryError
  count_ahead : HistoryError
  foreign_identity : HistoryError
  inconsistent_fields : HistoryError
  file_too_long : HistoryError
  incomplete_record : HistoryError
  invalid_record : HistoryError
  not_contiguous : HistoryError
  refused : Text → HistoryError

abbrev pub HistoryResult : Type 0 → Type 0
HistoryResult A = Result HistoryError A

-- `read_until(b'\n')` over the whole file: the complete lines, and what is behind the last.
abbrev pub onto_line : ℕ → List Text × Text → List Text × Text
onto_line c ([], tail) = ([], c ∷ tail)
onto_line c (line ∷ lines, tail) = ((c ∷ line) ∷ lines, tail)

unfoldable pub split_lines : Text → List Text × Text
split_lines [] = ([], [])
split_lines (c ∷ s) =
    let rest = split_lines s in if c == b'\n' then ([] ∷ rest.0, rest.1) else onto_line c rest

-- The variables of the loop of `read_events`.
pub record Reading : Type 0 where
  pub events : List RunJournalEvent
  pub response_bytes : ℕ
  pub previous_sequence : ℕ
  pub truncated : Bool
  pub valid_bytes : ℕ

abbrev pub start_reading : Reading
start_reading = record {
  events = [];
  response_bytes = 0;
  previous_sequence = 0;
  truncated = false;
  valid_bytes = 0;
}

-- The rest of a round behind the checks. The loop that shortens the response is `trim`, with the
-- same limits.
unfoldable pub take_event : ℕ → RunJournalEvent → Reading → Reading
take_event after event r =
    let t = trim (r.response_bytes + retained_bytes event) (r.events ++ event ∷ []) r.truncated in
    if leb event.sequence after then record r { previous_sequence = event.sequence } else record r {
      previous_sequence = event.sequence;
      events = t.kept;
      response_bytes = t.bytes;
      truncated = t.dropped;
    }

pub record EventRead : Type 0 where
  pub events : List RunJournalEvent
  pub next_cursor : ℕ
  pub response_truncated : Bool
  pub valid_bytes : ℕ
  pub incomplete_tail : Bool

module _ (parse : Text → Option StoredRunEvent) (id : Text) (after : ℕ) where
  -- One round of the loop, on a complete line.
  unfoldable pub read_line : Text → Reading → HistoryResult Reading
  read_line line r = do
    stored ← ok_or (parse line) invalid_record
    reject_if
        (not (text_eq stored.schema journal_event_schema)
          || not (text_eq stored.run_id id)
          || not (stored.event.sequence == r.previous_sequence + 1))
        not_contiguous
    ok (
        take_event after stored.event
          (record r { valid_bytes = r.valid_bytes + suc (length line) }))

  unfoldable pub read_lines : List Text → Reading → HistoryResult Reading
  read_lines [] r = ok r
  read_lines (line ∷ lines) r = do next ← read_line line r; read_lines lines next

  unfoldable pub read_events : Bool → Text → HistoryResult EventRead
  read_events allow_incomplete_tail file = do
    reject_if (ltb max_stored_events_file_bytes (length file)) file_too_long
    r ← read_lines (split_lines file).0 start_reading
    reject_if (not (is_empty (split_lines file).1) && not allow_incomplete_tail) incomplete_record
    ok (record {
      events = r.events;
      next_cursor = r.previous_sequence;
      response_truncated = r.truncated;
      valid_bytes = r.valid_bytes;
      incomplete_tail = not (is_empty (split_lines file).1);
    })

abbrev pub is_some : {A : Type 0} → Option A → Bool
is_some none = false
is_some (some _) = true

abbrev pub is_none : {A : Type 0} → Option A → Bool
is_none o = not (is_some o)

abbrev pub is_message : Option Text → Bool
is_message none = false
is_message (some error) = not (is_empty error)

-- The `match` of `validate_state`.
unfoldable pub consistent_fields : RunJournalStatus → StoredRunState → Bool
consistent_fields running s =
    is_none s.finished_at_unix_ms && is_none s.exit_code && is_none s.error
consistent_fields exited s = is_some s.finished_at_unix_ms && is_some s.exit_code && is_none s.error
consistent_fields canceled s =
    is_some s.finished_at_unix_ms && is_none s.exit_code && is_none s.error
consistent_fields failed s =
    is_some s.finished_at_unix_ms && is_none s.exit_code && is_message s.error

unfoldable pub validate_state : StoredRunState → HistoryResult (Unit {0})
unfolding consistent_fields
validate_state s = reject_if (not (consistent_fields s.status s)) inconsistent_fields

-- `read_state`, on the content of the state file.
unfoldable pub read_state :
    Text → Text → HistoryResult StoredRunState → HistoryResult StoredRunState
read_state expected_id address content = do
  s ← content
  reject_if (not (text_eq s.id expected_id) || not (text_eq s.address address)) foreign_identity
  validate_state s
  ok s

-- What the operating system answers while a state is reconciled: the state file on its first and
-- its second read, whether the owner lease was acquired, the sync, the clock, the publication.
pub record RecoveryIo : Type 0 where
  pub first : HistoryResult StoredRunState
  pub acquired : HistoryResult Bool
  pub second : HistoryResult StoredRunState
  pub sync : HistoryResult (Unit {0})
  pub clock : HistoryResult ℕ
  pub publish : HistoryResult (Unit {0})

-- The state that a run gets whose owner is gone.
abbrev pub interrupted : ℕ → ℕ → StoredRunState → StoredRunState
interrupted now count s = record s {
  status = failed;
  finished_at_unix_ms = some now;
  exit_code = none;
  error = some interrupted_error;
  event_count = count;
}

-- `sync_complete_event_stream`: the file that it leaves.
abbrev pub take_bytes : ℕ → Text → Text
take_bytes n [] = []
take_bytes n (c ∷ s) = let rest = take_bytes (n - 1) s in if n == 0 then [] else c ∷ rest

abbrev pub complete_stream : EventRead → Text → Text
complete_stream read file = if read.incomplete_tail then take_bytes read.valid_bytes file else file

unfoldable pub sync_complete_event_stream :
    HistoryResult (Unit {0}) → EventRead → Text → HistoryResult Text
sync_complete_event_stream (err e) read file = err e
sync_complete_event_stream (ok _) read file = ok (complete_stream read file)

-- `publish_stored_state`: the content that the state file gets, unless it is refused.
unfoldable pub publish_stored_state :
    HistoryResult (Unit {0}) → StoredRunState → HistoryResult (Option StoredRunState)
publish_stored_state (err e) s = err e
publish_stored_state (ok _) s = ok (some s)

-- A state, what the state file gets, if anything, and the events file that is left.
pub record Reconciled : Type 0 where
  pub state : StoredRunState
  pub published : Option StoredRunState
  pub file : Text

module _ (parse : Text → Option StoredRunEvent) (io : RecoveryIo) (id address : Text) where
  -- The part of `read_reconciled_state` behind the second read, for a run still said to be running.
  unfoldable pub recover : StoredRunState → Text → HistoryResult Reconciled
  recover s file = do
    read ← read_events parse id 0 true file
    reject_if (ltb read.next_cursor s.event_count) count_ahead
    left ← sync_complete_event_stream io.sync read file
    now ← io.clock
    published ← publish_stored_state io.publish (interrupted now read.next_cursor s)
    ok (record { state = interrupted now read.next_cursor s; published = published; file = left })

  abbrev pub unchanged : StoredRunState → Text → HistoryResult Reconciled
  unchanged s file = ok (record { state = s; published = none; file = file })

  unfoldable pub reconcile_owned : Bool → StoredRunState → Text → HistoryResult Reconciled
  reconcile_owned false s file = unchanged s file
  reconcile_owned true s file = do
    again ← read_state id address io.second
    if is_terminal again.status then unchanged again file else recover again file

  -- `read_reconciled_state`.
  unfoldable pub reconcile : Text → HistoryResult Reconciled
  reconcile file = do
    s ← read_state id address io.first
    if is_terminal s.status
        then unchanged s file
        else (do acquired ← io.acquired; reconcile_owned acquired s file)

-- `RunJournalDocument`, without its constant protocol.
pub record RunJournalDocument : Type 0 where
  pub state : StoredRunState
  pub next_cursor : ℕ
  pub events : List RunJournalEvent
  pub truncated : Bool

-- The part of `read_run` behind the state.
unfoldable pub read_document :
    (Text → Option StoredRunEvent)
    → Text
    → ℕ
    → StoredRunState
    → Text
    → HistoryResult RunJournalDocument
read_document parse id after s file = do
  read ← read_events parse id after (not (is_terminal s.status)) file
  reject_if (is_terminal s.status && not (s.event_count == read.next_cursor)) count_mismatch
  reject_if (not (is_terminal s.status) && ltb read.next_cursor s.event_count) count_ahead
  ok (record {
    state = s;
    next_cursor = read.next_cursor;
    events = read.events;
    truncated = s.truncated || read.response_truncated;
  })

-- `read_run` behind its path checks.
unfoldable pub read_run :
    (Text → Option StoredRunEvent)
    → RecoveryIo
    → Text
    → Text
    → ℕ
    → Text
    → HistoryResult RunJournalDocument
read_run parse io id address after file = do
  r ← reconcile parse io id address file
  read_document parse id after r.state r.file
