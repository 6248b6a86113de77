-- ===== src/Runtime/Journal.antt =====
-- The run journal of one command run: its event file, its published state and the writer
-- (_lib/proj/_app/src/run_journal/mod.rs, event.rs and storage.rs).
--
-- Each call of the operating system is an argument that carries its outcome: the clock, the
-- length of the encoded line (serde), the write, the sync and the atomic publication.
pub mod Invariant
pub mod Answers
pub mod Life
use swaw_kit.Prelude.{
  ℕ, ◌+◌, ◌*◌, Bool, true, false, ◌||◌, Option, none, some, List, [], ◌∷◌, ◌++◌, ltb, length,
  is_empty, if◌then◌else◌, Text, ascii, Result, ok, err,
}

abbrev pub max_events_file_bytes : ℕ
max_events_file_bytes = 8 * 1024 * 1024

pub data RunJournalPhase : Type 0 where
  run_phase worker_phase : RunJournalPhase

pub data RunJournalStream : Type 0 where
  stdout stderr : RunJournalStream

pub data RunJournalStatus : Type 0 where
  running exited canceled failed : RunJournalStatus

abbrev pub is_terminal : RunJournalStatus → Bool
is_terminal running = false
is_terminal _ = true

pub data CommandProgressState : Type 0 where
  running_progress completed_progress failed_progress : CommandProgressState

pub data CommandProgressUnit : Type 0 where
  bytes_unit items_unit percent_unit : CommandProgressUnit

pub record CommandProgress : Type 0 where
  pub id : Text
  pub state : CommandProgressState
  pub current : Option ℕ
  pub total : Option ℕ
  pub unit : CommandProgressUnit
  pub message : Text

pub data RunJournalEventData : Type 0 where
  output : RunJournalStream → Text → RunJournalEventData
  progress : CommandProgress → RunJournalEventData

pub record RunJournalEvent : Type 0 where
  pub sequence : ℕ
  pub timestamp_unix_ms : ℕ
  pub phase : RunJournalPhase
  pub payload : RunJournalEventData

abbrev payload_bytes : RunJournalEventData → ℕ
payload_bytes (output stream text) = length text
payload_bytes (progress p) = length p.message

unfoldable pub retained_bytes : RunJournalEvent → ℕ
retained_bytes event = payload_bytes event.payload

pub data RunJournalSource : Type 0 where
  cli web : RunJournalSource

-- `StoredRunState` without its constant schema. Exit codes are the bit patterns of an `i32`.
pub record StoredRunState : Type 0 where
  pub id : Text
  pub address : Text
  pub source : RunJournalSource
  pub status : RunJournalStatus
  pub started_at_unix_ms : ℕ
  pub finished_at_unix_ms : Option ℕ
  pub exit_code : Option ℕ
  pub error : Option Text
  pub argument_count : ℕ
  pub event_count : ℕ
  pub truncated : Bool

-- `published` is the content of the state file. `events` are the complete records of the events
-- file, `cut` the bytes behind them that a failed write has left there, and `file_bytes` is the
-- length of the file, which only a write changes. `owned` is whether the owner lease is still held.
pub record Writer : Type 0 where
  pub state : StoredRunState
  pub published : StoredRunState
  pub events : List RunJournalEvent
  pub cut : Text
  pub file_bytes : ℕ
  pub owned : Bool
  pub next_sequence : ℕ
  pub stored_event_bytes : ℕ
  pub write_error : Option Text

unfoldable pub new_running_state : Text → Text → RunJournalSource → ℕ → ℕ → StoredRunState
new_running_state id address source started argument_count = record {
  id = id;
  address = address;
  source = source;
  status = running;
  started_at_unix_ms = started;
  finished_at_unix_ms = none;
  exit_code = none;
  error = none;
  argument_count = argument_count;
  event_count = 0;
  truncated = false;
}

-- The writer that `RunJournal::create` builds once the files of the run are published.
unfoldable pub new_writer : Text → Text → RunJournalSource → ℕ → ℕ → Writer
unfolding new_running_state
new_writer id address source started argument_count =
    let state = new_running_state id address source started argument_count in
    record {
      state = state;
      published = state;
      events = [];
      cut = [];
      file_bytes = 0;
      owned = true;
      next_sequence = 0;
      stored_event_bytes = 0;
      write_error = none;
    }

-- What the operating system answers during one `append`; `partial` is the part of the record that
-- a failed write has written.
pub record AppendIo : Type 0 where
  pub clock : Result Text ℕ
  pub encoded : Result Text ℕ
  pub publish : Result Text (Unit {0})
  pub write : Result Text (Unit {0})
  pub partial : Text

-- `Writer::remember_error`.
abbrev pub remember_error : Writer → Text → Writer × Result Text RunJournalEvent
remember_error w message = (record w { write_error = some message }, err message)

-- The write of a line of `bytes` bytes that fits.
unfoldable pub append_line :
    AppendIo → RunJournalEvent → ℕ → Writer → Writer × Result Text RunJournalEvent
append_line io event bytes w = elim io.write [
  | err e ↦
      remember_error
        (record w { cut = w.cut ++ io.partial; file_bytes = w.file_bytes + length io.partial }) e
  | ok _ ↦ (
    record w {
      events = w.events ++ event ∷ [];
      file_bytes = w.file_bytes + bytes;
      stored_event_bytes = w.stored_event_bytes + bytes;
      state = record w.state { event_count = event.sequence };
    },
    ok event,
  )
]

-- The event does not fit, or an earlier one did not: the first time, the truncation is published.
unfoldable pub append_truncated :
    AppendIo → RunJournalEvent → Writer → Writer × Result Text RunJournalEvent
append_truncated io event w =
    if w.state.truncated
    then (w, ok event)
    else (let marked = record w { state = record w.state { truncated = true } } in
        elim io.publish [
          | err e ↦ remember_error marked e
          | ok _ ↦ (record marked { published = marked.state }, ok event)
        ])

-- The part of `Writer::append` behind the clock.
unfoldable pub append_event :
    AppendIo → RunJournalEvent → Writer → Writer × Result Text RunJournalEvent
append_event io event w = elim io.encoded [
  | err e ↦ (w, err e)
  | ok bytes ↦
      if w.state.truncated || ltb max_events_file_bytes (w.stored_event_bytes + bytes)
      then append_truncated io event w
      else append_line io event bytes w
]

-- The part of `Writer::append` behind its guards: the sequence is taken before the clock is read.
unfoldable pub append_next :
    AppendIo → RunJournalPhase → RunJournalEventData → Writer → Writer × Result Text RunJournalEvent
append_next io phase payload w =
    let sequence = w.next_sequence + 1 in
    let taken = record w { next_sequence = sequence } in
    elim io.clock [
      | err e ↦ (taken, err e)
      | ok now ↦
          append_event io
            (record {
              sequence = sequence;
              timestamp_unix_ms = now;
              phase = phase;
              payload = payload;
            })
            taken
    ]

unfoldable pub append :
    AppendIo → RunJournalPhase → RunJournalEventData → Writer → Writer × Result Text RunJournalEvent
append io phase payload w =
    if is_terminal w.state.status
    then (w, err (ascii "run journal is already complete"))
    else elim w.write_error [ some e ↦ (w, err e) | none ↦ append_next io phase payload w ]

-- `RunJournal::output`: an empty text is no event.
unfoldable pub journal_output :
    AppendIo
    → RunJournalPhase
    → RunJournalStream
    → Text
    → Writer
    → Writer × Result Text (Option RunJournalEvent)
unfolding append
journal_output io phase stream text w =
    if is_empty text
    then (w, ok none)
    else (let (next, result) = append io phase (output stream text) w in
        (next, elim result [ ok event ↦ ok (some event) | err e ↦ err e ]))

-- `RunJournal::progress`.
abbrev pub journal_progress :
    AppendIo → RunJournalPhase → CommandProgress → Writer → Writer × Result Text RunJournalEvent
journal_progress io phase p w = append io phase (progress p) w

-- `Result::map(Some)`.
abbrev pub map_some : Result Text RunJournalEvent → Result Text (Option RunJournalEvent)
map_some (ok e) = ok (some e)
map_some (err e) = err e

pub record FinishIo : Type 0 where
  pub sync : Result Text (Unit {0})
  pub clock : Result Text ℕ
  pub publish : Result Text (Unit {0})

-- `self.write_error.clone().or(sync_error)`.
abbrev pub journal_error : Option Text → Result Text (Unit {0}) → Option Text
journal_error (some e) sync = some e
journal_error none (ok _) = none
journal_error none (err e) = some e

-- The terminal state that `finish` publishes.
unfoldable pub completed_state :
    RunJournalStatus → Option ℕ → Option Text → Option Text → ℕ → StoredRunState → StoredRunState
completed_state status exit_code error none now s = record s {
  status = status;
  exit_code = exit_code;
  error = error;
  finished_at_unix_ms = some now;
}
completed_state status exit_code error (some fault) now s = record s {
  status = failed;
  exit_code = none;
  error = some (ascii "command output journal failed: " ++ fault);
  finished_at_unix_ms = some now;
}

abbrev pub finish_result : Option Text → Result Text (Unit {0})
finish_result none = ok tt
finish_result (some e) = err e

unfoldable pub finish_with :
    FinishIo
    → RunJournalStatus
    → Option ℕ
    → Option Text
    → Option Text
    → Writer
    → Writer × Result Text (Unit {0})
unfolding completed_state
finish_with io status exit_code error fault w = elim io.clock [
  | err e ↦ (w, err e)
  | ok now ↦
      let completed = completed_state status exit_code error fault now w.state in
      elim io.publish [
        | err e ↦ (w, err e)
        | ok _ ↦ (
          record w { state = completed; published = completed; owned = false },
          finish_result fault,
        )
      ]
]

unfoldable pub finish :
    FinishIo → RunJournalStatus → Option ℕ → Option Text → Writer → Writer × Result Text (Unit {0})
unfolding finish_with
finish io status exit_code error w =
    if is_terminal w.state.status
    then (w, err (ascii "run journal is already complete"))
    else finish_with io status exit_code error (journal_error w.write_error io.sync) w

unfoldable pub finish_exited : FinishIo → ℕ → Writer → Writer × Result Text (Unit {0})
unfolding finish
finish_exited io exit_code w = finish io exited (some exit_code) none w

unfoldable pub finish_canceled : FinishIo → Writer → Writer × Result Text (Unit {0})
unfolding finish
finish_canceled io w = finish io canceled none none w

unfoldable pub finish_failed : FinishIo → Text → Writer → Writer × Result Text (Unit {0})
unfolding finish
finish_failed io message w =
    finish io failed none
      (some (if is_empty message then ascii "command failed without an error message" else message))
      w
