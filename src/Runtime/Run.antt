-- ===== src/Runtime/Run.antt =====
-- One command run of the runtime service: its retained output, its status and its journal
-- (_lib/proj/_app/src/runtime_service/registry/run.rs and model.rs).
--
-- Each function is the body of a method under the run's lock, which is never poisoned. The calls
-- of the process control stand in Runtime/Control; their result comes as an argument.
pub mod Shutdown
pub mod Trim
pub mod Invariant
pub mod Polling
pub mod Status
pub mod Ended
use swaw_kit.Prelude.{
  ℕ, ◌+◌, ◌-◌, ◌*◌, Bool, true, false, not, ◌||◌, Option, none, some, List, [], ◌∷◌, ◌++◌, ltb,
  length, is_empty, keep, if◌then◌else◌, Text, ascii, Result, ok, err,
}
use swaw_kit.Runtime.Journal.{
  map_some, RunJournalStream, RunJournalEvent, Writer, AppendIo, worker_phase, append, output,
  progress, journal_progress, CommandProgress, journal_output, retained_bytes, FinishIo,
  finish_exited, finish_canceled, finish_failed,
}

abbrev pub max_output_bytes : ℕ
max_output_bytes = 1024 * 1024

abbrev pub max_output_events : ℕ
max_output_events = 4096

pub data CommandRunState : Type 0 where
  running canceling exited canceled failed : CommandRunState

abbrev pub is_terminal : CommandRunState → Bool
is_terminal running = false
is_terminal canceling = false
is_terminal _ = true

abbrev pub is_running : CommandRunState → Bool
is_running running = true
is_running _ = false

abbrev pub is_canceling : CommandRunState → Bool
is_canceling canceling = true
is_canceling _ = false

-- The errors of `RuntimeServiceError` that a run returns.
pub data RunError : Type 0 where
  run_not_cancelable : RunError
  cancel_failed : Text → RunError

pub record RunState : Type 0 where
  pub status : CommandRunState
  pub exit_code : Option ℕ
  pub error : Option Text
  pub next_cursor : ℕ
  pub events : List RunJournalEvent
  pub output_bytes : ℕ
  pub truncated : Bool
  pub journal_error : Option Text

pub record CommandRun : Type 0 where
  pub id : Text
  pub address : Text
  pub journal : Writer
  pub state : RunState
  pub cancelable : Bool

-- `RunState::default`.
abbrev pub default_state : RunState
default_state = record {
  status = running;
  exit_code = none;
  error = none;
  next_cursor = 0;
  events = [];
  output_bytes = 0;
  truncated = false;
  journal_error = none;
}

unfoldable pub new_run : Text → Text → Writer → Bool → CommandRun
new_run id address journal cancelable = record {
  id = id;
  address = address;
  journal = journal;
  state = default_state;
  cancelable = cancelable;
}

pub record Retained : Type 0 where
  pub bytes : ℕ
  pub kept : List RunJournalEvent
  pub dropped : Bool

-- The loop that drops the oldest events while the output is over one of its limits.
unfoldable pub trim : ℕ → List RunJournalEvent → Bool → Retained
trim bytes [] dropped = record { bytes = bytes; kept = []; dropped = dropped }
trim bytes (e ∷ es) dropped =
    let shorter = trim (bytes - retained_bytes e) es true in
    if ltb max_output_bytes bytes || ltb max_output_events (length (e ∷ es))
    then shorter
    else record { bytes = bytes; kept = e ∷ es; dropped = dropped }

-- A new event of the journal enters the retained output.
unfoldable pub retain : RunJournalEvent → RunState → RunState
retain event s =
    let r = trim (s.output_bytes + retained_bytes event) (s.events ++ event ∷ []) s.truncated in
    record s {
      next_cursor = event.sequence;
      events = r.kept;
      output_bytes = r.bytes;
      truncated = r.dropped;
    }

-- The part of `append_journal_event` behind the journal's answer.
unfoldable pub take_answer : Writer × Result Text (Option RunJournalEvent) → CommandRun → CommandRun
take_answer (journal, ok (some event)) run = record run {
  journal = journal;
  state = retain event run.state;
}
take_answer (journal, ok none) run = record run { journal = journal }
take_answer (journal, err e) run = record run {
  journal = journal;
  state = record run.state { journal_error = some e };
}

unfoldable pub append_journal_event :
    (Writer → Writer × Result Text (Option RunJournalEvent)) → CommandRun → CommandRun
append_journal_event call run =
    if is_terminal run.state.status
    then run
    else elim run.state.journal_error [ some _ ↦ run | none ↦ take_answer (call run.journal) run ]

-- `CommandRun::append`.
unfoldable pub append_output : AppendIo → RunJournalStream → Text → CommandRun → CommandRun
append_output io stream text run =
    if is_empty text
    then run
    else append_journal_event (journal_output io worker_phase stream text) run

unfoldable pub append_progress : AppendIo → CommandProgress → CommandRun → CommandRun
append_progress io p run =
    append_journal_event
      (λ w. let (next, result) = journal_progress io worker_phase p w in (next, map_some result))
      run

unfoldable pub begin_cancel : CommandRun → CommandRun × Bool
begin_cancel run =
    if is_running run.state.status
    then (record run { state = record run.state { status = canceling } }, true)
    else (run, false)

unfoldable pub rollback_cancel : CommandRun → CommandRun
rollback_cancel run =
    if is_canceling run.state.status
    then record run { state = record run.state { status = running } }
    else run

-- `CommandRun::cancel` up to the call of the control: `true` when the control is to be canceled.
unfoldable pub request_cancel : CommandRun → CommandRun × Result RunError Bool
unfolding begin_cancel
request_cancel run =
    if run.cancelable
    then (let (next, started) = begin_cancel run in (next, ok started))
    else (run, (if is_running run.state.status then err run_not_cancelable else ok false))

-- `CommandRun::cancel` behind the control's answer.
unfoldable pub settle_cancel :
    Result Text (Unit {0}) → CommandRun → CommandRun × Result RunError (Unit {0})
unfolding rollback_cancel
settle_cancel (ok _) run = (run, ok tt)
settle_cancel (err e) run = (rollback_cancel run, err (cancel_failed e))

pub data ProcessOutcome : Type 0 where
  process_exited : ℕ → ProcessOutcome
  process_failed : Text → ProcessOutcome

-- `format!("{prior}; completion: {error}")`, or the completion error alone.
abbrev pub completion_error : Option Text → Text → Text
completion_error none e = e
completion_error (some prior) e = prior ++ (ascii "; completion: " ++ e)

-- `journal_failed`.
unfoldable pub journal_failed : Text → RunState → RunState
journal_failed e s = record s {
  status = failed;
  exit_code = none;
  error = some (ascii "command journal failed: " ++ completion_error s.journal_error e);
  journal_error = none;
}

abbrev pub joined_error : Text → Text → Text
joined_error e journal =
    e ++ (ascii "; additionally, command journal completion failed: " ++ journal)

-- A status, exit code and error together.
abbrev pub settled : CommandRunState → Option ℕ → Option Text → RunState → RunState
settled status exit_code error s = record s {
  status = status;
  exit_code = exit_code;
  error = error;
}

unfoldable pub complete_canceled : Writer × Result Text (Unit {0}) → RunState → Writer × RunState
unfolding journal_failed
complete_canceled (w, ok _) s = (w, settled canceled none none s)
complete_canceled (w, err e) s = (w, journal_failed e s)

unfoldable pub complete_exited : ℕ → Writer × Result Text (Unit {0}) → RunState → Writer × RunState
unfolding journal_failed
complete_exited code (w, ok _) s = (w, settled exited (some code) none s)
complete_exited code (w, err e) s = (w, journal_failed e s)

unfoldable pub complete_failed :
    Text → Writer × Result Text (Unit {0}) → RunState → Writer × RunState
complete_failed message (w, ok _) s = (w, settled failed none (some message) s)
complete_failed message (w, err e) s = (w, settled failed none (some (joined_error message e)) s)

abbrev pub with_parts : CommandRun → Writer × RunState → CommandRun
with_parts run (w, s) = record run { journal = w; state = s }

unfoldable pub complete_running : FinishIo → ProcessOutcome → CommandRun → CommandRun
complete_running io (process_exited code) run =
    with_parts run (complete_exited code (finish_exited io code run.journal) run.state)
complete_running io (process_failed message) run =
    with_parts run (complete_failed message (finish_failed io message run.journal) run.state)

-- `CommandRun::complete`: `true` when this call made the run terminal.
unfoldable pub complete : FinishIo → ProcessOutcome → CommandRun → CommandRun × Bool
complete io outcome run = if is_terminal run.state.status then (run, false) else (
  (if is_canceling run.state.status
      then with_parts run (complete_canceled (finish_canceled io run.journal) run.state)
      else complete_running io outcome run),
  true,
)

unfoldable pub fail_start : FinishIo → Text → CommandRun → CommandRun
fail_start io message run =
    if is_terminal run.state.status
    then run
    else with_parts run (complete_failed message (finish_failed io message run.journal) run.state)

-- `CommandRunDocument`, without the constant protocol.
pub record CommandRunDocument : Type 0 where
  pub id : Text
  pub address : Text
  pub state : CommandRunState
  pub exit_code : Option ℕ
  pub error : Option Text
  pub next_cursor : ℕ
  pub events : List RunJournalEvent
  pub truncated : Bool

unfoldable pub document : CommandRun → ℕ → CommandRunDocument
document run after = record {
  id = run.id;
  address = run.address;
  state = run.state.status;
  exit_code = run.state.exit_code;
  error = run.state.error;
  next_cursor = run.state.next_cursor;
  events = keep (λ event. ltb after event.sequence) run.state.events;
  truncated = run.state.truncated;
}
