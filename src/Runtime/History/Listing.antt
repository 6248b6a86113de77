-- ===== src/Runtime/History/Listing.antt =====
-- The history of a module's runs (_lib/proj/_app/src/run_journal/read.rs: read_run_history), over the
-- entries of the journals' directory: each is its name and the state that its run is read with.
pub mod Order
use swaw_kit.Prelude.{
  ℕ, zero, suc, ◌+◌, ◌*◌, Bool, true, false, ◌&&◌, ◌||◌, Option, none, some, List, [], ◌∷◌, map,
  ltb, leb, ◌==◌, length, if◌then◌else◌, Text, text_le, sort, ok, ◌>>=◌,
}
use swaw_kit.Runtime.Journal.{RunJournalSource, RunJournalStatus, StoredRunState}
use swaw_kit.Runtime.History.{HistoryResult}

abbrev pub max_history_runs : ℕ
max_history_runs = 32

-- `RunJournalSummary`.
pub record RunJournalSummary : Type 0 where
  pub id : Text
  pub source : RunJournalSource
  pub state : RunJournalStatus
  pub started_at_unix_ms : ℕ
  pub event_count : ℕ
  pub finished_at_unix_ms : Option ℕ
  pub exit_code : Option ℕ
  pub error : Option Text
  pub argument_count : ℕ
  pub truncated : Bool

abbrev pub summary_of : StoredRunState → RunJournalSummary
summary_of s = record {
  id = s.id;
  source = s.source;
  state = s.status;
  started_at_unix_ms = s.started_at_unix_ms;
  event_count = s.event_count;
  finished_at_unix_ms = s.finished_at_unix_ms;
  exit_code = s.exit_code;
  error = s.error;
  argument_count = s.argument_count;
  truncated = s.truncated;
}

-- `bytes.get(index) == Some(&byte)`.
abbrev byte_is : ℕ → ℕ → Text → Bool
byte_is index byte [] = false
byte_is zero byte (c ∷ s) = c == byte
byte_is (suc index) byte (c ∷ s) = byte_is index byte s

unfoldable pub run_id_bytes : ℕ → Text → Bool
run_id_bytes index [] = true
run_id_bytes index (c ∷ s) =
    (index == 32 || index == 41 || (leb b'0' c && leb c b'9') || (leb b'a' c && leb c b'f'))
    && run_id_bytes (index + 1) s

unfoldable pub valid_run_id : Text → Bool
valid_run_id id = (length id == 58) && byte_is 32 b'-' id && byte_is 41 b'-' id && run_id_bytes 0 id

-- The later run first, and of runs of one time the greater id.
abbrev pub history_le : StoredRunState → StoredRunState → Bool
history_le left right =
    ltb right.started_at_unix_ms left.started_at_unix_ms
    || ((left.started_at_unix_ms == right.started_at_unix_ms) && text_le right.id left.id)

-- A round of the loop over the entries: one whose name is no run id is passed over.
abbrev pub onto_states :
    Bool
    → HistoryResult StoredRunState
    → HistoryResult (List StoredRunState)
    → HistoryResult (List StoredRunState)
onto_states false answer rest = rest
onto_states true answer rest = do s ← answer; ss ← rest; ok (s ∷ ss)

unfoldable pub collect_states :
    List (Text × HistoryResult StoredRunState) → HistoryResult (List StoredRunState)
collect_states [] = ok []
collect_states ((name, answer) ∷ entries) =
    onto_states (valid_run_id name) answer (collect_states entries)

-- `truncate`.
abbrev pub take_runs : ℕ → List StoredRunState → List StoredRunState
take_runs zero states = []
take_runs (suc n) [] = []
take_runs (suc n) (s ∷ states) = s ∷ take_runs n states

unfoldable pub read_run_history :
    List (Text × HistoryResult StoredRunState) → HistoryResult (List RunJournalSummary)
read_run_history entries = do
  states ← collect_states entries
  ok (map summary_of (take_runs max_history_runs (sort history_le states)))
