-- ===== src/Runtime/Query.antt =====
-- A facet query: the observer that collects its output, and the conclusion of `run_query_with`
-- (_lib/proj/_app/src/runtime_service/registry/query.rs).
--
-- Each observer function is the body of a method under the mutex of the query, which is never
-- poisoned. The sum of the byte counts is exact: a sum that overflows is over every limit.
pub mod Outcome
use swaw_kit.Prelude.{
  ℕ, ◌+◌, ◌*◌, Bool, true, false, Option, none, some, List, [], ◌∷◌, ◌++◌, ltb, length, is_empty,
  if◌then◌else◌, Text, ascii, Result, ok, err,
}
use swaw_kit.Runtime.Journal.{RunJournalStream, stdout, stderr}
use swaw_kit.Runtime.Run.{ProcessOutcome, process_exited, process_failed}

abbrev pub max_query_output_bytes : ℕ
max_query_output_bytes = 1024 * 1024

pub record QueryState : Type 0 where
  pub stdout_text : Text
  pub stderr_text : Text
  pub output_bytes : ℕ
  pub limit : ℕ
  pub outcome : Option ProcessOutcome
  pub rejection : Option Text

pub data QueryWait : Type 0 where
  completed : QueryWait
  rejected : Text → QueryWait
  timed_out : QueryWait

-- The observer of a new query behind `set_max_output_bytes`.
abbrev pub new_query : ℕ → QueryState
new_query limit = record {
  stdout_text = [];
  stderr_text = [];
  output_bytes = 0;
  limit = limit;
  outcome = none;
  rejection = none;
}

-- `QueryObserver::reject`: the first rejection stays, and none comes behind the outcome.
unfoldable pub reject : Text → QueryState → QueryState
reject error s = elim s.rejection [
  | some _ ↦ s
  | none ↦ elim s.outcome [ some _ ↦ s | none ↦ record s { rejection = some error } ]
]

abbrev pub push : RunJournalStream → Text → QueryState → QueryState
push stdout text s = record s {
  output_bytes = s.output_bytes + length text;
  stdout_text = s.stdout_text ++ text;
}
push stderr text s = record s {
  output_bytes = s.output_bytes + length text;
  stderr_text = s.stderr_text ++ text;
}

abbrev is_rejected : QueryState → Bool
is_rejected s = elim s.rejection [ none ↦ false | some _ ↦ true ]

-- Behind an accepted output: only `stdout` may be written to.
abbrev pub accept : RunJournalStream → Text → QueryState → QueryState
accept stdout text s = push stdout text s
accept stderr text s = reject (ascii "facet query wrote to stderr") (push stderr text s)

-- `QueryObserver::output`.
unfoldable pub observe_output : RunJournalStream → Text → QueryState → QueryState
observe_output stream text s =
    if is_empty text
    then s
    else (if is_rejected s
        then reject (ascii "facet query output exceeded the byte limit") s
        else (if ltb s.limit (s.output_bytes + length text)
            then reject (ascii "facet query output exceeded the byte limit") s
            else accept stream text s))

-- `QueryObserver::progress`.
unfoldable pub observe_progress : QueryState → QueryState
observe_progress s = reject (ascii "facet query emitted a progress event") s

-- `QueryObserver::completed`: the first outcome stays.
unfoldable pub observe_completed : ProcessOutcome → QueryState → QueryState
observe_completed outcome s = elim s.outcome [
  | some _ ↦ s
  | none ↦ record s { outcome = some outcome }
]

-- The answer of `QueryObserver::wait` on the state that ends the wait, or that the timeout finds.
unfoldable pub wait_answer : Bool → QueryState → QueryWait
wait_answer late s = elim s.rejection [
  | some error ↦ rejected error
  | none ↦ elim s.outcome [
    | some _ ↦ completed
    | none ↦
        if late then timed_out else rejected (ascii "facet query wait ended without an outcome")
  ]
]

-- `RuntimeQueryOutput`.
pub record RuntimeQueryOutput : Type 0 where
  pub text : Text
  pub exit_code : ℕ

-- The outcome of a completed query.
unfoldable pub query_output : QueryState → Result Text RuntimeQueryOutput
query_output s = elim s.outcome [
  | none ↦ err (ascii "facet query completed without an outcome")
  | some outcome ↦ elim outcome [
    | process_failed error ↦ err (ascii "facet query failed: " ++ error)
    | process_exited exit_code ↦
        if is_empty s.stderr_text
        then ok (record { text = s.stdout_text; exit_code = exit_code })
        else err (ascii "facet query wrote to stderr")
  ]
]

-- The end of `run_query_with`: the answer of the wait, that of the join, and the state behind both.
unfoldable pub query_result :
    QueryWait → Result Text (Unit {0}) → QueryState → Result Text RuntimeQueryOutput
query_result wait join s = elim join [
  | err error ↦ err (ascii "cannot join the facet query: " ++ error)
  | ok _ ↦ elim wait [
    | timed_out ↦ err (ascii "facet query timed out")
    | rejected error ↦ err error
    | completed ↦ query_output s
  ]
]

-- Whether `run_query_with` cancels the control before it joins it.
unfoldable pub cancels : Bool → QueryWait → Bool
cancels cancelable completed = false
cancels cancelable (rejected _) = cancelable
cancels cancelable timed_out = cancelable

-- The part of `begin_shutdown_cancel` that concerns the observer.
unfoldable pub shut_down : Bool → QueryState → QueryState
shut_down cancelable s =
    if cancelable
    then reject (ascii "facet query canceled because the runtime service is shutting down") s
    else s
