-- ===== src/Runtime/Registry.antt =====
-- The registry of the runs and queries (_lib/proj/_app/src/runtime_service/registry.rs).
--
-- Each function is one section under the registry's lock, which is never poisoned. The map of the
-- runs is an association list in the order of insertion, that of the queries one of their ids. The
-- journal that `RunJournal::start` gives comes as an argument.
pub mod Left
pub mod Prune
pub mod Service
pub mod Slots
use swaw_kit.Prelude.{
  ℕ, ◌+◌, ◌-◌, ◌%◌, ◌^◌, Bool, true, false, not, Option, none, some, List, [], ◌∷◌, ◌++◌, leb, ◌==◌,
  length, any, find, keep, map, if◌then◌else◌, Text, text_eq, one_of, Result, ok, err, is_ok,
}
use swaw_kit.Runtime.Journal.{Writer}
use swaw_kit.Runtime.Run.{CommandRun, is_terminal, new_run}

abbrev pub max_active_operations : ℕ
max_active_operations = 4

abbrev pub max_terminal_runs : ℕ
max_terminal_runs = 32

pub record RegistryState : Type 0 where
  pub accepting : Bool
  pub active : ℕ
  pub next_query_id : ℕ
  pub order : List Text
  pub runs : List CommandRun
  pub queries : List ℕ

-- `RegistryState::default`.
abbrev pub default_registry : RegistryState
default_registry = record {
  accepting = true;
  active = 0;
  next_query_id = 0;
  order = [];
  runs = [];
  queries = [];
}

-- The errors of `RuntimeServiceError` that the registry returns.
pub data RegistryError : Type 0 where
  shutting_down : RegistryError
  capacity : RegistryError
  run_not_found : RegistryError
  journal_refused : Text → RegistryError

abbrev pub is_terminal_run : CommandRun → Bool
is_terminal_run run = is_terminal run.state.status

unfoldable pub find_run : Text → List CommandRun → Option CommandRun
find_run id runs = find (λ run. text_eq run.id id) runs

-- `state.runs.get(id).is_some_and(|run| run.is_terminal())`.
abbrev pub is_terminal_found : Option CommandRun → Bool
is_terminal_found none = false
is_terminal_found (some run) = is_terminal_run run

abbrev pub is_terminal_id : List CommandRun → Text → Bool
is_terminal_id runs id = is_terminal_found (find_run id runs)

-- The loop of `prune_terminal` over the order: the oldest terminal runs, while there are too many.
unfoldable pub pruned : List CommandRun → ℕ → List Text → List Text
pruned runs terminal [] = []
pruned runs terminal (id ∷ ids) =
    let hit = is_terminal_id runs id in
    let rest = pruned runs (if hit then terminal - 1 else terminal) ids in
    if leb terminal max_terminal_runs then [] else if hit then id ∷ rest else rest

-- The number of terminal runs. The code reads the status of each run under that run's own lock; here
-- all of them are read at one moment, that of the call of `prune_terminal`.
abbrev pub terminal_count : List CommandRun → ℕ
terminal_count runs = length (keep is_terminal_run runs)

unfoldable pub prune_terminal : RegistryState → RegistryState
unfolding pruned
prune_terminal s =
    if leb (terminal_count s.runs) max_terminal_runs
    then s
    else (let removed = pruned s.runs (terminal_count s.runs) s.order in
        record s {
          runs = keep (λ run. not (one_of removed run.id)) s.runs;
          order = keep (λ id. not (one_of removed id)) s.order;
        })

-- `RegistryState::reserve`.
unfoldable pub reserve : RegistryState → Result RegistryError RegistryState
reserve s =
    if not s.accepting
    then err shutting_down
    else (if leb max_active_operations s.active
        then err capacity
        else ok (record s { active = s.active + 1 }))

-- `HashMap::insert` of a run.
abbrev pub insert_run : CommandRun → List CommandRun → List CommandRun
insert_run run runs = keep (λ r. not (text_eq r.id run.id)) runs ++ run ∷ []

-- The part of `start` behind `reserve`: the run is registered, or the slot is given back.
unfoldable pub register :
    Result Text (Text × Writer)
    → Text
    → Bool
    → RegistryState
    → Result RegistryError RegistryState
    → RegistryState × Result RegistryError CommandRun
register journal address cancelable s (err error) = (s, err error)
register (err error) address cancelable s (ok reserved) =
    (record reserved { active = reserved.active - 1 }, err (journal_refused error))
register (ok (id, writer)) address cancelable s (ok reserved) =
    let run = new_run id address writer cancelable in
    (
      record reserved { order = reserved.order ++ id ∷ []; runs = insert_run run reserved.runs },
      ok run,
    )

-- The section of `start` under the lock.
unfoldable pub start :
    Result Text (Text × Writer)
    → Text
    → Bool
    → RegistryState
    → RegistryState × Result RegistryError CommandRun
start journal address cancelable s =
    register journal address cancelable (prune_terminal s) (reserve (prune_terminal s))

-- `RegistryInner::run`.
unfoldable pub get_run : Text → RegistryState → Result RegistryError CommandRun
get_run id s = elim (find_run id s.runs) [ none ↦ err run_not_found | some run ↦ ok run ]

-- `HashMap::insert` of a query id.
abbrev pub insert_query : ℕ → List ℕ → List ℕ
insert_query id queries = keep (λ q. not (q == id)) queries ++ id ∷ []

-- The part of `register_query` behind `reserve`; query ids are `u64`.
unfoldable pub enter_query :
    RegistryState → Result RegistryError RegistryState → RegistryState × Result RegistryError ℕ
enter_query s (err error) = (s, err error)
enter_query s (ok reserved) = (
  record reserved {
    next_query_id = (reserved.next_query_id + 1) % 2 ^ 64;
    queries = insert_query reserved.next_query_id reserved.queries;
  },
  ok reserved.next_query_id,
)

-- `RegistryInner::register_query`.
unfoldable pub register_query : RegistryState → RegistryState × Result RegistryError ℕ
register_query s = enter_query s (reserve s)

-- The body of `remove_failed_start`, by what `runs.remove` finds.
unfoldable pub remove_found : Text → RegistryState → Option CommandRun → RegistryState
remove_found id s none = s
remove_found id s (some _) = record s {
  runs = keep (λ run. not (text_eq run.id id)) s.runs;
  order = keep (λ other. not (text_eq other id)) s.order;
  active = s.active - 1;
}

-- `RegistryInner::remove_failed_start`.
unfoldable pub remove_failed_start : Text → RegistryState → RegistryState
remove_failed_start id s = remove_found id s (find_run id s.runs)

-- `RegistryInner::completed_run`.
unfoldable pub completed_run : RegistryState → RegistryState
completed_run s = prune_terminal (record s { active = s.active - 1 })

-- `RegistryInner::completed_query`.
unfoldable pub completed_query : ℕ → RegistryState → RegistryState
completed_query id s =
    if any (λ q. q == id) s.queries
    then record s { queries = keep (λ q. not (q == id)) s.queries; active = s.active - 1 }
    else s

-- The section of `shutdown`: the runs and the queries that it then cancels and joins.
unfoldable pub close : RegistryState → RegistryState × List CommandRun × List ℕ
close s = (record s { accepting = false }, s.runs, s.queries)
