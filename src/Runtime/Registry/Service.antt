-- ===== src/Runtime/Registry/Service.antt =====
-- The registry among its threads: its sections and the steps of its runs in any order.
use swaw_kit.Prelude.{ℕ, ◌+◌, ◌≡◌, Bool, true, false, List, ◌∷◌, ◌++◌, Text, Result}
use swaw_kit.Runtime.Journal.{Writer, FinishIo}
use swaw_kit.Runtime.Run.{CommandRun, ProcessOutcome, complete, fail_start}
use swaw_kit.Runtime.Run.Polling.{RunStep}
use swaw_kit.Runtime.Registry.{
  RegistryState, default_registry, is_terminal_run, start, register_query, remove_failed_start,
  completed_run, completed_query, close,
}

-- The registry among its threads. `owed` counts the runs that have ended and whose slot has not
-- been given back yet: a thread is between `CommandRun::complete` and `completed_run`, or between
-- `CommandRun::fail_start` and `remove_failed_start`.
pub record Service : Type 0 where
  pub registry : RegistryState
  pub owed : ℕ

abbrev pub new_service : Service
new_service = record { registry = default_registry; owed = 0 }

abbrev pub with_runs : Service → List CommandRun → ℕ → Service
with_runs m runs owed = record { registry = record m.registry { runs = runs }; owed = owed }

-- The runner reports no completion of a run whose start it refuses: `refuses` is on a live run.
pub data ServiceStep (m : Service) : Service → Type 0 where
  starts :
      (journal : Result Text (Text × Writer)) (address : Text) (cancelable : Bool)
      → ServiceStep m (record m { registry = (start journal address cancelable m.registry).0 })
  works :
      (before behind : List CommandRun) {r s : CommandRun}
      → m.registry.runs ≡ before ++ r ∷ behind
      → RunStep r s
      → is_terminal_run s ≡ is_terminal_run r
      → ServiceStep m (with_runs m (before ++ s ∷ behind) m.owed)
  completes :
      (before behind : List CommandRun) (r : CommandRun) (io : FinishIo) (outcome : ProcessOutcome)
      → m.registry.runs ≡ before ++ r ∷ behind
      → (complete io outcome r).1 ≡ true
      → ServiceStep m (with_runs m (before ++ (complete io outcome r).0 ∷ behind) (m.owed + 1))
  refuses :
      (before behind : List CommandRun) (r : CommandRun) (io : FinishIo) (message : Text)
      → m.registry.runs ≡ before ++ r ∷ behind
      → is_terminal_run r ≡ false
      → ServiceStep m (with_runs m (before ++ fail_start io message r ∷ behind) (m.owed + 1))
  reports :
      (left : ℕ)
      → m.owed ≡ left + 1
      → ServiceStep m (record { registry = completed_run m.registry; owed = left })
  withdraws :
      (left : ℕ) (id : Text)
      → m.owed ≡ left + 1
      → ServiceStep m (record { registry = remove_failed_start id m.registry; owed = left })
  asks : ServiceStep m (record m { registry = (register_query m.registry).0 })
  answers : (id : ℕ) → ServiceStep m (record m { registry = completed_query id m.registry })
  closes : ServiceStep m (record m { registry = (close m.registry).0 })

pub data ServiceReach (m : Service) : Service → Type 0 where
  here : ServiceReach m m
  next : {u v : Service} → ServiceReach m u → ServiceStep u v → ServiceReach m v
