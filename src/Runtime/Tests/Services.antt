-- ===== src/Runtime/Tests/Services.antt =====
-- A registry with a run that starts, ends and gives its slot back, and a query.
use swaw_kit.Prelude.{◌≡◌, refl, true, false, ok, [], ◌∷◌, ascii, text_eq}
use swaw_kit.Runtime.Journal.{
  Writer, FinishIo, cli, new_writer, new_running_state, finish_exited, finish, finish_with,
  completed_state,
}
use swaw_kit.Runtime.Run.{
  CommandRun, new_run, process_exited, complete, complete_running, complete_exited,
}
use swaw_kit.Runtime.Registry.{
  RegistryState, default_registry, start, register, reserve, pruned, prune_terminal, completed_run,
}
use swaw_kit.Runtime.Registry.Prune.{IsListed, IsPruned, prune_terminal-IsPruned}
use swaw_kit.Runtime.Registry.Service.{
  Service, new_service, with_runs, ServiceReach, here, next, starts, completes, reports,
}
use swaw_kit.Runtime.Registry.Slots.{IsServed, IsServed-of_ServiceReach}

abbrev journal : Writer
journal = new_writer (ascii "r1") (ascii "/:dev") cli 5 0

abbrev run : CommandRun
run = new_run (ascii "r1") (ascii "/:dev") journal true

abbrev calm : FinishIo
calm = record { sync = ok tt; clock = ok 9; publish = ok tt }

abbrev started : Service
started = record new_service {
  registry = (start (ok (ascii "r1", journal)) (ascii "/:dev") true default_registry).0;
}

started_runs : started.registry.runs ≡ run ∷ []
unfolding start register reserve prune_terminal pruned new_run
started_runs = refl

abbrev ended : CommandRun
ended = (complete calm (process_exited 0) run).0

ended_now : (complete calm (process_exited 0) run).1 ≡ true
unfolding complete complete_running complete_exited finish_exited finish finish_with completed_state
    new_run new_writer new_running_state
ended_now = refl

abbrev to_ended : ServiceReach new_service (with_runs started (ended ∷ []) 1)
to_ended =
    next (next here (starts (ok (ascii "r1", journal)) (ascii "/:dev") true))
      (completes [] [] run calm (process_exited 0) started_runs ended_now)

IsServed-of_ServiceReach_example :
    IsServed
      (record { registry = completed_run (with_runs started (ended ∷ []) 1).registry; owed = 0 })
IsServed-of_ServiceReach_example = IsServed-of_ServiceReach (next to_ended (reports 0 refl))

abbrev two_runs : RegistryState
two_runs = record default_registry {
  order = ascii "a" ∷ ascii "b" ∷ [];
  runs =
      new_run (ascii "a") (ascii "/:dev") journal true
      ∷ new_run (ascii "b") (ascii "/:dev") journal false
      ∷ [];
}

two_runs-IsListed : IsListed two_runs
unfolding new_run text_eq
two_runs-IsListed = record { distinct = ((refl, tt), (tt, tt)); listed = refl }

prune_terminal-IsPruned_example : IsPruned two_runs (prune_terminal two_runs)
prune_terminal-IsPruned_example = prune_terminal-IsPruned two_runs two_runs-IsListed
