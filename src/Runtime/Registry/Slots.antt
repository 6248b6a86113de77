-- ===== src/Runtime/Registry/Slots.antt =====
-- The slots of the registry: the operations that are live never exceed those that are counted.
use swaw_kit.Prelude.{
  ℕ, ◌+◌, ◌-◌, ◌≤◌, ◌≡◌, refl, sym, ap, subst, inl, inr, Bool, true, false, not, Bool-cases, Option,
  none, some, List, [], ◌∷◌, ◌++◌, arith, leb, ◌==◌, any, length, length-append, keep, Text,
  text_eq, Result, ok, err,
}
use swaw_kit.Runtime.Journal.{Writer, FinishIo}
use swaw_kit.Runtime.Run.{CommandRun, ProcessOutcome, complete, fail_start, new_run}
use swaw_kit.Runtime.Run.Status.{complete-Ends, fail_start_status}
use swaw_kit.Runtime.Registry.{
  RegistryState, RegistryError, shutting_down, capacity, is_terminal_run, find_run, prune_terminal,
  reserve, insert_run, start, register, register_query, enter_query, remove_failed_start,
  remove_found, completed_run, completed_query, close,
}
use swaw_kit.Runtime.Registry.Left.{live_runs}
use swaw_kit.Runtime.Registry.Service.{
  Service, new_service, with_runs, ServiceStep, starts, works, completes, refuses, reports,
  withdraws, asks, answers, closes, ServiceReach, here, next,
}

abbrev live_count : List CommandRun → ℕ
live_count rs = length (live_runs rs)

-- Live runs, registered queries and slots owed are counted, and the count is at most four.
pub record IsServed (m : Service) : Type 0 where
  pub counted :
      length (live_runs m.registry.runs) + length m.registry.queries + m.owed ≤ m.registry.active
  pub bounded : m.registry.active ≤ 4

live_count-keep :
    (p : CommandRun → Bool) (rs : List CommandRun) → live_count (keep p rs) ≤ live_count rs
live_count-keep p [] = omega arith
live_count-keep p (r ∷ rs) = ground (arith, live_count-keep p rs)

live_count-append :
    (xs ys : List CommandRun) → live_count (xs ++ ys) ≡ live_count xs + live_count ys
live_count-append [] ys = omega arith
live_count-append (x ∷ xs) ys = ground (arith, live_count-append xs ys)

-- A registry that counts as many slots, with no more live runs and no more queries.
record Lighter (s t : RegistryState) : Type 0 where
  runs : live_count t.runs ≤ live_count s.runs
  queries : length t.queries ≤ length s.queries
  active : t.active ≡ s.active

prune_terminal-Lighter : (s : RegistryState) → Lighter s (prune_terminal s)
unfolding prune_terminal
prune_terminal-Lighter s = elim (Bool-cases (leb (length (keep is_terminal_run s.runs)) 32)) [
  | inl few ↦ simp few (record { runs = omega arith; queries = omega arith; active = refl })
  | inr many ↦
      simp many (record { runs = live_count-keep _ s.runs; queries = omega arith; active = refl })
]

live_count-insert :
    (run : CommandRun) (rs : List CommandRun) → live_count (insert_run run rs) ≤ live_count rs + 1
live_count-insert run rs = omega (
  arith,
  live_count-append (keep (λ r. not (text_eq r.id run.id)) rs) (run ∷ []),
  live_count-keep (λ r. not (text_eq r.id run.id)) rs,
  one,
)
  where
    one : live_count (run ∷ []) ≤ 1
    one = ground arith

queries-keep : (p : ℕ → Bool) (qs : List ℕ) → length (keep p qs) ≤ length qs
queries-keep p [] = omega arith
queries-keep p (q ∷ qs) = ground (arith, queries-keep p qs)

queries-remove :
    (id : ℕ) (qs : List ℕ)
    → any (λ q. q == id) qs ≡ true
    → length (keep (λ q. not (q == id)) qs) + 1 ≤ length qs
queries-remove id [] h = ground arith
queries-remove id (q ∷ qs) h =
    ground (arith, queries-remove id qs, queries-keep (λ q. not (q == id)) qs)

-- Both outcomes of `reserve`.
data Reserved (s : RegistryState) : Type 0 where
  taken : reserve s ≡ ok (record s { active = s.active + 1 }) → s.active + 1 ≤ 4 → Reserved s
  denied : (e : RegistryError) → reserve s ≡ err e → Reserved s

reserve-Reserved : (s : RegistryState) → Reserved s
unfolding reserve
reserve-Reserved s = elim (Bool-cases s.accepting) [
  | inr closed ↦ denied shutting_down (simp closed refl)
  | inl accepts ↦ elim (Bool-cases (leb 4 s.active)) [
    | inl full ↦ denied capacity (simp (accepts, full) refl)
    | inr free ↦ taken (simp (accepts, free) refl) (ground arith)
  ]
]

abbrev Served : RegistryState → ℕ → Type 0
Served s owed = (live_count s.runs + length s.queries + owed ≤ s.active) × (s.active ≤ 4)

start-Served :
    (journal : Result Text (Text × Writer)) (address : Text) (cancelable : Bool) (s : RegistryState)
    (owed : ℕ)
    → Served s owed
    → Served (start journal address cancelable s).0 owed
unfolding start register
start-Served journal address cancelable s owed (h, b) =
    let light = prune_terminal-Lighter s in
    elim (reserve-Reserved (prune_terminal s)) [
      | denied e refused ↦
          subst (λ r. Served (register journal address cancelable (prune_terminal s) r).0 owed)
            (sym refused)
            (
              omega (arith, h, light.runs, light.queries, light.active),
              omega (arith, b, light.active),
            )
      | taken done room ↦
          subst (λ r. Served (register journal address cancelable (prune_terminal s) r).0 owed)
            (sym done) (registered journal light room)
    ]
  where
    registered :
        (journal : Result Text (Text × Writer))
        → Lighter s (prune_terminal s)
        → (prune_terminal s).active + 1 ≤ 4
        → Served
            (register journal address cancelable
              (prune_terminal s)
              (ok (record (prune_terminal s) { active = (prune_terminal s).active + 1 }))).0
            owed
    registered (err e) light room =
        (omega (arith, h, light.runs, light.queries, light.active), omega (arith, room))
    registered (ok (id, writer)) light room = (
      omega (
        arith,
        h,
        light.runs,
        light.queries,
        light.active,
        live_count-insert (new_run id address writer cancelable) (prune_terminal s).runs,
      ),
      omega (arith, room),
    )

middle :
    (before behind : List CommandRun) (r : CommandRun)
    → live_count (before ++ r ∷ behind)
      ≡ live_count before + live_count (r ∷ []) + live_count behind
middle before behind r =
    omega (arith, live_count-append before (r ∷ behind), live_count-append (r ∷ []) behind)

swapped :
    (before behind : List CommandRun) (r s : CommandRun) (given : ℕ)
    → live_count (s ∷ []) + given ≤ live_count (r ∷ [])
    → live_count (before ++ s ∷ behind) + given ≤ live_count (before ++ r ∷ behind)
swapped before behind r s given h = omega (arith, h, middle before behind r, middle before behind s)

register_query-Served :
    (s : RegistryState) (owed : ℕ) → Served s owed → Served (register_query s).0 owed
unfolding register_query enter_query
register_query-Served s owed (h, b) = elim (reserve-Reserved s) [
  | denied e refused ↦ subst (λ r. Served (enter_query s r).0 owed) (sym refused) (h, b)
  | taken done room ↦
      subst (λ r. Served (enter_query s r).0 owed) (sym done)
        (
          omega (
            arith,
            h,
            queries-keep (λ q. not (q == s.next_query_id)) s.queries,
            length-append {0} (keep (λ q. not (q == s.next_query_id)) s.queries)
                (s.next_query_id ∷ []),
          ),
          room,
        )
]

completed_query-Served :
    (id : ℕ) (s : RegistryState) (owed : ℕ) → Served s owed → Served (completed_query id s) owed
unfolding completed_query
completed_query-Served id s owed (h, b) = elim (Bool-cases (any (λ q. q == id) s.queries)) [
  | inl there ↦ simp there (omega (arith, h, queries-remove id s.queries there), omega (arith, b))
  | inr gone ↦ simp gone (h, b)
]

remove_found-Served :
    (id : Text) (s : RegistryState) (owed : ℕ) (found : Option CommandRun)
    → Served s (owed + 1)
    → Served (remove_found id s found) owed
unfolding remove_found
remove_found-Served id s owed none (h, b) = (omega (arith, h), b)
remove_found-Served id s owed (some run) (h, b) =
    (omega (arith, h, live_count-keep (λ r. not (text_eq r.id id)) s.runs), omega (arith, b))

completed_run-Served :
    (s : RegistryState) (owed : ℕ) → Served s (owed + 1) → Served (completed_run s) owed
unfolding completed_run
completed_run-Served s owed (h, b) =
    let light = prune_terminal-Lighter (record s { active = s.active - 1 }) in
    (omega (arith, h, light.runs, light.queries, light.active), omega (arith, b, light.active))

complete-ends :
    (io : FinishIo) (outcome : ProcessOutcome) (r : CommandRun)
    → (complete io outcome r).1 ≡ true
    → live_count ((complete io outcome r).0 ∷ []) + 1 ≤ live_count (r ∷ [])
complete-ends io outcome r h =
    let (_, ended, told) = complete-Ends io outcome r in ground (arith, ended, told)

fail_start-ends :
    (io : FinishIo) (message : Text) (r : CommandRun)
    → is_terminal_run r ≡ false
    → live_count (fail_start io message r ∷ []) + 1 ≤ live_count (r ∷ [])
fail_start-ends io message r live = ground (arith, (fail_start_status io message r).0 live)

exchanged :
    (m : Service) (before behind : List CommandRun) (r s : CommandRun) (given : ℕ)
    → m.registry.runs ≡ before ++ r ∷ behind
    → live_count (s ∷ []) + given ≤ live_count (r ∷ [])
    → IsServed m
    → IsServed (with_runs m (before ++ s ∷ behind) (m.owed + given))
exchanged m before behind r s given e fewer h =
    let size : live_count m.registry.runs ≡ live_count (before ++ r ∷ behind) = ap live_count e in
    record {
      counted = omega (arith, h.counted, size, swapped before behind r s given fewer);
      bounded = h.bounded;
    }

served : {m : Service} → Served m.registry m.owed → IsServed m
served (h, b) = record { counted = h; bounded = b }

paid : {m : Service} (left : ℕ) → m.owed ≡ left + 1 → IsServed m → Served m.registry (left + 1)
paid left e h = (omega (arith, e, h.counted), h.bounded)

ServiceStep-IsServed : {m v : Service} → ServiceStep m v → IsServed m → IsServed v
unfolding remove_failed_start close
ServiceStep-IsServed {m} (starts journal address cancelable) h =
    served (start-Served journal address cancelable m.registry m.owed (h.counted, h.bounded))
ServiceStep-IsServed {m} (works before behind {r} {s} e step same) h =
    let kept = exchanged m before behind r s 0 e (ground (arith, same)) h in
    record { counted = omega (arith, kept.counted); bounded = kept.bounded }
ServiceStep-IsServed {m} (completes before behind r io outcome e done) h =
    exchanged m before behind r _ 1 e (complete-ends io outcome r done) h
ServiceStep-IsServed {m} (refuses before behind r io message e live) h =
    exchanged m before behind r _ 1 e (fail_start-ends io message r live) h
ServiceStep-IsServed {m} (reports left e) h =
    served (completed_run-Served m.registry left (paid left e h))
ServiceStep-IsServed {m} (withdraws left id e) h =
    served (remove_found-Served id m.registry left (find_run id m.registry.runs) (paid left e h))
ServiceStep-IsServed {m} asks h =
    served (register_query-Served m.registry m.owed (h.counted, h.bounded))
ServiceStep-IsServed {m} (answers id) h =
    served (completed_query-Served id m.registry m.owed (h.counted, h.bounded))
ServiceStep-IsServed {m} closes h = record { counted = h.counted; bounded = h.bounded }

-- From the start of the service on, and however its threads interleave, the live runs, the
-- registered queries and the slots owed are together at most the active count, which is at most 4,
-- if the runner reports no completion of a run whose start it refuses.
pub IsServed-of_ServiceReach : {m : Service} → ServiceReach new_service m → IsServed m
IsServed-of_ServiceReach here = record { counted = omega arith; bounded = omega arith }
IsServed-of_ServiceReach (next r s) = ServiceStep-IsServed s (IsServed-of_ServiceReach r)
