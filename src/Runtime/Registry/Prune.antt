-- ===== src/Runtime/Registry/Prune.antt =====
-- Pruning: which terminal runs the registry forgets.
use swaw_kit.Prelude.{
  ◌≤◌, ◌≡◌, ◌≢◌, refl, sym, ap, subst, ◌∙◌, inl, inr, false, not, Bool-cases, List, [], ◌++◌, arith,
  leb, keep, Text, one_of,
}
use swaw_kit.Runtime.Run.{CommandRun}
use swaw_kit.Runtime.Registry.{RegistryState, terminal_count, pruned, prune_terminal}
use swaw_kit.Runtime.Registry.Left.{
  Distinct, ids, victims, without, live_runs, terminal_runs, Distinct-Agrees, pruned-victims,
  without-victims, ids-without, live_runs-left, terminal_runs-left, count-left,
}

-- The order lists the ids of the runs, each once.
pub record IsListed (s : RegistryState) : Type 0 where
  pub distinct : Distinct s.runs
  pub listed : s.order ≡ ids s.runs

-- What pruning does: no live run goes, the oldest terminal runs go, no more of them than needed,
-- and the order still lists the runs.
pub record IsPruned (s t : RegistryState) : Type 0 where
  pub bounded : terminal_count t.runs ≤ 32
  pub live : live_runs t.runs ≡ live_runs s.runs
  pub gone : List CommandRun
  pub oldest : terminal_runs s.runs ≡ gone ++ terminal_runs t.runs
  pub needed : gone ≢ [] → terminal_count t.runs ≡ 32
  pub listed : t.order ≡ ids t.runs
  pub slots : t.active ≡ s.active

abbrev removed : RegistryState → List Text
removed s = victims (terminal_count s.runs) s.runs

abbrev sweep : RegistryState → RegistryState
sweep s = record s {
  runs = without (removed s) s.runs;
  order = keep (λ (id : Text). not (one_of (removed s) id)) s.order;
}

prune_terminal-sweep :
    (s : RegistryState)
    → IsListed s
    → leb (terminal_count s.runs) 32 ≡ false
    → prune_terminal s ≡ sweep s
unfolding prune_terminal
prune_terminal-sweep s h many =
    let same : pruned s.runs (terminal_count s.runs) s.order ≡ removed s =
      ap (pruned s.runs (terminal_count s.runs)) h.listed
      ∙ pruned-victims s.runs (terminal_count s.runs) s.runs (Distinct-Agrees s.runs h.distinct) in
    simp (many, same) refl

sweep-IsPruned :
    (s : RegistryState) → IsListed s → leb (terminal_count s.runs) 32 ≡ false → IsPruned s (sweep s)
sweep-IsPruned s h many =
    let runs = without-victims (terminal_count s.runs) s.runs h.distinct in
    let suffix = terminal_runs-left (terminal_count s.runs) s.runs in
    let count =
      ap terminal_count runs ∙ count-left (terminal_count s.runs) s.runs refl (ground arith) in
    record {
      bounded = omega (arith, count);
      live = ap live_runs runs ∙ live_runs-left (terminal_count s.runs) s.runs;
      gone = suffix.gone;
      oldest =
          suffix.parts ∙ ap (λ (l : List CommandRun). suffix.gone ++ terminal_runs l) (sym runs);
      needed = λ _. count;
      listed =
          ap (keep (λ (id : Text). not (one_of (removed s) id))) h.listed
          ∙ ids-without (removed s) s.runs;
      slots = refl;
    }

-- Pruning a registry whose order lists its runs keeps every live run and at most 32 terminal runs;
-- those that go are the oldest, and none goes while there are at most 32.
pub prune_terminal-IsPruned : (s : RegistryState) → IsListed s → IsPruned s (prune_terminal s)
prune_terminal-IsPruned s h = elim (Bool-cases (leb (terminal_count s.runs) 32)) [
  | inl few ↦
      let same : prune_terminal s ≡ s = unfold prune_terminal in simp few refl in
      subst (IsPruned s) (sym same) (record {
        bounded = ground arith;
        live = refl;
        gone = [];
        oldest = refl;
        needed = λ some. absurd (some refl);
        listed = h.listed;
        slots = refl;
      })
  | inr many ↦ subst (IsPruned s) (sym (prune_terminal-sweep s h many)) (sweep-IsPruned s h many)
]
