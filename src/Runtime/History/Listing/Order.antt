-- ===== src/Runtime/History/Listing/Order.antt =====
-- The history does not depend on the order in which the directory lists its entries.
use swaw_kit.Prelude.{
  ◌≡◌, ◌≢◌, refl, sym, ap, subst, ◌∙◌, Bool, true, false, List, [], ◌∷◌, map, arith, All, Text,
  text_le-IsOrder, text_le_antisymm, IsOrder, Shuffle, same, keep_head, swap_heads, twice, Apart,
  Distinct, sort-Shuffle, ok, err, >>=-eq-ok,
}
use swaw_kit.Runtime.Journal.{StoredRunState}
use swaw_kit.Runtime.History.{HistoryResult}
use swaw_kit.Runtime.History.Listing.{
  RunJournalSummary, summary_of, valid_run_id, history_le, onto_states, collect_states, take_runs,
  max_history_runs, read_run_history,
}

abbrev pub Entry : Type 0
Entry = Text × HistoryResult StoredRunState

-- The state that is read for an entry has the entry's name.
abbrev pub IsNamed : Entry → Type 0
IsNamed (name, answer) = (s : StoredRunState) → answer ≡ ok s → s.id ≡ name

-- No two entries have one name.
abbrev pub HasNames : List Entry → Type 0
HasNames [] = Unit
HasNames (e ∷ es) = All (λ (f : Entry). e.0 ≢ f.0) es × HasNames es

history_le-IsOrder : IsOrder history_le
history_le-IsOrder = record {
  total = λ a b h. ground (arith, text_le-IsOrder.total b.id a.id);
  trans = λ a b c h k. ground (arith, text_le-IsOrder.trans c.id b.id a.id);
}

history_le-Apart : (x y : StoredRunState) → x.id ≢ y.id → Apart history_le x y
history_le-Apart x y other = ground (arith, text_le_antisymm x.id y.id)

-- The states of a rearranged directory.
abbrev Rearranged : List StoredRunState → HistoryResult (List StoredRunState) → Type 0
Rearranged ss answer = (ts : List StoredRunState) × (answer ≡ ok ts) × Shuffle ss ts

onto_states-keep :
    (v : Bool) (answer : HistoryResult StoredRunState)
    (rest other : HistoryResult (List StoredRunState)) (ss : List StoredRunState)
    → ((rs : List StoredRunState) → rest ≡ ok rs → Rearranged rs other)
    → onto_states v answer rest ≡ ok ss
    → Rearranged ss (onto_states v answer other)
onto_states-keep false answer rest other ss again h = again ss h
onto_states-keep true (err e) rest other ss again h = absurd (ground arith)
onto_states-keep true (ok s) (err e) other ss again h = absurd (ground arith)
onto_states-keep true (ok s) (ok rs) other ss again h =
    let (ts, done, moved) = again rs refl in
    (
      s ∷ ts,
      ap (onto_states true (ok s)) done,
      subst (λ l. Shuffle l (s ∷ ts)) (ground arith) (keep_head s moved),
    )

onto_states-swap :
    (v w : Bool) (a b : HistoryResult StoredRunState) (rest : HistoryResult (List StoredRunState))
    (ss : List StoredRunState)
    → onto_states v a (onto_states w b rest) ≡ ok ss
    → Rearranged ss (onto_states w b (onto_states v a rest))
onto_states-swap false w a b rest ss h = (ss, h, same)
onto_states-swap true false a b rest ss h = (ss, h, same)
onto_states-swap true true (err e) b rest ss h = absurd (ground arith)
onto_states-swap true true (ok s) (err e) rest ss h = absurd (ground arith)
onto_states-swap true true (ok s) (ok t) (err e) ss h = absurd (ground arith)
onto_states-swap true true (ok s) (ok t) (ok rs) ss h =
    (t ∷ s ∷ rs, refl, subst (λ l. Shuffle l (t ∷ s ∷ rs)) (ground arith) (swap_heads s t rs))

collect_states-Shuffle :
    {es fs : List Entry}
    → Shuffle es fs
    → (ss : List StoredRunState) → collect_states es ≡ ok ss
    → Rearranged ss (collect_states fs)
unfolding collect_states
collect_states-Shuffle same ss h = (ss, h, same)
collect_states-Shuffle (keep_head (name, answer) {xs = es} {ys = fs} moved) ss h =
    onto_states-keep (valid_run_id name) answer (collect_states es) (collect_states fs) ss
      (collect_states-Shuffle moved) h
collect_states-Shuffle (swap_heads (name, answer) (other, reply) es) ss h =
    onto_states-swap (valid_run_id name) (valid_run_id other) answer reply (collect_states es) ss h
collect_states-Shuffle (twice moved again) ss h =
    let (ts, done, first) = collect_states-Shuffle moved ss h in
    let (us, last, second) = collect_states-Shuffle again ts done in (us, last, twice first second)

-- The states that a round adds to.
onto_states-All :
    (P : StoredRunState → Type 0) (v : Bool) (answer : HistoryResult StoredRunState)
    (rest : HistoryResult (List StoredRunState)) (ss : List StoredRunState)
    → ((s : StoredRunState) → answer ≡ ok s → P s)
    → ((rs : List StoredRunState) → rest ≡ ok rs → All P rs)
    → onto_states v answer rest ≡ ok ss
    → All P ss
onto_states-All P false answer rest ss here later h = later ss h
onto_states-All P true (err e) rest ss here later h = absurd (ground arith)
onto_states-All P true (ok s) (err e) ss here later h = absurd (ground arith)
onto_states-All P true (ok s) (ok rs) ss here later h =
    let parts : (s ∷ rs) ≡ ss = ground arith in subst (All P) parts (here s refl, later rs refl)

collect_states-apart :
    (x : StoredRunState) (es : List Entry) (ss : List StoredRunState)
    → All IsNamed es
    → All (λ (f : Entry). x.id ≢ f.0) es
    → collect_states es ≡ ok ss
    → All (λ (y : StoredRunState). Apart history_le x y) ss
unfolding collect_states
collect_states-apart x [] ss n a h =
    let nothing : [] ≡ ss = ground arith in
    subst (All (λ (y : StoredRunState). Apart history_le x y)) nothing tt
collect_states-apart x ((name, answer) ∷ es) ss (n, ns) (a, others) h =
    onto_states-All (λ (y : StoredRunState). Apart history_le x y) (valid_run_id name) answer
      (collect_states es) ss (λ s read. history_le-Apart x s (λ e. a (e ∙ n s read)))
      (λ rs read. collect_states-apart x es rs ns others read) h

onto_states-Distinct :
    (v : Bool) (answer : HistoryResult StoredRunState) (rest : HistoryResult (List StoredRunState))
    (ss : List StoredRunState)
    → ((s : StoredRunState) (rs : List StoredRunState)
        → answer ≡ ok s
        → rest ≡ ok rs
        → All (λ (y : StoredRunState). Apart history_le s y) rs)
    → ((rs : List StoredRunState) → rest ≡ ok rs → Distinct history_le rs)
    → onto_states v answer rest ≡ ok ss
    → Distinct history_le ss
onto_states-Distinct false answer rest ss here later h = later ss h
onto_states-Distinct true (err e) rest ss here later h = absurd (ground arith)
onto_states-Distinct true (ok s) (err e) ss here later h = absurd (ground arith)
onto_states-Distinct true (ok s) (ok rs) ss here later h =
    let parts : (s ∷ rs) ≡ ss = ground arith in
    subst (Distinct history_le) parts (here s rs refl refl, later rs refl)

collect_states-Distinct :
    (es : List Entry) (ss : List StoredRunState)
    → All IsNamed es
    → HasNames es
    → collect_states es ≡ ok ss
    → Distinct history_le ss
unfolding collect_states
collect_states-Distinct [] ss n d h =
    let nothing : [] ≡ ss = ground arith in subst (Distinct history_le) nothing tt
collect_states-Distinct ((name, answer) ∷ es) ss (n, ns) (d, ds) h =
    onto_states-Distinct (valid_run_id name) answer (collect_states es) ss
      (λ s rs read more.
        collect_states-apart s es rs ns
          (subst (λ k. All (λ (f : Entry). k ≢ f.0) es) (sym (n s read)) d) more)
      (λ rs more. collect_states-Distinct es rs ns ds more) h

-- The history that is read does not depend on the order in which the directory lists the runs, when
-- their names differ and each state has the name of its directory.
pub read_run_history-reordered :
    {es fs : List Entry} (summaries : List RunJournalSummary)
    → Shuffle es fs
    → All IsNamed es
    → HasNames es
    → read_run_history es ≡ ok summaries
    → read_run_history fs ≡ ok summaries
unfolding read_run_history
read_run_history-reordered {es} summaries moved n d h =
    let (ss, read, made) = >>=-eq-ok (collect_states es) _ h in
    let (ts, done, order) = collect_states-Shuffle moved ss read in
    let sorted =
      sort-Shuffle history_le history_le-IsOrder order (collect_states-Distinct es ss n d read) in
    simp done (
      ap (λ (l : List StoredRunState). ok (map summary_of (take_runs max_history_runs l)))
        (sym sorted)
      ∙ made)
