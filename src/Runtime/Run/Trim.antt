-- ===== src/Runtime/Run/Trim.antt =====
-- The retained output: what the trimming loop keeps.
use swaw_kit.Prelude.{
  ℕ, ◌+◌, ◌-◌, ◌≤◌, ◌≡◌, refl, ap, subst, inl, inr, Bool, true, ◌||◌, Bool-cases, List, [], ◌∷◌,
  ◌++◌, arith, ltb, length, not, is_empty,
}
use swaw_kit.Runtime.Journal.{RunJournalEvent, retained_bytes}
use swaw_kit.Runtime.Run.{Retained, trim, max_output_bytes, max_output_events}

-- The bytes that a list of events retains.
abbrev pub total_bytes : List RunJournalEvent → ℕ
total_bytes [] = 0
total_bytes (e ∷ es) = retained_bytes e + total_bytes es

-- Both limits of the retained output.
abbrev pub IsWithin : List RunJournalEvent → Type 0
IsWithin es = (total_bytes es ≤ 1048576) × (length es ≤ 4096)

-- Every suffix that is longer than `kept` is over a limit.
abbrev pub Needed : List RunJournalEvent → List RunJournalEvent → Type 0
Needed [] kept = Unit
Needed (e ∷ gone) kept = ¬ IsWithin (e ∷ (gone ++ kept)) × Needed gone kept

-- What `trim` drops and keeps of a list.
pub record IsTrimmed (es : List RunJournalEvent) (dropped : Bool) (r : Retained) : Type 0 where
  pub gone : List RunJournalEvent
  pub parts : es ≡ gone ++ r.kept
  pub counted : r.bytes ≡ total_bytes r.kept
  pub within : IsWithin r.kept
  pub flag : r.dropped ≡ (dropped || not (is_empty gone))
  pub needed : Needed gone r.kept

abbrev over : ℕ → List RunJournalEvent → Bool
over bytes es = ltb max_output_bytes bytes || ltb max_output_events (length es)

-- The loop keeps the longest suffix within the limits, counts its bytes, and reports a loss
-- exactly when it dropped an event (or one was dropped before).
pub trim-IsTrimmed :
    (es : List RunJournalEvent) (dropped : Bool)
    → IsTrimmed es dropped (trim (total_bytes es) es dropped)
unfolding trim
trim-IsTrimmed [] dropped = record {
  gone = [];
  parts = refl;
  counted = refl;
  within = omega arith;
  flag = ground arith;
  needed = tt;
}
trim-IsTrimmed (e ∷ es) dropped = elim (Bool-cases (over (total_bytes (e ∷ es)) (e ∷ es))) [
  | inl much ↦
      let fewer : total_bytes (e ∷ es) - retained_bytes e ≡ total_bytes es = omega arith in
      let ih = trim-IsTrimmed es true in
      let split = ap (λ (l : List RunJournalEvent). e ∷ l) ih.parts in
      rw (much, fewer)
        (record {
          gone = e ∷ ih.gone;
          parts = split;
          counted = ih.counted;
          within = ih.within;
          flag = ground (arith, ih.flag);
          needed = (λ w. subst (λ l. IsWithin l → ⊥) split (λ v. ground arith) w, ih.needed);
        })
  | inr fine ↦ rw fine (record {
    gone = [];
    parts = refl;
    counted = refl;
    within = (ground arith, ground arith);
    flag = ground arith;
    needed = tt;
  })
]
