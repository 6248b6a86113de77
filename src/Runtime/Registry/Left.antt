-- ===== src/Runtime/Registry/Left.antt =====
-- The loop of `prune_terminal` over the order leaves what a loop over the runs leaves.
use mathlib.Core.List.{◌++◌}
use swaw_kit.Prelude.{
  ℕ, ◌-◌, suc, ◌<◌, ◌≡◌, refl, sym, ap, subst, ◌∙◌, inl, inr, true, false, not, Bool-cases, some,
  List, [], ◌∷◌, arith, leb, if◌then◌else◌, keep, All, Text, text_eq, text_eq_iff, text_eq_self,
  one_of,
}
use swaw_kit.Runtime.Run.{CommandRun}
use swaw_kit.Runtime.Registry.{
  find_run, is_terminal_run, is_terminal_id, is_terminal_found, terminal_count, pruned,
}

-- No two runs of the list have one id.
abbrev pub Fresh : CommandRun → List CommandRun → Type 0
Fresh r rs = All (λ (q : CommandRun). text_eq q.id r.id ≡ false) rs

abbrev pub Distinct : List CommandRun → Type 0
Distinct [] = Unit
Distinct (r ∷ rs) = Fresh r rs × Distinct rs

abbrev pub ids : List CommandRun → List Text
ids [] = []
ids (r ∷ rs) = r.id ∷ ids rs

text_eq-false_sym : (s t : Text) → text_eq s t ≡ false → text_eq t s ≡ false
text_eq-false_sym s t h = elim (Bool-cases (text_eq t s)) [
  | inl equal ↦
      let same = (text_eq_iff t s).0 equal in
      absurd (ground (arith, text_eq_self s, subst (λ (u : Text). text_eq s u ≡ false) same h))
  | inr other ↦ other
]

-- The ids that the loop removes, and what is left, both from the list of the runs alone.
abbrev pub victims : ℕ → List CommandRun → List Text
victims t [] = []
victims t (r ∷ rs) =
    let rest = victims (if is_terminal_run r then t - 1 else t) rs in
    if leb t 32 then [] else if is_terminal_run r then r.id ∷ rest else rest

abbrev pub left : ℕ → List CommandRun → List CommandRun
left t [] = []
left t (r ∷ rs) =
    let rest = left (if is_terminal_run r then t - 1 else t) rs in
    if leb t 32 then r ∷ rs else if is_terminal_run r then rest else r ∷ rest

abbrev pub Agrees : List CommandRun → CommandRun → Type 0
Agrees runs q = is_terminal_id runs q.id ≡ is_terminal_run q

find_further :
    (r : CommandRun) (rs : List CommandRun) (id : Text)
    → text_eq r.id id ≡ false
    → find_run id (r ∷ rs) ≡ find_run id rs
unfolding find_run
find_further r rs id h = simp h refl

find_first : (r : CommandRun) (rs : List CommandRun) → find_run r.id (r ∷ rs) ≡ some r
unfolding find_run
find_first r rs = simp (text_eq_self r.id) refl

look_further :
    (r : CommandRun) (rs qs : List CommandRun)
    → Fresh r qs
    → All (Agrees rs) qs
    → All (Agrees (r ∷ rs)) qs
look_further r rs [] f h = tt
look_further r rs (q ∷ qs) (d, f) (a, h) = (
  ap is_terminal_found (find_further r rs q.id (text_eq-false_sym q.id r.id d)) ∙ a,
  look_further r rs qs f h,
)

pub Distinct-Agrees : (rs : List CommandRun) → Distinct rs → All (Agrees rs) rs
Distinct-Agrees [] d = tt
Distinct-Agrees (r ∷ rs) (f, d) =
    (ap is_terminal_found (find_first r rs), look_further r rs rs f (Distinct-Agrees rs d))

pub pruned-victims :
    (runs : List CommandRun) (t : ℕ) (rs : List CommandRun)
    → All (Agrees runs) rs
    → pruned runs t (ids rs) ≡ victims t rs
unfolding pruned
pruned-victims runs t [] h = refl
pruned-victims runs t (r ∷ rs) (a, h) =
    rw (a, pruned-victims runs (if is_terminal_run r then t - 1 else t) rs h) refl

victims-Fresh :
    (r : CommandRun) (t : ℕ) (rs : List CommandRun)
    → Fresh r rs
    → one_of (victims t rs) r.id ≡ false
unfolding one_of
victims-Fresh r t [] f = refl
victims-Fresh r t (q ∷ rs) (d, f) = ground (
  arith,
  text_eq-false_sym q.id r.id d,
  victims-Fresh r (if is_terminal_run q then t - 1 else t) rs f,
)

abbrev pub without : List Text → List CommandRun → List CommandRun
without gone rs = keep (λ (q : CommandRun). not (one_of gone q.id)) rs

without-none : (rs : List CommandRun) → without [] rs ≡ rs
unfolding one_of
without-none [] = refl
without-none (r ∷ rs) = ap (λ (l : List CommandRun). r ∷ l) (without-none rs)

without-Fresh :
    (r : CommandRun) (gone : List Text) (rs : List CommandRun)
    → Fresh r rs
    → without (r.id ∷ gone) rs ≡ without gone rs
unfolding one_of
without-Fresh r gone [] f = refl
without-Fresh r gone (q ∷ rs) (d, f) = ground (arith, d, without-Fresh r gone rs f)

one_of_first : (s : Text) (gone : List Text) → one_of (s ∷ gone) s ≡ true
unfolding one_of
one_of_first s gone = ground (arith, text_eq_self s)

victims_few : (t : ℕ) (rs : List CommandRun) → leb t 32 ≡ true → victims t rs ≡ []
victims_few t [] h = refl
victims_few t (r ∷ rs) h = simp h refl

victims_over :
    (t : ℕ) (r : CommandRun) (rs : List CommandRun)
    → leb t 32 ≡ false
    → is_terminal_run r ≡ true
    → victims t (r ∷ rs) ≡ r.id ∷ victims (t - 1) rs
victims_over t r rs h k = simp (h, k) refl

victims_live :
    (t : ℕ) (r : CommandRun) (rs : List CommandRun)
    → leb t 32 ≡ false
    → is_terminal_run r ≡ false
    → victims t (r ∷ rs) ≡ victims t rs
victims_live t r rs h k = simp (h, k) refl

left_few : (t : ℕ) (rs : List CommandRun) → leb t 32 ≡ true → left t rs ≡ rs
left_few t [] h = refl
left_few t (r ∷ rs) h = simp h refl

left_over :
    (t : ℕ) (r : CommandRun) (rs : List CommandRun)
    → leb t 32 ≡ false
    → is_terminal_run r ≡ true
    → left t (r ∷ rs) ≡ left (t - 1) rs
left_over t r rs h k = simp (h, k) refl

left_live :
    (t : ℕ) (r : CommandRun) (rs : List CommandRun)
    → leb t 32 ≡ false
    → is_terminal_run r ≡ false
    → left t (r ∷ rs) ≡ r ∷ left t rs
left_live t r rs h k = simp (h, k) refl

without_hit :
    (gone : List Text) (r : CommandRun) (rs : List CommandRun)
    → one_of gone r.id ≡ true
    → without gone (r ∷ rs) ≡ without gone rs
without_hit gone r rs h = simp h refl

without_miss :
    (gone : List Text) (r : CommandRun) (rs : List CommandRun)
    → one_of gone r.id ≡ false
    → without gone (r ∷ rs) ≡ r ∷ without gone rs
without_miss gone r rs h = simp h refl

pub without-victims :
    (t : ℕ) (rs : List CommandRun) → Distinct rs → without (victims t rs) rs ≡ left t rs
without-victims t [] d = refl
without-victims t (r ∷ rs) (f, d) = elim (Bool-cases (leb t 32)) [
  | inl few ↦
      ap (λ (g : List Text). without g (r ∷ rs)) (victims_few t (r ∷ rs) few)
      ∙ without-none (r ∷ rs)
      ∙ sym (left_few t (r ∷ rs) few)
  | inr many ↦ elim (Bool-cases (is_terminal_run r)) [
    | inl over ↦
        ap (λ (g : List Text). without g (r ∷ rs)) (victims_over t r rs many over)
        ∙ without_hit (r.id ∷ victims (t - 1) rs) r rs (one_of_first r.id (victims (t - 1) rs))
        ∙ without-Fresh r (victims (t - 1) rs) rs f
        ∙ without-victims (t - 1) rs d
        ∙ sym (left_over t r rs many over)
    | inr live ↦
        ap (λ (g : List Text). without g (r ∷ rs)) (victims_live t r rs many live)
        ∙ without_miss (victims t rs) r rs (victims-Fresh r t rs f)
        ∙ ap (λ (l : List CommandRun). r ∷ l) (without-victims t rs d)
        ∙ sym (left_live t r rs many live)
  ]
]

pub ids-without :
    (gone : List Text) (rs : List CommandRun)
    → keep (λ (id : Text). not (one_of gone id)) (ids rs) ≡ ids (without gone rs)
ids-without gone [] = refl
ids-without gone (r ∷ rs) = ground (arith, ids-without gone rs)

-- The live runs, and the terminal ones.
abbrev pub live_runs : List CommandRun → List CommandRun
live_runs rs = keep (λ (q : CommandRun). not (is_terminal_run q)) rs

abbrev pub terminal_runs : List CommandRun → List CommandRun
terminal_runs rs = keep is_terminal_run rs

pub live_runs-left : (t : ℕ) (rs : List CommandRun) → live_runs (left t rs) ≡ live_runs rs
live_runs-left t [] = refl
live_runs-left t (r ∷ rs) =
    ground (arith, live_runs-left (if is_terminal_run r then t - 1 else t) rs)

-- The terminal runs that stay are the last of them.
pub record Suffix (all kept : List CommandRun) : Type 0 where
  pub gone : List CommandRun
  pub parts : all ≡ gone ++ kept

pub terminal_runs-left :
    (t : ℕ) (rs : List CommandRun) → Suffix (terminal_runs rs) (terminal_runs (left t rs))
terminal_runs-left t [] = record { gone = []; parts = refl }
terminal_runs-left t (r ∷ rs) = elim (Bool-cases (leb t 32)) [
  | inl few ↦ simp few (record { gone = []; parts = refl })
  | inr many ↦ elim (Bool-cases (is_terminal_run r)) [
    | inl over ↦
        let ih = terminal_runs-left (t - 1) rs in
        simp (many, over)
          (record { gone = r ∷ ih.gone; parts = ap (λ (l : List CommandRun). r ∷ l) ih.parts })
    | inr live ↦ let ih = terminal_runs-left t rs in simp (many, live) ih
  ]
]

pub count-left :
    (t : ℕ) (rs : List CommandRun)
    → t ≡ terminal_count rs
    → 32 < t
    → terminal_count (left t rs) ≡ 32
count-left t [] e h = absurd (omega (arith, e, h))
count-left t (r ∷ rs) e h = elim (Bool-cases (is_terminal_run r)) [
  | inl over ↦
      let count : t ≡ suc (terminal_count rs) = ground arith in
      let next = left_over t r rs (ground arith) over in
      elim (Bool-cases (leb (t - 1) 32)) [
        | inl few ↦ ap terminal_count (next ∙ left_few (t - 1) rs few) ∙ ground (arith, count)
        | inr many ↦
            ap terminal_count next ∙ count-left (t - 1) rs (omega (arith, count)) (ground arith)
      ]
  | inr live ↦
      let count : t ≡ terminal_count rs = ground arith in
      let tail : terminal_count (r ∷ left t rs) ≡ terminal_count (left t rs) = simp live refl in
      ap terminal_count (left_live t r rs (ground arith) live) ∙ tail ∙ count-left t rs count h
]
