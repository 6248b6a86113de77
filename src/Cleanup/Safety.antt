-- ===== src/Cleanup/Safety.antt =====
-- What a cleanup may touch.
use swaw_kit.Prelude.{
  ◌⊎◌, ◌≡◌, ◌≢◌, refl, sym, subst, ◌∙◌, Bool, true, Bool-cases, inl, inr, none, List, [], ◌∷◌, map,
  arith, All, All-append, Text, text_eq, text_eq_iff, sort, Result, ok, err, Result-cases,
  Option-cases, >>=-eq-ok,
}
use swaw_kit.Cleanup.{
  DirEntry, InUseReleases, users_of, removable, PlanItem, Validate, plan_state, plan_item, entry_le,
  build_plan, RuntimeCleanupItem, Effect, RemovalIo, execute_item, execute_items, after_item,
  document_of, run_plan, run,
}
use swaw_kit.Cleanup.Rounds.{Touches, IsRemoved, IsRoundOf, execute_state-All}

-- An effect on a release of the plan.
EffectOn : (PlanItem → Type 0) → (Text → RemovalIo) → Bool → Effect → Type 0
EffectOn P io apply e =
    (item : PlanItem) × P item × (apply ≡ true) × Touches e item × IsRemoved io item

round-EffectOn :
    (P : PlanItem → Type 0) (io : Text → RemovalIo) (apply : Bool) (item : PlanItem)
    (effects : List Effect)
    → P item
    → IsRoundOf io apply item effects
    → All (EffectOn P io apply) effects
unfolding IsRoundOf EffectOn
round-EffectOn P io apply item [] p h = tt
round-EffectOn P io apply item (e ∷ effects) p ((on, same, removed), h) =
    ((item, p, on, same, removed), round-EffectOn P io apply item effects p h)

after_item-All :
    (Q : Effect → Type 0) (now : List Effect × Result Text RuntimeCleanupItem)
    (later : List Effect × Result Text (List RuntimeCleanupItem))
    → All Q now.0
    → All Q later.0
    → All Q (after_item now later).0
after_item-All Q (effects, err e) later h k = h
after_item-All Q (effects, ok item) (more, err e) h k = All-append Q effects more h k
after_item-All Q (effects, ok item) (more, ok items) h k = All-append Q effects more h k

execute_items-All :
    (P : PlanItem → Type 0) (io : Text → RemovalIo) (apply : Bool) (items : List PlanItem)
    → All P items
    → All (EffectOn P io apply) (execute_items io apply items).0
unfolding execute_items
execute_items-All P io apply [] h = tt
execute_items-All P io apply (item ∷ items) (p, h) =
    after_item-All (EffectOn P io apply) (execute_item io apply item) (execute_items io apply items)
      (round-EffectOn P io apply item (execute_item io apply item).0 p
        (execute_state-All io item apply item.state refl))
      (execute_items-All P io apply items h)

-- What the plan has found of a release that it would remove.
pub record IsUnneeded (validate : Validate) (selected_id : Text) (used : InUseReleases)
    (name : Text) : Type 0 where
  pub other : name ≢ selected_id
  pub root : Text
  pub valid : validate name ≡ ok root
  pub unused : users_of used name ≡ none

plan_state_removable :
    (validate : Validate) (selected_id : Text) (used : InUseReleases) (name : Text)
    → plan_state validate selected_id used name ≡ removable
    → IsUnneeded validate selected_id used name
unfolding plan_state
plan_state_removable validate selected_id used name h =
    elim (Bool-cases (text_eq name selected_id)) [
      | inl same ↦ absurd (ground arith)
      | inr other ↦ elim (Result-cases (validate name)) [
        | inr (e, invalid) ↦ absurd (ground arith)
        | inl (root, valid) ↦ elim (Option-cases (users_of used name)) [
          | inr (pids, busy) ↦ absurd (ground arith)
          | inl unused ↦ record {
            other = λ same. ground (arith, (text_eq_iff name selected_id).1 same);
            root = root;
            valid = valid;
            unused = unused;
          }
        ]
      ]
    ]

IsAsPlanned : Validate → Text → InUseReleases → PlanItem → Type 0
IsAsPlanned validate selected_id used item =
    item.state ≡ plan_state validate selected_id used item.name

plan_items-All :
    (validate : Validate) (selected_id : Text) (used : InUseReleases) (entries : List DirEntry)
    → All
        (IsAsPlanned validate selected_id used)
        (map (plan_item validate selected_id used) entries)
unfolding IsAsPlanned
plan_items-All validate selected_id used [] = tt
plan_items-All validate selected_id used (entry ∷ entries) =
    (refl, plan_items-All validate selected_id used entries)

build_plan-All :
    (validate : Validate) (lower : Text → Text) (selected_id : Text) (used : InUseReleases)
    (directory : Result Text (List DirEntry)) (plan : List PlanItem)
    → build_plan validate lower selected_id used directory ≡ ok plan
    → All (IsAsPlanned validate selected_id used) plan
unfolding build_plan
build_plan-All validate lower selected_id used directory plan done =
    let (root, valid, made) = >>=-eq-ok (validate selected_id) _ done in
    let (entries, listed, same) = >>=-eq-ok directory _ made in
    subst (All (IsAsPlanned validate selected_id used)) (ground arith)
      (plan_items-All validate selected_id used (sort (entry_le lower) entries))

-- A part of the list is the item.
abbrev pub IsAmong : PlanItem → List PlanItem → Type 0
IsAmong item [] = ⊥
IsAmong item (other ∷ items) = (item ≡ other) ⊎ IsAmong item items

-- A release of the plan that a cleanup has touched.
pub record IsRemovable (validate : Validate) (lower : Text → Text) (selected_id : Result Text Text)
    (used : Result Text InUseReleases) (directory : Result Text (List DirEntry))
    (io : Text → RemovalIo) (e : Effect) : Type 0 where
  pub id : Text
  pub chosen : selected_id ≡ ok id
  pub processes : InUseReleases
  pub listed : used ≡ ok processes
  pub plan : List PlanItem
  pub made : build_plan validate lower id processes directory ≡ ok plan
  pub item : PlanItem
  pub among : IsAmong item plan
  pub touched : Touches e item
  pub unneeded : IsUnneeded validate id processes item.name
  pub removed : IsRemoved io item

All-IsAmong :
    (P : PlanItem → Type 0) (plan items : List PlanItem)
    → ((item : PlanItem) → IsAmong item items → IsAmong item plan)
    → All P items
    → All (λ (item : PlanItem). P item × IsAmong item plan) items
All-IsAmong P plan [] into h = tt
All-IsAmong P plan (item ∷ items) into (p, h) =
    ((p, into item (inl refl)), All-IsAmong P plan items (λ other among. into other (inr among)) h)

document_of-effects :
    (apply : Bool) (r : List Effect × Result Text (List RuntimeCleanupItem))
    → (document_of apply r).0 ≡ r.0
document_of-effects apply (effects, err e) = refl
document_of-effects apply (effects, ok items) = refl

run_plan-All :
    (Q : Effect → Type 0) (io : Text → RemovalIo) (apply : Bool)
    (answer : Result Text (List PlanItem))
    → ((plan : List PlanItem) → answer ≡ ok plan → All Q (execute_items io apply plan).0)
    → All Q (run_plan io apply answer).0
run_plan-All Q io apply (err e) h = tt
run_plan-All Q io apply (ok plan) h =
    subst (All Q) (sym (document_of-effects apply (execute_items io apply plan))) (h plan refl)

All-weaken :
    {P Q : Effect → Type 0}
    → ((e : Effect) → P e → Q e)
    → (effects : List Effect) → All P effects
    → All Q effects
All-weaken f [] h = tt
All-weaken f (e ∷ effects) (p, h) = (f e p, All-weaken f effects h)

IsRemovable-of_planned :
    (validate : Validate) (lower : Text → Text) (selected_id : Result Text Text)
    (used : Result Text InUseReleases) (directory : Result Text (List DirEntry))
    (io : Text → RemovalIo) (apply : Bool) (id : Text) (processes : InUseReleases)
    (plan : List PlanItem)
    → selected_id ≡ ok id
    → used ≡ ok processes
    → build_plan validate lower id processes directory ≡ ok plan
    → (e : Effect)
    → EffectOn
        (λ (item : PlanItem). IsAsPlanned validate id processes item × IsAmong item plan)
        io
        apply
        e
    → (apply ≡ true) × IsRemovable validate lower selected_id used directory io e
unfolding EffectOn IsAsPlanned
IsRemovable-of_planned validate lower selected_id used directory io apply id processes plan chosen
      listed made e (item, (p, among), on, same, removed) =
    (
      on,
      record {
        id = id;
        chosen = chosen;
        processes = processes;
        listed = listed;
        plan = plan;
        made = made;
        item = item;
        among = among;
        touched = same;
        unneeded = plan_state_removable validate id processes item.name (sym p ∙ removed.planned);
        removed = removed;
      },
    )

-- A cleanup renames or deletes a release only when it applies its plan, and only a release of the
-- plan, by its directory there, which is not the selected one, is valid and used by no process when
-- the plan is made, and is so again, in the same directory, just before it is renamed away.
pub run-All :
    (validate : Validate) (lower : Text → Text) (selected_id : Result Text Text)
    (used : Result Text InUseReleases) (directory : Result Text (List DirEntry))
    (io : Text → RemovalIo) (apply : Bool)
    → All
        (λ (e : Effect).
          (apply ≡ true) × IsRemovable validate lower selected_id used directory io e)
        (run validate lower selected_id used directory io apply).0
unfolding run
run-All validate lower selected_id used directory io apply =
    run_plan-All
      (λ (e : Effect). (apply ≡ true) × IsRemovable validate lower selected_id used directory io e)
      io apply _
      (λ plan made.
        let (id, chosen, rest) = >>=-eq-ok selected_id _ made in
        let (processes, listed, planned) = >>=-eq-ok used _ rest in
        All-weaken
          (IsRemovable-of_planned validate lower selected_id used directory io apply id processes
            plan chosen listed planned)
          (execute_items io apply plan).0
          (execute_items-All
            (λ (item : PlanItem). IsAsPlanned validate id processes item × IsAmong item plan) io
            apply plan
            (All-IsAmong (IsAsPlanned validate id processes) plan plan (λ item among. among)
              (build_plan-All validate lower id processes directory plan planned))))
