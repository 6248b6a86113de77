-- ===== src/Cleanup/Accounts.antt =====
-- The document of a cleanup accounts for what was done.
use swaw_kit.Prelude.{
  ℕ, ◌+◌, ◌≡◌, refl, sym, ap, ap₂, ◌∙◌, Bool, true, false, Bool-cases, inl, inr, List, [], ◌∷◌,
  ◌++◌, map, arith, length, length-append, subst, if◌then◌else◌, Text, text_eq, Result, ok, err,
  Result-cases, Option-cases,
}
use swaw_kit.Cleanup.{
  users_of, PlanState, selected, in_use, removable, retained, PlanItem, RuntimeCleanupState,
  is_selected, is_in_use, is_removable, is_removed, is_retained, RuntimeCleanupItem, Effect,
  isolated, deleted, RemovalIo, remove_isolated, isolate, remove_release, remove_unused,
  removed_item, apply_removable, execute_state, execute_item, execute_items, after_item,
  RuntimeCleanupSummary, count_state, count_items, no_count, RuntimeCleanupDocument, apply_action,
  preview, new_document, document_of, execute_plan,
}

-- The releases that were deleted.
abbrev pub deletions : List Effect → List Text
deletions [] = []
deletions (isolated root name ∷ effects) = deletions effects
deletions (deleted name ∷ effects) = name ∷ deletions effects

-- The releases that a document calls removed.
abbrev pub removal : RuntimeCleanupState → Text → List Text
removal is_removed name = name ∷ []
removal _ name = []

abbrev pub removals : List RuntimeCleanupItem → List Text
removals [] = []
removals (item ∷ items) = removal item.state item.release_id ++ removals items

abbrev RoundSays : PlanItem → List Effect × Result Text RuntimeCleanupItem → Type 0
RoundSays item (effects, err e) = Unit
RoundSays item (effects, ok result) =
    (result.release_id ≡ item.name) × (deletions effects ≡ removal result.state result.release_id)

module _ (io : RemovalIo) (item : PlanItem) where
  abbrev Removes : List Effect × Result Text (Unit {0}) → Type 0
  Removes (effects, err e) = Unit
  Removes (effects, ok _) = deletions effects ≡ item.name ∷ []

  isolate-Removes : Removes (isolate io item)
  unfolding isolate remove_isolated
  isolate-Removes = elim (Bool-cases io.tombstone_exists) [
    | inl there ↦ rw there tt
    | inr free ↦ rw free (elim (Result-cases io.rename) [
      | inr (e, failed) ↦ rw failed tt
      | inl (_, renamed) ↦ rw renamed (elim (Result-cases io.remove) [
        | inr (e, failed) ↦ rw failed tt
        | inl (_, removed) ↦ rw removed refl
      ])
    ])
  ]

  remove_release-Removes : Removes (remove_release io item)
  unfolding remove_release isolate remove_isolated
  remove_release-Removes = elim (Result-cases io.validated) [
    | inr (e, invalid) ↦ rw invalid tt
    | inl (root, valid) ↦ rw valid (elim (Bool-cases (text_eq root item.root)) [
      | inr moved ↦ rw moved tt
      | inl here ↦ rw here isolate-Removes
    ])
  ]

  removed_item-says :
      (r : List Effect × Result Text (Unit {0})) → Removes r → RoundSays item (removed_item item r)
  removed_item-says (effects, err e) h = tt
  removed_item-says (effects, ok _) h = (refl, h)

  apply_removable-says : RoundSays item (apply_removable io item)
  unfolding apply_removable remove_unused remove_release isolate remove_isolated
  apply_removable-says = elim (Result-cases io.latest) [
    | inr (e, unknown) ↦ rw unknown tt
    | inl (latest, checked) ↦ rw checked (elim (Option-cases (users_of latest item.name)) [
      | inr (pids, used) ↦ rw used (refl, refl)
      | inl unused ↦ rw unused (removed_item-says (remove_release io item) remove_release-Removes)
    ])
  ]

execute_state-says :
    (io : Text → RemovalIo) (apply : Bool) (item : PlanItem) (s : PlanState)
    → RoundSays item (execute_state io apply item s)
unfolding execute_state
execute_state-says io apply item selected = (refl, refl)
execute_state-says io apply item (in_use pids) = (refl, refl)
execute_state-says io apply item (retained reason) = (refl, refl)
execute_state-says io false item removable = (refl, refl)
execute_state-says io true item removable = apply_removable-says (io item.name) item

record Says (plan : List PlanItem) (effects : List Effect) (items : List RuntimeCleanupItem)
    : Type 0 where
  named : map (λ (r : RuntimeCleanupItem). r.release_id) items ≡ map (λ (i : PlanItem). i.name) plan
  deleted_ones : deletions effects ≡ removals items

abbrev LoopSays : List PlanItem → List Effect × Result Text (List RuntimeCleanupItem) → Type 0
LoopSays plan (effects, err e) = Unit
LoopSays plan (effects, ok items) = Says plan effects items

deletions-append : (xs ys : List Effect) → deletions (xs ++ ys) ≡ deletions xs ++ deletions ys
deletions-append [] ys = refl
deletions-append (isolated root name ∷ xs) ys = deletions-append xs ys
deletions-append (deleted name ∷ xs) ys = ap (λ (l : List Text). name ∷ l) (deletions-append xs ys)

after_item-says :
    (item : PlanItem) (plan : List PlanItem) (now : List Effect × Result Text RuntimeCleanupItem)
    (later : List Effect × Result Text (List RuntimeCleanupItem))
    → RoundSays item now
    → LoopSays plan later
    → LoopSays (item ∷ plan) (after_item now later)
after_item-says item plan (effects, err e) later h k = tt
after_item-says item plan (effects, ok result) (more, err e) h k = tt
after_item-says item plan (effects, ok result) (more, ok items) (name, same) k = record {
  named = ap₂ ◌∷◌ name k.named;
  deleted_ones = deletions-append effects more ∙ ap₂ ◌++◌ same k.deleted_ones;
}

execute_items-says :
    (io : Text → RemovalIo) (apply : Bool) (plan : List PlanItem)
    → LoopSays plan (execute_items io apply plan)
unfolding execute_items
execute_items-says io apply [] = record { named = refl; deleted_ones = refl }
execute_items-says io apply (item ∷ plan) =
    after_item-says item plan (execute_item io apply item) (execute_items io apply plan)
      (execute_state-says io apply item item.state) (execute_items-says io apply plan)

abbrev pub total : RuntimeCleanupSummary → ℕ
total s = s.selected_count + s.in_use_count + s.removable_count + s.removed_count + s.retained_count

count_state-total :
    (state : RuntimeCleanupState) (name : Text) (s : RuntimeCleanupSummary)
    → (total (count_state state s) ≡ total s + 1)
      × ((count_state state s).removed_count ≡ s.removed_count + length (removal state name))
unfolding count_state
count_state-total is_selected name s = (omega arith, omega arith)
count_state-total is_in_use name s = (omega arith, omega arith)
count_state-total is_removable name s = (omega arith, omega arith)
count_state-total is_removed name s = (omega arith, omega arith)
count_state-total is_retained name s = (omega arith, omega arith)

count_items-total :
    (items : List RuntimeCleanupItem) (s : RuntimeCleanupSummary)
    → (total (count_items items s) ≡ total s + length items)
      × ((count_items items s).removed_count ≡ s.removed_count + length (removals items))
unfolding count_items
count_items-total [] s = (omega arith, omega arith)
count_items-total (item ∷ items) s =
    let (all, removed) = count_items-total items (count_state item.state s) in
    let (one, here) = count_state-total item.state item.release_id s in
    (
      omega (arith, all, one),
      omega (
        arith,
        removed,
        here,
        length-append {0} (removal item.state item.release_id) (removals items),
      ),
    )

-- A document that accounts for a plan and its effects.
pub record Accounts (plan : List PlanItem) (effects : List Effect)
    (document : RuntimeCleanupDocument) : Type 0 where
  pub named :
      map (λ (r : RuntimeCleanupItem). r.release_id) document.items
      ≡ map (λ (i : PlanItem). i.name) plan
  pub removed : removals document.items ≡ deletions effects
  pub counted : total document.summary ≡ length document.items
  pub removed_count : document.summary.removed_count ≡ length (deletions effects)

document_of-Accounts :
    (apply : Bool) (plan : List PlanItem) (r : List Effect × Result Text (List RuntimeCleanupItem))
    (effects : List Effect) (document : RuntimeCleanupDocument)
    → LoopSays plan r
    → document_of apply r ≡ (effects, ok document)
    → Accounts plan effects document
unfolding new_document
document_of-Accounts apply plan (done, err e) effects document h same = absurd (ground arith)
document_of-Accounts apply plan (done, ok items) effects document h same =
    let (all, removed) = count_items-total items no_count in
    let parts : (done, new_document (if apply then apply_action else preview) items)
        ≡ (effects, document) =
      ground arith in
    subst (λ (x : List Effect × RuntimeCleanupDocument). Accounts plan x.0 x.1) parts
      (record {
        named = h.named;
        removed = sym h.deleted_ones;
        counted = omega (arith, all);
        removed_count = omega (arith, removed, ap (λ (l : List Text). length l) h.deleted_ones);
      })

-- The document of a cleanup that succeeds lists the releases of the plan, in order; those that it
-- calls removed are those that were deleted, and its summary counts them all.
pub execute_plan-Accounts :
    (io : Text → RemovalIo) (plan : List PlanItem) (apply : Bool) (effects : List Effect)
    (document : RuntimeCleanupDocument)
    → execute_plan io plan apply ≡ (effects, ok document)
    → Accounts plan effects document
execute_plan-Accounts io plan apply effects document done =
    document_of-Accounts apply plan (execute_items io apply plan) effects document
      (execute_items-says io apply plan) done
