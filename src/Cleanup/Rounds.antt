-- ===== src/Cleanup/Rounds.antt =====
-- What one round of a cleanup may touch.
use swaw_kit.Prelude.{
  ◌≡◌, refl, sym, ap, subst, ◌∙◌, Bool, true, false, Bool-cases, inl, inr, none, List, All, Text,
  text_eq, text_eq_iff, Result, ok, err, Result-cases, Option-cases,
}
use swaw_kit.Cleanup.{
  InUseReleases, users_of, PlanState, selected, in_use, removable, retained, PlanItem, Effect,
  isolated, deleted, RemovalIo, remove_isolated, isolate, remove_release, remove_unused,
  removed_item, apply_removable, execute_state,
}

-- The release that was touched, and, for a rename, its directory.
abbrev pub Touches : Effect → PlanItem → Type 0
Touches (isolated root name) item = (root ≡ item.root) × (name ≡ item.name)
Touches (deleted name) item = name ≡ item.name

-- When a release is removed, it is validated again and found unused again.
pub record IsRemoved (io : Text → RemovalIo) (item : PlanItem) : Type 0 where
  pub planned : item.state ≡ removable
  pub latest : InUseReleases
  pub checked : (io item.name).latest ≡ ok latest
  pub unused : users_of latest item.name ≡ none
  pub unchanged : (io item.name).validated ≡ ok item.root

-- The effects of a round.
unfoldable pub IsRoundOf : (Text → RemovalIo) → Bool → PlanItem → List Effect → Type 0
IsRoundOf io apply item effects =
    All (λ (e : Effect). (apply ≡ true) × Touches e item × IsRemoved io item) effects

module _ (io : Text → RemovalIo) (item : PlanItem) where
  isolate-All : IsRemoved io item → IsRoundOf io true item (isolate (io item.name) item).0
  unfolding isolate remove_isolated IsRoundOf
  isolate-All h = elim (Bool-cases (io item.name).tombstone_exists) [
    | inl there ↦ rw there tt
    | inr free ↦ rw free (elim (Result-cases (io item.name).rename) [
      | inr (e, failed) ↦ rw failed tt
      | inl (_, renamed) ↦ rw renamed (elim (Result-cases (io item.name).remove) [
        | inr (e, failed) ↦ rw failed ((refl, (refl, refl), h), tt)
        | inl (_, removed) ↦ rw removed ((refl, (refl, refl), h), ((refl, refl, h), tt))
      ])
    ])
  ]

  remove_release-All :
      (latest : InUseReleases)
      → item.state ≡ removable
      → (io item.name).latest ≡ ok latest
      → users_of latest item.name ≡ none
      → IsRoundOf io true item (remove_release (io item.name) item).0
  unfolding remove_release IsRoundOf isolate remove_isolated
  remove_release-All latest planned checked unused = elim (Result-cases (io item.name).validated) [
    | inr (e, invalid) ↦ rw invalid tt
    | inl (root, valid) ↦ rw valid (elim (Bool-cases (text_eq root item.root)) [
      | inr moved ↦ rw moved tt
      | inl here ↦ rw here (
          isolate-All (record {
            planned = planned;
            latest = latest;
            checked = checked;
            unused = unused;
            unchanged = valid ∙ ap (λ (r : Text). ok r) ((text_eq_iff root item.root).0 here);
          }))
    ])
  ]

  removed_item-eq : (r : List Effect × Result Text (Unit {0})) → (removed_item item r).0 ≡ r.0
  removed_item-eq (effects, err e) = refl
  removed_item-eq (effects, ok _) = refl

  apply_removable-All :
      item.state ≡ removable → IsRoundOf io true item (apply_removable (io item.name) item).0
  unfolding apply_removable remove_unused remove_release isolate remove_isolated IsRoundOf
  apply_removable-All planned = elim (Result-cases (io item.name).latest) [
    | inr (e, unknown) ↦ rw unknown tt
    | inl (latest, checked) ↦ rw checked (elim (Option-cases (users_of latest item.name)) [
      | inr (pids, used) ↦ rw used tt
      | inl unused ↦ rw unused (
          subst (IsRoundOf io true item)
            (sym (removed_item-eq (remove_release (io item.name) item)))
            (remove_release-All latest planned checked unused))
    ])
  ]

  pub execute_state-All :
      (apply : Bool) (s : PlanState)
      → item.state ≡ s
      → IsRoundOf io apply item (execute_state io apply item s).0
  unfolding execute_state IsRoundOf
  execute_state-All apply selected h = tt
  execute_state-All apply (in_use pids) h = tt
  execute_state-All apply (retained reason) h = tt
  execute_state-All false removable h = tt
  execute_state-All true removable h = apply_removable-All h
