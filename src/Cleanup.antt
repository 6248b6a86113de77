-- ===== src/Cleanup.antt =====
-- The cleanup of runtime releases (_lib/proj/_app/src/runtime_cleanup_engine/mod.rs, with the
-- document of runtime_cleanup.rs).
--
-- The validation of a release, the processes that use releases, the directory and the calls of the
-- file system are arguments; what was done to the file system is the list of effects.
pub mod Rounds
pub mod Safety
pub mod Accounts
mod Tests
use swaw_kit.Prelude.{
  ℕ, suc, ◌+◌, Bool, true, false, not, Option, none, some, List, [], ◌∷◌, ◌++◌, map, length,
  if◌then◌else◌, Text, ascii, text_eq, text_le, sort, Result, ok, err, ◌>>=◌, ◌>>◌,
}

-- A release's name, which is its id, and its directory.
pub record DirEntry : Type 0 where
  pub name : Text
  pub path : Text

-- The processes that run from each release.
abbrev pub InUseReleases : Type 0
InUseReleases = List (Text × List ℕ)

-- `BTreeMap::get`.
unfoldable pub users_of : InUseReleases → Text → Option (List ℕ)
users_of [] name = none
users_of ((key, pids) ∷ rest) name =
    let later = users_of rest name in if text_eq key name then some pids else later

pub data PlanState : Type 0 where
  selected : PlanState
  in_use : List ℕ → PlanState
  removable : PlanState
  retained : Text → PlanState

pub record PlanItem : Type 0 where
  pub name : Text
  pub root : Text
  pub state : PlanState

-- `RuntimeReleaseStore::validate`: the directory of the valid release.
abbrev pub Validate : Type 0
Validate = Text → Result Text Text

abbrev pub unused_state : Option (List ℕ) → PlanState
unused_state none = removable
unused_state (some pids) = in_use pids

unfoldable pub plan_state : Validate → Text → InUseReleases → Text → PlanState
plan_state validate selected_id used name =
    if text_eq name selected_id
    then selected
    else elim (validate name) [ err e ↦ retained e | ok _ ↦ unused_state (users_of used name) ]

abbrev pub entry_le : (Text → Text) → DirEntry → DirEntry → Bool
entry_le lower left right = text_le (lower left.name) (lower right.name)

abbrev pub plan_item : Validate → Text → InUseReleases → DirEntry → PlanItem
plan_item validate selected_id used entry = record {
  name = entry.name;
  root = entry.path;
  state = plan_state validate selected_id used entry.name;
}

-- `lower` is `str::to_lowercase`.
unfoldable pub build_plan :
    Validate
    → (Text → Text)
    → Text
    → InUseReleases
    → Result Text (List DirEntry)
    → Result Text (List PlanItem)
build_plan validate lower selected_id used directory = do
  root ← validate selected_id
  entries ← directory
  ok (map (plan_item validate selected_id used) (sort (entry_le lower) entries))

pub data RuntimeCleanupState : Type 0 where
  is_selected is_in_use is_removable is_removed is_retained : RuntimeCleanupState

pub record RuntimeCleanupItem : Type 0 where
  pub release_id : Text
  pub state : RuntimeCleanupState
  pub pids : List ℕ
  pub reason : Option Text

abbrev pub result_item : PlanItem → RuntimeCleanupState → List ℕ → Option Text → RuntimeCleanupItem
result_item item state pids reason = record {
  release_id = item.name;
  state = state;
  pids = pids;
  reason = reason;
}

-- What was done: a directory was renamed to the tombstone of a release, or the tombstone was deleted.
pub data Effect : Type 0 where
  isolated : Text → Text → Effect
  deleted : Text → Effect

-- The answers that a removable release gets when the plan is applied.
pub record RemovalIo : Type 0 where
  pub latest : Result Text InUseReleases
  pub validated : Result Text Text
  pub tombstone_exists : Bool
  pub rename : Result Text (Unit {0})
  pub remove : Result Text (Unit {0})

unfoldable pub remove_isolated : RemovalIo → PlanItem → List Effect × Result Text (Unit {0})
remove_isolated io item = elim io.remove [
  | err e ↦ (isolated item.root item.name ∷ [], err e)
  | ok _ ↦ (isolated item.root item.name ∷ deleted item.name ∷ [], ok tt)
]

unfoldable pub isolate : RemovalIo → PlanItem → List Effect × Result Text (Unit {0})
isolate io item =
    if io.tombstone_exists
    then ([], err (ascii "Runtime cleanup tombstone already exists"))
    else elim io.rename [ err e ↦ ([], err e) | ok _ ↦ remove_isolated io item ]

unfoldable pub remove_release : RemovalIo → PlanItem → List Effect × Result Text (Unit {0})
remove_release io item = elim io.validated [
  | err e ↦ ([], err e)
  | ok root ↦
      if not (text_eq root item.root)
      then ([], err (ascii "Runtime Release path changed after preview"))
      else isolate io item
]

abbrev pub removed_item :
    PlanItem → List Effect × Result Text (Unit {0}) → List Effect × Result Text RuntimeCleanupItem
removed_item item (effects, err e) = (effects, err e)
removed_item item (effects, ok _) = (effects, ok (result_item item is_removed [] none))

unfoldable pub remove_unused :
    RemovalIo → PlanItem → Option (List ℕ) → List Effect × Result Text RuntimeCleanupItem
remove_unused io item (some pids) = ([], ok (result_item item is_in_use pids none))
remove_unused io item none = removed_item item (remove_release io item)

unfoldable pub apply_removable : RemovalIo → PlanItem → List Effect × Result Text RuntimeCleanupItem
apply_removable io item = elim io.latest [
  | err e ↦ ([], err e)
  | ok latest ↦ remove_unused io item (users_of latest item.name)
]

unfoldable pub execute_state :
    (Text → RemovalIo) → Bool → PlanItem → PlanState → List Effect × Result Text RuntimeCleanupItem
execute_state io apply item selected = ([], ok (result_item item is_selected [] none))
execute_state io apply item (in_use pids) = ([], ok (result_item item is_in_use pids none))
execute_state io apply item (retained reason) =
    ([], ok (result_item item is_retained [] (some reason)))
execute_state io apply item removable =
    if not apply
    then ([], ok (result_item item is_removable [] none))
    else apply_removable (io item.name) item

-- A round of the loop of `execute_plan`.
abbrev pub execute_item :
    (Text → RemovalIo) → Bool → PlanItem → List Effect × Result Text RuntimeCleanupItem
execute_item io apply item = execute_state io apply item item.state

abbrev pub onto_items :
    List Effect
    → RuntimeCleanupItem
    → List Effect × Result Text (List RuntimeCleanupItem)
    → List Effect × Result Text (List RuntimeCleanupItem)
onto_items done item (effects, err e) = (done ++ effects, err e)
onto_items done item (effects, ok items) = (done ++ effects, ok (item ∷ items))

-- The first error ends the loop.
abbrev pub after_item :
    List Effect × Result Text RuntimeCleanupItem
    → List Effect × Result Text (List RuntimeCleanupItem)
    → List Effect × Result Text (List RuntimeCleanupItem)
after_item (effects, err e) later = (effects, err e)
after_item (effects, ok result) later = onto_items effects result later

unfoldable pub execute_items :
    (Text → RemovalIo) → Bool → List PlanItem → List Effect × Result Text (List RuntimeCleanupItem)
execute_items io apply [] = ([], ok [])
execute_items io apply (item ∷ items) =
    after_item (execute_item io apply item) (execute_items io apply items)

pub data RuntimeCleanupAction : Type 0 where
  preview apply_action : RuntimeCleanupAction

pub record RuntimeCleanupSummary : Type 0 where
  pub selected_count : ℕ
  pub in_use_count : ℕ
  pub removable_count : ℕ
  pub removed_count : ℕ
  pub retained_count : ℕ

-- The round of the loop of `RuntimeCleanupDocument::new`.
unfoldable pub count_state : RuntimeCleanupState → RuntimeCleanupSummary → RuntimeCleanupSummary
count_state is_selected s = record s { selected_count = s.selected_count + 1 }
count_state is_in_use s = record s { in_use_count = s.in_use_count + 1 }
count_state is_removable s = record s { removable_count = s.removable_count + 1 }
count_state is_removed s = record s { removed_count = s.removed_count + 1 }
count_state is_retained s = record s { retained_count = s.retained_count + 1 }

abbrev pub no_count : RuntimeCleanupSummary
no_count = record {
  selected_count = 0;
  in_use_count = 0;
  removable_count = 0;
  removed_count = 0;
  retained_count = 0;
}

unfoldable pub count_items : List RuntimeCleanupItem → RuntimeCleanupSummary → RuntimeCleanupSummary
count_items [] s = s
count_items (item ∷ items) s = count_items items (count_state item.state s)

-- `RuntimeCleanupDocument`, without its constant protocol.
pub record RuntimeCleanupDocument : Type 0 where
  pub action : RuntimeCleanupAction
  pub items : List RuntimeCleanupItem
  pub summary : RuntimeCleanupSummary

unfoldable pub new_document :
    RuntimeCleanupAction → List RuntimeCleanupItem → RuntimeCleanupDocument
new_document action items = record {
  action = action;
  items = items;
  summary = count_items items no_count;
}

abbrev pub document_of :
    Bool
    → List Effect × Result Text (List RuntimeCleanupItem)
    → List Effect × Result Text RuntimeCleanupDocument
document_of apply (effects, err e) = (effects, err e)
document_of apply (effects, ok items) =
    (effects, ok (new_document (if apply then apply_action else preview) items))

abbrev pub execute_plan :
    (Text → RemovalIo) → List PlanItem → Bool → List Effect × Result Text RuntimeCleanupDocument
execute_plan io plan apply = document_of apply (execute_items io apply plan)

abbrev pub run_plan :
    (Text → RemovalIo)
    → Bool
    → Result Text (List PlanItem)
    → List Effect × Result Text RuntimeCleanupDocument
run_plan io apply (err e) = ([], err e)
run_plan io apply (ok plan) = execute_plan io plan apply

-- `run`, behind the lock and the opening of the store.
unfoldable pub run :
    Validate
    → (Text → Text)
    → Result Text Text
    → Result Text InUseReleases
    → Result Text (List DirEntry)
    → (Text → RemovalIo)
    → Bool
    → List Effect × Result Text RuntimeCleanupDocument
run validate lower selected_id used directory io apply =
    run_plan io apply
      (selected_id >>= λ id. used >>= λ processes. build_plan validate lower id processes directory)
