-- ===== src/Cleanup/Tests.antt =====
-- A cleanup with one release that can be removed.
use swaw_kit.Prelude.{
  ◌≡◌, refl, true, false, none, List, [], ◌∷◌, All, Text, ascii, text_eq, Result, ok,
}
use swaw_kit.Cleanup.{
  DirEntry, InUseReleases, users_of, Validate, PlanItem, removable, RemovalIo, Effect, isolated,
  deleted, RuntimeCleanupDocument, new_document, result_item, is_removed, apply_action, run,
  execute_plan, execute_items, execute_state, apply_removable, remove_unused, remove_release,
  isolate, remove_isolated,
}
use swaw_kit.Cleanup.Safety.{IsRemovable, run-All}
use swaw_kit.Cleanup.Accounts.{Accounts, execute_plan-Accounts}

abbrev drop_one : Text → Text
drop_one [] = []
drop_one (_ ∷ s) = s

-- The release r1 is in the directory d1.
abbrev every : Validate
every name = ok (b'd' ∷ drop_one name)

abbrev lower : Text → Text
lower s = s

abbrev directory : Result Text (List DirEntry)
directory = ok (
    record { name = ascii "r2"; path = ascii "d2" }
    ∷ record { name = ascii "r1"; path = ascii "d1" }
    ∷ [])

abbrev users : InUseReleases
users = []

abbrev answers : Text → RemovalIo
answers name = record {
  latest = ok users;
  validated = every name;
  tombstone_exists = false;
  rename = ok tt;
  remove = ok tt;
}

run-All_example :
    All
      (λ (e : Effect).
        (true ≡ true) × IsRemovable every lower (ok (ascii "r1")) (ok users) directory answers e)
      (run every lower (ok (ascii "r1")) (ok users) directory answers true).0
run-All_example = run-All every lower (ok (ascii "r1")) (ok users) directory answers true

abbrev old : PlanItem
old = record { name = ascii "r2"; root = ascii "d2"; state = removable }

abbrev removed_old : RuntimeCleanupDocument
removed_old = new_document apply_action (result_item old is_removed [] none ∷ [])

old_done :
    execute_plan answers (old ∷ []) true
    ≡ (isolated (ascii "d2") (ascii "r2") ∷ deleted (ascii "r2") ∷ [], ok removed_old)
unfolding execute_items execute_state apply_removable remove_unused remove_release isolate
    remove_isolated users_of text_eq
old_done = refl

execute_plan-Accounts_example :
    Accounts (old ∷ []) (isolated (ascii "d2") (ascii "r2") ∷ deleted (ascii "r2") ∷ []) removed_old
execute_plan-Accounts_example =
    execute_plan-Accounts answers (old ∷ []) true
      (isolated (ascii "d2") (ascii "r2") ∷ deleted (ascii "r2") ∷ []) removed_old old_done
