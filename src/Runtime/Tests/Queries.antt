-- ===== src/Runtime/Tests/Queries.antt =====
-- A query that writes twice, and one that reports a progress.
use swaw_kit.Prelude.{◌≡◌, refl, ◌↔◌, ◌≤◌, true, false, List, [], ◌∷◌, ascii, length, ok, err}
use swaw_kit.Runtime.Journal.{stdout}
use swaw_kit.Runtime.Run.{process_exited}
use swaw_kit.Runtime.Query.{
  RuntimeQueryOutput, query_result, query_output, wait_answer, observe_output, observe_progress,
  observe_completed, reject,
}
use swaw_kit.Runtime.Query.Outcome.{
  QueryEvent, wrote, progressed, written, IsQuiet, ran, query_result_iff,
}

abbrev two_writes : List QueryEvent
two_writes = wrote stdout (ascii "ab") ∷ wrote stdout (ascii "c") ∷ []

abbrev abc : RuntimeQueryOutput
abc = record { text = ascii "abc"; exit_code = 3 }

two_writes_result :
    query_result
      (wait_answer true (ran 3 two_writes (process_exited 3)))
      (ok tt)
      (ran 3 two_writes (process_exited 3))
    ≡ ok abc
unfolding query_result query_output wait_answer observe_output observe_completed reject
two_writes_result = refl

progress_result :
    query_result
      (wait_answer false (ran 3 (progressed ∷ two_writes) (process_exited 3)))
      (ok tt)
      (ran 3 (progressed ∷ two_writes) (process_exited 3))
    ≡ err (ascii "facet query emitted a progress event")
unfolding query_result query_output wait_answer observe_output observe_progress observe_completed
    reject
progress_result = refl

query_result_iff_example :
    (query_result
        (wait_answer false (ran 3 two_writes (process_exited 3)))
        (ok tt)
        (ran 3 two_writes (process_exited 3))
      ≡ ok abc)
    ↔ ((process_exited 3 ≡ process_exited 3)
        × (ascii "abc" ≡ written two_writes)
        × IsQuiet two_writes
        × (length (written two_writes) ≤ 3))
query_result_iff_example = query_result_iff 3 two_writes (process_exited 3) false abc
