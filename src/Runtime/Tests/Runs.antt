-- ===== src/Runtime/Tests/Runs.antt =====
-- A journal and a run that write two texts and end.
use swaw_kit.Prelude.{
  ◌≡◌, refl, ◌+◌, ◌⊎◌, true, false, not, some, none, [], ◌∷◌, ◌++◌, arith, ascii, ok, err,
}
use swaw_kit.Runtime.Journal
use swaw_kit.Runtime.Journal.{
  AppendIo, FinishIo, Writer, RunJournalEvent, cli, stdout, output, worker_phase, new_writer,
  new_running_state, append, append_next, append_event, append_line, append_truncated,
  retained_bytes, finish, finish_with, finish_exited, completed_state, journal_output,
}
use swaw_kit.Runtime.Journal.Invariant.{IsWriter}
use swaw_kit.Runtime.Journal.Life
use swaw_kit.Runtime.Journal.Life.{
  IsLost, journal_invariant, JournalReach_terminal, Loses, refused_write, append-IsLost,
}
use swaw_kit.Runtime.Run.{
  CommandRun, new_run, append_output, append_journal_event, take_answer, retain, trim,
  process_exited, complete, complete_running, complete_exited, document, is_terminal,
  request_cancel,
}
use swaw_kit.Runtime.Run.Invariant.{IsRun}
use swaw_kit.Runtime.Run.Ended.{RunReach_terminal}
use swaw_kit.Runtime.Run.Trim.{IsTrimmed, trim-IsTrimmed}
use swaw_kit.Runtime.Run.Polling
use swaw_kit.Runtime.Run.Polling.{poll_complete, IsRun-of_RunReach, RunReach}
use swaw_kit.Runtime.Run.Status.{Ends, Edge, complete-Ends, RunStep-Edge}

abbrev fine : AppendIo
fine = record { clock = ok 7; encoded = ok 90; publish = ok tt; write = ok tt; partial = [] }

abbrev full_disk : AppendIo
full_disk = record {
  clock = ok 8;
  encoded = ok 90;
  publish = ok tt;
  write = err (ascii "full");
  partial = ascii "{";
}

abbrev calm : FinishIo
calm = record { sync = ok tt; clock = ok 9; publish = ok tt }

abbrev journal : Writer
journal = new_writer (ascii "r1") (ascii "/:dev") cli 5 0

abbrev written : Writer
written = (append fine worker_phase (output stdout (ascii "hi")) journal).0

abbrev faulty : Writer
faulty = (append full_disk worker_phase (output stdout (ascii "ho")) written).0

abbrev ended : Writer
ended = (finish calm Journal.exited (some 0) none written).0

ended_terminal : Journal.is_terminal ended.state.status ≡ true
unfolding finish finish_with completed_state append append_next append_event append_line new_writer
    new_running_state
ended_terminal = refl

written_live : Journal.is_terminal written.state.status ≡ false
unfolding append append_next append_event append_line new_writer new_running_state
written_live = refl

written_fine : written.write_error ≡ none
unfolding append append_next append_event append_line new_writer new_running_state
written_fine = refl

written_whole : written.state.truncated ≡ false
unfolding append append_next append_event append_line new_writer new_running_state
written_whole = refl

full_disk-Loses : Loses full_disk written
unfolding append append_next append_event append_line new_writer new_running_state
full_disk-Loses = refused_write 8 90 (ascii "full") refl refl (ground arith) refl

abbrev to_ended : Life.JournalReach journal ended
to_ended =
    Life.next (Life.next Life.here (Life.appended fine worker_phase (output stdout (ascii "hi"))))
      (Life.finished calm Journal.exited (some 0) none refl)

journal_invariant_example : IsWriter ended
journal_invariant_example = journal_invariant (ascii "r1") (ascii "/:dev") cli 5 0 to_ended

JournalReach_terminal_example :
    (append fine worker_phase (output stdout (ascii "late")) ended).0 ≡ ended
JournalReach_terminal_example =
    JournalReach_terminal ended_terminal
      (Life.next Life.here (Life.appended fine worker_phase (output stdout (ascii "late"))))

append-IsLost_example : IsLost (finish calm Journal.exited (some 0) none faulty).0
append-IsLost_example =
    append-IsLost (ascii "r1") (ascii "/:dev") cli 5 0 full_disk worker_phase
      (output stdout (ascii "ho"))
      (Life.next Life.here (Life.appended fine worker_phase (output stdout (ascii "hi"))))
      written_live written_fine written_whole full_disk-Loses
      (Life.next Life.here (Life.finished calm Journal.exited (some 0) none refl))

abbrev first_event : RunJournalEvent
first_event = record {
  sequence = 1;
  timestamp_unix_ms = 7;
  phase = worker_phase;
  payload = output stdout (ascii "hi");
}

trim-IsTrimmed_example : IsTrimmed (first_event ∷ first_event ∷ []) false (
    trim
      (retained_bytes first_event + (retained_bytes first_event + 0))
      (first_event ∷ first_event ∷ [])
      false)
trim-IsTrimmed_example = trim-IsTrimmed (first_event ∷ first_event ∷ []) false

abbrev started : CommandRun
started = new_run (ascii "r1") (ascii "/:dev") journal true

abbrev spoken : CommandRun
spoken = append_output fine stdout (ascii "hi") started

abbrev more_spoken : CommandRun
more_spoken = append_output fine stdout (ascii "ho") spoken

abbrev done : CommandRun
done = (complete calm (process_exited 0) more_spoken).0

abbrev to_spoken : RunReach started spoken
to_spoken = Polling.next Polling.here (Polling.wrote fine stdout (ascii "hi"))

abbrev to_done : RunReach spoken done
to_done =
    Polling.next (Polling.next Polling.here (Polling.wrote fine stdout (ascii "ho")))
      (Polling.completed calm (process_exited 0))

IsRun-of_RunReach_example : IsRun spoken
IsRun-of_RunReach_example =
    IsRun-of_RunReach (ascii "r1") (ascii "/:dev") journal true spoken to_spoken

done_whole : done.state.truncated ≡ false
unfolding complete complete_running complete_exited finish_exited finish finish_with completed_state
    append_output append_journal_event take_answer retain trim journal_output append append_next
    append_event append_line new_writer new_running_state new_run retained_bytes
done_whole = refl

poll_complete_example :
    done.state.events ≡ spoken.state.events ++ (document done spoken.state.next_cursor).events
poll_complete_example = poll_complete spoken done IsRun-of_RunReach_example to_done done_whole

complete-Ends_example :
    Ends spoken.state.status (complete calm (process_exited 0) spoken).0.state.status
    × (is_terminal (complete calm (process_exited 0) spoken).0.state.status ≡ true)
    × ((complete calm (process_exited 0) spoken).1 ≡ not (is_terminal spoken.state.status))
complete-Ends_example = complete-Ends calm (process_exited 0) spoken

RunStep-Edge_example :
    ((request_cancel spoken).0.state.status ≡ spoken.state.status)
    ⊎ Edge spoken.state.status (request_cancel spoken).0.state.status
RunStep-Edge_example = RunStep-Edge {r = spoken} Polling.asked

done_terminal : is_terminal done.state.status ≡ true
unfolding complete complete_running complete_exited finish_exited finish finish_with completed_state
    append_output append_journal_event take_answer retain trim journal_output append append_next
    append_event append_line new_writer new_running_state new_run retained_bytes
done_terminal = refl

RunReach_terminal_example : append_output fine stdout (ascii "late") done ≡ done
RunReach_terminal_example =
    RunReach_terminal done_terminal
      (Polling.next Polling.here (Polling.wrote fine stdout (ascii "late")))
