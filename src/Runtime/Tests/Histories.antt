-- ===== src/Runtime/Tests/Histories.antt =====
-- Journals that are read back, and one that is not.
use swaw_kit.Prelude.{
  ◌≤◌, ◌≡◌, refl, true, false, none, [], ◌∷◌, arith, length, Text, ascii, ok, err,
}
use swaw_kit.Runtime.Journal.{
  AppendIo, FinishIo, Writer, RunJournalEvent, cli, stdout, output, worker_phase, new_writer,
  StoredRunState, running, is_terminal, journal_output, new_running_state, append, append_next,
  append_event, append_line, finish, finish_with, finish_exited, completed_state,
}
use swaw_kit.Runtime.Run.{
  CommandRun, new_run, process_exited, complete, complete_running, complete_exited, append_output,
  append_journal_event, take_answer, retain,
}
use swaw_kit.Runtime.Run.Polling
use swaw_kit.Runtime.History.{RecoveryIo, read_run, consistent_fields, incomplete_record}
use swaw_kit.Runtime.History.Lines.{file_of}
use swaw_kit.Runtime.History.Recovery.{Recovers, IsStored}
use swaw_kit.Runtime.History.Interrupted.{IsRecovery, read_run-IsRecovery}
use swaw_kit.Runtime.History.Written.{IsReady, new_writer-IsClean}
use swaw_kit.Runtime.History.Finished.{
  IsReadable, finished_run-IsReadable, Cuts, cut_journal, failed_write-unreadable,
}
use swaw_kit.Runtime.Tests.Codec.{codec}

abbrev id : Text
id = ascii "r1"

abbrev address : Text
address = ascii "/:dev"

abbrev hello : RunJournalEvent
hello = record {
  sequence = 1;
  timestamp_unix_ms = 7;
  phase = worker_phase;
  payload = output stdout (ascii "hi");
}

abbrev left : StoredRunState
left = new_running_state id address cli 5 0

abbrev orphan : RecoveryIo
orphan = record {
  first = ok left;
  acquired = ok true;
  second = ok left;
  sync = ok tt;
  clock = ok 9;
  publish = ok tt;
}

orphan-Recovers : Recovers orphan left 9
orphan-Recovers = record { first = refl; acquired = refl; second = refl; sync = refl; clock = refl }

left-IsStored : IsStored id address left
unfolding consistent_fields new_running_state
left-IsStored = record { named = refl; placed = refl; consistent = refl }

left_running : left.status ≡ running
unfolding new_running_state
left_running = refl

left_count : left.event_count ≤ 1
unfolding new_running_state
left_count = ground arith

orphan_fits : length (file_of codec id (hello ∷ []) (ascii "{")) ≤ 8388608
orphan_fits = ground arith

read_run-IsRecovery_example : IsRecovery codec orphan id address 0 left 9 (hello ∷ []) 1 (ascii "{")
read_run-IsRecovery_example =
    read_run-IsRecovery codec orphan id address 0 left 9 (hello ∷ []) 1 (ascii "{") (refl, refl)
      (ground arith, tt) orphan_fits left-IsStored left_running left_count orphan-Recovers refl

abbrev fine : AppendIo
fine = record { clock = ok 7; encoded = ok 90; publish = ok tt; write = ok tt; partial = [] }

abbrev full_disk : AppendIo
full_disk = record {
  clock = ok 8;
  encoded = ok 90;
  publish = ok tt;
  write = err (ascii "full");
  partial = ascii "{";
}

abbrev calm : FinishIo
calm = record { sync = ok tt; clock = ok 9; publish = ok tt }

abbrev journal : Writer
journal = new_writer id address cli 5 0

abbrev finished : CommandRun
finished =
    (complete calm (process_exited 0)
      (append_output fine stdout (ascii "hi") (new_run id address journal true))).0

abbrev to_finished : Polling.RunReach (new_run id address journal true) finished
to_finished =
    Polling.next (Polling.next Polling.here (Polling.wrote fine stdout (ascii "hi")))
      (Polling.completed calm (process_exited 0))

abbrev reader : Writer → RecoveryIo
reader w = record {
  first = ok w.published;
  acquired = ok true;
  second = ok w.published;
  sync = ok tt;
  clock = ok 9;
  publish = ok tt;
}

finished_terminal : is_terminal finished.journal.state.status ≡ true
unfolding complete complete_running complete_exited append_output append_journal_event take_answer
    journal_output append append_next append_event append_line finish_exited finish finish_with
    completed_state new_run retain new_writer new_running_state
finished_terminal = refl

finished_fine : finished.journal.write_error ≡ none
unfolding complete complete_running complete_exited append_output append_journal_event take_answer
    journal_output append append_next append_event append_line finish_exited finish finish_with
    completed_state new_run retain new_writer new_running_state
finished_fine = refl

finished_fits : length (file_of codec id finished.journal.events finished.journal.cut) ≤ 8388608
unfolding complete complete_running complete_exited append_output append_journal_event take_answer
    journal_output append append_next append_event append_line finish_exited finish finish_with
    completed_state new_run retain new_writer new_running_state
finished_fits = ground arith

finished_run-IsReadable_example :
    IsReadable codec (reader finished.journal) id address 0 finished.journal
finished_run-IsReadable_example =
    finished_run-IsReadable codec (reader finished.journal) id address cli 5 0 true 0 to_finished
      finished_terminal finished_fine finished_fits refl

abbrev torn : Writer
torn = cut_journal full_disk calm worker_phase (output stdout (ascii "ho")) 0 journal

full_disk-Cuts : Cuts full_disk calm journal 8 90 9 (ascii "full")
unfolding new_writer
full_disk-Cuts = record {
  clock = refl;
  encoded = refl;
  small = ground arith;
  write = refl;
  partial = λ e. ground arith;
  clean = (ground arith, tt);
  finish_clock = refl;
  publish = refl;
}

journal-IsReady : IsReady journal
unfolding new_writer new_running_state
journal-IsReady = (refl, λ whole. refl)

journal_live : is_terminal journal.state.status ≡ false
unfolding new_writer new_running_state
journal_live = refl

journal_whole : journal.state.truncated ≡ false
unfolding new_writer new_running_state
journal_whole = refl

torn_fits : length (file_of codec id torn.events torn.cut) ≤ 8388608
unfolding append append_next append_event append_line finish_exited finish finish_with
    completed_state new_writer new_running_state
torn_fits = ground arith

failed_write-unreadable_example :
    read_run codec.parse (reader torn) id address 0 (file_of codec id torn.events torn.cut)
    ≡ err incomplete_record
failed_write-unreadable_example =
    failed_write-unreadable codec full_disk calm (reader torn) id address worker_phase
      (output stdout (ascii "ho")) 0 0 8 90 9 (ascii "full") journal
      (new_writer-IsClean id address cli 5 0) journal-IsReady journal_live journal_whole
      full_disk-Cuts refl torn_fits
