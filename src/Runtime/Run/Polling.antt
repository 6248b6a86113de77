-- ===== src/Runtime/Run/Polling.antt =====
-- Polling: what a client that asks again from its last cursor receives.
use mathlib.Core.List.{append_assoc, append-nil}
use swaw_kit.Prelude.{
  ℕ, ◌≤◌, ◌<◌, ◌≡◌, refl, sym, ap, ◌∙◌, inl, inr, Bool, false, not, ◌||◌, Bool-cases, Option, none,
  some, List, [], ◌∷◌, ◌++◌, arith, ltb, keep, is_empty, All, All-append, Text, Result, ok, err,
}
use swaw_kit.Runtime.Journal.{
  RunJournalEvent, RunJournalStream, Writer, AppendIo, CommandProgress, FinishIo, worker_phase,
}
use swaw_kit.Runtime.Journal.Invariant.{Chain, Chain-le}
use swaw_kit.Runtime.Journal.Answers.{IsAnswer, journal_output-IsAnswer, append_progress-IsAnswer}
use swaw_kit.Runtime.Run.{
  CommandRun, retain, take_answer, append_journal_event, append_output, append_progress,
  request_cancel, settle_cancel, ProcessOutcome, complete, fail_start, document, new_run,
}
use swaw_kit.Runtime.Run.Shutdown.{
  begin_shutdown_cancel, finish_shutdown_cancel, begin_shutdown_cancel-SameOutput,
  finish_shutdown_cancel-SameOutput,
}
use swaw_kit.Runtime.Run.Invariant
use swaw_kit.Runtime.Run.Invariant.{IsRun, SameOutput}

-- The methods of a run, in any order and with any answers of the outside.
pub data RunStep (run : CommandRun) : CommandRun → Type 0 where
  wrote :
      (io : AppendIo) (stream : RunJournalStream) (text : Text)
      → RunStep run (append_output io stream text run)
  progressed : (io : AppendIo) (p : CommandProgress) → RunStep run (append_progress io p run)
  asked : RunStep run (request_cancel run).0
  answered : (answer : Result Text (Unit {0})) → RunStep run (settle_cancel answer run).0
  shutdown_began : RunStep run (begin_shutdown_cancel run).0
  shutdown_answered :
      (answer : Result Text (Unit {0})) → RunStep run (finish_shutdown_cancel answer run).0
  completed : (io : FinishIo) (outcome : ProcessOutcome) → RunStep run (complete io outcome run).0
  start_refused : (io : FinishIo) (message : Text) → RunStep run (fail_start io message run)

pub data RunReach (run : CommandRun) : CommandRun → Type 0 where
  here : RunReach run run
  next : {r s : CommandRun} → RunReach run r → RunStep r s → RunReach run s

RunStep-IsRun : {r s : CommandRun} → RunStep r s → IsRun r → IsRun s
RunStep-IsRun {r} (wrote io stream text) v = Invariant.append_output-IsRun io stream text r v
RunStep-IsRun {r} (progressed io p) v = Invariant.append_progress-IsRun io p r v
RunStep-IsRun {r} asked v = Invariant.SameOutput-IsRun (Invariant.request_cancel-SameOutput r) v
RunStep-IsRun {r} (answered a) v =
    Invariant.SameOutput-IsRun (Invariant.settle_cancel-SameOutput a r) v
RunStep-IsRun {r} shutdown_began v =
    Invariant.SameOutput-IsRun (begin_shutdown_cancel-SameOutput r) v
RunStep-IsRun {r} (shutdown_answered a) v =
    Invariant.SameOutput-IsRun (finish_shutdown_cancel-SameOutput a r) v
RunStep-IsRun {r} (completed io outcome) v =
    Invariant.SameOutput-IsRun (Invariant.complete-SameOutput io outcome r) v
RunStep-IsRun {r} (start_refused io m) v =
    Invariant.SameOutput-IsRun (Invariant.fail_start-SameOutput io m r) v

pub RunReach-IsRun : {r s : CommandRun} → IsRun r → RunReach r s → IsRun s
RunReach-IsRun v here = v
RunReach-IsRun v (next r s) = RunStep-IsRun s (RunReach-IsRun v r)

-- The later state has the same events and some more, all behind the earlier cursor; if it was
-- never truncated, neither was the earlier one.
pub record Extends (r s : CommandRun) : Type 0 where
  pub more : List RunJournalEvent
  pub grown : s.state.events ≡ r.state.events ++ more
  pub fresh : All (λ e. r.state.next_cursor < e.sequence) more
  pub whole : r.state.truncated ≡ false
  pub later : r.state.next_cursor ≤ s.state.next_cursor

Extends-refl : (r : CommandRun) → r.state.truncated ≡ false → Extends r r
Extends-refl r t = record {
  more = [];
  grown = sym (append-nil _);
  fresh = tt;
  whole = t;
  later = omega arith;
}

SameOutput-Extends : {r s : CommandRun} → SameOutput r s → s.state.truncated ≡ false → Extends r s
SameOutput-Extends o t = record {
  more = [];
  grown = o.events ∙ sym (append-nil _);
  fresh = tt;
  whole = ground arith;
  later = omega (arith, o.cursor);
}

take_answer-Extends :
    (run : CommandRun) (journal : Writer) (answer : Result Text (Option RunJournalEvent))
    → IsRun run
    → IsAnswer run.journal (journal, answer)
    → (take_answer (journal, answer) run).state.truncated ≡ false
    → Extends run (take_answer (journal, answer) run)
unfolding take_answer retain
take_answer-Extends run journal (ok (some event)) v a t =
    let trimmed = Invariant.retain-IsTrimmed event run.state v.counted in
    let (number, _) = a.numbered event refl in
    let all_kept = kept_all trimmed.gone trimmed.parts (sym trimmed.flag ∙ t) in
    record {
      more = event ∷ [];
      grown = all_kept;
      fresh = (omega (arith, v.behind), tt);
      whole = ground (arith, trimmed.flag);
      later = omega (arith, v.behind);
    }
  where
    kept_all :
        {es kept : List RunJournalEvent} (gone : List RunJournalEvent)
        → es ≡ gone ++ kept
        → (run.state.truncated || not (is_empty gone)) ≡ false
        → kept ≡ es
    kept_all [] p q = sym p
    kept_all (g ∷ gs) p q = absurd (ground arith)
take_answer-Extends run journal (ok none) v a t = record {
  more = [];
  grown = sym (append-nil _);
  fresh = tt;
  whole = t;
  later = omega arith;
}
take_answer-Extends run journal (err e) v a t = record {
  more = [];
  grown = sym (append-nil _);
  fresh = tt;
  whole = t;
  later = omega arith;
}

append_journal_event-Extends :
    (call : Writer → Writer × Result Text (Option RunJournalEvent)) (run : CommandRun)
    → IsRun run
    → IsAnswer run.journal (call run.journal)
    → (append_journal_event call run).state.truncated ≡ false
    → Extends run (append_journal_event call run)
append_journal_event-Extends call run v a t = elim (Invariant.append_journal_event-cases call run) [
  | inl same ↦ rw same (Extends-refl run (rw same at t))
  | inr (taken, _) ↦
      rw taken
        (take_answer-Extends run (call run.journal).0 (call run.journal).1 v a (rw taken at t))
]

append_output-Extends :
    (io : AppendIo) (stream : RunJournalStream) (text : Text) (run : CommandRun)
    → IsRun run
    → (append_output io stream text run).state.truncated ≡ false
    → Extends run (append_output io stream text run)
unfolding append_output
append_output-Extends io stream text run v t = elim (Bool-cases (is_empty text)) [
  | inl nothing ↦ rw nothing (Extends-refl run (rw nothing at t))
  | inr more ↦ rw more (
      append_journal_event-Extends _ run v
        (journal_output-IsAnswer io worker_phase stream text run.journal) (rw more at t))
]

append_progress-Extends :
    (io : AppendIo) (p : CommandProgress) (run : CommandRun)
    → IsRun run
    → (append_progress io p run).state.truncated ≡ false
    → Extends run (append_progress io p run)
unfolding append_progress
append_progress-Extends io p run v t =
    append_journal_event-Extends _ run v (append_progress-IsAnswer io worker_phase p run.journal) t

RunStep-Extends :
    {r s : CommandRun} → RunStep r s → IsRun r → s.state.truncated ≡ false → Extends r s
RunStep-Extends {r} (wrote io stream text) v t = append_output-Extends io stream text r v t
RunStep-Extends {r} (progressed io p) v t = append_progress-Extends io p r v t
RunStep-Extends {r} asked v t = SameOutput-Extends (Invariant.request_cancel-SameOutput r) t
RunStep-Extends {r} (answered a) v t = SameOutput-Extends (Invariant.settle_cancel-SameOutput a r) t
RunStep-Extends {r} shutdown_began v t = SameOutput-Extends (begin_shutdown_cancel-SameOutput r) t
RunStep-Extends {r} (shutdown_answered a) v t =
    SameOutput-Extends (finish_shutdown_cancel-SameOutput a r) t
RunStep-Extends {r} (completed io o) v t =
    SameOutput-Extends (Invariant.complete-SameOutput io o r) t
RunStep-Extends {r} (start_refused io m) v t =
    SameOutput-Extends (Invariant.fail_start-SameOutput io m r) t

fresh_from :
    {a b : ℕ} (es : List RunJournalEvent)
    → a ≤ b
    → All (λ e. b < e.sequence) es
    → All (λ e. a < e.sequence) es
fresh_from [] h k = tt
fresh_from (e ∷ es) h (p, k) = (omega arith, fresh_from es h k)

Extends-trans : {r s t : CommandRun} → Extends r s → Extends s t → Extends r t
Extends-trans {r} p q = record {
  more = p.more ++ q.more;
  grown =
      q.grown
      ∙ ap (λ (l : List RunJournalEvent). l ++ q.more) p.grown
      ∙ append_assoc r.state.events p.more q.more;
  fresh =
      All-append (λ e. r.state.next_cursor < e.sequence) p.more q.more p.fresh
        (fresh_from q.more p.later q.fresh);
  whole = p.whole;
  later = omega (arith, p.later, q.later);
}

RunReach-Extends :
    {r s : CommandRun} → IsRun r → RunReach r s → s.state.truncated ≡ false → Extends r s
RunReach-Extends {r} v here t = Extends-refl r t
RunReach-Extends v (next before step) t =
    let last = RunStep-Extends step (RunReach-IsRun v before) t in
    Extends-trans (RunReach-Extends v before last.whole) last

keep_old :
    (cursor first : ℕ) (es more : List RunJournalEvent)
    → Chain first es cursor
    → keep (λ e. ltb cursor e.sequence) (es ++ more) ≡ keep (λ e. ltb cursor e.sequence) more
keep_old cursor first [] more h = refl
keep_old cursor first (e ∷ es) more (_, h) =
    ground (arith, Chain-le e.sequence es cursor h, keep_old cursor e.sequence es more h)

keep_fresh :
    (cursor : ℕ) (more : List RunJournalEvent)
    → All (λ e. cursor < e.sequence) more
    → keep (λ e. ltb cursor e.sequence) more ≡ more
keep_fresh cursor [] h = refl
keep_fresh cursor (e ∷ more) (p, h) = ground (arith, keep_fresh cursor more h)

-- A client that has read a run and asks again from the cursor that it was given receives exactly
-- the events that were added since, in their order, however the run went on in between; unless
-- output was dropped by then, which `truncated` reports.
pub poll_complete :
    (r s : CommandRun)
    → IsRun r
    → RunReach r s
    → s.state.truncated ≡ false
    → s.state.events ≡ r.state.events ++ (document s r.state.next_cursor).events
unfolding document
poll_complete r s v reach t =
    let e = RunReach-Extends v reach t in
    e.grown
    ∙ ap (λ (l : List RunJournalEvent). r.state.events ++ l)
        (sym (
          ap (keep (λ event. ltb r.state.next_cursor event.sequence)) e.grown
          ∙ keep_old r.state.next_cursor v.first r.state.events e.more v.chain
          ∙ keep_fresh r.state.next_cursor e.more e.fresh))

-- From its creation on, a run keeps at most 1 MiB and 4096 events of output, counts them exactly,
-- and its events follow one another up to the cursor.
pub IsRun-of_RunReach :
    (id address : Text) (journal : Writer) (cancelable : Bool) (run : CommandRun)
    → RunReach (new_run id address journal cancelable) run
    → IsRun run
IsRun-of_RunReach id address journal cancelable run reach =
    RunReach-IsRun (Invariant.new_run-IsRun id address journal cancelable) reach
