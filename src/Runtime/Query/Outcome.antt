-- ===== src/Runtime/Query/Outcome.antt =====
-- What a query returns, by the events that its process gave the observer.
use mathlib.Core.List.{append_assoc, append-nil}
use swaw_kit.Prelude.{
  ℕ, ◌+◌, ◌≤◌, ◌≡◌, refl, sym, ap, ◌∙◌, ◌≢◌, ◌↔◌, ◌⊎◌, inl, inr, Bool, Bool-cases, none, some, List,
  [], ◌∷◌, ◌++◌, arith, ltb, length, length-append, Text, ascii, ok,
}
use swaw_kit.Runtime.Journal.{RunJournalStream, stdout, stderr}
use swaw_kit.Runtime.Run.{ProcessOutcome, process_exited, process_failed}
use swaw_kit.Runtime.Query.{
  QueryState, new_query, reject, push, observe_output, observe_progress, observe_completed,
  wait_answer, RuntimeQueryOutput, query_output, query_result,
}

-- What the process does before it ends.
pub data QueryEvent : Type 0 where
  wrote : RunJournalStream → Text → QueryEvent
  progressed : QueryEvent

abbrev observe : QueryEvent → QueryState → QueryState
observe (wrote stream text) s = observe_output stream text s
observe progressed s = observe_progress s

abbrev pub observe_all : List QueryEvent → QueryState → QueryState
observe_all [] s = s
observe_all (e ∷ es) s = observe_all es (observe e s)

-- The output of the process, as the events carry it.
abbrev pub written : List QueryEvent → Text
written [] = []
written (wrote stdout text ∷ es) = text ++ written es
written (wrote stderr text ∷ es) = written es
written (progressed ∷ es) = written es

-- No event is a progress, and none writes to stderr.
abbrev pub IsQuiet : List QueryEvent → Type 0
IsQuiet [] = Unit
IsQuiet (wrote stdout text ∷ es) = IsQuiet es
IsQuiet (wrote stderr text ∷ es) = (text ≡ []) × IsQuiet es
IsQuiet (progressed ∷ es) = ⊥

-- A query on its way: nothing rejected, nothing on stderr, the bytes counted and within the limit.
record IsOpen (s : QueryState) : Type 0 where
  calm : s.rejection ≡ none
  live : s.outcome ≡ none
  silent : s.stderr_text ≡ []
  counted : s.output_bytes ≡ length s.stdout_text
  within : s.output_bytes ≤ s.limit

record IsShut (s : QueryState) : Type 0 where
  error : Text
  shut : s.rejection ≡ some error

observe-IsShut : (e : QueryEvent) (s : QueryState) → IsShut s → IsShut (observe e s)
unfolding observe_output observe_progress reject
observe-IsShut (wrote stdout text) s h = record { error = h.error; shut = ground (arith, h.shut) }
observe-IsShut (wrote stderr text) s h = record { error = h.error; shut = ground (arith, h.shut) }
observe-IsShut progressed s h = record { error = h.error; shut = ground (arith, h.shut) }

observe_all-IsShut : (es : List QueryEvent) (s : QueryState) → IsShut s → IsShut (observe_all es s)
observe_all-IsShut [] s h = h
observe_all-IsShut (e ∷ es) s h = observe_all-IsShut es (observe e s) (observe-IsShut e s h)

-- The output fits: nothing is lost.
abbrev Fits : List QueryEvent → QueryState → Type 0
Fits es s = length s.stdout_text + length (written es) ≤ s.limit

record Kept (es : List QueryEvent) (s t : QueryState) : Type 0 where
  quiet : IsQuiet es
  fits : Fits es s
  ready : IsOpen t
  whole : t.stdout_text ≡ s.stdout_text ++ written es
  same : t.limit ≡ s.limit

record Lost (es : List QueryEvent) (s t : QueryState) : Type 0 where
  shut : IsShut t
  why : IsQuiet es → Fits es s → ⊥

write_stdout :
    (text : Text) (s : QueryState)
    → IsOpen s
    → Kept (wrote stdout text ∷ []) s (observe_output stdout text s)
      ⊎ (IsShut (observe_output stdout text s) × (s.limit + 1 ≤ length s.stdout_text + length text))
unfolding observe_output reject
write_stdout [] s o = inl (record {
  quiet = tt;
  fits = omega (arith, o.counted, o.within);
  ready = o;
  whole = sym (append-nil s.stdout_text);
  same = refl;
})
write_stdout (c ∷ text) s o = elim (Bool-cases (ltb s.limit (s.output_bytes + length (c ∷ text)))) [
  | inl big ↦ inr (
    record {
      error = ascii "facet query output exceeded the byte limit";
      shut = ground (arith, o.calm, o.live);
    },
    ground (arith, o.counted),
  )
  | inr small ↦
      let next : observe_output stdout (c ∷ text) s ≡ push stdout (c ∷ text) s =
        ground (arith, o.calm) in
      rw next (
        inl (record {
          quiet = tt;
          fits = ground (arith, o.counted, append-nil text);
          ready = record {
            calm = o.calm;
            live = o.live;
            silent = o.silent;
            counted = omega (arith, o.counted, length-append {0} s.stdout_text (c ∷ text));
            within = ground arith;
          };
          whole = ap (λ (t : Text). s.stdout_text ++ c ∷ t) (sym (append-nil text));
          same = refl;
        }))
]

write_stderr :
    (c : ℕ) (text : Text) (s : QueryState) → IsOpen s → IsShut (observe_output stderr (c ∷ text) s)
unfolding observe_output reject
write_stderr c text s o = elim (Bool-cases (ltb s.limit (s.output_bytes + length (c ∷ text)))) [
  | inl big ↦ record {
    error = ascii "facet query output exceeded the byte limit";
    shut = ground (arith, o.calm, o.live);
  }
  | inr small ↦ record {
    error = ascii "facet query wrote to stderr";
    shut = ground (arith, o.calm, o.live);
  }
]

abbrev Observed : List QueryEvent → QueryState → QueryState → Type 0
Observed es s t = Kept es s t ⊎ Lost es s t

shut-Lost :
    (e : QueryEvent) (es : List QueryEvent) (s : QueryState)
    → IsShut (observe e s)
    → (IsQuiet (e ∷ es) → Fits (e ∷ es) s → ⊥)
    → Observed (e ∷ es) s (observe_all es (observe e s))
shut-Lost e es s h why = inr (record { shut = observe_all-IsShut es (observe e s) h; why = why })

Kept-Observed :
    (text : Text) (es : List QueryEvent) (s u t : QueryState)
    → Kept (wrote stdout text ∷ []) s u
    → Observed es u t
    → Observed (wrote stdout text ∷ es) s t
Kept-Observed text es s u t k (inl more) =
    let first : u.stdout_text ≡ s.stdout_text ++ text =
      k.whole ∙ ap (λ (l : Text). s.stdout_text ++ l) (append-nil text) in
    let size : length u.stdout_text ≡ length s.stdout_text + length text =
      ap (λ (l : Text). length l) first ∙ length-append {0} s.stdout_text text in
    inl (record {
      quiet = more.quiet;
      fits = omega (arith, more.fits, size, k.same, length-append {0} text (written es));
      ready = more.ready;
      whole =
          more.whole
          ∙ ap (λ (l : Text). l ++ written es) first
          ∙ append_assoc s.stdout_text text (written es);
      same = more.same ∙ k.same;
    })
Kept-Observed text es s u t k (inr lost) =
    let first : u.stdout_text ≡ s.stdout_text ++ text =
      k.whole ∙ ap (λ (l : Text). s.stdout_text ++ l) (append-nil text) in
    let size : length u.stdout_text ≡ length s.stdout_text + length text =
      ap (λ (l : Text). length l) first ∙ length-append {0} s.stdout_text text in
    inr (record {
      shut = lost.shut;
      why = λ q f. lost.why q (omega (arith, f, size, k.same, length-append {0} text (written es)));
    })

observe_all-Observed :
    (es : List QueryEvent) (s : QueryState) → IsOpen s → Observed es s (observe_all es s)
unfolding observe_progress
observe_all-Observed [] s o = inl (record {
  quiet = tt;
  fits = omega (arith, o.counted, o.within);
  ready = o;
  whole = sym (append-nil s.stdout_text);
  same = refl;
})
observe_all-Observed (wrote stdout text ∷ es) s o = elim (write_stdout text s o) [
  | inl k ↦ Kept-Observed text es s _ _ k (observe_all-Observed es _ k.ready)
  | inr (h, big) ↦
      shut-Lost (wrote stdout text) es s h
        (λ _ f. omega (arith, f, big, length-append {0} text (written es)))
]
observe_all-Observed (wrote stderr [] ∷ es) s o =
    let same : observe_output stderr [] s ≡ s = unfold observe_output in refl in
    rw same (elim (observe_all-Observed es s o) [
      | inl k ↦ inl (record {
        quiet = (refl, k.quiet);
        fits = k.fits;
        ready = k.ready;
        whole = k.whole;
        same = k.same;
      })
      | inr l ↦ inr (record { shut = l.shut; why = λ q f. l.why q.1 f })
    ])
observe_all-Observed (wrote stderr (c ∷ text) ∷ es) s o =
    shut-Lost (wrote stderr (c ∷ text)) es s (write_stderr c text s o)
      (λ q f. absurd (ground arith))
observe_all-Observed (progressed ∷ es) s o =
    shut-Lost progressed es s
      (record {
        error = ascii "facet query emitted a progress event";
        shut = unfold reject in ground (arith, o.calm, o.live);
      })
      (λ q f. q)

new_query-IsOpen : (limit : ℕ) → IsOpen (new_query limit)
new_query-IsOpen limit = record {
  calm = refl;
  live = refl;
  silent = refl;
  counted = refl;
  within = omega arith;
}

-- The query of a process that gives the observer these events and then ends in this way.
abbrev pub ran : ℕ → List QueryEvent → ProcessOutcome → QueryState
ran limit es outcome = observe_completed outcome (observe_all es (new_query limit))

open_result :
    (s : QueryState) (late : Bool) (outcome : ProcessOutcome) (out : RuntimeQueryOutput)
    → IsOpen s
    → (query_result
          (wait_answer late (observe_completed outcome s))
          (ok tt)
          (observe_completed outcome s)
        ≡ ok out)
      ↔ ((outcome ≡ process_exited out.exit_code) × (out.text ≡ s.stdout_text))
unfolding query_result query_output wait_answer observe_completed
open_result s late (process_failed e) out o =
    (λ h. ground (arith, o.calm, o.live), λ h. ground (arith, o.calm, o.live))
open_result s late (process_exited c) out o =
    (λ h. ground (arith, o.calm, o.live, o.silent), λ h. ground (arith, o.calm, o.live, o.silent))

shut_result :
    (s : QueryState) (late : Bool) (outcome : ProcessOutcome) (out : RuntimeQueryOutput)
    → IsShut s
    → query_result
        (wait_answer late (observe_completed outcome s))
        (ok tt)
        (observe_completed outcome s)
      ≢ ok out
unfolding query_result wait_answer observe_completed
shut_result s late outcome out h e = ground (arith, h.shut)

-- A query whose process ended before the timeout, with nothing behind its end, returns a result
-- exactly when the process exited and before that wrote at most the limit, all of it to stdout,
-- and reported no progress; the result is its exit code and the whole of what it wrote.
pub query_result_iff :
    (limit : ℕ) (es : List QueryEvent) (outcome : ProcessOutcome) (late : Bool)
    (out : RuntimeQueryOutput)
    → (query_result (wait_answer late (ran limit es outcome)) (ok tt) (ran limit es outcome)
        ≡ ok out)
      ↔ ((outcome ≡ process_exited out.exit_code)
          × (out.text ≡ written es)
          × IsQuiet es
          × (length (written es) ≤ limit))
query_result_iff limit es outcome late out =
    elim (observe_all-Observed es (new_query limit) (new_query-IsOpen limit)) [
      | inl k ↦
          let (there, back) = open_result _ late outcome out k.ready in
          (
            λ h.
                let (exits, text) = there h in
                (exits, text ∙ k.whole, k.quiet, omega (arith, k.fits)),
            λ (exits, text, _, _). back (exits, text ∙ sym k.whole),
          )
      | inr l ↦ (
        λ h. absurd (shut_result _ late outcome out l.shut h),
        λ (_, _, quiet, fits). absurd (l.why quiet (omega (arith, fits))),
      )
    ]
