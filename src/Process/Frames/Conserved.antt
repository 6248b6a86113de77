-- ===== src/Process/Frames/Conserved.antt =====
-- What the decoder reports, together with what it keeps back, is what it has been given.
use mathlib.Core.List.{append_assoc, append-nil}
use swaw_kit.Prelude.{
  joined, ℕ, zero, suc, ◌<◌, ◌≡◌, refl, sym, ap, subst, ◌∙◌, Bool, true, false, Option, none, some,
  List, [], ◌∷◌, ◌++◌, arith, length, Text,
}
use swaw_kit.Process.Frames.{
  ProgressFrame, CapturedCommandEvent, captured_output, captured_progress, Round, breaks, goes_on,
  round, onto_events, drain_within, drain, push_text, onto_all, feed,
}
use swaw_kit.Process.Frames.Pieces.{frame_of}
use swaw_kit.Process.Frames.Rounds.{Tells, silent, told, framed, IsDrained, IsRound, round-IsRound}

module _ (decode : Text → Option ProgressFrame) where
  -- The result of `drain`.
  pub record Drains (eof : Bool) (pending : Text)
      (answer : Option (List CapturedCommandEvent × Text)) : Type 0 where
    pub events : List CapturedCommandEvent
    pub rest : Text
    pub done : answer ≡ some (events, rest)
    pub drained : IsDrained decode eof pending events rest

  Tells-onto :
      {e : CapturedCommandEvent} {es : List CapturedCommandEvent} {s t : Text}
      → Tells decode (e ∷ []) s
      → Tells decode es t
      → Tells decode (e ∷ es) (s ++ t)
  Tells-onto {t = t} (told s silent) h =
      subst (Tells decode _) (sym (append_assoc s [] t)) (told s h)
  Tells-onto {t = t} (framed body p whole silent) h =
      subst (Tells decode _) (sym (append_assoc (frame_of body) [] t)) (framed body p whole h)

  round-Drains :
      (fuel : ℕ) (eof : Bool) (pending : Text)
      → length pending < suc fuel
      → ((rest : Text) → length rest < fuel → Drains eof rest (drain_within decode fuel eof rest))
      → (r : Round) → IsRound decode eof pending r
      → Drains eof pending (elim r [
        | breaks es rest ↦ some (es, rest)
        | goes_on e rest ↦ onto_events decode e (drain_within decode fuel eof rest)
      ])
  unfolding IsRound
  round-Drains fuel eof pending enough again (breaks es rest) h = record {
    events = es;
    rest = rest;
    done = refl;
    drained = h;
  }
  round-Drains fuel eof pending enough again (goes_on e rest) (line, tells, same, less) =
      let later = again rest (omega arith) in
      let d = later.drained in
      record {
        events = e ∷ later.events;
        rest = later.rest;
        done = ap (onto_events decode e) later.done;
        drained = record {
          text = line ++ d.text;
          tells = Tells-onto tells d.tells;
          parts =
              same
              ∙ ap (λ (t : Text). line ++ t) d.parts
              ∙ sym (append_assoc line d.text later.rest);
          bounded = d.bounded;
          ended = d.ended;
        };
      }

  drain_within-Drains :
      (fuel : ℕ) (eof : Bool) (pending : Text)
      → length pending < fuel
      → Drains eof pending (drain_within decode fuel eof pending)
  unfolding drain_within
  drain_within-Drains zero eof pending enough = absurd (ground arith)
  drain_within-Drains (suc fuel) eof pending enough =
      round-Drains fuel eof pending enough (drain_within-Drains fuel eof) (round decode eof pending)
        (round-IsRound decode eof pending)

  -- The loop ends, whatever is pending: the events tell the pending text but for an end of at most
  -- 16 KiB that is kept back, and nothing is kept back at the end of the output.
  pub drain-Drains : (eof : Bool) (pending : Text) → Drains eof pending (drain decode eof pending)
  unfolding drain
  drain-Drains eof pending = drain_within-Drains (suc (length pending)) eof pending (ground arith)

  pub Tells-append :
      {es fs : List CapturedCommandEvent} {s t : Text}
      → Tells decode es s
      → Tells decode fs t
      → Tells decode (es ++ fs) (s ++ t)
  Tells-append silent h = h
  Tells-append {fs = fs} {t = t} (told s {t = r} {es = es} g) h =
      subst (Tells decode (captured_output s ∷ (es ++ fs))) (sym (append_assoc s r t))
        (told s (Tells-append g h))
  Tells-append {fs = fs} {t = t} (framed body p {t = r} {es = es} whole g) h =
      subst (Tells decode (captured_progress p ∷ (es ++ fs)))
        (sym (append_assoc (frame_of body) r t)) (framed body p whole (Tells-append g h))

  pub feed_of_push :
      (chunk : Text) (chunks : List Text) (pending : Text) {es fs : List CapturedCommandEvent}
      {rest last : Text}
      → push_text decode chunk pending ≡ some (es, rest)
      → feed decode chunks rest ≡ some (fs, last)
      → feed decode (chunk ∷ chunks) pending ≡ some (es ++ fs, last)
  unfolding feed
  feed_of_push chunk chunks pending {es} h k =
      ap
        (λ o. elim o [
          | none ↦ none
          | some (fs, rest) ↦ onto_all decode fs (feed decode chunks rest)
        ])
        h
      ∙ ap (onto_all decode es) k

  feed-Tells :
      (chunks : List Text) (pending : Text)
      → (es : List CapturedCommandEvent) × (feed decode chunks pending ≡ some (es, []))
        × Tells decode es (pending ++ joined chunks)
  unfolding feed
  feed-Tells [] pending =
      let h = drain-Drains true pending in
      let d = h.drained in
      let bare : h.rest ≡ [] = d.ended refl in
      (
        h.events,
        h.done ∙ ap (λ (r : Text). some (h.events, r)) bare,
        subst (Tells decode h.events)
            (sym (
              append-nil pending
              ∙ d.parts
              ∙ ap (λ (r : Text). d.text ++ r) bare
              ∙ append-nil d.text))
            d.tells,
      )
  feed-Tells (chunk ∷ chunks) pending =
      let h = drain-Drains false (pending ++ chunk) in
      let d = h.drained in
      let (es, done, tells) = feed-Tells chunks h.rest in
      (
        h.events ++ es,
        feed_of_push chunk chunks pending h.done done,
        subst (Tells decode (h.events ++ es))
            (sym (append_assoc d.text h.rest (joined chunks))
              ∙ ap (λ (t : Text). t ++ joined chunks) (sym d.parts)
              ∙ append_assoc pending chunk (joined chunks))
            (Tells-append d.tells tells),
      )

  -- The decoder reports the events of every output, however it is cut into chunks, and they tell
  -- all of it, in order: an output event its text, and a progress event one whole frame, from the
  -- prefix to the end of its line, that decodes to it.
  pub feed-total :
      (chunks : List Text)
      → (es : List CapturedCommandEvent) × (feed decode chunks [] ≡ some (es, []))
        × Tells decode es (joined chunks)
  feed-total chunks = feed-Tells chunks []
