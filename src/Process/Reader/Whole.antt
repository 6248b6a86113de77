-- ===== src/Process/Reader/Whole.antt =====
-- What the reader dispatches of a whole output.
use mathlib.Core.List.{append_assoc, append-nil}
use swaw_kit.Prelude.{
  ◌≡◌, refl, sym, ap, subst, ◌∙◌, true, false, Option, none, some, List, [], ◌∷◌, ◌++◌, Text, ok,
  joined,
}
use swaw_kit.Process.Frames.{ProgressFrame, CapturedCommandEvent, finish_text}
use swaw_kit.Process.Frames.Rounds.{Tells, silent}
use swaw_kit.Process.Frames.Conserved.{drain-Drains, Tells-append}
use swaw_kit.Process.Utf8.{from_utf8_lossy, then_some_text}
use swaw_kit.Process.Utf8.Chunks.{decode-Decodes, decode_end-eq}
use swaw_kit.Process.Reader.{
  Dispatched, onto_dispatched, push_some, finished, read_end, read_output,
}

module _ (parse : Text → Option ProgressFrame) where
  -- The events that a text gives, and the text that the frame decoder keeps back.
  record Pushes (text frames : Text) (answer : Option (List CapturedCommandEvent × Text))
      : Type 0 where
    events : List CapturedCommandEvent
    rest : Text
    done : answer ≡ some (events, rest)
    said : Text
    tells : Tells parse events said
    parts : frames ++ text ≡ said ++ rest

  push_some-Pushes :
      (text frames : Text) → Pushes text frames (push_some parse (then_some_text text) frames)
  unfolding push_some
  push_some-Pushes [] frames = record {
    events = [];
    rest = frames;
    done = refl;
    said = [];
    tells = silent;
    parts = append-nil frames;
  }
  push_some-Pushes (c ∷ text) frames =
      let h = drain-Drains parse false (frames ++ (c ∷ text)) in
      record {
        events = h.events;
        rest = h.rest;
        done = h.done;
        said = h.drained.text;
        tells = h.drained.tells;
        parts = h.drained.parts;
      }

  pub record IsDispatched (text : Text) (answer : Dispatched) : Type 0 where
    pub events : List CapturedCommandEvent
    pub done : answer ≡ some (events, ok tt)
    pub tells : Tells parse events text

  after_push :
      (text frames more : Text) (next : Text → Dispatched)
      {answer : Option (List CapturedCommandEvent × Text)}
      → Pushes text frames answer
      → ((rest : Text) → IsDispatched (rest ++ more) (next rest))
      → IsDispatched
          (frames ++ (text ++ more))
          (elim answer [ none ↦ none | some (es, rest) ↦ onto_dispatched es (next rest) ])
  after_push text frames more next p h =
      let later = h p.rest in
      record {
        events = p.events ++ later.events;
        done =
            ap (λ o. elim o [ none ↦ none | some (es, rest) ↦ onto_dispatched es (next rest) ])
              p.done
            ∙ ap (onto_dispatched p.events) later.done;
        tells =
            subst (Tells parse (p.events ++ later.events))
              (sym (append_assoc p.said p.rest more)
                ∙ ap (λ (t : Text). t ++ more) (sym p.parts)
                ∙ append_assoc frames text more)
              (Tells-append parse p.tells later.tells);
      }

  finished-IsDispatched :
      (rest : Text) → IsDispatched (rest ++ []) (finished parse (finish_text parse rest))
  finished-IsDispatched rest =
      let h = drain-Drains parse true rest in
      record {
        events = h.events;
        done = ap (finished parse) h.done;
        tells =
            subst (Tells parse h.events)
              (sym (append-nil h.drained.text)
                ∙ ap (λ (t : Text). h.drained.text ++ t) (sym (h.drained.ended refl))
                ∙ sym h.drained.parts
                ∙ sym (append-nil rest))
              h.drained.tells;
      }

  read_output-IsDispatched :
      (reads : List Text) (pending frames : Text)
      → IsDispatched
          (frames ++ from_utf8_lossy (pending ++ joined reads))
          (read_output parse reads (ok tt) pending frames)
  unfolding read_output read_end
  read_output-IsDispatched [] pending frames =
      let text = from_utf8_lossy pending in
      subst
        (λ (o : Option (Option Text × Text)).
          IsDispatched (frames ++ from_utf8_lossy (pending ++ [])) (elim o [
            | none ↦ none
            | some (text, _) ↦ elim (push_some parse text frames) [
              | none ↦ none
              | some (es, rest) ↦ onto_dispatched es (finished parse (finish_text parse rest))
            ]
          ]))
        (sym (decode_end-eq pending))
        (subst
          (λ (t : Text).
            IsDispatched (frames ++ t) (elim (push_some parse (then_some_text text) frames) [
              | none ↦ none
              | some (es, rest) ↦ onto_dispatched es (finished parse (finish_text parse rest))
            ]))
          (append-nil text ∙ ap from_utf8_lossy (sym (append-nil pending)))
          (after_push text frames [] (λ rest. finished parse (finish_text parse rest))
            (push_some-Pushes text frames) finished-IsDispatched))
  read_output-IsDispatched (bytes ∷ reads) pending frames =
      let (d, done) = decode-Decodes pending bytes in
      subst
        (λ (o : Option (Option Text × Text)).
          IsDispatched (frames ++ from_utf8_lossy (pending ++ (bytes ++ joined reads))) (elim o [
            | none ↦ none
            | some (text, pending) ↦ elim (push_some parse text frames) [
              | none ↦ none
              | some (es, frames) ↦
                  onto_dispatched es (read_output parse reads (ok tt) pending frames)
            ]
          ]))
        (sym done)
        (subst
          (λ (t : Text).
            IsDispatched (frames ++ t) (elim (push_some parse (then_some_text d.text) frames) [
              | none ↦ none
              | some (es, rest) ↦
                  onto_dispatched es (read_output parse reads (ok tt) d.pending rest)
            ]))
          (sym (d.decoded.told (joined reads))
            ∙ ap from_utf8_lossy (append_assoc pending bytes (joined reads)))
          (after_push d.text frames (from_utf8_lossy (d.pending ++ joined reads))
            (λ rest. read_output parse reads (ok tt) d.pending rest)
            (push_some-Pushes d.text frames) (read_output-IsDispatched reads d.pending)))

  -- Whatever pieces the output of a process arrives in, the reader of its pipe returns, and the events
  -- that it dispatches tell, in order, the lossy decoding of the whole output: an output event its
  -- text, and a progress event one whole frame that decodes to it.
  pub read_output-whole :
      (reads : List Text)
      → IsDispatched (from_utf8_lossy (joined reads)) (read_output parse reads (ok tt) [] [])
  read_output-whole reads = read_output-IsDispatched reads [] []
