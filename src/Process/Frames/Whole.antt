-- ===== src/Process/Frames/Whole.antt =====
-- A frame, whatever pieces it arrives in.
use mathlib.Core.List.{append_assoc, append-nil}
use swaw_kit.Prelude.{
  joined, ◌≤◌, ◌≡◌, ◌≢◌, refl, sym, ap, subst, ◌∙◌, false, true, is_empty, Bool-cases, inl, inr,
  Option, some, List, [], ◌∷◌, ◌++◌, arith, length, length-append, Text,
}
use swaw_kit.Runtime.Journal.{CommandProgress}
use swaw_kit.Process.Frames.{
  ProgressFrame, captured_progress, frame_prefix, max_frame_bytes, drain, feed,
}
use swaw_kit.Process.Frames.Split.{
  append-cases, Avoids-before, drain_prefix_start, drain_frame_start, drain_nothing, drain_frame,
}
use swaw_kit.Process.Frames.Conserved.{feed_of_push}
use swaw_kit.Process.Frames.Pieces.{frame_of}
use swaw_kit.Process.Frames.Rounds.{IsFrame}

module _ (decode : Text → Option ProgressFrame) (body : Text) (p : CommandProgress)
    (h : IsFrame decode body p) where
  -- A part of the frame is kept back.
  drain_start :
      (q ys : Text) → q ++ ys ≡ frame_of body → ys ≢ [] → drain decode false q ≡ some ([], q)
  drain_start q ys same more = elim (append-cases q ys frame_prefix (body ++ (b'\n' ∷ [])) same) [
    | inl (r, inside, left) ↦ drain_prefix_start decode q r inside left
    | inr (b, behind, rest) ↦
        let sizes = length-append {0} q ys in
        let fits : length (frame_prefix ++ b) ≤ max_frame_bytes = omega (
          arith,
          h.short,
          sizes,
          ap (λ (t : Text). length t) same,
          ap (λ (t : Text). length t) behind,
        ) in
        subst (λ (t : Text). drain decode false t ≡ some ([], t)) (sym behind)
          (drain_frame_start decode b (Avoids-before b ys body h.one_line rest more) fits)
  ]

  feed_nothing : (chunks : List Text) → joined chunks ≡ [] → feed decode chunks [] ≡ some ([], [])
  unfolding feed
  feed_nothing [] bare = drain_nothing decode true
  feed_nothing ([] ∷ chunks) bare =
      feed_of_push decode [] chunks [] (drain_nothing decode false) (feed_nothing chunks bare)
  feed_nothing ((c ∷ chunk) ∷ chunks) bare = absurd (ground arith)

  feed_started :
      (chunks : List Text) (q : Text)
      → q ++ joined chunks ≡ frame_of body
      → joined chunks ≢ []
      → feed decode chunks q ≡ some (captured_progress p ∷ [], [])
  feed_started [] q same more = absurd (more refl)
  feed_started (chunk ∷ chunks) q same more =
      let onward : (q ++ chunk) ++ joined chunks ≡ frame_of body =
        append_assoc q chunk (joined chunks) ∙ same in
      elim (Bool-cases (is_empty (joined chunks))) [
        | inl over ↦
            let bare : joined chunks ≡ [] = ground arith in
            let whole : q ++ chunk ≡ frame_of body =
              sym (append-nil (q ++ chunk))
              ∙ ap (λ (t : Text). (q ++ chunk) ++ t) (sym bare)
              ∙ onward in
            feed_of_push decode chunk chunks q
              (ap (drain decode false) whole
                ∙ drain_frame decode body p h.one_line h.short h.accepted)
              (feed_nothing chunks bare)
        | inr some_more ↦
            let left : joined chunks ≢ [] = λ e. ground arith in
            feed_of_push decode chunk chunks q
              (drain_start (q ++ chunk) (joined chunks) onward left)
              (feed_started chunks (q ++ chunk) onward left)
      ]

  -- A frame of at most 16 KiB on one line whose payload is accepted is reported as one progress event
  -- and nothing else, whatever pieces the frame arrives in.
  pub feed-frame :
      (chunks : List Text)
      → joined chunks ≡ frame_of body
      → feed decode chunks [] ≡ some (captured_progress p ∷ [], [])
  feed-frame chunks same = feed_started chunks [] same (λ bare. ground (arith, same, bare))
