-- ===== src/Process/Frames/Rounds.antt =====
-- One round of the decoder's loop.
use mathlib.Core.List.{append-nil}
use swaw_kit.Prelude.{
  Avoids, ◌∙◌, ◌-◌, ◌≤◌, ◌<◌, ◌≡◌, refl, sym, ap, subst, Bool, true, false, Bool-cases, inl, inr,
  Option, none, some, List, [], ◌∷◌, ◌++◌, arith, ltb, ◌||◌, length, length-append, if◌then◌else◌,
  Text,
}
use swaw_kit.Runtime.Journal.{CommandProgress}
use swaw_kit.Process.Frames.{
  ProgressFrame, parse_progress, CapturedCommandEvent, captured_output, captured_progress,
  take_first, drop_first, find_frame, find_line, starts_frame, frame_prefix, max_frame_bytes,
  trim_line_end, Round, breaks, goes_on, output_of, payload_event, line_event, unfinished_round,
  frame_round, plain_round, found_round, round, matching_prefix_suffix,
}
use swaw_kit.Process.Frames.Pieces.{
  take_first-drop_first, length-drop_first, drop_first_all, Cut, uncut, cut, AtFrame, BehindFrame,
  find_line-frame, frame_of, find_frame-Cut, matching_prefix_suffix-le,
}

-- A frame of at most 16 KiB on one line, whose payload is accepted.
pub record IsFrame (decode : Text → Option ProgressFrame) (body : Text) (p : CommandProgress)
    : Type 0 where
  pub one_line : Avoids b'\n' body
  pub short : length (frame_of body) ≤ max_frame_bytes
  pub accepted : parse_progress decode (trim_line_end (body ++ (b'\n' ∷ []))) ≡ some p

module _ (decode : Text → Option ProgressFrame) where
  -- The events tell the text: each output tells itself, and a progress a frame that encodes it.
  pub data Tells : List CapturedCommandEvent → Text → Type 0 where
    silent : Tells [] []
    told :
        (s : Text) {t : Text} {es : List CapturedCommandEvent}
        → Tells es t
        → Tells (captured_output s ∷ es) (s ++ t)
    framed :
        (body : Text) (p : CommandProgress) {t : Text} {es : List CapturedCommandEvent}
        → IsFrame decode body p
        → Tells es t
        → Tells (captured_progress p ∷ es) (frame_of body ++ t)

  -- The events are told of the front of the pending text, and the rest is kept back.
  pub record IsDrained (eof : Bool) (pending : Text) (es : List CapturedCommandEvent) (rest : Text)
      : Type 0 where
    pub text : Text
    pub tells : Tells es text
    pub parts : pending ≡ text ++ rest
    pub bounded : length rest ≤ max_frame_bytes
    pub ended : eof ≡ true → rest ≡ []

  unfoldable pub IsRound : Bool → Text → Round → Type 0
  IsRound eof pending (breaks es rest) = IsDrained eof pending es rest
  IsRound eof pending (goes_on e rest) =
      (line : Text) × Tells (e ∷ []) line
      × (pending ≡ line ++ rest)
      × (length rest < length pending)

  told_one : (s : Text) → Tells (captured_output s ∷ []) s
  told_one s = subst (Tells (captured_output s ∷ [])) (append-nil s) (told s silent)

  output_of-Tells : (s : Text) → Tells (output_of s) s
  output_of-Tells [] = silent
  output_of-Tells (c ∷ s) = told_one (c ∷ s)

  line_event-Tells :
      (body : Text)
      → Avoids b'\n' body
      → Tells (line_event decode (frame_of body) ∷ []) (frame_of body)
  unfolding line_event
  line_event-Tells body one = elim (Bool-cases (ltb max_frame_bytes (length (frame_of body)))) [
    | inl long ↦ simp long (told_one (frame_of body))
    | inr short ↦ simp short (
        by_payload short (parse_progress decode (trim_line_end (drop_first 18 (frame_of body))))
          refl)
  ]
    where
      by_payload :
          ltb max_frame_bytes (length (frame_of body)) ≡ false
          → (o : Option CommandProgress)
          → parse_progress decode (trim_line_end (drop_first 18 (frame_of body))) ≡ o
          → Tells (payload_event decode (frame_of body) o ∷ []) (frame_of body)
      by_payload short none h = told_one (frame_of body)
      by_payload short (some p) h =
          let payload : drop_first 18 (frame_of body) ≡ body ++ (b'\n' ∷ []) =
            unfold drop_first in refl in
          let whole : IsFrame decode body p = record {
            one_line = one;
            short = ground arith;
            accepted = ap (λ t. parse_progress decode (trim_line_end t)) (sym payload) ∙ h;
          } in
          subst (Tells (captured_progress p ∷ [])) (append-nil (frame_of body))
            (framed body p whole silent)

  unfinished_round-IsRound :
      (eof : Bool) (pending : Text) → IsRound eof pending (unfinished_round decode eof pending)
  unfolding IsRound
  unfinished_round-IsRound eof pending =
      elim (Bool-cases (eof || ltb max_frame_bytes (length pending))) [
        | inl over ↦ rw over (record {
          text = pending;
          tells = told_one pending;
          parts = sym (append-nil pending);
          bounded = ground arith;
          ended = λ _. refl;
        })
        | inr more ↦ rw more (record {
          text = [];
          tells = silent;
          parts = refl;
          bounded = ground arith;
          ended = λ e. absurd (ground arith);
        })
      ]

  frame_round-IsRound :
      (eof : Bool) (pending : Text)
      → starts_frame pending ≡ true
      → IsRound eof pending (frame_round decode eof pending)
  unfolding IsRound frame_round
  frame_round-IsRound eof pending start =
      by_line (find_line pending) (find_line-frame pending start)
    where
      by_line :
          (o : Option (Text × Text))
          → Cut BehindFrame pending o
          → IsRound eof pending (elim o [
            | none ↦ unfinished_round decode eof pending
            | some (line, rest) ↦ goes_on (line_event decode line) rest
          ])
      by_line none uncut = unfinished_round-IsRound eof pending
      by_line (some _) (cut line rest same (body, shape, one)) = (
        line,
        subst (λ (l : Text). Tells (line_event decode l ∷ []) l) (sym shape)
            (line_event-Tells body one),
        same,
        omega (
          arith,
          ap (λ (t : Text). length t) shape,
          ap (λ (t : Text). length t) same,
          length-append {0} line rest,
        ),
      )

  plain_round-IsRound :
      (eof : Bool) (pending : Text) → IsRound eof pending (plain_round decode eof pending)
  unfolding IsRound plain_round
  plain_round-IsRound eof pending =
      let retained = if eof then 0 else matching_prefix_suffix pending frame_prefix in
      let size = length-drop_first (length pending - retained) pending in
      let few = matching_prefix_suffix-le pending in
      record {
        text = take_first (length pending - retained) pending;
        tells = output_of-Tells _;
        parts = sym (take_first-drop_first (length pending - retained) pending);
        bounded = ground (arith, size, few);
        ended = λ e. ground (arith, e, drop_first_all pending);
      }

  pub round-IsRound : (eof : Bool) (pending : Text) → IsRound eof pending (round decode eof pending)
  unfolding IsRound round
  round-IsRound eof pending = by_frame (find_frame pending) (find_frame-Cut pending)
    where
      by_frame :
          (o : Option (Text × Text))
          → Cut AtFrame pending o
          → IsRound eof pending (elim o [
            | none ↦ plain_round decode eof pending
            | some found ↦ found_round decode eof pending found
          ])
      by_frame none uncut = plain_round-IsRound eof pending
      by_frame (some _) (cut [] rest same at) =
          frame_round-IsRound eof pending
            (subst (λ (t : Text). starts_frame t ≡ true) (sym same) at.0)
      by_frame (some _) (cut (c ∷ before) rest same at) = (
        c ∷ before,
        told_one (c ∷ before),
        same,
        omega (arith, ap (λ (t : Text). length t) same, length-append {0} (c ∷ before) rest),
      )
