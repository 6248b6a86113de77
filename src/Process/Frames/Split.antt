-- ===== src/Process/Frames/Split.antt =====
-- A frame that arrives in several pieces.
use swaw_kit.Prelude.{
  ℕ, zero, suc, ◌-◌, ◌≤◌, ◌<◌, ◌⊎◌, ◌≡◌, ◌≢◌, refl, ap, ◌∙◌, Bool, true, false, inl, inr, Option,
  none, some, List, [], ◌∷◌, ◌++◌, arith, ltb, length, length-append, if◌then◌else◌, Text,
  text_eq_self, Avoids, Avoids-append, Option-cases, strip_prefix, append_of_strip_prefix,
  strip_prefix-append,
}
use swaw_kit.Runtime.Journal.{CommandProgress}
use swaw_kit.Process.Frames.{
  ProgressFrame, parse_progress, CapturedCommandEvent, captured_progress, take_first, drop_first,
  find_frame, find_line, starts_frame, frame_prefix, max_frame_bytes, trim_line_end, line_event,
  frame_round, plain_round, round, drain_within, drain, ends_with, longest_suffix,
  matching_prefix_suffix, min_of, captured_output, breaks, found_round, goes_on, onto_events,
  output_of, payload_event, unfinished_round,
}

-- Two ways to cut one text: the first cut lies inside the first part of the other, or behind it.
pub append-cases :
    (xs ys p t : Text)
    → xs ++ ys ≡ p ++ t
    → ((r : Text) × (p ≡ xs ++ r) × (r ≢ [])) ⊎ ((b : Text) × (xs ≡ p ++ b) × (b ++ ys ≡ t))
append-cases xs ys [] t h = inr (xs, refl, h)
append-cases [] ys (c ∷ p) t h = inl (c ∷ p, refl, λ e. ground arith)
append-cases (d ∷ xs) ys (c ∷ p) t h = elim (append-cases xs ys p t (ground arith)) [
  | inl (r, same, more) ↦ inl (r, ground (arith, same), more)
  | inr (b, same, rest) ↦ inr (b, ground (arith, same), rest)
]

nil_of_append : (b ys : Text) → b ++ ys ≡ [] → ys ≡ []
nil_of_append [] ys h = h
nil_of_append (c ∷ b) ys h = absurd (ground arith)

pub Avoids-before :
    (b ys t : Text) → Avoids b'\n' t → b ++ ys ≡ t ++ (b'\n' ∷ []) → ys ≢ [] → Avoids b'\n' b
Avoids-before [] ys t h same more = tt
Avoids-before (c ∷ b) ys [] h same more = absurd (more (nil_of_append b ys (ground arith)))
Avoids-before (c ∷ b) ys (d ∷ t) (p, h) same more =
    (ground arith, Avoids-before b ys t h (ground arith) more)

starts_frame-short : (s : Text) → length s < 18 → starts_frame s ≡ false
unfolding starts_frame
starts_frame-short s short = elim (Option-cases (strip_prefix frame_prefix s)) [
  | inl nothing ↦ rw nothing refl
  | inr (r, found) ↦
      let same = append_of_strip_prefix frame_prefix s r found in
      absurd
        (omega (arith, short, ap (λ (t : Text). length t) same, length-append {0} frame_prefix r))
]

find_frame-short : (s : Text) → length s < 18 → find_frame s ≡ none
unfolding find_frame
find_frame-short [] short = refl
find_frame-short (c ∷ s) short =
    simp (starts_frame-short (c ∷ s) short, find_frame-short s (ground arith)) refl

find_frame-here : (b : Text) → find_frame (frame_prefix ++ b) ≡ some ([], frame_prefix ++ b)
unfolding find_frame starts_frame
find_frame-here b = simp (strip_prefix-append frame_prefix b) refl

find_line_of_Avoids : (s : Text) → Avoids b'\n' s → find_line s ≡ none
unfolding find_line
find_line_of_Avoids [] h = refl
find_line_of_Avoids (c ∷ s) (p, h) = ground (arith, find_line_of_Avoids s h)

find_line_end :
    (s : Text) → Avoids b'\n' s → find_line (s ++ (b'\n' ∷ [])) ≡ some (s ++ (b'\n' ∷ []), [])
unfolding find_line
find_line_end [] h = refl
find_line_end (c ∷ s) (p, h) = ground (arith, find_line_end s h)

frame_prefix-Avoids : Avoids b'\n' frame_prefix
frame_prefix-Avoids = ground arith

take_first-append : (s r : Text) → take_first (length s) (s ++ r) ≡ s
unfolding take_first
take_first-append [] r = refl
take_first-append (c ∷ s) r = ap (λ (t : Text). c ∷ t) (take_first-append s r)

drop_first-append : (s r : Text) → drop_first (length s) (s ++ r) ≡ r
unfolding drop_first
drop_first-append [] r = refl
drop_first-append (c ∷ s) r = drop_first-append s r

longest_suffix-whole : (n : ℕ) (s r : Text) → n ≡ length s → longest_suffix n s (s ++ r) ≡ n
unfolding longest_suffix ends_with drop_first
longest_suffix-whole zero s r h = refl
longest_suffix-whole (suc n) s r h =
    let start : take_first (suc n) (s ++ r) ≡ s =
      ap (λ k. take_first k (s ++ r)) h ∙ take_first-append s r in
    let none_left : length s - length s ≡ 0 = ground arith in
    simp (start, none_left, text_eq_self s) refl

-- All of a text that begins the prefix is retained.
matching_prefix_suffix-whole :
    (s r : Text)
    → frame_prefix ≡ s ++ r
    → r ≢ []
    → (matching_prefix_suffix s frame_prefix ≡ length s) × (length s < 18)
unfolding matching_prefix_suffix
matching_prefix_suffix-whole s r same more =
    let sizes = length-append {0} s r in
    let short : length s < 18 = ground (arith, sizes, ap (λ (t : Text). length t) same) in
    let few : min_of (length s) 17 ≡ length s = ground (arith, short) in
    (
      ap (λ n. longest_suffix n s frame_prefix) few
          ∙ ap (λ t. longest_suffix (length s) s t) same
          ∙ longest_suffix-whole (length s) s r refl,
      short,
    )

module _ (decode : Text → Option ProgressFrame) where
  drain_of_breaks :
      (eof : Bool) (s : Text) {es : List CapturedCommandEvent} {rest : Text}
      → round decode eof s ≡ breaks es rest
      → drain decode eof s ≡ some (es, rest)
  unfolding drain drain_within
  drain_of_breaks eof s h =
      ap
        (λ r. elim r [
          | breaks es rest ↦ some (es, rest)
          | goes_on e rest ↦ onto_events decode e (drain_within decode (length s) eof rest)
        ])
        h

  round_of_found :
      (eof : Bool) (s : Text) {o : Option (Text × Text)}
      → find_frame s ≡ o
      → round decode eof s
        ≡ elim o [ none ↦ plain_round decode eof s | some found ↦ found_round decode eof s found ]
  unfolding round
  round_of_found eof s h =
      ap
        (λ o. elim o [
          | none ↦ plain_round decode eof s
          | some found ↦ found_round decode eof s found
        ])
        h

  frame_round_of_line :
      (eof : Bool) (s : Text) {o : Option (Text × Text)}
      → find_line s ≡ o
      → frame_round decode eof s ≡ elim o [
        | none ↦ unfinished_round decode eof s
        | some (line, rest) ↦ goes_on (line_event decode line) rest
      ]
  unfolding frame_round
  frame_round_of_line eof s h =
      ap
        (λ o. elim o [
          | none ↦ unfinished_round decode eof s
          | some (line, rest) ↦ goes_on (line_event decode line) rest
        ])
        h

  plain_round_of_retained :
      (s : Text) {k : ℕ}
      → matching_prefix_suffix s frame_prefix ≡ k
      → plain_round decode false s
        ≡ breaks (output_of (take_first (length s - k) s)) (drop_first (length s - k) s)
  unfolding plain_round
  plain_round_of_retained s h =
      ap (λ k. breaks (output_of (take_first (length s - k) s)) (drop_first (length s - k) s)) h

  -- The start of the prefix is kept back.
  pub drain_prefix_start :
      (s r : Text) → frame_prefix ≡ s ++ r → r ≢ [] → drain decode false s ≡ some ([], s)
  unfolding take_first drop_first
  drain_prefix_start s r same more =
      let (whole, short) = matching_prefix_suffix-whole s r same more in
      let nothing : length s - length s ≡ 0 = ground arith in
      drain_of_breaks false s (
        round_of_found false s (find_frame-short s short)
        ∙ plain_round_of_retained s whole
        ∙ ap (λ k. breaks (output_of (take_first k s)) (drop_first k s)) nothing)

  -- A frame without its end is kept back.
  pub drain_frame_start :
      (b : Text)
      → Avoids b'\n' b
      → length (frame_prefix ++ b) ≤ max_frame_bytes
      → drain decode false (frame_prefix ++ b) ≡ some ([], frame_prefix ++ b)
  drain_frame_start b clean short =
      let line =
        find_line_of_Avoids (frame_prefix ++ b)
          (Avoids-append b'\n' frame_prefix b frame_prefix-Avoids clean) in
      let fits : ltb max_frame_bytes (length (frame_prefix ++ b)) ≡ false = ground (arith, short) in
      drain_of_breaks false (frame_prefix ++ b) (
        round_of_found false (frame_prefix ++ b) (find_frame-here b)
        ∙ frame_round_of_line false (frame_prefix ++ b) line
        ∙ ap
            (λ (long : Bool).
              if long
              then breaks (captured_output (frame_prefix ++ b) ∷ []) []
              else breaks [] (frame_prefix ++ b))
            fits)

  drain_within_nothing :
      (fuel : ℕ) (eof : Bool) → drain_within decode (suc fuel) eof [] ≡ some ([], [])
  unfolding drain_within round plain_round find_frame take_first drop_first matching_prefix_suffix
      longest_suffix
  drain_within_nothing fuel true = refl
  drain_within_nothing fuel false = refl

  pub drain_nothing : (eof : Bool) → drain decode eof [] ≡ some ([], [])
  unfolding drain
  drain_nothing eof = drain_within_nothing 0 eof

  drain_of_goes_on :
      (s : Text) {e : CapturedCommandEvent}
      → 0 < length s
      → round decode false s ≡ goes_on e []
      → drain decode false s ≡ some (e ∷ [], [])
  unfolding drain drain_within
  drain_of_goes_on [] long h = absurd (ground arith)
  drain_of_goes_on (c ∷ s) {e} long h =
      ap
        (λ r. elim r [
          | breaks es rest ↦ some (es, rest)
          | goes_on e rest ↦ onto_events decode e (drain_within decode (suc (length s)) false rest)
        ])
        h
      ∙ ap (onto_events decode e) (drain_within_nothing (length s) false)

  line_event_of_progress :
      (line : Text) (p : CommandProgress)
      → length line ≤ max_frame_bytes
      → parse_progress decode (trim_line_end (drop_first (length frame_prefix) line)) ≡ some p
      → line_event decode line ≡ captured_progress p
  unfolding line_event
  line_event_of_progress line p short decoded =
      let fits : ltb max_frame_bytes (length line) ≡ false = ground (arith, short) in
      ap
        (λ (long : Bool).
          if long
          then captured_output line
          else payload_event decode line
              (parse_progress decode (trim_line_end (drop_first 18 line))))
        fits
      ∙ ap (payload_event decode line) decoded

  pub drain_frame :
      (body : Text) (p : CommandProgress)
      → Avoids b'\n' body
      → length (frame_prefix ++ body ++ (b'\n' ∷ [])) ≤ max_frame_bytes
      → parse_progress decode (trim_line_end (body ++ (b'\n' ∷ []))) ≡ some p
      → drain decode false (frame_prefix ++ body ++ (b'\n' ∷ []))
        ≡ some (captured_progress p ∷ [], [])
  drain_frame body p clean short decoded =
      let line = frame_prefix ++ body ++ (b'\n' ∷ []) in
      let payload = drop_first-append frame_prefix (body ++ (b'\n' ∷ [])) in
      let ends =
        find_line_end (frame_prefix ++ body)
          (Avoids-append b'\n' frame_prefix body frame_prefix-Avoids clean) in
      drain_of_goes_on line (ground arith) (
        round_of_found false line (find_frame-here (body ++ (b'\n' ∷ [])))
        ∙ frame_round_of_line false line ends
        ∙ ap (λ e. goes_on e [])
            (line_event_of_progress line p short
              (ap (λ t. parse_progress decode (trim_line_end t)) payload ∙ decoded)))
