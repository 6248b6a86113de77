-- ===== src/Process/Frames/Pieces.antt =====
-- Cutting the pending text of the decoder.
use swaw_kit.Prelude.{
  sym, subst, Avoids, Option-cases, strip_prefix, append_of_strip_prefix, ℕ, zero, suc, ◌-◌, ◌≤◌,
  ◌<◌, ◌≡◌, refl, ap, true, Bool-cases, inl, inr, Option, none, some, [], ◌∷◌, ◌++◌, arith, ◌==◌,
  length, Text,
}
use swaw_kit.Process.Frames.{
  take_first, drop_first, starts_frame, onto_before, find_frame, find_line, frame_prefix,
  longest_suffix, min_of, matching_prefix_suffix,
}

pub take_first-drop_first : (n : ℕ) (s : Text) → take_first n s ++ drop_first n s ≡ s
unfolding take_first drop_first
take_first-drop_first zero s = refl
take_first-drop_first (suc n) [] = refl
take_first-drop_first (suc n) (c ∷ s) = ap (λ (t : Text). c ∷ t) (take_first-drop_first n s)

pub length-drop_first : (n : ℕ) (s : Text) → length (drop_first n s) ≡ length s - n
unfolding drop_first
length-drop_first zero s = ground arith
length-drop_first (suc n) [] = ground arith
length-drop_first (suc n) (c ∷ s) = ground (arith, length-drop_first n s)

pub drop_first_all : (s : Text) → drop_first (length s) s ≡ []
unfolding drop_first
drop_first_all [] = refl
drop_first_all (c ∷ s) = drop_first_all s

pub take_first_all : (s : Text) → take_first (length s) s ≡ s
unfolding take_first
take_first_all [] = refl
take_first_all (c ∷ s) = ap (λ (t : Text). c ∷ t) (take_first_all s)

-- Where a text is cut in two.
pub data Cut (P : Text → Text → Type 0) (s : Text) : Option (Text × Text) → Type 0 where
  uncut : Cut P s none
  cut : (before rest : Text) → s ≡ before ++ rest → P before rest → Cut P s (some (before, rest))

abbrev pub AtFrame : Text → Text → Type 0
AtFrame before rest = (starts_frame rest ≡ true) × (0 < length rest)

abbrev pub BehindLine : Text → Text → Type 0
BehindLine line rest = (body : Text) × (line ≡ body ++ (b'\n' ∷ [])) × Avoids b'\n' body

Cut-onto :
    (P : Text → Text → Type 0) (c : ℕ) (s : Text) (o : Option (Text × Text))
    → ((before rest : Text) → P before rest → P (c ∷ before) rest)
    → Cut P s o
    → Cut P (c ∷ s) (onto_before c o)
Cut-onto P c s none h uncut = uncut
Cut-onto P c s (some _) h (cut before rest same p) =
    cut (c ∷ before) rest (ap (λ (t : Text). c ∷ t) same) (h before rest p)

pub find_frame-Cut : (s : Text) → Cut AtFrame s (find_frame s)
unfolding find_frame
find_frame-Cut [] = uncut
find_frame-Cut (c ∷ s) = elim (Bool-cases (starts_frame (c ∷ s))) [
  | inl here ↦ rw here (cut [] (c ∷ s) refl (here, ground arith))
  | inr later ↦
      rw later (Cut-onto AtFrame c s (find_frame s) (λ before rest p. p) (find_frame-Cut s))
]

pub find_line-Cut : (s : Text) → Cut BehindLine s (find_line s)
unfolding find_line
find_line-Cut [] = uncut
find_line-Cut (c ∷ s) = elim (Bool-cases (c == b'\n')) [
  | inl here ↦ rw here (cut (c ∷ []) s refl ([], ground arith, tt))
  | inr later ↦ rw later (
      Cut-onto BehindLine c s (find_line s)
        (λ before rest (body, line, one).
          (c ∷ body, ap (λ (t : Text). c ∷ t) line, (ground arith, one)))
        (find_line-Cut s))
]

-- A frame: the prefix, the rest of its line, and the line feed.
abbrev pub frame_of : Text → Text
frame_of body = frame_prefix ++ body ++ (b'\n' ∷ [])

abbrev pub BehindFrame : Text → Text → Type 0
BehindFrame line rest = (body : Text) × (line ≡ frame_of body) × Avoids b'\n' body

after_prefix-Cut :
    (s : Text) (o : Option (Text × Text))
    → find_line s ≡ o
    → Cut BehindLine s o
    → Cut BehindFrame (frame_prefix ++ s) (find_line (frame_prefix ++ s))
unfolding find_line
after_prefix-Cut s none h uncut = simp h uncut
after_prefix-Cut s (some _) h (cut line rest same (body, shape, one)) = simp h (
    cut (frame_prefix ++ line) rest (ap (λ (t : Text). frame_prefix ++ t) same)
      (body, ap (λ (t : Text). frame_prefix ++ t) shape, one))

-- The line of a text that starts with the prefix is a frame.
pub find_line-frame : (s : Text) → starts_frame s ≡ true → Cut BehindFrame s (find_line s)
unfolding starts_frame
find_line-frame s start = elim (Option-cases (strip_prefix frame_prefix s)) [
  | inl nothing ↦ absurd (ground arith)
  | inr (r, found) ↦
      subst (λ (t : Text). Cut BehindFrame t (find_line t))
        (sym (append_of_strip_prefix frame_prefix s r found))
        (after_prefix-Cut r (find_line r) refl (find_line-Cut r))
]

longest_suffix-le : (n : ℕ) (value prefix : Text) → longest_suffix n value prefix ≤ n
unfolding longest_suffix
longest_suffix-le zero value prefix = ground arith
longest_suffix-le (suc n) value prefix = ground (arith, longest_suffix-le n value prefix)

pub matching_prefix_suffix-le : (s : Text) → matching_prefix_suffix s frame_prefix ≤ 17
unfolding matching_prefix_suffix
matching_prefix_suffix-le s =
    let bound = longest_suffix-le (min_of (length s) 17) s frame_prefix in ground (arith, bound)
