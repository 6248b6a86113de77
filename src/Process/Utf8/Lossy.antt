-- ===== src/Process/Utf8/Lossy.antt =====
-- The scan of a text, against its lossy decoding in one pass.
use mathlib.Core.List.{append_assoc}
use swaw_kit.Prelude.{
  ℕ, ◌+◌, ◌≤◌, ◌≡◌, refl, sym, ap, ◌∙◌, Bool, true, false, Option, none, some, List, [], ◌∷◌, ◌++◌,
  arith, length, Text,
}
use swaw_kit.Process.Utf8.{
  in_range, following, Scan, valid, broken, ends_inside, onto_valid, scan, replacement, lossy,
  lossy_first, from_utf8_lossy,
}

lossy-front : (front t : Text) → lossy [] front t ≡ from_utf8_lossy t
unfolding lossy
lossy-front front [] = refl
lossy-front front (c ∷ t) = refl

-- The part of a character that has been read, read again.
abbrev Replays : List (ℕ × ℕ) → Text → Type 0
Replays places front = (t : Text) → from_utf8_lossy (front ++ t) ≡ lossy places front t

abbrev at_start : List (ℕ × ℕ) → ℕ
at_start [] = 1
at_start (_ ∷ _) = 0

at_start-le : (places : List (ℕ × ℕ)) → at_start places ≤ 1
at_start-le [] = ground arith
at_start-le (_ ∷ _) = ground arith

-- What a scan of `s` says of the lossy decoding of `s` and all that may follow.
abbrev pub Tells : List (ℕ × ℕ) → Text → Text → Scan → Type 0
Tells places front s (valid text) =
    (t : Text) → lossy places front (s ++ t) ≡ text ++ from_utf8_lossy t
Tells places front s (broken text rest) =
    ((t : Text)
      → lossy places front (s ++ t) ≡ text ++ (replacement ++ from_utf8_lossy (rest ++ t)))
    × (length rest + at_start places ≤ length s)
Tells places front s (ends_inside text tail) =
    (t : Text) → lossy places front (s ++ t) ≡ text ++ from_utf8_lossy (tail ++ t)

-- A character before the scanned text.
Tells-onto :
    (places : List (ℕ × ℕ)) (front char s : Text) (c : ℕ) (answer : Scan)
    → ((t : Text) → lossy places front (c ∷ s ++ t) ≡ char ++ from_utf8_lossy (s ++ t))
    → Tells [] [] s answer
    → Tells places front (c ∷ s) (onto_valid char answer)
Tells-onto places front char s c (valid text) step h =
    λ t. step t ∙ ap (λ (r : Text). char ++ r) (h t) ∙ sym (append_assoc char text _)
Tells-onto places front char s c (broken text rest) step (h, less) = (
  λ t. step t ∙ ap (λ (r : Text). char ++ r) (h t) ∙ sym (append_assoc char text _),
  ground (arith, less),
)
Tells-onto places front char s c (ends_inside text tail) step h =
    λ t. step t ∙ ap (λ (r : Text). char ++ r) (h t) ∙ sym (append_assoc char text _)

-- A scan that goes on inside a character.
Tells-inside :
    (places : List (ℕ × ℕ)) (front : Text) (next : ℕ × ℕ) (more : List (ℕ × ℕ)) (longer s : Text)
    (c : ℕ) (answer : Scan)
    → ((t : Text) → lossy places front (c ∷ t) ≡ lossy (next ∷ more) longer t)
    → Tells (next ∷ more) longer s answer
    → Tells places front (c ∷ s) answer
Tells-inside places front next more longer s c (valid text) step h = λ t. step (s ++ t) ∙ h t
Tells-inside places front next more longer s c (broken text rest) step (h, less) =
    (λ t. step (s ++ t) ∙ h t, ground (arith, less, at_start-le places))
Tells-inside places front next more longer s c (ends_inside text tail) step h =
    λ t. step (s ++ t) ∙ h t

lossy-place :
    (place : ℕ × ℕ) (places : List (ℕ × ℕ)) (front : Text) (c : ℕ) (s : Text) {fits : Bool}
    → in_range place c ≡ fits
    → lossy (place ∷ places) front (c ∷ s) ≡ elim fits [
      | false ↦
          replacement ++ lossy_first (following c) c (lossy [] [] s) (λ more. lossy more (c ∷ []) s)
      | true ↦ elim places [
        | [] ↦ front ++ c ∷ lossy [] [] s
        | next ∷ more ↦ lossy (next ∷ more) (front ++ c ∷ []) s
      ]
    ]
unfolding lossy
lossy-place place places front c s h =
    ap
      (λ (fits : Bool). elim fits [
        | false ↦
            replacement
            ++ lossy_first (following c) c (lossy [] [] s) (λ more. lossy more (c ∷ []) s)
        | true ↦ elim places [
          | [] ↦ front ++ c ∷ lossy [] [] s
          | next ∷ more ↦ lossy (next ∷ more) (front ++ c ∷ []) s
        ]
      ])
      h

module _ (s : Text)
    (again : (places : List (ℕ × ℕ)) (front : Text)
      → Replays places front
      → Tells places front s (scan places front s)) where
  first-Tells :
      (front : Text) (c : ℕ) (o : Option (List (ℕ × ℕ)))
      → following c ≡ o
      → Tells [] front (c ∷ s) (elim o [
        | none ↦ broken [] s
        | some places ↦ elim places [
          | [] ↦ onto_valid (c ∷ []) (scan [] [] s)
          | place ∷ more ↦ scan (place ∷ more) (c ∷ []) s
        ]
      ])
  unfolding lossy
  first-Tells front c none h = (
    λ t.
        ap (λ o. lossy_first o c (lossy [] [] (s ++ t)) (λ places. lossy places (c ∷ []) (s ++ t)))
          h,
    ground arith,
  )
  first-Tells front c (some []) h =
      Tells-onto [] front (c ∷ []) s c (scan [] [] s)
        (λ t.
          ap
            (λ o. lossy_first o c (lossy [] [] (s ++ t)) (λ places. lossy places (c ∷ []) (s ++ t)))
            h)
        (again [] [] (λ t. refl))
  first-Tells front c (some (place ∷ more)) h =
      let step : (t : Text) → lossy [] front (c ∷ t) ≡ lossy (place ∷ more) (c ∷ []) t =
        λ t. ap (λ o. lossy_first o c (lossy [] [] t) (λ places. lossy places (c ∷ []) t)) h in
      Tells-inside [] front place more (c ∷ []) s c (scan (place ∷ more) (c ∷ []) s) step (
        again (place ∷ more) (c ∷ [])
          (λ t. ap (λ o. lossy_first o c (lossy [] [] t) (λ places. lossy places (c ∷ []) t)) h))

  next-Tells :
      (place : ℕ × ℕ) (places : List (ℕ × ℕ)) (front : Text) (c : ℕ) (fits : Bool)
      → in_range place c ≡ fits
      → Replays (place ∷ places) front
      → Tells (place ∷ places) front (c ∷ s) (elim fits [
        | false ↦ broken [] (c ∷ s)
        | true ↦ elim places [
          | [] ↦ onto_valid (front ++ c ∷ []) (scan [] [] s)
          | next ∷ more ↦ scan (next ∷ more) (front ++ c ∷ []) s
        ]
      ])
  unfolding lossy
  next-Tells place places front c false h r =
      (λ t. lossy-place place places front c (s ++ t) h, ground arith)
  next-Tells place [] front c true h r =
      Tells-onto (place ∷ []) front (front ++ c ∷ []) s c (scan [] [] s)
        (λ t. lossy-place place [] front c (s ++ t) h ∙ sym (append_assoc front (c ∷ []) _))
        (again [] [] (λ t. refl))
  next-Tells place (next ∷ more) front c true h r =
      let step : (t : Text)
          → lossy (place ∷ next ∷ more) front (c ∷ t) ≡ lossy (next ∷ more) (front ++ c ∷ []) t =
        λ t. lossy-place place (next ∷ more) front c t h in
      Tells-inside (place ∷ next ∷ more) front next more (front ++ c ∷ []) s c
        (scan (next ∷ more) (front ++ c ∷ []) s) step
        (again (next ∷ more) (front ++ c ∷ [])
          (λ t. ap from_utf8_lossy (append_assoc front (c ∷ []) t) ∙ r (c ∷ t) ∙ step t))

pub scan-Tells :
    (s : Text) (places : List (ℕ × ℕ)) (front : Text)
    → Replays places front
    → Tells places front s (scan places front s)
unfolding scan
scan-Tells [] [] front r = λ t. lossy-front front t
scan-Tells [] (place ∷ places) front r = λ t. sym (r t)
scan-Tells (c ∷ s) [] front r = first-Tells s (scan-Tells s) front c (following c) refl
scan-Tells (c ∷ s) (place ∷ places) front r =
    next-Tells s (scan-Tells s) place places front c (in_range place c) refl r
