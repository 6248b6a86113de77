-- ===== src/Process/Utf8.antt =====
-- The incremental decoder of a child's output (_lib/proj/_app/src/utf8_output.rs), on texts that are
-- their UTF-8 bytes, with the scanning of `std::str::from_utf8` that it stands on.
pub mod Lossy
pub mod Chunks
use swaw_kit.Prelude.{
  ℕ, zero, suc, Bool, true, false, not, ◌&&◌, Option, none, some, List, [], ◌∷◌, ◌++◌, ltb, leb,
  length, is_empty, if◌then◌else◌, Text,
}

unfoldable pub in_range : ℕ × ℕ → ℕ → Bool
in_range (low, high) byte = leb low byte && leb byte high

-- The bytes that may follow a first byte, for each place; `none` when it begins no character.
unfoldable pub following : ℕ → Option (List (ℕ × ℕ))
unfolding in_range
following c =
    if ltb c 0x80
    then some []
    else if ltb c 0xc2
    then none
    else if ltb c 0xe0
    then some ((0x80, 0xbf) ∷ [])
    else if ltb c 0xe1
    then some ((0xa0, 0xbf) ∷ (0x80, 0xbf) ∷ [])
    else if in_range (0xed, 0xed) c
    then some ((0x80, 0x9f) ∷ (0x80, 0xbf) ∷ [])
    else if ltb c 0xf0
    then some ((0x80, 0xbf) ∷ (0x80, 0xbf) ∷ [])
    else if ltb c 0xf1
    then some ((0x90, 0xbf) ∷ (0x80, 0xbf) ∷ (0x80, 0xbf) ∷ [])
    else if ltb c 0xf4
    then some ((0x80, 0xbf) ∷ (0x80, 0xbf) ∷ (0x80, 0xbf) ∷ [])
    else if ltb c 0xf5
    then some ((0x80, 0x8f) ∷ (0x80, 0xbf) ∷ (0x80, 0xbf) ∷ [])
    else none

-- The answer of `from_utf8`: all is valid; or the valid text, and what is behind the invalid bytes,
-- or the character that the end of the input cuts.
pub data Scan : Type 0 where
  valid : Text → Scan
  broken : Text → Text → Scan
  ends_inside : Text → Text → Scan

abbrev pub onto_valid : Text → Scan → Scan
onto_valid front (valid text) = valid (front ++ text)
onto_valid front (broken text rest) = broken (front ++ text) rest
onto_valid front (ends_inside text tail) = ends_inside (front ++ text) tail

-- The scan, inside a character of which `front` has been read and `places` are left.
unfoldable pub scan : List (ℕ × ℕ) → Text → Text → Scan
scan [] front [] = valid []
scan (place ∷ places) front [] = ends_inside [] front
scan [] front (c ∷ s) = elim (following c) [
  | none ↦ broken [] s
  | some places ↦ elim places [
    | [] ↦ onto_valid (c ∷ []) (scan [] [] s)
    | place ∷ more ↦ scan (place ∷ more) (c ∷ []) s
  ]
]
scan (place ∷ places) front (c ∷ s) = elim (in_range place c) [
  | false ↦ broken [] (c ∷ s)
  | true ↦ elim places [
    | [] ↦ onto_valid (front ++ c ∷ []) (scan [] [] s)
    | next ∷ more ↦ scan (next ∷ more) (front ++ c ∷ []) s
  ]
]

abbrev pub from_utf8 : Text → Scan
from_utf8 input = scan [] [] input

-- `'\u{fffd}'`.
abbrev pub replacement : Text
replacement = 0xef ∷ 0xbf ∷ 0xbd ∷ []

abbrev pub onto_text : Text → Option (Text × Text) → Option (Text × Text)
onto_text front none = none
onto_text front (some (text, pending)) = some (front ++ text, pending)

-- The loop of `decode`, at most `fuel` rounds: the text, and what stays pending.
unfoldable pub decode_within : ℕ → Text → Option (Text × Text)
decode_within zero input = none
decode_within (suc fuel) input = elim (from_utf8 input) [
  | valid text ↦ some (text, [])
  | broken text rest ↦ onto_text (text ++ replacement) (decode_within fuel rest)
  | ends_inside text tail ↦ some (text, tail)
]

-- A first byte: invalid, a character, or the start of one.
abbrev pub lossy_first : Option (List (ℕ × ℕ)) → ℕ → Text → (List (ℕ × ℕ) → Text) → Text
lossy_first none c rest start = replacement ++ rest
lossy_first (some []) c rest start = c ∷ rest
lossy_first (some (place ∷ places)) c rest start = start (place ∷ places)

-- `String::from_utf8_lossy`, in one pass: each maximal part of an invalid sequence is one replacement.
unfoldable pub lossy : List (ℕ × ℕ) → Text → Text → Text
lossy [] front [] = []
lossy (place ∷ places) front [] = replacement
lossy [] front (c ∷ s) =
    lossy_first (following c) c (lossy [] [] s) (λ places. lossy places (c ∷ []) s)
lossy (place ∷ places) front (c ∷ s) = elim (in_range place c) [
  | false ↦
      replacement ++ lossy_first (following c) c (lossy [] [] s) (λ more. lossy more (c ∷ []) s)
  | true ↦ elim places [
    | [] ↦ front ++ c ∷ lossy [] [] s
    | next ∷ more ↦ lossy (next ∷ more) (front ++ c ∷ []) s
  ]
]

abbrev pub from_utf8_lossy : Text → Text
from_utf8_lossy input = lossy [] [] input

abbrev pub then_some_text : Text → Option Text
then_some_text text = if is_empty text then none else some text

-- The end of `decode`: the text that is returned, and the pending bytes.
abbrev pub flushed : Bool → Text × Text → Option Text × Text
flushed eof (text, pending) =
    if eof && not (is_empty pending)
    then (then_some_text (text ++ from_utf8_lossy pending), [])
    else (then_some_text text, pending)

-- `Utf8LossyDecoder::decode`: each round takes a byte off.
unfoldable pub decode : Text → Text → Bool → Option (Option Text × Text)
decode pending bytes eof =
    elim (decode_within (suc (length (pending ++ bytes))) (pending ++ bytes)) [
      | none ↦ none
      | some parts ↦ some (flushed eof parts)
    ]

abbrev pub text_of : Option Text → Text
text_of none = []
text_of (some text) = text

abbrev pub onto_output : Option Text → Option Text → Option Text
onto_output front none = none
onto_output front (some text) = some (text_of front ++ text)

-- A whole output: its chunks are decoded, then its end is.
unfoldable pub decode_stream : List Text → Text → Option Text
decode_stream [] pending = elim (decode pending [] true) [
  | none ↦ none
  | some (text, _) ↦ some (text_of text)
]
decode_stream (chunk ∷ chunks) pending = elim (decode pending chunk false) [
  | none ↦ none
  | some (text, rest) ↦ onto_output text (decode_stream chunks rest)
]
