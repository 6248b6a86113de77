-- ===== src/Process/Frames.antt =====
-- The decoder of the event frames in a child's output (_lib/proj/_app/src/command_event.rs).
--
-- serde's decoding of a frame is the argument `decode`.
pub mod Pieces
pub mod Rounds
pub mod Conserved
pub mod Split
pub mod Whole
use swaw_kit.Prelude.{
  ℕ, zero, suc, ◌+◌, ◌-◌, ◌*◌, Bool, true, false, not, ◌&&◌, ◌||◌, Option, none, some, List, [],
  ◌∷◌, ◌++◌, ltb, leb, ◌==◌, length, is_empty, if◌then◌else◌, Text, ascii, text_eq, strip_prefix,
}
use swaw_kit.Runtime.Journal.{CommandProgress}

abbrev pub command_event_schema : Text
command_event_schema = ascii "swawkit.command-event/v1"

abbrev pub frame_prefix : Text
frame_prefix = 0x1e ∷ ascii "swawkit-event-v1 "

abbrev pub max_frame_bytes : ℕ
max_frame_bytes = 16 * 1024

abbrev between : ℕ → ℕ → ℕ → Bool
between low high byte = leb low byte && leb byte high

-- `byte.is_ascii_alphanumeric() || b"._:-".contains(&byte)`.
abbrev is_id_byte : ℕ → Bool
is_id_byte byte =
    between b'0' b'9' byte
    || between b'A' b'Z' byte
    || between b'a' b'z' byte
    || byte == b'.'
    || byte == b'_'
    || byte == b':'
    || byte == b'-'

unfoldable pub all_id_bytes : Text → Bool
all_id_bytes [] = true
all_id_bytes (c ∷ s) = is_id_byte c && all_id_bytes s

-- A control character other than a tab, in UTF-8: one byte below 32, the byte 127, or the byte 0xc2
-- and one of 0x80 to 0x9f.
unfoldable pub has_control : Text → Bool
has_control [] = false
has_control (c ∷ []) = (ltb c 32 && not (c == b'\t')) || c == 127
has_control (c ∷ d ∷ s) =
    (ltb c 32 && not (c == b'\t'))
    || c == 127
    || (c == 0xc2 && between 0x80 0x9f d)
    || has_control (d ∷ s)

abbrev pub valid_counts : Option ℕ → Option ℕ → Bool
valid_counts (some current) (some total) = ltb 0 total && leb current total
valid_counts none (some _) = false
valid_counts _ none = true

unfoldable pub valid_progress : CommandProgress → Bool
valid_progress p =
    not (is_empty p.id)
    && leb (length p.id) 128
    && all_id_bytes p.id
    && not (is_empty p.message)
    && leb (length p.message) 512
    && not (has_control p.message)
    && valid_counts p.current p.total

-- A frame that serde has decoded; its kind has only one value.
pub record ProgressFrame : Type 0 where
  pub schema : Text
  pub progress : CommandProgress

pub data CapturedCommandEvent : Type 0 where
  captured_output : Text → CapturedCommandEvent
  captured_progress : CommandProgress → CapturedCommandEvent

unfoldable pub accept_frame : ProgressFrame → Option CommandProgress
accept_frame frame =
    if not (text_eq frame.schema command_event_schema) || not (valid_progress frame.progress)
    then none
    else some frame.progress

unfoldable pub parse_progress : (Text → Option ProgressFrame) → Text → Option CommandProgress
unfolding accept_frame
parse_progress decode payload = elim (decode payload) [
  | none ↦ none
  | some frame ↦ accept_frame frame
]

-- `drain(..n)`: what it takes, and what it leaves.
unfoldable pub take_first : ℕ → Text → Text
take_first zero s = []
take_first (suc n) [] = []
take_first (suc n) (c ∷ s) = c ∷ take_first n s

unfoldable pub drop_first : ℕ → Text → Text
drop_first zero s = s
drop_first (suc n) [] = []
drop_first (suc n) (c ∷ s) = drop_first n s

abbrev pub is_some_text : Option Text → Bool
is_some_text none = false
is_some_text (some _) = true

unfoldable pub starts_frame : Text → Bool
starts_frame s = is_some_text (strip_prefix frame_prefix s)

abbrev pub onto_before : ℕ → Option (Text × Text) → Option (Text × Text)
onto_before c none = none
onto_before c (some (before, rest)) = some (c ∷ before, rest)

-- `find(FRAME_PREFIX)`, with the text cut there.
unfoldable pub find_frame : Text → Option (Text × Text)
find_frame [] = none
find_frame (c ∷ s) =
    let rest = find_frame s in if starts_frame (c ∷ s) then some ([], c ∷ s) else onto_before c rest

-- `find('\n')`, with the text cut behind it.
unfoldable pub find_line : Text → Option (Text × Text)
find_line [] = none
find_line (c ∷ s) =
    let rest = find_line s in if c == b'\n' then some (c ∷ [], s) else onto_before c rest

unfoldable pub ends_with : Text → Text → Bool
ends_with s end = text_eq (drop_first (length s - length end) s) end

-- `(1..=n).rev().find(…).unwrap_or(0)`.
unfoldable pub longest_suffix : ℕ → Text → Text → ℕ
longest_suffix zero value prefix = 0
longest_suffix (suc n) value prefix =
    let rest = longest_suffix n value prefix in
    if ends_with value (take_first (suc n) prefix) then suc n else rest

abbrev pub min_of : ℕ → ℕ → ℕ
min_of a b = if leb a b then a else b

unfoldable pub matching_prefix_suffix : Text → Text → ℕ
matching_prefix_suffix value prefix =
    longest_suffix (min_of (length value) (length prefix - 1)) value prefix

unfoldable pub trim_line_end : Text → Text
trim_line_end [] = []
trim_line_end (c ∷ s) =
    let rest = trim_line_end s in
    if is_empty rest && (c == b'\r' || c == b'\n') then [] else c ∷ rest

-- One round of the loop of `drain`: it breaks, or it goes on with a shorter pending text.
pub data Round : Type 0 where
  breaks : List CapturedCommandEvent → Text → Round
  goes_on : CapturedCommandEvent → Text → Round

abbrev pub output_of : Text → List CapturedCommandEvent
output_of text = if is_empty text then [] else captured_output text ∷ []

module _ (decode : Text → Option ProgressFrame) where
  abbrev pub payload_event : Text → Option CommandProgress → CapturedCommandEvent
  payload_event line none = captured_output line
  payload_event line (some p) = captured_progress p

  -- The event of a complete line that starts with the prefix.
  unfoldable pub line_event : Text → CapturedCommandEvent
  line_event line =
      if ltb max_frame_bytes (length line)
      then captured_output line
      else payload_event line
          (parse_progress decode (trim_line_end (drop_first (length frame_prefix) line)))

  abbrev pub unfinished_round : Bool → Text → Round
  unfinished_round eof pending =
      if eof || ltb max_frame_bytes (length pending)
      then breaks (captured_output pending ∷ []) []
      else breaks [] pending

  -- The part of a round behind the search for the prefix.
  unfoldable pub frame_round : Bool → Text → Round
  frame_round eof pending = elim (find_line pending) [
    | none ↦ unfinished_round eof pending
    | some (line, rest) ↦ goes_on (line_event line) rest
  ]

  -- Without a prefix, the text is output, but for an end that may begin one.
  unfoldable pub plain_round : Bool → Text → Round
  plain_round eof pending =
      let retained = if eof then 0 else matching_prefix_suffix pending frame_prefix in
      let output_length = length pending - retained in
      breaks (output_of (take_first output_length pending)) (drop_first output_length pending)

  abbrev pub found_round : Bool → Text → Text × Text → Round
  found_round eof pending (before, rest) =
      if is_empty before then frame_round eof pending else goes_on (captured_output before) rest

  unfoldable pub round : Bool → Text → Round
  round eof pending = elim (find_frame pending) [
    | none ↦ plain_round eof pending
    | some found ↦ found_round eof pending found
  ]

  abbrev pub onto_events :
      CapturedCommandEvent
      → Option (List CapturedCommandEvent × Text)
      → Option (List CapturedCommandEvent × Text)
  onto_events e none = none
  onto_events e (some (es, rest)) = some (e ∷ es, rest)

  -- The loop of `drain`, at most `fuel` rounds.
  unfoldable pub drain_within : ℕ → Bool → Text → Option (List CapturedCommandEvent × Text)
  drain_within zero eof pending = none
  drain_within (suc fuel) eof pending = elim (round eof pending) [
    | breaks es rest ↦ some (es, rest)
    | goes_on e rest ↦ onto_events e (drain_within fuel eof rest)
  ]

  -- Each round but the last shortens the pending text.
  unfoldable pub drain : Bool → Text → Option (List CapturedCommandEvent × Text)
  drain eof pending = drain_within (suc (length pending)) eof pending

  abbrev pub push_text : Text → Text → Option (List CapturedCommandEvent × Text)
  push_text text pending = drain false (pending ++ text)

  abbrev pub finish_text : Text → Option (List CapturedCommandEvent × Text)
  finish_text pending = drain true pending

  abbrev pub onto_all :
      List CapturedCommandEvent
      → Option (List CapturedCommandEvent × Text)
      → Option (List CapturedCommandEvent × Text)
  onto_all es none = none
  onto_all es (some (fs, rest)) = some (es ++ fs, rest)

  -- A whole output: its chunks are pushed, then the decoder is finished.
  unfoldable pub feed : List Text → Text → Option (List CapturedCommandEvent × Text)
  feed [] pending = finish_text pending
  feed (chunk ∷ chunks) pending = elim (push_text chunk pending) [
    | none ↦ none
    | some (es, rest) ↦ onto_all es (feed chunks rest)
  ]
