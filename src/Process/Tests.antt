-- ===== src/Process/Tests.antt =====
-- Concrete output of processes.
use swaw_kit.Prelude.{
  ok, joined, ◌≡◌, refl, true, Option, none, some, List, [], ◌∷◌, ◌++◌, arith, if◌then◌else◌, Text,
  ascii, text_eq,
}
use swaw_kit.Runtime.Journal.{CommandProgress, running_progress, bytes_unit}
use swaw_kit.Process.Frames.{
  ProgressFrame, CapturedCommandEvent, captured_progress, command_event_schema, accept_frame,
  all_id_bytes, frame_prefix, has_control, parse_progress, valid_progress, trim_line_end, feed,
  drain,
}
use swaw_kit.Process.Frames.Rounds.{IsFrame, Tells}
use swaw_kit.Process.Frames.Conserved.{Drains, drain-Drains, feed-total}
use swaw_kit.Process.Frames.Whole.{feed-frame}
use swaw_kit.Process.Utf8.{decode_stream, from_utf8_lossy, lossy, following, in_range, replacement}
use swaw_kit.Process.Utf8.Chunks.{decode_stream-lossy}
use swaw_kit.Process.Reader.{read_output}
use swaw_kit.Process.Reader.Whole.{IsDispatched, read_output-whole}

abbrev download : CommandProgress
download = record {
  id = ascii "download:x";
  state = running_progress;
  current = some 1;
  total = some 2;
  unit = bytes_unit;
  message = ascii "Loading";
}

-- A decoder that knows one payload.
abbrev decode : Text → Option ProgressFrame
decode payload =
    if text_eq payload (ascii "{}")
    then some (record { schema = command_event_schema; progress = download })
    else none

download-IsFrame : IsFrame decode (ascii "{}") download
unfolding parse_progress accept_frame valid_progress all_id_bytes has_control trim_line_end text_eq
download-IsFrame = record { one_line = ground arith; short = ground arith; accepted = refl }

abbrev pieces : List Text
pieces = (0x1e ∷ ascii "swaw") ∷ ascii "kit-event-v1 {" ∷ [] ∷ (ascii "}" ++ (b'\n' ∷ [])) ∷ []

feed-frame_example : feed decode pieces [] ≡ some (captured_progress download ∷ [], [])
feed-frame_example = feed-frame decode (ascii "{}") download download-IsFrame pieces refl

drain-Drains_example :
    Drains decode true
      (ascii "text" ++ frame_prefix)
      (drain decode true (ascii "text" ++ frame_prefix))
drain-Drains_example = drain-Drains decode true (ascii "text" ++ frame_prefix)

feed-total_example :
    (es : List CapturedCommandEvent) × (feed decode pieces [] ≡ some (es, []))
    × Tells decode es (joined pieces)
feed-total_example = feed-total decode pieces

-- The three bytes of a character in two reads, and a byte that begins none.
abbrev cut_character : List Text
cut_character = (0xe7 ∷ 0x94 ∷ []) ∷ (0xb2 ∷ 0xff ∷ []) ∷ []

decode_stream-lossy_example :
    decode_stream cut_character [] ≡ some (from_utf8_lossy (joined cut_character))
decode_stream-lossy_example = decode_stream-lossy cut_character

cut_character_text : from_utf8_lossy (joined cut_character) ≡ 0xe7 ∷ 0x94 ∷ 0xb2 ∷ replacement
unfolding lossy following in_range
cut_character_text = refl

read_output-whole_example :
    IsDispatched decode
      (from_utf8_lossy (joined cut_character))
      (read_output decode cut_character (ok tt) [] [])
read_output-whole_example = read_output-whole decode cut_character
