-- ===== src/Process/Reader.antt =====
-- The thread that reads a pipe of a child (_lib/proj/_app/src/process_runner/monitor.rs:
-- read_output): the bytes of each read go through the UTF-8 decoder and then through the decoder of
-- event frames, and the events are dispatched in order.
pub mod Whole
use swaw_kit.Prelude.{
  Bool, true, false, Option, none, some, List, [], ◌∷◌, ◌++◌, Text, Result, ok, err,
}
use swaw_kit.Process.Frames.{ProgressFrame, CapturedCommandEvent, push_text, finish_text}
use swaw_kit.Process.Utf8.{decode}

-- The events that are dispatched, and the result of the thread; `none` is a decoder that does not
-- return.
abbrev pub Dispatched : Type 0
Dispatched = Option (List CapturedCommandEvent × Result Text (Unit {0}))

abbrev pub onto_dispatched : List CapturedCommandEvent → Dispatched → Dispatched
onto_dispatched es none = none
onto_dispatched es (some (fs, result)) = some (es ++ fs, result)

module _ (parse : Text → Option ProgressFrame) where
  -- `if let Some(text) = … { dispatch_output(…, frame_decoder.push(&text)) }`.
  unfoldable pub push_some : Option Text → Text → Option (List CapturedCommandEvent × Text)
  push_some none frames = some ([], frames)
  push_some (some text) frames = push_text parse text frames

  abbrev pub finished : Option (List CapturedCommandEvent × Text) → Dispatched
  finished none = none
  finished (some (es, _)) = some (es, ok tt)

  -- The last read, which returns no bytes.
  unfoldable pub read_end : Text → Text → Dispatched
  read_end pending frames = elim (decode pending [] true) [
    | none ↦ none
    | some (text, _) ↦ elim (push_some text frames) [
      | none ↦ none
      | some (es, rest) ↦ onto_dispatched es (finished (finish_text parse rest))
    ]
  ]

  -- The reads, and how they end: with the end of the pipe, or an error. The decoders' states are
  -- `pending` and `frames`.
  unfoldable pub read_output : List Text → Result Text (Unit {0}) → Text → Text → Dispatched
  read_output [] (err e) pending frames = some ([], err e)
  read_output [] (ok _) pending frames = read_end pending frames
  read_output (bytes ∷ reads) last pending frames = elim (decode pending bytes false) [
    | none ↦ none
    | some (text, pending) ↦ elim (push_some text frames) [
      | none ↦ none
      | some (es, frames) ↦ onto_dispatched es (read_output reads last pending frames)
    ]
  ]
