-- ===== src/Process/Utf8/Chunks.antt =====
-- The decoder, chunk by chunk, against the lossy decoding of the whole output.
use mathlib.Core.List.{append_assoc, append-nil}
use swaw_kit.Prelude.{
  ℕ, zero, suc, ◌≤◌, ◌<◌, ◌≡◌, refl, sym, ap, ◌∙◌, Bool, true, false, Option, none, some, List, [],
  ◌∷◌, ◌++◌, arith, length, Text, joined,
}
use swaw_kit.Process.Utf8.{
  Scan, valid, broken, ends_inside, scan, replacement, onto_text, decode_within, lossy,
  from_utf8_lossy, then_some_text, flushed, decode, text_of, onto_output, decode_stream,
}
use swaw_kit.Process.Utf8.Lossy.{Tells, scan-Tells}

-- The text of a round of calls, and the bytes that it leaves pending, tell the input.
pub record IsDecoded (input text pending : Text) : Type 0 where
  pub told : (t : Text) → from_utf8_lossy (input ++ t) ≡ text ++ from_utf8_lossy (pending ++ t)

pub record Decodes (input : Text) (answer : Option (Text × Text)) : Type 0 where
  pub text : Text
  pub pending : Text
  pub done : answer ≡ some (text, pending)
  pub decoded : IsDecoded input text pending

scan-Decodes :
    (fuel : ℕ) (input : Text) (answer : Scan)
    → length input ≤ fuel
    → Tells [] [] input answer
    → ((rest : Text) → length rest < fuel → Decodes rest (decode_within fuel rest))
    → Decodes input (elim answer [
      | valid text ↦ some (text, [])
      | broken text rest ↦ onto_text (text ++ replacement) (decode_within fuel rest)
      | ends_inside text tail ↦ some (text, tail)
    ])
scan-Decodes fuel input (valid text) enough h again = record {
  text = text;
  pending = [];
  done = refl;
  decoded = record { told = h };
}
scan-Decodes fuel input (broken text rest) enough (h, less) again =
    let later = again rest (ground arith) in
    record {
      text = (text ++ replacement) ++ later.text;
      pending = later.pending;
      done = ap (onto_text (text ++ replacement)) later.done;
      decoded = record {
        told = λ t.
            h t
            ∙ sym (append_assoc text replacement _)
            ∙ ap (λ (r : Text). (text ++ replacement) ++ r) (later.decoded.told t)
            ∙ sym (append_assoc (text ++ replacement) later.text _);
      };
    }
scan-Decodes fuel input (ends_inside text tail) enough h again = record {
  text = text;
  pending = tail;
  done = refl;
  decoded = record { told = h };
}

decode_within-Decodes :
    (fuel : ℕ) (input : Text) → length input < fuel → Decodes input (decode_within fuel input)
unfolding decode_within
decode_within-Decodes zero input enough = absurd (ground arith)
decode_within-Decodes (suc fuel) input enough =
    scan-Decodes fuel input (scan [] [] input) (ground arith) (scan-Tells input [] [] (λ t. refl))
      (decode_within-Decodes fuel)

text_of-then_some : (text : Text) → text_of (then_some_text text) ≡ text
text_of-then_some [] = refl
text_of-then_some (c ∷ text) = refl

decode_of_parts :
    (pending bytes : Text) (eof : Bool) {parts : Text × Text}
    → decode_within (suc (length (pending ++ bytes))) (pending ++ bytes) ≡ some parts
    → decode pending bytes eof ≡ some (flushed eof parts)
unfolding decode
decode_of_parts pending bytes eof h =
    ap (λ o. elim o [ none ↦ none | some parts ↦ some (flushed eof parts) ]) h

-- A call of the decoder, before the end.
pub decode-Decodes :
    (pending bytes : Text)
    → (d : Decodes
        (pending ++ bytes)
        (decode_within (suc (length (pending ++ bytes))) (pending ++ bytes)))
      × (decode pending bytes false ≡ some (then_some_text d.text, d.pending))
decode-Decodes pending bytes =
    let d =
      decode_within-Decodes (suc (length (pending ++ bytes))) (pending ++ bytes) (ground arith) in
    (d, decode_of_parts pending bytes false d.done)

flushed_all :
    (text pending : Text)
    → flushed true (text, pending) ≡ (then_some_text (text ++ from_utf8_lossy pending), [])
unfolding lossy
flushed_all text [] = ap (λ (t : Text). (then_some_text t, [])) (sym (append-nil text))
flushed_all text (c ∷ pending) = refl

-- The last call of the decoder.
pub decode_end-eq :
    (pending : Text) → decode pending [] true ≡ some (then_some_text (from_utf8_lossy pending), [])
decode_end-eq pending =
    let d = decode_within-Decodes (suc (length (pending ++ []))) (pending ++ []) (ground arith) in
    let whole : d.text ++ from_utf8_lossy d.pending ≡ from_utf8_lossy pending =
      ap (λ (t : Text). d.text ++ from_utf8_lossy t) (sym (append-nil d.pending))
      ∙ sym (d.decoded.told [])
      ∙ ap from_utf8_lossy (append-nil (pending ++ []) ∙ append-nil pending) in
    decode_of_parts pending [] true d.done
    ∙ ap (λ (p : Option Text × Text). some p) (flushed_all d.text d.pending)
    ∙ ap (λ (t : Text). some (then_some_text t, [])) whole

decode_stream-eq :
    (chunks : List Text) (pending : Text)
    → decode_stream chunks pending ≡ some (from_utf8_lossy (pending ++ joined chunks))
unfolding decode_stream
decode_stream-eq [] pending =
    ap (λ o. elim o [ none ↦ none | some (text, _) ↦ some (text_of text) ]) (decode_end-eq pending)
    ∙ ap (λ (t : Text). some t)
        (text_of-then_some (from_utf8_lossy pending)
          ∙ ap from_utf8_lossy (sym (append-nil pending)))
decode_stream-eq (chunk ∷ chunks) pending =
    let (d, done) = decode-Decodes pending chunk in
    ap
      (λ o. elim o [
        | none ↦ none
        | some (text, rest) ↦ onto_output text (decode_stream chunks rest)
      ])
      done
    ∙ ap (onto_output (then_some_text d.text)) (decode_stream-eq chunks d.pending)
    ∙ ap (λ (t : Text). some t)
        (ap (λ (t : Text). t ++ from_utf8_lossy (d.pending ++ joined chunks))
            (text_of-then_some d.text)
          ∙ sym (d.decoded.told (joined chunks))
          ∙ ap from_utf8_lossy (append_assoc pending chunk (joined chunks)))

-- However an output is cut into chunks, the decoded texts are together the lossy decoding of the
-- whole output; each call of the decoder returns.
pub decode_stream-lossy :
    (chunks : List Text) → decode_stream chunks [] ≡ some (from_utf8_lossy (joined chunks))
decode_stream-lossy chunks = decode_stream-eq chunks []
