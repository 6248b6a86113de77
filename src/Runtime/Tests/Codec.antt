-- ===== src/Runtime/Tests/Codec.antt =====
-- A codec of event records, for the theorems on stored journals at concrete inputs: each field is
-- a character, or the characters of a text behind their number, and all are shifted past the line
-- feed.
use swaw_kit.Prelude.{
  ℕ, zero, suc, ◌+◌, ◌-◌, ◌≡◌, refl, ap, ◌∙◌, Option, none, some, [], ◌∷◌, arith, length, Text,
  Avoids,
}
use swaw_kit.Runtime.Journal.{
  RunJournalPhase, run_phase, worker_phase, RunJournalStream, stdout, stderr, CommandProgressState,
  running_progress, completed_progress, failed_progress, CommandProgressUnit, bytes_unit,
  items_unit, percent_unit, CommandProgress, RunJournalEventData, output, progress,
}
use swaw_kit.Runtime.History.{StoredRunEvent}
use swaw_kit.Runtime.History.Lines.{Codec}

abbrev shift : Text → Text
shift [] = []
shift (c ∷ s) = (c + 11) ∷ shift s

abbrev unshift : Text → Text
unshift [] = []
unshift (c ∷ s) = (c - 11) ∷ unshift s

abbrev unshift-shift : (s : Text) → unshift (shift s) ≡ s
unshift-shift [] = refl
unshift-shift (c ∷ s) = ground (arith, unshift-shift s)

abbrev shift-Avoids : (s : Text) → Avoids b'\n' (shift s)
shift-Avoids [] = tt
shift-Avoids (c ∷ s) = (ground arith, shift-Avoids s)

-- A way to write a value in front of a text, and to read it there.
record Serial (A : Type 0) : Type 0 where
  write : A → Text → Text
  read : Text → A × Text
  read-write : (x : A) (rest : Text) → read (write x rest) ≡ (x, rest)

abbrev first : Text → ℕ
first [] = 0
first (c ∷ s) = c

abbrev behind : Text → Text
behind [] = []
behind (c ∷ s) = s

abbrev number : Serial ℕ
number = record {
  write = λ n rest. n ∷ rest;
  read = λ s. (first s, behind s);
  read-write = λ n rest. refl;
}

-- An enumeration by the codes of its constructors.
abbrev coded :
    {A : Type 0} (code : A → ℕ) (value : ℕ → A) → ((x : A) → value (code x) ≡ x) → Serial A
coded code value h = record {
  write = λ x rest. code x ∷ rest;
  read = λ s. (value (first s), behind s);
  read-write = λ x rest. ap (λ y. (y, rest)) (h x);
}

abbrev pair : {A B : Type 0} → Serial A → Serial B → Serial (A × B)
pair a b = record {
  write = λ (x : _ × _) rest. a.write x.0 (b.write x.1 rest);
  read = λ s. (((a.read s).0, (b.read (a.read s).1).0), (b.read (a.read s).1).1);
  read-write = λ x rest. simp (a.read-write x.0 (b.write x.1 rest), b.read-write x.1 rest) refl;
}

abbrev through :
    {A B : Type 0} (to : A → B) (from : B → A) → ((x : A) → from (to x) ≡ x) → Serial B → Serial A
through to from h b = record {
  write = λ x rest. b.write (to x) rest;
  read = λ s. (from (b.read s).0, (b.read s).1);
  read-write = λ x rest. simp (b.read-write (to x) rest, h x) refl;
}

abbrev write_all : Text → Text → Text
write_all [] rest = rest
write_all (c ∷ s) rest = c ∷ write_all s rest

abbrev read_all : ℕ → Text → Text × Text
read_all zero s = ([], s)
read_all (suc n) s = (first s ∷ (read_all n (behind s)).0, (read_all n (behind s)).1)

abbrev read_all-write_all : (s rest : Text) → read_all (length s) (write_all s rest) ≡ (s, rest)
read_all-write_all [] rest = refl
read_all-write_all (c ∷ s) rest =
    ap (λ (p : Text × Text). (c ∷ p.0, p.1)) (read_all-write_all s rest)

abbrev text : Serial Text
text = record {
  write = λ s rest. length s ∷ write_all s rest;
  read = λ s. read_all (first s) (behind s);
  read-write = read_all-write_all;
}

abbrev write_option : Option ℕ → Text → Text
write_option none rest = 0 ∷ rest
write_option (some n) rest = 1 ∷ n ∷ rest

abbrev option_of : ℕ → Text → Option ℕ × Text
option_of zero s = (none, s)
option_of (suc _) s = (some (first s), behind s)

abbrev option_of-write :
    (o : Option ℕ) (rest : Text)
    → option_of (first (write_option o rest)) (behind (write_option o rest)) ≡ (o, rest)
option_of-write none rest = refl
option_of-write (some n) rest = refl

abbrev option : Serial (Option ℕ)
option = record {
  write = write_option;
  read = λ s. option_of (first s) (behind s);
  read-write = option_of-write;
}

abbrev state_code : CommandProgressState → ℕ
state_code running_progress = 0
state_code completed_progress = 1
state_code failed_progress = 2

abbrev state_value : ℕ → CommandProgressState
state_value zero = running_progress
state_value (suc zero) = completed_progress
state_value _ = failed_progress

abbrev state_value-code : (x : CommandProgressState) → state_value (state_code x) ≡ x
state_value-code running_progress = refl
state_value-code completed_progress = refl
state_value-code failed_progress = refl

abbrev unit_code : CommandProgressUnit → ℕ
unit_code bytes_unit = 0
unit_code items_unit = 1
unit_code percent_unit = 2

abbrev unit_value : ℕ → CommandProgressUnit
unit_value zero = bytes_unit
unit_value (suc zero) = items_unit
unit_value _ = percent_unit

abbrev unit_value-code : (x : CommandProgressUnit) → unit_value (unit_code x) ≡ x
unit_value-code bytes_unit = refl
unit_value-code items_unit = refl
unit_value-code percent_unit = refl

abbrev phase_code : RunJournalPhase → ℕ
phase_code run_phase = 0
phase_code worker_phase = 1

abbrev phase_value : ℕ → RunJournalPhase
phase_value zero = run_phase
phase_value _ = worker_phase

abbrev phase_value-code : (x : RunJournalPhase) → phase_value (phase_code x) ≡ x
phase_value-code run_phase = refl
phase_value-code worker_phase = refl

abbrev stream_code : RunJournalStream → ℕ
stream_code stdout = 0
stream_code stderr = 1

abbrev stream_value : ℕ → RunJournalStream
stream_value zero = stdout
stream_value _ = stderr

abbrev stream_value-code : (x : RunJournalStream) → stream_value (stream_code x) ≡ x
stream_value-code stdout = refl
stream_value-code stderr = refl

abbrev Progress : Type 0
Progress = Text × (CommandProgressState × (Option ℕ × (Option ℕ × (CommandProgressUnit × Text))))

abbrev progress_serial : Serial CommandProgress
progress_serial =
    through
      (λ (p : CommandProgress). (p.id, (p.state, (p.current, (p.total, (p.unit, p.message))))))
      (λ (t : Progress). record {
        id = t.0;
        state = t.1.0;
        current = t.1.1.0;
        total = t.1.1.1.0;
        unit = t.1.1.1.1.0;
        message = t.1.1.1.1.1;
      })
      (λ p. refl)
      (pair text (
        pair (coded state_code state_value state_value-code)
          (pair option (pair option (pair (coded unit_code unit_value unit_value-code) text)))))

abbrev output_serial : Serial (RunJournalStream × Text)
output_serial = pair (coded stream_code stream_value stream_value-code) text

abbrev write_payload : RunJournalEventData → Text → Text
write_payload (output stream s) rest = 0 ∷ output_serial.write (stream, s) rest
write_payload (progress p) rest = 1 ∷ progress_serial.write p rest

abbrev payload_of : ℕ → Text → RunJournalEventData × Text
payload_of zero s =
    (output (output_serial.read s).0.0 (output_serial.read s).0.1, (output_serial.read s).1)
payload_of (suc _) s = (progress (progress_serial.read s).0, (progress_serial.read s).1)

abbrev payload_of-write :
    (d : RunJournalEventData) (rest : Text)
    → payload_of (first (write_payload d rest)) (behind (write_payload d rest)) ≡ (d, rest)
payload_of-write (output stream s) rest =
    ap (λ (x : (RunJournalStream × Text) × Text). (output x.0.0 x.0.1, x.1))
      (output_serial.read-write (stream, s) rest)
payload_of-write (progress p) rest =
    ap (λ (x : CommandProgress × Text). (progress x.0, x.1)) (progress_serial.read-write p rest)

abbrev payload_serial : Serial RunJournalEventData
payload_serial = record {
  write = write_payload;
  read = λ s. payload_of (first s) (behind s);
  read-write = payload_of-write;
}

abbrev Record : Type 0
Record = Text × (Text × (ℕ × (ℕ × (RunJournalPhase × RunJournalEventData))))

abbrev stored_serial : Serial StoredRunEvent
stored_serial =
    through
      (λ (s : StoredRunEvent). (
        s.schema,
        (
          s.run_id,
          (s.event.sequence, (s.event.timestamp_unix_ms, (s.event.phase, s.event.payload))),
        ),
      ))
      (λ (t : Record). record {
        schema = t.0;
        run_id = t.1.0;
        event = record {
          sequence = t.1.1.0;
          timestamp_unix_ms = t.1.1.1.0;
          phase = t.1.1.1.1.0;
          payload = t.1.1.1.1.1;
        };
      })
      (λ s. refl)
      (pair text (
        pair text (
          pair number
            (pair number (pair (coded phase_code phase_value phase_value-code) payload_serial)))))

abbrev pub codec : Codec
codec = record {
  encode = λ s. shift (stored_serial.write s []);
  parse = λ t. some (stored_serial.read (unshift t)).0;
  parse-encode = λ s.
      ap (λ (t : Text). some (stored_serial.read t).0) (unshift-shift (stored_serial.write s []))
      ∙ ap (λ (x : StoredRunEvent × Text). some x.0) (stored_serial.read-write s []);
  encode-Avoids = λ s. shift-Avoids (stored_serial.write s []);
}
