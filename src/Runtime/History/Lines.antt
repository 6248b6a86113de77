-- ===== src/Runtime/History/Lines.antt =====
-- The lines of an events file, and the file that a list of events is stored as.
use mathlib.Core.List.{append_assoc}
use swaw_kit.Prelude.{
  ℕ, suc, ◌+◌, ◌≤◌, ◌≡◌, refl, sym, ap, ◌-◌, ◌∙◌, Option, some, List, [], ◌∷◌, ◌++◌, arith, length,
  length-append, Text, Avoids,
}
use swaw_kit.Runtime.Journal.{RunJournalEvent}
use swaw_kit.Runtime.History.{StoredRunEvent, journal_event_schema, split_lines, take_bytes}

pub split_lines-append :
    (line rest : Text)
    → Avoids b'\n' line
    → split_lines (line ++ (b'\n' ∷ rest)) ≡ (line ∷ (split_lines rest).0, (split_lines rest).1)
unfolding split_lines
split_lines-append [] rest h = refl
split_lines-append (c ∷ line) rest (p, h) = ground (arith, split_lines-append line rest h)

pub split_lines_of_Avoids : (tail : Text) → Avoids b'\n' tail → split_lines tail ≡ ([], tail)
unfolding split_lines
split_lines_of_Avoids [] h = refl
split_lines_of_Avoids (c ∷ tail) (p, h) = ground (arith, split_lines_of_Avoids tail h)

-- The encoding of a record by serde_json: it is read back as it was, and holds no line feed.
pub record Codec : Type 0 where
  pub encode : StoredRunEvent → Text
  pub parse : Text → Option StoredRunEvent
  pub parse-encode : (s : StoredRunEvent) → parse (encode s) ≡ some s
  pub encode-Avoids : (s : StoredRunEvent) → Avoids b'\n' (encode s)

-- The record that `Writer::append` stores for an event of the run `id`.
abbrev pub stored : Text → RunJournalEvent → StoredRunEvent
stored id event = record { schema = journal_event_schema; run_id = id; event = event }

-- The content of the events file: the records, and `tail` behind them.
abbrev pub file_of : Codec → Text → List RunJournalEvent → Text → Text
file_of codec id [] tail = tail
file_of codec id (e ∷ es) tail = codec.encode (stored id e) ++ (b'\n' ∷ file_of codec id es tail)

-- The lengths of the records.
abbrev pub records_bytes : Codec → Text → List RunJournalEvent → ℕ
records_bytes codec id [] = 0
records_bytes codec id (e ∷ es) =
    suc (length (codec.encode (stored id e))) + records_bytes codec id es

abbrev pub lines_of : Codec → Text → List RunJournalEvent → List Text
lines_of codec id [] = []
lines_of codec id (e ∷ es) = codec.encode (stored id e) ∷ lines_of codec id es

pub split_lines-file_of :
    (codec : Codec) (id : Text) (es : List RunJournalEvent) (tail : Text)
    → Avoids b'\n' tail
    → split_lines (file_of codec id es tail) ≡ (lines_of codec id es, tail)
split_lines-file_of codec id [] tail h = split_lines_of_Avoids tail h
split_lines-file_of codec id (e ∷ es) tail h =
    split_lines-append (codec.encode (stored id e)) (file_of codec id es tail)
      (codec.encode-Avoids (stored id e))
    ∙ ap (λ (p : List Text × Text). (codec.encode (stored id e) ∷ p.0, p.1))
        (split_lines-file_of codec id es tail h)

take_bytes-append : (s t : Text) (n : ℕ) → n ≡ length s → take_bytes n (s ++ t) ≡ s
take_bytes-append [] [] n h = refl
take_bytes-append [] (c ∷ t) n h = ground (arith, h)
take_bytes-append (c ∷ s) t n h = ground (arith, take_bytes-append s t (n - 1))

records_bytes-length :
    (codec : Codec) (id : Text) (es : List RunJournalEvent)
    → records_bytes codec id es ≡ length (file_of codec id es [])
records_bytes-length codec id [] = refl
records_bytes-length codec id (e ∷ es) = omega (
  arith,
  records_bytes-length codec id es,
  length-append {0} (codec.encode (stored id e)) (b'\n' ∷ file_of codec id es []),
)

file_of-append :
    (codec : Codec) (id : Text) (es : List RunJournalEvent) (tail : Text)
    → file_of codec id es tail ≡ file_of codec id es [] ++ tail
file_of-append codec id [] tail = refl
file_of-append codec id (e ∷ es) tail =
    ap (λ (l : Text). codec.encode (stored id e) ++ (b'\n' ∷ l)) (file_of-append codec id es tail)
    ∙ sym (append_assoc (codec.encode (stored id e)) (b'\n' ∷ file_of codec id es []) tail)

-- Cutting the file at the end of its records drops what is behind them.
pub take_bytes-file_of :
    (codec : Codec) (id : Text) (es : List RunJournalEvent) (tail : Text)
    → take_bytes (records_bytes codec id es) (file_of codec id es tail) ≡ file_of codec id es []
take_bytes-file_of codec id es tail =
    ap (take_bytes (records_bytes codec id es)) (file_of-append codec id es tail)
    ∙ take_bytes-append (file_of codec id es []) tail (records_bytes codec id es)
        (records_bytes-length codec id es)

pub file_of-le :
    (codec : Codec) (id : Text) (es : List RunJournalEvent) (tail : Text)
    → length (file_of codec id es []) ≤ length (file_of codec id es tail)
file_of-le codec id es tail = omega (
  arith,
  ap (λ (l : Text). length l) (file_of-append codec id es tail),
  length-append {0} (file_of codec id es []) tail,
)
