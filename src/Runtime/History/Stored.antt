-- ===== src/Runtime/History/Stored.antt =====
-- Reading an events file that holds the records of a contiguous stream.
use mathlib.Core.List.{append_assoc, append-nil}
use swaw_kit.Prelude.{
  ℕ, suc, ◌+◌, ◌≤◌, ◌≢◌, ◌≡◌, refl, sym, ap, subst, ◌∙◌, ◌&&◌, ◌||◌, not, inl, inr, Bool, true,
  false, Bool-cases, List, [], ◌∷◌, ◌++◌, arith, ltb, leb, ◌==◌, length, length-append, keep,
  is_empty, Text, text_eq_self, Avoids, ok, err, ◌>>=◌,
}
use swaw_kit.Runtime.Journal.{RunJournalEvent, retained_bytes}
use swaw_kit.Runtime.Run.Trim.{total_bytes, IsWithin, Needed, trim-IsTrimmed}
use swaw_kit.Runtime.Run.Invariant.{total_bytes-snoc}
use swaw_kit.Runtime.History.{
  HistoryResult, journal_event_schema, incomplete_record, split_lines, Reading, start_reading,
  take_event, EventRead, read_line, read_lines, read_events,
}
use swaw_kit.Runtime.History.Lines.{
  Codec, stored, file_of, records_bytes, lines_of, split_lines-file_of,
}

-- The sequence numbers count on from `first`, exclusive, to `last`.
abbrev pub Contiguous : ℕ → List RunJournalEvent → ℕ → Type 0
Contiguous first [] last = first ≡ last
Contiguous first (e ∷ es) last = (e.sequence ≡ first + 1) × Contiguous e.sequence es last

-- The events behind the reader's cursor.
abbrev pub wanted : ℕ → List RunJournalEvent → List RunJournalEvent
wanted after es = keep (λ (e : RunJournalEvent). ltb after e.sequence) es

-- A response to the events `asked`: the longest end of them within the limits of a response, all of
-- them unless it says that it is truncated.
pub record IsResponse (asked : List RunJournalEvent) (events : List RunJournalEvent)
    (truncated : Bool) : Type 0 where
  pub gone : List RunJournalEvent
  pub parts : asked ≡ gone ++ events
  pub flag : truncated ≡ not (is_empty gone)
  pub within : IsWithin events
  pub needed : Needed gone events

record IsReading (asked : List RunJournalEvent) (r : Reading) : Type 0 where
  response : IsResponse asked r.events r.truncated
  counted : r.response_bytes ≡ total_bytes r.events

flag-append :
    (first second : List RunJournalEvent)
    → (not (is_empty first) || not (is_empty second)) ≡ not (is_empty (first ++ second))
flag-append [] second = refl
flag-append (x ∷ first) second = refl

shorter-IsWithin :
    (es : List RunJournalEvent) (e : RunJournalEvent) → IsWithin (es ++ e ∷ []) → IsWithin es
shorter-IsWithin es e (bytes, count) = (
  omega (arith, bytes, total_bytes-snoc es e),
  omega (arith, count, length-append {0} es (e ∷ [])),
)

-- A longer suffix stays over a limit when an event is added behind it.
Needed-snoc :
    (gone events : List RunJournalEvent) (e : RunJournalEvent) (more kept : List RunJournalEvent)
    → Needed gone events
    → events ++ e ∷ [] ≡ more ++ kept
    → Needed more kept
    → Needed (gone ++ more) kept
Needed-snoc [] events e more kept h parts k = k
Needed-snoc (x ∷ gone) events e more kept (over, h) parts k =
    let longer : (x ∷ ((gone ++ more) ++ kept)) ≡ (x ∷ (gone ++ events)) ++ e ∷ [] =
      ap (λ (l : List RunJournalEvent). x ∷ l)
        (append_assoc gone more kept
          ∙ ap (λ (l : List RunJournalEvent). gone ++ l) (sym parts)
          ∙ sym (append_assoc gone events (e ∷ []))) in
    (
      λ within. over (shorter-IsWithin (x ∷ (gone ++ events)) e (subst IsWithin longer within)),
      Needed-snoc gone events e more kept h parts k,
    )

take_event-IsReading :
    (after : ℕ) (asked : List RunJournalEvent) (e : RunJournalEvent) (r : Reading)
    → IsReading asked r
    → IsReading (asked ++ wanted after (e ∷ [])) (take_event after e r)
unfolding take_event
take_event-IsReading after asked e r h = elim (Bool-cases (leb e.sequence after)) [
  | inl old ↦
      let skipped : asked ++ wanted after (e ∷ []) ≡ asked =
        ap (λ (l : List RunJournalEvent). asked ++ l) (ground arith) ∙ append-nil asked in
      simp old (record {
        response =
            subst (λ (l : List RunJournalEvent). IsResponse l r.events r.truncated) (sym skipped)
              h.response;
        counted = h.counted;
      })
  | inr new ↦
      let taken : asked ++ wanted after (e ∷ []) ≡ asked ++ e ∷ [] =
        ap (λ (l : List RunJournalEvent). asked ++ l) (ground arith) in
      let size : r.response_bytes + retained_bytes e ≡ total_bytes (r.events ++ e ∷ []) =
        omega (arith, h.counted, total_bytes-snoc r.events e) in
      let t = trim-IsTrimmed (r.events ++ e ∷ []) r.truncated in
      let o = h.response in
      simp (new, size)
        (record {
          response = record {
            gone = o.gone ++ t.gone;
            parts =
                taken
                ∙ ap (λ (l : List RunJournalEvent). l ++ e ∷ []) o.parts
                ∙ append_assoc o.gone r.events (e ∷ [])
                ∙ ap (λ (l : List RunJournalEvent). o.gone ++ l) t.parts
                ∙ sym (append_assoc o.gone t.gone _);
            flag =
                t.flag
                ∙ ap (λ (b : Bool). b || not (is_empty t.gone)) o.flag
                ∙ flag-append o.gone t.gone;
            within = t.within;
            needed = Needed-snoc o.gone r.events e t.gone _ o.needed t.parts t.needed;
          };
          counted = t.counted;
        })
]

-- What the rounds over the records leave.
record IsRead (codec : Codec) (id : Text) (asked : List RunJournalEvent) (last bytes : ℕ)
    (r : Reading) : Type 0 where
  reading : IsReading asked r
  cursor : r.previous_sequence ≡ last
  valid : r.valid_bytes ≡ bytes

module _ (codec : Codec) (id : Text) (after : ℕ) where
  read_line-ok :
      (e : RunJournalEvent) (r : Reading)
      → e.sequence ≡ r.previous_sequence + 1
      → read_line codec.parse id after (codec.encode (stored id e)) r
        ≡ ok (
            take_event after e (record r {
              valid_bytes = r.valid_bytes + suc (length (codec.encode (stored id e)));
            }))
  unfolding read_line
  read_line-ok e r next =
      let number : (e.sequence == r.previous_sequence + 1) ≡ true = ground arith in
      simp
        (
          codec.parse-encode (stored id e),
          text_eq_self journal_event_schema,
          text_eq_self id,
          number,
        )
        refl

  take_event_rest :
      (e : RunJournalEvent) (r : Reading)
      → ((take_event after e r).previous_sequence ≡ e.sequence)
        × ((take_event after e r).valid_bytes ≡ r.valid_bytes)
  unfolding take_event
  take_event_rest e r = ground arith

  -- The loop succeeds on the records of a contiguous stream.
  read_lines-IsRead :
      (es asked : List RunJournalEvent) (last : ℕ) (r : Reading)
      → IsReading asked r
      → Contiguous r.previous_sequence es last
      → (next : Reading) × (read_lines codec.parse id after (lines_of codec id es) r ≡ ok next)
        × IsRead codec id
            (asked ++ wanted after es)
            last
            (r.valid_bytes + records_bytes codec id es)
            next
  unfolding read_lines
  read_lines-IsRead [] asked last r h c = (
    r,
    refl,
    record {
      reading = subst (λ (l : List RunJournalEvent). IsReading l r) (sym (append-nil asked)) h;
      cursor = c;
      valid = omega arith;
    },
  )
  read_lines-IsRead (e ∷ es) asked last r h (number, c) =
      let longer : Reading = record r {
        valid_bytes = r.valid_bytes + suc (length (codec.encode (stored id e)));
      } in
      let kept =
        take_event-IsReading after asked e longer
          (record { response = h.response; counted = h.counted }) in
      let (cursor, bytes) = take_event_rest e longer in
      let (next, done, read) =
        read_lines-IsRead es (asked ++ wanted after (e ∷ [])) last (take_event after e longer) kept
          (subst (λ (n : ℕ). Contiguous n es last) (sym cursor) c) in
      let grouped : (asked ++ wanted after (e ∷ [])) ++ wanted after es
          ≡ asked ++ wanted after (e ∷ es) =
        append_assoc asked (wanted after (e ∷ [])) (wanted after es)
        ∙ ap (λ (l : List RunJournalEvent). asked ++ l) (ground arith) in
      (
        next,
        ap
              (λ (m : HistoryResult Reading).
                m >>= read_lines codec.parse id after (lines_of codec id es))
              (read_line-ok e r number)
            ∙ done,
        record {
          reading = subst (λ (l : List RunJournalEvent). IsReading l next) grouped read.reading;
          cursor = read.cursor;
          valid = omega (arith, read.valid, bytes);
        },
      )

-- What is read of a file of records with `tail` behind them.
pub record IsEventRead (asked : List RunJournalEvent) (last bytes : ℕ) (tail : Text)
    (read : EventRead) : Type 0 where
  pub response : IsResponse asked read.events read.response_truncated
  pub cursor : read.next_cursor ≡ last
  pub valid : read.valid_bytes ≡ bytes
  pub tailed : read.incomplete_tail ≡ not (is_empty tail)

start_reading-IsReading : IsReading [] start_reading
start_reading-IsReading = record {
  response = record { gone = []; parts = refl; flag = refl; within = omega arith; needed = tt };
  counted = refl;
}

module _ (codec : Codec) (id : Text) (after : ℕ) (es : List RunJournalEvent) (last : ℕ)
    (tail : Text) (contiguous : Contiguous 0 es last) (clean : Avoids b'\n' tail)
    (fits : length (file_of codec id es tail) ≤ 8388608) where
  short : ltb 8388608 (length (file_of codec id es tail)) ≡ false
  short = ground (arith, fits)

  parts : split_lines (file_of codec id es tail) ≡ (lines_of codec id es, tail)
  parts = split_lines-file_of codec id es tail clean

  -- The records of a contiguous stream are all read, where nothing is behind them or an
  -- incomplete record is allowed there: the answer holds the wanted events, and what is behind the
  -- records is told apart.
  pub read_events-file_of :
      (allow : Bool)
      → (not (is_empty tail) && not allow) ≡ false
      → (read : EventRead) × (read_events codec.parse id after allow (file_of codec id es tail)
          ≡ ok read)
        × IsEventRead (wanted after es) last (records_bytes codec id es) tail read
  unfolding read_events
  read_events-file_of allow fine =
      let (r, done, read) =
        read_lines-IsRead codec id after es [] last start_reading start_reading-IsReading
          contiguous in
      (
        record {
          events = r.events;
          next_cursor = r.previous_sequence;
          response_truncated = r.truncated;
          valid_bytes = r.valid_bytes;
          incomplete_tail = not (is_empty tail);
        },
        simp (short, parts, done, fine) refl,
        record {
          response = read.reading.response;
          cursor = read.cursor;
          valid = omega (arith, read.valid);
          tailed = refl;
        },
      )

  -- An incomplete record is an error where it is not allowed.
  pub read_events_incomplete :
      tail ≢ []
      → read_events codec.parse id after false (file_of codec id es tail) ≡ err incomplete_record
  unfolding read_events
  read_events_incomplete some_tail =
      let (r, done, _) =
        read_lines-IsRead codec id after es [] last start_reading start_reading-IsReading
          contiguous in
      let there : is_empty tail ≡ false = ground (arith, some_tail) in
      simp (short, parts, done, there) refl
