-- ===== src/Runtime/Tests/Listings.antt =====
-- A directory with two runs and a file that is none, in two orders.
use swaw_kit.Prelude.{
  ℕ, ◌≡◌, refl, false, none, List, [], ◌∷◌, arith, sort, text_le, swap_heads, Text, ascii, ok,
}
use swaw_kit.Runtime.Journal.{cli, running, StoredRunState}
use swaw_kit.Runtime.History.Listing.{
  RunJournalSummary, summary_of, read_run_history, collect_states, valid_run_id, run_id_bytes,
}
use swaw_kit.Runtime.History.Listing.Order.{Entry, IsNamed, HasNames, read_run_history-reordered}

abbrev first_id : Text
first_id = ascii "00000000000000000000000000000001-0000000a-0000000000000001"

abbrev second_id : Text
second_id = ascii "00000000000000000000000000000002-0000000a-0000000000000002"

abbrev state_of : Text → ℕ → StoredRunState
state_of id started = record {
  id = id;
  address = ascii "/:dev";
  source = cli;
  status = running;
  started_at_unix_ms = started;
  finished_at_unix_ms = none;
  exit_code = none;
  error = none;
  argument_count = 0;
  event_count = 0;
  truncated = false;
}

abbrev first_entry : Entry
first_entry = (first_id, ok (state_of first_id 5))

abbrev second_entry : Entry
second_entry = (second_id, ok (state_of second_id 6))

abbrev listing : List Entry
listing = first_entry ∷ second_entry ∷ []

abbrev reversed : List Entry
reversed = second_entry ∷ first_entry ∷ []

abbrev summaries : List RunJournalSummary
summaries = summary_of (state_of second_id 6) ∷ summary_of (state_of first_id 5) ∷ []

listing_read : read_run_history listing ≡ ok summaries
unfolding read_run_history collect_states valid_run_id run_id_bytes sort text_le
listing_read = refl

entry-IsNamed : (id : Text) (started : ℕ) → IsNamed (id, ok (state_of id started))
entry-IsNamed id started s same = ground arith

listing-HasNames : HasNames listing
listing-HasNames = ((λ same. ground (arith, same), tt), (tt, tt))

read_run_history-reordered_example : read_run_history reversed ≡ ok summaries
read_run_history-reordered_example =
    read_run_history-reordered summaries (swap_heads first_entry second_entry [])
      (entry-IsNamed first_id 5, (entry-IsNamed second_id 6, tt)) listing-HasNames listing_read
