-- ===== src/State/Summary.antt =====
-- The status of a session, from the statuses of its jobs: the counting loop and the rules of
-- pkg/state/state_local.go.
pub mod Counts
pub mod Rules
use mrvacommander.Prelude.{
  ℕ, ◌+◌, int_eq, lookup, insert, Map, ◌&&◌, List, [], ◌∷◌, Option, none, some, if◌then◌else◌, ltb,
  nat_beq, length,
}
use mrvacommander.Common.Types.{
  Status, StatusSummary, status_pending, status_in_progress, status_succeeded, status_failed,
  status_canceled, status_timed_out,
}

-- The literal that `counts` starts from.
abbrev pub initial_counts : Map Status ℕ
initial_counts =
    (status_pending, 0)
    ∷ (status_in_progress, 0)
    ∷ (status_succeeded, 0)
    ∷ (status_failed, 0)
    ∷ (status_canceled, 0)
    ∷ (status_timed_out, 0)
    ∷ []

abbrev or_zero : Option ℕ → ℕ
or_zero none = 0
or_zero (some n) = n

-- `counts[s]`: a missing key reads as 0.
unfoldable pub count_at : Map Status ℕ → Status → ℕ
count_at counts s = or_zero (lookup s counts)

-- The loop: `counts[status]++` for each status.
unfoldable pub tally : Map Status ℕ → List Status → Map Status ℕ
unfolding count_at
tally counts [] = counts
tally counts (s ∷ rows) = tally (insert s (count_at counts s + 1) counts) rows

-- The `switch` over the counts.
unfoldable pub overall : Map Status ℕ → ℕ → Status
overall counts total =
    if nat_beq (count_at counts status_succeeded) total
    then status_succeeded
    else if nat_beq (count_at counts status_failed) total
    then status_failed
    else if nat_beq (count_at counts status_canceled) total
    then status_canceled
    else if nat_beq (count_at counts status_timed_out) total
    then status_failed
    else if ltb 0 (count_at counts status_in_progress)
    then status_pending
    else if ltb 0 (count_at counts status_pending) && nat_beq (count_at counts status_in_progress) 0
    then status_pending
    else if nat_beq (count_at counts status_pending) 0
        && nat_beq (count_at counts status_in_progress) 0
    then status_succeeded
    else status_pending

unfoldable pub summarize : List Status → StatusSummary
summarize rows =
    let counts = tally initial_counts rows in
    record { overall = overall counts (length rows); counts = counts }
