-- ===== src/State/Postgres/Summaries.antt =====
-- pkg/state/state_postgres.go: the counts and the rules of GetSessionStatus.
use mrvacommander.Prelude.{
  ℕ, ◌+◌, int_eq, lookup, insert, Map, ◌&&◌, List, [], ◌∷◌, Option, none, some, if◌then◌else◌, ltb,
  nat_beq,
}
use mrvacommander.Common.Types.{
  Status, StatusSummary, status_pending, status_in_progress, status_succeeded, status_failed,
  status_canceled, status_timed_out,
}

-- `counts[s]`: a missing key reads as 0.
abbrev pub count : Option ℕ → ℕ
count none = 0
count (some n) = n

-- The counts and the total that the loop over the rows starts from and goes on with.
abbrev pub no_counts : Map Status ℕ
no_counts =
    (status_pending, 0)
    ∷ (status_in_progress, 0)
    ∷ (status_succeeded, 0)
    ∷ (status_failed, 0)
    ∷ (status_canceled, 0)
    ∷ (status_timed_out, 0)
    ∷ []

unfoldable pub count_rows : Map Status ℕ → ℕ → List Status → Map Status ℕ × ℕ
count_rows counts total [] = (counts, total)
count_rows counts total (st ∷ rows) =
    count_rows (insert st (count (lookup st counts) + 1) counts) (total + 1) rows

-- The `switch`.
unfoldable pub rules : Map Status ℕ → ℕ → Status
rules counts total =
    let of_status = λ (st : Status). count (lookup st counts) in
    if nat_beq (of_status status_succeeded) total
    then status_succeeded
    else if nat_beq (of_status status_failed) total
    then status_failed
    else if nat_beq (of_status status_canceled) total
    then status_canceled
    else if nat_beq (of_status status_timed_out) total
    then status_failed
    else if ltb 0 (of_status status_in_progress)
    then status_pending
    else if ltb 0 (of_status status_pending) && nat_beq (of_status status_in_progress) 0
    then status_pending
    else if nat_beq (of_status status_pending) 0 && nat_beq (of_status status_in_progress) 0
    then status_succeeded
    else status_pending

unfoldable pub summary_of_rows : List Status → StatusSummary
unfolding count_rows rules
summary_of_rows rows =
    let (counts, total) = count_rows no_counts 0 rows in
    record { overall = rules counts total; counts = counts }
