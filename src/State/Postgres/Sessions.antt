-- ===== src/State/Postgres/Sessions.antt =====
-- The summary of a session from the two states.
use mrvacommander.Prelude.{
  ◌+◌, length, ℕ, true, ℤ, int_beq, int_eq, lookup, insert, List, [], ◌∷◌, Map, ok, err, ◌≡◌, refl,
  arith,
}
use mrvacommander.Common.Types.{JobSpec, Status, StatusSummary, status_succeeded}
use mrvacommander.Common.Errors.{Fallible}
use mrvacommander.State.Local as Local
use mrvacommander.State.Local.{LocalState}
use mrvacommander.State.Summary.{summarize, overall, count_at, tally}
use mrvacommander.State.Postgres.{PgState, Database, in_integer}
use mrvacommander.State.Postgres.Reliable.{IsReliable, get_session_status_lem}
use mrvacommander.State.Postgres.Summaries.{no_counts, count_rows, rules, summary_of_rows}
use mrvacommander.State.Postgres.Reads.{get_session_status, session_rows, values}

same_rows :
    (id : ℤ) (table : Map JobSpec Status)
    → values (session_rows id table) ≡ Local.session_rows id table
unfolding values session_rows Local.session_rows
same_rows id [] = refl
same_rows id ((js, x) ∷ table) = ground (arith, same_rows id table)

-- The summary of `LocalState`, or a success with no counts where it has no job to count.
abbrev pub or_succeeded : Fallible StatusSummary → Fallible StatusSummary
or_succeeded (ok summary) = ok summary
or_succeeded (err e) = ok (record { overall = status_succeeded; counts = (summarize []).counts })

-- Both loops count alike.
count_rows-tally :
    (counts : Map Status ℕ) (total : ℕ) (rows : List Status)
    → ((count_rows counts total rows).0 ≡ tally counts rows)
      × ((count_rows counts total rows).1 ≡ total + length rows)
unfolding count_rows tally count_at
count_rows-tally counts total [] = (refl, omega arith)
count_rows-tally counts total (st ∷ rows) =
    let (p, q) = count_rows-tally (insert st (count_at counts st + 1) counts) (total + 1) rows in
    (p, omega (arith, q))

summary_of_rows-summarize : (rows : List Status) → summary_of_rows rows ≡ summarize rows
unfolding summary_of_rows summarize rules overall count_at
summary_of_rows-summarize rows =
    let (p, q) = count_rows-tally no_counts 0 rows in
    let total : (count_rows no_counts 0 rows).1 ≡ length rows = omega (arith, q) in
    λ i. record { overall = rules (p i) (total i); counts = p i }

same_summary :
    (id : ℤ) (rows : List Status)
    → ok (summary_of_rows rows) ≡ or_succeeded (Local.summary_of id rows)
unfolding summarize overall count_at lookup int_beq tally
same_summary id [] = rw (summary_of_rows-summarize []) refl
same_summary id (r ∷ rows) = rw (summary_of_rows-summarize (r ∷ rows)) refl

-- Where reads go through, with all their rows, and for a session id of 32 bits: from the same table
-- of statuses, PGState gives the summary that LocalState gives, but where that finds no jobs and
-- returns an error, PGState reports a success.
pub get_session_status-local :
    {J : Type 0} (db : Database J) (s : PgState J) (l : LocalState) (id : ℤ)
    → IsReliable db
    → in_integer id ≡ true
    → l.status ≡ s.job_status
    → get_session_status db s id ≡ or_succeeded (Local.get_session_status l id)
unfolding Local.get_session_status
get_session_status-local db s l id reliable h same = ground (
  arith,
  get_session_status_lem db reliable s id,
  same_rows id s.job_status,
  same_summary id (Local.session_rows id s.job_status),
)
