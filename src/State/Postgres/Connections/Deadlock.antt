-- ===== src/State/Postgres/Connections/Deadlock.antt =====
-- Calls of AddJob that wait for each other.
use mrvacommander.Prelude.{ℕ, zero, suc, ◌<◌, true, false, List, ◌∷◌, ◌++◌, ◌≡◌, arith, refl}
use mrvacommander.State.Postgres.Connections.{
  Stage, begun, begins, queries, records, commits, Step, now, later, Run, here, next, some_can_give,
  left_all, waiting_calls,
}

-- All calls at their second connection.
abbrev pub begun_calls : ℕ → List Stage → List Stage
begun_calls zero rest = rest
begun_calls (suc n) rest = begun ∷ begun_calls n rest

Run-later :
    {i : ℕ} {c : List Stage} {j : ℕ} {d : List Stage} (a : Stage)
    → Run i c j d
    → Run i (a ∷ c) j (a ∷ d)
Run-later a here = here
Run-later a (next r s) = next (Run-later a r) (later s)

Run-trans :
    {i : ℕ} {c : List Stage} {j : ℕ} {d : List Stage} {k : ℕ} {e : List Stage}
    → Run i c j d
    → Run j d k e
    → Run i c k e
Run-trans r here = r
Run-trans r (next q s) = next (Run-trans r q) s

all_begin : (n : ℕ) (rest : List Stage) → Run n (waiting_calls n ++ rest) 0 (begun_calls n rest)
all_begin zero rest = here
all_begin (suc n) rest = Run-trans (next here (now (begins n))) (Run-later begun (all_begin n rest))

Step-gives : {i j : ℕ} {c d : List Stage} → Step i c j d → i ≡ 0 → some_can_give c ≡ true
Step-gives (now (begins i)) e = absurd (omega arith)
Step-gives (now (queries i)) e = absurd (omega arith)
Step-gives (now (records i)) e = refl
Step-gives (now (commits i)) e = refl
Step-gives (later s) e = ground (arith, Step-gives s e)

begun_give : (n m : ℕ) → some_can_give (begun_calls n (waiting_calls m)) ≡ false
begun_give zero zero = refl
begun_give zero (suc m) = begun_give zero m
begun_give (suc n) m = begun_give n m

left_begun : (n m : ℕ) → 0 < n → 0 < left_all (begun_calls n (waiting_calls m))
left_begun zero m h = absurd (omega arith)
left_begun (suc n) m h = omega arith

-- With as many calls at a time as connections, or more, all can stop for ever: each holds the
-- connection of its transaction, none is left for GetRepoId, and no call is done.
pub calls_deadlock :
    (conns more : ℕ)
    → 0 < conns
    → Run conns
        (waiting_calls conns ++ waiting_calls more)
        0
        (begun_calls conns (waiting_calls more))
      × (0 < left_all (begun_calls conns (waiting_calls more)))
      × ((j : ℕ) (d : List Stage) → ¬ Step 0 (begun_calls conns (waiting_calls more)) j d)
calls_deadlock conns more h = (
  all_begin conns (waiting_calls more),
  left_begun conns more h,
  λ j d s. ground (arith, Step-gives s refl, begun_give conns more),
)
