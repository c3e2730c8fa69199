-- ===== src/State/Postgres/Connections/Progress.antt =====
-- Calls of AddJob with enough connections.
use mrvacommander.Prelude.{
  ◌⊎◌, ◌*◌, ℕ, zero, suc, ◌+◌, ◌≤◌, ◌<◌, true, false, List, [], ◌∷◌, ◌≡◌, length, arith, Bool-cases,
  ◌⊎◌, refl, inl, inr,
}
use mrvacommander.State.Postgres.Connections.{
  Stage, waiting, begun, querying, recorded, done, begins, queries, records, commits, Step, now,
  later, Run, here, next, held_all, some_can_give, left_all, Step-held, Step-left, Step-length,
  waiting_calls,
}

held_waiting_calls : (n : ℕ) → held_all (waiting_calls n) ≡ 0
held_waiting_calls zero = omega arith
held_waiting_calls (suc n) = omega (arith, held_waiting_calls n)

length-waiting_calls : (n : ℕ) → length (waiting_calls n) ≡ n
length-waiting_calls zero = omega arith
length-waiting_calls (suc n) = omega (arith, length-waiting_calls n)

left_waiting_calls : (n : ℕ) → left_all (waiting_calls n) ≡ 4 * n
left_waiting_calls zero = omega arith
left_waiting_calls (suc n) = omega (arith, left_waiting_calls n)

abbrev Next : ℕ → List Stage → Type 0
Next i calls = (j : ℕ) × (calls' : List Stage) × Step i calls j calls'

Next-later : {i : ℕ} {calls : List Stage} (a : Stage) → Next i calls → Next i (a ∷ calls)
Next-later a (j, calls', s) = (j, a ∷ calls', later s)

giving : (i : ℕ) (calls : List Stage) → some_can_give calls ≡ true → Next i calls
giving i [] e = absurd (ground arith)
giving i (waiting ∷ calls) e = Next-later waiting (giving i calls e)
giving i (begun ∷ calls) e = Next-later begun (giving i calls e)
giving i (querying ∷ calls) e = (suc i, recorded ∷ calls, now (records i))
giving i (recorded ∷ calls) e = (suc i, done ∷ calls, now (commits i))
giving i (done ∷ calls) e = Next-later done (giving i calls e)

taking : (i : ℕ) (calls : List Stage) → 0 < left_all calls → Next (suc i) calls
taking i [] h = absurd (omega arith)
taking i (waiting ∷ calls) h = (i, begun ∷ calls, now (begins i))
taking i (begun ∷ calls) h = (i, querying ∷ calls, now (queries i))
taking i (querying ∷ calls) h = (suc (suc i), recorded ∷ calls, now (records (suc i)))
taking i (recorded ∷ calls) h = (suc (suc i), done ∷ calls, now (commits (suc i)))
taking i (done ∷ calls) h = Next-later done (taking i calls (omega arith))

held-le-length : (calls : List Stage) → some_can_give calls ≡ false → held_all calls ≤ length calls
held-le-length [] e = omega arith
held-le-length (waiting ∷ calls) e = omega (arith, held-le-length calls e)
held-le-length (begun ∷ calls) e = omega (arith, held-le-length calls e)
held-le-length (querying ∷ calls) e = absurd (ground arith)
held-le-length (recorded ∷ calls) e = absurd (ground arith)
held-le-length (done ∷ calls) e = omega (arith, held-le-length calls e)

progress :
    (i : ℕ) (calls : List Stage)
    → length calls < i + held_all calls
    → 0 < left_all calls
    → Next i calls
progress zero calls h l = elim (Bool-cases (some_can_give calls)) [
  | inl e ↦ giving zero calls e
  | inr e ↦ absurd (omega (arith, held-le-length calls e))
]
progress (suc i) calls h l = taking i calls l

zero_or_pos : (n : ℕ) → (n ≡ 0) ⊎ (0 < n)
zero_or_pos zero = inl refl
zero_or_pos (suc n) = inr (omega arith)

-- What holds of every state of a run.
record Kept (conns n i : ℕ) (calls : List Stage) (steps : ℕ) : Type 0 where
  held_conns : i + held_all calls ≡ conns
  all_calls : length calls ≡ n
  steps_left : steps + left_all calls ≡ 4 * n

pub run_length : {i : ℕ} {c : List Stage} {j : ℕ} {d : List Stage} → Run i c j d → ℕ
run_length here = 0
run_length (next r s) = suc (run_length r)

Run-Kept :
    {conns n i : ℕ} {calls : List Stage}
    → (r : Run conns (waiting_calls n) i calls) → Kept conns n i calls (run_length r)
unfolding run_length
Run-Kept {n = n} here = record {
  held_conns = omega (arith, held_waiting_calls n);
  all_calls = length-waiting_calls n;
  steps_left = omega (arith, left_waiting_calls n);
}
Run-Kept (next r s) =
    let k = Run-Kept r in
    record {
      held_conns = omega (arith, Step-held s, k.held_conns);
      all_calls = omega (arith, Step-length s, k.all_calls);
      steps_left = omega (arith, Step-left s, k.steps_left);
    }

-- With fewer calls at a time than connections in the pool, no call waits for ever: as long as one
-- is not done, some call can take a step, and all are done after four steps for each.
pub fewer_calls_finish :
    {conns n i : ℕ} {calls : List Stage}
    → n < conns
    → (r : Run conns (waiting_calls n) i calls)
    → (run_length r + left_all calls ≡ 4 * n)
      × ((left_all calls ≡ 0) ⊎ ((j : ℕ) × (calls' : List Stage) × Step i calls j calls'))
fewer_calls_finish {i = i} {calls = calls} few r =
    let k = Run-Kept r in
    (
      k.steps_left,
      elim (zero_or_pos (left_all calls)) [
        | inl e ↦ inl e
        | inr h ↦ inr (progress i calls (omega (arith, k.held_conns, k.all_calls)) h)
      ],
    )
