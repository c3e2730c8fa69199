-- ===== src/State/Postgres/Connections.antt =====
-- The connections that calls of AddJob hold when they run at the same time: `Begin` takes one from
-- the pool and keeps it to the end, and GetRepoId takes a second one in between.
pub mod Progress
pub mod Deadlock
use mrvacommander.Prelude.{
  ℕ, zero, suc, ◌+◌, Bool, true, false, ◌||◌, List, [], ◌∷◌, ◌≡◌, length, arith,
}

-- Where a call of AddJob stands.
pub data Stage : Type 0 where
  waiting : Stage  -- before `s.pool.Begin`
  begun : Stage  -- before `s.GetRepoId`
  querying : Stage  -- in GetRepoId, with its connection
  recorded : Stage  -- before `tx.Commit`
  done : Stage

-- A step of one call, with the number of idle connections before and after it.
pub data Move : ℕ → Stage → ℕ → Stage → Type 0 where
  begins : (idle : ℕ) → Move (suc idle) waiting idle begun
  queries : (idle : ℕ) → Move (suc idle) begun idle querying
  records : (idle : ℕ) → Move idle querying (suc idle) recorded
  commits : (idle : ℕ) → Move idle recorded (suc idle) done

-- A step of some call among several.
pub data Step : ℕ → List Stage → ℕ → List Stage → Type 0 where
  now :
      {i j : ℕ} {a b : Stage} {calls : List Stage} → Move i a j b → Step i (a ∷ calls) j (b ∷ calls)
  later :
      {i j : ℕ} {a : Stage} {calls calls' : List Stage}
      → Step i calls j calls'
      → Step i (a ∷ calls) j (a ∷ calls')

pub data Run (i : ℕ) (calls : List Stage) : ℕ → List Stage → Type 0 where
  here : Run i calls i calls
  next :
      {j k : ℕ} {calls' calls'' : List Stage}
      → Run i calls j calls'
      → Step j calls' k calls''
      → Run i calls k calls''

abbrev pub held : Stage → ℕ
held waiting = 0
held begun = 1
held querying = 2
held recorded = 1
held done = 0

abbrev pub held_all : List Stage → ℕ
held_all [] = 0
held_all (a ∷ calls) = held a + held_all calls

-- The steps that are left.
abbrev left : Stage → ℕ
left waiting = 4
left begun = 3
left querying = 2
left recorded = 1
left done = 0

abbrev pub left_all : List Stage → ℕ
left_all [] = 0
left_all (a ∷ calls) = left a + left_all calls

-- The calls of requests that have just come in.
abbrev pub waiting_calls : ℕ → List Stage
waiting_calls zero = []
waiting_calls (suc n) = waiting ∷ waiting_calls n

abbrev pub can_give : Stage → Bool
can_give querying = true
can_give recorded = true
can_give _ = false

abbrev pub some_can_give : List Stage → Bool
some_can_give [] = false
some_can_give (a ∷ calls) = can_give a || some_can_give calls

Move-held : {i j : ℕ} {a b : Stage} → Move i a j b → i + held a ≡ j + held b
Move-held (begins i) = omega arith
Move-held (queries i) = omega arith
Move-held (records i) = omega arith
Move-held (commits i) = omega arith

pub Step-held : {i j : ℕ} {c d : List Stage} → Step i c j d → i + held_all c ≡ j + held_all d
Step-held (now m) = omega (arith, Move-held m)
Step-held (later s) = omega (arith, Step-held s)

Move-left : {i j : ℕ} {a b : Stage} → Move i a j b → left a ≡ left b + 1
Move-left (begins i) = omega arith
Move-left (queries i) = omega arith
Move-left (records i) = omega arith
Move-left (commits i) = omega arith

pub Step-left : {i j : ℕ} {c d : List Stage} → Step i c j d → left_all c ≡ left_all d + 1
Step-left (now m) = omega (arith, Move-left m)
Step-left (later s) = omega (arith, Step-left s)

pub Step-length : {i j : ℕ} {c d : List Stage} → Step i c j d → length c ≡ length d
Step-length (now m) = omega arith
Step-length (later s) = omega (arith, Step-length s)
