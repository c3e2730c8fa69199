-- ===== src/State/Summary/Counts.antt =====
-- The counting loop counts.
use mathlib.Core.List.{Perm, Permᴰ}
use mathlib.Core.Logic.{∥∥₁_elim}
use native.Mathlib.Nat.{ℕ_set}
use mrvacommander.Prelude.{
  ℕ, suc, ◌+◌, ◌≤◌, int_eq, int_beq, int_beq_iff, lookup-insert, insert, lookup, Map, List, [], ◌∷◌,
  ◌≡◌, ◌↔◌, refl, ap, ◌∙◌, if◌then◌else◌, length, arith, All,
}
use mrvacommander.Common.Types.{
  Status, status_pending, status_in_progress, status_succeeded, status_failed, status_canceled,
  status_timed_out,
}
use mrvacommander.State.Summary.{initial_counts, count_at, tally, summarize}

-- How often a status stands in a list.
pub occurrences : Status → List Status → ℕ
occurrences s [] = 0
occurrences s (r ∷ rows) = (if int_beq r s then 1 else 0) + occurrences s rows

count_at-insert :
    (m : Map Status ℕ) (s r : Status) (n : ℕ)
    → count_at (insert r n m) s ≡ (if int_beq r s then n else count_at m s)
unfolding count_at
count_at-insert m s r n = ground (arith, lookup-insert r s n m)

count_at-tally :
    (rows : List Status) (m : Map Status ℕ) (s : Status)
    → count_at (tally m rows) s ≡ count_at m s + occurrences s rows
unfolding tally occurrences
count_at-tally [] m s = omega arith
count_at-tally (r ∷ rows) m s = ground (
  arith,
  count_at-tally rows (insert r (count_at m r + 1) m) s,
  count_at-insert m s r (count_at m r + 1),
  int_beq_iff r s,
)

count_at-initial : (s : Status) → count_at initial_counts s ≡ 0
unfolding count_at lookup
count_at-initial s = ground arith

-- The summary holds, for every status, known or not, how many jobs have it.
pub count_at-summarize :
    (rows : List Status) (s : Status) → count_at (summarize rows).counts s ≡ occurrences s rows
unfolding summarize
count_at-summarize rows s = omega (arith, count_at-tally rows initial_counts s, count_at-initial s)

pub occurrences-le-length : (s : Status) (rows : List Status) → occurrences s rows ≤ length rows
unfolding occurrences
occurrences-le-length s [] = omega arith
occurrences-le-length s (r ∷ rows) = ground (arith, occurrences-le-length s rows)

-- Different statuses are counted apart.
pub occurrences_disjoint :
    (rows : List Status)
    → occurrences status_pending rows
        + occurrences status_in_progress rows
        + occurrences status_succeeded rows
        + occurrences status_failed rows
        + occurrences status_canceled rows
        + occurrences status_timed_out rows
      ≤ length rows
unfolding occurrences int_beq
occurrences_disjoint [] = omega arith
occurrences_disjoint (r ∷ rows) = ground (arith, occurrences_disjoint rows)

-- All jobs have a status exactly when it is counted as often as there are jobs.
pub All-occurrences :
    (s : Status) (rows : List Status) → All (λ r. r ≡ s) rows ↔ (occurrences s rows ≡ length rows)
unfolding occurrences
All-occurrences s [] = ((λ _. refl), (λ _. tt))
All-occurrences s (r ∷ rows) = (
  (λ h. ground (arith, (All-occurrences s rows).0 h.1, int_beq_iff r s)),
  (λ h. (
    ground (arith, occurrences-le-length s rows, int_beq_iff r s),
    (All-occurrences s rows).1 (ground (arith, occurrences-le-length s rows, int_beq_iff r s)),
  )),
)

occurrences-Permᴰ :
    (s : Status) {xs ys : List Status} → Permᴰ xs ys → occurrences s xs ≡ occurrences s ys
unfolding occurrences
occurrences-Permᴰ s Permᴰ.nil = refl
occurrences-Permᴰ s (Permᴰ.cons e p) = ground (arith, occurrences-Permᴰ s p)
occurrences-Permᴰ s (Permᴰ.swap e f) = ground arith
occurrences-Permᴰ s (Permᴰ.trans p q) = occurrences-Permᴰ s p ∙ occurrences-Permᴰ s q

pub occurrences-perm :
    (s : Status) {xs ys : List Status} → Perm xs ys → occurrences s xs ≡ occurrences s ys
occurrences-perm s p = ∥∥₁_elim p (ℕ_set _ _) (occurrences-Permᴰ s)

length-Permᴰ {ℓ} : {A : Type ℓ} {xs ys : List A} → Permᴰ xs ys → length xs ≡ length ys
length-Permᴰ Permᴰ.nil = refl
length-Permᴰ (Permᴰ.cons e p) = ap suc (length-Permᴰ p)
length-Permᴰ (Permᴰ.swap e f) = refl
length-Permᴰ (Permᴰ.trans p q) = length-Permᴰ p ∙ length-Permᴰ q

pub length-perm {ℓ} : {A : Type ℓ} {xs ys : List A} → Perm xs ys → length xs ≡ length ys
length-perm p = ∥∥₁_elim p (ℕ_set _ _) length-Permᴰ
