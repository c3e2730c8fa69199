-- ===== src/State/Summary/Rules.antt =====
-- What the rules for a session's status say, without the counts.
use mathlib.Core.List.{Perm}
use mrvacommander.Prelude.{
  ℕ, ◌+◌, ◌≤◌, ◌<◌, List, [], ◌∷◌, ◌≡◌, ◌≢◌, ◌↔◌, ◌⊎◌, inl, inr, refl, length, arith, All,
  if◌then◌else◌, nat_beq, ltb, Map,
}
use mrvacommander.Common.Types.{
  Status, status_pending, status_in_progress, status_succeeded, status_failed, status_canceled,
  status_timed_out,
}
use mrvacommander.State.Summary.{count_at, overall, summarize}
use mrvacommander.State.Summary.Counts.{
  occurrences, count_at-summarize, occurrences_disjoint, All-occurrences, occurrences-perm,
  length-perm,
}

-- Some job is waiting or running.
abbrev pub Unfinished : List Status → Type 0
Unfinished rows = 0 < occurrences status_pending rows + occurrences status_in_progress rows

abbrev pub AllAre : Status → List Status → Type 0
AllAre s = All (λ r. r ≡ s)

-- The `switch` over the six counts themselves.
abbrev rule : ℕ → ℕ → ℕ → ℕ → ℕ → ℕ → ℕ → Status
rule pending in_progress succeeded failed canceled timed_out total =
    if nat_beq succeeded total
    then status_succeeded
    else if nat_beq failed total
    then status_failed
    else if nat_beq canceled total
    then status_canceled
    else if nat_beq timed_out total
    then status_failed
    else if ltb 0 (pending + in_progress)
    then status_pending
    else status_succeeded

overall-count_at :
    (m : Map Status ℕ) (total : ℕ)
    → overall m total
      ≡ rule
          (count_at m status_pending)
          (count_at m status_in_progress)
          (count_at m status_succeeded)
          (count_at m status_failed)
          (count_at m status_canceled)
          (count_at m status_timed_out)
          total
unfolding overall
overall-count_at m total = ground arith

overall-summarize :
    (rows : List Status) → (summarize rows).overall ≡ overall (summarize rows).counts (length rows)
unfolding summarize
overall-summarize rows = refl

overall-rule :
    (rows : List Status)
    → (summarize rows).overall
      ≡ rule
          (occurrences status_pending rows)
          (occurrences status_in_progress rows)
          (occurrences status_succeeded rows)
          (occurrences status_failed rows)
          (occurrences status_canceled rows)
          (occurrences status_timed_out rows)
          (length rows)
overall-rule rows = simp (overall-summarize, overall-count_at, count_at-summarize)

-- The cases of `rule`, for counts that can occur together.
module _ (p i s f c t n : ℕ) (some_row : 0 < n) (fits : p + i + s + f + c + t ≤ n) where
  rule_pending : (rule p i s f c t n ≡ status_pending) ↔ (0 < p + i)
  rule_pending = ground arith

  rule_failed : (rule p i s f c t n ≡ status_failed) ↔ ((f ≡ n) ⊎ (t ≡ n))
  rule_failed = ground arith

  rule_canceled : (rule p i s f c t n ≡ status_canceled) ↔ (c ≡ n)
  rule_canceled = ground arith

  rule_succeeded :
      (rule p i s f c t n ≡ status_succeeded) ↔ ((¬ (0 < p + i)) × (f ≢ n) × (c ≢ n) × (t ≢ n))
  rule_succeeded = ground arith

length-pos : {A : Type 0} (xs : List A) → xs ≢ [] → 0 < length xs
length-pos [] h = absurd (h refl)
length-pos (x ∷ xs) h = omega arith

-- A verdict on the jobs of a session, in terms of the jobs alone.
pub record Verdict (rows : List Status) (v : Status) : Type 0 where
  pub pending : (v ≡ status_pending) ↔ Unfinished rows
  pub failed : (v ≡ status_failed) ↔ (AllAre status_failed rows ⊎ AllAre status_timed_out rows)
  pub canceled : (v ≡ status_canceled) ↔ AllAre status_canceled rows
  pub succeeded : (v ≡ status_succeeded) ↔ (
      (¬ Unfinished rows)
      × (¬ AllAre status_failed rows)
      × (¬ AllAre status_canceled rows)
      × (¬ AllAre status_timed_out rows))

rule-Verdict :
    (rows : List Status)
    → rows ≢ []
    → Verdict rows (
        rule
          (occurrences status_pending rows)
          (occurrences status_in_progress rows)
          (occurrences status_succeeded rows)
          (occurrences status_failed rows)
          (occurrences status_canceled rows)
          (occurrences status_timed_out rows)
          (length rows))
rule-Verdict rows ne =
    let n = length-pos rows ne in
    let fits = occurrences_disjoint rows in
    let f = All-occurrences status_failed rows in
    let c = All-occurrences status_canceled rows in
    let t = All-occurrences status_timed_out rows in
    let failed = rule_failed _ _ _ _ _ _ _ n fits in
    let canceled = rule_canceled _ _ _ _ _ _ _ n fits in
    let succeeded = rule_succeeded _ _ _ _ _ _ _ n fits in
    record {
      pending = rule_pending _ _ _ _ _ _ _ n fits;
      failed = (
        (λ e. elim (failed.0 e) [ inl h ↦ inl (f.1 h) | inr h ↦ inr (t.1 h) ]),
        (λ s. failed.1 (elim s [ inl h ↦ inl (f.0 h) | inr h ↦ inr (t.0 h) ])),
      );
      canceled = ((λ e. c.1 (canceled.0 e)), (λ h. canceled.1 (c.0 h)));
      succeeded = (
        (λ e.
            let (u, a, b, d) = succeeded.0 e in
            (u, (λ h. a (f.0 h)), (λ h. b (c.0 h)), (λ h. d (t.0 h)))),
        (λ h. succeeded.1 (h.0, (λ e. h.1 (f.1 e)), (λ e. h.2 (c.1 e)), (λ e. h.3 (t.1 e)))),
      );
    }

-- For a session with jobs, the summary is pending exactly while some job is pending or in
-- progress; failed exactly when all jobs failed or all timed out; canceled exactly when all were
-- canceled; and succeeded exactly in every other case.
pub summarize-Verdict : (rows : List Status) → rows ≢ [] → Verdict rows (summarize rows).overall
summarize-Verdict rows ne = rw (overall-rule rows) (rule-Verdict rows ne)

-- The order in which the jobs are visited makes no difference to the verdict or to any count.
pub summarize-perm :
    {xs ys : List Status}
    → Perm xs ys
    → ((summarize xs).overall ≡ (summarize ys).overall)
      × ((s : Status) → count_at (summarize xs).counts s ≡ count_at (summarize ys).counts s)
summarize-perm {xs} {ys} p = (
  rw (
    overall-rule xs,
    overall-rule ys,
    occurrences-perm status_pending p,
    occurrences-perm status_in_progress p,
    occurrences-perm status_succeeded p,
    occurrences-perm status_failed p,
    occurrences-perm status_canceled p,
    occurrences-perm status_timed_out p,
    length-perm p,
  ),
  (λ s. rw (count_at-summarize xs s, count_at-summarize ys s) (occurrences-perm s p)),
)
