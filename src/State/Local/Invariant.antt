-- ===== src/State/Local/Invariant.antt =====
-- What holds of the state in memory between two calls.
use mrvacommander.Prelude.{
  ℕ, zero, suc, ℤ, pos, ◌<ℤ◌, ◌≤ℤ◌, max_int, increment, lt-increment, int_eq, int_beq, int_beq_iff,
  lookup, insert, lookup-insert, length-insert, Map, List, [], ◌∷◌, ◌++◌, Option, none, some,
  length, length-append, get_elem?, ◌≡◌, ◌≢◌, ◌⊎◌, inl, inr, Bool-cases, refl, arith, if◌then◌else◌,
}
use mrvacommander.Common.Types.{JobSpec}
use mrvacommander.Queue.Types.{AnalyzeJob}
use mrvacommander.State.Local.{
  LocalState, new_local_state, next_id, add_job, jobs_of, ids_of, or_empty,
}

abbrev pub spec_of : Option AnalyzeJob → Option JobSpec
spec_of none = none
spec_of (some job) = some job.spec

-- The job ids of a session number its jobs, in the order in which they were added.
pub record Aligned (jobs : List AnalyzeJob) (ids : Map ℤ JobSpec) : Type 0 where
  pub same_length : length ids ≡ length jobs
  pub numbered : (i : ℕ) → lookup (pos i) ids ≡ spec_of (get_elem? jobs i)

pub record Inv (s : LocalState) : Type 0 where
  pub aligned : (id : ℤ) → Aligned (jobs_of s id) (ids_of s id)
  -- No session above the last one that was handed out has job ids.
  pub unused : (id : ℤ) → s.current_id <ℤ id → ids_of s id ≡ []

get_elem?-append_last :
    (xs : List AnalyzeJob) (x : AnalyzeJob) (i : ℕ)
    → get_elem? (xs ++ x ∷ []) i
      ≡ (if int_beq (pos (length xs)) (pos i) then some x else get_elem? xs i)
unfolding int_beq
get_elem?-append_last [] x zero = refl
get_elem?-append_last [] x (suc i) = ground arith
get_elem?-append_last (y ∷ xs) x zero = ground arith
get_elem?-append_last (y ∷ xs) x (suc i) = ground (arith, get_elem?-append_last xs x i)

get_elem?-length : (xs : List AnalyzeJob) → get_elem? xs (length xs) ≡ none
get_elem?-length [] = refl
get_elem?-length (x ∷ xs) = get_elem?-length xs

-- One more job, under the next id.
Aligned-append :
    (jobs : List AnalyzeJob) (ids : Map ℤ JobSpec) (job : AnalyzeJob)
    → Aligned jobs ids
    → Aligned (jobs ++ job ∷ []) (insert (pos (length ids)) job.spec ids)
Aligned-append jobs ids job a = record {
  same_length = ground (
    arith,
    length-insert (pos (length ids)) job.spec ids,
    length-append jobs (job ∷ []),
    a.same_length,
    a.numbered (length ids),
    get_elem?-length jobs,
  );
  numbered = λ i. ground (
    arith,
    lookup-insert (pos (length ids)) (pos i) job.spec ids,
    get_elem?-append_last jobs job i,
    a.numbered i,
    a.same_length,
  );
}

lookup-new : (id other : ℤ) → or_empty (lookup {V = List AnalyzeJob} other ((id, []) ∷ [])) ≡ []
unfolding lookup
lookup-new id other = ground arith

lookup-new_ids : (id other : ℤ) → or_empty (lookup {V = Map ℤ JobSpec} other ((id, []) ∷ [])) ≡ []
unfolding lookup
lookup-new_ids id other = ground arith

Aligned-empty :
    (jobs : List AnalyzeJob) (ids : Map ℤ JobSpec) → jobs ≡ [] → ids ≡ [] → Aligned jobs ids
Aligned-empty jobs ids e f =
    rw (e, f) (record { same_length = refl; numbered = λ i. unfold lookup in refl })

-- A new state is well formed.
pub new_local_state-Inv : (id : ℤ) → Inv (new_local_state id)
unfolding new_local_state
new_local_state-Inv id = record {
  aligned = λ other. Aligned-empty _ _ (lookup-new id other) (lookup-new_ids id other);
  unused = λ other h. lookup-new_ids id other;
}

pub or_empty-insert :
    {A : Type 0} (k j : ℤ) (v : List A) (m : Map ℤ (List A))
    → or_empty (lookup j (insert k v m)) ≡ (if int_beq k j then v else or_empty (lookup j m))
or_empty-insert k j v m = ground (arith, lookup-insert k j v m)

or_empty-insert_self :
    {A : Type 0} (k : ℤ) (v : List A) (m : Map ℤ (List A)) → or_empty (lookup k (insert k v m)) ≡ v
or_empty-insert_self k v m = ground (arith, or_empty-insert k k v m, int_beq_iff k k)

or_empty-insert_ne :
    {A : Type 0} (k j : ℤ) (v : List A) (m : Map ℤ (List A))
    → j ≢ k
    → or_empty (lookup j (insert k v m)) ≡ or_empty (lookup j m)
or_empty-insert_ne k j v m h = ground (arith, or_empty-insert k j v m, int_beq_iff k j)

int_eq-cases : (a b : ℤ) → (a ≡ b) ⊎ (a ≢ b)
int_eq-cases a b = elim (Bool-cases (int_beq a b)) [
  | inl e ↦ inl ((int_beq_iff a b).0 e)
  | inr e ↦ inr (λ h. ground (arith, int_beq_iff a b))
]

-- `NextID` hands out a number that was not in use, and keeps the state well formed.
pub next_id-Inv :
    (s : LocalState)
    → Inv s
    → s.current_id <ℤ max_int
    → Inv (next_id s).0
      × (s.current_id <ℤ (next_id s).1)
      × (jobs_of (next_id s).0 (next_id s).1 ≡ [])
      × (ids_of (next_id s).0 (next_id s).1 ≡ [])
unfolding next_id
next_id-Inv s v h =
    let id = increment s.current_id in
    let above : s.current_id <ℤ id = lt-increment s.current_id h in
    (
      record {
        aligned = λ other. elim (int_eq-cases other id) [
          | inl e ↦ rw e (Aligned-empty _ _ (or_empty-insert_self id [] s.jobs) (v.unused id above))
          | inr e ↦ rw (or_empty-insert_ne id other [] s.jobs e) (v.aligned other)
        ];
        unused = λ other k. v.unused other (omega arith);
      },
      above,
      or_empty-insert_self id [] s.jobs,
      v.unused id above,
    )

module _ (s : LocalState) (v : Inv s) (job : AnalyzeJob) where
  abbrev id : ℤ
  id = job.spec.session_id

  abbrev added_jobs : List AnalyzeJob
  added_jobs = jobs_of s id ++ job ∷ []

  abbrev added_ids : Map ℤ JobSpec
  added_ids = insert (pos (length (ids_of s id))) job.spec (ids_of s id)

  abbrev added : LocalState
  added = record s {
    jobs = insert id added_jobs s.jobs;
    session_to_job_id_to_spec = insert id added_ids s.session_to_job_id_to_spec;
  }

  added-Aligned : Aligned added_jobs added_ids
  added-Aligned = Aligned-append (jobs_of s id) (ids_of s id) job (v.aligned id)

  add_job-added : add_job s job ≡ some added
  unfolding add_job
  add_job-added = ground (arith, added-Aligned.same_length)

  added-Inv : id ≤ℤ s.current_id → Inv added
  added-Inv issued = record {
    aligned = λ other. elim (int_eq-cases other id) [
      | inl e ↦
          rw
            (
              e,
              or_empty-insert_self id added_jobs s.jobs,
              or_empty-insert_self id added_ids s.session_to_job_id_to_spec,
            )
            added-Aligned
      | inr e ↦
          rw
            (
              or_empty-insert_ne id other added_jobs s.jobs e,
              or_empty-insert_ne id other added_ids s.session_to_job_id_to_spec e,
            )
            (v.aligned other)
    ];
    unused = λ other k.
        rw (or_empty-insert_ne id other added_ids s.session_to_job_id_to_spec (λ e. ground arith))
          (v.unused other k);
  }

-- For a session that was handed out, `AddJob` does not panic: the job stands last in its session,
-- the other sessions keep their jobs, and the state stays well formed.
pub add_job-Inv :
    (s : LocalState)
    → Inv s
    → (job : AnalyzeJob) → job.spec.session_id ≤ℤ s.current_id
    → (s' : LocalState) × (add_job s job ≡ some s')
      × Inv s'
      × (jobs_of s' job.spec.session_id ≡ jobs_of s job.spec.session_id ++ job ∷ [])
      × ((other : ℤ) → other ≢ job.spec.session_id → jobs_of s' other ≡ jobs_of s other)
      × (s'.current_id ≡ s.current_id)
add_job-Inv s v job issued = (
  added s v job,
  add_job-added s v job,
  added-Inv s v job issued,
  or_empty-insert_self job.spec.session_id (added_jobs s v job) s.jobs,
  (λ other h. or_empty-insert_ne job.spec.session_id other (added_jobs s v job) s.jobs h),
  refl,
)
