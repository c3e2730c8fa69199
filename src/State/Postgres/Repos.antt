-- ===== src/State/Postgres/Repos.antt =====
-- The ids of repositories in job_repo_map, over every sequence of method calls.
pub mod Unique
use mathlib.Core.Path.{subst}
use mrvacommander.Prelude.{
  ℕ, ◌+◌, ◌≤◌, ◌<◌, ℤ, pos, int_beq, int_beq_iff, [], ◌∷◌, Map, lookup, insert, lookup-insert,
  Option, none, some, ◌≡◌, All, refl, if◌then◌else◌, arith,
}
use mrvacommander.Common.Types.{NameWithOwner, nwo_eq, nwo_beq_iff}
use mrvacommander.State.Postgres.{PgState, Database, max_serial, empty_tables}
use mrvacommander.State.Postgres.Reads.{repo_with_id}
use mrvacommander.State.Postgres.Writes.{
  next_id, set_result, set_job_info, set_status, get_repo_id, add_job_steps, repo_row, with_job,
}
use mrvacommander.State.Postgres.Calls.{
  Call, Calls, issued, result_set, info_set, status_set, repo_taken, job_added, here, next,
}

-- Every id was drawn from the sequence, and leads back to its repository.
pub record Numbered {J : Type 0} (s : PgState J) : Type 0 where
  pub drawn : All (λ (row : NameWithOwner × ℕ). row.1 ≤ s.job_repo_id_seq) s.job_repo_map
  pub limit : s.job_repo_id_seq ≤ max_serial
  pub back :
      (nwo : NameWithOwner) (n : ℕ)
      → lookup nwo s.job_repo_map ≡ some n
      → repo_with_id (pos n) s.job_repo_map ≡ some nwo

-- No row has a number above all that were drawn.
repo_with_id_fresh :
    (m n : ℕ) (table : Map NameWithOwner ℕ)
    → All (λ (row : NameWithOwner × ℕ). row.1 ≤ m) table
    → m < n
    → repo_with_id (pos n) table ≡ none
unfolding repo_with_id int_beq
repo_with_id_fresh m n [] all h = refl
repo_with_id_fresh m n ((nwo, k) ∷ table) all h = ground (arith, repo_with_id_fresh m n table all.1)

-- A new repository is found by its new number, and the others as before.
repo_with_id-insert :
    (id : ℤ) (nwo : NameWithOwner) (n : ℕ) (table : Map NameWithOwner ℕ)
    → lookup nwo table ≡ none
    → repo_with_id id (insert nwo n table) ≡ elim (repo_with_id id table) [
      | none ↦ if int_beq (pos n) id then some nwo else none
      | some other ↦ some other
    ]
unfolding repo_with_id lookup insert
repo_with_id-insert id nwo n [] absent = ground arith
repo_with_id-insert id nwo n ((k, m) ∷ table) absent =
    ground (arith, repo_with_id-insert id nwo n table)

All-weaken :
    (m n : ℕ) (table : Map NameWithOwner ℕ)
    → m ≤ n
    → All (λ (row : NameWithOwner × ℕ). row.1 ≤ m) table
    → All (λ (row : NameWithOwner × ℕ). row.1 ≤ n) table
All-weaken m n [] h all = tt
All-weaken m n ((k, x) ∷ table) h all = (omega arith, All-weaken m n table h all.1)

All-insert :
    (nwo : NameWithOwner) (n : ℕ) (table : Map NameWithOwner ℕ)
    → All (λ (row : NameWithOwner × ℕ). row.1 ≤ n) table
    → All (λ (row : NameWithOwner × ℕ). row.1 ≤ n) (insert nwo n table)
unfolding insert
All-insert nwo n [] all = (omega arith, tt)
All-insert nwo n ((k, x) ∷ table) all = ground (arith, All-insert nwo n table all.1)

pub lookup_drawn :
    (nwo : NameWithOwner) (n m : ℕ) (table : Map NameWithOwner ℕ)
    → lookup nwo table ≡ some n
    → All (λ (row : NameWithOwner × ℕ). row.1 ≤ m) table
    → n ≤ m
unfolding lookup
lookup_drawn nwo n m [] found all = ground arith
lookup_drawn nwo n m ((k, x) ∷ table) found all = ground (arith, lookup_drawn nwo n m table)

-- The id that a call returns, and what becomes of the table.
pub record Taken {J : Type 0} (s s' : PgState J) (nwo : NameWithOwner) (id : ℤ) : Type 0 where
  pub number : ℕ
  pub is_id : id ≡ pos number
  pub found : lookup nwo s'.job_repo_map ≡ some number
  pub kept :
      (other : NameWithOwner) (n : ℕ)
      → lookup other s.job_repo_map ≡ some n
      → lookup other s'.job_repo_map ≡ some n
  pub still : Numbered s'

repo_row-Taken :
    {J : Type 0} (s : PgState J) (nwo : NameWithOwner) (o : Option ℕ)
    → lookup nwo s.job_repo_map ≡ o
    → Numbered s
    → s.job_repo_id_seq + 1 ≤ max_serial
    → let (s', id) = repo_row s nwo (s.job_repo_id_seq + 1) o in Taken s s' nwo id
repo_row-Taken s nwo (some n) e v h = record {
  number = n;
  is_id = refl;
  found = e;
  kept = λ other m found. found;
  still = record { drawn = All-weaken _ _ _ (omega arith) v.drawn; limit = h; back = v.back };
}
repo_row-Taken s nwo none e v h =
    let fresh =
      repo_with_id_fresh s.job_repo_id_seq (s.job_repo_id_seq + 1) s.job_repo_map v.drawn
        (omega arith) in
    record {
      number = s.job_repo_id_seq + 1;
      is_id = refl;
      found = ground (
        arith,
        lookup-insert nwo nwo (s.job_repo_id_seq + 1) s.job_repo_map,
        nwo_beq_iff nwo nwo,
      );
      kept = λ other m found. ground (
        arith,
        lookup-insert nwo other (s.job_repo_id_seq + 1) s.job_repo_map,
        nwo_beq_iff nwo other,
      );
      still = record {
        drawn = All-insert nwo _ _ (All-weaken _ _ _ (omega arith) v.drawn);
        limit = h;
        back = λ other m found. ground (
          arith,
          lookup-insert nwo other (s.job_repo_id_seq + 1) s.job_repo_map,
          nwo_beq_iff nwo other,
          repo_with_id-insert (pos m) nwo (s.job_repo_id_seq + 1) s.job_repo_map e,
          v.back other m,
          int_beq_iff (pos (s.job_repo_id_seq + 1)) (pos m),
        );
      };
    }

-- What stays, once repositories have ids.
pub record Extends {J : Type 0} (s s' : PgState J) : Type 0 where
  pub numbered : Numbered s'
  pub kept :
      (nwo : NameWithOwner) (n : ℕ)
      → lookup nwo s.job_repo_map ≡ some n
      → lookup nwo s'.job_repo_map ≡ some n

module _ {J : Type 0} (db : Database J) where
  get_repo_id_row :
      (s s' : PgState J) (nwo : NameWithOwner) (id : ℤ)
      → get_repo_id db s nwo ≡ some (s', id)
      → (repo_row s nwo (s.job_repo_id_seq + 1) (lookup nwo s.job_repo_map) ≡ (s', id))
        × (s.job_repo_id_seq + 1 ≤ max_serial)
  unfolding get_repo_id
  get_repo_id_row s s' nwo id e = (ground arith, ground arith)

  pub get_repo_id-Taken :
      (s s' : PgState J) (nwo : NameWithOwner) (id : ℤ)
      → Numbered s
      → get_repo_id db s nwo ≡ some (s', id)
      → Taken s s' nwo id
  get_repo_id-Taken s s' nwo id v e =
      let (row, h) = get_repo_id_row s s' nwo id e in
      subst (λ (p : PgState J × ℤ). Taken s p.0 nwo p.1) row
        (repo_row-Taken s nwo (lookup nwo s.job_repo_map) refl v h)

  same_map :
      (s s' : PgState J)
      → s'.job_repo_map ≡ s.job_repo_map
      → s'.job_repo_id_seq ≡ s.job_repo_id_seq
      → Numbered s
      → Extends s s'
  same_map s s' p q v = record {
    numbered = record { drawn = rw (p, q) v.drawn; limit = rw q v.limit; back = rw p v.back };
    kept = λ nwo n found. rw p found;
  }

  Call-Extends : (s s' : PgState J) → Call db s s' → Numbered s → Extends s s'
  unfolding next_id set_result set_job_info set_status
  Call-Extends s s' (issued id e) v = same_map s s' (ground arith) (ground arith) v
  Call-Extends s s' (result_set js r e) v = same_map s s' (ground arith) (ground arith) v
  Call-Extends s s' (info_set js ji e) v = same_map s s' (ground arith) (ground arith) v
  Call-Extends s s' (status_set js x e) v = same_map s s' (ground arith) (ground arith) v
  Call-Extends s s' (repo_taken nwo id e) v =
      let t = get_repo_id-Taken s s' nwo id v e in record { numbered = t.still; kept = t.kept }
  Call-Extends s s' (job_added job e) v =
      let (doc, id, m, h, taken) = add_job_steps db s s' job e in
      let w = same_map s (with_job s job doc) refl refl v in
      let t =
        get_repo_id-Taken (with_job s job doc) s' job.spec.name_with_owner id w.numbered taken in
      record { numbered = t.still; kept = t.kept }

  pub Calls-Extends : (s s' : PgState J) → Calls db s s' → Numbered s → Extends s s'
  Calls-Extends s s' here v = record { numbered = v; kept = λ nwo n found. found }
  Calls-Extends s s' (next {t = t} calls call) v =
      let first = Calls-Extends s t calls v in
      let last = Call-Extends t s' call first.numbered in
      record {
        numbered = last.numbered;
        kept = λ nwo n found. last.kept nwo n (first.kept nwo n found);
      }

  pub empty_tables-Numbered : Numbered {J = J} empty_tables
  unfolding lookup
  empty_tables-Numbered = record {
    drawn = tt;
    limit = omega arith;
    back = λ nwo n found. ground arith;
  }
