-- ===== src/State/Postgres/Repos/Unique.antt =====
-- What the ids of repositories are good for.
use mrvacommander.Prelude.{ℤ, some, ok, ◌≡◌, ◌↔◌, refl, arith}
use mrvacommander.Common.Types.{NameWithOwner, nwo_eq}
use mrvacommander.State.Postgres.{PgState, Database, empty_tables, select_repo}
use mrvacommander.State.Postgres.Reliable.{Selects}
use mrvacommander.State.Postgres.Reads.{get_job_spec_by_repo_id}
use mrvacommander.State.Postgres.Writes.{get_repo_id}
use mrvacommander.State.Postgres.Calls.{Calls}
use mrvacommander.State.Postgres.Repos.{
  get_repo_id-Taken, Calls-Extends, empty_tables-Numbered, lookup_drawn,
}

module _ {J : Type 0} (db : Database J) where
  -- In the tables that any calls have made since SetupSchemas: whatever else is called in between,
  -- two calls of GetRepoId return the same id exactly if they are for the same repository.
  pub get_repo_id_unique :
      (s t u v : PgState J) (a b : NameWithOwner) (i j : ℤ)
      → Calls db empty_tables s
      → get_repo_id db s a ≡ some (t, i)
      → Calls db t u
      → get_repo_id db u b ≡ some (v, j)
      → (i ≡ j) ↔ (a ≡ b)
  get_repo_id_unique s t u v a b i j before first between second =
      let start = (Calls-Extends db _ s before (empty_tables-Numbered db)).numbered in
      let p = get_repo_id-Taken db s t a i start first in
      let e = Calls-Extends db t u between p.still in
      let q = get_repo_id-Taken db u v b j e.numbered second in
      let found = q.kept a p.number (e.kept a p.number p.found) in
      (
        (λ same. ground (
          arith,
          p.is_id,
          q.is_id,
          q.still.back a p.number found,
          q.still.back b q.number q.found,
        )),
        (λ same. ground (arith, p.is_id, q.is_id, found, q.found)),
      )

  -- While reads go through, the id of a repository leads back to it at any later time, in every
  -- session, also in one that has no job for it.
  pub get_repo_id-get_job_spec_by_repo_id :
      (s t u : PgState J) (a : NameWithOwner) (i session : ℤ)
      → Selects db
      → Calls db empty_tables s
      → get_repo_id db s a ≡ some (t, i)
      → Calls db t u
      → get_job_spec_by_repo_id db u session i
        ≡ ok (record { session_id = session; name_with_owner = a })
  unfolding get_job_spec_by_repo_id
  get_repo_id-get_job_spec_by_repo_id s t u a i session selects before taken after =
      let start = (Calls-Extends db _ s before (empty_tables-Numbered db)).numbered in
      let p = get_repo_id-Taken db s t a i start taken in
      let e = Calls-Extends db t u after p.still in
      let found = e.kept a p.number p.found in
      ground (
        arith,
        p.is_id,
        e.numbered.back a p.number found,
        selects u (select_repo i) refl,
        lookup_drawn a p.number u.job_repo_id_seq u.job_repo_map found e.numbered.drawn,
        e.numbered.limit,
      )
