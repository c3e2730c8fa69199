-- ===== src/Scenarios/Reports.antt =====
-- The status of a session, from the tables of PGState: a job is done, and another one has failed.
use mathlib.Core.Path.{subst}
use mrvacommander.Prelude.{
  pos, ascii, List, [], ◌∷◌, some, ok, ◌≡◌, ◌==◌, refl, lookup, insert, int_beq, bytes_beq,
  Bool-cases, inl, inr, arith,
}
use mrvacommander.Common.Types.{
  JobSpec, job_spec_eq, job_spec_beq, job_spec_beq_iff, nwo_beq, status_succeeded, status_failed,
}
use mrvacommander.Common.Api.{JobInfo, ScannedRepo}
use mrvacommander.Queue.Types.{AnalyzeResult}
use mrvacommander.ArtifactStore.Types.{default_buckets}
use mrvacommander.ArtifactStore.Memory.{InMemoryArtifactStore, memory_store, get_result_size}
use mrvacommander.QldbStore.Filesystem.{FilesystemCodeqlDatabaseStore, filesystem_store}
use mrvacommander.State.Postgres.{PgState, empty_tables}
use mrvacommander.State.Postgres.Reads.{get_status, get_result}
use mrvacommander.State.Postgres.Writes.{postgres_state, get_repo_id}
use mrvacommander.State.Postgres.Laws.{postgres_state-StateLaws}
use mrvacommander.Server.Types.{Visibles, Commander}
use mrvacommander.Server.Status.{scan_jobs}
use mrvacommander.Server.Status.Report.{Reports, Pairs, Readable, scan_jobs-Reports}
use mrvacommander.Server.Submit.Respond.{job_info_of}
use mrvacommander.Agent.Job.{succeeded_result}
use mrvacommander.Scenarios.{disk, job, spec, run, archive, env}
use mrvacommander.Scenarios.Tables.{Doc, result_doc, database, reliable, gopher, job_of}

abbrev visibles : Visibles (PgState Doc) InMemoryArtifactStore FilesystemCodeqlDatabaseStore
visibles = record {
  state = postgres_state database;
  artifacts = memory_store default_buckets;
  codeql_db_store = filesystem_store disk;
}

abbrev result : AnalyzeResult
result = succeeded_result job run (record { key = ascii "1-results"; bucket = ascii "mrvabucket" })

abbrev done : Commander (PgState Doc) InMemoryArtifactStore FilesystemCodeqlDatabaseStore
done = record {
  queue = record { jobs = []; results = [] };
  state = record empty_tables {
    analyze_results = (spec, result_doc result) ∷ [];
    job_status = (spec, status_succeeded) ∷ ((job_of gopher).spec, status_failed) ∷ [];
  };
  artifacts = record { packs = []; results = (ascii "1-results", archive) ∷ [] };
  databases = record { base_path = ascii "/databases" };
}

abbrev info : JobInfo
unfolding job_info_of
info = job_info_of env.now (record {
  id = pos 1;
  query_pack = ascii "1";
  language = ascii "python";
  access_mismatch_repos = [];
  not_found_repos = [];
  no_codeql_db_repos = [];
})

only_result :
    (j : JobSpec) (r : AnalyzeResult) → get_result database done.state j ≡ ok r → r ≡ result
unfolding get_result lookup
only_result j r e = elim (Bool-cases (spec == j)) [
  | inl same ↦ ground (arith, e, same)
  | inr other ↦ absurd (ground (arith, e, other))
]

read_back : get_result database done.state spec ≡ ok result
unfolding get_result lookup job_spec_beq int_beq nwo_beq bytes_beq
read_back = refl

done-Readable : Readable visibles done
unfolding get_result get_status lookup get_result_size bytes_beq
done-Readable = record {
  delivered = record {
    has_result = λ j e. elim (Bool-cases (spec == j)) [
      | inl same ↦ (
        result,
        subst (λ (k : JobSpec). get_result database done.state k ≡ ok result)
            ((job_spec_beq_iff spec j).0 same) read_back,
      )
      | inr other ↦ absurd (ground (arith, e, other))
    ];
  };
  sizes = λ j r e. (4, rw (only_result j r e));
}

scan_jobs-Reports_example :
    (s : PgState Doc) × (repos : List ScannedRepo) × (scan_jobs visibles done info
        (job ∷ job_of gopher ∷ [])
      ≡ some (s, ok repos))
    × Pairs (Reports visibles done) (job ∷ job_of gopher ∷ []) repos
unfolding get_status lookup job_spec_beq int_beq nwo_beq bytes_beq get_repo_id insert
scan_jobs-Reports_example =
    scan_jobs-Reports visibles (postgres_state-StateLaws database reliable) done info
      (job ∷ job_of gopher ∷ []) done-Readable
      ((status_succeeded, refl), ((status_failed, refl), tt)) (_, _, refl, (_, _, refl, tt))
