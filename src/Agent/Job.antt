-- ===== src/Agent/Job.antt =====
-- `RunAnalysisJob`: the chain of steps from a job to a stored archive.
use mrvacommander.Prelude.{Bytes, ascii, pos, [], Option, none, some, ok, err}
use mrvacommander.Prelude.Chain.{◌>>=◌, ◌>>◌}
use mrvacommander.Utils.Paths.{join}
use mrvacommander.Common.Types.{status_failed, status_succeeded}
use mrvacommander.Common.Errors.{Error, Fallible, wrapped, context}
use mrvacommander.ArtifactStore.Types.{ArtifactLocation, no_location}
use mrvacommander.Queue.Types.{AnalyzeJob, AnalyzeResult}
use mrvacommander.Utils.Extract as Extract
use mrvacommander.Utils.Extract.{extracted, untar_gz}
use mrvacommander.Codeql.Types.{RunQueryResult}
use mrvacommander.Codeql.Zip.{ZipWriter, generate_results_zip_archive}
use mrvacommander.Server.Types.{Visibles}

-- How the calls of a run on the agent's machine turn out: the file system, the readers and writers
-- of archives, and `RunQuery`, for each database, language, query pack and temporary directory.
pub record Machine : Type 0 where
  pub temp_dir : Bytes
  pub mkdir_all : Bytes → Fallible (Unit {0})
  pub write_file : Bytes → Bytes → Fallible (Unit {0})
  pub mkdir : Bytes → Fallible (Unit {0})
  pub archives : Extract.Machine
  pub run_query : Bytes → Bytes → Bytes → Bytes → Fallible RunQueryResult
  pub zip : ZipWriter

-- The result that is returned with an error.
abbrev pub failed_result : AnalyzeJob → AnalyzeResult
failed_result job = record {
  spec = job.spec;
  status = status_failed;
  result_count = pos 0;
  result_location = no_location;
  source_location_prefix = [];
  database_sha = [];
}

abbrev pub succeeded_result : AnalyzeJob → RunQueryResult → ArtifactLocation → AnalyzeResult
succeeded_result job run location = record {
  spec = job.spec;
  status = status_succeeded;
  result_count = run.result_count;
  result_location = location;
  source_location_prefix = run.source_location_prefix;
  database_sha = run.database_sha;
}

module _ {S A D : Type 0} (v : Visibles S A D) (machine : Machine) where
  -- The steps before the database is fetched.
  unfoldable pub fetch_query_pack : A → AnalyzeJob → Fallible (Unit {0})
  fetch_query_pack a job = do
    context (ascii "failed to create temporary directory") (machine.mkdir_all machine.temp_dir)
    pack ←
        context (ascii "failed to download query pack")
          (v.artifacts.get_query_pack a job.query_pack_location)
    context (ascii "failed to write query pack archive to disk")
        (machine.write_file (join machine.temp_dir (ascii "query-pack.tar.gz")) pack)
    context (ascii "failed to create query pack directory")
        (machine.mkdir (join machine.temp_dir (ascii "pack")))
    context (ascii "failed to extract query pack") (
        extracted (
          untar_gz machine.archives (join machine.temp_dir (ascii "query-pack.tar.gz"))
            (join machine.temp_dir (ascii "pack"))))

  -- The steps from the database to the archive of results.
  unfoldable pub analyze : AnalyzeJob → Fallible Bytes → Fallible (RunQueryResult × Bytes)
  analyze job database = do
    content ← context (ascii "failed to get database") database
    context (ascii "failed to write CodeQL database to disk")
        (machine.write_file (join machine.temp_dir (ascii "database.zip")) content)
    run ← context (ascii "failed to run analysis") (
        machine.run_query (join machine.temp_dir (ascii "database.zip")) job.query_language
          (join machine.temp_dir (ascii "pack")) machine.temp_dir)
    archive ←
        context (ascii "failed to generate results archive")
          (generate_results_zip_archive machine.zip run)
    ok (run, archive)

  -- What a run leaves of the two stores, and the result and the error that it returns.
  pub record Outcome : Type 0 where
    pub artifacts : A
    pub databases : D
    pub result : AnalyzeResult
    pub error : Option Error

  abbrev gives_up : A → D → AnalyzeJob → Error → Outcome
  gives_up a d job e = record {
    artifacts = a;
    databases = d;
    result = failed_result job;
    error = some e;
  }

  -- The last step, the upload of the archive.
  unfoldable pub upload : A → D → AnalyzeJob → RunQueryResult → Bytes → Outcome
  upload a d job run archive =
      let (a', saved) = v.artifacts.save_result a job.spec archive in
      elim saved [
        | err e ↦ gives_up a' d job (wrapped (ascii "failed to save results archive") e)
        | ok location ↦ record {
          artifacts = a';
          databases = d;
          result = succeeded_result job run location;
          error = none;
        }
      ]

  unfoldable pub run_analysis_job : A → D → AnalyzeJob → Outcome
  run_analysis_job a d job = elim (fetch_query_pack a job) [
    | err e ↦ gives_up a d job e
    | ok _ ↦
        let (d', database) = v.codeql_db_store.get_database d job.spec.name_with_owner in
        elim (analyze job database) [
          | err e ↦ gives_up a d' job e
          | ok (run, archive) ↦ upload a d' job run archive
        ]
  ]
