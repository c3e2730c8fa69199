-- ===== src/Agent/Archive.antt =====
-- What the archive of a finished job holds, where RunQuery is that of Codeql/Run.
use mathlib.Core.Path.{subst}
use mathlib.Core.Option.{some-injective}
use mrvacommander.Prelude.{
  Bytes, bytes_beq, bytes_eq, ascii, [], ◌∷◌, none, some, ok, err, ◌≡◌, ◌≢◌, refl, sym, inl, inr,
  Result-cases, arith, false, ◌∙◌,
}
use mrvacommander.Prelude.Chain.{>>=-eq-ok}
use mrvacommander.Utils.Paths.{join}
use mrvacommander.Utils.Paths.Clean.{join-ne-nil}
use mrvacommander.Common.Errors.{Fallible, context}
use mrvacommander.Queue.Types.{AnalyzeJob}
use mrvacommander.Codeql.Types.{RunQueryResult}
use mrvacommander.Codeql.Toolchain.{Toolchain}
use mrvacommander.Codeql.Run.{run_query, sarif_path}
use mrvacommander.Codeql.Run.Files.{run_query-sarif}
use mrvacommander.Codeql.Zip.{Entries, generate_results_zip_archive}
use mrvacommander.Codeql.Zip.Contents.{Packed, files_of, generate_results_zip_archive-Packed}
use mrvacommander.Server.Types.{Visibles}
use mrvacommander.Agent.Job.{Machine, Outcome, run_analysis_job, fetch_query_pack, analyze, upload}

-- The machine runs queries by `RunQuery`, over the tools `t`.
abbrev pub RunsQueries : Toolchain → Machine → Type 0
RunsQueries t machine =
    (database language query_pack_path temp_dir : Bytes)
    → run_query t database language query_pack_path temp_dir
      ≡ some (machine.run_query database language query_pack_path temp_dir)

-- The archive that a run stored: its only file, with what is read from the path of the SARIF file.
pub record SarifStored {S A D : Type 0} (t : Toolchain) (v : Visibles S A D) (machine : Machine)
    (a : A) (job : AnalyzeJob) (o : Outcome v machine) : Type 0 where
  pub sarif : Bytes
  pub archive : Bytes
  pub copied :
      machine.zip.copy_file (sarif_path t (join machine.temp_dir (ascii "results"))) ≡ ok sarif
  pub closed : machine.zip.close ((ascii "results.sarif", sarif) ∷ []) ≡ ok archive
  pub saved :
      v.artifacts.save_result a job.spec archive ≡ (o.artifacts, ok o.result.result_location)

ok-injective : {B : Type 0} {a b : B} → ◌≡◌ {A = Fallible B} (ok a) (ok b) → a ≡ b
ok-injective e = cc

bytes_beq-empty : (path : Bytes) → path ≢ [] → bytes_beq path [] ≡ false
unfolding bytes_beq
bytes_beq-empty [] h = absurd (h refl)
bytes_beq-empty (c ∷ path) h = refl

context-eq-ok :
    {B : Type 0} (text : Bytes) (r : Fallible B) {b : B} → context text r ≡ ok b → r ≡ ok b
context-eq-ok text (ok a) e = e
context-eq-ok text (err x) e = cc

module _ {S A D : Type 0} (v : Visibles S A D) (machine : Machine) where
  abbrev Analyzed : AnalyzeJob → RunQueryResult × Bytes → Type 0
  Analyzed job (run, archive) =
      (machine.run_query (join machine.temp_dir (ascii "database.zip")) job.query_language
          (join machine.temp_dir (ascii "pack")) machine.temp_dir
        ≡ ok run)
      × (generate_results_zip_archive machine.zip run ≡ ok archive)

  -- What an analysis that goes through has called.
  analyze-ok :
      (job : AnalyzeJob) (database : Fallible Bytes) (run : RunQueryResult) (archive : Bytes)
      → analyze v machine job database ≡ ok (run, archive)
      → Analyzed job (run, archive)
  unfolding analyze
  analyze-ok job database run archive e =
      let (content, got, e1) = >>=-eq-ok (context (ascii "failed to get database") database) _ e in
      let (_, written, e2) =
        >>=-eq-ok
          (context (ascii "failed to write CodeQL database to disk")
            (machine.write_file (join machine.temp_dir (ascii "database.zip")) content))
          _ e1 in
      let (run', ran, e3) =
        >>=-eq-ok
          (context (ascii "failed to run analysis") (
            machine.run_query (join machine.temp_dir (ascii "database.zip")) job.query_language
              (join machine.temp_dir (ascii "pack")) machine.temp_dir))
          _ e2 in
      let (archive', packed, e4) =
        >>=-eq-ok
          (context (ascii "failed to generate results archive")
            (generate_results_zip_archive machine.zip run'))
          _ e3 in
      subst (Analyzed job) (ok-injective e4) (context-eq-ok _ _ ran, context-eq-ok _ _ packed)

  Packed-only :
      (path name : Bytes) (entries : Entries)
      → Packed machine.zip ((path, name) ∷ []) entries
      → (content : Bytes) × (machine.zip.copy_file path ≡ ok content)
        × (entries ≡ (name, content) ∷ [])
  Packed-only path name [] h = absurd h
  Packed-only path name ((entry, content) ∷ []) (same, c, _) =
      (content, c, λ i. (same i, content) ∷ [])
  Packed-only path name (entry ∷ another ∷ entries) (_, _, h) = absurd h

  -- An archive of a run that left the SARIF file alone holds that file alone.
  Packed-sarif :
      (run : RunQueryResult) (path : Bytes) (entries : Entries)
      → run.bqrs_file_paths.relative_file_paths ≡ []
      → run.sarif_file_path ≡ path
      → path ≢ []
      → Packed machine.zip (files_of machine.zip run) entries
      → (sarif : Bytes) × (machine.zip.copy_file path ≡ ok sarif)
        × (entries ≡ (ascii "results.sarif", sarif) ∷ [])
  Packed-sarif run path entries none' is some' h =
      let files : files_of machine.zip run ≡ (path, ascii "results.sarif") ∷ [] =
        rw (none', is, bytes_beq-empty path some') refl in
      Packed-only path (ascii "results.sarif") entries (rw files at h)

  upload-saved :
      (a : A) (d : D) (job : AnalyzeJob) (run : RunQueryResult) (archive : Bytes)
      → (upload v machine a d job run archive).error ≡ none
      → let o = upload v machine a d job run archive in
        v.artifacts.save_result a job.spec archive ≡ (o.artifacts, ok o.result.result_location)
  unfolding upload
  upload-saved a d job run archive fine =
      let saved = v.artifacts.save_result a job.spec archive in
      elim (Result-cases saved.1) [
        | inl (location, e) ↦ rw (e, upload) refl
        | inr (x, e) ↦ absurd (ground (arith, rw (e, upload) at fine))
      ]

  upload-SarifStored :
      (t : Toolchain)
      → RunsQueries t machine
      → machine.temp_dir ≢ []
      → (a : A) (d : D) (job : AnalyzeJob) (run : RunQueryResult) (archive : Bytes)
      → Analyzed job (run, archive)
      → (upload v machine a d job run archive).error ≡ none
      → SarifStored t v machine a job (upload v machine a d job run archive)
  upload-SarifStored t runs full a d job run archive (ran, packed) fine =
      let (outcome, returned, only) =
        run_query-sarif t (join machine.temp_dir (ascii "database.zip")) job.query_language
          (join machine.temp_dir (ascii "pack")) machine.temp_dir in
      let (none', is) = only run (some-injective _ _ (sym returned ∙ runs _ _ _ _) ∙ ran) in
      let (entries, closed, files) =
        generate_results_zip_archive-Packed machine.zip run archive packed in
      let results = join machine.temp_dir (ascii "results") in
      let (sarif, copied, alone) =
        Packed-sarif run (sarif_path t results) entries none' is
          (join-ne-nil results (ascii "results.sarif")
            (join-ne-nil machine.temp_dir (ascii "results") full))
          files in
      record {
        sarif = sarif;
        archive = archive;
        copied = copied;
        closed = rw alone at closed;
        saved = upload-saved a d job run archive fine;
      }

  -- On a machine that runs its queries by `RunQuery`, in a temporary directory whose path is not
  -- empty: a run that does not give up has stored, at the place that its result names, an archive
  -- whose only file is results.sarif, with what is read from the path at which `RunQuery` writes
  -- the SARIF file.
  pub run_analysis_job-SarifStored :
      (t : Toolchain)
      → RunsQueries t machine
      → machine.temp_dir ≢ []
      → (a : A) (d : D) (job : AnalyzeJob) → (run_analysis_job v machine a d job).error ≡ none
      → SarifStored t v machine a job (run_analysis_job v machine a d job)
  unfolding run_analysis_job
  run_analysis_job-SarifStored t runs full a d job fine =
      elim (Result-cases (fetch_query_pack v machine a job)) [
        | inr (x, e) ↦ absurd (ground (arith, rw (e, run_analysis_job) at fine))
        | inl (u, e) ↦
            let got = v.codeql_db_store.get_database d job.spec.name_with_owner in
            elim (Result-cases (analyze v machine job got.1)) [
              | inr (x, f) ↦ absurd (ground (arith, rw (e, f, run_analysis_job) at fine))
              | inl ((run, archive), f) ↦
                  rw (e, f, run_analysis_job)
                    (upload-SarifStored t runs full a got.0 job run archive
                      (analyze-ok job got.1 run archive f) (rw (e, f, run_analysis_job) at fine))
            ]
      ]
