-- ===== src/System/EndToEnd.antt =====
-- From a job in the queue to the download of its archive, with the store in memory.
use mrvacommander.Prelude.{
  Bytes, List, [], ◌∷◌, ◌++◌, true, none, some, ok, ◌≡◌, ◌∙◌, ap, arith, All,
}
use mrvacommander.Common.Types.{JobSpec, status_succeeded}
use mrvacommander.Common.JobSpecs.{encode_job_spec}
use mrvacommander.Utils.Base64.RoundTrip.{IsByte}
use mrvacommander.ArtifactStore.Types.{ArtifactLocation, BucketNames}
use mrvacommander.ArtifactStore.Memory.{
  InMemoryArtifactStore, memory_store, save_result, get_result,
}
use mrvacommander.ArtifactStore.Memory.RoundTrip.{save_result-get_result}
use mrvacommander.Queue.Types.{AnalyzeJob, AnalyzeResult}
use mrvacommander.State.Interface.{ServerState}
use mrvacommander.State.Laws.{StateLaws, Delivered}
use mrvacommander.QldbStore.Interface as Qldb
use mrvacommander.Server.Http.{new_writer, write_raw}
use mrvacommander.Server.Types.{Visibles, Commander, Environment}
use mrvacommander.Server.Results.{consume_result, consume_result-Consumed}
use mrvacommander.Server.Download.{mrva_download_serve}
use mrvacommander.Server.Download.Serve.{mrva_download_serve-encode_job_spec}
use mrvacommander.Agent.Job.{Machine, run_analysis_job, succeeded_result}
use mrvacommander.Agent.Worker.{run_job}
use mrvacommander.Agent.Outcomes.{run_job-Sent, run_job-Worked}

abbrev pub in_memory :
    {S D : Type 0} → ServerState S → BucketNames → Qldb.Store D → Visibles S InMemoryArtifactStore D
in_memory st names dbs = record {
  state = st;
  artifacts = memory_store names;
  codeql_db_store = dbs;
}

saved-get_result :
    (names : BucketNames) (a a' : InMemoryArtifactStore) (js : JobSpec) (archive : Bytes)
    (location : ArtifactLocation)
    → save_result names a js archive ≡ (a', ok location)
    → get_result a' location ≡ ok archive
saved-get_result names a a' js archive location e =
    let (l, returned, bucket, got, sized, packs) = save_result-get_result names a js archive in
    let first : (save_result names a js archive).0 ≡ a' = λ i. (e i).0 in
    let second : (save_result names a js archive).1 ≡ ok location = λ i. (e i).1 in
    let same : l ≡ location = ground (arith, returned, second) in ground (arith, got, first, same)

module _ {S D : Type 0} (st : ServerState S) (laws : StateLaws st) (names : BucketNames)
    (dbs : Qldb.Store D) (env : Environment) where
  -- For a state that keeps the laws and in which every reported success has a result, the store in
  -- memory, and an empty result channel: if an agent runs a job without giving up, with a result
  -- that can be stored as it is, and the consumer then takes a result, both without a panic, then
  -- the job is reported as succeeded, and, if its JSON is made of bytes and reads back, its
  -- download link serves the archive that the agent saved.
  pub job_served :
      (machine : Machine) (c c₁ c₂ : Commander S InMemoryArtifactStore D) (job : AnalyzeJob)
      (rest : List AnalyzeJob)
      → Delivered st c.state
      → c.queue.results ≡ []
      → (run_analysis_job (in_memory st names dbs) machine c.artifacts c.databases job).error ≡ none
      → laws.storable_result
          (run_analysis_job (in_memory st names dbs) machine c.artifacts c.databases job).result
        ≡ true
      → run_job (in_memory st names dbs) machine c job rest ≡ some c₁
      → consume_result (in_memory st names dbs) c₁ ≡ some c₂
      → All IsByte (env.marshal_job_spec job.spec)
      → env.unmarshal_job_spec (env.marshal_job_spec job.spec) ≡ ok job.spec
      → (archive : Bytes) × (location : ArtifactLocation) × (save_result names c.artifacts job.spec
            archive
          ≡ (c₁.artifacts, ok location))
        × (st.get_status c₂.state job.spec ≡ ok status_succeeded)
        × (mrva_download_serve
              (in_memory st names dbs)
              env
              c₂
              new_writer
              (encode_job_spec env.marshal_job_spec job.spec)
            ≡ write_raw new_writer archive)
  job_served machine c c₁ c₂ job rest d empty fine storable ran consumed bytes back =
      let v = in_memory st names dbs in
      let s = run_job-Sent v laws machine c job rest c₁ fine ran in
      let w = run_job-Worked v laws machine c job rest c₁ ran in
      let r = succeeded_result job s.run s.location in
      let k =
        consume_result-Consumed v laws c₁ c₂ r []
          (s.sent ∙ ap (λ (x : List AnalyzeResult). x ++ r ∷ []) empty) (w.delivered d) consumed in
      let got =
        ap (λ (x : InMemoryArtifactStore). get_result x s.location) k.artifacts_kept
        ∙ saved-get_result names c.artifacts c₁.artifacts job.spec s.archive s.location s.saved in
      let served =
        mrva_download_serve-encode_job_spec v env c₂ job.spec r s.archive
          (k.result_stored (rw s.returned at storable)) got bytes back in
      (s.archive, s.location, s.saved, k.status_stored, served)
