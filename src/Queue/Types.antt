-- ===== src/Queue/Types.antt =====
-- pkg/queue/types.go and interfaces.go
use mrvacommander.Prelude.{Bytes, ℤ, List, [], ◌∷◌, ◌++◌}
use mrvacommander.Common.Types.{JobSpec, Status}
use mrvacommander.ArtifactStore.Types.{ArtifactLocation}

-- A repository, and the query pack to analyse it with.
pub record AnalyzeJob : Type 0 where
  pub spec : JobSpec
  pub query_pack_location : ArtifactLocation
  pub query_language : Bytes

pub record AnalyzeResult : Type 0 where
  pub spec : JobSpec
  pub status : Status
  pub result_count : ℤ
  pub result_location : ArtifactLocation
  pub source_location_prefix : Bytes
  pub database_sha : Bytes

-- The interface `Queue`: what the channels `Jobs()` and `Results()` hold, oldest first.
pub record Queue : Type 0 where
  pub jobs : List AnalyzeJob
  pub results : List AnalyzeResult

-- `queue.Jobs() <- job` and `queue.Results() <- result`, once the send has gone through.
unfoldable pub send_job : Queue → AnalyzeJob → Queue
send_job q job = record q { jobs = q.jobs ++ job ∷ [] }

unfoldable pub send_result : Queue → AnalyzeResult → Queue
send_result q result = record q { results = q.results ++ result ∷ [] }
