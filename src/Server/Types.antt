-- ===== src/Server/Types.antt =====
-- pkg/server/types.go, and what the handlers take from their environment.
use mrvacommander.Prelude.{Bytes, ℤ, List}
use mrvacommander.Common.Types.{JobSpec, NameWithOwner}
use mrvacommander.Common.Errors.{Fallible}
use mrvacommander.Common.Api.{SubmitMsg}
use mrvacommander.Queue.Types.{Queue}
use mrvacommander.State.Interface.{ServerState}
use mrvacommander.ArtifactStore.Types as Artifacts
use mrvacommander.QldbStore.Interface as Qldb

pub record SessionInfo : Type 0 where
  pub id : ℤ
  pub query_pack : Bytes
  pub language : Bytes
  pub access_mismatch_repos : List NameWithOwner
  pub not_found_repos : List NameWithOwner
  pub no_codeql_db_repos : List NameWithOwner

-- The implementations behind the interfaces that a commander uses.
pub record Visibles (S A D : Type 0) : Type 0 where
  pub state : ServerState S
  pub artifacts : Artifacts.Store A
  pub codeql_db_store : Qldb.Store D

-- The state of a commander: that of its four parts.
pub record Commander (S A D : Type 0) : Type 0 where
  pub queue : Queue
  pub state : S
  pub artifacts : A
  pub databases : D

-- What a request finds outside the program: `encoding/json`, the clock, and the variables
-- `SERVER_HOST` and `SERVER_PORT` (empty where they are not set).
pub record Environment : Type 0 where
  pub decode_submit_msg : Bytes → Fallible SubmitMsg
  pub marshal_job_spec : JobSpec → Bytes
  pub unmarshal_job_spec : Bytes → Fallible JobSpec
  pub now : Bytes
  pub server_host : Bytes
  pub server_port : Bytes
