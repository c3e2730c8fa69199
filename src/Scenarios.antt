-- ===== src/Scenarios.antt =====
-- A small installation to try the theorems on: the state and the artifacts in memory, databases on
-- disk, an agent whose tools work, and one submitted job.
mod Archives
mod Submissions
mod Jobs
mod Systems
mod Stores
mod Queries
mod Runs
mod Tables
mod Reports
mod Brokers
mod Objects
use mrvacommander.Prelude.{pos, Option, none, some, Bytes, ascii, [], ◌∷◌, false, ok, err, lookup}
use mrvacommander.Common.Types.{JobSpec, NameWithOwner}
use mrvacommander.Common.Errors.{message}
use mrvacommander.ArtifactStore.Types.{ArtifactLocation, default_buckets}
use mrvacommander.ArtifactStore.Memory.{InMemoryArtifactStore, memory_store}
use mrvacommander.Queue.Types.{AnalyzeJob}
use mrvacommander.State.Interface.{ServerState}
use mrvacommander.State.Laws.{StateLaws, Delivered}
use mrvacommander.State.Local.{LocalState, local_server_state, get_status}
use mrvacommander.State.Local.Laws.{local_laws}
use mrvacommander.QldbStore.Filesystem.{Disk, FilesystemCodeqlDatabaseStore, filesystem_store}
use mrvacommander.Codeql.Types.{RunQueryResult}
use mrvacommander.Server.Types.{Visibles, Commander, Environment}
use mrvacommander.Agent.Job.{Machine}

abbrev pub psycopg2 : NameWithOwner
psycopg2 = record { owner = ascii "psycopg"; repo = ascii "psycopg2" }

abbrev pub spec : JobSpec
spec = record { session_id = pos 1; name_with_owner = psycopg2 }

abbrev pub pack : ArtifactLocation
pack = record { key = ascii "1-packs"; bucket = ascii "mrvabucket" }

abbrev pub job : AnalyzeJob
job = record { spec = spec; query_pack_location = pack; query_language = ascii "python" }

abbrev pub archive : Bytes
archive = 80 ∷ 75 ∷ 3 ∷ 4 ∷ []

abbrev pub run : RunQueryResult
run = record {
  result_count = pos 2;
  database_sha = ascii "c0ffee";
  source_location_prefix = ascii "/src";
  bqrs_file_paths = record { base_path = []; relative_file_paths = [] };
  sarif_file_path = ascii "/tmp/results/results.sarif";
}

abbrev pub machine : Machine
machine = record {
  temp_dir = ascii "/tmp";
  mkdir_all = λ _. ok tt;
  write_file = λ _ _. ok tt;
  mkdir = λ _. ok tt;
  archives = record {
    mkdir_all = λ _. ok tt;
    open_file = λ _. ok tt;
    open_zip = λ _. ok [];
    open_gzip = λ _. ok [];
  };
  run_query = λ _ _ _ _. ok run;
  zip = record {
    open_file = λ _. ok tt;
    copy_file = λ _. ok [];
    create_entry = λ _. ok tt;
    close = λ _. ok archive;
  };
}

-- On this machine the analysis fails.
abbrev pub broken : Machine
broken = record machine { run_query = λ _ _ _ _. err (message (ascii "failed to run queries")) }

-- Every database is there.
abbrev pub disk : Disk
disk = record { is_not_exist = λ _. false; read_file = λ _. ok archive }

abbrev pub local : ServerState LocalState
local = local_server_state (λ _. pos 0)

abbrev pub laws : StateLaws local
laws = local_laws (λ _. pos 0)

abbrev pub visibles : Visibles LocalState InMemoryArtifactStore FilesystemCodeqlDatabaseStore
visibles = record {
  state = local;
  artifacts = memory_store default_buckets;
  codeql_db_store = filesystem_store disk;
}

abbrev pub fresh : LocalState
fresh = record {
  jobs = (pos 1, []) ∷ [];
  info = [];
  status = [];
  result = [];
  session_to_job_id_to_spec = [];
  current_id = pos 1;
}

-- The query pack of the session is saved, and nothing is in the queue.
abbrev pub idle : Commander LocalState InMemoryArtifactStore FilesystemCodeqlDatabaseStore
idle = record {
  queue = record { jobs = []; results = [] };
  state = fresh;
  artifacts = record { packs = (ascii "1-packs", 31 ∷ 139 ∷ []) ∷ []; results = [] };
  databases = record { base_path = ascii "/databases" };
}

abbrev pub Installation : Type 0
Installation = Commander LocalState InMemoryArtifactStore FilesystemCodeqlDatabaseStore

-- What a step leaves, and the idle installation where it panics.
abbrev pub or_idle : Option Installation → Installation
or_idle none = idle
or_idle (some c) = c

pub fresh-Delivered : Delivered local fresh
unfolding get_status lookup
fresh-Delivered = record { has_result = λ js e. cc }

-- The JSON texts of this installation are about one job.
abbrev pub env : Environment
env = record {
  decode_submit_msg = λ _. err (message (ascii "invalid character"));
  marshal_job_spec = λ _. ascii "{}";
  unmarshal_job_spec = λ _. ok spec;
  now = ascii "2024-01-01T00:00:00Z";
  server_host = [];
  server_port = [];
}
