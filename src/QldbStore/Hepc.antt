-- ===== src/QldbStore/Hepc.antt =====
-- pkg/qldbstore/qldbstore_hepc.go
pub mod Cache
pub mod Fetch
pub mod Serve
pub mod Downloads
use mrvacommander.Prelude.{ℕ, ◌+◌, ◌-◌, Bytes, ascii, ℤ, List, ◌++◌}
use mrvacommander.Common.Types.{NameWithOwner}
use mrvacommander.Common.Errors.{Fallible}

pub record HepcResult : Type 0 where
  pub git_branch : Bytes
  pub git_commit_id : Bytes
  pub git_repo : Bytes
  pub ingestion_datetime : Bytes
  pub result_url : Bytes
  pub tool_id : Bytes
  pub tool_name : Bytes
  pub tool_version : Bytes
  pub projname : Bytes

-- An HTTP response: its status, and what reading its body to the end gives.
pub record Response : Type 0 where
  pub status_code : ℕ
  pub body : Fallible Bytes

-- An entry of a tar archive, and what copying it gives.
pub record TarEntry : Type 0 where
  pub name : Bytes
  pub content : Fallible Bytes

-- What a call finds outside the program: the environment variables (empty where they are not set),
-- the clock, once for the test of the cache and once for its update, in nanoseconds since the zero
-- `time.Time`, HTTP, the file system, the program `spigot-cli`, and the JSON and tar decoders. The
-- decoders give what their successive calls return before `io.EOF`.
pub record World : Type 0 where
  pub getenv : Bytes → Bytes
  pub now : ℕ
  pub updated : ℕ
  pub http_get : Bytes → Fallible Response
  pub user_home_dir : Fallible Bytes
  pub mkdir_all : Bytes → Fallible (Unit {0})
  pub create : Bytes → Fallible (Unit {0})
  pub run_spigot_cli : Bytes → Bytes → Fallible (Unit {0})
  pub open_file : Bytes → Fallible Bytes
  pub decode_results : Fallible Bytes → List (Fallible HepcResult)
  pub gzip_tar_entries : Bytes → Fallible (List (Fallible TarEntry))

pub record HepcStore : Type 0 where
  pub endpoint : Bytes
  pub metadata_cache : List HepcResult
  pub cache_last_updated : ℕ
  pub cache_duration : ℤ

-- The key of a repository in the metadata.
abbrev pub repo_key : NameWithOwner → Bytes
repo_key repo = repo.owner ++ (ascii "/" ++ repo.repo)
