-- ===== src/Codeql/Toolchain.antt =====
-- What a run of pkg/codeql/codeql.go finds outside the program.
use mrvacommander.Prelude.{ℕ, Bytes, bytes_eq, List, Bool, Option}
use mrvacommander.Common.Errors.{Fallible}
use mrvacommander.Codeql.Types.{DatabaseMetadata}
use mrvacommander.Codeql.Provenance.{Interpreter}
use mrvacommander.Codeql.Walk.{Node}

-- What a run finds outside the program: the environment, the file system, the CodeQL program,
-- and the JSON and YAML decoders.
pub record Toolchain : Type 0 where
  pub getenv : Bytes → Bytes
  pub mkdir : Bytes → Fallible (Unit {0})
  pub mkdir_all : Bytes → Fallible (Unit {0})
  pub rename : Bytes → Bytes → Fallible (Unit {0})
  pub write_file : Bytes → Bytes → Fallible (Unit {0})
  pub read_file : Bytes → Fallible Bytes
  pub is_not_exist : Bytes → Bool
  -- utils.UnzipFile, with the tree that it leaves
  pub unzip_file : Bytes → Bytes → Fallible Node
  pub unmarshal_metadata : Bytes → Fallible DatabaseMetadata
  -- the CodeQL program, and what `generateSarif` finds besides
  pub interpreter : Interpreter
  -- the numbers of results of the runs that `json.Unmarshal` reads
  pub unmarshal_sarif : Bytes → Option (List ℕ)
