-- ===== src/Codeql/Types.antt =====
-- pkg/codeql/types.go
use mrvacommander.Prelude.{Bytes, ℤ, List, Option}

pub record CodeqlCli : Type 0 where
  pub path : Bytes

pub record BqrsFilePaths : Type 0 where
  pub base_path : Bytes
  pub relative_file_paths : List Bytes

pub record RunQueryResult : Type 0 where
  pub result_count : ℤ
  pub database_sha : Bytes
  pub source_location_prefix : Bytes
  pub bqrs_file_paths : BqrsFilePaths
  pub sarif_file_path : Bytes

-- A pointer field is `none` where it is nil.
pub record CreationMetadata : Type 0 where
  pub sha : Option Bytes
  pub cli_version : Option Bytes

pub record DatabaseMetadata : Type 0 where
  pub creation_metadata : Option CreationMetadata

pub record QueryMetadata : Type 0 where
  pub id : Option Bytes
  pub kind : Option Bytes

pub record ResultSet : Type 0 where
  pub name : Bytes
  pub rows : ℤ

pub record BqrsInfo : Type 0 where
  pub result_sets : List ResultSet
  pub compatible_query_kinds : List Bytes

pub record Query : Type 0 where
  pub query_path : Bytes
  pub query_metadata : QueryMetadata
  pub relative_bqrs_file_path : Bytes
  pub bqrs_info : BqrsInfo

pub record QueryPackRunResults : Type 0 where
  pub queries : List Query
  pub total_results_count : ℤ
  pub results_base_path : Bytes

pub record ResolvedDatabase : Type 0 where
  pub source_location_prefix : Bytes

pub record CodeqlCommandOutput : Type 0 where
  pub exit_code : ℤ
  pub stdout : Bytes
