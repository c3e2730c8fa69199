-- ===== src/ArtifactStore/Types.antt =====
-- pkg/artifactstore/common.go and interfaces.go
use mrvacommander.Prelude.{Bytes, ascii, ℤ, ℕ}
use mrvacommander.Common.Types.{JobSpec}
use mrvacommander.Common.Errors.{Fallible}

-- The two package variables, which pkg/deploy may set.
pub record BucketNames : Type 0 where
  pub results : Bytes
  pub packs : Bytes

abbrev pub default_buckets : BucketNames
default_buckets = record { results = ascii "mrvabucket"; packs = ascii "mrvabucket" }

pub record ArtifactLocation : Type 0 where
  pub key : Bytes
  pub bucket : Bytes

-- `ArtifactLocation{}`
abbrev pub no_location : ArtifactLocation
no_location = record { key = ascii ""; bucket = ascii "" }

-- The interface `Store`, over the state `S` of a store. A save returns the store that it leaves.
pub record Store (S : Type 0) : Type 0 where
  pub get_query_pack : S → ArtifactLocation → Fallible Bytes
  pub save_query_pack : S → ℤ → Bytes → S × Fallible ArtifactLocation
  pub get_result : S → ArtifactLocation → Fallible Bytes
  pub get_result_size : S → ArtifactLocation → Fallible ℕ
  pub save_result : S → JobSpec → Bytes → S × Fallible ArtifactLocation
