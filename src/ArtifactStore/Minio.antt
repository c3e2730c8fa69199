-- ===== src/ArtifactStore/Minio.antt =====
-- pkg/artifactstore/store_minio.go, and pkg/common/minio.go, over the MinIO client library.
pub mod Refines
pub mod Saves
use mrvacommander.Prelude.{
  ℕ, ◌^◌, ◌-◌, ℤ, pos, Bytes, ascii, bytes_beq, Bool, ◌++◌, Option, none, some, Result, ok, err,
  ltb, if◌then◌else◌,
}
use mrvacommander.Prelude.Decimal.{format_int}
use mrvacommander.Common.Types.{JobSpec}
use mrvacommander.Common.Errors.{Error, Fallible, message}
use mrvacommander.ArtifactStore.Types.{ArtifactLocation, BucketNames, Store}
use mrvacommander.ArtifactStore.Memory.{pack_key, result_key}

-- An error of `MakeBucket`: an answer of the server with a code, or another.
pub data BucketError : Type 0 where
  error_response : Bytes → Error → BucketError
  other_error : Error → BucketError

-- The client, over the state `S` of the server that it talks to. `get_object` has an error of
-- `GetObject` or one of the read behind it.
pub record Client (S : Type 0) : Type 0 where
  pub bucket_exists : S → Bytes → Fallible Bool
  pub make_bucket : S → Bytes → S × Result BucketError (Unit {0})
  pub put_object : S → Bytes → Bytes → Bytes → Bytes → S × Fallible (Unit {0})
  pub get_object : S → Bytes → Bytes → Fallible (Fallible Bytes)
  pub stat_object : S → Bytes → Bytes → Fallible ℕ

abbrev pub max_int32 : ℕ
max_int32 = 2 ^ 31 - 1

-- What the end of a save returns, of the outcome of the upload.
abbrev pub saved :
    {S : Type 0} → ArtifactLocation → S × Fallible (Unit {0}) → S × Fallible ArtifactLocation
saved location (s, ok u) = (s, ok location)
saved location (s, err e) = (s, err e)

abbrev read_all : Fallible (Fallible Bytes) → Fallible Bytes
read_all (ok contents) = contents
read_all (err e) = err e

abbrev pub sized : Fallible ℕ → Fallible ℕ
sized (err e) = err e
sized (ok size) =
    if ltb max_int32 size
    then err
        (message (ascii "object size " ++ (format_int (pos size) ++ ascii " exceeds max int size")))
    else ok size

-- The outcome of `MakeBucket`. The error is taken for an answer of the server; if it is none, the
-- type assertion panics.
abbrev pub made : Result BucketError (Unit {0}) → Option (Fallible (Unit {0}))
made (ok u) = some (ok tt)
made (err (error_response code e)) =
    if bytes_beq code (ascii "BucketAlreadyOwnedByYou") then some (ok tt) else some (err e)
made (err (other_error e)) = none

abbrev pub missing_bucket :
    {S : Type 0} → S × Result BucketError (Unit {0}) → Option (S × Fallible (Unit {0}))
missing_bucket (s, r) = elim (made r) [ none ↦ none | some outcome ↦ some (s, outcome) ]

module _ {S : Type 0} (client : Client S) where
  unfoldable pub get_artifact : S → ArtifactLocation → Fallible Bytes
  get_artifact s l = read_all (client.get_object s l.bucket l.key)

  -- A missing bucket is only logged.
  unfoldable pub save_artifact : S → Bytes → Bytes → Bytes → Bytes → S × Fallible ArtifactLocation
  save_artifact s bucket key contents content_type =
      saved (record { key = key; bucket = bucket })
        (client.put_object s bucket key contents content_type)

  unfoldable pub get_query_pack : S → ArtifactLocation → Fallible Bytes
  unfolding get_artifact
  get_query_pack s l = get_artifact s l

  unfoldable pub save_query_pack : BucketNames → S → ℤ → Bytes → S × Fallible ArtifactLocation
  unfolding save_artifact
  save_query_pack names s id pack =
      save_artifact s names.packs (pack_key id) pack (ascii "application/gzip")

  unfoldable pub get_result : S → ArtifactLocation → Fallible Bytes
  unfolding get_artifact
  get_result s l = get_artifact s l

  unfoldable pub get_result_size : S → ArtifactLocation → Fallible ℕ
  get_result_size s l = sized (client.stat_object s l.bucket l.key)

  unfoldable pub save_result : BucketNames → S → JobSpec → Bytes → S × Fallible ArtifactLocation
  unfolding save_artifact
  save_result names s js archive =
      save_artifact s names.results (result_key js) archive (ascii "application/zip")

  abbrev pub minio_store : BucketNames → Store S
  minio_store names = record {
    get_query_pack = get_query_pack;
    save_query_pack = save_query_pack names;
    get_result = get_result;
    get_result_size = get_result_size;
    save_result = save_result names;
  }

  -- `none` is a panic.
  unfoldable pub create_minio_bucket_if_not_exists : S → Bytes → Option (S × Fallible (Unit {0}))
  create_minio_bucket_if_not_exists s name = elim (client.bucket_exists s name) [
    | err e ↦ some (s, err e)
    | ok found ↦ if found then some (s, ok tt) else missing_bucket (client.make_bucket s name)
  ]
