-- ===== src/ArtifactStore/Memory.antt =====
-- pkg/artifactstore/store_memory.go. The mutex makes each method one step.
pub mod Keys
pub mod RoundTrip
use mrvacommander.Prelude.{
  bytes_eq, Bytes, ascii, ℤ, ℕ, [], ◌++◌, Map, lookup, insert, length, Option, none, some, ok, err,
}
use mrvacommander.Prelude.Decimal.{format_int}
use mrvacommander.Common.Types.{JobSpec, NameWithOwner}
use mrvacommander.Common.Errors.{Fallible, Error, query_pack_not_found, artifact_not_found}
use mrvacommander.ArtifactStore.Types.{ArtifactLocation, BucketNames, Store}

pub record InMemoryArtifactStore : Type 0 where
  pub packs : Map Bytes Bytes
  pub results : Map Bytes Bytes

unfoldable pub new_in_memory_artifact_store : InMemoryArtifactStore
new_in_memory_artifact_store = record { packs = []; results = [] }

-- `fmt.Sprintf("%d-packs", sessionId)`
unfoldable pub pack_key : ℤ → Bytes
pack_key id = format_int id ++ ascii "-packs"

-- `%s` of a `NameWithOwner`: a struct is printed as its fields, between braces and spaces.
unfoldable pub format_nwo : NameWithOwner → Bytes
format_nwo n = ascii "{" ++ (n.owner ++ (ascii " " ++ (n.repo ++ ascii "}")))

-- `fmt.Sprintf("%d-results-%s", jobSpec.SessionID, jobSpec.NameWithOwner)`
unfoldable pub result_key : JobSpec → Bytes
unfolding format_nwo
result_key js = format_int js.session_id ++ (ascii "-results-" ++ format_nwo js.name_with_owner)

abbrev or_missing : Error → Option Bytes → Fallible Bytes
or_missing e none = err e
or_missing e (some b) = ok b

abbrev size_or_missing : Error → Option Bytes → Fallible ℕ
size_or_missing e none = err e
size_or_missing e (some b) = ok (length b)

unfoldable pub get_query_pack : InMemoryArtifactStore → ArtifactLocation → Fallible Bytes
get_query_pack s l = or_missing (query_pack_not_found l.key) (lookup l.key s.packs)

unfoldable pub save_query_pack :
    BucketNames
    → InMemoryArtifactStore
    → ℤ
    → Bytes
    → InMemoryArtifactStore × Fallible ArtifactLocation
unfolding pack_key
save_query_pack names s id pack =
    let key = pack_key id in
    (record s { packs = insert key pack s.packs }, ok (record { key = key; bucket = names.packs }))

unfoldable pub get_result : InMemoryArtifactStore → ArtifactLocation → Fallible Bytes
get_result s l = or_missing (artifact_not_found l.key) (lookup l.key s.results)

unfoldable pub get_result_size : InMemoryArtifactStore → ArtifactLocation → Fallible ℕ
get_result_size s l = size_or_missing (artifact_not_found l.key) (lookup l.key s.results)

unfoldable pub save_result :
    BucketNames
    → InMemoryArtifactStore
    → JobSpec
    → Bytes
    → InMemoryArtifactStore × Fallible ArtifactLocation
save_result names s js archive =
    let key = result_key js in
    (
      record s { results = insert key archive s.results },
      ok (record { key = key; bucket = names.results }),
    )

-- The store as an implementation of the interface.
abbrev pub memory_store : BucketNames → Store InMemoryArtifactStore
memory_store names = record {
  get_query_pack = get_query_pack;
  save_query_pack = save_query_pack names;
  get_result = get_result;
  get_result_size = get_result_size;
  save_result = save_result names;
}
