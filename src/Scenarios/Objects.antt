-- ===== src/Scenarios/Objects.antt =====
-- A MinIO server with one bucket that works.
use mrvacommander.Prelude.{
  ℕ, pos, Bytes, bytes_eq, ascii, lookup, insert, lookup-insert, bytes_beq_iff, true, [], ◌∷◌, Map,
  Option, none, some, ok, err, length, refl, arith,
}
use mrvacommander.Common.Errors.{Error, Fallible, message as text}
use mrvacommander.ArtifactStore.Types.{ArtifactLocation, default_buckets}
use mrvacommander.ArtifactStore.Memory.{new_in_memory_artifact_store}
use mrvacommander.ArtifactStore.Memory as Memory
use mrvacommander.ArtifactStore.Minio.{
  Client, save_result, save_query_pack, get_result, get_query_pack, get_artifact,
}
use mrvacommander.ArtifactStore.Minio.Refines.{IsObjectStore, Refines}
use mrvacommander.ArtifactStore.Minio.Saves.{
  Uploads, nothing, pack_saved, result_saved, pack, result, save_memory, Uploads-Refines,
}
use mrvacommander.Scenarios.{spec, archive}

abbrev Server : Type 0
Server = Map Bytes Bytes

abbrev no_such_key : Error
no_such_key = text (ascii "The specified key does not exist.")

abbrev found : Option Bytes → Fallible (Fallible Bytes)
found none = ok (err no_such_key)
found (some b) = ok (ok b)

abbrev stated : Option Bytes → Fallible ℕ
stated none = err no_such_key
stated (some b) = ok (length b)

-- All buckets are one.
abbrev client : Client Server
client = record {
  bucket_exists = λ s bucket. ok true;
  make_bucket = λ s bucket. (s, ok tt);
  put_object = λ s bucket key contents kind. (insert key contents s, ok tt);
  get_object = λ s bucket key. found (lookup key s);
  stat_object = λ s bucket key. stated (lookup key s);
}

works : IsObjectStore client
works = record {
  uploaded = λ s s' bucket key contents kind e.
      ground (arith, lookup-insert key key contents s, bytes_beq_iff key key);
  measured = λ s s' bucket key contents kind e.
      ground (arith, lookup-insert key key contents s, bytes_beq_iff key key);
  others = λ s s' bucket key contents kind other e name differ.
      ground (arith, lookup-insert key name contents s, bytes_beq_iff key name);
  other_sizes = λ s s' bucket key contents kind other e name differ.
      ground (arith, lookup-insert key name contents s, bytes_beq_iff key name);
}

empty_Refines : Refines client default_buckets [] new_in_memory_artifact_store
unfolding get_result get_query_pack get_artifact Memory.get_result Memory.get_query_pack
    new_in_memory_artifact_store lookup
empty_Refines = record { results = λ js b. ground arith; packs = λ id b. ground arith }

abbrev with_pack : Server × Fallible ArtifactLocation
unfolding save_query_pack
with_pack = save_query_pack client default_buckets [] (pos 1) archive

abbrev with_both : Server × Fallible ArtifactLocation
unfolding save_result with_pack
with_both = save_result client default_buckets with_pack.0 spec archive

abbrev or_nowhere : Fallible ArtifactLocation → ArtifactLocation
or_nowhere (ok l) = l
or_nowhere (err e) = record { key = []; bucket = [] }

saves :
    Uploads client default_buckets [] (pack (pos 1) archive ∷ result spec archive ∷ []) with_both.0
unfolding with_pack with_both save_query_pack save_result
saves =
    pack_saved (pos 1) archive (or_nowhere with_pack.1) refl
      (result_saved spec archive (or_nowhere with_both.1) refl nothing)

Uploads-Refines_example : Refines client default_buckets with_both.0 (
    save_memory default_buckets new_in_memory_artifact_store
      (pack (pos 1) archive ∷ result spec archive ∷ []))
Uploads-Refines_example =
    Uploads-Refines client default_buckets new_in_memory_artifact_store works empty_Refines saves
