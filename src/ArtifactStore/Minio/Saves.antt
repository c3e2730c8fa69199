-- ===== src/ArtifactStore/Minio/Saves.antt =====
-- Sequences of saves in MinIO and in memory.
use mrvacommander.Prelude.{◌≤◌, ℕ, ℤ, Bytes, bytes_eq, List, [], ◌∷◌, ok, length, ◌≡◌, ◌↔◌, arith}
use mrvacommander.Common.Types.{JobSpec}
use mrvacommander.ArtifactStore.Types.{ArtifactLocation, BucketNames}
use mrvacommander.ArtifactStore.Memory as Memory
use mrvacommander.ArtifactStore.Memory.{InMemoryArtifactStore, pack_key, result_key}
use mrvacommander.ArtifactStore.Minio.{
  Client, save_query_pack, get_result, save_result, get_result_size, get_artifact, max_int32,
}
use mrvacommander.ArtifactStore.Minio.Refines.{
  IsObjectStore, Refines, save_result-put, save_result-Refines, save_query_pack-Refines,
}

-- A save, as the server and the agents make them.
pub data Save : Type 0 where
  pack : ℤ → Bytes → Save
  result : JobSpec → Bytes → Save

-- The saves in memory, and those in MinIO as long as every upload goes through.
abbrev pub save_memory : BucketNames → InMemoryArtifactStore → List Save → InMemoryArtifactStore
save_memory names m [] = m
save_memory names m (pack id contents ∷ saves) =
    save_memory names (Memory.save_query_pack names m id contents).0 saves
save_memory names m (result js archive ∷ saves) =
    save_memory names (Memory.save_result names m js archive).0 saves

pub data Uploads {S : Type 0} (client : Client S) (names : BucketNames)
    : S → List Save → S → Type 0 where
  nothing : {s : S} → Uploads client names s [] s
  pack_saved :
      {s t u : S} {saves : List Save} (id : ℤ) (contents : Bytes) (l : ArtifactLocation)
      → save_query_pack client names s id contents ≡ (t, ok l)
      → Uploads client names t saves u
      → Uploads client names s (pack id contents ∷ saves) u
  result_saved :
      {s t u : S} {saves : List Save} (js : JobSpec) (archive : Bytes) (l : ArtifactLocation)
      → save_result client names s js archive ≡ (t, ok l)
      → Uploads client names t saves u
      → Uploads client names s (result js archive ∷ saves) u

-- Whatever query packs and results are saved, in whatever order, and in one bucket or two: as
-- long as every upload goes through, MinIO answers each read of a query pack and of a result with
-- the bytes that the store in memory answers it with, and with an error where that has none.
pub Uploads-Refines :
    {S : Type 0} (client : Client S) (names : BucketNames) {s u : S} {saves : List Save}
    (m : InMemoryArtifactStore)
    → IsObjectStore client
    → Refines client names s m
    → Uploads client names s saves u
    → Refines client names u (save_memory names m saves)
Uploads-Refines client names m store r nothing = r
Uploads-Refines client names m store r (pack_saved {s = s} {t = t} id contents l e rest) =
    Uploads-Refines client names _ store
      (save_query_pack-Refines client store names s t m id contents l e r) rest
Uploads-Refines client names m store r (result_saved {s = s} {t = t} js archive l e rest) =
    Uploads-Refines client names _ store
      (save_result-Refines client store names s t m js archive l e r) rest

-- The size of a result that was just saved is its length, unless that does not fit into 32 bits:
-- then the size is an error, though the result itself can still be read.
pub save_result-get_result_size :
    {S : Type 0} (client : Client S) (names : BucketNames) (s s' : S) (js : JobSpec)
    (archive : Bytes) (l : ArtifactLocation)
    → IsObjectStore client
    → save_result client names s js archive ≡ (s', ok l)
    → (get_result client s' l ≡ ok archive)
      × ((n : ℕ) → (get_result_size client s' l ≡ ok n) ↔ ((n ≡ length archive) × (n ≤ max_int32)))
unfolding get_result get_artifact get_result_size
save_result-get_result_size client names s s' js archive l store e =
    let (put, at_key) = save_result-put client store names s s' js archive l e in
    (
      rw (at_key, store.uploaded s s' _ _ _ _ put),
      (λ n. rw (at_key, store.measured s s' _ _ _ _ put) (ground arith)),
    )
