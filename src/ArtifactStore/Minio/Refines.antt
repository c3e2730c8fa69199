-- ===== src/ArtifactStore/Minio/Refines.antt =====
-- The store in MinIO against the store in memory.
use mrvacommander.Prelude.{
  sym, Bool-cases, ℤ, Bytes, ascii, bytes_eq, bytes_beq, bytes_beq_iff, ok, lookup-insert, length,
  if◌then◌else◌, ◌≡◌, ◌≢◌, ◌↔◌, inl, inr, arith,
}
use mrvacommander.Prelude.Decimal.{format_int-append_injective}
use mrvacommander.Common.Types.{JobSpec}
use mrvacommander.Common.Errors.{Fallible}
use mrvacommander.ArtifactStore.Types.{ArtifactLocation, BucketNames}
use mrvacommander.ArtifactStore.Memory as Memory
use mrvacommander.ArtifactStore.Memory.{InMemoryArtifactStore, pack_key, result_key}
use mrvacommander.ArtifactStore.Minio.{
  Client, get_query_pack, save_query_pack, get_result, save_result, get_artifact,
}

-- What the library promises of the objects in the buckets: an upload that went through is what is
-- read afterwards, and no other object changes.
pub record IsObjectStore {S : Type 0} (client : Client S) : Type 0 where
  pub uploaded :
      (s s' : S) (bucket key contents kind : Bytes)
      → client.put_object s bucket key contents kind ≡ (s', ok tt)
      → client.get_object s' bucket key ≡ ok (ok contents)
  pub measured :
      (s s' : S) (bucket key contents kind : Bytes)
      → client.put_object s bucket key contents kind ≡ (s', ok tt)
      → client.stat_object s' bucket key ≡ ok (length contents)
  pub others :
      (s s' : S) (bucket key contents kind other : Bytes)
      → client.put_object s bucket key contents kind ≡ (s', ok tt)
      → (name : Bytes) → name ≢ key
      → client.get_object s' other name ≡ client.get_object s other name
  pub other_sizes :
      (s s' : S) (bucket key contents kind other : Bytes)
      → client.put_object s bucket key contents kind ≡ (s', ok tt)
      → (name : Bytes) → name ≢ key
      → client.stat_object s' other name ≡ client.stat_object s other name

-- A query pack and a result never share a key, not even in one bucket.
pub pack_key-ne-result_key : (id : ℤ) (js : JobSpec) → pack_key id ≢ result_key js
unfolding pack_key result_key
pack_key-ne-result_key id js e =
    let (n, rest) = format_int-append_injective id js.session_id _ _ e in ground arith

-- Two reads give the same bytes, or none of them gives any.
abbrev pub SameRead : {A : Type 0} → Fallible A → Fallible A → Type 0
SameRead {A} x y = (a : A) → (x ≡ ok a) ↔ (y ≡ ok a)

abbrev pub result_location : BucketNames → JobSpec → ArtifactLocation
result_location names js = record { key = result_key js; bucket = names.results }

abbrev pub pack_location : BucketNames → ℤ → ArtifactLocation
pack_location names id = record { key = pack_key id; bucket = names.packs }

-- What was saved in MinIO is what was saved in memory.
pub record Refines {S : Type 0} (client : Client S) (names : BucketNames) (s : S)
    (m : InMemoryArtifactStore) : Type 0 where
  pub results :
      (js : JobSpec)
      → SameRead
          (get_result client s (result_location names js))
          (Memory.get_result m (result_location names js))
  pub packs :
      (id : ℤ)
      → SameRead
          (get_query_pack client s (pack_location names id))
          (Memory.get_query_pack m (pack_location names id))

module _ {S : Type 0} (client : Client S) (store : IsObjectStore client) (names : BucketNames) where
  pub save_result-put :
      (s s' : S) (js : JobSpec) (archive : Bytes) (l : ArtifactLocation)
      → save_result client names s js archive ≡ (s', ok l)
      → (client.put_object s names.results (result_key js) archive (ascii "application/zip")
          ≡ (s', ok tt))
        × (l ≡ record { key = result_key js; bucket = names.results })
  unfolding save_result
  save_result-put s s' js archive l e = (ground arith, ground arith)

  save_query_pack-put :
      (s s' : S) (id : ℤ) (pack : Bytes) (l : ArtifactLocation)
      → save_query_pack client names s id pack ≡ (s', ok l)
      → (client.put_object s names.packs (pack_key id) pack (ascii "application/gzip")
          ≡ (s', ok tt))
        × (l ≡ record { key = pack_key id; bucket = names.packs })
  unfolding save_query_pack
  save_query_pack-put s s' id pack l e = (ground arith, ground arith)

  -- A read in MinIO after an upload to the same bucket: what was uploaded, or what was there.
  get_artifact-put :
      (s s' : S) (bucket key contents kind name : Bytes)
      → client.put_object s bucket key contents kind ≡ (s', ok tt)
      → get_artifact client s' (record { key = name; bucket = bucket }) ≡ (
          if bytes_beq key name
          then ok contents
          else get_artifact client s (record { key = name; bucket = bucket }))
  unfolding get_artifact
  get_artifact-put s s' bucket key contents kind name e = elim (Bool-cases (bytes_beq key name)) [
    | inl equal ↦
        ground (arith, store.uploaded s s' bucket key contents kind e, bytes_beq_iff key name)
    | inr differ ↦ ground (
      arith,
      store.others s s' bucket key contents kind bucket e name
          (λ (p : name ≡ key). cc ((bytes_beq_iff key name).1 (sym p))),
    )
  ]

  -- Another object is read as before.
  get_artifact-put_other :
      (s s' : S) (bucket key contents kind : Bytes) (l : ArtifactLocation)
      → client.put_object s bucket key contents kind ≡ (s', ok tt)
      → l.key ≢ key
      → get_artifact client s' l ≡ get_artifact client s l
  unfolding get_artifact
  get_artifact-put_other s s' bucket key contents kind l e differ =
      rw (store.others s s' bucket key contents kind l.bucket e l.key differ)

  pub save_result-Refines :
      (s s' : S) (m : InMemoryArtifactStore) (js : JobSpec) (archive : Bytes) (l : ArtifactLocation)
      → save_result client names s js archive ≡ (s', ok l)
      → Refines client names s m
      → Refines client names s' (Memory.save_result names m js archive).0
  unfolding get_result get_query_pack Memory.save_result Memory.get_result Memory.get_query_pack
  save_result-Refines s s' m js archive l e r =
      let (put, where_saved) = save_result-put s s' js archive l e in
      record {
        results = λ other b. ground (
          arith,
          get_artifact-put s s' names.results (result_key js) archive (ascii "application/zip")
              (result_key other) put,
          lookup-insert (result_key js) (result_key other) archive m.results,
          r.results other b,
        );
        packs = λ id b. ground (
          arith,
          get_artifact-put_other s s' names.results (result_key js) archive
              (ascii "application/zip") (pack_location names id) put (pack_key-ne-result_key id js),
          r.packs id b,
        );
      }

  pub save_query_pack-Refines :
      (s s' : S) (m : InMemoryArtifactStore) (id : ℤ) (pack : Bytes) (l : ArtifactLocation)
      → save_query_pack client names s id pack ≡ (s', ok l)
      → Refines client names s m
      → Refines client names s' (Memory.save_query_pack names m id pack).0
  unfolding get_result get_query_pack Memory.save_query_pack Memory.get_result Memory.get_query_pack
  save_query_pack-Refines s s' m id pack l e r =
      let (put, where_saved) = save_query_pack-put s s' id pack l e in
      record {
        results = λ js b. ground (
          arith,
          get_artifact-put_other s s' names.packs (pack_key id) pack (ascii "application/gzip")
              (result_location names js) put
              (λ (p : result_key js ≡ pack_key id). pack_key-ne-result_key id js (sym p)),
          r.results js b,
        );
        packs = λ other b. ground (
          arith,
          get_artifact-put s s' names.packs (pack_key id) pack (ascii "application/gzip")
              (pack_key other) put,
          lookup-insert (pack_key id) (pack_key other) pack m.packs,
          r.packs other b,
        );
      }
