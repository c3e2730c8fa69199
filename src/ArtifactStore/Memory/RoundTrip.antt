-- ===== src/ArtifactStore/Memory/RoundTrip.antt =====
-- What a save in memory is read back as.
use mrvacommander.Prelude.{
  bytes_eq, lookup-insert, beq_refl, bytes_beq_iff, Bytes, ℤ, ◌≡◌, ◌≢◌, refl, ok, length, arith,
}
use mrvacommander.Common.Types.{JobSpec}
use mrvacommander.ArtifactStore.Types.{ArtifactLocation, BucketNames}
use mrvacommander.ArtifactStore.Memory.{
  InMemoryArtifactStore, pack_key, result_key, get_query_pack, save_query_pack, get_result,
  get_result_size, save_result,
}
use mrvacommander.ArtifactStore.Memory.Keys.{Lacks, result_key_injective}

-- A saved result is read back from the location that the save returns, with its size, in the
-- results bucket; the query packs stay as they were.
pub save_result-get_result :
    (names : BucketNames) (s : InMemoryArtifactStore) (js : JobSpec) (archive : Bytes)
    → let (s', r) = save_result names s js archive in
      (l : ArtifactLocation) × (r ≡ ok l)
      × (l.bucket ≡ names.results)
      × (get_result s' l ≡ ok archive)
      × (get_result_size s' l ≡ ok (length archive))
      × (s'.packs ≡ s.packs)
unfolding save_result get_result get_result_size
save_result-get_result names s js archive =
    let here = lookup-insert (result_key js) (result_key js) archive s.results in
    let self = beq_refl (result_key js) in
    (
      record { key = result_key js; bucket = names.results },
      refl,
      refl,
      ground arith,
      ground arith,
      refl,
    )

-- A saved query pack is read back, and the results stay as they were.
pub save_query_pack-get_query_pack :
    (names : BucketNames) (s : InMemoryArtifactStore) (id : ℤ) (pack : Bytes)
    → let (s', r) = save_query_pack names s id pack in
      (l : ArtifactLocation) × (r ≡ ok l)
      × (l.bucket ≡ names.packs)
      × (get_query_pack s' l ≡ ok pack)
      × (s'.results ≡ s.results)
unfolding save_query_pack get_query_pack
save_query_pack-get_query_pack names s id pack =
    let here = lookup-insert (pack_key id) (pack_key id) pack s.packs in
    let self = beq_refl (pack_key id) in
    (record { key = pack_key id; bucket = names.packs }, refl, refl, ground arith, refl)

-- A save for one job leaves what another job has saved, if neither owner holds a space.
pub save_result_frame :
    (names : BucketNames) (s : InMemoryArtifactStore) (js other : JobSpec) (archive : Bytes)
    → Lacks b' ' js.owner
    → Lacks b' ' other.owner
    → js ≢ other
    → (l : ArtifactLocation) → l.key ≡ result_key other
    → get_result (save_result names s js archive).0 l ≡ get_result s l
unfolding save_result get_result
save_result_frame names s js other archive h ho ne l e = ground (
  arith,
  lookup-insert (result_key js) (result_key other) archive s.results,
  bytes_beq_iff (result_key js) (result_key other),
  λ (k : result_key js ≡ result_key other). ne (result_key_injective js other h ho k),
)
