-- ===== src/ArtifactStore/Tests.antt =====
-- Runs of the store in memory, and each theorem about it at a concrete store.
use mrvacommander.Prelude.{Bytes, ascii, pos, ◌≡◌, refl, [], ◌∷◌, ok, arith}
use mrvacommander.Prelude.Decimal.{format_int}
use mrvacommander.Common.Types.{JobSpec}
use mrvacommander.ArtifactStore.Types.{ArtifactLocation, default_buckets}
use mrvacommander.ArtifactStore.Memory.{
  InMemoryArtifactStore, new_in_memory_artifact_store, result_key, get_result, get_result_size,
  save_result, get_query_pack, save_query_pack,
}
use mrvacommander.ArtifactStore.Memory.RoundTrip.{
  save_result-get_result, save_query_pack-get_query_pack, save_result_frame,
}

abbrev spec : JobSpec
spec = record {
  session_id = pos 12;
  name_with_owner = record { owner = ascii "psycopg"; repo = ascii "psycopg2" };
}

abbrev other : JobSpec
other = record spec { session_id = pos 13 }

abbrev archive : Bytes
archive = 80 ∷ 75 ∷ 3 ∷ 4 ∷ []

abbrev start : InMemoryArtifactStore
start = new_in_memory_artifact_store

spec_key : result_key spec ≡ ascii "12-results-{psycopg psycopg2}"
unfolding result_key format_int
spec_key = refl

save_result-get_result_example :
    let (s', r) = save_result default_buckets start spec archive in
    (l : ArtifactLocation) × (r ≡ ok l)
    × (l.bucket ≡ ascii "mrvabucket")
    × (get_result s' l ≡ ok archive)
    × (get_result_size s' l ≡ ok 4)
    × (s'.packs ≡ start.packs)
save_result-get_result_example = save_result-get_result default_buckets start spec archive

saved_pack :
    let (s', r) = save_query_pack default_buckets start (pos 12) archive in
    (l : ArtifactLocation) × (r ≡ ok l)
    × (l.bucket ≡ ascii "mrvabucket")
    × (get_query_pack s' l ≡ ok archive)
    × (s'.results ≡ start.results)
saved_pack = save_query_pack-get_query_pack default_buckets start (pos 12) archive

save_result_frame_example :
    get_result
      (save_result default_buckets start spec archive).0
      (record { key = result_key other; bucket = [] })
    ≡ get_result start (record { key = result_key other; bucket = [] })
save_result_frame_example =
    save_result_frame default_buckets start spec other archive (omega arith) (omega arith)
      (λ e. ground arith) (record { key = result_key other; bucket = [] }) refl
