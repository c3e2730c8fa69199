-- ===== src/QldbStore/Hepc/Cache.antt =====
-- The cache of metadata: its age, its refresh, and `FindAvailableDBs`.
use mrvacommander.Prelude.{
  ℕ, suc, ◌-◌, ◌*◌, ◌^◌, ltb, wrap_int, Bytes, bytes_eq, bytes_beq, bytes_beq_iff, ascii, ℤ, pos,
  negsuc, List, [], ◌∷◌, Bool, true, false, ◌||◌, none, some, ok, err, ◌≡◌, inl, inr, if◌then◌else◌,
  arith, Bool-cases, Result-cases,
}
use mrvacommander.Prelude.Decimal.{parse_int}
use mrvacommander.Common.Types.{NameWithOwner}
use mrvacommander.Common.Errors.{Error, Fallible}
use mrvacommander.QldbStore.Partition.{partition_repos, Sorted, partition_repos-Sorted}
use mrvacommander.QldbStore.Hepc.{HepcResult, World, HepcStore, repo_key}
use mrvacommander.QldbStore.Hepc.Fetch.{fetch_metadata}

-- `time.Minute * n`, in nanoseconds.
abbrev pub minutes : ℤ → ℤ
unfolding wrap_int
minutes (pos n) = wrap_int (pos (n * 60000000000))
minutes (negsuc n) = wrap_int (negsuc (suc n * 60000000000 - 1))

abbrev pub default_cache_duration : ℤ
default_cache_duration = pos 3600000000000

unfoldable pub get_meta_cache_duration : World → ℤ
get_meta_cache_duration w =
    let text = w.getenv (ascii "MRVA_HEPC_CACHE_DURATION") in
    if bytes_beq text []
    then default_cache_duration
    else elim (parse_int 64 text) [ none ↦ default_cache_duration | some n ↦ minutes n ]

unfoldable pub new_hepc_store : World → Bytes → HepcStore
unfolding get_meta_cache_duration
new_hepc_store w endpoint = record {
  endpoint = endpoint;
  metadata_cache = [];
  cache_last_updated = 0;
  cache_duration = get_meta_cache_duration w;
}

-- `time.Since`, which stops at the largest duration.
abbrev since : World → ℕ → ℕ
since w t = let age = w.now - t in if ltb age (2 ^ 63) then age else 2 ^ 63 - 1

-- `time.Since(h.cacheLastUpdated) > h.cacheDuration`.
unfoldable pub expired : World → HepcStore → Bool
expired w h = elim h.cache_duration [
  | pos d ↦ ltb d (since w h.cache_last_updated)
  | negsuc d ↦ true
]

-- The block under the mutex, which both operations begin with: the store that it leaves, and the
-- metadata to use.
unfoldable pub refresh : World → HepcStore → HepcStore × Fallible (List HepcResult)
unfolding expired
refresh w h =
    if expired w h
    then elim (fetch_metadata w h) [
      | err e ↦ (h, err e)
      | ok results ↦
          (record h { metadata_cache = results; cache_last_updated = w.updated }, ok results)
    ]
    else (h, ok h.metadata_cache)

-- The set of the names in the metadata, as a test.
unfoldable pub in_repo_set : List HepcResult → Bytes → Bool
in_repo_set [] key = false
in_repo_set (result ∷ results) key = bytes_beq result.projname key || in_repo_set results key

unfoldable pub find_available_dbs :
    World → HepcStore → List NameWithOwner → HepcStore × List NameWithOwner × List NameWithOwner
unfolding refresh in_repo_set partition_repos
find_available_dbs w h repos =
    let (h', metadata) = refresh w h in
    elim metadata [
      | err e ↦ (h', repos, [])
      | ok results ↦
          let (missing, present) =
            partition_repos (λ repo. in_repo_set results (repo_key repo)) repos in
          (h', missing, present)
    ]

-- A result of the metadata is about a repository.
pub data Named (key : Bytes) : List HepcResult → Type 0 where
  here :
      (result : HepcResult) (results : List HepcResult)
      → result.projname ≡ key
      → Named key (result ∷ results)
  there :
      (result : HepcResult) (results : List HepcResult)
      → Named key results
      → Named key (result ∷ results)

in_repo_set-Named :
    (results : List HepcResult) (key : Bytes) → in_repo_set results key ≡ true → Named key results
unfolding in_repo_set
in_repo_set-Named [] key e = cc
in_repo_set-Named (result ∷ results) key e = elim (Bool-cases (bytes_beq result.projname key)) [
  | inl same ↦ here result results ((bytes_beq_iff result.projname key).0 same)
  | inr other ↦ there result results (in_repo_set-Named results key (ground (arith, e, other)))
]

not_Named :
    (results : List HepcResult) (key : Bytes)
    → in_repo_set results key ≡ false
    → Named key results
    → ⊥
unfolding in_repo_set
not_Named [] key e h = elim h [ ]
not_Named (result ∷ results) key e (here _ _ same) =
    ground (arith, bytes_beq_iff result.projname key)
not_Named (result ∷ results) key e (there _ _ more) = not_Named results key (ground arith) more

-- What becomes of the store and the cache in a call of `FindAvailableDBs`.
pub data Found (w : World) (h : HepcStore) (repos : List NameWithOwner)
    (r : HepcStore × List NameWithOwner × List NameWithOwner) : Type 0 where
  cached :
      expired w h ≡ false
      → r.0 ≡ h
      → Sorted (λ repo. Named (repo_key repo) h.metadata_cache) repos r.1 r.2
      → Found w h repos r
  fetched :
      (results : List HepcResult)
      → expired w h ≡ true
      → fetch_metadata w h ≡ ok results
      → r.0 ≡ record h { metadata_cache = results; cache_last_updated = w.updated }
      → Sorted (λ repo. Named (repo_key repo) results) repos r.1 r.2
      → Found w h repos r
  failed :
      (e : Error)
      → expired w h ≡ true
      → fetch_metadata w h ≡ err e
      → r ≡ (h, repos, [])
      → Found w h repos r

sorted_by :
    (results : List HepcResult) (repos : List NameWithOwner)
    → let r = partition_repos (λ repo. in_repo_set results (repo_key repo)) repos in
      Sorted (λ repo. Named (repo_key repo) results) repos r.0 r.1
sorted_by results repos =
    partition_repos-Sorted _ _ (λ repo. in_repo_set-Named results (repo_key repo))
      (λ repo. not_Named results (repo_key repo)) repos

-- The repositories are sorted by whether the metadata names them, in the order of the request. The
-- metadata is that of the cache while it is young enough, and then the store stays as it is;
-- afterwards it is fetched, and replaces the cache. If the fetch fails, the cache and its time
-- stay, and every repository counts as missing.
pub find_available_dbs-Found :
    (w : World) (h : HepcStore) (repos : List NameWithOwner)
    → Found w h repos (find_available_dbs w h repos)
unfolding find_available_dbs refresh
find_available_dbs-Found w h repos = elim (Bool-cases (expired w h)) [
  | inr young ↦
      rw (young, find_available_dbs, refresh)
        (cached young (rw (young, refresh)) (sorted_by h.metadata_cache repos))
  | inl old ↦ elim (Result-cases (fetch_metadata w h)) [
    | inl (results, e) ↦
        rw (old, e, find_available_dbs, refresh)
          (fetched results old e (rw (old, e, refresh)) (sorted_by results repos))
    | inr (x, e) ↦ rw (old, e, find_available_dbs, refresh) (failed x old e (rw (old, e, refresh)))
  ]
]
