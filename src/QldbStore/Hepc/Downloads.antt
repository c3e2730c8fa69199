-- ===== src/QldbStore/Hepc/Downloads.antt =====
-- What `GetDatabase` returns.
use mrvacommander.Prelude.{
  Bytes, bytes_eq, bytes_beq, bytes_beq_iff, nat_beq, List, [], ◌∷◌, true, false, none, some, ok,
  err, ◌≡◌, inl, inr, refl, arith, Bool-cases, Result-cases,
}
use mrvacommander.Common.Types.{NameWithOwner}
use mrvacommander.Common.Errors.{Fallible, database_not_found}
use mrvacommander.QldbStore.Hepc.{HepcResult, TarEntry, Response, World, HepcStore, repo_key}
use mrvacommander.QldbStore.Hepc.Cache.{refresh, Named}
use mrvacommander.QldbStore.Hepc.Serve.{
  replace_hepc_url, find_database_entry, extract_database_from_tar, result_url_of, is_gzip, unpack,
  download, get_database,
}

-- An archive is what `location`'s database is: behind the URL of the first result with its name,
-- the body of a response of status 200 is the archive and has no gzip magic number; or it has it,
-- and the archive is the content of the first entry of the name in the tar file.
pub data Unpacked (w : World) (content archive : Bytes) : Type 0 where
  plain : is_gzip content ≡ false → content ≡ archive → Unpacked w content archive
  from_tar :
      (entries : List (Fallible TarEntry))
      → is_gzip content ≡ true
      → w.gzip_tar_entries content ≡ ok entries
      → find_database_entry entries ≡ ok (some archive)
      → Unpacked w content archive

pub record Downloaded (w : World) (results : List HepcResult) (location : NameWithOwner)
    (archive : Bytes) : Type 0 where
  pub named : Named (repo_key location) results
  pub response : Response
  pub content : Bytes
  pub fetched :
      w.http_get (replace_hepc_url w (result_url_of results (repo_key location))) ≡ ok response
  pub status_ok : response.status_code ≡ 200
  pub read : response.body ≡ ok content
  pub unpacked : Unpacked w content archive

result_url_of-Named :
    (results : List HepcResult) (key : Bytes)
    → bytes_beq (result_url_of results key) [] ≡ false
    → Named key results
unfolding result_url_of bytes_beq
result_url_of-Named [] key e = cc
result_url_of-Named (result ∷ results) key e = elim (Bool-cases (bytes_beq result.projname key)) [
  | inl same ↦ Named.here result results ((bytes_beq_iff result.projname key).0 same)
  | inr other ↦
      Named.there result results (result_url_of-Named results key (ground (arith, e, other)))
]

unpack-Unpacked :
    (w : World) (content archive : Bytes)
    → unpack w content ≡ ok archive
    → Unpacked w content archive
unfolding unpack extract_database_from_tar
unpack-Unpacked w content archive e = elim (Bool-cases (is_gzip content)) [
  | inr raw ↦ plain raw (ground (arith, e, raw))
  | inl gzip ↦ elim (Result-cases (w.gzip_tar_entries content)) [
    | inr (x, f) ↦ absurd (ground (arith, e, gzip, f))
    | inl (entries, f) ↦ elim (Result-cases (find_database_entry entries)) [
      | inr (x, g) ↦ absurd (ground (arith, e, gzip, f, g))
      | inl (none, g) ↦ absurd (ground (arith, e, gzip, f, g))
      | inl (some data', g) ↦ from_tar entries gzip f (ground (arith, e, gzip, f, g))
    ]
  ]
]

download-Downloaded :
    (w : World) (results : List HepcResult) (location : NameWithOwner) (archive : Bytes)
    → Named (repo_key location) results
    → download w (result_url_of results (repo_key location)) ≡ ok archive
    → Downloaded w results location archive
unfolding download
download-Downloaded w results location archive named e =
    elim (Result-cases
      (w.http_get (replace_hepc_url w (result_url_of results (repo_key location))))) [
        | inr (x, f) ↦ absurd (ground (arith, e, f))
        | inl (response, f) ↦ elim (Bool-cases (nat_beq response.status_code 200)) [
          | inr bad ↦ absurd (ground (arith, e, f, bad))
          | inl good ↦ elim (Result-cases response.body) [
            | inr (x, g) ↦ absurd (ground (arith, e, f, good, g))
            | inl (content, g) ↦ record {
              named = named;
              response = response;
              content = content;
              fetched = f;
              status_ok = ground arith;
              read = g;
              unpacked = unpack-Unpacked w content archive (ground (arith, e, f, good, g));
            }
          ]
        ]
      ]

-- A database is returned only if the metadata in use names the repository, and it is then what a
-- download from the URL of the first result of that name gives: the body of a response of status
-- 200, or, if that is a gzip file, the content of the database entry in its tar archive.
pub get_database-Downloaded :
    (w : World) (h : HepcStore) (location : NameWithOwner) (archive : Bytes)
    → (get_database w h location).1 ≡ ok archive
    → (results : List HepcResult) × ((refresh w h).1 ≡ ok results)
      × Downloaded w results location archive
unfolding get_database
get_database-Downloaded w h location archive e = elim (Result-cases (refresh w h).1) [
  | inr (x, f) ↦ absurd (ground (arith, e, f))
  | inl (results, f) ↦
      elim (Bool-cases (bytes_beq (result_url_of results (repo_key location)) [])) [
        | inl no_url ↦ absurd (ground (arith, e, f, no_url))
        | inr url ↦ (
          results,
          f,
          download-Downloaded w results location archive
              (result_url_of-Named results (repo_key location) url) (ground (arith, e, f, url)),
        )
      ]
]

result_url_of-absent :
    (results : List HepcResult) (key : Bytes)
    → (Named key results → ⊥)
    → result_url_of results key ≡ []
unfolding result_url_of
result_url_of-absent [] key h = refl
result_url_of-absent (result ∷ results) key h = elim (Bool-cases (bytes_beq result.projname key)) [
  | inl same ↦ absurd (h (Named.here result results ((bytes_beq_iff result.projname key).0 same)))
  | inr other ↦
      rw (other, result_url_of)
        (result_url_of-absent results key (λ m. h (Named.there result results m)))
]

-- A repository that the metadata in use does not name has no database.
pub get_database_absent :
    (w : World) (h : HepcStore) (location : NameWithOwner) (results : List HepcResult)
    → (refresh w h).1 ≡ ok results
    → (Named (repo_key location) results → ⊥)
    → (get_database w h location).1 ≡ err (database_not_found location)
unfolding get_database bytes_beq
get_database_absent w h location results e absent =
    ground (arith, e, result_url_of-absent results (repo_key location) absent)
