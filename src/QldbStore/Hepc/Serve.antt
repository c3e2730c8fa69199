-- ===== src/QldbStore/Hepc/Serve.antt =====
-- `GetDatabase`: the URL of a database, its download, and the archive inside it.
use mrvacommander.Prelude.{
  Bytes, bytes_eq, bytes_beq, nat_beq, ascii, List, [], ◌∷◌, ◌++◌, Bool, false, ◌&&◌, Option, none,
  some, ok, err, if◌then◌else◌, strip_prefix,
}
use mrvacommander.Common.Types.{NameWithOwner}
use mrvacommander.Common.Errors.{Fallible, message, wrapped, database_not_found}
use mrvacommander.QldbStore.Interface.{Store}
use mrvacommander.QldbStore.Hepc.{HepcResult, TarEntry, World, HepcStore, repo_key}
use mrvacommander.QldbStore.Hepc.Cache.{refresh, find_available_dbs}

-- `strings.Replace(s, old, new, 1)`.
unfoldable pub replace_first : Bytes → Bytes → Bytes → Bytes
replace_first old new [] = elim (strip_prefix old []) [ none ↦ [] | some rest ↦ new ++ rest ]
replace_first old new (c ∷ s) =
    let later = c ∷ replace_first old new s in
    elim (strip_prefix old (c ∷ s)) [ none ↦ later | some rest ↦ new ++ rest ]

unfoldable pub replace_hepc_url : World → Bytes → Bytes
unfolding replace_first
replace_hepc_url w url =
    let endpoint = w.getenv (ascii "MRVA_HEPC_ENDPOINT") in
    replace_first (ascii "http://hepc")
      (if bytes_beq endpoint [] then ascii "http://hepc:8070" else endpoint) url

-- The loop over the tar entries. `none` where the archive holds no entry of the name.
unfoldable pub find_database_entry : List (Fallible TarEntry) → Fallible (Option Bytes)
find_database_entry [] = ok none
find_database_entry (err e ∷ entries) = err (wrapped (ascii "failed to read tar entry") e)
find_database_entry (ok entry ∷ entries) =
    let later = find_database_entry entries in
    if bytes_beq entry.name (ascii "artifacts/codeql_database.zip")
    then elim entry.content [
      | err e ↦ err (wrapped (ascii "failed to extract zip from tar") e)
      | ok data' ↦ ok (some data')
    ]
    else later

unfoldable pub extract_database_from_tar : World → Bytes → Fallible (Option Bytes)
unfolding find_database_entry
extract_database_from_tar w stream = elim (w.gzip_tar_entries stream) [
  | err e ↦ err (wrapped (ascii "failed to open gzip stream") e)
  | ok entries ↦ find_database_entry entries
]

-- The URL of the first result with a name, and the empty text if there is none.
unfoldable pub result_url_of : List HepcResult → Bytes → Bytes
result_url_of [] key = []
result_url_of (result ∷ results) key =
    if bytes_beq result.projname key then result.result_url else result_url_of results key

abbrev pub is_gzip : Bytes → Bool
is_gzip [] = false
is_gzip (a ∷ []) = false
is_gzip (a ∷ b ∷ rest) = nat_beq a 0x1f && nat_beq b 0x8b

-- The database in a response body.
unfoldable pub unpack : World → Bytes → Fallible Bytes
unfolding extract_database_from_tar
unpack w content =
    if is_gzip content
    then elim (extract_database_from_tar w content) [
      | err e ↦ err e
      | ok none ↦ err (message (ascii "zip file not found in tar archive"))
      | ok (some archive) ↦ ok archive
    ]
    else ok content

unfoldable pub download : World → Bytes → Fallible Bytes
unfolding replace_hepc_url unpack
download w url = elim (w.http_get (replace_hepc_url w url)) [
  | err e ↦ err (wrapped (ascii "error fetching database") e)
  | ok response ↦
      if nat_beq response.status_code 200
      then elim response.body [
        | err e ↦ err (wrapped (ascii "error reading database content") e)
        | ok content ↦ unpack w content
      ]
      else err (message (ascii "non-OK HTTP status for database fetch"))
]

unfoldable pub get_database : World → HepcStore → NameWithOwner → HepcStore × Fallible Bytes
unfolding refresh result_url_of download
get_database w h location =
    let (h', metadata) = refresh w h in
    elim metadata [
      | err e ↦ (h', err (wrapped (ascii "error refreshing metadata cache") e))
      | ok results ↦
          let url = result_url_of results (repo_key location) in
          (h', if bytes_beq url [] then err (database_not_found location) else download w url)
    ]

abbrev pub hepc_store : World → Store HepcStore
hepc_store w = record { find_available_dbs = find_available_dbs w; get_database = get_database w }
