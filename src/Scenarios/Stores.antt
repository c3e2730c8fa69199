-- ===== src/Scenarios/Stores.antt =====
-- The two stores of databases.
use mrvacommander.Prelude.{
  pos, ascii, List, [], ◌∷◌, true, ok, err, ◌≡◌, refl, bytes_beq, bytes_beq_iff,
}
use mrvacommander.Common.Types.{NameWithOwner}
use mrvacommander.Common.Errors.{database_not_found}
use mrvacommander.QldbStore.Filesystem as Filesystem
use mrvacommander.QldbStore.Filesystem.{find_available_dbs-Sorted}
use mrvacommander.QldbStore.Hepc.{HepcResult, World, HepcStore, repo_key}
use mrvacommander.QldbStore.Hepc.Cache.{
  expired, refresh, find_available_dbs, Found, Named, find_available_dbs-Found,
}
use mrvacommander.QldbStore.Hepc.Serve.{result_url_of, download, unpack, get_database}
use mrvacommander.QldbStore.Hepc.Downloads.{
  Downloaded, get_database-Downloaded, get_database_absent,
}
use mrvacommander.Scenarios.{psycopg2, disk, archive}

-- Only one database is on disk.
abbrev one_database : Filesystem.Disk
one_database = record disk {
  is_not_exist =
      λ path. bytes_beq path (ascii "/databases/python-attrs/attrs/python-attrs_attrs_db.zip");
}

abbrev attrs : NameWithOwner
attrs = record { owner = ascii "python-attrs"; repo = ascii "attrs" }

abbrev store : Filesystem.FilesystemCodeqlDatabaseStore
store = record { base_path = ascii "/databases" }

abbrev metadata : HepcResult
metadata = record {
  git_branch = ascii "HEAD";
  git_commit_id = [];
  git_repo = ascii "psycopg2";
  ingestion_datetime = [];
  result_url = ascii "http://hepc/db/psycopg2.zip";
  tool_id = [];
  tool_name = ascii "codeql-python";
  tool_version = [];
  projname = ascii "psycopg/psycopg2";
}

abbrev world : World
world = record {
  getenv = λ _. [];
  now = 100;
  updated = 101;
  http_get = λ _. ok (record { status_code = 200; body = ok archive });
  user_home_dir = ok (ascii "/root");
  mkdir_all = λ _. ok tt;
  create = λ _. ok tt;
  run_spigot_cli = λ _ _. ok tt;
  open_file = λ _. ok [];
  decode_results = λ _. ok metadata ∷ [];
  gzip_tar_entries = λ _. ok [];
}

-- The cache is filled, and young enough.
abbrev filled : HepcStore
filled = record {
  endpoint = ascii "http://hepc:8070";
  metadata_cache = metadata ∷ [];
  cache_last_updated = 90;
  cache_duration = pos 60;
}

find_available_dbs-Found_example :
    Found world
      (record filled { cache_duration = pos 5 })
      (attrs ∷ psycopg2 ∷ [])
      (find_available_dbs world (record filled { cache_duration = pos 5 }) (attrs ∷ psycopg2 ∷ []))
find_available_dbs-Found_example =
    find_available_dbs-Found world (record filled { cache_duration = pos 5 })
      (attrs ∷ psycopg2 ∷ [])

get_database-Downloaded_example :
    (results : List HepcResult) × ((refresh world filled).1 ≡ ok results)
    × Downloaded world results psycopg2 archive
unfolding get_database refresh expired result_url_of download unpack bytes_beq
get_database-Downloaded_example = get_database-Downloaded world filled psycopg2 archive refl

not_Named : Named (repo_key attrs) (metadata ∷ []) → ⊥
unfolding bytes_beq
not_Named (Named.here _ _ e) =
    let same : bytes_beq (ascii "psycopg/psycopg2") (ascii "python-attrs/attrs") ≡ true =
      (bytes_beq_iff _ _).1 e in
    cc
not_Named (Named.there _ _ m) = elim m [ ]

absent_database : (get_database world filled attrs).1 ≡ err (database_not_found attrs)
unfolding refresh expired
absent_database = get_database_absent world filled attrs (metadata ∷ []) refl not_Named
