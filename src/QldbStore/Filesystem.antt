-- ===== src/QldbStore/Filesystem.antt =====
-- pkg/qldbstore/qldbstore_local.go
use mrvacommander.Prelude.{Bytes, ascii, List, ◌++◌, Bool, not, err, ◌≢◌, if◌then◌else◌, arith}
use mrvacommander.Utils.Paths.{join}
use mrvacommander.Common.Types.{NameWithOwner}
use mrvacommander.Common.Errors.{Fallible, database_not_found}
use mrvacommander.QldbStore.Interface.{Store}
use mrvacommander.QldbStore.Partition.{partition_repos, Sorted, partition_repos-Sorted}

-- What the store finds on disk: whether `os.Stat` says that a path does not exist,
-- and what `os.ReadFile` gives.
pub record Disk : Type 0 where
  pub is_not_exist : Bytes → Bool
  pub read_file : Bytes → Fallible Bytes

pub record FilesystemCodeqlDatabaseStore : Type 0 where
  pub base_path : Bytes

abbrev pub file_path : FilesystemCodeqlDatabaseStore → NameWithOwner → Bytes
file_path store nwo = join store.base_path (
    nwo.owner
    ++ (ascii "/"
        ++ (nwo.repo
            ++ (ascii "/" ++ (nwo.owner ++ (ascii "_" ++ (nwo.repo ++ ascii "_db.zip")))))))

module _ (disk : Disk) where
  unfoldable pub find_available_dbs :
      FilesystemCodeqlDatabaseStore
      → List NameWithOwner
      → FilesystemCodeqlDatabaseStore × List NameWithOwner × List NameWithOwner
  unfolding partition_repos
  find_available_dbs store repos =
      let (missing, present) =
        partition_repos (λ repo. not (disk.is_not_exist (file_path store repo))) repos in
      (store, missing, present)

  unfoldable pub get_database :
      FilesystemCodeqlDatabaseStore → NameWithOwner → FilesystemCodeqlDatabaseStore × Fallible Bytes
  get_database store location =
      let path = file_path store location in
      (
        store,
        if disk.is_not_exist path then err (database_not_found location) else disk.read_file path,
      )

  abbrev pub filesystem_store : Store FilesystemCodeqlDatabaseStore
  filesystem_store = record { find_available_dbs = find_available_dbs; get_database = get_database }

  -- The repositories are told apart by what fetching them gives: the missing ones are those for
  -- which `GetDatabase` says that there is no database, provided that reading a file never says so.
  pub find_available_dbs-Sorted :
      ((path : Bytes) (nwo : NameWithOwner) → disk.read_file path ≢ err (database_not_found nwo))
      → (store : FilesystemCodeqlDatabaseStore) (repos : List NameWithOwner)
      → let (_, missing, present) = find_available_dbs store repos in
        Sorted
          (λ repo. (get_database store repo).1 ≢ err (database_not_found repo))
          repos
          missing
          present
  unfolding find_available_dbs get_database
  find_available_dbs-Sorted fresh store repos =
      partition_repos-Sorted _ _ (λ repo e. ground (arith, fresh (file_path store repo) repo))
        (λ repo e h. ground (arith, e)) repos
