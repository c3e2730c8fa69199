-- ===== src/Codeql/Zip.antt =====
-- pkg/codeql/codeql.go: the archive of results.
pub mod Contents
use mrvacommander.Prelude.{Bytes, bytes_beq, ascii, List, [], ◌∷◌, ◌++◌, ok, err, if◌then◌else◌}
use mrvacommander.Prelude.Chain.{◌>>=◌, ◌>>◌}
use mrvacommander.Utils.Paths.{join}
use mrvacommander.Common.Errors.{Fallible, context}
use mrvacommander.Codeql.Types.{RunQueryResult}

-- An entry of the archive: its name and its content.
abbrev pub Entries : Type 0
Entries = List (Bytes × Bytes)

-- The file system, whether a file can be opened and what copying it gives, and archive/zip:
-- whether an entry can be created, and the bytes of an archive.
pub record ZipWriter : Type 0 where
  pub open_file : Bytes → Fallible (Unit {0})
  pub copy_file : Bytes → Fallible Bytes
  pub create_entry : Bytes → Fallible (Unit {0})
  pub close : Entries → Fallible Bytes

module _ (w : ZipWriter) where
  unfoldable pub add_file_to_zip : Entries → Bytes → Bytes → Fallible Entries
  add_file_to_zip entries path zip_path = do
    context (ascii "failed to open file") (w.open_file path)
    context (ascii "failed to create zip entry") (w.create_entry zip_path)
    content ← context (ascii "failed to copy file content to zip entry") (w.copy_file path)
    ok (entries ++ (zip_path, content) ∷ [])

  -- The loop over the BQRS files.
  unfoldable pub add_bqrs_files : Entries → Bytes → List Bytes → Fallible Entries
  add_bqrs_files entries base_path [] = ok entries
  add_bqrs_files entries base_path (path ∷ paths) =
      elim (context (ascii "failed to add BQRS file to zip")
        (add_file_to_zip entries (join base_path path) path)) [
          | err e ↦ err e
          | ok entries' ↦ add_bqrs_files entries' base_path paths
        ]

  unfoldable pub add_sarif : Bytes → Fallible Entries
  add_sarif sarif_file_path =
      if bytes_beq sarif_file_path []
      then ok []
      else context (ascii "failed to add SARIF file to zip")
          (add_file_to_zip [] sarif_file_path (ascii "results.sarif"))

  unfoldable pub generate_results_zip_archive : RunQueryResult → Fallible Bytes
  unfolding add_bqrs_files add_sarif
  generate_results_zip_archive run = do
    sarif ← add_sarif run.sarif_file_path
    entries ←
        add_bqrs_files sarif run.bqrs_file_paths.base_path run.bqrs_file_paths.relative_file_paths
    context (ascii "failed to close zip writer") (w.close entries)
