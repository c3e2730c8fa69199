-- ===== src/Codeql/Zip/Contents.antt =====
-- What an archive of results holds.
use mathlib.Core.List.{append-nil, append_assoc}
use mrvacommander.Prelude.{
  Bytes, bytes_beq, ascii, List, [], ◌∷◌, ◌++◌, map, ok, ◌≡◌, refl, sym, inl, inr, if◌then◌else◌,
  arith, Bool-cases, Result-cases,
}
use mrvacommander.Utils.Paths.{join}
use mrvacommander.Common.Errors.{Fallible}
use mrvacommander.Codeql.Types.{RunQueryResult}
use mrvacommander.Codeql.Zip.{
  Entries, ZipWriter, add_file_to_zip, add_bqrs_files, add_sarif, generate_results_zip_archive,
}

ok-injective : {A : Type 0} {a b : A} → ◌≡◌ {A = Fallible A} (ok a) (ok b) → a ≡ b
ok-injective e = cc

module _ (w : ZipWriter) where
  -- A file that is to be in an archive: its path, and its name there.
  abbrev pub Packed : List (Bytes × Bytes) → Entries → Type 0
  Packed [] [] = Unit
  Packed [] (entry ∷ entries) = ⊥
  Packed (file ∷ files) [] = ⊥
  Packed ((path, name) ∷ files) ((entry, content) ∷ entries) =
      (entry ≡ name) × (w.copy_file path ≡ ok content) × Packed files entries

  -- The files of a run: the SARIF file, if there is one, and the BQRS files.
  abbrev pub files_of : RunQueryResult → List (Bytes × Bytes)
  files_of run =
      (if bytes_beq run.sarif_file_path []
        then []
        else (run.sarif_file_path, ascii "results.sarif") ∷ [])
      ++ map (λ path. (join run.bqrs_file_paths.base_path path, path))
          run.bqrs_file_paths.relative_file_paths

  Packed-append :
      (files more : List (Bytes × Bytes)) (entries others : Entries)
      → Packed files entries
      → Packed more others
      → Packed (files ++ more) (entries ++ others)
  Packed-append [] more [] others h k = k
  Packed-append [] more (entry ∷ entries) others h k = absurd h
  Packed-append (file ∷ files) more [] others h k = absurd h
  Packed-append (file ∷ files) more (entry ∷ entries) others (n, c, h) k =
      (n, c, Packed-append files more entries others h k)

  Packed-one :
      (path name content : Bytes)
      → w.copy_file path ≡ ok content
      → Packed ((path, name) ∷ []) ((name, content) ∷ [])
  Packed-one path name content e = (refl, e, tt)

  -- A file that was added stands behind the entries.
  add_file_to_zip-entries :
      (entries entries' : Entries) (path name : Bytes)
      → add_file_to_zip w entries path name ≡ ok entries'
      → (content : Bytes) × (w.copy_file path ≡ ok content)
        × (entries' ≡ entries ++ (name, content) ∷ [])
  unfolding add_file_to_zip
  add_file_to_zip-entries entries entries' path name e = elim (Result-cases (w.open_file path)) [
    | inr (x, d) ↦ absurd (ground (arith, e, d))
    | inl (_, d) ↦ elim (Result-cases (w.create_entry name)) [
      | inr (x, f) ↦ absurd (ground (arith, e, d, f))
      | inl (_, f) ↦ elim (Result-cases (w.copy_file path)) [
        | inr (x, g) ↦ absurd (ground (arith, e, d, f, g))
        | inl (content, g) ↦ (content, g, ground (arith, e, d, f, g))
      ]
    ]
  ]

  add_file_to_zip-Packed :
      (files : List (Bytes × Bytes)) (entries entries' : Entries) (path name : Bytes)
      → Packed files entries
      → add_file_to_zip w entries path name ≡ ok entries'
      → Packed (files ++ (path, name) ∷ []) entries'
  add_file_to_zip-Packed files entries entries' path name h e =
      let (content, c, same) = add_file_to_zip-entries entries entries' path name e in
      rw same (
        Packed-append files ((path, name) ∷ []) entries ((name, content) ∷ []) h
          (Packed-one path name content c))

  abbrev bqrs_file : Bytes → Bytes → Bytes × Bytes
  bqrs_file base_path path = (join base_path path, path)

  add_bqrs_files-Packed :
      (files : List (Bytes × Bytes)) (entries entries' : Entries) (base_path : Bytes)
      (paths : List Bytes)
      → Packed files entries
      → add_bqrs_files w entries base_path paths ≡ ok entries'
      → Packed (files ++ map (bqrs_file base_path) paths) entries'
  unfolding add_bqrs_files
  add_bqrs_files-Packed files entries entries' base_path [] h e =
      rw (append-nil files) (rw (ok-injective e) at h)
  add_bqrs_files-Packed files entries entries' base_path (path ∷ paths) h e =
      elim (Result-cases (add_file_to_zip w entries (join base_path path) path)) [
        | inr (x, f) ↦ absurd (ground (arith, rw (f, add_bqrs_files) at e))
        | inl (m, f) ↦
            let one = add_file_to_zip-Packed files entries m (join base_path path) path h f in
            rw
              (append_assoc files (bqrs_file base_path path ∷ []) (map (bqrs_file base_path) paths))
              at
              (add_bqrs_files-Packed (files ++ bqrs_file base_path path ∷ []) m entries' base_path
                paths one (rw (f, add_bqrs_files) at e))
      ]

  add_sarif-Packed :
      (path : Bytes) (entries : Entries)
      → add_sarif w path ≡ ok entries
      → Packed (if bytes_beq path [] then [] else (path, ascii "results.sarif") ∷ []) entries
  unfolding add_sarif
  add_sarif-Packed path entries e = elim (Bool-cases (bytes_beq path [])) [
    | inl none' ↦ rw (none', sym (ok-injective (rw none' at e))) tt
    | inr some' ↦ elim (Result-cases (add_file_to_zip w [] path (ascii "results.sarif"))) [
      | inr (x, f) ↦ absurd (ground (arith, e, some', f))
      | inl (m, f) ↦
          let same : m ≡ entries = ground (arith, e, some', f) in
          rw some' (rw same at (add_file_to_zip-Packed [] [] m path (ascii "results.sarif") tt f))
    ]
  ]

  -- An archive that is made of a run holds exactly the files of the run, with their contents: the
  -- SARIF file, if there is one, as results.sarif, and the BQRS files in their order under their
  -- relative paths.
  pub generate_results_zip_archive-Packed :
      (run : RunQueryResult) (archive : Bytes)
      → generate_results_zip_archive w run ≡ ok archive
      → (entries : Entries) × (w.close entries ≡ ok archive) × Packed (files_of run) entries
  unfolding generate_results_zip_archive
  generate_results_zip_archive-Packed run archive e =
      elim (Result-cases (add_sarif w run.sarif_file_path)) [
        | inr (x, f) ↦ absurd (ground (arith, e, f))
        | inl (sarif, f) ↦
            let bqrs = run.bqrs_file_paths in
            elim (Result-cases (add_bqrs_files w sarif bqrs.base_path bqrs.relative_file_paths)) [
              | inr (x, g) ↦ absurd (ground (arith, e, f, g))
              | inl (entries, g) ↦ (
                entries,
                ground (arith, e, f, g, Result-cases (w.close entries)),
                add_bqrs_files-Packed _ sarif entries bqrs.base_path bqrs.relative_file_paths
                    (add_sarif-Packed run.sarif_file_path sarif f) g,
              )
            ]
      ]
