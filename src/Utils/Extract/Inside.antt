-- ===== src/Utils/Extract/Inside.antt =====
-- Extraction stays below its destination.
use mrvacommander.Prelude.{
  Bytes, ascii, List, [], ◌∷◌, ◌++◌, some, ok, err, ◌≡◌, ◌⊎◌, refl, sym, ◌∙◌, inl, inr,
  strip_prefix, arith, All, Bool-cases, Option-cases, Result-cases,
}
use mrvacommander.Prelude.Split.{split}
use mrvacommander.Common.Errors.{Fallible}
use mrvacommander.Utils.Paths.{clean, join, dir}
use mrvacommander.Utils.Paths.Clean.{clean-clean, split-clean, Stays}
use mrvacommander.Utils.Extract.{
  Entry, Call, make_dirs, create, copy, Machine, guarded, extract_file, extract_dir, extract_entry,
  extract_all, unzip_all, unzip_file, untar_gz, untar,
}

strip_prefix-some : (p s rest : Bytes) → strip_prefix p s ≡ some rest → s ≡ p ++ rest
unfolding strip_prefix
strip_prefix-some [] s rest e = ground arith
strip_prefix-some (x ∷ p) [] rest e = cc
strip_prefix-some (x ∷ p) (c ∷ s) rest e = ground (arith, strip_prefix-some p s rest)

-- A path below a directory: the cleaned directory, a slash, and more, with no segment `..`.
pub record Below (dest path : Bytes) : Type 0 where
  pub rest : Bytes
  pub prefixed : path ≡ (clean dest ++ ascii "/") ++ rest
  pub stays : All Stays (split b'/' path)

-- A file that a call writes is below a directory, and a directory that it makes is below it too, or
-- is the parent of a file below it.
abbrev pub WritesBelow : Bytes → Call → Type 0
WritesBelow dest (make_dirs path) =
    Below dest path ⊎ ((file : Bytes) × (path ≡ dir file) × Below dest file)
WritesBelow dest (create path) = Below dest path
WritesBelow dest (copy path) = Below dest path

module _ (m : Machine) (d : Bytes) where
  abbrev dest : Bytes
  dest = b'/' ∷ d

  Below-guarded :
      (name rest : Bytes) → guarded dest (join dest name) ≡ some rest → Below dest (join dest name)
  unfolding join
  Below-guarded name rest e = record {
    rest = rest;
    prefixed = sym (clean-clean _) ∙ strip_prefix-some _ _ rest e;
    stays = split-clean (d ++ b'/' ∷ name);
  }

  extract_file-Below :
      (path : Bytes) (content : Fallible Bytes)
      → Below dest path
      → All (WritesBelow dest) (extract_file m path content).0
  unfolding extract_file
  extract_file-Below path content b =
      let parent : WritesBelow dest (make_dirs (dir path)) = inr (path, refl, b) in
      elim (Result-cases (m.mkdir_all (dir path))) [
        | inr (x, e) ↦ rw (e, extract_file) (parent, tt)
        | inl (_, e) ↦ elim (Result-cases (m.open_file path)) [
          | inr (x, f) ↦ rw (e, f, extract_file) (parent, (b, tt))
          | inl (_, f) ↦ elim (Result-cases content) [
            | inr (x, g) ↦ rw (e, f, g, extract_file) (parent, (b, (b, tt)))
            | inl (_, g) ↦ rw (e, f, g, extract_file) (parent, (b, (b, tt)))
          ]
        ]
      ]

  extract_dir-Below :
      (path : Bytes) → Below dest path → All (WritesBelow dest) (extract_dir m path).0
  unfolding extract_dir
  extract_dir-Below path b = elim (Result-cases (m.mkdir_all path)) [
    | inr (x, e) ↦ rw (e, extract_dir) (inl b, tt)
    | inl (_, e) ↦ rw (e, extract_dir) (inl b, tt)
  ]

  extract_entry-Below : (entry : Entry) → All (WritesBelow dest) (extract_entry m dest entry).0
  unfolding extract_entry
  extract_entry-Below entry = elim (Option-cases (guarded dest (join dest entry.name))) [
    | inl e ↦ rw (e, extract_entry) tt
    | inr (rest, e) ↦
        let b = Below-guarded entry.name rest e in
        elim (Bool-cases entry.is_dir) [
          | inl i ↦ rw (e, i, extract_entry) (extract_dir-Below (join dest entry.name) b)
          | inr i ↦
              rw (e, i, extract_entry) (extract_file-Below (join dest entry.name) entry.content b)
        ]
  ]

  append-Below :
      (xs ys : List Call)
      → All (WritesBelow dest) xs
      → All (WritesBelow dest) ys
      → All (WritesBelow dest) (xs ++ ys)
  append-Below [] ys h k = k
  append-Below (x ∷ xs) ys (h, hs) k = (h, append-Below xs ys hs k)

  unzip_all-Below : (entries : List Entry) → All (WritesBelow dest) (unzip_all m dest entries).0
  unfolding unzip_all
  unzip_all-Below [] = tt
  unzip_all-Below (entry ∷ entries) = elim (Option-cases (extract_entry m dest entry).1) [
    | inr (x, e) ↦ rw (e, unzip_all) (extract_entry-Below entry)
    | inl e ↦
        rw (e, unzip_all) (append-Below _ _ (extract_entry-Below entry) (unzip_all-Below entries))
  ]

  extract_all-Below :
      (entries : List (Fallible Entry)) → All (WritesBelow dest) (extract_all m dest entries).0
  unfolding extract_all
  extract_all-Below [] = tt
  extract_all-Below (err x ∷ entries) = tt
  extract_all-Below (ok entry ∷ entries) = elim (Option-cases (extract_entry m dest entry).1) [
    | inr (x, e) ↦ rw (e, extract_all) (extract_entry-Below entry)
    | inl e ↦
        rw (e, extract_all)
          (append-Below _ _ (extract_entry-Below entry) (extract_all-Below entries))
  ]

  -- Whatever names its entries have, a zip file is extracted into files below the destination, if
  -- that is an absolute path: their paths are the cleaned destination, a slash, and more, with no
  -- segment that leads up. A directory that is made is below the destination in the same way, or is
  -- the parent of such a file.
  pub unzip_file-Below : (zip : Bytes) → All (WritesBelow dest) (unzip_file m zip dest).0
  unfolding unzip_file
  unzip_file-Below zip = elim (Result-cases (m.open_zip zip)) [
    | inr (x, e) ↦ rw (e, unzip_file) tt
    | inl (entries, e) ↦ rw (e, unzip_file) (unzip_all-Below entries)
  ]

  -- So is a tar file.
  pub untar_gz-Below : (file : Bytes) → All (WritesBelow dest) (untar_gz m file dest).0
  unfolding untar_gz untar
  untar_gz-Below file = elim (Result-cases (m.open_gzip file)) [
    | inr (x, e) ↦ rw (e, untar_gz) tt
    | inl (entries, e) ↦ rw (e, untar_gz, untar) (extract_all-Below entries)
  ]
