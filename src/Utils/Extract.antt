-- ===== src/Utils/Extract.antt =====
-- utils/archive.go: `UnzipFile`, `UntarGz` and `Untar`.
pub mod Inside
use mrvacommander.Prelude.{
  Bytes, ascii, List, [], ◌∷◌, ◌++◌, Bool, Option, none, some, ok, err, strip_prefix, if◌then◌else◌,
}
use mrvacommander.Common.Errors.{Error, Fallible, message}
use mrvacommander.Utils.Paths.{clean, join, dir}

-- An entry of an archive, and what opening and copying it gives.
pub record Entry : Type 0 where
  pub name : Bytes
  pub is_dir : Bool
  pub content : Fallible Bytes

-- The calls that change the file system, in their order: `os.MkdirAll`, the creation of a file (or
-- its truncation), and the copy of an entry into it. A copy that fails may leave a part.
pub data Call : Type 0 where
  make_dirs create copy : Bytes → Call

-- What extraction finds outside the program: whether directories can be made and files created, and
-- what the zip, gzip and tar readers give. An entry that a tar reader fails to read is an error.
pub record Machine : Type 0 where
  pub mkdir_all : Bytes → Fallible (Unit {0})
  pub open_file : Bytes → Fallible (Unit {0})
  pub open_zip : Bytes → Fallible (List Entry)
  pub open_gzip : Bytes → Fallible (List (Fallible Entry))

-- The calls made, and the error that ended them.
abbrev pub Run : Type 0
Run = List Call × Option Error

abbrev pub failed : List Call → Error → Run
failed calls e = (calls, some e)

abbrev pub extracted : Run → Fallible (Unit {0})
extracted (calls, none) = ok tt
extracted (calls, some e) = err e

-- The guard: a path that does not begin with the cleaned destination and a slash is refused.
abbrev pub guarded : Bytes → Bytes → Option Bytes
guarded dest path = strip_prefix (clean dest ++ ascii "/") (clean path)

module _ (m : Machine) where
  -- The body of the loop behind the guard, for a file.
  unfoldable pub extract_file : Bytes → Fallible Bytes → Run
  extract_file path content =
      let parent = dir path in
      elim (m.mkdir_all parent) [
        | err e ↦ failed (make_dirs parent ∷ []) e
        | ok _ ↦ elim (m.open_file path) [
          | err e ↦ failed (make_dirs parent ∷ create path ∷ []) e
          | ok _ ↦ elim content [
            | err e ↦ failed (make_dirs parent ∷ create path ∷ copy path ∷ []) e
            | ok _ ↦ (make_dirs parent ∷ create path ∷ copy path ∷ [], none)
          ]
        ]
      ]

  unfoldable pub extract_dir : Bytes → Run
  extract_dir path = elim (m.mkdir_all path) [
    | err e ↦ failed (make_dirs path ∷ []) e
    | ok _ ↦ (make_dirs path ∷ [], none)
  ]

  unfoldable pub extract_entry : Bytes → Entry → Run
  unfolding extract_file extract_dir
  extract_entry dest entry =
      let path = join dest entry.name in
      elim (guarded dest path) [
        | none ↦ failed [] (message (ascii "illegal file path"))
        | some _ ↦ if entry.is_dir then extract_dir path else extract_file path entry.content
      ]

  -- The loops, which the first error ends.
  unfoldable pub extract_all : Bytes → List (Fallible Entry) → Run
  extract_all dest [] = ([], none)
  extract_all dest (err e ∷ entries) = failed [] e
  extract_all dest (ok entry ∷ entries) =
      let (calls, failure) = extract_entry dest entry in
      let (more, later) = extract_all dest entries in
      elim failure [ some e ↦ (calls, some e) | none ↦ (calls ++ more, later) ]

  unfoldable pub unzip_all : Bytes → List Entry → Run
  unzip_all dest [] = ([], none)
  unzip_all dest (entry ∷ entries) =
      let (calls, failure) = extract_entry dest entry in
      let (more, later) = unzip_all dest entries in
      elim failure [ some e ↦ (calls, some e) | none ↦ (calls ++ more, later) ]

  unfoldable pub unzip_file : Bytes → Bytes → Run
  unfolding unzip_all
  unzip_file zip dest = elim (m.open_zip zip) [
    | err e ↦ failed [] e
    | ok entries ↦ unzip_all dest entries
  ]

  unfoldable pub untar : List (Fallible Entry) → Bytes → Run
  unfolding extract_all
  untar entries dest = extract_all dest entries

  unfoldable pub untar_gz : Bytes → Bytes → Run
  unfolding untar
  untar_gz file dest = elim (m.open_gzip file) [
    | err e ↦ failed [] e
    | ok entries ↦ untar entries dest
  ]
