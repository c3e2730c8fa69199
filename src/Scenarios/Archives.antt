-- ===== src/Scenarios/Archives.antt =====
-- Archives and paths.
use mrvacommander.Prelude.{ascii, [], ◌∷◌, false, ok, ◌≡◌, All}
use mrvacommander.Utils.Paths.{clean}
use mrvacommander.Utils.Paths.Clean.{clean-clean}
use mrvacommander.Utils.Extract.{Entry, Machine, unzip_file}
use mrvacommander.Utils.Extract.Inside.{WritesBelow, unzip_file-Below}

cleaned_twice : clean (clean (ascii "/tmp/../var//./pack/")) ≡ clean (ascii "/tmp/../var//./pack/")
cleaned_twice = clean-clean (ascii "tmp/../var//./pack/")

abbrev query : Entry
query = record { name = ascii "src/flask.ql"; is_dir = false; content = ok (ascii "select 1") }

-- An entry that would leave the destination.
abbrev slip : Entry
slip = record { name = ascii "../../etc/passwd"; is_dir = false; content = ok [] }

abbrev machine : Machine
machine = record {
  mkdir_all = λ _. ok tt;
  open_file = λ _. ok tt;
  open_zip = λ _. ok (query ∷ slip ∷ []);
  open_gzip = λ _. ok (ok query ∷ ok slip ∷ []);
}

unzip_file-Below_example :
    All
      (WritesBelow (ascii "/tmp/db"))
      (unzip_file machine (ascii "/tmp/database.zip") (ascii "/tmp/db")).0
unzip_file-Below_example = unzip_file-Below machine (ascii "tmp/db") (ascii "/tmp/database.zip")
