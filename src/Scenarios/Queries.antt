-- ===== src/Scenarios/Queries.antt =====
-- Query packs and their results.
use mrvacommander.Prelude.{bytes_beq, pos, ascii, [], ◌∷◌, false, none, some, ok, ◌≡◌, refl, length}
use mrvacommander.Utils.Paths.{join}
use mrvacommander.Common.Errors.{Fallible}
use mrvacommander.Codeql.Types.{BqrsInfo, Query, QueryPackRunResults, RunQueryResult, BqrsFilePaths}
use mrvacommander.Codeql.Bqrs.{get_bqrs_result_count, Counted, get_bqrs_result_count-Counted}
use mrvacommander.Codeql.Walk.{Node, Nodes, find_db_dir, Located, find_db_dir-Located}
use mrvacommander.Codeql.Commands.{Program}
use mrvacommander.Codeql.Provenance.{Fields}
use mrvacommander.Codeql.Zip.{
  Entries, ZipWriter, add_file_to_zip, add_sarif, add_bqrs_files, generate_results_zip_archive,
}
use mrvacommander.Codeql.Zip.Contents.{Packed, files_of, generate_results_zip_archive-Packed}
use mrvacommander.Codeql.Toolchain.{Toolchain}
use mrvacommander.Codeql.Packs.{adjust_bqrs_files}
use mrvacommander.Codeql.Run.{run_query, sarif_path}
use mrvacommander.Codeql.Run.Files.{length-adjust_bqrs_files, run_query-sarif}

abbrev alerts : BqrsInfo
alerts = record {
  result_sets =
      record { name = ascii "nodes"; rows = pos 9 }
      ∷ record { name = ascii "problems"; rows = pos 3 }
      ∷ [];
  compatible_query_kinds = ascii "Table" ∷ ascii "Problem" ∷ [];
}

rows_of_alerts : Counted alerts.result_sets (get_bqrs_result_count alerts)
rows_of_alerts = get_bqrs_result_count-Counted alerts

abbrev query : Query
query = record {
  query_path = ascii "flask.ql";
  query_metadata = record { id = none; kind = some (ascii "problem") };
  relative_bqrs_file_path = ascii "flask.bqrs";
  bqrs_info = alerts;
}

abbrev pack_results : QueryPackRunResults
pack_results = record {
  queries = query ∷ query ∷ [];
  total_results_count = pos 6;
  results_base_path = ascii "/db/results";
}

abbrev database : Node
database = Node.dir (ascii "db") (
    Nodes.entry (Node.file (ascii "README")) (
      Nodes.entry
        (Node.dir (ascii "python") (
          Nodes.entry (Node.file (ascii "codeql-database.yml"))
            (Nodes.entry (Node.file (ascii "src.zip")) Nodes.done)))
        Nodes.done))

find_db_dir-Located_example :
    Located (ascii "/tmp/db") database (find_db_dir (ascii "/tmp/db") database)
find_db_dir-Located_example = find_db_dir-Located b'/' (ascii "tmp/db") database

abbrev program : Program
program = record {
  output = λ _ _. ok (ascii "{}");
  combined_output = λ _ _. ok (ascii "{}");
  unmarshal_query_metadata = λ _. ok (record { id = none; kind = none });
  unmarshal_bqrs_info = λ _. ok alerts;
  unmarshal_resolved_database = λ _. ok (record { source_location_prefix = ascii "/src" });
}

abbrev pub toolchain : Toolchain
toolchain = record {
  getenv = λ _. ascii "/opt/codeql/codeql";
  mkdir = λ _. ok tt;
  mkdir_all = λ _. ok tt;
  rename = λ _ _. ok tt;
  write_file = λ _ _. ok tt;
  read_file = λ _. ok [];
  is_not_exist = λ _. false;
  unzip_file = λ _ _. ok database;
  unmarshal_metadata = λ _. ok (record { creation_metadata = none });
  interpreter = record {
    program = program;
    read_file = λ _. ok (ascii "{}");
    server_url = ascii "https://github.com";
    unmarshal = λ _. ok Fields.end;
    marshal_indent = λ _. ok (ascii "{}");
  };
  unmarshal_sarif = λ _. some (3 ∷ []);
}

abbrev files : BqrsFilePaths
files = record {
  base_path = ascii "/db/results";
  relative_file_paths = ascii "flask.bqrs" ∷ ascii "flask.bqrs" ∷ [];
}

adjusted_files : length (ascii "flask.bqrs" ∷ ascii "flask.bqrs" ∷ []) ≡ length (query ∷ query ∷ [])
unfolding adjust_bqrs_files
adjusted_files = length-adjust_bqrs_files toolchain pack_results (ascii "/tmp/results") files refl

run_query-sarif_example :
    (outcome : Fallible RunQueryResult) × (run_query toolchain
        (ascii "/tmp/database.zip")
        (ascii "python")
        (ascii "/tmp/pack")
        (ascii "/tmp")
      ≡ some outcome)
    × ((r : RunQueryResult)
        → outcome ≡ ok r
        → (r.bqrs_file_paths.relative_file_paths ≡ [])
          × (r.sarif_file_path ≡ sarif_path toolchain (join (ascii "/tmp") (ascii "results"))))
run_query-sarif_example =
    run_query-sarif toolchain (ascii "/tmp/database.zip") (ascii "python") (ascii "/tmp/pack")
      (ascii "/tmp")

abbrev run : RunQueryResult
run = record {
  result_count = pos 3;
  database_sha = [];
  source_location_prefix = ascii "/src";
  bqrs_file_paths = files;
  sarif_file_path = ascii "/tmp/results/results.sarif";
}

-- The bytes of this archive are the names of its entries.
abbrev writer : ZipWriter
writer = record {
  open_file = λ _. ok tt;
  copy_file = λ path. ok path;
  create_entry = λ _. ok tt;
  close = λ entries. elim entries [ [] ↦ ok [] | (name, content) ∷ more ↦ ok name ];
}

generate_results_zip_archive-Packed_example :
    (entries : Entries) × (writer.close entries ≡ ok (ascii "results.sarif"))
    × Packed writer (files_of writer run) entries
unfolding generate_results_zip_archive add_sarif add_bqrs_files add_file_to_zip bytes_beq
generate_results_zip_archive-Packed_example =
    generate_results_zip_archive-Packed writer run (ascii "results.sarif") refl
