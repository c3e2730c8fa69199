-- ===== src/State/Postgres.antt =====
-- pkg/state/state_postgres.go: the tables of PGState, and what a statement needs to go through.
pub mod Summaries
pub mod Reads
pub mod Writes
pub mod Calls
pub mod Reliable
pub mod Laws
pub mod Repos
pub mod Rows
pub mod Jobs
pub mod Sessions
pub mod Bounds
pub mod Overflow
pub mod Connections
pub mod Setup
use mrvacommander.Prelude.{
  ℕ, ◌^◌, ◌-◌, ℤ, pos, negsuc, Bool, true, false, ◌&&◌, List, [], ◌∷◌, Map, Option, none, some, ok,
  err, leb, if◌then◌else◌,
}
use mrvacommander.Common.Types.{JobSpec, NameWithOwner, Status}
use mrvacommander.Common.Errors.{Error, Fallible}
use mrvacommander.Common.Api.{JobInfo}
use mrvacommander.Queue.Types.{AnalyzeJob, AnalyzeResult}

-- The five tables, by their primary keys, and the two sequences, by the last number drawn. `J` is
-- a JSONB document.
pub record PgState (J : Type 0) : Type 0 where
  pub job_repo_map : Map NameWithOwner ℕ
  pub job_repo_id_seq : ℕ
  pub session_id_seq : ℕ
  pub analyze_results : Map JobSpec J
  pub analyze_jobs : Map JobSpec J
  pub job_info : Map JobSpec J
  pub job_status : Map JobSpec Status

-- The tables as SetupSchemas creates them.
abbrev pub empty_tables : {J : Type 0} → PgState J
empty_tables = record {
  job_repo_map = [];
  job_repo_id_seq = 0;
  session_id_seq = 0;
  analyze_results = [];
  analyze_jobs = [];
  job_info = [];
  job_status = [];
}

-- The statements that the methods send.
pub data Statement : Type 0 where
  nextval begin commit : Statement
  put_result put_info put_status put_job select_result select_info select_status :
      JobSpec → Statement
  put_repo : NameWithOwner → Statement
  select_statuses select_jobs select_repo : ℤ → Statement

abbrev pub is_select : Statement → Bool
is_select (select_result js) = true
is_select (select_info js) = true
is_select (select_status js) = true
is_select (select_statuses id) = true
is_select (select_jobs id) = true
is_select (select_repo id) = true
is_select _ = false

-- encoding/json, pgx and PostgreSQL: the coding of documents, the errors of statements, how many
-- rows of an answer arrive before an error, and the order of texts in the database.
pub record Database (J : Type 0) : Type 0 where
  pub marshal_result : AnalyzeResult → Fallible J
  pub unmarshal_result : J → Fallible AnalyzeResult
  pub marshal_info : JobInfo → Fallible J
  pub unmarshal_info : J → Fallible JobInfo
  pub marshal_job : AnalyzeJob → Fallible J
  pub unmarshal_job : J → Fallible AnalyzeJob
  pub fault : PgState J → Statement → Option Error
  pub cut : PgState J → Statement → Option (ℕ × Error)
  pub no_rows : Error
  pub out_of_range : Error
  pub before : NameWithOwner → NameWithOwner → Bool

-- An INTEGER column or parameter has 32 bits.
abbrev pub in_integer : ℤ → Bool
in_integer (pos n) = leb n (2 ^ 31 - 1)
in_integer (negsuc n) = leb n (2 ^ 31 - 1)

abbrev pub max_serial : ℕ
max_serial = 2 ^ 31 - 1

abbrev pub max_bigint : ℕ
max_bigint = 2 ^ 63 - 1

abbrev all_in_integer : List ℤ → Bool
all_in_integer [] = true
all_in_integer (i ∷ is) = in_integer i && all_in_integer is

abbrev from_fault : Option Error → Fallible (Unit {0})
from_fault none = ok tt
from_fault (some e) = err e

-- A statement with its INTEGER parameters.
abbrev pub exec : {J : Type 0} → Database J → PgState J → Statement → List ℤ → Fallible (Unit {0})
exec db t statement ints =
    if all_in_integer ints then from_fault (db.fault t statement) else err db.out_of_range

-- The one row of an answer.
abbrev pub one_row : {J A : Type 0} → Database J → Option A → Fallible A
one_row db none = err db.no_rows
one_row db (some a) = ok a
