-- ===== src/Common/Errors.antt =====
-- The `error` values of the program, one constructor for each message that carries data.
use mrvacommander.Prelude.{Bytes, ℤ, Result, ok, err}
use mrvacommander.Common.Types.{JobSpec, NameWithOwner}

pub data Error : Type 0 where
  -- pkg/state/state_local.go
  result_not_found job_info_not_found status_not_found : JobSpec → Error
  job_ids_not_found job_spec_not_found job_list_not_found no_jobs_found : ℤ → Error
  -- pkg/artifactstore
  query_pack_not_found artifact_not_found : Bytes → Error
  -- pkg/qldbstore
  database_not_found : NameWithOwner → Error
  -- `strconv.ParseInt`, the base64 decoder
  not_a_number invalid_base64 : Bytes → Error
  -- `errors.New`, `fmt.Errorf` with a fixed text, and what a call outside the program returns
  message : Bytes → Error
  -- `fmt.Errorf` with a text in front of another error
  wrapped : Bytes → Error → Error

-- A call that returns a value and an `error`.
abbrev pub Fallible : Type 0 → Type 0
Fallible = Result Error

-- `fmt.Errorf("text: %w", err)` around the error of a call.
abbrev pub context : {A : Type 0} → Bytes → Fallible A → Fallible A
context t (ok a) = ok a
context t (err e) = err (wrapped t e)
