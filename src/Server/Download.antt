-- ===== src/Server/Download.antt =====
-- pkg/server/server.go: the download requests.
pub mod Serve
use mrvacommander.Prelude.{
  Bytes, ascii, ℤ, pos, negsuc, int_beq, [], ◌++◌, none, some, ok, err, length, if◌then◌else◌,
  bytes_beq,
}
use mrvacommander.Prelude.Decimal.{parse_int}
use mrvacommander.Common.Types.{
  JobSpec, NameWithOwner, Status, status_succeeded, to_external_string,
}
use mrvacommander.Common.Errors.{not_a_number}
use mrvacommander.Common.Api.{DownloadResponse, download_repo}
use mrvacommander.Common.JobSpecs.{encode_job_spec, decode_job_spec}
use mrvacommander.Queue.Types.{AnalyzeResult}
use mrvacommander.Server.Http.{
  ResponseWriter, http_error, write_json, write_raw, text, error_text, download_json,
}
use mrvacommander.Server.Types.{Visibles, Commander, Environment}
use mrvacommander.Server.Status.{full_name}

abbrev pub or_default : Bytes → Bytes → Bytes
or_default default s = if bytes_beq s [] then default else s

-- `http://host:port/download/spec`
unfoldable pub artifact_url : Environment → JobSpec → Bytes
artifact_url env js =
    ascii "http://"
    ++ (or_default (ascii "localhost") env.server_host
        ++ (ascii ":"
            ++ (or_default (ascii "8080") env.server_port
                ++ (ascii "/download/" ++ encode_job_spec env.marshal_job_spec js))))

-- The response for a job that has succeeded, and for any other.
abbrev pub succeeded_response :
    Environment → ℤ → JobSpec → Status → AnalyzeResult → Bytes → DownloadResponse
succeeded_response env id js status r archive = record {
  repository = download_repo id js.repo (full_name js.name_with_owner);
  analysis_status = to_external_string status;
  result_count = r.result_count;
  artifact_size_in_bytes = pos (length archive);
  database_commit_sha = r.database_sha;
  source_location_prefix = r.source_location_prefix;
  artifact_url = artifact_url env js;
}

abbrev pub unfinished_response : ℤ → JobSpec → Status → DownloadResponse
unfinished_response id js status = record {
  repository = download_repo id js.repo (full_name js.name_with_owner);
  analysis_status = to_external_string status;
  result_count = pos 0;
  artifact_size_in_bytes = pos 0;
  database_commit_sha = [];
  source_location_prefix = [];
  artifact_url = [];
}

module _ {S A D : Type 0} (v : Visibles S A D) (env : Environment) (c : Commander S A D) where
  -- The archive of a job that has succeeded.
  unfoldable pub send_result : ResponseWriter → ℤ → JobSpec → Status → ResponseWriter
  send_result w id js status = elim (v.state.get_result c.state js) [
    | err e ↦ http_error w (error_text e) 422
    | ok r ↦ elim (v.artifacts.get_result c.artifacts r.result_location) [
      | err e ↦ http_error w (error_text e) 500
      | ok archive ↦ write_json w (download_json (succeeded_response env id js status r archive))
    ]
  ]

  unfoldable pub send_artifact_download_response : ResponseWriter → ℤ → JobSpec → ResponseWriter
  unfolding send_result
  send_artifact_download_response w id js = elim (v.state.get_status c.state js) [
    | err e ↦ http_error w (error_text e) 422
    | ok status ↦
        if int_beq status status_succeeded
        then send_result w id js status
        else write_json w (download_json (unfinished_response id js status))
  ]

  -- The repository is named by its id.
  unfoldable pub mrva_download_artifact_id : ResponseWriter → Bytes → Bytes → ResponseWriter
  mrva_download_artifact_id w session repository = elim (parse_int 32 session) [
    | none ↦ http_error w (error_text (not_a_number session)) 400
    | some session_id ↦ elim (parse_int 32 repository) [
      | none ↦ http_error w (error_text (not_a_number repository)) 400
      | some repo_id ↦ elim (v.state.get_job_spec_by_repo_id c.state session_id repo_id) [
        | err e ↦ http_error w (error_text e) 422
        | ok js ↦ send_artifact_download_response w repo_id js
      ]
    ]
  ]

  -- The repository is named by owner and name.
  unfoldable pub mrva_download_artifact : ResponseWriter → Bytes → NameWithOwner → ResponseWriter
  mrva_download_artifact w session nwo = elim (parse_int 32 session) [
    | none ↦ http_error w (error_text (not_a_number session)) 400
    | some session_id ↦
        send_artifact_download_response w (negsuc 0)
          (record { session_id = session_id; name_with_owner = nwo })
  ]

  unfoldable pub mrva_download_qldb :
      ResponseWriter → NameWithOwner → Commander S A D × ResponseWriter
  mrva_download_qldb w nwo =
      let (d, r) = v.codeql_db_store.get_database c.databases nwo in
      (
        record c { databases = d },
        elim r [
          | err e ↦ http_error w (text (ascii "Failed to retrieve ql database")) 500
          | ok content ↦ write_raw w content
        ],
      )

  -- The URL that a download response names.
  unfoldable pub mrva_download_serve : ResponseWriter → Bytes → ResponseWriter
  mrva_download_serve w encoded = elim (decode_job_spec env.unmarshal_job_spec encoded) [
    | err e ↦ http_error w (text (ascii "Invalid job spec")) 400
    | ok js ↦ elim (v.state.get_result c.state js) [
      | err e ↦ http_error w (text (ascii "Failed to get result")) 500
      | ok r ↦ elim (v.artifacts.get_result c.artifacts r.result_location) [
        | err e ↦ http_error w (text (ascii "Failed to retrieve artifact")) 500
        | ok archive ↦ write_raw w archive
      ]
    ]
  ]
