-- ===== src/Server/Download/Serve.antt =====
-- A download response, and the request that its URL makes.
use mathlib.Core.List.{append_assoc}
use mrvacommander.Prelude.{
  ℤ, pos, Bytes, ascii, ◌++◌, [], ok, ◌≡◌, ◌≢◌, refl, length, int_beq, int_beq_iff, arith, All,
}
use mrvacommander.Common.Types.{JobSpec, Status, status_succeeded, to_external_string}
use mrvacommander.Common.Api.{DownloadResponse}
use mrvacommander.Common.JobSpecs.{encode_job_spec, decode_job_spec-encode_job_spec}
use mrvacommander.Utils.Base64.RoundTrip.{IsByte}
use mrvacommander.Queue.Types.{AnalyzeResult}
use mrvacommander.Server.Http.{new_writer, write_json, write_raw, download_json}
use mrvacommander.Server.Types.{Visibles, Commander, Environment}
use mrvacommander.Server.Download.{
  or_default, artifact_url, succeeded_response, unfinished_response,
  send_artifact_download_response, mrva_download_serve,
}

-- The host and the port of the server, or localhost and 8080.
abbrev pub server_address : Environment → Bytes
server_address env =
    or_default (ascii "localhost") env.server_host
    ++ (ascii ":" ++ or_default (ascii "8080") env.server_port)

module _ {S A D : Type 0} (v : Visibles S A D) (env : Environment) (c : Commander S A D)
    (js : JobSpec) where
  -- The request for a job's encoding is answered with the archive of its result.
  pub mrva_download_serve-encode_job_spec :
      (r : AnalyzeResult) (archive : Bytes)
      → v.state.get_result c.state js ≡ ok r
      → v.artifacts.get_result c.artifacts r.result_location ≡ ok archive
      → All IsByte (env.marshal_job_spec js)
      → env.unmarshal_job_spec (env.marshal_job_spec js) ≡ ok js
      → mrva_download_serve v env c new_writer (encode_job_spec env.marshal_job_spec js)
        ≡ write_raw new_writer archive
  unfolding mrva_download_serve
  mrva_download_serve-encode_job_spec r archive got stored bytes back = ground (
    arith,
    decode_job_spec-encode_job_spec env.marshal_job_spec env.unmarshal_job_spec js bytes back,
  )

  -- For a job that succeeded, with a result whose archive is stored, and whose JSON is made of
  -- bytes and reads back, the download response gives the size of the archive, and a URL: of the
  -- server's host and port, or of localhost and 8080, with the path /download/ and an encoded job.
  -- The request for that encoded job is answered with exactly that archive.
  pub download_served :
      (r : AnalyzeResult) (archive : Bytes) (id : ℤ)
      → v.state.get_status c.state js ≡ ok status_succeeded
      → v.state.get_result c.state js ≡ ok r
      → v.artifacts.get_result c.artifacts r.result_location ≡ ok archive
      → All IsByte (env.marshal_job_spec js)
      → env.unmarshal_job_spec (env.marshal_job_spec js) ≡ ok js
      → (response : DownloadResponse) × (encoded : Bytes) × (send_artifact_download_response v env c
            new_writer id js
          ≡ write_json new_writer (download_json response))
        × (response.artifact_url
            ≡ ascii "http://" ++ (server_address env ++ (ascii "/download/" ++ encoded)))
        × (response.artifact_size_in_bytes ≡ pos (length archive))
        × (mrva_download_serve v env c new_writer encoded ≡ write_raw new_writer archive)
  unfolding send_artifact_download_response int_beq artifact_url
  download_served r archive id done got stored bytes back = (
    succeeded_response env id js status_succeeded r archive,
    encode_job_spec env.marshal_job_spec js,
    ground (arith, done, got, stored),
    rw
        (append_assoc (or_default (ascii "localhost") env.server_host)
          (ascii ":" ++ or_default (ascii "8080") env.server_port)
          (ascii "/download/" ++ encode_job_spec env.marshal_job_spec js))
        refl,
    refl,
    mrva_download_serve-encode_job_spec r archive got stored bytes back,
  )

  -- A job that has not succeeded is answered with its status, and with no URL to download from.
  pub download_unfinished :
      (status : Status) (id : ℤ)
      → v.state.get_status c.state js ≡ ok status
      → status ≢ status_succeeded
      → (response : DownloadResponse) × (send_artifact_download_response v env c new_writer id js
          ≡ write_json new_writer (download_json response))
        × (response.analysis_status ≡ to_external_string status)
        × (response.artifact_url ≡ [])
        × (response.artifact_size_in_bytes ≡ pos 0)
  unfolding send_artifact_download_response
  download_unfinished status id e h = (
    unfinished_response id js status,
    ground (arith, e, int_beq_iff status status_succeeded),
    refl,
    refl,
    refl,
  )
