-- ===== src/Server/Submit/Refusals.antt =====
-- Submissions that are refused.
use mrvacommander.Prelude.{ℕ, Bytes, none, ok, err, ◌≡◌, true, false}
use mrvacommander.Common.Errors.{Error}
use mrvacommander.Common.Api.{SubmitMsg}
use mrvacommander.Utils.Base64.{std_encoding, decode}
use mrvacommander.Utils.Archive.{is_base64_gzip}
use mrvacommander.Server.Http.{ResponseWriter, new_writer, http_error, error_text}
use mrvacommander.Server.Types.{Environment}
use mrvacommander.Server.Submit.Collect.{RequestBody, no_body, body}

-- Why a body is refused before anything but a session id is taken for it.
pub data Refused (env : Environment) : RequestBody → ℕ → Type 0 where
  missing : (code : ℕ) → code ≡ 204 → Refused env no_body code
  malformed :
      (buf : Bytes) (e : Error) (code : ℕ)
      → env.decode_submit_msg buf ≡ err e
      → code ≡ 400
      → Refused env (body buf) code
  no_gzip :
      (buf : Bytes) (msg : SubmitMsg) (code : ℕ)
      → env.decode_submit_msg buf ≡ ok msg
      → is_base64_gzip msg.query_pack ≡ false
      → code ≡ 400
      → Refused env (body buf) code
  bad_base64 :
      (buf : Bytes) (msg : SubmitMsg) (code : ℕ)
      → env.decode_submit_msg buf ≡ ok msg
      → is_base64_gzip msg.query_pack ≡ true
      → decode std_encoding msg.query_pack ≡ none
      → code ≡ 400
      → Refused env (body buf) code

-- The error is sent where it is found, and sent again by the caller.
abbrev sent_twice : ℕ → Error → ResponseWriter
sent_twice code e = http_error (http_error new_writer (error_text e) code) (error_text e) 400
