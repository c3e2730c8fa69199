-- ===== src/Server/Http.antt =====
-- What the handlers use of net/http: the response that a `ResponseWriter` has sent.
use mrvacommander.Prelude.{
  ℕ, Bytes, ascii, List, [], ◌∷◌, ◌++◌, Option, none, some, nat_beq, if◌then◌else◌,
}
use mrvacommander.Common.Errors.{Error}
use mrvacommander.Common.Api.{StatusResponse, DownloadResponse, SubmitResponse}

-- A piece of a response's body. The JSON text of a message is kept as the message.
pub data Chunk : Type 0 where
  text : Bytes → Chunk
  error_text : Error → Chunk
  raw : Bytes → Chunk
  status_json : StatusResponse → Chunk
  download_json : DownloadResponse → Chunk
  submit_json : SubmitResponse → Chunk

-- `code` is `none` until the header is sent; what is set in the header later is not sent.
pub record ResponseWriter : Type 0 where
  pub code : Option ℕ
  pub content_type : Bytes
  pub body : List Chunk

abbrev pub new_writer : ResponseWriter
new_writer = record { code = none; content_type = []; body = [] }

unfoldable pub set_content_type : ResponseWriter → Bytes → ResponseWriter
set_content_type w t = elim w.code [ none ↦ record w { content_type = t } | some _ ↦ w ]

-- A second header is superfluous: net/http logs it and goes on.
unfoldable pub write_header : ResponseWriter → ℕ → ResponseWriter
write_header w n = elim w.code [ none ↦ record w { code = some n } | some _ ↦ w ]

-- The first write sends the header with 200. No body goes with 204.
unfoldable pub write : ResponseWriter → Chunk → ResponseWriter
write w c = elim w.code [
  | none ↦ record w { code = some 200; body = w.body ++ c ∷ [] }
  | some n ↦ if nat_beq n 204 then w else record w { body = w.body ++ c ∷ [] }
]

-- `http.Error`
unfoldable pub http_error : ResponseWriter → Chunk → ℕ → ResponseWriter
unfolding set_content_type write_header write
http_error w c n = write (write_header (set_content_type w (ascii "text/plain; charset=utf-8")) n) c

-- Setting the content type, and writing a message.
unfoldable pub write_json : ResponseWriter → Chunk → ResponseWriter
unfolding set_content_type write
write_json w c = write (set_content_type w (ascii "application/json")) c

unfoldable pub write_raw : ResponseWriter → Bytes → ResponseWriter
unfolding set_content_type write
write_raw w bytes = write (set_content_type w (ascii "application/octet-stream")) (raw bytes)

pub ruleset http_rules = (http_error, write_json, write_raw)
