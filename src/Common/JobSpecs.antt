-- ===== src/Common/JobSpecs.antt =====
-- pkg/common/jobspec.go: a job spec as a text for URLs. `encoding/json` is a parameter.
use mrvacommander.Prelude.{Bytes, none, some, ok, err, ◌≡◌, refl, inr, All, arith}
use mrvacommander.Common.Types.{JobSpec}
use mrvacommander.Common.Errors.{Fallible, invalid_base64}
use mrvacommander.Utils.Base64.{url_encoding, encode, decode}
use mrvacommander.Utils.Base64.RoundTrip.{IsByte, decode-encode}

-- `json.Marshal` does not fail on a `JobSpec`.
unfoldable pub encode_job_spec : (JobSpec → Bytes) → JobSpec → Bytes
encode_job_spec marshal js = encode url_encoding (marshal js)

unfoldable pub decode_job_spec : (Bytes → Fallible JobSpec) → Bytes → Fallible JobSpec
decode_job_spec unmarshal encoded = elim (decode url_encoding encoded) [
  | none ↦ err (invalid_base64 encoded)
  | some bytes ↦ unmarshal bytes
]

-- If `json.Unmarshal` reads a job spec back from the bytes that `json.Marshal` gives, then so does
-- `DecodeJobSpec` from what `EncodeJobSpec` gives.
pub decode_job_spec-encode_job_spec :
    (marshal : JobSpec → Bytes) (unmarshal : Bytes → Fallible JobSpec) (js : JobSpec)
    → All IsByte (marshal js)
    → unmarshal (marshal js) ≡ ok js
    → decode_job_spec unmarshal (encode_job_spec marshal js) ≡ ok js
unfolding decode_job_spec encode_job_spec
decode_job_spec-encode_job_spec marshal unmarshal js bytes back =
    ground (arith, decode-encode url_encoding (inr refl) (marshal js) bytes)
