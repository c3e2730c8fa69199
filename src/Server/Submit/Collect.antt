-- ===== src/Server/Submit/Collect.antt =====
-- Reading a submission: `collectRequestInfoAndSaveQueryPack` and what it calls.
use mrvacommander.Prelude.{
  Bytes, ascii, ℤ, List, [], ◌∷◌, Option, none, some, ok, err, if◌then◌else◌, nat_beq, length,
  ◌>>=◌,
}
use mrvacommander.Prelude.Split.{split}
use mrvacommander.Common.Types.{NameWithOwner}
use mrvacommander.Common.Errors.{Error, Fallible, message, invalid_base64}
use mrvacommander.Common.Api.{SubmitMsg}
use mrvacommander.ArtifactStore.Types.{ArtifactLocation}
use mrvacommander.Utils.Base64.{std_encoding, decode}
use mrvacommander.Utils.Archive.{is_base64_gzip}
use mrvacommander.Server.Http.{ResponseWriter, http_error, text, error_text}
use mrvacommander.Server.Types.{Visibles, Commander, Environment}

-- `r.Body`, and what `io.ReadAll` gives for it.
pub data RequestBody : Type 0 where
  no_body : RequestBody
  unreadable : Error → RequestBody
  body : Bytes → RequestBody

abbrev pub invalid_entry : ResponseWriter → ResponseWriter
invalid_entry w = http_error w (text (ascii "Invalid owner / repository entry")) 400

-- `t[0]` and `t[1]`: `none` where the index is out of range.
abbrev pub first_two : List Bytes → Option NameWithOwner
first_two (owner ∷ repo ∷ rest) = some (record { owner = owner; repo = repo })
first_two _ = none

-- The loop over the repositories. An entry without exactly one slash is reported, and then used
-- all the same.
unfoldable pub collect_repos :
    ResponseWriter → List Bytes → Option (ResponseWriter × List NameWithOwner)
collect_repos w [] = some (w, [])
collect_repos w (entry ∷ entries) =
    let t = split b'/' entry in
    let w' = if nat_beq (length t) 2 then w else invalid_entry w in
    elim (first_two t) [
      | none ↦ none
      | some nwo ↦ do (w'', repos) ← collect_repos w' entries; some (w'', nwo ∷ repos)
    ]

-- What a submission asks for.
pub record Collected : Type 0 where
  pub language : Bytes
  pub repositories : List NameWithOwner
  pub query_pack_location : ArtifactLocation

module _ {S A D : Type 0} (v : Visibles S A D) where
  unfoldable pub decode_and_save_base64_query_pack :
      Commander S A D → Bytes → ℤ → Commander S A D × Fallible ArtifactLocation
  decode_and_save_base64_query_pack c qp session_id = elim (decode std_encoding qp) [
    | none ↦ (c, err (invalid_base64 qp))
    | some tgz ↦
        let (a, r) = v.artifacts.save_query_pack c.artifacts session_id tgz in
        (record c { artifacts = a }, r)
  ]

  -- A refusal: the error is sent, and returned.
  abbrev refuse :
      Commander S A D
      → ResponseWriter
      → Error
      → Option (Commander S A D × ResponseWriter × Fallible Collected)
  refuse c w e = some (c, http_error w (error_text e) 400, err e)

  -- The end of the function, for a message whose query pack is saved.
  unfoldable pub collect_message :
      Commander S A D
      → ResponseWriter
      → SubmitMsg
      → Fallible ArtifactLocation
      → Option (Commander S A D × ResponseWriter × Fallible Collected)
  collect_message c w msg (err e) = refuse c w e
  collect_message c w msg (ok location) = do
    (w', repos) ← collect_repos w msg.repositories
    some (
      c,
      w',
      ok (record { language = msg.language; repositories = repos; query_pack_location = location }),
    )

  -- An unreadable body is reported to a writer that is nil, which panics.
  unfoldable pub collect_request_info_and_save_query_pack :
      Environment
      → Commander S A D
      → ResponseWriter
      → RequestBody
      → ℤ
      → Option (Commander S A D × ResponseWriter × Fallible Collected)
  collect_request_info_and_save_query_pack env c w no_body session_id =
      let e = message (ascii "missing request body") in
      some (c, http_error w (error_text e) 204, err e)
  collect_request_info_and_save_query_pack env c w (unreadable e) session_id = none
  collect_request_info_and_save_query_pack env c w (body buf) session_id =
      elim (env.decode_submit_msg buf) [
        | err e ↦ refuse c w e
        | ok msg ↦
            let (c', saved) = decode_and_save_base64_query_pack c msg.query_pack session_id in
            if is_base64_gzip msg.query_pack
            then collect_message c' w msg saved
            else refuse c w (message (ascii "MRVA submission body querypack has invalid format"))
      ]
