-- ===== src/QldbStore/Hepc/Fetch.antt =====
-- `fetchMetadata`: the metadata, over HTTP or from `spigot-cli`.
use mrvacommander.Prelude.{
  nat_beq, Bytes, bytes_beq, ascii, List, [], ◌∷◌, ◌++◌, ok, err, if◌then◌else◌, strip_prefix, none,
  some,
}
use mrvacommander.Prelude.Chain.{◌>>=◌, ◌>>◌}
use mrvacommander.Utils.Paths.{join}
use mrvacommander.Common.Errors.{Fallible, message, wrapped}
use mrvacommander.QldbStore.Hepc.{HepcResult, World, HepcStore}

-- The loop over a decoder: up to its end, or to the first error.
unfoldable pub decode_all : Bytes → List (Fallible HepcResult) → Fallible (List HepcResult)
decode_all context [] = ok []
decode_all context (err e ∷ rest) = err (wrapped context e)
decode_all context (ok result ∷ rest) = do results ← decode_all context rest; ok (result ∷ results)

unfoldable pub fetch_via_http : World → HepcStore → Fallible (List HepcResult)
unfolding decode_all
fetch_via_http w h = elim (w.http_get (h.endpoint ++ ascii "/index")) [
  | err e ↦ err (wrapped (ascii "error fetching metadata") e)
  | ok response ↦
      if nat_beq response.status_code 200
      then decode_all (ascii "error decoding JSON") (w.decode_results response.body)
      else err (message (ascii "non-OK HTTP status"))
]

-- The directory of `MRVA_HEPC_OUTDIR`, with `~/` at its front expanded.
unfoldable pub expand_home : World → Bytes → Fallible Bytes
expand_home w dir = elim (strip_prefix (ascii "~/") dir) [
  | none ↦ ok dir
  | some rest ↦ do home ← w.user_home_dir; ok (join home rest)
]

unfoldable pub fetch_via_cli : World → Fallible (List HepcResult)
unfolding decode_all expand_home
fetch_via_cli w =
    let out_dir = w.getenv (ascii "MRVA_HEPC_OUTDIR") in
    let tool = w.getenv (ascii "MRVA_HEPC_TOOL") in
    if bytes_beq out_dir []
    then err (message (ascii "missing required environment variables"))
    else if bytes_beq tool []
    then err (message (ascii "missing required environment variables"))
    else do
      dir ← expand_home w out_dir
      let path = join dir (ascii "spigot-results.json")
      w.mkdir_all dir
      w.create path
      w.run_spigot_cli tool path
      elim (w.open_file path) [
        | err e ↦ err (wrapped (ascii "failed to open result file") e)
        | ok content ↦ decode_all (ascii "error decoding CLI JSON") (w.decode_results (ok content))
      ]

unfoldable pub fetch_metadata : World → HepcStore → Fallible (List HepcResult)
unfolding fetch_via_http fetch_via_cli
fetch_metadata w h =
    if bytes_beq (w.getenv (ascii "MRVA_HEPC_DATAVIACLI")) (ascii "1")
    then fetch_via_cli w
    else fetch_via_http w h
