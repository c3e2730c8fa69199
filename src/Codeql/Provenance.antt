-- ===== src/Codeql/Provenance.antt =====
-- pkg/codeql/codeql.go: `generateSarif`, which edits the SARIF file as a dynamic JSON value.
use mrvacommander.Prelude.{
  Bytes, bytes_beq, bytes_beq_iff, ascii, ◌++◌, Bool, Option, none, some, ◌≡◌, ◌≢◌, refl,
  if◌then◌else◌, arith,
}
use mrvacommander.Prelude.Chain.{◌>>=◌}
use mrvacommander.Utils.Paths.{join}
use mrvacommander.Common.Errors.{Fallible, context}
use mrvacommander.Codeql.Types.{CodeqlCli}
use mrvacommander.Codeql.Commands.{Program, interpret_results}

-- What `json.Unmarshal` makes of a file. The key of a field stands once in an object.
mutual
  pub data Json : Type 0 where
    null : Json
    bool : Bool → Json
    number : Bytes → Json
    text : Bytes → Json
    array : Items → Json
    object : Fields → Json

  pub data Items : Type 0 where
    done : Items
    item : Json → Items → Items

  pub data Fields : Type 0 where
    end : Fields
    field : Bytes → Json → Fields → Fields

unfoldable pub get : Bytes → Fields → Option Json
get key end = none
get key (field name value fields) = if bytes_beq name key then some value else get key fields

unfoldable pub set : Bytes → Json → Fields → Fields
set key value end = field key value end
set key value (field name old fields) =
    if bytes_beq name key then field name value fields else field name old (set key value fields)

unfoldable pub append_item : Items → Json → Items
append_item done value = item value done
append_item (item first items) value = item first (append_item items value)

abbrev pub provenance_key : Bytes
provenance_key = ascii "VersionControlProvenance"

abbrev pub provenance : Bytes → Bytes → Bytes → Json
provenance server_url language sha = object (
    field (ascii "repositoryUri") (text (server_url ++ (ascii "/" ++ language)))
      (field (ascii "revisionId") (text sha) end))

-- The value of the key in a run, with one more entry; anything but an array is replaced.
unfoldable pub extended : Json → Option Json → Json
unfolding append_item
extended entry (some (array items)) = array (append_item items entry)
extended entry _ = array (item entry done)

unfoldable pub add_to_run : Json → Json → Json
unfolding extended get set
add_to_run entry (object fields) =
    object (set provenance_key (extended entry (get provenance_key fields)) fields)
add_to_run entry other = other

unfoldable pub add_to_runs : Json → Items → Items
unfolding add_to_run
add_to_runs entry done = done
add_to_runs entry (item run runs) = item (add_to_run entry run) (add_to_runs entry runs)

unfoldable pub add_provenance : Json → Fields → Fields
unfolding add_to_runs get set
add_provenance entry data' = elim (get (ascii "Runs") data') [
  | some (array runs) ↦ set (ascii "Runs") (array (add_to_runs entry runs)) data'
  | _ ↦ data'
]

-- The CodeQL program, the file system, `GITHUB_SERVER_URL`, and JSON.
pub record Interpreter : Type 0 where
  pub program : Program
  pub read_file : Bytes → Fallible Bytes
  pub server_url : Bytes
  pub unmarshal : Bytes → Fallible Fields
  pub marshal_indent : Fields → Fallible Bytes

unfoldable pub generate_sarif :
    Interpreter → CodeqlCli → Bytes → Bytes → Bytes → Bytes → Bytes → Fallible Bytes
unfolding add_provenance interpret_results
generate_sarif t cli language database_path query_pack_path sha results_dir = do
  let sarif_file = join results_dir (ascii "results.sarif")
  output ←
      context (ascii "failed to generate SARIF")
        (interpret_results t.program cli sarif_file database_path query_pack_path)
  sarif ← context (ascii "failed to read SARIF file") (t.read_file sarif_file)
  data' ← t.unmarshal sarif
  t.marshal_indent (add_provenance (provenance t.server_url language sha) data')

get-set :
    (key name : Bytes) (value : Json) (fields : Fields)
    → get name (set key value fields) ≡ (if bytes_beq key name then some value else get name fields)
unfolding get set
get-set key name value end = refl
get-set key name value (field other old fields) = ground (
  arith,
  get-set key name value fields,
  bytes_beq_iff other key,
  bytes_beq_iff other name,
  bytes_beq_iff key name,
)

-- A run that is an object keeps every other field, and its provenance is what it was, with the new
-- entry at its end.
pub add_to_run-get :
    (entry : Json) (fields : Fields) (name : Bytes)
    → (after : Fields) × (add_to_run entry (object fields) ≡ object after)
      × (get provenance_key after ≡ some (extended entry (get provenance_key fields)))
      × (name ≢ provenance_key → get name after ≡ get name fields)
unfolding add_to_run
add_to_run-get entry fields name =
    let value = extended entry (get provenance_key fields) in
    (
      set provenance_key value fields,
      refl,
      ground (
        arith,
        get-set provenance_key provenance_key value fields,
        bytes_beq_iff provenance_key provenance_key,
      ),
      λ h.
          ground
            (arith, get-set provenance_key name value fields, bytes_beq_iff provenance_key name),
    )
