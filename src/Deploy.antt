-- ===== src/Deploy.antt =====
-- pkg/deploy/init.go: the parts of the program, from the environment of the process.
pub mod Port
use mrvacommander.Prelude.{
  ℤ, Bytes, bytes_beq, ascii, Bool, true, false, List, [], ◌∷◌, ◌++◌, Option, none, some, ok, err,
  if◌then◌else◌, ◌>>=◌,
}
use mrvacommander.Prelude.Decimal.{parse_int}
use mrvacommander.Prelude.Split.{split}
use mrvacommander.Common.Errors.{Fallible, wrapped, message, not_a_number}
use mrvacommander.ArtifactStore.Types.{BucketNames}

abbrev pub getenv : Option Bytes → Bytes
getenv none = []
getenv (some value) = value

abbrev is_set : Option Bytes → Bool
is_set none = false
is_set (some value) = true

unfoldable pub missing_env_vars : (Bytes → Option Bytes) → List Bytes → Bool → Bool
missing_env_vars env [] missing = missing
missing_env_vars env (name ∷ names) missing =
    missing_env_vars env names (if is_set (env name) then missing else true)

-- `none` is the end of the process, by `os.Exit(1)`.
unfoldable pub validate_env_vars : (Bytes → Option Bytes) → List Bytes → Option (Unit {0})
unfolding missing_env_vars
validate_env_vars env names = if missing_env_vars env names false then none else some tt

abbrev pub rabbit_env_vars : List Bytes
rabbit_env_vars =
    ascii "MRVA_RABBITMQ_HOST"
    ∷ ascii "MRVA_RABBITMQ_PORT"
    ∷ ascii "MRVA_RABBITMQ_USER"
    ∷ ascii "MRVA_RABBITMQ_PASSWORD"
    ∷ []

-- The error of a call, under another text.
abbrev pub or_wrapped : {A : Type 0} → Bytes → Fallible A → Fallible A
or_wrapped text (ok a) = ok a
or_wrapped text (err e) = err (wrapped text e)

-- NewRabbitMQQueue, of a host, a port, a user, a password and the role.
abbrev pub Connector : Type 0 → Type 0
Connector Q = Bytes → ℤ → Bytes → Bytes → Bool → Fallible Q

abbrev connect_to :
    {Q : Type 0} → (Bytes → Bytes) → Connector Q → Bool → Bytes → Option ℤ → Fallible Q
connect_to value connect is_agent text none =
    err (wrapped (ascii "failed to parse RabbitMQ port") (not_a_number text))
connect_to value connect is_agent text (some port) =
    or_wrapped (ascii "failed to initialize RabbitMQ") (
      connect (value (ascii "MRVA_RABBITMQ_HOST")) port (value (ascii "MRVA_RABBITMQ_USER"))
        (value (ascii "MRVA_RABBITMQ_PASSWORD")) is_agent)

-- The port is read as a signed number of 16 bits.
unfoldable pub init_rabbit_mq :
    {Q : Type 0} → (Bytes → Option Bytes) → Connector Q → Bool → Option (Fallible Q)
unfolding validate_env_vars
init_rabbit_mq env connect is_agent = do
  _ ← validate_env_vars env rabbit_env_vars
  let value = λ (name : Bytes). getenv (env name)
  let port = value (ascii "MRVA_RABBITMQ_PORT")
  some (connect_to value connect is_agent port (parse_int 16 port))

abbrev pub minio_env_vars : List Bytes
minio_env_vars =
    ascii "ARTIFACT_MINIO_ENDPOINT"
    ∷ ascii "ARTIFACT_MINIO_ID"
    ∷ ascii "ARTIFACT_MINIO_SECRET"
    ∷ ascii "MRVA_MINIO_VIRTUAL_HOST"
    ∷ []

pub data BucketLookup : Type 0 where
  lookup_dns lookup_path : BucketLookup

-- The bucket in front of the first dot of a host.
abbrev pub bucket_of_parts : Bytes → List Bytes → Fallible (Bytes × BucketLookup)
bucket_of_parts host (bucket ∷ next ∷ rest) = ok (bucket, lookup_dns)
bucket_of_parts host parts = err (message (ascii "unable to extract bucket from host: " ++ host))

abbrev pub bucket_of_host : Fallible Bytes → Fallible (Bytes × BucketLookup)
bucket_of_host (err e) = err (wrapped (ascii "failed to parse ARTIFACT_MINIO_ENDPOINT") e)
bucket_of_host (ok host) = bucket_of_parts host (split b'.' host)

-- The bucket of both kinds of artifacts, and how it is addressed; `parse_host` is the host name in
-- a URL.
unfoldable pub minio_bucket :
    (Bytes → Fallible Bytes) → Bool → Bytes → Fallible (Bytes × BucketLookup)
minio_bucket parse_host use_virtual endpoint =
    if use_virtual
    then bucket_of_host (parse_host endpoint)
    else ok (ascii "mrvabucket", lookup_path)

abbrev new_store :
    {S : Type 0}
    → (Bytes → Bytes → Bytes → BucketLookup → Fallible S)
    → Bytes
    → Bytes
    → Bytes
    → Fallible (Bytes × BucketLookup)
    → Fallible (BucketNames × S)
new_store make endpoint id secret (err e) = err e
new_store make endpoint id secret (ok (bucket, how)) = elim (make endpoint id secret how) [
  | err e ↦ err (wrapped (ascii "failed to initialize artifact store") e)
  | ok store ↦ ok (record { results = bucket; packs = bucket }, store)
]

-- The names of the two buckets that are set, and the store; `make` is NewMinIOArtifactStore.
unfoldable pub init_minio_artifact_store :
    {S : Type 0}
    → (Bytes → Option Bytes)
    → (Bytes → Fallible Bytes)
    → (Bytes → Bytes → Bytes → BucketLookup → Fallible S)
    → Option (Fallible (BucketNames × S))
unfolding validate_env_vars minio_bucket
init_minio_artifact_store env parse_host make = do
  _ ← validate_env_vars env minio_env_vars
  let value = λ (name : Bytes). getenv (env name)
  let endpoint = value (ascii "ARTIFACT_MINIO_ENDPOINT")
  let use_virtual = bytes_beq (value (ascii "MRVA_MINIO_VIRTUAL_HOST")) (ascii "1")
  some (
      new_store make endpoint (value (ascii "ARTIFACT_MINIO_ID"))
        (value (ascii "ARTIFACT_MINIO_SECRET")) (minio_bucket parse_host use_virtual endpoint))

abbrev pub hepc_env_vars : List Bytes
hepc_env_vars =
    ascii "MRVA_HEPC_ENDPOINT"
    ∷ ascii "MRVA_HEPC_CACHE_DURATION"
    ∷ ascii "MRVA_HEPC_DATAVIACLI"
    ∷ ascii "MRVA_HEPC_OUTDIR"
    ∷ ascii "MRVA_HEPC_TOOL"
    ∷ []

-- `make` is NewHepcStore.
unfoldable pub init_hepc_database_store :
    {S : Type 0} → (Bytes → Option Bytes) → (Bytes → S) → Option S
unfolding validate_env_vars
init_hepc_database_store env make = do
  _ ← validate_env_vars env hepc_env_vars
  some (make (getenv (env (ascii "MRVA_HEPC_ENDPOINT"))))
