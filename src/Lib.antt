-- ===== src/Lib.antt =====
-- mrvacommander runs CodeQL query packs on many repositories. A client submits a query pack and a
-- list of repositories to the server; the server stores the pack, looks up which repositories have
-- a database, and puts one job for each of them in a queue. Agents take the jobs, run the queries,
-- store an archive of results, and send a result back through the queue; a consumer in the server
-- moves it into the server's state. The client asks for the status of its session and downloads the
-- archives.
--
-- Parts, and the files that model them:
--
--   Prelude           Go's int, strings (lists of bytes), maps (association lists), %d and ParseInt
--   Common            pkg/common: names, statuses, jobs, the messages of extapi.go, job specs in
--                     URLs; Common/Errors has one constructor for each kind of error message
--   Utils             utils/archive.go: the gzip test (Archive) and the extraction of archives
--                     (Extract); encoding/base64 and path/filepath, which they and others use
--   ArtifactStore     pkg/artifactstore: the interface, the store in memory, and the store in MinIO
--                     (Minio, with pkg/common/minio.go), which refines it (Minio/Saves)
--   Queue             pkg/queue: the messages, and what the two channels hold; QueueSingle (Single);
--                     and the queue over RabbitMQ (Rabbit): its connection (Connect), its loops
--                     (Consume, Publish), what they deliver (Delivery, Drain) and where they fail
--                     (Trouble)
--   State             pkg/state: the interface ServerState, the laws its clients need (Laws), the
--                     state in memory (Local), the summary of a session (Summary), and the state in
--                     PostgreSQL (Postgres): its methods (Reads, Writes, and Summaries for the
--                     summary of a session), the setup (Setup), and the connections of concurrent
--                     calls (Connections)
--   QldbStore         pkg/qldbstore: the interface, the store on disk, and the HEPC store with its
--                     cache (Hepc/Cache), its ways to fetch (Hepc/Fetch) and its downloads
--                     (Hepc/Serve, and what they return in Hepc/Downloads)
--   Codeql            pkg/codeql: result counts (Bqrs), which packs SARIF can hold (Sarif), the
--                     walks over a database (Walk), the commands of the CodeQL program (Commands),
--                     the results of a pack (Packs), RunQuery (Run), generateSarif (Provenance),
--                     and the archive of results (Zip)
--   Server            pkg/server: the handlers; Status, Submit and Download are the requests of
--                     those names, Results is ConsumeResults, Http what net/http sends
--   Agent             pkg/agent: RunAnalysisJob (Job), RunWorker (Worker) and
--                     StartAndMonitorWorkers (Pool); Archive puts RunQuery into RunAnalysisJob
--   Deploy            pkg/deploy/init.go: the parts from the environment of the process
--   System            the server, the workers and the consumer, in any order of their calls; Rounds
--                     shows that a whole round of a worker or of the consumer is such an order
--   Scenarios         runs of a small installation, at which the theorems are tried; those on the
--                     state and the artifacts are tried in State/Tests and ArtifactStore/Tests
--
-- How the code is translated. A Go function is a function of the same name in this library's
-- spelling, that takes the state of its receiver and returns the state that it leaves. A call that
-- returns an error is a `Fallible`, and one that may panic an `Option`; the state behind a panic is
-- not modelled. A mutex makes a method one step. Handlers return the response that they have sent,
-- in which a second header is ignored as in net/http. Interfaces (ServerState, the two stores) are
-- records over the type of an implementation's state; theorems on the server, the agent and the
-- whole system hold for each implementation that keeps `StateLaws`, and both the state in memory
-- and the one in PostgreSQL do; the program itself only makes the latter. A table is a map from its primary key, a statement of SQL is what
-- it does to the tables, and a transaction is one step. Logging is left out.
--
-- Numbers. An int is a ℤ, with the wrap-around of 64 bits where the code adds (`increment`,
-- `add_int`, `minutes`); counts and lengths, which the memory bounds, are ℕ. INTEGER columns and
-- parameters of PostgreSQL have 32 bits (`in_integer`), SERIAL numbers too (`max_serial`). Printing
-- a number runs on fuel, one round for a digit, and n + 1 rounds are enough for n. The endless
-- loops of the queue are modelled by their first n rounds, for every n, and the loop of a worker by
-- what the selects of its rounds find. All other loops are over lists or trees.
--
-- Parameters. JSON, YAML, gzip and tar decoding, HTTP, the file system, the clock, environment
-- variables, and the programs codeql and spigot-cli are fields of records (Environment, Machine,
-- Disk, World, Toolchain, Program, Interpreter, ZipWriter, Host) that the definitions take; so are
-- the broker and its library (Broker), the MinIO client (Client), and the PostgreSQL driver with
-- the failures of its statements (Database). The agent takes RunQuery as a field of its Machine;
-- Agent/Archive is about machines where that is run_query of Codeql/Run. That JSON reads back what
-- it has written is a hypothesis where it is used, and one about values whose texts are valid
-- UTF-8: for such values the states keep results and job infos as they are (`storable_result`,
-- `storable_info`), and for others they keep some value.
--
-- Not modelled: routes and listening, which only call their libraries, the configuration file of
-- config/mcc, which nothing reads, and the tools under client. Sleeping and timeouts are left out,
-- and so is the delivery of a message a second time after an acknowledgement that failed.
pub mod Prelude
pub mod Common
pub mod Utils
pub mod ArtifactStore
pub mod Queue
pub mod State
pub mod QldbStore
pub mod Server
pub mod Codeql
pub mod Agent
pub mod System
pub mod Deploy
pub mod Scenarios
