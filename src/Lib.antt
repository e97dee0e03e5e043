-- ===== src/Lib.antt =====
-- Buckit Manager (bm): a verification of the core of its server.
--
-- The program manages clusters of the object store Buckit. A long-running operation (a deploy, a
-- restart, a cutover from MinIO) is dispatched under a per-cluster lock, writes a row in the history
-- bucket, runs an executor that reports through a hub to any number of subscribers, and ends with a
-- terminal state in the row and on the hub. Around it stand the health rollup of the clusters,
-- the parameters of a deploy with their erasure topology, the cutover of a MinIO cluster to
-- Buckit with its rollback, the operations that restart or upgrade a cluster over SSH with the saved
-- credentials, and the update of bm itself.
--
-- Which file models what (paths from the repository's root):
--   Base           numbers, lists and strings that the other files share.
--   Store          internal/store/store.go: Update and View with their deadline (`Outcome` says
--                  what the environment makes of a write). Store/Bucket is the interface of a bbolt
--                  bucket, with its documented laws; Store/Assoc fills it by an association list.
--   Domain         the types of internal/domain that the models read.
--   Tasks/Types    internal/tasks/types.go.
--   Tasks/Hub      internal/tasks/hub.go. A channel is a list of frames with a count of its closes;
--                  a frame that a client took moves to `received`. `HubStep` is a call on the hub.
--   Tasks/History  internal/tasks/history.go: Insert is `insert`, Update `update_entry`, and so on.
--   Tasks/Recovery internal/tasks/recovery.go.
--   Tasks/Orchestrator  internal/tasks/orchestrator.go. The manager's maps are functions, a mutex is
--                  a flag. `proceed` takes the goroutine of `executeRun` from one point where others
--                  may run to the next. In Orchestrator/Steps an `Action` is any step of any
--                  goroutine, and `Reach` holds of the states that a sequence of them leads to;
--                  there a call of Dispatch takes three steps: up to the lock, the insert of the
--                  history row, and what follows the answer of that insert. `dispatch` is the three
--                  in a row.
--   Clusters       internal/clusters/health.go, and Get and Put of internal/clusters/clusters.go.
--   Deploy         internal/deploy/params.go.
--   Migration      internal/migration/executor.go, rollback.go and cutover_params.go. `Cutover.execute`
--                  and `Rollback.rollback` are the two Execute methods; what the hosts answer in a
--                  phase, the polls of the admin API and the outcome of each access to the store are
--                  an `Env`; a phase in which an error cuts other hosts short shows in its events. The phases, in the order in which they are begun, are the
--                  `calls` of a `World`.
--   Ssh            Ssh/Config is internal/ssh/config.go, Ssh/Saved internal/sshconfig/sshconfig.go. A row
--                  of its encrypted bucket (Store/Encrypted) is the sealing of a value under a nonce.
--   Operations     internal/operations. Operations/Shell has the command lines and what a shell makes of
--                  them, Versions the version checks, Waits the waits, Hosts the loop over the hosts,
--                  Row the refresh of the cluster's row, Rolling the rolling restart, Scoped systemctl on
--                  some hosts, Upgrade the upgrade over systemctl and, in
--                  AdminUpdate, the one by the admin API, Peers the choice
--                  of a peer to copy from. Start has the starting and stopping of a whole cluster: its
--                  goroutines take turns in the order of a schedule, where a turn is one command on a
--                  host with the writes after its answer. What hosts and the admin API answer
--                  is a function of the events so far, in an `Env`; a wait is the list of its attempts
--                  up to the first that finds the deadline passed.
--   Clock          the layouts of time.Parse that version texts are read with.
--   Discovery      ParseEngine of internal/discovery/engine.go.
--   Update         internal/update/service.go.
--   Credentials    internal/credentials/credentials.go.
-- Examples stand in a module Examples of their component.
--
-- How values are modelled. A Go string is its list of bytes. Instants are nanoseconds, with 0 for
-- the zero time; durations are nanoseconds, of which the source keeps the seconds as a float. A
-- signed integer has its exact value, without a bound of 64 bits, but the timeouts of a cutover
-- are products of 64 bits. Where a loop over the runes of a text changes invalid UTF-8 (the quoting of
-- a command), the model decodes the runes. The JSON text of a stored value is
-- the value, and a text that does not decode is `malformed`. No model needs fuel but the digits of
-- a number, which get one more than the number: every other loop runs over a list.
--
-- Not modelled: the HTTP API and the web interface; SSH and the admin API, which are network calls
-- over other libraries; bbolt, random ids and the clock, which are arguments; the cipher of
-- the encrypted buckets; host discovery, preflight, local deploys, the package managers, and the
-- executors of the other operations, which a registry of executors stands for. Lines that only print are left out,
-- and so are the log lines of the migration and of the operations. White space is trimmed as ASCII. In the history filter a limit of 0 stands for every limit that is not positive.

pub mod Base
pub mod Store
pub mod Domain
pub mod Tasks
pub mod Clusters
pub mod Deploy
pub mod Migration
pub mod Clock
pub mod Ssh
pub mod Credentials
pub mod Discovery
pub mod Operations
pub mod Update
