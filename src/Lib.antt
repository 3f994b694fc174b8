-- ===== src/Lib.antt =====
-- Verification of OpenDebrid, a download service of one controller and many worker nodes.
--
-- The program. Users ask the controller for downloads. A download belongs to a job, a job to a node,
-- and jobs with one storage key are shared by users. The controller keeps jobs, downloads, links and
-- nodes in PostgreSQL, chooses a node with its scheduler, sends the job there, and stores what the
-- nodes report. A node keeps the files of a job in a directory named by the storage key, may upload
-- them to remote storage, and reconciles its disk with the database when it comes back.
--
-- The files.
--   Prelude            tests, lists, byte texts, `Exec`: code that changes a state and may fail, and
--                      `Ensures`: what it brings about where it returns
--   World              what the handlers run on: tables, connection faults, clients, calls made so far
--   Database/          internal/database: Model (models.go), Jobs, Batches, Uploads, Downloads, Nodes,
--                      Settings, Stats (the queries of gen/*.sql.go), NodeStatus (nodeoffline.go, reconcile.go),
--                      Lifecycle (the writes to jobs and nodes, and the moves of a job's status)
--   Scheduler          internal/controller/scheduler: SelectNode, onlineNodes, RoundRobin.Select
--   Service/           internal/core/service: Keys (storagekey.go, CacheKey.Full of engine.go), Env
--                      (what the service takes from outside), Add, Delete, Links,
--                      Listing (download.go)
--   Engine             internal/core/engine: the file scan of engine.go; Aria2 (aria2/engine.go, types.go), with
--                      Aria2/Calls (Add, Cancel, Remove) and Aria2/Keys (ResolveCacheKey, aria2/torrent.go);
--                      Ytdlp (ytdlp/engine.go, types.go), with Ytdlp/Runner (ytdlp/runner.go)
--   Node/              internal/core/statusloop: Tracker, Poll; internal/core/node/server.go: Server;
--                      internal/core/node/remote.go and internal/worker/grpc.go: Remote
--   Reaper             internal/controller/server.go: reapStaleNodes, controllerHeartbeat, nodes in Run
--   FileServer         internal/core/fileserver/server.go
--   Api/               internal/controller/api: Accounts (handlers/auth.go, users.sql.go of the
--                      database), Auth (middleware/auth.go), Downloads, Nodes, Settings (the files of
--                      these names in handlers/, response.go), Admin (handlers/users.go, stats.go)
--   Store              the tables of settings and of users, which Setup, Web and Api/Settings run on
--   Setup              internal/controller/server.go: ensureSetting, ensureAdmin, loadStorageSettings
--   Web                internal/controller/web/handler.go: what the pages do
--   Grpc/              internal/controller/grpc/handlers.go: Handlers, Statuses
--   Worker/            internal/worker/server.go: Reconcile, Sink, Heartbeat
--   Upload             internal/worker/uploader.go, internal/controller/uploader.go, and the local sink of
--                      internal/controller/server.go
--   Storage/           internal/core/storage: Uri, Range, Rclone; Path is what the program uses of path/filepath
--   Util/              internal/core/util: Uuid, StorageDir, Torrent, Magnet, Bencode
--   Tests/             the theorems at concrete inputs
--
-- How state and operations correspond. A row of a table is a record with the columns as fields, NULL
-- is `none`, a table is a list. A query is a function of type `Exec Db A`: it returns a result or an
-- error with the new tables. `World.query` runs one over a connection that the list `faults` may lose;
-- `calm` is a world that loses none. Errors that the source only logs are `logged`. Calls to nodes and
-- to storage are recorded in `trace`; the answers of nodes, the engines, SHA-1, SHA-256, password hashes,
-- web tokens and the parsers of the standard library are parameters. Texts are lists of bytes.
--
-- Integers. `int` in the bencode readers has 64 bits: sums are taken modulo 2^64, and those from 2^63
-- on are negative. A slice expression out of range is a `panic`. The sums of sizes
-- in a run of yt-dlp are taken modulo 2^64, those from 2^63 on being negative; the limit and the offset of
-- the API's pages are converted to int32, and a negative one is refused by the database. Other sizes and
-- speeds are natural numbers, times are seconds, and progress, which is only stored, is in millionths.
--
-- Fuel. The loops over bencode run on fuel; they start with one more than the length of the file, and
-- every round moves ahead in it, so that this is enough.
--
-- Concurrency. A handler runs from its beginning to its end; between its queries only connection faults
-- come in. The unique constraints that keep two handlers apart are part of the queries.
--
-- The parts meet in the data they hand over. A worker's engines answer the poll, whose reports go through
-- the sink to `PushJobStatuses`; the node server's locations are the prefixes that `ReportUpload` looks for;
-- the URIs that the file scan lists are those that `GenerateLink` stores and that the file server resolves. A
-- node server is called directly or over the remote client and the worker's gRPC server, and a torrent reaches
-- its engine as a magnet link that the API made of a file or as an address; the keys of both are compared.
--
-- Not modelled: processes, routing, JSON and templates, configuration, the JSON-RPC client of aria2 and the
-- process of rclone, which are input and output; the regular expression and the float64 arithmetic of the
-- yt-dlp runner, which are parameters; the listing of settings, which reads whole rows; the job manager,
-- which hands every call on to a query.
pub mod Prelude
pub mod Util
pub mod Storage
pub mod World
pub mod Database
pub mod Reaper
pub mod Scheduler
pub mod Service
pub mod Node
pub mod Engine
pub mod FileServer
pub mod Worker
pub mod Upload
pub mod Api
pub mod Store
pub mod Setup
pub mod Web
pub mod Grpc
mod Tests
