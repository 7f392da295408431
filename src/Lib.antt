-- ===== src/Lib.antt =====
-- NexusIDE, a collaborative editor: a model of the core logic of its backend (backend/src). A file
-- here stands for one part of the backend; the files of the folder beside it hold that part's
-- theorems, and its Examples the runs and the theorems at concrete inputs.
--
-- The parts, the files they model (paths under backend/src) and how they correspond:
--   Cursor        services/cursorCodec.service.ts: cursors as frames of eight bytes. A buffer is a list
--                 of bytes, a DataView's accessors are `set_uint16` and `get_uint16`; coordinates are
--                 integers.
--   DockerFrame   utils/streamParser.utils.ts: the headers of Docker's multiplexed streams.
--   StreamBuffer  terminal/terminalStreamBuffer.ts: the methods of the class on a record of its fields;
--                 the socket and its backpressure are part of the state, and a run is a list of events.
--   Debouncer     services/adaptiveDebouncer.service.ts: the same way, with the clock as an argument and
--                 the delay in tenths of a millisecond.
--   RoleGuard     middleware/workspaceAuth.ts: the middleware as a function from a request and the
--                 answers of the two repository queries to its outcome.
--   Conflict      utils/conflictParser.ts: the loop over lines as a parser state, on UTF-16 code units.
--   WorkerPool    services/workerPool.service.ts: submissions and the handlers of worker threads as
--                 events. Its two wrappers with a fallback stand in Merkle and Compactor.
--   WarmPool      sandbox/pool.ts: the pool of started containers. An asynchronous method is cut where
--                 it waits: `filler_resumes` and `on_demand_resumes` are its continuations.
--   Merkle        services/cas.service.ts and workers/casWorker.ts: snapshots as trees of hashes.
--   CasCollector  services/casGarbageCollector.service.ts: the collector over tables as lists of rows.
--   Lock          services/distributedLock.service.ts: a task under a lock in Redis or in memory.
--   WriteBehind   services/crdtWriteBehind.service.ts: updates buffered in Redis and flushed under Lock.
--   Compactor     services/crdtCompactor.service.ts: updates merged into the state of a file.
--   RedisCache    utils/redisCache.ts: the cache with its fallback in memory.
--   Presence      services/socketPresence.service.ts and services/redisPresence.service.ts: who is in
--                 which workspace.
--   Containers    sandbox/workspaceContainer.ts: the containers of the workspaces, with their users and
--                 removal timers, over WarmPool. `getOrCreateWorkspaceContainer` is cut where it waits:
--                 `get_or_create`, then `set_up` or `set_up_fails`, or `resumes` for a paused
--                 container; so is a removal, which ends in `removal_ends`. A run is a step
--                 relation.
--   SharedDoc     services/yjsSyncEngine.service.ts, WSSharedDoc: what a document sends to its sockets
--                 and to the other pods.
--   DocSocket     services/websocketServer.service.ts: the handshake of a socket and its messages, and
--                 the room names of getOrCreateDoc.
--   DocRoom       docsRegistry.ts with services/websocketServer.service.ts and getOrCreateDoc of
--                 services/yjsSyncEngine.service.ts: the documents and sockets of one room, as a step
--                 relation over arrivals, joins, closes and the ends of final saves.
--   YjsCache      utils/yjsCache.ts: the states of documents in Redis and in memory. Whether Redis is
--                 there, answers or fails is an argument of each call.
--   Timeline      services/workspaceFile.service.ts, extractSnapshotFromYText: a text with its authors.
--   Snapshots     repositories/snapshot.repository.ts: checkpoints over Merkle, with the three tables as
--                 the state, and the comparison of services/workspaceSnapshot.service.ts.
--   Restore       services/workspaceSnapshot.service.ts: directories and files written back.
-- They interact as in the source: WriteBehind flushes with `with_distributed_lock` of Lock and fills
-- the table that Compactor empties; both and Merkle hand work to the worker pool; CasCollector removes
-- what Merkle's snapshots no longer use; Snapshots stores them, Restore writes them back. Containers
-- takes its containers from WarmPool, DocSocket decides about users as RoleGuard does, from the database
-- where that asks a cache, and sends through
-- SharedDoc, which arms the debouncer. Lock's `Result` is the end of a promise, also in RedisCache
-- and Presence. Common holds the names, tests, lists and maps that all of them use.
--
-- What is not code of the repository is a parameter, with what its documentation says as hypotheses:
-- Redis (`LockServer`, `BufferServer`, `CacheServer`, `HashServer`), Yjs (`Yjs`, `Merge`), and SHA-256,
-- JSON and localeCompare (`Platform`, `Json`), lib0 and y-protocols (`Codec`). PostgreSQL's statements are read as SQL says, a query
-- that fails or that other sessions come between is an argument (`between`).
--
-- Bounds: numbers are naturals, or integers where the source has them signed; 16-bit fields are
-- clamped or masked as in the source. Nothing runs on fuel: every function is structural.
--
-- Not modelled: the set-up of servers, sockets, Docker and timers, most SQL text, routes and metrics,
-- which are input and output; what loading and saving a document write, eviction and the assembly of
-- a file's history; the flush of all dirty files, which runs ten flushes at a time; the removal of all
-- containers at shutdown; the parent of a checkpoint, which nothing reads. Queries of Snapshots and
-- Restore do not fail. Log messages, elapsed times and colours of members are left out.
pub mod Common
pub mod Cursor
pub mod DockerFrame
pub mod StreamBuffer
pub mod Debouncer
pub mod RoleGuard
pub mod Conflict
pub mod WorkerPool
pub mod WarmPool
pub mod Merkle
pub mod CasCollector
pub mod Lock
pub mod WriteBehind
pub mod Compactor
pub mod RedisCache
pub mod Presence
pub mod Containers
pub mod SharedDoc
pub mod DocSocket
pub mod DocRoom
pub mod YjsCache
pub mod Timeline
pub mod Snapshots
pub mod Restore
