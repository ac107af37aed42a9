-- ===== src/Lib.antt =====
-- A verification library for ToriiDB, a key-value store with JSON values, an append log, vector
-- search, and a daemon that serves it over a socket.
--
-- Parts, and how they interact. A client's command line goes to Exec (core/store/exec.go), which
-- splits it into words and calls one operation of the core. Each operation works on the database
-- that the session has selected: it reads or changes the map from keys to entries, and for a change
-- it appends a record to the current log (core/store/aof.go). A write may start a compaction, which
-- writes a snapshot, moves on to the log of the next number and removes old generations (gc.go). A
-- database is loaded on its first use from the newest snapshot that can be read and the logs behind
-- it (store.go). FIND, QUERY and KEYS scan all entries; VSEARCH keeps the best of them in a heap.
-- QUERY has a filter language of its own (core/store/filter). Paths into JSON values are walked by
-- core/utils/utils.go. In front of the store stands a daemon (core/daemon). The process that holds
-- the store listens on a socket, reads a frame with a JSON request, lets a handler work on the
-- database that the request names, and writes the response as a frame. Other processes send their
-- requests through a pool of connections; the methods of Daemon are the same in both. Vectors come
-- from a client of an embedding service (core/openai).
--
-- Which file models which part:
--   Base, Base/*          texts as lists of character codes, dictionaries, int64 with its wrap-around,
--                         decimal numbers, a stable insertion sort
--   Json, Record          the values that encoding/json gives; AOFRecord
--   External              what the program takes from Go's standard library, as a record of functions
--   Utils, Utils/Walk     core/utils/utils.go (WalkKeys, Atov, Vtoa, Vtof)
--   Filter/Operation      core/store/filter/operation.go
--   Filter/Condition      core/store/filter/extension.go, and GetValue and Match of filter.go
--   Filter/Parser         core/store/filter/parser.go, and AtoFilter of filter.go
--   Filter/Parser/*       a printer of filters, and how the parser reads what it prints
--   Store/Entry, Set      core/store/set.go (Entry, Set, SetVector, detectType)
--   Store/WalkSet         walkKeysAndSet of core/store/setField.go
--   Store/SetField, Incr  SetField of setField.go; incr.go and incrField.go
--   Store/Get, Del, Ttl   core/store/get.go, del.go, ttl.go
--   Store/Vector, Search  vector.go, vcache.go, vsim.go and vsearch.go; Store/Heap: container/heap
--   Store/Db              `db` of store.go, the files below its directory, and how one write's system
--                         calls come out
--   Store/Heap/*          the heap order, and what push, fix and pop keep of it
--   Store/Search/*        what the scan keeps of the candidates, and what a search gives
--   Store/Names           snapPath, logPath and parseName of gc.go
--   Store/Aof, Compact    addToAOF, writeAOF, compact and serialize of aof.go; initLog; gc.go
--   Store/Replay, Load    replayInto of aof.go; loadAll and replayGeneration of store.go
--   Store/Clean           cleanExpired of store.go
--   Store/Scan            keys.go, find.go and query.go
--   Store/Close           New and Close of store.go, and a tick of its timer
--   Store/Core, Exec/*    core, DB and Select of store.go; exec.go
--   Store/Durable/*       what the files give on replay, against the memory: on a healthy disk, and
--                         where calls fail (Crash, Failing, Atomic)
--   Daemon/Protocol       core/daemon/protocol.go: requests, responses, kinds of errors
--   Daemon/Frames         writeFrame and readFrame of protocol.go
--   Daemon/Content        core/daemon/content.go
--   Daemon/Handler, Pages core/daemon/handler.go; the pages of handleKeys
--   Daemon/Socket         core/daemon/socket.go, and New of daemon.go
--   Daemon/Pool, Call     core/daemon/client.go: the idle connections; exchange and call
--   Daemon/Server         serve of core/daemon/daemon.go, and call of api.go in the store's process
--   Daemon/Lifecycle      Start, accept and Stop of daemon.go, as steps between uses of the mutex;
--                         Lifecycle/Closing: Close
--   Daemon/Api            core/daemon/api.go
--   Store/Core/*, Daemon/Api/*, Daemon/*/Laws  what sessions, methods and parts keep and give
--   Embedding             core/openai/client.go
--   Samples/*, Tests/*    an instance of External, and runs
--
-- How state and operations correspond. A Go function that changes a `db` is a function from a Db to
-- a Db with its result or error beside it, also where an error comes after a change. A pointer to
-- an entry is the entry in the map; a write through it puts the entry back. Maps are association
-- lists, read by key. The disk is part of the Db: snapshots, logs and temporary files are numbered
-- texts (Store/Names has the names; a listing of the directory leaves out a name with more than
-- eight digits, that is a number from `name_limit` on). An Io says, for one write, which system calls succeed, how much a
-- failed write has written, and the clock. The current log is `aof`, or the log `num` where none is
-- open yet.
--
-- Fuel. The four methods of the filter parser call one another; each call takes one unit, a word
-- read is worth five, and AtoFilter starts with 5 * words + 5. replayGeneration's loop over the
-- logs starts with one unit more than the largest log number, which no log has. The heap sifts up
-- from place j on j + 1 units and down on the length, and FormatInt divides n on n + 1 units. The
-- loop over a connection's requests runs on one unit more than the stream has bytes, and a frame
-- has four bytes at least.
--
-- What is a parameter. Floating point, JSON text, time.Parse, path.Match, base64, SHA-256 and the
-- text of a log record are fields of External, with the laws that theorems use as named hypotheses
-- (CodecLaws, Base64Laws, CutLaws, MarshalLaws, ScoreOrder). The embedding service is an argument of
-- the operations that call it; Embedding has its client over an HTTP exchange that is a parameter.
-- The JSON of requests and responses is the record Wire, with a decoding that is inverse to the
-- encoding as a hypothesis where a theorem needs it. The network is what each exchange of a call
-- meets: how far its bytes get, and whether the context ends.
--
-- What is not modelled: the clock behind the deadlines of connections, where a deadline that passes
-- is a read or a write that fails; cmd/test, a loop over standard input; the clock of the timer of
-- store.go; locks, as every operation holds the lock of its database from its start to its end,
-- except two background jobs that are separate steps: that of SetVector and the removal of old files
-- after a compaction; the wording of error messages; ToUpper, ToLower, Fields and TrimSpace beyond ASCII.
pub mod Base
pub mod Json
pub mod Record
pub mod External
pub mod Utils
pub mod Filter
pub mod Store
pub mod Samples
pub mod Daemon
pub mod Embedding
pub mod Tests
