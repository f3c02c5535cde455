-- ===== src/Lib.antt =====
-- A model of valkeydb, a key-value server that speaks RESP, the protocol of Redis, and the theorems
-- about it. Text of the program is named by its path in the repository.
--
-- The program. A connection (internal/server/server.go) decodes requests (internal/protocol/resp),
-- passes a gate for clients that have not authenticated, finds the handler of the command by name
-- (internal/command/registry.go) and writes its reply. A handler (internal/command) checks its
-- arguments, calls a store (internal/datastructure) and appends an entry to the append-only file
-- (internal/persistence/aof.go). At its start the server loads a snapshot (rdb.go) and then replays
-- the file through the same handlers; from time to time it rewrites the file from the stores.
--
-- Which file models what.
--   Base: Boolean tests, lists, bytes, integers and maps that the others share. A string is a list
--     of bytes (Str); a Go map is an association list with one entry for each key (IsMap), and the
--     order of a range over it is the order of the list.
--   Clock, Decimal: what the source uses of `time` and `strconv`. A time is a number of nanoseconds
--     since the Unix epoch; `seconds` keeps the wrap-around of int64.
--   Deque: deque.go. A method gives `none` where Go panics (an index out of range). Deque.Repr says
--     which list a ring stands for.
--   Item, Dict, SetStore, HashStore, ListStore: common.go, dict.go, set.go, hashmap.go, list.go; one
--     function for each method, from the store to its result and the store after it. Dict.View is
--     what a client can see of a map of items at a time, ListStore.Refine the list that each key
--     stands for.
--   Resp: resp.go. The decoder works on the bytes that the reader still holds; `panicked` is a run-
--     time panic, `failed` an error.
--   Pubsub: pubsub.go. A Go channel is the number of a queue in the order in which they were made.
--   Aof: aof.go over the bytes of the file; Aof.Io: the calls that the system refuses, and Close.
--     The open handle and the file at the path are two things after a rewrite.
--   Command: the handlers. The contexts of the packages are one record `Db` that a handler takes and
--     gives back; `Env` holds the clock, the password, and sort.Slice, ParseFloat and
--     filepath.Match. Command.Strings, Sets, Sequences, Hashes, Channels and System are dict_, set_,
--     list_, hash_, pubsub_ and system_command.go. Command.Registry is registry.go, with every
--     command that it registers. Command.Logged is about the
--     entries that commands append, Command.Wellformed, Kept and Invariant say what the commands keep
--     of the stores, Frame and Readers which of them leave the strings alone.
--   Config: config.go, and the periods that the tickers of the server take from it.
--   Rdb: rdb.go over a disk that holds the bytes at each path. What encoding/gob makes of a
--     snapshot, and which calls the system refuses, are parameters.
--   Server: the rounds of handleConn, dispatchCommand, loadAOF and the MONITOR mode; Server.Persist:
--     loadRDB, the snapshot and the rewrite; Server.Lifecycle: New, Initialize and Close.
--   Server.Rounds: what a connection does in handleConn, pubsubMode and monitorMode between two
--     operations that it shares with the others. Server.Clients: the server with all its connections
--     and goroutines; such a part of one of them is an `Action`, and `Reach` is the relation of the
--     states that any sequence of actions leads to, in any order.
--   Server.Restart and Server.Rewritten: a server that is closed, or that has rewritten its log, and
--     one that starts from the files it left. Server.Session: what a client reads of what one has
--     written; Server.Pops: counts of a pop that stop the server.
--   A module Tests holds runs and the theorems at concrete inputs.
--
-- Bounds and fuel. The loop of readArray and the loop of Load run on fuel, the number of bytes plus
-- one: a value takes a byte at least, and that the fuel is never used up is proved. The loops over
-- counts and over lists are structural. `make` panics above 2^48 bytes (max_alloc), the address space
-- of the usual platforms; running out of memory below that is not modelled. Lengths and sizes are
-- taken to stay below 2^63, which 2^48 bytes of memory ensure.
--
-- What is not modelled. Locks: a method of a store is one step, so the gaps between the reads and the
-- writes of Expire, Get and their kin do not show. Goroutines take turns at the operations that they
-- share: an action is not interrupted. The listener and the bytes on the way through a socket: a
-- connection holds the bytes that have come and those that were sent. Close does not wait for the
-- connections. The handlers take the append of Aof, which succeeds; what a refused one does to the log
-- is in Aof.Io, and the snapshots take the disk's refusals. The format of encoding/gob, YAML and the
-- figures of the Go run-time that INFO prints are parameters. BGSAVE records the name of the file that
-- it saves to. ToUpper and ToLower are those of ASCII. cmd/valkeydb/main.go only puts the parts
-- together.
pub mod Base
pub mod Clock
pub mod Config
pub mod Item
pub mod Deque
pub mod Dict
pub mod SetStore
pub mod HashStore
pub mod ListStore
pub mod Decimal
pub mod Resp
pub mod Pubsub
pub mod Aof
pub mod Rdb
pub mod Command
pub mod Server
