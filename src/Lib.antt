-- ===== src/Lib.antt =====
-- wasi: the WASI Preview 1 host of internal/core, as it runs on Linux, and the streams of the
-- Preview 2 host, p2.
--
-- The program gives a WebAssembly guest the 46 functions of wasi_snapshot_preview1. A guest has a
-- table of descriptors (internal/core/fs.go, `fsState`); a handler takes the parameter words of a
-- call, the guest's memory and the table, asks the operating system, and leaves an error code.
--
-- The files, by the parts of the program:
--   Abi          internal/core/abi.go and abi_unix.go: codes, `errno`, rights, `filetype`
--   Memory       internal/core/core.go and fs.go: `le32`, `putLe32`, `putLe64`, `validMemoryRange`
--                and `guestBytes`; Memory/Strings has `writeCounts` and `writeStrings`,
--                Memory/Iovecs has `iovecs`
--   Host         the calls of the operating system and of Go's os, io and crypto/rand, with the
--                flags of Linux in Host/Linux
--   Clock        internal/core/clock.go
--   Config       the structs `Config` and `Preopen` of internal/core/core.go; Config/Resolve is
--                `configFromPluginConfig` and `cloneConfig`, Config/Surrogates and Config/Shape are
--                `validateConfigSurrogateEscapes` and `validateConfigJSON`; what is proved of them
--                stands in Config/Bounded, Config/Escapes and Config/Shape/Complete, against
--                Config/Shape/Grammar
--   Text         Go's package path and unicode/utf8, as far as they are used
--   Under        the walk of p2/path.go and p2/path_linux.go: Preview 2's paths below a directory.
--                Under/Confined says where it leads, Under/Ends, over Under/Names and Under/Falls,
--                that it ends
--   Table        `fdEntry`, `fsState`, `require` and `alloc` of internal/core/fs.go; Table/Map is
--                the map of descriptors, Table/Initial is `makeFS`
--   Exec         the steps that handlers are made of, and what such steps keep (Exec/Keeps),
--                give (Exec/Gives) and need (Exec/Needs)
--   Fd           the fd_* handlers of internal/core/core.go and fs.go: Fd/Io (`fdWrite`, `fdRead`),
--                Fd/At (`readAt`, `writeAt`), Fd/Manage, Fd/Stat, Fd/Times, Fd/Readdir; what they
--                share is in Fd/Entry; what handlers do to the table in Fd/Closing and Fd/Lowering
--   Paths        `pathEscapes`, `openParent` on texts, and `renameLeaf` of internal/core/fs.go
--   Walk         `openAt` and `openAtWalk` of internal/core/fs_linux.go
--   PathHandlers the path_* handlers of internal/core/fs.go, with the host parts of fs_linux.go
--   Process      arguments, environment, clocks, randomness, exit and the stubs
--   Poll         internal/core/poll.go and poll_unix.go: subscriptions, readiness and time; Poll/Wait
--                has `waitSubscriptions`, Poll/Oneoff `pollOneoff`; what a poll keeps, counts and
--                needs no wait for in Poll/Sound, Poll/Counts and Poll/AtOnce
--   Dispatch     `handlerID.call` of internal/core/core.go; Dispatch/Authority has what
--                a call that succeeds had of the table, handler by handler in Dispatch/Required
--   Callers      `fsGuard`, `stateFor`, `closeInstance` and `closeAll` of internal/core/fs.go: which
--                state a caller has
--   Imports      the table of imports of internal/core/core.go and the callbacks; Imports/Arity has
--                the parameters of handlers, Imports/Bound which of them are bound, Imports/Isolation
--                what a call does to other instances
--   Sound        the invariant of a caller's table and memory: one file of rules for each group
--                of handlers, Sound/Initial for `makeFS`, Sound/Run for
--                sequences of calls, Sound/ReadOnly for configurations that only read
--   Streams      p2/io.go: Streams/Input (`asyncInput`), Streams/Output (`outputAdapter`) with what
--                it promises in Streams/Output/Sink, Streams/Probe (`pollSafeOutput`),
--                Streams/Permits (the functions of `hostState`), over runs of calls in
--                Streams/PermitRuns and Streams/Quotas
--   Examples     runs on a small host, and the theorems at concrete inputs
--
-- How the code is read. A handler is a function of its parameter words and of a state (table,
-- memory, world of the host), and ends with a value, a code, or the exit of the program. The source
-- threads a variable `code` and guards each step by `code == 0`; here a failing step ends the do
-- block. Where the source goes on after a code (cleaning up, retrying), the step is attempted. What
-- was written before an error stays written. An entry of the table is written through a pointer in
-- the source, and written back to its slot here. A Go string is its list of bytes, an error is the
-- chain of values that errors.Is compares with, a file is its descriptor, and a time is its
-- UnixNano() as a 64-bit word.
--
-- The stream adapters of p2 run beside goroutines. The end of a goroutine's call on its reader or
-- writer is an event, and a theorem on them is about every sequence of events: a call holds the
-- adapter's lock, so it is one event, and two where it waits in between.
--
-- The host is a parameter: a record of calls on a world that only the host knows. Nothing is assumed
-- of what a call returns; other processes show in the answers.
--
-- Bounds. Parameters are 64-bit words, cut to 32 and 16 bits where the source does so, and sums wrap
-- where they do in Go. The search for a free descriptor has as many rounds as the table has
-- entries: each round that does not end it meets another one. The listing of a directory has a
-- round for each byte of the guest's buffer and one more: each round but the last fills a byte.
-- Links are followed 40 times, as in the source. The walk of p2/path.go is given a number of passes,
-- each with fewer links left than the one before, or as many and fewer parent steps. A poll waits as
-- long as its host makes it: it is given a number of rounds, and is unfinished where it would need
-- more. The check of a configuration's JSON is given two rounds for each token and two more.
--
-- Not modelled: `waitOSFiles` (internal/core/poll_unix.go) and the other waits that run beside each
-- other in a poll, which are one call of the host; Go's JSON decoder, so that the check of a
-- configuration starts at its tokens and the rest at the struct; the metadata and documentation of
-- the plugin; of the Preview 2 package all but its streams and its walk of paths; the hosts of
-- Darwin and Windows. The lock that a caller's state is held under while a handler runs shows in
-- that a call is one step.
pub mod Prelude
pub mod Abi
pub mod Memory
pub mod Host
pub mod Table
pub mod Config
pub mod Clock
pub mod Exec
pub mod Fd
pub mod Paths
pub mod Text
pub mod Walk
pub mod Under
pub mod Process
pub mod PathHandlers
pub mod Poll
pub mod Dispatch
pub mod Callers
pub mod Imports
pub mod Sound
pub mod Streams
pub mod Examples
