-- ===== src/Lib.antt =====
-- GoPOSIX: the POSIX utilities in one binary, and the daemon that runs them over JSON-RPC.
--
-- The program is a set of utilities (pkg/*), each a `Run` on its arguments and streams that reads
-- its flags with `common.ParseFlags`, and a daemon (internal/daemon) that holds sessions and runs
-- the utilities for its clients. A client's request passes the limit on its size and the rate
-- limiter of its connection, then `Server.processRequest` finds the method. The methods of the
-- daemon itself work on the sessions; any other method is a utility, whose path is checked by
-- `common.SecurePath` against the directory of the session and whose output passes a
-- `LimitWriter`.
--
-- Files and the code that they model:
--   Base          shared lists, bytes, tests, maps, results; Base/FilePath is Go's path/filepath
--                 on Unix, Base/Text its strings and UTF-8, Base/Runes unicode/utf8, Base/Int64
--                 strconv and the arithmetic of int64, Base/Decimal its numbers as text
--   Flags         pkg/common/flags.go (`ParseFlags`, `parseLong`, `parseShort`) and
--                 pkg/common/compiled.go (`compile`, `lookupShort`, `lookupLong`). Flags/Lookup
--                 is about the tables, Flags/Spelling about the ways to write a flag,
--                 Flags/Positional about the operands, Flags/Steps and Flags/Total about the
--                 loop
--   Security      pkg/common/security.go (`SecurePath`, `resolveSymlinks`); Security/Confine is
--                 about where a path lies, Security/Fuel about the loop
--   Daemon/RateLimiter internal/daemon/ratelimit.go, and the limiter that `handleConn` of
--                 internal/daemon/server.go makes; RateLimiter/Bounds
--   Daemon/Limits pkg/common/io.go (`LimitWriter`) and `PerRequestLimitReader` of
--                 internal/daemon/server.go; Limits/Bounds
--   Daemon/Sessions internal/daemon/session.go, one function for each method of
--                 `SessionManager`; Sessions/Confine and Sessions/Jail are about the directory
--                 of a session, Sessions/Expiry about `cleanupLoop`
--   Daemon/Policy the interface `PathPolicy` of the sessions, filled with `secure_path`
--   Daemon/Rpc, Daemon/Commands, Daemon/Server `processRequest` of internal/daemon/server.go:
--                 the messages, the requests that run a command, and the whole of a request;
--                 Server/Replies and Server/State
--   Daemon/Batch  a round of `handleConn`, `handleBatch` and `handleSingleAsync` of the same
--                 file; Batch/Order is about the order of the workers, Batch/Messages about
--                 what is written for a message
--   Tools/Comm    pkg/comm/comm.go (`Compare`, `Format`, `Counts`); Comm/Columns
--   Tools/Uniq    pkg/uniq/uniq.go (`Run`, `extractCompareKey`); Uniq/Runs
--   Tools/Checksum pkg/sum/sum.go (`sumBSD`, `sumSysV`) and pkg/cksum/cksum.go (`posixCRC`);
--                 Checksum/Bounds
--   Tools/Cut     pkg/cut/cut.go (`parseList`, `inRange`, `Run`); Cut/Ranges is about lists and
--                 ranges, Cut/Fields about splitting a line and joining it again
--   Tools/Expand  pkg/expand/expand.go (`expandLine`, `Transform`, and the text of `expandRun`);
--                 Expand/TabStops
--   Tools/Unexpand pkg/unexpand/unexpand.go (`Transform`); Unexpand/Expanded is about expand
--                 behind it
--   Tools/Expr    pkg/expr/expr.go (`Eval` and its parsers) and pkg/common/cursor.go;
--                 Expr/Values is about the operators and functions, Expr/Grammar the expressions
--                 with their values and their tokens, Expr/Operators, Expr/Parsing,
--                 Expr/Operands, Expr/Places, Expr/Sizes and Expr/Refinement about the parsers
--                 on such tokens, Expr/Errors and Expr/Fuel about the loops, Expr/Failures about
--                 operands that it cannot take
--   Tools/Patch   pkg/patch/patch.go (`reverseHunk`, `applyHunk` and the loop of `Run`);
--                 Patch/Run is about `stripPath` and the rest of `Run`, Patch/Texts the lines of
--                 a hunk, Patch/Undo and Patch/Places the places of a hunk, Patch/Refused
--                 `alreadyApplied`, Patch/Counts the loop, Patch/Written the text that is
--                 written, Patch/Parse is `ParsePatch`, Patch/Scanner its scanner; Patch/Headers
--                 is about the header of a hunk
--   Tools/Tsort   pkg/tsort/tsort.go (the graph and the loop of `run`); Tsort/Counts is about
--                 the edges that are to come, Tsort/Rounds and Tsort/Order about the loops,
--                 Tsort/Build about the graph
--   Tools/TestCmd pkg/testcmd/testcmd.go (`Evaluate` and its parsers); TestCmd/Values is about
--                 the operators, TestCmd/Operands about few operands, TestCmd/Errors and
--                 TestCmd/Fuel about the loops
--   Tools/Diff    pkg/diff/diff.go (`Diff`); Diff/Hunks is `BuildHunks`, Diff/Generate
--                 `GenerateDiff` with what it calls. Diff/Furthest, Diff/Rows, Diff/Search and
--                 Diff/Runs are about the search, Diff/Script, Diff/Paths and Diff/Shortest
--                 about the script, Diff/Segments, Diff/Plain and Diff/Applied about the hunks
--                 and patch, Diff/Texts and Diff/BlankLines about -b, -w and -B, Diff/Report
--                 about the two results. Diff/Print is the unified text that `run` prints,
--                 Diff/Reading, Diff/Scanned and Diff/Readable about `ParsePatch` on it
--   Tools/Fold    pkg/fold/fold.go (`Fold`); Fold/Widths is about the lines of the result
--   Each folder's Tests runs the definitions on concrete inputs and holds the examples of the
--                 theorems.
--
-- How state is modelled: a struct is a record and a method a function from it to the record
-- behind the call and its results. The mutex of the sessions makes each method one step, so that
-- concurrent requests are sequences of calls in any order (`Sessions.run`). A batch is a list of
-- turns of its workers (`Batch.work_all`), each of them one whole request. The clock, random ids,
-- the JSON codec, package regexp, the shell and the registered commands are arguments. So is the
-- file system, which in the server is part of the state (`Files`): a script or a command goes
-- from the files before it to those behind it, and what is checked next is checked in the latter.
-- An index into a slice is the suffix that starts there (but in `diff`, which keeps the indices),
-- and a map is an association list or a function. `List` gives the sessions in the order of the
-- association list, where Go's order is not fixed.
--
-- Bounds and fuel: the loop of `ParseFlags` has one round for each argument, which is always
-- enough, as a round takes an argument at least. The loop of `resolveSymlinks` climbs to the
-- parent of a path, for `length path + 2` rounds, which is enough as the parent of an absolute
-- path is the root or shorter; running out would be an error of its own. The loop of `cksum` over
-- the length has eight rounds, one for each octet of an `int`. The loops of `expr` and `test`,
-- and their calls of `parsePrimary` within each other, have one round for each token and one
-- more, as each takes a token at least. The loop of `tsort` has a round for each node and each
-- edge, as a round takes a node from the queue and one is queued for an edge at most. The
-- searches of `patch` have as many rounds as the source's. The search of `Diff` has a round for
-- each number of changes up to the lines of both files, where deleting and inserting all of them
-- is one way; `BuildHunks` and `filterBlankLineChanges` have one for each item of the script, as
-- each takes an item at least. The loops of `unexpand` have one for each rune and for each
-- column, that of `fold` one for each rune, as each break takes one at least. Words of 16, 32
-- and 64 bits wrap where the source's do. The rate limiter counts in fractions of a token in
-- place of float64, so its rounding is not modelled.
--
-- Not modelled: sockets, the worker pool and shutdown; metrics, logs and process titles; the
-- `data` of an error; the test for a Windows volume in `SecurePath`; the reading of files and the
-- printing of the utilities, but for the unified text of `diff`; a hunk whose header has negative
-- numbers, where it is applied; the directories of `diff`; the utilities that are not named
-- above.
pub mod Base
pub mod Flags
pub mod Security
pub mod Daemon
pub mod Tools
