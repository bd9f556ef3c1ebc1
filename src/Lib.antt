-- ===== src/Lib.antt =====
-- A verification library of vycor-cpp, the Clang LibTooling backend for C++ refactoring and analysis.
-- It models eight parts of the C++ sources. The indexer of `check` stores its entries in the global
-- index; the journal and the shard files carry them between runs and between processes; the worker
-- pool hands batches of files to processes, whose shards the call graph absorbs; a
-- bounded search finds paths of calls in it, and a breadth-first walk the callers that a change
-- affects; and names that are no UTF-8 pass through the index text of Utf8.h.
--
-- Utf8 (include/vycor/callgraph/Utf8.h): the reversible escape of index text. `must_escape` is the
-- condition in toIndexText, `to_loop`, `from_loop` and `needs_loop` its loops, with the length of the
-- text as fuel: a round takes a byte at least. llvm::json::isUTF8 is an argument. Utf8/Spec is an
-- independent encoder of scalar values; Decode, Loops, Reads, Laws and Lookup prove, Tests runs.
--
-- Checkpoint (src/check/Checkpoint.cpp, include/vycor/check/Checkpoint.h): Wire is the byte encoding
-- and the bounds-checked Reader (what is left, and `ok`); Entries, Encode and Decode are the entries
-- of include/vycor/check/GlobalIndex.h and encodeIndexPayload and decodeIndexPayload; Diagnostics is
-- TuOutcome, Diagnostic and their encoding. Journal is loadRecords, with the length of the data as
-- fuel, Journal/Record the three record calls, Journal/Open the call `open` and the queries. A file
-- is its bytes, a lock and the success of a system call are arguments, and a write is whole or
-- stops after some bytes. Journal/Session gives runs of calls their abstract meaning. Shard is the
-- worker shard files, whose callbacks are lists of what they are given. Identity is what a journal is
-- bound to: checkOptionsFingerprint and checkStampSetHash, with createChecks of src/ext/Extensions.cpp;
-- the version string of the build is an argument. Flags, Payload, Findings, Wire/Reads, and the files
-- below Journal, Shard and Identity that are not named here prove.
--
-- GlobalIndex (src/check/GlobalIndex.cpp, and capture and applyTo of Checkpoint.cpp): the index and
-- its operations; GlobalIndex/Entries are the keys and merges of entries, GlobalIndex/Types the type
-- relations. An unordered map is a list of its keys in the order of insertion; an interned string
-- is the string. The search for bases has two more than the number of edges as fuel: every edge is
-- pushed once. Invariant, Types/Bases and Restore prove, Tests runs.
--
-- WorkerPool (src/callgraph/WorkerPool.cpp, dispatchIsolated): Step is one step of a dispatch thread
-- or of the parent loop; a run is any sequence of them. The exit code of a worker, the marker in its
-- log and whether its shard can be read enter with the step. Requeue, Rules, Terminates, Places,
-- Accounts and Outcome prove, Tests runs. make_batches has the number of files as fuel: a batch
-- takes one at least.
--
-- CallGraph (src/callgraph/CallGraph.cpp, include/vycor/callgraph/CallGraph.h and StringInterner.h):
-- Interner, Nodes, Edges and Relations are the parts of the class, Refs the queries calleeRefsOf and
-- callerRefsOf, Absorb the merge of a shard; CallGraph puts them together, and CallGraph/Woven follows
-- the graph through any sequence of calls. An unordered map is an association list in the order of
-- insertion (CallGraph/Maps). `refs` wraps at 2^32, as does an id. transitiveClosure has two more than
-- the number of the relation's targets as fuel: a node is pushed once at most.
--
-- PathSearch (src/callgraph/PathSearch.cpp, include/vycor/callgraph/PathSearch.h): dfs and its parts,
-- the corridor and the search on ids, over a Graph, which holds the answers of the call graph;
-- PathSearch/Order is sortCallerRefsCanonically and the Graph of a CallGraph. The fuel of dfs is one
-- more than the depth limit, which bounds its calls (PathSearch/Fuel). The rounds of the corridor are
-- an argument. Answer is resolveIds and findCallerPaths on names, with its result. Chains says what
-- a right path is, Found proves that the search finds such, Order/Calls that it stands in the call
-- graph, Answer/Bounds the limits of a result; Complete, Corridor and Exhaustive prove that an uncut
-- search from one target finds every simple path, and Exhaustive/InGraph that a call graph and a
-- filter that admits every call meet what this takes. More rounds than there are callees reach the
-- whole corridor. Two targets may hide a path from each other: Tests has such a search.
--
-- Impact (src/impact/ImpactSearch.cpp, include/vycor/impact/ImpactSearch.h): the walk of findImpact
-- over the callers, the in-degree and a filter; Impact/Answer takes these from the call graph and
-- models findImpact itself. A node is queued once, so one more round than there are changed functions
-- and stored edges is enough (Impact/Exact). Waves, Steps, Exact, Seeds, Shortest and Callers prove.
-- Tests walks the graph of CallGraph/Sample.
--
-- Analyzer (src/check/Analyzer.cpp, runAnalysis): how phase 1 takes what was indexed for a file, in
-- this process or by a worker; Isolated compares the two.
--
-- Prelude passes on the names and lemmas that the parts share.
--
-- Not modelled: mutexes (each call is one step), error messages, the Clang AST walks, the spawning of
-- worker processes, snapshots, the control flow and channel indexes, the refactoring commands and the
-- command line.
mod Prelude
pub mod Utf8
pub mod Checkpoint
pub mod GlobalIndex
pub mod WorkerPool
pub mod CallGraph
pub mod PathSearch
pub mod Impact
pub mod Analyzer
