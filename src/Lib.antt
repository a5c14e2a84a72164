-- ===== src/Lib.antt =====
-- Verification of claw-branch: branches of a workspace's SQLite database, their diffs and merges.
--
-- The program. A workspace has a registry database (src/branch/store.rs) with one row per branch; a
-- branch is a copy of a SQLite file with three entity tables. The lifecycle (src/branch/lifecycle.rs)
-- forks a live branch under a valid name and a fresh slug (src/branch/naming.rs), records it in the
-- registry and in the graph of branches (src/dag/graph.rs), and moves it between its statuses. The
-- diff (src/diff/extractor.rs) compares the rows of two branches as JSON objects. The merge
-- (src/merge/three_way.rs) diffs base against both sides, detects conflicts field by field
-- (src/merge/conflict.rs), resolves them by a strategy (src/merge/resolver.rs) and writes the
-- result to ours in one transaction (src/merge/applier.rs).
--
-- The files. Shared holds the common lists, texts and dictionaries; a text is the list of its code
-- points. Failure is src/error.rs. Naming is src/branch/naming.rs: validate, slugify, make_unique,
-- is_reserved, namespace and short_name keep their names; its children hold the theorems on the
-- validator (Accepted) and on namespaces (Segments), on slugs (Trim, Slug) and on unique slugs (Unique).
-- Types is src/types.rs, Types.Storage the strings it is stored as. Json is the part of serde_json's
-- data that the crate walks: values, sorted maps, numbers. Floats is the interface of the doubles.
-- Database is a branch's file as the crate's SQL sees it: rows by id for each table; which columns a
-- table has, what a column gives back of the bound text and which rows are accepted are parameters
-- (the record Sqlite). Diff is src/diff/extractor.rs and score_divergence of src/diff/scorer.rs;
-- Fields and Entities hold its theorems; Diff.Scorer is the rest of src/diff/scorer.rs.
-- Merge.Conflict, Merge.Union, Merge.Resolver, Merge.Applier and Merge.ThreeWay are the files of
-- src/merge/; merge and preview work on a dictionary from paths to databases, so that a merge's effect
-- on every file can be stated.
-- Registry is src/branch/store.rs with its three tables as lists of rows. Dag builds the graph of
-- src/dag/graph.rs; Dag.Search is the loop of its walks, Dag.Query its queries, Dag.Depth the
-- breadth-first levels of depth_of, Dag.Traversal is src/dag/traversal.rs, Dag.Serializer is
-- src/dag/serializer.rs with its two tables. petgraph's neighbour lists, cycle test and topological
-- sort are parameters, with their documented answers as hypotheses. Lifecycle is
-- src/branch/lifecycle.rs: each transition is a function of the registry; fork and create_trunk also
-- change the graph. Commit is src/commit/: Cherry the picks, Validator the checks, Commit itself the
-- transaction of src/commit/selective.rs and its log entry, with the errors of tx.commit and of the log's
-- INSERT as parameters (the record Faults). Config is src/config.rs. Metrics is
-- src/metrics/, Sandbox is src/sandbox/ with the agent as a parameter. Gc is the part of
-- src/snapshot/gc.rs that works on the registry. Engine holds the merge calls of src/engine.rs and
-- Engine.Calls the others, on a workspace: registry, graph and files. Guarded is src/guarded.rs with
-- the guard as a parameter. Examples holds runs and instances.
--
-- State and errors. Operations that change state take it and return it beside their result; a
-- failing call returns the state that it leaves. Results are BranchResult, and `?` is the bind of
-- Failure. A transaction that fails gives back the database that it started from.
--
-- Bounds and fuel. The loop of make_unique runs on as many steps as there are slugs, plus one: so
-- many candidates cannot all be taken. A walk over the graph has one step for each node, plus one for
-- its start: a node becomes pending once. The recursion over paths is as deep as there are nodes.
-- Kahn's loop has a step for each node and each edge: a child is queued by an edge of its own. The
-- digits of a counter run on the number itself. The similarity of two values has a step for each object
-- inside another. Counters are natural numbers; sums are written as
-- the source writes them.
--
-- Not modelled: file copies, hashes and PRAGMA checks of src/snapshot/ (the lifecycle takes their
-- answers as inputs), the opening and migration of databases, logging, the wiring
-- and the scheduler of src/engine.rs, its calls simulate and dag_dot, remove_node of
-- src/dag/graph.rs (what it leaves of the indices is petgraph's), text output (src/dag/dot.rs,
-- src/diff/formatter.rs). The entity tables are those of one schema in every file, without a UNIQUE
-- column beside the id, so that INSERT OR REPLACE replaces the row of the id alone; a query that fails
-- by itself, a NULL id and a row that is no JSON are left out of fetch_all_entities. A hash map or set
-- is walked in the order of insertion, where the source leaves the order open: what is stated of such
-- a list is its members, or the list up to a permutation (Merge.ThreeWay.Order).
pub mod Shared
pub mod Failure
pub mod Naming
pub mod Json
pub mod Types
pub mod Floats
pub mod Database
pub mod Diff
pub mod Merge
pub mod Registry
pub mod Dag
pub mod Lifecycle
pub mod Examples
pub mod Gc
pub mod Engine
pub mod Commit
pub mod Guarded
pub mod Config
pub mod Metrics
pub mod Sandbox
