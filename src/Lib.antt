-- ===== src/Lib.antt =====
-- uwu_context_db: the stores of the context database, their watchers, and the data they work on.
--
-- The program keeps entries (`ContextEntry`) under addresses (`ContextUri`, `uwu://tenant/…`) and
-- versions them as in a version-control system: a commit holds its parents and a snapshot from
-- address to serialised entry; a scope, an address itself, has a HEAD, branches and tags.
-- `MemoryVersionStore` of crates/context-db-testkit/src/version.rs implements the trait
-- `VersionStore` of crates/context-db-version/src/lib.rs in memory, and is the reference for the
-- stores on databases.
--
-- Files:
--   Prelude      names of the libraries, tests on numbers and texts, lists, maps, results
--   Error        crates/context-db-core/src/error.rs and `VersionError`
--   Uri          crates/context-db-core/src/uri.rs: parsing, parents, joins, printing
--   Content      crates/context-db-core/src/model.rs: entries and content types
--   Version      crates/context-db-version/src/model.rs and the types of its lib.rs; Version/Walk has
--                the worklist loops over the graph of commits, with lemmas on them
--   Store        MemoryVersionStore: State its fields, Commit, Branches, Read, Merge, Diff, Pick
--                (cherry_pick, rebase), Rewrite (squash, gc), Reports its operations by name
--   Store/Integrity, Store/Reachable   references between stored values, and runs of the operations that
--                Reachable names: not `gc`, and `commit_on_parent` of stored commits only
--   Store/Sync   HEAD and the checked-out branch
--   Version/Temporal, Version/Causal   the temporal index and the causal graph of the same model.rs
--   Watch        crates/context-db-core/src/watch.rs: Event, Hub (with Hub/Race for concurrent emits),
--                Stream (recv and its channel) and Watched (the store that announces its changes)
--   Memory       MemoryContextStore of crates/context-db-testkit/src/lib.rs: Pages (with PageRequest of
--                crates/context-db-core/src/store.rs), Entries, Scans (ls, find and the scans) and
--                Graph
--   Security     crates/context-db-core/src/write_security.rs: the redaction of a text
--   Market       crates/context-db-marketplace/src/voting.rs
--   Examples     small stores, runs and graphs, and the theorems at them
--
-- How the code is modelled. The six locked maps are fields of `Store`. An operation takes its locks
-- one after another and never waits for another task, so it is one function from the state to a
-- result and a state; where it fails after a write, the state it leaves is the written one.
-- Interleaved calls inside one operation are not modelled. A `HashMap` is an association list with
-- one pair for a key; the order of an iteration is the list's. Fresh UUIDs and the clock are
-- arguments `id` and `now` of an operation; that an id is fresh is a hypothesis where a theorem
-- needs it. A UUID, a time stamp, the bits of a float and a JSON value stand as a number or a text,
-- since modelled operations only copy them, and compare time stamps. A text is the list of its code
-- points. The type `External` holds what other libraries supply: serde's reader and printer of
-- entries, the texts of an id and of a trigger, and chrono's formats.
--
-- A watch stream reads a broadcast channel of another library. What the channel answers is a list of
-- `Reply`: the next event, a lag with the history that the stream then reads, or the end. `IsFeed`
-- says what such a channel answers over a log of numbered events. `Watch.Hub.emit` is a whole call;
-- `Watch.Hub.Race.Step` has its three steps one by one, interleaved with those of other calls.
-- `ContentRepo` is the interface that a watched store needs of its inner store. The place at which the
-- standard library's binary search puts one of several equal times is unspecified, so the search is a
-- parameter of the temporal index with the documented behaviour, `IsBinarySearch`, as a hypothesis.
-- The redaction of a whole entry, whose texts go through Security, the reader of UTF-8, the verifier of
-- signatures and the reputation of voters are parameters. The weight of a vote is the bit pattern of its
-- float.
--
-- Machine integers. The checkpoints of the hub, the revisions of the graph (u64) and the counts of
-- votes (u32) wrap, as in a build without overflow checks; a build with them panics there instead. A
-- number of values that are held in memory, as the length of a list of versions, stands as it is.
--
-- Fuel. The loops of `is_ancestor` and `merge_base` are `find` and `collect` of Version/Walk on fuel
-- `enough`, the number of parent links of the stored commits and two more: each round takes an id
-- from the worklist, and a link enters it once, when its commit is first visited, so the fuel
-- suffices for every graph, cyclic ones included. The loop of `log` has its own bound, 20 where none
-- is given. The walks of the causal graph have the same fuel over its own edges, with the length of the
-- first worklist added for `effects`. `pages` reads a list page by page; one page more than there are
-- items is enough.
--
-- Not modelled: `knowledge_merge`, which calls a CRDT library and a contradiction detector,
-- `semantic_diff`, which returns a constant; the messages of serde's errors; `grep`, `tree`,
-- `list_tenants` and the traversal of MemoryContextStore; the walk of the redaction over payloads
-- and JSON values; scores of votes; the other crates, which are input and output, language models or
-- floating-point scores around the store.
pub mod Prelude
pub mod Error
pub mod Uri
pub mod Content
pub mod Version
pub mod Store
pub mod Watch
pub mod Memory
pub mod Security
pub mod Market
pub mod Examples
