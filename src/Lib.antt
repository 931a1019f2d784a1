-- ===== src/Lib.antt =====
-- wkp keeps an agent's memory as markdown files in a git repository, with an index over them, and a
-- hub that syncs devices. The files below model the parts of it that carry the rules of the program.
--
--   Frontmatter  crates/wkp-core/src/frontmatter.rs: the header of a file. `Frontmatter.Types` has
--                its enumerations and records, `Lines` the splitting into lines, `Values` what one
--                value does, `Parse` the loop of `parse_block` and `parse`, `Render` `render`.
--   Merge        crates/wkp-core/src/merge.rs: the merge driver, which parses three files, merges
--                the frontmatter field by field and renders it, or keeps both versions.
--   Graph        crates/wkp-core/src/graph.rs: `Graph.Links` has `extract_wikilink_names`,
--                `Graph.Paths` has `normalize_ref`, on the components of a path.
--   Tier         crates/wkp-core/src/index/tier.rs: which items a session is given by itself.
--                `Tier.Compute` has `compute_tier`, `Tier.Civil` has `civil_from_days`.
--   Registry     crates/wkp-hub/src/connection_registry.rs: the open connections of the hub and the
--                closing of those of a revoked device. `Registry.Defs` has the operations,
--                `Registry.Stream` the stream that fails once its token is cancelled.
--   Usage        crates/wkp-core/src/usage/store.rs: counts and gauges of tool calls, in three rings of
--                coarser and coarser windows. `Usage.Store` has `apply`, `Usage.Record` `record` and
--                `Usage.Query` `query_window`.
--   Hub          crates/wkp-hub/src: `Hub.Store` has the tables of control_plane/schema.rs,
--                `Hub.Control` and `Hub.Grants` the statements of control_plane/mod.rs and grants.rs,
--                `Hub.Http` the route and the form values of http.rs, `Hub.Gate` its git requests and
--                `Hub.Enrol` its handlers of the device flow (RFC 8628). `Hub.Steps` lets all of
--                these happen in any order; `Hub.Front` is the dispatch of front_door.rs and
--                the handshake of hub_ca.rs; `Hub.Tables` has what the changes to the tables keep.
--                `Hub.Metrics` has the usage metrics of control_plane/usage.rs.
--   Promote      crates/wkp-cli/src/promote.rs: `Promote` has the arguments and the `auto` list,
--                `Promote.Disk` a file system whose operations may fail, `Promote.Run` `run_promote`.
--   Search       crates/wkp-core/src/index/search.rs: the token budget and the quoting of a query.
--   Git          crates/wkp-git/src: `Git.Changes` has the reading of `git status` (changes.rs),
--                `Git.Signers` that of signers (allowed_signers.rs).
--   Str, Base    what the program uses of Rust's `str`, and lists, options and maps.
--   Tests        runs of the model on concrete inputs.
--
-- Correspondence. A text is the list of its code points. The names follow the source's. A mutable
-- argument (`&mut Frontmatter`, the warnings, the registry behind its mutex) is passed on as a value.
-- `printable` stands for the table that `{:?}` reads to escape a text, which is not in the
-- repository. The registry's cancellation tokens are numbers in a store, and a map is an association
-- list. The clock is the number of seconds since the epoch. In the usage store the
-- floating-point operations are a parameter, and the rows of one metric stand for themselves, since
-- every statement has the metric in its condition.
--
-- A statement of the control plane is a function of the tables, and a list says which of the coming
-- statements Postgres fails; a transaction is one statement. `BIGSERIAL` is a counter that goes on
-- where an insertion fails. A handler of http.rs is a function of that state; the parsed body of a
-- request, the certificate authority, the pods, what /dev/urandom gives and the time are arguments.
-- Form values and the decoding of them are lists of bytes.
--
-- Bounds. `next_id` of the registry wraps at 2^64, and `tokens` is read as 32 bits. The loop of
-- `extract_wikilink_names` has the length of the text as fuel, which is enough since a round takes
-- four characters. The other loops follow the lines of the text, the connections or the fields.
--
-- A git request is sent to a pod ten times at most. The numbers of the
-- rows are not bounded.
--
-- Not modelled: git and its processes, the database behind the index, the queries of the usage
-- metrics and the listeners of the hub, the network, the cryptography, and the commands of the command line but `promote`.
pub mod Base
pub mod Frontmatter
pub mod Git
pub mod Graph
pub mod Hub
pub mod Merge
pub mod Promote
pub mod Registry
pub mod Search
pub mod Str
pub mod Tests
pub mod Tier
pub mod Usage
