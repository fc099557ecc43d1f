-- ===== src/Lib.antt =====
-- Verification of vesc-mcp, a server that gives language models access to VESC packages: it reads
-- compiled `.vescpkg` packages and package sources, names its resources by URIs, and answers questions
-- from an index of source repositories under contracts that say which evidence an answer needs.
--
-- The parts, and the files that model them:
--
-- * crates/vesc-domain, packages. Domain/Wire models src/wire/mod.rs of that crate: `package_fields`
--   inflates a package and splits it into fields, `parse_vescpkg_fields` reads the fields by name,
--   `parse_lisp_imports` reads the table of imports inside `lispData`. Domain/Wire/Fields, Package,
--   Spine and Imports hold the proofs, against an encoder of the wire format. Domain/PkgDesc models
--   src/pkgdesc/parse.rs, with PkgDesc/Property, Accepts and Descriptor for its proofs; Domain/Legacy
--   models src/legacy/mod.rs and Domain/Layout models src/layout/mod.rs and src/validate/mod.rs. The
--   errors of all of them are in Domain/Error.
-- * crates/vesc-mcp-core/src/resources/uri.rs, resource names. Resources/Uri has the parser
--   `parse_resource_uri`, the printer `to_uri` and the percent-encoding of manifest paths;
--   Uri/Percent, Shape, RoundTrip and Canonical have the proofs.
-- * crates/vesc-knowledge-index/src/investigation.rs, evidence contracts. Knowledge/Investigation has
--   the types, Investigation/Contract `validate` and `extend`, Audit `audit` and `validate_answer`,
--   Historical the built-in contract; Extend, Coverage, Found and Complete have the proofs.
-- * crates/vesc-knowledge-index/src/planning.rs, proposals. Knowledge/Planning applies the proposals
--   of planners and critics through `extend` of the contract; Planning/Apply and Planning/Baseline
--   have the proofs.
-- * crates/vesc-knowledge-index/src/pipeline.rs, the pipeline. Knowledge/Pipeline has its records and
--   their comparisons, Pipeline/Round the steps of `run` and Pipeline/Run the rest: `prepare` applies
--   the proposals to the contract, each round of `rounds_loop` asks the acquirer for evidence, keeps
--   it within the budgets and audits all that is kept, and `finish` checks the answer to a complete
--   audit. Pipeline/Prepared, Kept, Finish, Rounds
--   and Answered have the proofs.
--
-- * crates/vesc-knowledge-index/src/reranking.rs, the candidates kept for each facet.
--   Knowledge/Reranking has `retain_per_facet`; Reranking/Filed and Reranking/Retained have the proofs.
-- * crates/vesc-mcp-core/src/resources/subscriptions.rs, subscriptions to resources.
--   Resources/Subscriptions has the set of URIs and its operations; Subscriptions/Served is about what
--   they answer after any requests.
-- * crates/vesc-knowledge-index/src/graph.rs, graph artifacts. Knowledge/Graph has the records and the
--   orders; Graph/Index builds the two adjacency indexes and Graph/Lookup reads them (`outgoing`,
--   `incoming`), Graph/Validate has `validate` and `GraphArtifact::new`, Graph/Chunks the graph of the
--   chunks of a snapshot, Graph/Codec and Graph/Decode the byte format. Position, Forward, Valid and
--   Outgoing have the proofs about the forward index; EdgeOrder, Collected, Reverse, Targets, Indexed
--   and Incoming those about the reverse index; Canonical is about the order of the input; Coded,
--   Grouped, Payload and RoundTrip are about reading what was written, and ReadBack, EdgeBack, ListsBack,
--   HeaderBack and Accepted about writing what was read.
-- * crates/vesc-knowledge-index/src/fusion.rs, fusion of two searches. Knowledge/Fusion joins, orders and
--   selects the candidates (`fuse_candidate_metadata`), Fusion/Hydrate loads their chunks
--   (`fuse_candidates`), Fusion/Expand packs the context around a passage; Fusion/Select,
--   Settled, Neighbors and Bounds have the proofs.
--
-- Prelude, Text and Map are shared. A Rust string is the list of its code points (Text), with its bytes
-- by the UTF-8 encoding of Text/Utf8; the methods of `str` that the code calls are in Text, Text/Split
-- and Text/Lines. A `BTreeMap` is an association list in the order of its keys (Map), a `Result` is
-- Prelude/Outcome, with `?` as the bind of a `do` block. Tests runs the definitions on concrete inputs.
--
-- Integers are natural numbers with their bounds written out; the signed 32-bit and 16-bit numbers of
-- the wire format are read by two's complement into the integers of Prelude/Int. A `usize` is taken to
-- be wide enough for a sum of two 31-bit numbers.
--
-- Loops are structural recursion over what they consume. The two loops of the wire format consume a
-- cursor in steps of more than one byte: the loop over the fields has the length of the cursor as
-- fuel, and each round consumes at least one byte, so it stops with an empty cursor; the loop over the
-- imports runs as often as the table says. The rounds of the pipeline count down from the budget.
--
-- In Graph a `ContentDigest` is the list of its bytes, a binary search in sorted nodes is the search for
-- the first match, an index out of range is the error `out_of_range` where it would panic, and paths
-- are those of Unix. A count of nodes or edges is taken to fit a `usize`.
--
-- Parameters stand for code outside the repository: SHA-256 in Graph, the floating-point
-- numbers and their operations in Fusion and Reranking, the zlib decompressor of `package_fields`, the
-- reading of a file in `read_vescpkg_fields`, the join of paths and the test whether a path is a file in
-- `validate_package_layout`, the derived `Debug` format of a facet in
-- `hard_coded_proposal` and of a relationship in `report`, and the acquirer, with a state of its own,
-- and the answerer of the pipeline, which are traits.
--
-- Not modelled: writing and opening the file of a graph artifact, the wording of error messages (an
-- error is a constructor with the values that its message shows), serialisation by serde, Git,
-- Tantivy, embedding models and the file system, the protocol and HTTP layers of
-- crates/vesc-mcp-server, the adapters, benchmarks and scripts, and the copy of fastembed under
-- vendor.
pub mod Prelude
pub mod Text
pub mod Map
pub mod Domain
pub mod Resources
pub mod Knowledge
pub mod Tests
