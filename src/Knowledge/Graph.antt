-- ===== src/Knowledge/Graph.antt =====
-- crates/vesc-knowledge-index/src/graph.rs: the records of a graph artifact and the order of its edges.
pub mod Index
pub mod Lookup
pub mod Validate
pub mod Codec
pub mod Decode
pub mod Chunks
pub mod Position
pub mod Forward
pub mod Valid
pub mod Outgoing
pub mod Coded
pub mod Grouped
pub mod EdgeOrder
pub mod Collected
pub mod Reverse
pub mod Targets
pub mod Indexed
pub mod Incoming
pub mod Canonical
pub mod Payload
pub mod RoundTrip
pub mod ReadBack
pub mod EdgeBack
pub mod ListsBack
pub mod HeaderBack
pub mod Accepted
use vesc_mcp.Prelude.{
  ℕ, ◌+◌, ◌*◌, ◌/◌, ◌%◌, ◌^◌, Bool, List, [], ◌∷◌, ◌++◌, Ordering, compare, then_cmp, bool_cmp,
}
use vesc_mcp.Text.{Text, codes, text_cmp}
use vesc_mcp.Text.Utf8.{Bytes, as_bytes, byte_len}
use vesc_mcp.Knowledge.Investigation.{SchemaVersion}

-- The 32 bytes of a SHA-256 digest, which `Ord` compares from the first byte on.
abbrev pub ContentDigest : Type 0
ContentDigest = Bytes

abbrev pub graph_artifact_schema_v1 : SchemaVersion
graph_artifact_schema_v1 = record { major = 1; minor = 0 }

abbrev pub magic : Bytes
magic = codes "VESCGRPH"

abbrev pub max_nodes : ℕ
max_nodes = 10_000_000

abbrev pub max_edges : ℕ
max_edges = 50_000_000

abbrev pub max_string_bytes : ℕ
max_string_bytes = 0x10_0000

-- The contract errors of the source, one for each message; I/O errors do not occur in memory.
pub data GraphArtifactError : Type 0 where
  node_count_exceeds_limit duplicate_chunk adjacency_outside : GraphArtifactError
  size_exceeds_limits nodes_not_sorted identity_mismatch : GraphArtifactError
  forward_not_canonical reverse_not_canonical : GraphArtifactError
  source_not_node target_not_node evidence_not_node : GraphArtifactError
  crosses_scope invalid_evidence_span empty_edge_metadata edges_not_canonical : GraphArtifactError
  truncated checksum_mismatch corpus_mismatch magic_mismatch trailing_payload : GraphArtifactError
  unsupported_schema : ℕ → GraphArtifactError
  invalid_offsets invalid_reverse_offsets invalid_flag : GraphArtifactError
  node_count_overflows edge_count_overflows : GraphArtifactError
  not_grouped offset_overflows reverse_exceeds_wire span_exceeds_limits : GraphArtifactError
  invalid_provenance node_field_too_large string_too_large not_utf8 : GraphArtifactError
  count_exceeds : Text → GraphArtifactError

pub record GraphNode : Type 0 where
  pub id : ContentDigest
  pub repository : Text
  pub revision : Text
  pub path : Text
  pub start_line : ℕ
  pub end_line : ℕ
  pub start_byte : ℕ
  pub end_byte : ℕ
  pub symbol : Text
  pub kind : Text

pub record GraphEvidence : Type 0 where
  pub node : ContentDigest
  pub start_line : ℕ
  pub end_line : ℕ
  pub start_byte : ℕ
  pub end_byte : ℕ

pub record GraphEdge : Type 0 where
  pub source : ContentDigest
  pub target : ContentDigest
  pub evidence : GraphEvidence
  pub relation : Text
  pub extractor : Text
  pub confidence : ℕ
  pub verified : Bool

pub record GraphArtifact : Type 0 where
  pub corpus_digest : ContentDigest
  pub nodes : List GraphNode
  pub edges : List GraphEdge
  pub forward_offsets : List ℕ
  pub reverse_offsets : List ℕ
  pub reverse_edge_indices : List ℕ

-- `to_le_bytes` of a u16, a u32 and a u64.
abbrev pub u16_le : ℕ → Bytes
u16_le n = (n % 256) ∷ (n / 256 % 256) ∷ []

abbrev pub u32_le : ℕ → Bytes
u32_le n = (n % 256) ∷ (n / 256 % 256) ∷ (n / 256 / 256 % 256) ∷ (n / 256 / 256 / 256 % 256) ∷ []

abbrev pub u64_le : ℕ → Bytes
u64_le n = u32_le n ++ u32_le (n / 2 ^ 32)

-- The length of a text and the text, as they enter an identity.
abbrev identity_field : Text → Bytes
identity_field value = u64_le (byte_len value) ++ as_bytes value

abbrev pub identity : Text → Text → Text → ℕ → ℕ → ℕ → ℕ → Text → Text → Bytes
identity repository revision path start_line end_line start_byte end_byte symbol kind =
    (codes "vesc-graph-node-v1" ++ 0 ∷ [])
    ++ identity_field repository
    ++ identity_field revision
    ++ identity_field path
    ++ identity_field symbol
    ++ identity_field kind
    ++ u32_le start_line
    ++ u32_le end_line
    ++ u32_le start_byte
    ++ u32_le end_byte

-- `sha256` is the digest function of the sha2 library.
module _ (sha256 : Bytes → ContentDigest) where
  -- `GraphNode::new`
  unfoldable pub new_node : Text → Text → Text → ℕ → ℕ → ℕ → ℕ → Text → Text → GraphNode
  new_node repository revision path start_line end_line start_byte end_byte symbol kind = record {
    id =
        sha256
          (identity repository revision path start_line end_line start_byte end_byte symbol kind);
    repository = repository;
    revision = revision;
    path = path;
    start_line = start_line;
    end_line = end_line;
    start_byte = start_byte;
    end_byte = end_byte;
    symbol = symbol;
    kind = kind;
  }

abbrev pub metadata_cmp : GraphEdge → GraphEdge → Ordering
metadata_cmp left right = then_cmp (text_cmp left.evidence.node right.evidence.node) (
    then_cmp (compare left.evidence.start_line right.evidence.start_line) (
      then_cmp (compare left.evidence.end_line right.evidence.end_line) (
        then_cmp (compare left.evidence.start_byte right.evidence.start_byte) (
          then_cmp (compare left.evidence.end_byte right.evidence.end_byte) (
            then_cmp (text_cmp left.relation right.relation) (
              then_cmp (text_cmp left.extractor right.extractor) (
                then_cmp (compare left.confidence right.confidence)
                  (bool_cmp left.verified right.verified))))))))

unfoldable pub edge_cmp : GraphEdge → GraphEdge → Ordering
edge_cmp left right =
    then_cmp (text_cmp left.source right.source)
      (then_cmp (text_cmp left.target right.target) (metadata_cmp left right))

-- The key of an edge in `validate_edges`: the indexes of its ends and the edge.
abbrev pub EdgeKey : Type 0
EdgeKey = ℕ × ℕ × GraphEdge

unfoldable pub key_cmp : EdgeKey → EdgeKey → Ordering
key_cmp (source, target, edge) (source', target', edge') =
    then_cmp (compare source source') (then_cmp (compare target target') (metadata_cmp edge edge'))
