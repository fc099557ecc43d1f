-- ===== src/Knowledge/Graph/Decode.antt =====
-- crates/vesc-knowledge-index/src/graph.rs: `encode` and `decode` of an artifact.
use vesc_mcp.Prelude.{
  ℕ, zero, suc, ◌+◌, ◌-◌, ◌^◌, Bool, true, false, ◌&&◌, List, [], ◌∷◌, ◌++◌, ltb, leb, ◌==◌, length,
  take, drop, Result, ok, guard, ◌>>=◌, ◌>>◌,
}
use vesc_mcp.Text.{Text, codes, text_eq}
use vesc_mcp.Text.Utf8.{Bytes}
use vesc_mcp.Knowledge.Graph.{
  ContentDigest, GraphNode, GraphEdge, GraphArtifact, GraphArtifactError, magic, max_nodes,
  max_edges, graph_artifact_schema_v1, u16_le, u32_le, truncated, checksum_mismatch, magic_mismatch,
  trailing_payload, unsupported_schema, invalid_offsets, invalid_reverse_offsets,
  node_count_overflows, edge_count_overflows, corpus_mismatch,
}
use vesc_mcp.Knowledge.Graph.Validate.{validate}
use vesc_mcp.Knowledge.Graph.Codec.{
  Read, take_bytes, read_array, read_u16, read_u32, bounded_count, read_node, read_edge, write_node,
  write_edge,
}

unfoldable pub write_nodes : List GraphNode → Result GraphArtifactError Bytes
write_nodes [] = ok []
write_nodes (node ∷ nodes) = do
  first ← write_node node
  rest ← write_nodes nodes
  ok (first ++ rest)

unfoldable pub write_edges : List GraphEdge → Result GraphArtifactError Bytes
write_edges [] = ok []
write_edges (edge ∷ edges) = do
  first ← write_edge edge
  rest ← write_edges edges
  ok (first ++ rest)

unfoldable pub write_numbers : List ℕ → Bytes
write_numbers [] = []
write_numbers (n ∷ ns) = u32_le n ++ write_numbers ns

-- `write_payload_to` into a vector.
unfoldable pub encode_payload : GraphArtifact → Result GraphArtifactError Bytes
encode_payload graph = do
  guard (ltb (length graph.nodes) (2 ^ 32)) node_count_overflows
  guard (ltb (length graph.edges) (2 ^ 32)) edge_count_overflows
  nodes ← write_nodes graph.nodes
  edges ← write_edges graph.edges
  ok (
      magic
      ++ u16_le graph_artifact_schema_v1.major
      ++ u16_le graph_artifact_schema_v1.minor
      ++ u32_le (length graph.nodes)
      ++ u32_le (length graph.edges)
      ++ graph.corpus_digest
      ++ nodes
      ++ write_numbers graph.forward_offsets
      ++ edges
      ++ write_numbers graph.reverse_offsets
      ++ write_numbers graph.reverse_edge_indices)

unfoldable pub read_nodes : ℕ → Bytes → Read (List GraphNode)
read_nodes zero reader = ok ([], reader)
read_nodes (suc n) reader = do
  node ← read_node reader
  nodes ← read_nodes n node.1
  ok (node.0 ∷ nodes.0, nodes.1)

-- `n` numbers that are at most `max`.
unfoldable pub read_counts : Text → ℕ → ℕ → Bytes → Read (List ℕ)
read_counts name max zero reader = ok ([], reader)
read_counts name max (suc n) reader = do
  number ← read_u32 reader
  value ← bounded_count number.0 max name
  rest ← read_counts name max n number.1
  ok (value ∷ rest.0, rest.1)

-- The edges of one source.
unfoldable pub read_group : ContentDigest → ℕ → Bytes → Read (List GraphEdge)
read_group source zero reader = ok ([], reader)
read_group source (suc n) reader = do
  edge ← read_edge source reader
  edges ← read_group source n edge.1
  ok (edge.0 ∷ edges.0, edges.1)

-- The range of each node is between two neighbours of the offsets.
unfoldable pub read_edges : List GraphNode → List ℕ → Bytes → Read (List GraphEdge)
read_edges (node ∷ nodes) (start ∷ end ∷ offsets) reader = do
  group ← read_group node.id (end - start) reader
  rest ← read_edges nodes (end ∷ offsets) group.1
  ok (group.0 ++ rest.0, rest.1)
read_edges _ _ reader = ok ([], reader)

-- From `last` on no offset is below the one before, and the final one is `edge_count`.
abbrev pub climbs_to : ℕ → ℕ → List ℕ → Bool
climbs_to edge_count last [] = last == edge_count
climbs_to edge_count last (offset ∷ offsets) =
    leb last offset && climbs_to edge_count offset offsets

abbrev pub offsets_are_valid : ℕ → List ℕ → Bool
offsets_are_valid edge_count [] = false
offsets_are_valid edge_count (offset ∷ offsets) = offset == 0 && climbs_to edge_count offset offsets

unfoldable pub decode_reverse_index : ℕ → ℕ → Bytes → Read (List ℕ × List ℕ)
decode_reverse_index node_count edge_count reader = do
  offsets ← read_counts (codes "reverse edge offset") edge_count (node_count + 1) reader
  guard (offsets_are_valid edge_count offsets.0) invalid_reverse_offsets
  indices ← read_counts (codes "reverse edge index") edge_count edge_count offsets.1
  ok ((offsets.0, indices.0), indices.1)

-- The magic number, the schema and the two counts.
unfoldable pub read_header : Bytes → Read (ℕ × ℕ)
read_header reader = do
  start ← take_bytes 8 reader
  guard (text_eq start.0 magic) magic_mismatch
  major ← read_u16 start.1
  minor ← read_u16 major.1
  guard (major.0 == graph_artifact_schema_v1.major) (unsupported_schema major.0)
  nodes ← read_u32 minor.1
  node_count ← bounded_count nodes.0 max_nodes (codes "nodes")
  edges ← read_u32 nodes.1
  edge_count ← bounded_count edges.0 max_edges (codes "edges")
  ok ((node_count, edge_count), edges.1)

abbrev pub is_at_end : Bytes → Bool
is_at_end [] = true
is_at_end (b ∷ bytes) = false

-- What `decode` does with the payload, up to its validation.
unfoldable pub decode_payload : Bytes → Result GraphArtifactError GraphArtifact
decode_payload payload = do
  header ← read_header payload
  let (node_count, edge_count) = header.0
  corpus_digest ← read_array header.1
  nodes ← read_nodes node_count corpus_digest.1
  offsets ← read_counts (codes "edge offset") edge_count (node_count + 1) nodes.1
  guard (offsets_are_valid edge_count offsets.0) invalid_offsets
  edges ← read_edges nodes.0 offsets.0 offsets.1
  reverse ← decode_reverse_index node_count edge_count edges.1
  guard (is_at_end reverse.1) trailing_payload
  ok (record {
    corpus_digest = corpus_digest.0;
    nodes = nodes.0;
    edges = edges.0;
    forward_offsets = offsets.0;
    reverse_offsets = reverse.0.0;
    reverse_edge_indices = reverse.0.1;
  })

abbrev pub min_length : ℕ
min_length = 8 + 2 + 2 + 4 + 4 + 32 + 4 + 4 + 32

pub record GraphArtifactSummary : Type 0 where
  pub bytes : ℕ
  pub node_count : ℕ
  pub edge_count : ℕ

module _ (sha256 : Bytes → ContentDigest) where
  unfoldable pub encode : GraphArtifact → Result GraphArtifactError Bytes
  encode graph = do
    validate sha256 graph
    payload ← encode_payload graph
    ok (payload ++ sha256 payload)

  unfoldable pub decode : Bytes → Result GraphArtifactError GraphArtifact
  decode bytes = do
    guard (leb min_length (length bytes)) truncated
    let payload_len = length bytes - 32
    guard (text_eq (sha256 (take payload_len bytes)) (drop payload_len bytes)) checksum_mismatch
    artifact ← decode_payload (take payload_len bytes)
    validate sha256 artifact
    ok artifact

  unfoldable pub encoded_digest : GraphArtifact → Result GraphArtifactError ContentDigest
  encoded_digest graph = do bytes ← encode graph; ok (sha256 bytes)

  -- `validate_path`, on the bytes of the file.
  unfoldable pub validate_file :
      Bytes → ContentDigest → ContentDigest → Result GraphArtifactError GraphArtifactSummary
  validate_file bytes expected_checksum expected_corpus = do
    guard (text_eq (sha256 bytes) expected_checksum) checksum_mismatch
    artifact ← decode bytes
    guard (text_eq artifact.corpus_digest expected_corpus) corpus_mismatch
    ok (record {
      bytes = length bytes;
      node_count = length artifact.nodes;
      edge_count = length artifact.edges;
    })
