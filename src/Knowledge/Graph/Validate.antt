-- ===== src/Knowledge/Graph/Validate.antt =====
-- crates/vesc-knowledge-index/src/graph.rs: the checks of an artifact, and the artifact of nodes and edges.
use vesc_mcp.Prelude.{
  ℕ, Bool, true, false, not, ◌&&◌, ◌||◌, List, [], ◌∷◌, Option, none, some, ltb, ◌==◌, any, all,
  length, Result, ok, guard, ◌>>=◌, ◌>>◌, ok_or, get_elem?, is_lt, strictly_sorted,
}
use vesc_mcp.Text.{Text, codes, text_eq, text_cmp}
use vesc_mcp.Text.Split.{split}
use vesc_mcp.Text.Utf8.{Bytes, byte_len}
use vesc_mcp.Map.{Map, get}
use vesc_mcp.Knowledge.Investigation.Contract.{is_blank}
use vesc_mcp.Knowledge.Investigation.Audit.{sort}
use vesc_mcp.Knowledge.Graph.{
  ContentDigest, GraphNode, GraphEdge, GraphArtifact, GraphArtifactError, EdgeKey, new_node,
  edge_cmp, key_cmp, max_nodes, max_edges, max_string_bytes, size_exceeds_limits, nodes_not_sorted,
  identity_mismatch, forward_not_canonical, reverse_not_canonical, source_not_node, target_not_node,
  evidence_not_node, crosses_scope, invalid_evidence_span, empty_edge_metadata, edges_not_canonical,
  invalid_provenance, node_field_too_large,
}
use vesc_mcp.Knowledge.Graph.Index.{node_indexes, build_forward_index, build_reverse_index}

-- `Path::is_absolute` on Unix.
abbrev pub is_absolute : Text → Bool
is_absolute [] = false
is_absolute (c ∷ path) = c == b'/'

-- `components().any(|component| matches!(component, Component::ParentDir))` on Unix.
abbrev pub has_parent_dir : Text → Bool
has_parent_dir path = any (text_eq (codes "..")) (split b'/' path)

abbrev pub field_fits : Text → Bool
field_fits value = not (ltb max_string_bytes (byte_len value))

unfoldable pub validate_node : GraphNode → Result GraphArtifactError (Unit {0})
validate_node node = do
  guard
      (not (
        is_blank node.repository
        || is_blank node.revision
        || is_blank node.path
        || is_blank node.symbol
        || is_blank node.kind
        || is_absolute node.path
        || has_parent_dir node.path
        || ltb node.end_line node.start_line
        || ltb node.end_byte node.start_byte))
      invalid_provenance
  guard
      (all field_fits (node.repository ∷ node.revision ∷ node.path ∷ node.symbol ∷ node.kind ∷ []))
      node_field_too_large

-- The nodes at the ends and in the evidence of an edge have one repository and one revision.
abbrev pub same_scope : GraphNode → GraphNode → GraphNode → Bool
same_scope source target evidence =
    text_eq source.repository target.repository
    && text_eq source.revision target.revision
    && text_eq source.repository evidence.repository
    && text_eq source.revision evidence.revision

abbrev pub span_is_valid : GraphEdge → Bool
span_is_valid edge = not (
    ltb edge.evidence.end_line edge.evidence.start_line
    || ltb edge.evidence.end_byte edge.evidence.start_byte)

abbrev pub has_metadata : GraphEdge → Bool
has_metadata edge = not (is_blank edge.relation || is_blank edge.extractor)

abbrev pub is_after : Option EdgeKey → EdgeKey → Bool
is_after none key = true
is_after (some prior) key = is_lt (key_cmp prior key)

-- The node at an index that the map of the nodes gave.
abbrev node_at : List GraphNode → ℕ → GraphArtifactError → Result GraphArtifactError GraphNode
node_at nodes index e = ok_or (get_elem? nodes index) e

-- One turn of the loop, with the key before; it returns the key of the edge.
unfoldable pub validate_edge :
    List GraphNode → Map ℕ → Option EdgeKey → GraphEdge → Result GraphArtifactError EdgeKey
validate_edge nodes indexes previous edge = do
  source ← ok_or (get edge.source indexes) source_not_node
  target ← ok_or (get edge.target indexes) target_not_node
  evidence ← ok_or (get edge.evidence.node indexes) evidence_not_node
  source_node ← node_at nodes source source_not_node
  target_node ← node_at nodes target target_not_node
  evidence_node ← node_at nodes evidence evidence_not_node
  guard (same_scope source_node target_node evidence_node) crosses_scope
  guard (span_is_valid edge) invalid_evidence_span
  guard (has_metadata edge) empty_edge_metadata
  guard (is_after previous (source, target, edge)) edges_not_canonical
  ok (source, target, edge)

unfoldable pub validate_edges :
    List GraphNode → Map ℕ → Option EdgeKey → List GraphEdge → Result GraphArtifactError (Unit {0})
validate_edges nodes indexes previous [] = ok tt
validate_edges nodes indexes previous (edge ∷ edges) = do
  key ← validate_edge nodes indexes previous edge
  validate_edges nodes indexes (some key) edges

-- Lists of u32 are compared as lists of numbers.
abbrev indexes_eq : List ℕ → List ℕ → Bool
indexes_eq = text_eq

module _ (sha256 : Bytes → ContentDigest) where
  abbrev pub expected_id : GraphNode → ContentDigest
  expected_id node =
      (new_node sha256 node.repository node.revision node.path node.start_line node.end_line
        node.start_byte node.end_byte node.symbol node.kind).id

  unfoldable pub validate_nodes : List GraphNode → Result GraphArtifactError (Unit {0})
  validate_nodes [] = ok tt
  validate_nodes (node ∷ nodes) = do
    validate_node node
    guard (text_eq node.id (expected_id node)) identity_mismatch
    validate_nodes nodes

  unfoldable pub validate : GraphArtifact → Result GraphArtifactError (Unit {0})
  validate graph = do
    guard (not (ltb max_nodes (length graph.nodes) || ltb max_edges (length graph.edges)))
        size_exceeds_limits
    guard (strictly_sorted (λ a b. text_cmp a.id b.id) graph.nodes) nodes_not_sorted
    validate_nodes graph.nodes
    validate_edges graph.nodes (node_indexes graph.nodes) none graph.edges
    forward_offsets ← build_forward_index graph.nodes graph.edges
    guard (indexes_eq graph.forward_offsets forward_offsets) forward_not_canonical
    reverse ← build_reverse_index graph.nodes graph.edges
    guard
        (indexes_eq graph.reverse_offsets reverse.0
          && indexes_eq graph.reverse_edge_indices reverse.1)
        reverse_not_canonical

  -- `GraphArtifact::new`
  unfoldable pub new_graph :
      ContentDigest → List GraphNode → List GraphEdge → Result GraphArtifactError GraphArtifact
  new_graph corpus_digest nodes edges = do
    let sorted_nodes = sort (λ a b. text_cmp a.id b.id) nodes
    let sorted_edges = sort edge_cmp edges
    forward_offsets ← build_forward_index sorted_nodes sorted_edges
    reverse ← build_reverse_index sorted_nodes sorted_edges
    let artifact : GraphArtifact = record {
      corpus_digest = corpus_digest;
      nodes = sorted_nodes;
      edges = sorted_edges;
      forward_offsets = forward_offsets;
      reverse_offsets = reverse.0;
      reverse_edge_indices = reverse.1;
    }
    validate artifact
    ok artifact
