-- ===== src/Knowledge/Graph/Valid.antt =====
-- What `validate` of crates/vesc-knowledge-index/src/graph.rs has checked when it succeeds.
use vesc_mcp.Prelude.{
  ◌≤◌, ◌≡◌, refl, true, not, ◌&&◌, ◌||◌, ap, ◌∙◌, arith, ltb, length, ok, Ensures, Ensures-guard,
  Ensures-bind, Ascends, strictly_sorted, strictly_sorted-Ascends, on-IsOrder, none, List, ℕ,
}
use vesc_mcp.Text.{text_eq, text_eq_iff, text_cmp-IsOrder}
use vesc_mcp.Text.Utf8.{Bytes}
use vesc_mcp.Knowledge.Graph.{ContentDigest, GraphArtifact, max_nodes, max_edges}
use vesc_mcp.Knowledge.Graph.Index.{node_indexes, build_forward_index, build_reverse_index}
use vesc_mcp.Knowledge.Graph.Validate.{validate, validate_nodes, validate_edges}
use vesc_mcp.Knowledge.Graph.Position.{node_cmp}

pub record IsValid (sha256 : Bytes → ContentDigest) (graph : GraphArtifact) : Type 0 where
  pub few_nodes : length graph.nodes ≤ max_nodes
  pub few_edges : length graph.edges ≤ max_edges
  pub sorted : Ascends node_cmp graph.nodes
  pub nodes_valid : validate_nodes sha256 graph.nodes ≡ ok tt
  pub edges_valid : validate_edges graph.nodes (node_indexes graph.nodes) none graph.edges ≡ ok tt
  pub forward : build_forward_index graph.nodes graph.edges ≡ ok graph.forward_offsets
  pub reverse :
      build_reverse_index graph.nodes graph.edges
      ≡ ok (graph.reverse_offsets, graph.reverse_edge_indices)

reverse_is :
    (graph : GraphArtifact) (reverse : List ℕ × List ℕ)
    → build_reverse_index graph.nodes graph.edges ≡ ok reverse
    → (text_eq graph.reverse_offsets reverse.0 && text_eq graph.reverse_edge_indices reverse.1)
      ≡ true
    → build_reverse_index graph.nodes graph.edges
      ≡ ok (graph.reverse_offsets, graph.reverse_edge_indices)
reverse_is graph (offsets, indices) run same =
    let a = (text_eq_iff graph.reverse_offsets offsets).0 (ground (arith, same)) in
    let b = (text_eq_iff graph.reverse_edge_indices indices).0 (ground (arith, same)) in
    run ∙ rw (a, b) refl

pub validate-IsValid :
    (sha256 : Bytes → ContentDigest) (graph : GraphArtifact)
    → Ensures (λ _. IsValid sha256 graph) (validate sha256 graph)
unfolding validate
validate-IsValid sha256 graph =
    Ensures-guard (not (ltb max_nodes (length graph.nodes) || ltb max_edges (length graph.edges))) _
      _
      λ small. Ensures-guard (strictly_sorted node_cmp graph.nodes) _ _ λ sorted.
        Ensures-bind (validate_nodes sha256 graph.nodes) _ λ _ nodes_valid.
          Ensures-bind (validate_edges graph.nodes (node_indexes graph.nodes) none graph.edges) _
            λ _ edges_valid.
              Ensures-bind (build_forward_index graph.nodes graph.edges) _ λ forward forward_run.
                Ensures-guard (text_eq graph.forward_offsets forward) _ _ λ forward_same.
                  Ensures-bind (build_reverse_index graph.nodes graph.edges) _
                    λ reverse reverse_run. record {
                      at = λ _ run. record {
                        few_nodes = ground (arith, small);
                        few_edges = ground (arith, small);
                        sorted =
                            strictly_sorted-Ascends (on-IsOrder (λ n. n.id) text_cmp-IsOrder)
                              graph.nodes sorted;
                        nodes_valid = nodes_valid;
                        edges_valid = edges_valid;
                        forward =
                            forward_run
                            ∙ ap ok (
                                rw ((text_eq_iff graph.forward_offsets forward).0 forward_same)
                                  refl);
                        reverse = reverse_is graph reverse reverse_run (ground (arith, run));
                      };
                    }
