-- ===== src/Knowledge/Graph/Incoming.antt =====
-- `incoming` of crates/vesc-knowledge-index/src/graph.rs against the edges of a node.

use vesc_mcp.Prelude.{
  ℕ, suc, ◌+◌, ◌<◌, ◌≤◌, ◌≡◌, refl, sym, ap, ◌∙◌, false, List, [], ◌∷◌, none, some, arith, All,
  length, map, get_elem?, filter, group, ok, Ascends, filter-none, Option-cases, inl, inr,
}
use vesc_mcp.Text.{text_eq}
use vesc_mcp.Text.Utf8.{Bytes}
use vesc_mcp.Map.{get}
use vesc_mcp.Knowledge.Graph.{ContentDigest, GraphNode, GraphEdge, GraphArtifact}
use vesc_mcp.Knowledge.Graph.Index.{EdgeIndex, node_indexes}
use vesc_mcp.Knowledge.Graph.Lookup.{position, range_at, edges_at, incoming}
use vesc_mcp.Knowledge.Graph.Validate.{validate}
use vesc_mcp.Knowledge.Graph.Position.{node_cmp, get-node_indexes, id_at-position}
use vesc_mcp.Knowledge.Graph.Forward.{or_zero}
use vesc_mcp.Knowledge.Graph.EdgeOrder.{validate_edges-Ascends}
use vesc_mcp.Knowledge.Graph.Valid.{validate-IsValid}
use vesc_mcp.Knowledge.Graph.Outgoing.{slice-take-drop, same_place, elsewhere}
use vesc_mcp.Knowledge.Graph.Collected.{numbered, target_index}
use vesc_mcp.Knowledge.Graph.Reverse.{
  start_of, start_of-suc, start_of-le, indexes_of, concat, take-drop-concat,
}
use vesc_mcp.Knowledge.Graph.Targets.{group_at}
use vesc_mcp.Knowledge.Graph.Indexed.{
  AreTargets, IsIndexed, build_reverse_index-IsIndexed, size_of_groups, group-named,
}

edges_at-named :
    (edges : List GraphEdge) (g : List EdgeIndex)
    → All (λ p. get_elem? edges p.0 ≡ some p.1) g
    → edges_at edges (indexes_of g) ≡ ok (map (λ p. p.1) g)
unfolding edges_at
edges_at-named edges [] h = refl
edges_at-named edges (p ∷ g) h = rw (h.0, edges_at-named edges g h.1) refl

-- The edges of a group, found by their targets.
group-filter :
    (nodes : List GraphNode) (id : ContentDigest) (t i : ℕ) (edges : List GraphEdge)
    → Ascends node_cmp nodes
    → position id nodes ≡ some t
    → AreTargets nodes edges
    → map (λ p. p.1) (group (target_index (node_indexes nodes)) t (numbered i edges))
      ≡ filter (λ e. text_eq e.target id) edges
group-filter nodes id t i [] sorted at found = refl
group-filter nodes id t i (e ∷ edges) sorted at found =
    let place = or_zero (get e.target (node_indexes nodes)) in
    let same =
      same_place nodes e.target id place t sorted
        (sym (get-node_indexes nodes e.target sorted) ∙ found.0) at in
    ground (arith, same, group-filter nodes id t (suc i) edges sorted at found.1)

targets-none :
    (nodes : List GraphNode) (id : ContentDigest) (edges : List GraphEdge)
    → Ascends node_cmp nodes
    → position id nodes ≡ none
    → AreTargets nodes edges
    → All (λ e. text_eq e.target id ≡ false) edges
targets-none nodes id [] sorted at found = tt
targets-none nodes id (e ∷ edges) sorted at found =
    let there = sym (get-node_indexes nodes e.target sorted) ∙ found.0 in
    (elsewhere nodes e.target id there at, targets-none nodes id edges sorted at found.1)

-- The range of a group in the reverse index.
reverse_range :
    (graph : GraphArtifact) (groups : List (List EdgeIndex))
    → IsIndexed graph.nodes graph.edges graph.reverse_offsets graph.reverse_edge_indices groups
    → (t : ℕ) (g : List EdgeIndex) → t < length graph.nodes
    → get_elem? groups t ≡ some g
    → range_at graph.reverse_offsets graph.reverse_edge_indices t ≡ ok (indexes_of g)
unfolding range_at
reverse_range graph groups I t g small at =
    let L = I.laid_out in
    let many = size_of_groups graph.nodes graph.edges groups I.collected in
    let offset : (k : ℕ)
        → k ≤ length groups
        → get_elem? graph.reverse_offsets k ≡ some (start_of k groups) =
      λ k h. ap (λ o. get_elem? o k) I.offsets_are ∙ L.starts k h ∙ ap some (omega arith) in
    let one_more : t + 1 ≡ suc t = omega arith in
    let next = ap (λ k. start_of k groups) one_more ∙ start_of-suc t groups g at in
    let indices = L.indices in
    rw (offset t (omega arith), offset (t + 1) (omega arith), next, indices)
      (slice-take-drop (start_of t groups) (length g) (indexes_of (concat groups))
          (start_of-le t groups g at)
        ∙ ap ok (take-drop-concat t groups g at))

-- In an artifact that `validate` accepts, following the reverse index from a node gives exactly the
-- edges whose target is the node, in the order of the edges; reading it never panics.
pub incoming-filter :
    (sha256 : Bytes → ContentDigest) (graph : GraphArtifact) (node : ContentDigest)
    → validate sha256 graph ≡ ok tt
    → incoming graph node ≡ ok (filter (λ e. text_eq e.target node) graph.edges)
unfolding incoming
incoming-filter sha256 graph node accepted =
    let V = (validate-IsValid sha256 graph).at tt accepted in
    let (groups, I) =
      build_reverse_index-IsIndexed graph.nodes graph.edges
        (validate_edges-Ascends graph.nodes graph.edges V.sorted V.edges_valid) V.reverse in
    let C = I.collected in
    elim (Option-cases (position node graph.nodes)) [
      | inl absent ↦
          rw (absent, incoming)
            (ap ok (
              sym (
                filter-none _ graph.edges
                  (targets-none graph.nodes node graph.edges V.sorted absent C.targets))))
      | inr (t, at) ↦
          let g = group (target_index (node_indexes graph.nodes)) t (numbered 0 graph.edges) in
          let small = (id_at-position graph.nodes node t at).1 in
          let here = group_at graph.nodes graph.edges groups C t small in
          let range = reverse_range graph groups I t g small here in
          let found =
            edges_at-named graph.edges g (group-named graph.nodes graph.edges groups C t g here) in
          rw (at, incoming)
            (rw (range)
              (found ∙ ap ok (group-filter graph.nodes node t 0 graph.edges V.sorted at C.targets)))
    ]
