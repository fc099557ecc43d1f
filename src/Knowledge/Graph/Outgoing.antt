-- ===== src/Knowledge/Graph/Outgoing.antt =====
-- `outgoing` of crates/vesc-knowledge-index/src/graph.rs against the edges of a node.
use vesc_mcp.Prelude.{
  ℕ, suc, ◌+◌, ◌<◌, ◌≤◌, ◌≡◌, ap, ◌∙◌, sym, false, List, [], ◌∷◌, none, some, arith, ◌==◌, ok,
  length, take, drop, All, filter, group, tally, below, below-suc, below-le, take-drop-group,
  filter_cong-All, filter-none, Ascends, inl, inr, Option-cases, Bool-cases,
}
use vesc_mcp.Text.{text_eq, text_eq_iff, text_cmp_iff}
use vesc_mcp.Text.Utf8.{Bytes}
use vesc_mcp.Knowledge.Graph.{ContentDigest, GraphNode, GraphEdge, GraphArtifact}
use vesc_mcp.Knowledge.Graph.Index.{node_indexes}
use vesc_mcp.Knowledge.Graph.Lookup.{position, slice, range_at, outgoing}
use vesc_mcp.Knowledge.Graph.Validate.{validate}
use vesc_mcp.Knowledge.Graph.Position.{node_cmp, get-node_indexes, id_at-position, compare-position}
use vesc_mcp.Knowledge.Graph.Forward.{
  IsForward, AreSources, source_index, build_forward_index-Ensures,
}
use vesc_mcp.Knowledge.Graph.Valid.{validate-IsValid}

-- The part of a list between two numbers that are in range.
pub slice-take-drop :
    {A : Type 0} (start size : ℕ) (values : List A)
    → start + size ≤ length values
    → slice start (start + size) values ≡ ok (take size (drop start values))
unfolding slice
slice-take-drop start size values h = ground (arith, h)

-- Two ids are equal exactly when their places are.
pub same_place :
    (nodes : List GraphNode) (id id' : ContentDigest) (i j : ℕ)
    → Ascends node_cmp nodes
    → position id nodes ≡ some i
    → position id' nodes ≡ some j
    → (i == j) ≡ text_eq id id'
same_place nodes id id' i j sorted at at' =
    let ordered = compare-position nodes id id' i j sorted at at' in
    ground (arith, ordered, text_cmp_iff id id', text_eq_iff id id')

sources-group :
    (nodes : List GraphNode) (id : ContentDigest) (i : ℕ) (edges : List GraphEdge)
    → Ascends node_cmp nodes
    → position id nodes ≡ some i
    → AreSources (node_indexes nodes) edges
    → All (λ e. (source_index (node_indexes nodes) e == i) ≡ text_eq e.source id) edges
sources-group nodes id i [] sorted at found = tt
sources-group nodes id i (e ∷ edges) sorted at found = (
  same_place nodes e.source id (source_index (node_indexes nodes) e) i sorted
      (sym (get-node_indexes nodes e.source sorted) ∙ found.0) at,
  sources-group nodes id i edges sorted at found.1,
)

-- An id with a place is not one without.
pub elsewhere :
    (nodes : List GraphNode) (id id' : ContentDigest) {i : ℕ}
    → position id nodes ≡ some i
    → position id' nodes ≡ none
    → text_eq id id' ≡ false
elsewhere nodes id id' there at = elim (Bool-cases (text_eq id id')) [
  | inl same ↦
      let equal = (text_eq_iff id id').0 same in
      let clash = sym at ∙ ap (λ x. position x nodes) (sym equal) ∙ there in absurd (cc)
  | inr differ ↦ differ
]

sources-none :
    (nodes : List GraphNode) (id : ContentDigest) (edges : List GraphEdge)
    → Ascends node_cmp nodes
    → position id nodes ≡ none
    → AreSources (node_indexes nodes) edges
    → All (λ e. text_eq e.source id ≡ false) edges
sources-none nodes id [] sorted at found = tt
sources-none nodes id (e ∷ edges) sorted at found =
    let there = sym (get-node_indexes nodes e.source sorted) ∙ found.0 in
    (elsewhere nodes e.source id there at, sources-none nodes id edges sorted at found.1)

-- The range of a node in the forward index.
forward_range :
    (graph : GraphArtifact) (i : ℕ)
    → IsForward graph.nodes graph.edges graph.forward_offsets
    → i < length graph.nodes
    → range_at graph.forward_offsets graph.edges i
      ≡ ok (group (source_index (node_indexes graph.nodes)) i graph.edges)
unfolding range_at
forward_range graph i F small =
    let key = source_index (node_indexes graph.nodes) in
    let one_more : i + 1 ≡ suc i = omega arith in
    let next = ap (λ n. below key n graph.edges) one_more ∙ below-suc key i graph.edges in
    rw (F.offset i (omega arith), F.offset (i + 1) (omega arith), next)
      (slice-take-drop (below key i graph.edges) (tally key i graph.edges) graph.edges
          (omega (arith, below-le key (i + 1) graph.edges, next))
        ∙ ap ok (take-drop-group key i graph.edges F.rises))

-- In an artifact that `validate` accepts, the slice that `outgoing` cuts out of the edges has
-- exactly the edges whose source is the node, in their order; reading it never panics.
pub outgoing-filter :
    (sha256 : Bytes → ContentDigest) (graph : GraphArtifact) (node : ContentDigest)
    → validate sha256 graph ≡ ok tt
    → outgoing graph node ≡ ok (filter (λ e. text_eq e.source node) graph.edges)
unfolding outgoing
outgoing-filter sha256 graph node accepted =
    let V = (validate-IsValid sha256 graph).at tt accepted in
    let F =
      (build_forward_index-Ensures graph.nodes graph.edges).at graph.forward_offsets V.forward in
    elim (Option-cases (position node graph.nodes)) [
      | inl absent ↦
          rw (absent, outgoing)
            (ap ok (
              sym (
                filter-none _ graph.edges
                  (sources-none graph.nodes node graph.edges V.sorted absent F.sources))))
      | inr (i, at) ↦
          rw (at, outgoing)
            (forward_range graph i F (id_at-position graph.nodes node i at).1
              ∙ ap ok (
                  filter_cong-All _ _ graph.edges
                    (sources-group graph.nodes node i graph.edges V.sorted at F.sources)))
    ]
