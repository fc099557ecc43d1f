-- ===== src/Knowledge/Graph/Index.antt =====
-- crates/vesc-knowledge-index/src/graph.rs: the two adjacency indexes as they are built.
use vesc_mcp.Prelude.{
  ℕ, zero, suc, ◌+◌, ◌^◌, Bool, false, List, [], ◌∷◌, ◌++◌, Option, none, some, ltb, length,
  replicate, map, not, Result, ok, guard, ◌>>=◌, ◌>>◌, ok_or,
}
use vesc_mcp.Map.{Map, get, insert}
use vesc_mcp.Knowledge.Investigation.Audit.{sort}
use vesc_mcp.Knowledge.Graph.{
  GraphNode, GraphEdge, GraphArtifactError, source_not_node, target_not_node, not_grouped,
  offset_overflows, reverse_exceeds_wire, edge_cmp,
}

-- The `BTreeMap` from the id of a node to its index; of two nodes with one id the later stays.
unfoldable pub index_nodes : ℕ → Map ℕ → List GraphNode → Map ℕ
index_nodes i indexes [] = indexes
index_nodes i indexes (node ∷ nodes) = index_nodes (suc i) (insert node.id i indexes) nodes

abbrev pub node_indexes : List GraphNode → Map ℕ
node_indexes = index_nodes 0 []

-- `counts[index] += 1`
unfoldable pub increment : ℕ → List ℕ → List ℕ
increment i [] = []
increment zero (count ∷ counts) = suc count ∷ counts
increment (suc i) (count ∷ counts) = count ∷ increment i counts

abbrev pub goes_back : Option ℕ → ℕ → Bool
goes_back none index = false
goes_back (some previous) index = ltb index previous

-- The loop over the edges, with the index of the source before. A count fits a `usize`.
unfoldable pub count_edges :
    Map ℕ → Option ℕ → List ℕ → List GraphEdge → Result GraphArtifactError (List ℕ)
count_edges indexes source counts [] = ok counts
count_edges indexes source counts (edge ∷ edges) = do
  index ← ok_or (get edge.source indexes) source_not_node
  guard (not (goes_back source index)) not_grouped
  count_edges indexes (some index) (increment index counts) edges

-- The offsets after `last`.
unfoldable pub sum_counts : ℕ → List ℕ → Result GraphArtifactError (List ℕ)
sum_counts last [] = ok []
sum_counts last (count ∷ counts) = do
  guard (ltb (last + count) (2 ^ 32)) offset_overflows
  offsets ← sum_counts (last + count) counts
  ok ((last + count) ∷ offsets)

unfoldable pub build_forward_index :
    List GraphNode → List GraphEdge → Result GraphArtifactError (List ℕ)
build_forward_index nodes edges = do
  counts ← count_edges (node_indexes nodes) none (replicate (length nodes) 0) edges
  offsets ← sum_counts 0 counts
  ok (0 ∷ offsets)

-- An index into the edges, with the edge that comparisons look up by it.
abbrev pub EdgeIndex : Type 0
EdgeIndex = ℕ × GraphEdge

-- `incoming[target].push(edge_index)`
unfoldable pub push_at : ℕ → EdgeIndex → List (List EdgeIndex) → List (List EdgeIndex)
push_at i e [] = []
push_at zero e (group ∷ groups) = (group ++ e ∷ []) ∷ groups
push_at (suc i) e (group ∷ groups) = group ∷ push_at i e groups

unfoldable pub collect_incoming :
    Map ℕ
    → ℕ
    → List (List EdgeIndex)
    → List GraphEdge
    → Result GraphArtifactError (List (List EdgeIndex))
collect_incoming indexes i incoming [] = ok incoming
collect_incoming indexes i incoming (edge ∷ edges) = do
  target ← ok_or (get edge.target indexes) target_not_node
  collect_incoming indexes (suc i) (push_at target (i, edge) incoming) edges

-- The last loop: `written` indexes are there before the groups.
unfoldable pub lay_out : ℕ → List (List EdgeIndex) → Result GraphArtifactError (List ℕ × List ℕ)
lay_out written [] = ok ([], [])
lay_out written (group ∷ incoming) = do
  guard (ltb (written + length group) (2 ^ 32)) reverse_exceeds_wire
  rest ← lay_out (written + length group) incoming
  ok ((written + length group) ∷ rest.0, map (λ e. e.0) group ++ rest.1)

unfoldable pub build_reverse_index :
    List GraphNode → List GraphEdge → Result GraphArtifactError (List ℕ × List ℕ)
build_reverse_index nodes edges = do
  incoming ← collect_incoming (node_indexes nodes) 0 (replicate (length nodes) []) edges
  laid ← lay_out 0 (map (sort (λ left right. edge_cmp left.1 right.1)) incoming)
  ok (0 ∷ laid.0, laid.1)
