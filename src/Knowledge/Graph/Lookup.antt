-- ===== src/Knowledge/Graph/Lookup.antt =====
-- crates/vesc-knowledge-index/src/graph.rs: how the two adjacency indexes are read.
use mathlib.Core.Option
use vesc_mcp.Prelude.{
  ℕ, suc, ◌+◌, ◌-◌, ◌&&◌, List, [], ◌∷◌, Option, none, some, leb, if◌then◌else◌, length, take, drop,
  get_elem?, Result, ok, err, ◌>>=◌, ok_or,
}
use vesc_mcp.Text.{text_eq}
use vesc_mcp.Knowledge.Graph.{ContentDigest, GraphNode, GraphEdge, GraphArtifact}

-- What a binary search by key finds in a slice that is strictly sorted by it.
unfoldable pub position : ContentDigest → List GraphNode → Option ℕ
position id [] = none
position id (node ∷ nodes) =
    let rest = position id nodes in if text_eq node.id id then some 0 else Option.map suc rest

-- A slice or an index out of range panics.
pub data Panic : Type 0 where
  out_of_range : Panic

-- `values[start..end]`, which panics out of range.
unfoldable pub slice : {A : Type 0} → ℕ → ℕ → List A → Result Panic (List A)
slice start end values =
    if leb start end && leb end (length values)
    then ok (take (end - start) (drop start values))
    else err out_of_range

-- The range of a node in an index.
unfoldable pub range_at : {A : Type 0} → List ℕ → List A → ℕ → Result Panic (List A)
range_at offsets values index = do
  start ← ok_or (get_elem? offsets index) out_of_range
  end ← ok_or (get_elem? offsets (index + 1)) out_of_range
  slice start end values

unfoldable pub outgoing : GraphArtifact → ContentDigest → Result Panic (List GraphEdge)
outgoing graph node = elim (position node graph.nodes) [
  | none ↦ ok []
  | some index ↦ range_at graph.forward_offsets graph.edges index
]

-- `map(|index| &self.edges[index])`
unfoldable pub edges_at : List GraphEdge → List ℕ → Result Panic (List GraphEdge)
edges_at edges [] = ok []
edges_at edges (index ∷ indexes) = do
  edge ← ok_or (get_elem? edges index) out_of_range
  rest ← edges_at edges indexes
  ok (edge ∷ rest)

unfoldable pub incoming : GraphArtifact → ContentDigest → Result Panic (List GraphEdge)
incoming graph node = elim (position node graph.nodes) [
  | none ↦ ok []
  | some index ↦ do
    indexes ← range_at graph.reverse_offsets graph.reverse_edge_indices index
    edges_at graph.edges indexes
]
