-- ===== src/Knowledge/Graph/Position.antt =====
-- The place of a node in the sorted nodes of crates/vesc-knowledge-index/src/graph.rs.
use mathlib.Core.Option
use vesc_mcp.Prelude.{
  ℕ, zero, suc, ◌+◌, ◌≡◌, refl, ◌∙◌, List, [], ◌∷◌, Option, none, some, Ordering, compare, arith,
  length, get_elem?, All, Ascends, ◌<◌,
}
use vesc_mcp.Text.{text_eq_iff, text_cmp, text_cmp_iff, text_cmp-IsOrder}
use vesc_mcp.Map.{Map, get, insert, get-insert}
use vesc_mcp.Knowledge.Graph.{ContentDigest, GraphNode}
use vesc_mcp.Knowledge.Graph.Index.{index_nodes, node_indexes}
use vesc_mcp.Knowledge.Graph.Lookup.{position}

abbrev pub node_cmp : GraphNode → GraphNode → Ordering
node_cmp a b = text_cmp a.id b.id

-- A node that is below all of these is none of them.
position-none :
    (node : GraphNode) (nodes : List GraphNode)
    → All (λ n. node_cmp node n ≡ Ordering.lt) nodes
    → position node.id nodes ≡ none
unfolding position
position-none node [] h = refl
position-none node (n ∷ nodes) h =
    ground (
      arith,
      h.0,
      position-none node nodes h.1,
      text_eq_iff n.id node.id,
      text_cmp_iff node.id n.id,
    )

-- The index that a map has for a node or, if there is none, an older one.
abbrev later : ℕ → Option ℕ → Option ℕ → Option ℕ
later i none old = old
later i (some j) old = some (i + j)

abbrev shift_place : ℕ → Option ℕ → Option ℕ
shift_place i o = Option.map (λ j. i + j) o

get-index_nodes_from :
    (i : ℕ) (indexes : Map ℕ) (nodes : List GraphNode) (id : ContentDigest)
    → Ascends node_cmp nodes
    → get id (index_nodes i indexes nodes) ≡ later i (position id nodes) (get id indexes)
unfolding index_nodes position
get-index_nodes_from i indexes [] id h = refl
get-index_nodes_from i indexes (n ∷ nodes) id h = ground (
  arith,
  get-index_nodes_from (suc i) (insert n.id i indexes) nodes id h.1,
  get-insert n.id id i indexes,
  text_eq_iff n.id id,
  position-none n nodes h.0,
)

later-zero : (o : Option ℕ) → later 0 o none ≡ o
later-zero none = refl
later-zero (some j) = ground arith

-- The map of the nodes finds the place of a node.
pub get-node_indexes :
    (nodes : List GraphNode) (id : ContentDigest)
    → Ascends node_cmp nodes
    → get id (node_indexes nodes) ≡ position id nodes
unfolding get
get-node_indexes nodes id h = get-index_nodes_from 0 [] nodes id h ∙ later-zero (position id nodes)

-- The id of the node at a place.
abbrev pub id_at : List GraphNode → ℕ → Option ContentDigest
id_at nodes i = Option.map (λ n. n.id) (get_elem? nodes i)

pub id_at-position :
    (nodes : List GraphNode) (id : ContentDigest) (i : ℕ)
    → position id nodes ≡ some i
    → (id_at nodes i ≡ some id) × (i < length nodes)
unfolding position
id_at-position [] id i h = absurd (cc)
id_at-position (n ∷ nodes) id zero h = ground (arith, text_eq_iff n.id id)
id_at-position (n ∷ nodes) id (suc i) h = ground (arith, id_at-position nodes id i)

text_cmp-position :
    (node : GraphNode) (nodes : List GraphNode) (id : ContentDigest) (i : ℕ)
    → All (λ n. node_cmp node n ≡ Ordering.lt) nodes
    → position id nodes ≡ some i
    → text_cmp node.id id ≡ Ordering.lt
unfolding position
text_cmp-position node [] id i h p = absurd (cc)
text_cmp-position node (n ∷ nodes) id zero h p = ground (arith, h.0, text_eq_iff n.id id)
text_cmp-position node (n ∷ nodes) id (suc i) h p =
    ground (arith, text_cmp-position node nodes id i h.1, p)

-- Places are ordered as the ids are.
pub compare-position :
    (nodes : List GraphNode) (s t : ContentDigest) (i j : ℕ)
    → Ascends node_cmp nodes
    → position s nodes ≡ some i
    → position t nodes ≡ some j
    → compare i j ≡ text_cmp s t
unfolding position
compare-position [] s t i j h p q = absurd (cc)
compare-position (n ∷ nodes) s t zero zero h p q =
    ground (arith, text_eq_iff n.id s, text_eq_iff n.id t, text_cmp_iff s t, p, q)
compare-position (n ∷ nodes) s t zero (suc j) h p q =
    ground (arith, text_eq_iff n.id s, text_cmp-position n nodes t j h.0, p, q)
compare-position (n ∷ nodes) s t (suc i) zero h p q = ground (
  arith,
  text_eq_iff n.id t,
  text_cmp-position n nodes s i h.0,
  text_cmp-IsOrder.reversed n.id s,
  p,
  q,
)
compare-position (n ∷ nodes) s t (suc i) (suc j) h p q =
    ground (arith, compare-position nodes s t i j h.1, p, q)
