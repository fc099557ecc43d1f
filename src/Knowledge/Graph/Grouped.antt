-- ===== src/Knowledge/Graph/Grouped.antt =====
-- The edges of crates/vesc-knowledge-index/src/graph.rs, cut at the forward offsets.
use mathlib.Core.Path.{subst}
use mathlib.Core.Option
use mathlib.Core.Option.{some-injective}
use vesc_mcp.Prelude.{
  ℕ, suc, ◌+◌, ◌<◌, ◌≤◌, ◌≡◌, refl, sym, ap, ◌∙◌, true, List, [], ◌∷◌, ◌++◌, some, arith, ◌==◌,
  length, drop, length-append, take-append-drop, drop-drop, drop-all, All, get_elem?, group, tally,
  below, Rises, below-zero, below-suc, take-drop-group, Ascends, All-filter, below-length,
}
use vesc_mcp.Knowledge.Graph.{GraphNode, GraphEdge}
use vesc_mcp.Knowledge.Graph.Index.{node_indexes}
use vesc_mcp.Knowledge.Graph.Decode.{climbs_to}
use vesc_mcp.Knowledge.Graph.Position.{node_cmp, get-node_indexes, id_at, id_at-position}
use vesc_mcp.Knowledge.Graph.Forward.{IsForward, AreSources, source_index}

-- Each node has a part of the edges, as long as the step between two offsets.
pub data Grouped : List GraphNode → List ℕ → List GraphEdge → Type 0 where
  done : {start : ℕ} → Grouped [] (start ∷ []) []
  next :
      {node : GraphNode} {nodes : List GraphNode} {start end : ℕ} {offsets : List ℕ}
      (part : List GraphEdge) (edges : List GraphEdge)
      → end ≡ start + length part
      → All (λ e. e.source ≡ node.id) part
      → Grouped nodes (end ∷ offsets) edges
      → Grouped (node ∷ nodes) (start ∷ end ∷ offsets) (part ++ edges)

-- The edges with source number `k + i` leave the node at place `i` of `nodes`.
abbrev Owned : (GraphEdge → ℕ) → ℕ → List GraphNode → List GraphEdge → Type 0
Owned key k nodes edges =
    (i : ℕ) (node : GraphNode)
    → get_elem? nodes i ≡ some node
    → All (λ e. (key e == k + i) ≡ true → e.source ≡ node.id) edges

-- The offsets count the edges with a source number below `k`, `k + 1` and so on.
abbrev Counts : (GraphEdge → ℕ) → ℕ → ℕ → List ℕ → List GraphEdge → Type 0
Counts key k size offsets edges =
    (i : ℕ) → i ≤ size → get_elem? offsets i ≡ some (below key (k + i) edges)

module _ (key : GraphEdge → ℕ) (edges : List GraphEdge) (rises : Rises key edges) where
  drop-group :
      (k : ℕ)
      → drop (below key k edges) edges ≡ group key k edges ++ drop (below key (suc k) edges) edges
  drop-group k =
      let start = below key k edges in
      let size = tally key k edges in
      sym (take-append-drop size (drop start edges))
      ∙ ap (λ t. t ++ drop size (drop start edges)) (take-drop-group key k edges rises)
      ∙ ap (λ t. group key k edges ++ t)
          (drop-drop size start edges ∙ ap (λ n. drop n edges) (sym (below-suc key k edges)))

  part_size :
      (k start end : ℕ)
      → some start ≡ some (below key (k + 0) edges)
      → some end ≡ some (below key (k + 1) edges)
      → end ≡ start + tally key k edges
  part_size k start end s e =
      let here : k + 0 ≡ k = omega arith in
      let there : k + 1 ≡ suc k = omega arith in
      let first = ap (λ n. below key n edges) here in
      let second = ap (λ n. below key n edges) there in
      ground (arith, below-suc key k edges, first, second)

  abbrev Owns : GraphNode → ℕ → Type 0
  Owns node n = All (λ e. (key e == n) ≡ true → e.source ≡ node.id) edges

  Counts-Grouped :
      (k : ℕ) (nodes : List GraphNode) (offsets : List ℕ)
      → length offsets ≡ suc (length nodes)
      → Owned key k nodes edges
      → Counts key k (length nodes) offsets edges
      → below key (k + length nodes) edges ≡ length edges
      → Grouped nodes offsets (drop (below key k edges) edges)
  Counts-Grouped k [] [] size owned counts all = absurd (omega (arith, size))
  Counts-Grouped k [] (o ∷ o' ∷ offsets) size owned counts all = absurd (omega (arith, size))
  Counts-Grouped k (node ∷ nodes) [] size owned counts all = absurd (omega (arith, size))
  Counts-Grouped k (node ∷ nodes) (o ∷ []) size owned counts all = absurd (omega (arith, size))
  Counts-Grouped k [] (o ∷ []) size owned counts all =
      let here : k + 0 ≡ k = omega arith in
      let last = ap (λ n. below key n edges) here in
      rw (drop-all (below key k edges) edges (omega (arith, all, last))) done
  Counts-Grouped k (node ∷ nodes) (start ∷ end ∷ offsets) size owned counts all =
      let here : k + 0 ≡ k = omega arith in
      let shift : (i : ℕ) → k + suc i ≡ suc k + i = λ i. omega arith in
      let rest =
        Counts-Grouped (suc k) nodes (end ∷ offsets) (omega (arith, size))
          (λ i n at. subst (Owns n) (shift i) (owned (suc i) n at))
          (λ i h. counts (suc i) (omega arith) ∙ ap (λ n. some (below key n edges)) (shift i))
          (ap (λ n. below key n edges) (sym (shift (length nodes))) ∙ all) in
      let mine =
        All-filter (λ x. key x == k) (λ e. e.source ≡ node.id) edges
          (subst (Owns node) here (owned 0 node refl)) in
      rw (drop-group k) (
        next (group key k edges) (drop (below key (suc k) edges) edges)
          (part_size k start end (counts 0 (omega arith)) (counts 1 (omega arith))) mine rest)

sources-Owned :
    (nodes : List GraphNode) (edges : List GraphEdge)
    → Ascends node_cmp nodes
    → AreSources (node_indexes nodes) edges
    → Owned (source_index (node_indexes nodes)) 0 nodes edges
sources-Owned nodes [] sorted found i node at = tt
sources-Owned nodes (e ∷ edges) sorted found i node at =
    let key = source_index (node_indexes nodes) e in
    let there = sym (get-node_indexes nodes e.source sorted) ∙ found.0 in
    let (named, small) = id_at-position nodes e.source key there in
    (
      (λ same.
          let place : key ≡ i = ground (arith, same) in
          let id = subst (λ n. id_at nodes n ≡ some e.source) place named in
          some-injective _ _ (sym id ∙ ap (λ o. Option.map (λ n. n.id) o) at)),
      sources-Owned nodes edges sorted found.1 i node at,
    )

sources-below :
    (nodes : List GraphNode) (edges : List GraphEdge)
    → Ascends node_cmp nodes
    → AreSources (node_indexes nodes) edges
    → All (λ e. source_index (node_indexes nodes) e < length nodes) edges
sources-below nodes [] sorted found = tt
sources-below nodes (e ∷ edges) sorted found = (
  (id_at-position nodes e.source (source_index (node_indexes nodes) e)
      (sym (get-node_indexes nodes e.source sorted) ∙ found.0)).1,
  sources-below nodes edges sorted found.1,
)

-- The forward offsets cut the edges into the edges of each node.
pub forward-Grouped :
    (nodes : List GraphNode) (edges : List GraphEdge) (offsets : List ℕ)
    → Ascends node_cmp nodes
    → IsForward nodes edges offsets
    → Grouped nodes offsets edges
forward-Grouped nodes edges offsets sorted F =
    let key = source_index (node_indexes nodes) in
    let whole =
      below-length key (length nodes) edges (sources-below nodes edges sorted F.sources) in
    let plain : (i : ℕ) → i ≡ 0 + i = λ i. omega arith in
    let cut =
      Counts-Grouped key edges F.rises 0 nodes offsets F.size
        (sources-Owned nodes edges sorted F.sources)
        (λ i h. F.offset i h ∙ ap (λ n. some (below key n edges)) (plain i))
        (ap (λ n. below key n edges) (sym (plain (length nodes))) ∙ whole) in
    subst (λ n. Grouped nodes offsets (drop n edges)) (below-zero key edges) cut

-- The offsets of a grouping climb from the first by the number of edges.
pub Grouped-climbs_to :
    {nodes : List GraphNode} {start : ℕ} {offsets : List ℕ} {edges : List GraphEdge}
    → Grouped nodes (start ∷ offsets) edges
    → climbs_to (start + length edges) start offsets ≡ true
Grouped-climbs_to done = ground arith
Grouped-climbs_to {start = start} (next {end = end} {offsets = offsets} part edges size same rest) =
    let total : start + length (part ++ edges) ≡ end + length edges =
      omega (arith, length-append part edges, size) in
    subst (λ n. climbs_to n start (end ∷ offsets) ≡ true) (sym total)
      (ground (arith, Grouped-climbs_to rest, size))

-- So does every number between.
pub climbs_to-All :
    (total last : ℕ) (offsets : List ℕ)
    → climbs_to total last offsets ≡ true
    → (last ≤ total) × All (λ n. n ≤ total) offsets
climbs_to-All total last [] h = (ground (arith, h), tt)
climbs_to-All total last (n ∷ ns) h =
    let rest = climbs_to-All total n ns (ground (arith, h)) in (ground (arith, h, rest.0), rest)
