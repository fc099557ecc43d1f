-- ===== src/Knowledge/Graph/Indexed.antt =====
-- The reverse index that `validate` of crates/vesc-knowledge-index/src/graph.rs has accepted.
use mathlib.Core.Path.{subst}
use vesc_mcp.Prelude.{
  ℕ, zero, suc, ◌+◌, ◌<◌, ◌≤◌, ◌≡◌, refl, sym, ap, ◌∙◌, true, List, [], ◌∷◌, some, arith, ◌==◌, All,
  length, map, replicate, get_elem?, below-length, filter-All, Ascends-filter, ok, ok-injective,
  bind-ok, on-IsOrder, Ascends,
}
use vesc_mcp.Map.{get}
use vesc_mcp.Knowledge.Investigation.Audit.{sort}
use vesc_mcp.Knowledge.Graph.{GraphNode, GraphEdge, edge_cmp}
use vesc_mcp.Knowledge.Graph.Index.{
  EdgeIndex, node_indexes, lay_out, collect_incoming, build_reverse_index,
}
use vesc_mcp.Knowledge.Graph.Decode.{climbs_to}
use vesc_mcp.Knowledge.Graph.Position.{node_cmp, get-node_indexes, id_at-position}
use vesc_mcp.Knowledge.Graph.Forward.{or_zero}
use vesc_mcp.Knowledge.Graph.EdgeOrder.{edge_cmp-IsOrder, sort-Ascends}
use vesc_mcp.Knowledge.Graph.Grouped.{climbs_to-All}
use vesc_mcp.Knowledge.Graph.Collected.{
  numbered, target_index, IsCollected, collect_incoming-Ensures,
}
use vesc_mcp.Knowledge.Graph.Reverse.{
  IsReverse, IsLaidOut, lay_out-Ensures, concat, start_of, indexes_of, start_of-length, All-concat,
  map-fixed, length-indexes_of,
}
use vesc_mcp.Knowledge.Graph.Targets.{
  index_cmp, Ascends-numbered, numbered-named, numbered-lt, length-numbered, group_is,
  start_of-below,
}

abbrev pub AreTargets : List GraphNode → List GraphEdge → Type 0
AreTargets nodes edges =
    All
      (λ e. get e.target (node_indexes nodes) ≡ some (or_zero (get e.target (node_indexes nodes))))
      edges

-- Both lists of the reverse index come from one list of groups.
pub record IsIndexed (nodes : List GraphNode) (edges : List GraphEdge) (offsets indices : List ℕ)
    (groups : List (List EdgeIndex)) : Type 0 where
  pub collected : IsCollected (node_indexes nodes) 0 (replicate (length nodes) []) edges groups
  pub rest : List ℕ
  pub offsets_are : offsets ≡ 0 ∷ rest
  pub laid_out : IsLaidOut 0 groups (rest, indices)

sorted_groups :
    (nodes : List GraphNode) (edges : List GraphEdge) (groups : List (List EdgeIndex))
    → Ascends edge_cmp edges
    → IsCollected (node_indexes nodes) 0 (replicate (length nodes) []) edges groups
    → map (sort index_cmp) groups ≡ groups
sorted_groups nodes edges groups ascends C = map-fixed (sort index_cmp) groups λ t g at.
    let is = group_is nodes edges groups C t g at in
    let in_order =
      Ascends-filter index_cmp (λ x. target_index (node_indexes nodes) x == t) (numbered 0 edges)
        (Ascends-numbered 0 edges ascends) in
    sort-Ascends (on-IsOrder (λ p. p.1) edge_cmp-IsOrder) g
      (subst (Ascends index_cmp) (sym is) in_order)

pub build_reverse_index-IsIndexed :
    (nodes : List GraphNode) (edges : List GraphEdge) {offsets indices : List ℕ}
    → Ascends edge_cmp edges
    → build_reverse_index nodes edges ≡ ok (offsets, indices)
    → (groups : List (List EdgeIndex)) × IsIndexed nodes edges offsets indices groups
unfolding build_reverse_index
build_reverse_index-IsIndexed nodes edges ascends run =
    let (groups, collect_run, after) =
      bind-ok (collect_incoming (node_indexes nodes) 0 (replicate (length nodes) []) edges) _ run in
    let C =
      (collect_incoming-Ensures (node_indexes nodes) 0 (replicate (length nodes) []) edges).at
        groups collect_run in
    let (laid, lay_run, out) = bind-ok (lay_out 0 (map (sort index_cmp) groups)) _ after in
    let same = ok-injective out in
    let L =
      (lay_out-Ensures 0 groups).at laid
        (ap (lay_out 0) (sym (sorted_groups nodes edges groups ascends C)) ∙ lay_run) in
    (
      groups,
      record {
        collected = C;
        rest = laid.0;
        offsets_are = sym (ap (λ p. p.0) same);
        laid_out = subst (λ i. IsLaidOut 0 groups (laid.0, i)) (ap (λ p. p.1) same) L;
      },
    )

length-replicate : (n : ℕ) → length {A = List EdgeIndex} (replicate n []) ≡ n
length-replicate zero = refl
length-replicate (suc n) = ap suc (length-replicate n)

All-indexes_of :
    (m : ℕ) (g : List EdgeIndex) → All (λ p. p.0 < m) g → All (λ i. i ≤ m) (indexes_of g)
All-indexes_of m [] h = tt
All-indexes_of m (p ∷ g) h = (omega (arith, h.0), All-indexes_of m g h.1)

All-target_index :
    (nodes : List GraphNode) (i : ℕ) (edges : List GraphEdge)
    → Ascends node_cmp nodes
    → AreTargets nodes edges
    → All (λ p. target_index (node_indexes nodes) p < length nodes) (numbered i edges)
All-target_index nodes i [] sorted found = tt
All-target_index nodes i (e ∷ edges) sorted found = (
  (id_at-position nodes e.target (or_zero (get e.target (node_indexes nodes)))
      (sym (get-node_indexes nodes e.target sorted) ∙ found.0)).1,
  All-target_index nodes (suc i) edges sorted found.1,
)

module _ (nodes : List GraphNode) (edges : List GraphEdge) (groups : List (List EdgeIndex))
    (C : IsCollected (node_indexes nodes) 0 (replicate (length nodes) []) edges groups) where
  pub size_of_groups : length groups ≡ length nodes
  size_of_groups = C.size ∙ length-replicate (length nodes)

  -- Every edge is in one group.
  length-concat : Ascends node_cmp nodes → length (concat groups) ≡ length edges
  length-concat sorted =
      let total = start_of-below nodes edges groups C (length nodes) (omega arith) in
      sym (start_of-length groups)
      ∙ ap (λ n. start_of n groups) size_of_groups
      ∙ total
      ∙ below-length (target_index (node_indexes nodes)) (length nodes) (numbered 0 edges)
          (All-target_index nodes 0 edges sorted C.targets)
      ∙ length-numbered 0 edges

  -- What an index in a group names.
  pub group-named :
      (t : ℕ) (g : List EdgeIndex)
      → get_elem? groups t ≡ some g
      → All (λ p. get_elem? edges p.0 ≡ some p.1) g
  group-named t g at =
      let plain : (j : ℕ) → 0 + j ≡ j = λ j. omega arith in
      let all = numbered-named edges 0 edges (λ j. ap (get_elem? edges) (plain j)) in
      subst (All (λ p. get_elem? edges p.0 ≡ some p.1)) (sym (group_is nodes edges groups C t g at))
        (filter-All (λ x. target_index (node_indexes nodes) x == t)
          (λ p. get_elem? edges p.0 ≡ some p.1) (numbered 0 edges) all)

  group-lt :
      (t : ℕ) (g : List EdgeIndex) → get_elem? groups t ≡ some g → All (λ p. p.0 < length edges) g
  group-lt t g at =
      let plain : 0 + length edges ≡ length edges = omega arith in
      let all = subst (λ n. All (λ p. p.0 < n) (numbered 0 edges)) plain (numbered-lt 0 edges) in
      subst (All (λ p. p.0 < length edges)) (sym (group_is nodes edges groups C t g at)) (
        filter-All (λ x. target_index (node_indexes nodes) x == t) (λ p. p.0 < length edges)
          (numbered 0 edges) all)

  reverse_rest :
      (rest indices : List ℕ)
      → Ascends node_cmp nodes
      → IsLaidOut 0 groups (rest, indices)
      → IsReverse (length nodes) (length edges) (0 ∷ rest) indices
  reverse_rest rest indices sorted L =
      let climbs = subst (λ n. climbs_to n 0 rest ≡ true) (plain ∙ length-concat sorted) L.climbs in
      record {
        offsets_size = omega (arith, L.size, size_of_groups);
        valid = ground (arith, climbs);
        offsets_fit = (omega arith, (climbs_to-All (length edges) 0 rest climbs).1);
        indices_size =
            ap length L.indices ∙ length-indexes_of (concat groups) ∙ length-concat sorted;
        indices_fit = subst (All (λ i. i ≤ length edges)) (sym L.indices) (
            All-indexes_of (length edges) (concat groups)
              (All-concat (λ p. p.0 < length edges) groups group-lt));
      }
    where
      plain : 0 + length (concat groups) ≡ length (concat groups)
      plain = omega arith

-- The reader accepts the two lists of a reverse index that was built from the nodes and the edges.
pub build_reverse_index-IsReverse :
    (nodes : List GraphNode) (edges : List GraphEdge) {offsets indices : List ℕ}
    → Ascends node_cmp nodes
    → Ascends edge_cmp edges
    → build_reverse_index nodes edges ≡ ok (offsets, indices)
    → IsReverse (length nodes) (length edges) offsets indices
build_reverse_index-IsReverse nodes edges {indices = indices} sorted ascends run =
    let (groups, I) = build_reverse_index-IsIndexed nodes edges ascends run in
    subst (λ o. IsReverse (length nodes) (length edges) o indices) (sym I.offsets_are)
      (reverse_rest nodes edges groups I.collected I.rest indices sorted I.laid_out)
