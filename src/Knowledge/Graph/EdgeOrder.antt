-- ===== src/Knowledge/Graph/EdgeOrder.antt =====
-- The order of the edges of crates/vesc-knowledge-index/src/graph.rs, and what `validate_edges` has
-- checked of it.
use vesc_mcp.Prelude.{
  ℕ, ◌≡◌, refl, sym, ap, ◌∙◌, true, List, [], ◌∷◌, Option, none, some, Ordering, IsOrder,
  then_cmp-IsOrder, on-IsOrder, compare-IsOrder, bool_cmp-IsOrder, is_lt, strictly_sorted, Ascends,
  strictly_sorted-Ascends, ok, bind-ok, and_iff, get_elem?, Ensures, Ensures-ok, Ensures-guard,
  Ensures-ok_or,
}
use vesc_mcp.Text.{text_cmp-IsOrder}
use vesc_mcp.Map.{Map, get}
use vesc_mcp.Knowledge.Investigation.Audit.{sort, insert_sorted}
use vesc_mcp.Knowledge.Graph.{GraphNode, GraphEdge, EdgeKey, edge_cmp, key_cmp}
use vesc_mcp.Knowledge.Graph.Index.{node_indexes}
use vesc_mcp.Knowledge.Graph.Validate.{
  validate_edge, validate_edges, is_after, same_scope, span_is_valid, has_metadata,
}
use vesc_mcp.Knowledge.Graph.Position.{node_cmp, get-node_indexes, compare-position}

pub edge_cmp-IsOrder : IsOrder edge_cmp
unfolding edge_cmp
edge_cmp-IsOrder = then_cmp-IsOrder (on-IsOrder (λ e. e.source) text_cmp-IsOrder) (
    then_cmp-IsOrder (on-IsOrder (λ e. e.target) text_cmp-IsOrder) (
      then_cmp-IsOrder (on-IsOrder (λ e. e.evidence.node) text_cmp-IsOrder) (
        then_cmp-IsOrder (on-IsOrder (λ e. e.evidence.start_line) compare-IsOrder) (
          then_cmp-IsOrder (on-IsOrder (λ e. e.evidence.end_line) compare-IsOrder) (
            then_cmp-IsOrder (on-IsOrder (λ e. e.evidence.start_byte) compare-IsOrder) (
              then_cmp-IsOrder (on-IsOrder (λ e. e.evidence.end_byte) compare-IsOrder) (
                then_cmp-IsOrder (on-IsOrder (λ e. e.relation) text_cmp-IsOrder) (
                  then_cmp-IsOrder (on-IsOrder (λ e. e.extractor) text_cmp-IsOrder) (
                    then_cmp-IsOrder (on-IsOrder (λ e. e.confidence) compare-IsOrder)
                      (on-IsOrder (λ e. e.verified) bool_cmp-IsOrder))))))))))

-- Sorting what is in strict order changes nothing.
pub sort-Ascends :
    {A : Type 0} {cmp : A → A → Ordering} (O : IsOrder cmp) (xs : List A)
    → Ascends cmp xs
    → sort cmp xs ≡ xs
unfolding sort insert_sorted
sort-Ascends O [] h = refl
sort-Ascends O (x ∷ []) h = refl
sort-Ascends {cmp = cmp} O (x ∷ y ∷ ys) h =
    let after : cmp y x ≡ Ordering.gt = O.reversed x y ∙ rw (h.0.0) refl in
    rw (sort-Ascends O (y ∷ ys) h.1) (rw (after, insert_sorted) refl)

-- The two ends of an edge are found at these places.
abbrev Ends : Map ℕ → GraphEdge → ℕ → ℕ → Type 0
Ends indexes e s t = (get e.source indexes ≡ some s) × (get e.target indexes ≡ some t)

-- Keys are compared as their edges are.
key_cmp-edge_cmp :
    (nodes : List GraphNode) (e f : GraphEdge) {s t s' t' : ℕ}
    → Ascends node_cmp nodes
    → Ends (node_indexes nodes) e s t
    → Ends (node_indexes nodes) f s' t'
    → key_cmp (s, t, e) (s', t', f) ≡ edge_cmp e f
unfolding key_cmp edge_cmp
key_cmp-edge_cmp nodes e f {s} {t} {s'} {t'} sorted E F =
    let at = λ (id : List ℕ). sym (get-node_indexes nodes id sorted) in
    let sources =
      compare-position nodes e.source f.source s s' sorted (at e.source ∙ E.0)
        (at f.source ∙ F.0) in
    let targets =
      compare-position nodes e.target f.target t t' sorted (at e.target ∙ E.1)
        (at f.target ∙ F.1) in
    rw (sources, targets) refl

-- A step of the loop that succeeds.
validate_edges_cons :
    (nodes : List GraphNode) (indexes : Map ℕ) (previous : Option EdgeKey) (e : GraphEdge)
    (edges : List GraphEdge)
    → validate_edges nodes indexes previous (e ∷ edges) ≡ ok tt
    → (key : EdgeKey) × (validate_edge nodes indexes previous e ≡ ok key)
      × (validate_edges nodes indexes (some key) edges ≡ ok tt)
unfolding validate_edges
validate_edges_cons nodes indexes previous e edges run =
    bind-ok (validate_edge nodes indexes previous e) _ run

validate_edge-Ensures :
    (nodes : List GraphNode) (indexes : Map ℕ) (previous : Option EdgeKey) (edge : GraphEdge)
    → Ensures
        (λ key.
          Ends indexes edge key.0 key.1
          × (key ≡ (key.0, key.1, edge))
          × (is_after previous key ≡ true))
        (validate_edge nodes indexes previous edge)
unfolding validate_edge
validate_edge-Ensures nodes indexes previous edge =
    Ensures-ok_or (get edge.source indexes) _ _ λ s source.
      Ensures-ok_or (get edge.target indexes) _ _ λ t target.
        Ensures-ok_or (get edge.evidence.node indexes) _ _ λ v evidence.
          Ensures-ok_or (get_elem? nodes s) _ _ λ a _. Ensures-ok_or (get_elem? nodes t) _ _ λ b _.
            Ensures-ok_or (get_elem? nodes v) _ _ λ c _. Ensures-guard (same_scope a b c) _ _ λ _.
              Ensures-guard (span_is_valid edge) _ _ λ _. Ensures-guard (has_metadata edge) _ _ λ _.
                Ensures-guard (is_after previous (s, t, edge)) _ _
                  λ after. Ensures-ok (s, t, edge) ((source, target), refl, after)

-- The edges that were accepted are in strict order, behind the one before them.
validate_edges-sorted :
    (nodes : List GraphNode) (before : GraphEdge) (s t : ℕ) (edges : List GraphEdge)
    → Ascends node_cmp nodes
    → Ends (node_indexes nodes) before s t
    → validate_edges nodes (node_indexes nodes) (some (s, t, before)) edges ≡ ok tt
    → strictly_sorted edge_cmp (before ∷ edges) ≡ true
validate_edges-sorted nodes before s t [] sorted E run = refl
validate_edges-sorted nodes before s t (e ∷ edges) sorted E run =
    let (key, found, rest) =
      validate_edges_cons nodes (node_indexes nodes) (some (s, t, before)) e edges run in
    let (ends, key_is, after) =
      (validate_edge-Ensures nodes (node_indexes nodes) (some (s, t, before)) e).at key found in
    let order = key_cmp-edge_cmp nodes before e sorted E ends in
    let more = validate_edges-sorted nodes e key.0 key.1 edges sorted ends (rw (← key_is) rest) in
    let after_edge =
      ap is_lt (sym order) ∙ ap (λ k. is_lt (key_cmp (s, t, before) k)) (sym key_is) ∙ after in
    (and_iff (is_lt (edge_cmp before e)) (strictly_sorted edge_cmp (e ∷ edges))).1
      (after_edge, more)

pub validate_edges-Ascends :
    (nodes : List GraphNode) (edges : List GraphEdge)
    → Ascends node_cmp nodes
    → validate_edges nodes (node_indexes nodes) none edges ≡ ok tt
    → Ascends edge_cmp edges
validate_edges-Ascends nodes [] sorted run = tt
validate_edges-Ascends nodes (e ∷ edges) sorted run =
    let (key, found, rest) = validate_edges_cons nodes (node_indexes nodes) none e edges run in
    let (ends, key_is, _) =
      (validate_edge-Ensures nodes (node_indexes nodes) none e).at key found in
    strictly_sorted-Ascends edge_cmp-IsOrder (e ∷ edges)
      (validate_edges-sorted nodes e key.0 key.1 edges sorted ends (rw (← key_is) rest))
