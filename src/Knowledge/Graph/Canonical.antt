-- ===== src/Knowledge/Graph/Canonical.antt =====
-- The order of the nodes and of the edges does not affect what `GraphArtifact::new` of
-- crates/vesc-knowledge-index/src/graph.rs makes of them.
use mathlib.Core.List.{Permᴰ}
use mathlib.Core.Path.{subst}
use vesc_mcp.Prelude.{
  ◌≡◌, ◌≢◌, refl, sym, ap, ◌∙◌, List, [], ◌∷◌, Ordering, arith, All, IsOrder, Ascends, ok, bind-ok,
  ok-injective, on-IsOrder,
}
use vesc_mcp.Text.{text_cmp-IsOrder}
use vesc_mcp.Text.Utf8.{Bytes}
use vesc_mcp.Knowledge.Investigation.Audit.{sort, insert_sorted}
use vesc_mcp.Knowledge.Sorting.{placed, insert_sorted_cons, All-insert_sorted, All-sort}
use vesc_mcp.Knowledge.Graph.{ContentDigest, GraphNode, GraphEdge, GraphArtifact, edge_cmp}
use vesc_mcp.Knowledge.Graph.Index.{build_forward_index, build_reverse_index}
use vesc_mcp.Knowledge.Graph.Validate.{validate, new_graph}
use vesc_mcp.Knowledge.Graph.Position.{node_cmp}
use vesc_mcp.Knowledge.Graph.Valid.{IsValid, validate-IsValid}
use vesc_mcp.Knowledge.Graph.EdgeOrder.{edge_cmp-IsOrder, validate_edges-Ascends}

All-Perm : {A : Type 0} (P : A → Type 0) {xs ys : List A} → Permᴰ xs ys → All P xs → All P ys
All-Perm P Permᴰ.nil h = tt
All-Perm P (Permᴰ.cons same p) h = (subst P same h.0, All-Perm P p h.1)
All-Perm P (Permᴰ.swap first second) h = (subst P second h.1.0, (subst P first h.0, h.1.1))
All-Perm P (Permᴰ.trans p q) h = All-Perm P q (All-Perm P p h)

-- What `new` returns has the sorted nodes and edges, and is valid.
pub new_graph-IsValid :
    (sha256 : Bytes → ContentDigest) (digest : ContentDigest) (nodes : List GraphNode)
    (edges : List GraphEdge) (graph : GraphArtifact)
    → new_graph sha256 digest nodes edges ≡ ok graph
    → IsValid sha256 graph
      × (graph.nodes ≡ sort node_cmp nodes)
      × (graph.edges ≡ sort edge_cmp edges)
unfolding new_graph
new_graph-IsValid sha256 digest nodes edges graph run =
    let (forward, _, after) =
      bind-ok (build_forward_index (sort node_cmp nodes) (sort edge_cmp edges)) _ run in
    let (reverse, _, then) =
      bind-ok (build_reverse_index (sort node_cmp nodes) (sort edge_cmp edges)) _ after in
    let (_, accepted, out) = bind-ok (validate sha256 _) _ then in
    let is = ok-injective out in
    (
      subst (IsValid sha256) is ((validate-IsValid sha256 _).at tt accepted),
      sym (ap (λ g. g.nodes) is),
      sym (ap (λ g. g.edges) is),
    )

module _ {A : Type 0} {cmp : A → A → Ordering} (O : IsOrder cmp) where
  -- Two insertions of elements that are not equal commute.
  insert_sorted_swap :
      (x y : A) (zs : List A)
      → cmp x y ≢ Ordering.eq
      → insert_sorted cmp x (insert_sorted cmp y zs) ≡ insert_sorted cmp y (insert_sorted cmp x zs)
  unfolding insert_sorted
  insert_sorted_swap x y [] differ = ground (arith, differ, O.reversed x y)
  insert_sorted_swap x y (z ∷ zs) differ = ground (
    arith,
    differ,
    insert_sorted_swap x y zs,
    O.reversed x y,
    O.reversed x z,
    O.reversed y z,
    O.lt_trans x y z,
    O.lt_trans y x z,
    O.lt_trans z x y,
    O.lt_trans z y x,
    O.lt_trans x z y,
    O.lt_trans y z x,
    O.eq_left z x y,
    O.eq_left z y x,
    O.eq_left x y z,
    O.eq_right x y z,
    O.eq_right z x y,
  )

  -- No two elements are equal in the order.
  abbrev Apart : List A → Type 0
  Apart [] = Unit
  Apart (x ∷ xs) = All (λ y. cmp x y ≢ Ordering.eq) xs × Apart xs

  Apart-Perm : {xs ys : List A} → Permᴰ xs ys → Apart xs → Apart ys
  Apart-Perm Permᴰ.nil h = tt
  Apart-Perm (Permᴰ.cons {a = a} {b = b} {l₂ = l} same p) h = (
    subst (λ x. All (λ y. cmp x y ≢ Ordering.eq) l) same
        (All-Perm (λ y. cmp a y ≢ Ordering.eq) p h.0),
    Apart-Perm p h.1,
  )
  Apart-Perm (Permᴰ.swap {a = a} {b = b} {b' = b'} {l = l} first second) h =
      let other : cmp b a ≢ Ordering.eq = λ e. h.0.0 (ground (arith, e, O.reversed a b)) in
      subst (λ x. Apart (x ∷ b' ∷ l)) second
        (subst (λ y. Apart (b ∷ y ∷ l)) first ((other, h.1.0), (h.0.1, h.1.1)))
  Apart-Perm (Permᴰ.trans p q) h = Apart-Perm q (Apart-Perm p h)

  -- Sorting forgets the order of elements that are apart.
  sort-Perm : {xs ys : List A} → Permᴰ xs ys → Apart xs → sort cmp xs ≡ sort cmp ys
  unfolding sort
  sort-Perm Permᴰ.nil h = refl
  sort-Perm (Permᴰ.cons {l₂ = l} same p) h =
      rw (sort-Perm p h.1) (ap (λ x. insert_sorted cmp x (sort cmp l)) same)
  sort-Perm (Permᴰ.swap {a = a} {b = b} {a' = a'} {l = l} first second) h =
      insert_sorted_swap a b (sort cmp l) h.0.0
      ∙ ap (λ x. insert_sorted cmp x (insert_sorted cmp a (sort cmp l))) second
      ∙ ap (λ y. insert_sorted cmp a' (insert_sorted cmp y (sort cmp l))) first
  sort-Perm (Permᴰ.trans p q) h = sort-Perm p h ∙ sort-Perm q (Apart-Perm p h)

  lt-apart :
      (a : A) (xs : List A)
      → All (λ y. cmp a y ≡ Ordering.lt) xs
      → All (λ y. cmp a y ≢ Ordering.eq) xs
  lt-apart a [] h = tt
  lt-apart a (x ∷ xs) h = ((λ e. ground (arith, e, h.0)), lt-apart a xs h.1)

  Ascends-placed :
      (o : Ordering) (a b : A) (bs rest : List A)
      → cmp b a ≡ o
      → ((P : A → Type 0) → All P rest → P a × All P bs)
      → (Ascends cmp rest → All (λ y. cmp a y ≢ Ordering.eq) bs × Ascends cmp bs)
      → Ascends cmp (placed o a b bs rest)
      → All (λ y. cmp a y ≢ Ordering.eq) (b ∷ bs) × Ascends cmp (b ∷ bs)
  Ascends-placed Ordering.lt a b bs rest is all inner h =
      let (apart, ascends) = inner h.1 in
      let differ : cmp a b ≢ Ordering.eq = λ e. ground (arith, e, is, O.reversed a b) in
      ((differ, apart), ((all (λ y. cmp b y ≡ Ordering.lt) h.0).1, ascends))
  Ascends-placed Ordering.eq a b bs rest is all inner h = (lt-apart a (b ∷ bs) h.0, h.1)
  Ascends-placed Ordering.gt a b bs rest is all inner h = (lt-apart a (b ∷ bs) h.0, h.1)

  Ascends-insert_sorted :
      (a : A) (xs : List A)
      → Ascends cmp (insert_sorted cmp a xs)
      → All (λ y. cmp a y ≢ Ordering.eq) xs × Ascends cmp xs
  Ascends-insert_sorted a [] h = (tt, tt)
  Ascends-insert_sorted a (b ∷ bs) h =
      Ascends-placed (cmp b a) a b bs (insert_sorted cmp a bs) refl
        (λ P. All-insert_sorted cmp P a bs) (Ascends-insert_sorted a bs)
        (subst (Ascends cmp) (insert_sorted_cons cmp a b bs) h)

  -- What sorts into strict order has no two equal elements.
  Ascends-Apart : (xs : List A) → Ascends cmp (sort cmp xs) → Apart xs
  unfolding sort
  Ascends-Apart [] h = tt
  Ascends-Apart (x ∷ xs) h =
      let (apart, rest) = Ascends-insert_sorted x (sort cmp xs) h in
      (All-sort cmp (λ y. cmp x y ≢ Ordering.eq) xs apart, Ascends-Apart xs rest)

  pub sort_cong-Perm :
      {xs ys : List A} → Permᴰ xs ys → Ascends cmp (sort cmp xs) → sort cmp xs ≡ sort cmp ys
  sort_cong-Perm {xs = xs} p h = sort-Perm p (Ascends-Apart xs h)

-- When `GraphArtifact::new` makes an artifact of some nodes and edges, it makes the same artifact of
-- the same nodes and edges in any other order.
pub new_graph-Perm :
    (sha256 : Bytes → ContentDigest) (digest : ContentDigest) {nodes nodes' : List GraphNode}
    {edges edges' : List GraphEdge} (graph : GraphArtifact)
    → Permᴰ nodes nodes'
    → Permᴰ edges edges'
    → new_graph sha256 digest nodes edges ≡ ok graph
    → new_graph sha256 digest nodes' edges' ≡ ok graph
unfolding new_graph
new_graph-Perm sha256 digest {nodes = nodes} {edges = edges} graph p q run =
    let (V, nodes_are, edges_are) = new_graph-IsValid sha256 digest nodes edges graph run in
    let in_order = subst (Ascends node_cmp) nodes_are V.sorted in
    let edges_in_order =
      subst (Ascends edge_cmp) edges_are
        (validate_edges-Ascends graph.nodes graph.edges V.sorted V.edges_valid) in
    let same_nodes = sort_cong-Perm (on-IsOrder (λ n. n.id) text_cmp-IsOrder) p in_order in
    let same_edges = sort_cong-Perm edge_cmp-IsOrder q edges_in_order in
    rw (← same_nodes, ← same_edges) run
