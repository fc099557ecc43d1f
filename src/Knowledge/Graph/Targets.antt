-- ===== src/Knowledge/Graph/Targets.antt =====
-- The reverse index of crates/vesc-knowledge-index/src/graph.rs against the edges of each target.
use mathlib.Core.Path.{subst}
use mathlib.Core.Option
use mathlib.Core.Option.{some-injective}
use vesc_mcp.Prelude.{
  ℕ, zero, suc, ◌+◌, ◌<◌, ◌≤◌, ◌≡◌, refl, sym, ap, ◌∙◌, List, [], ◌∷◌, ◌++◌, Option, none, some,
  arith, All, length, replicate, get_elem?, group, tally, below, below-zero, below-suc, Ascends,
  Ordering,
}
use vesc_mcp.Knowledge.Graph.{GraphNode, GraphEdge, edge_cmp}
use vesc_mcp.Knowledge.Graph.Index.{EdgeIndex, node_indexes}
use vesc_mcp.Knowledge.Graph.Collected.{numbered, target_index, IsCollected}
use vesc_mcp.Knowledge.Graph.Reverse.{start_of, start_of-suc}

abbrev pub index_cmp : EdgeIndex → EdgeIndex → Ordering
index_cmp left right = edge_cmp left.1 right.1

All-numbered :
    (e : GraphEdge) (i : ℕ) (edges : List GraphEdge)
    → All (λ f. edge_cmp e f ≡ Ordering.lt) edges
    → (j : ℕ) → All (λ p. index_cmp (j, e) p ≡ Ordering.lt) (numbered i edges)
All-numbered e i [] h j = tt
All-numbered e i (f ∷ edges) h j = (h.0, All-numbered e (suc i) edges h.1 j)

pub Ascends-numbered :
    (i : ℕ) (edges : List GraphEdge) → Ascends edge_cmp edges → Ascends index_cmp (numbered i edges)
Ascends-numbered i [] h = tt
Ascends-numbered i (e ∷ edges) h =
    (All-numbered e (suc i) edges h.0 i, Ascends-numbered (suc i) edges h.1)

-- The edge that an index of `numbered` names.
pub numbered-named :
    (whole : List GraphEdge) (i : ℕ) (edges : List GraphEdge)
    → ((j : ℕ) → get_elem? whole (i + j) ≡ get_elem? edges j)
    → All (λ p. get_elem? whole p.0 ≡ some p.1) (numbered i edges)
numbered-named whole i [] h = tt
numbered-named whole i (e ∷ edges) h =
    let here : i + 0 ≡ i = omega arith in
    let shift : (j : ℕ) → suc i + j ≡ i + suc j = λ j. omega arith in
    (
      subst (λ n. get_elem? whole n ≡ some e) here (h 0),
      numbered-named whole (suc i) edges (λ j. ap (get_elem? whole) (shift j) ∙ h (suc j)),
    )

pub numbered-lt :
    (i : ℕ) (edges : List GraphEdge) → All (λ p. p.0 < i + length edges) (numbered i edges)
numbered-lt i [] = tt
numbered-lt i (e ∷ edges) =
    let shift : suc i + length edges ≡ i + suc (length edges) = omega arith in
    (
      omega arith,
      subst (λ n. All (λ p. p.0 < n) (numbered (suc i) edges)) shift (numbered-lt (suc i) edges),
    )

pub length-numbered : (i : ℕ) (edges : List GraphEdge) → length (numbered i edges) ≡ length edges
length-numbered i [] = refl
length-numbered i (e ∷ edges) = ap suc (length-numbered (suc i) edges)

get_elem?-replicate_nil :
    (n t : ℕ) (g : List EdgeIndex)
    → get_elem? {A = List EdgeIndex} (replicate n []) t ≡ some g
    → g ≡ []
get_elem?-replicate_nil zero t g h = absurd (cc)
get_elem?-replicate_nil (suc n) zero g h = sym (some-injective _ _ h)
get_elem?-replicate_nil (suc n) (suc t) g h = get_elem?-replicate_nil n t g h

get_elem?-replicate_lt :
    (n t : ℕ) → t < n → get_elem? {A = List EdgeIndex} (replicate n []) t ≡ some []
get_elem?-replicate_lt zero t h = absurd (omega arith)
get_elem?-replicate_lt (suc n) zero h = refl
get_elem?-replicate_lt (suc n) (suc t) h = get_elem?-replicate_lt n t (omega arith)

abbrev appended : List EdgeIndex → Option (List EdgeIndex) → Option (List EdgeIndex)
appended more o = Option.map (λ g. g ++ more) o

appended-some :
    (more g : List EdgeIndex) (o : Option (List EdgeIndex))
    → ((x : List EdgeIndex) → o ≡ some x → x ≡ [])
    → appended more o ≡ some g
    → g ≡ more
appended-some more g none empty h = absurd (cc)
appended-some more g (some x) empty h =
    sym (some-injective _ _ h) ∙ ap (λ y. y ++ more) (empty x refl)

module _ (nodes : List GraphNode) (edges : List GraphEdge) (groups : List (List EdgeIndex))
    (C : IsCollected (node_indexes nodes) 0 (replicate (length nodes) []) edges groups) where
  abbrev pub key : EdgeIndex → ℕ
  key = target_index (node_indexes nodes)

  -- Each group has the edges of its target.
  pub group_is :
      (t : ℕ) (g : List EdgeIndex)
      → get_elem? groups t ≡ some g
      → g ≡ group key t (numbered 0 edges)
  group_is t g at =
      appended-some (group key t (numbered 0 edges)) g (get_elem? (replicate (length nodes) []) t)
        (get_elem?-replicate_nil (length nodes) t) (sym (C.groups t) ∙ at)

  pub group_at :
      (t : ℕ) → t < length nodes → get_elem? groups t ≡ some (group key t (numbered 0 edges))
  group_at t h =
      C.groups t
      ∙ ap (appended (group key t (numbered 0 edges))) (get_elem?-replicate_lt (length nodes) t h)

  pub start_of-below :
      (t : ℕ) → t ≤ length nodes → start_of t groups ≡ below key t (numbered 0 edges)
  start_of-below zero h = sym (below-zero key (numbered 0 edges))
  start_of-below (suc t) h =
      start_of-suc t groups (group key t (numbered 0 edges)) (group_at t (omega arith))
      ∙ ap (λ n. n + tally key t (numbered 0 edges)) (start_of-below t (omega arith))
      ∙ sym (below-suc key t (numbered 0 edges))
