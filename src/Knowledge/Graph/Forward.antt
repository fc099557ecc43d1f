-- ===== src/Knowledge/Graph/Forward.antt =====
-- The forward index of crates/vesc-knowledge-index/src/graph.rs against the edges of each source.
use mathlib.Core.Option
use vesc_mcp.Prelude.{
  ℕ, zero, suc, ◌+◌, ◌^◌, ◌<◌, ◌≤◌, ◌≡◌, refl, ap, ◌∙◌, sym, true, false, not, List, [], ◌∷◌,
  Option, none, some, arith, ltb, ◌==◌, length, replicate, get_elem?, All, tally, below, Rises,
  below-zero, below-suc, Ensures, Ensures-ok, Ensures-ok_or, Ensures-guard, Ensures-bind,
}
use vesc_mcp.Map.{Map, get}
use vesc_mcp.Knowledge.Graph.{GraphNode, GraphEdge}
use vesc_mcp.Knowledge.Graph.Index.{
  goes_back, increment, count_edges, sum_counts, node_indexes, build_forward_index,
}

abbrev pub or_zero : Option ℕ → ℕ
or_zero none = 0
or_zero (some i) = i

-- The index of the source of an edge.
abbrev pub source_index : Map ℕ → GraphEdge → ℕ
source_index indexes edge = or_zero (get edge.source indexes)

abbrev pub AreSources : Map ℕ → List GraphEdge → Type 0
AreSources indexes edges = All (λ e. get e.source indexes ≡ some (source_index indexes e)) edges

abbrev plus : ℕ → Option ℕ → Option ℕ
plus n o = Option.map (λ m. m + n) o

get_elem?-increment :
    (k i : ℕ) (counts : List ℕ)
    → get_elem? (increment k counts) i
      ≡ plus (elim (k == i) [ true ↦ 1 | false ↦ 0 ]) (get_elem? counts i)
unfolding increment
get_elem?-increment k i [] = refl
get_elem?-increment zero zero (c ∷ counts) = ground arith
get_elem?-increment zero (suc i) (c ∷ counts) = ground (arith)
get_elem?-increment (suc k) zero (c ∷ counts) = ground arith
get_elem?-increment (suc k) (suc i) (c ∷ counts) = ground (arith, get_elem?-increment k i counts)

length-increment : (k : ℕ) (counts : List ℕ) → length (increment k counts) ≡ length counts
unfolding increment
length-increment k [] = refl
length-increment zero (c ∷ counts) = refl
length-increment (suc k) (c ∷ counts) = ap suc (length-increment k counts)

length-replicate : (n : ℕ) → length (replicate {A = ℕ} n 0) ≡ n
length-replicate zero = refl
length-replicate (suc n) = ap suc (length-replicate n)

plus-plus : (a b : ℕ) (o : Option ℕ) → plus a (plus b o) ≡ plus (a + b) o
plus-plus a b none = refl
plus-plus a b (some m) = ground arith

abbrev AtLeast : Map ℕ → ℕ → List GraphEdge → Type 0
AtLeast indexes p edges = All (λ e. p ≤ source_index indexes e) edges

AtLeast-le :
    (indexes : Map ℕ) (p q : ℕ) (edges : List GraphEdge)
    → p ≤ q
    → AtLeast indexes q edges
    → AtLeast indexes p edges
AtLeast-le indexes p q [] h all = tt
AtLeast-le indexes p q (e ∷ edges) h all =
    (omega (arith, all.0), AtLeast-le indexes p q edges h all.1)

-- What the loop over the edges leaves in the counts, and what it has checked.
record Counted (indexes : Map ℕ) (source : Option ℕ) (counts : List ℕ) (edges : List GraphEdge)
    (counted : List ℕ) : Type 0 where
  pub sources : AreSources indexes edges
  pub rises : Rises (source_index indexes) edges
  pub at_least : AtLeast indexes (or_zero source) edges
  pub size : length counted ≡ length counts
  pub counts_are :
      (i : ℕ)
      → get_elem? counted i ≡ plus (tally (source_index indexes) i edges) (get_elem? counts i)

plus_zero : (o : Option ℕ) → o ≡ plus 0 o
plus_zero none = refl
plus_zero (some m) = ground arith

Counted-cons :
    (indexes : Map ℕ) (source : Option ℕ) (counts counted : List ℕ) (e : GraphEdge)
    (edges : List GraphEdge) (index : ℕ)
    → get e.source indexes ≡ some index
    → or_zero source ≤ index
    → Counted indexes (some index) (increment index counts) edges counted
    → Counted indexes source counts (e ∷ edges) counted
Counted-cons indexes source counts counted e edges index found above C =
    let same : source_index indexes e ≡ index = rw found refl in
    record {
      sources = (found ∙ ap some (sym same), C.sources);
      rises = (
        AtLeast-le indexes (source_index indexes e) index edges (omega (arith, same)) C.at_least,
        C.rises,
      );
      at_least = (
        omega (arith, same, above),
        AtLeast-le indexes (or_zero source) index edges above C.at_least,
      );
      size = C.size ∙ length-increment index counts;
      counts_are = λ i.
          C.counts_are i
          ∙ ap (plus (tally (source_index indexes) i edges)) (get_elem?-increment index i counts)
          ∙ plus-plus _ _ (get_elem? counts i)
          ∙ ap (λ n. plus n (get_elem? counts i)) (ground (arith, same));
    }

goes_back-le :
    (source : Option ℕ) (index : ℕ) → not (goes_back source index) ≡ true → or_zero source ≤ index
goes_back-le none index h = omega arith
goes_back-le (some p) index h = ground (arith, h)

count_edges-Ensures :
    (indexes : Map ℕ) (source : Option ℕ) (counts : List ℕ) (edges : List GraphEdge)
    → Ensures (Counted indexes source counts edges) (count_edges indexes source counts edges)
unfolding count_edges
count_edges-Ensures indexes source counts [] = Ensures-ok counts (record {
  sources = tt;
  rises = tt;
  at_least = tt;
  size = refl;
  counts_are = λ i. plus_zero (get_elem? counts i);
})
count_edges-Ensures indexes source counts (e ∷ edges) =
    Ensures-ok_or (get e.source indexes) _ _ λ index found. Ensures-guard _ _ _ λ forward. record {
      at = λ counted run.
          Counted-cons indexes source counts counted e edges index found
            (goes_back-le source index forward)
            ((count_edges-Ensures indexes (some index) (increment index counts) edges).at counted
              run);
    }

abbrev pub AreSums : ℕ → List ℕ → List ℕ → Type 0
AreSums last counts offsets =
    (i o c : ℕ)
    → get_elem? (last ∷ offsets) i ≡ some o
    → get_elem? counts i ≡ some c
    → get_elem? offsets i ≡ some (o + c)

-- One offset for each count, which is the one before plus the count.
record Summed (last : ℕ) (counts offsets : List ℕ) : Type 0 where
  pub size : length offsets ≡ length counts
  pub sums : AreSums last counts offsets

AreSums-cons :
    (last count : ℕ) (counts offsets : List ℕ)
    → AreSums (last + count) counts offsets
    → AreSums last (count ∷ counts) ((last + count) ∷ offsets)
AreSums-cons last count counts offsets sums zero o c e f = ground (arith, e, f)
AreSums-cons last count counts offsets sums (suc i) o c e f = sums i o c e f

sum_counts-Ensures :
    (last : ℕ) (counts : List ℕ) → Ensures (Summed last counts) (sum_counts last counts)
unfolding sum_counts
sum_counts-Ensures last [] = Ensures-ok [] (record { size = refl; sums = λ i o c e f. absurd (cc) })
sum_counts-Ensures last (count ∷ counts) = Ensures-guard (ltb (last + count) (2 ^ 32)) _ _ λ small.
    Ensures-bind (sum_counts (last + count) counts) _ λ offsets run.
      Ensures-ok ((last + count) ∷ offsets) (
        let S = (sum_counts-Ensures (last + count) counts).at offsets run in
        record { size = ap suc S.size; sums = AreSums-cons last count counts offsets S.sums })

get_elem?-replicate : (n i : ℕ) → i < n → get_elem? {A = ℕ} (replicate n 0) i ≡ some 0
get_elem?-replicate zero i h = absurd (omega arith)
get_elem?-replicate (suc n) zero h = refl
get_elem?-replicate (suc n) (suc i) h = get_elem?-replicate n i (omega arith)

-- Every offset is the number of edges with a source before its node.
pub record IsForward (nodes : List GraphNode) (edges : List GraphEdge) (offsets : List ℕ)
    : Type 0 where
  pub size : length offsets ≡ suc (length nodes)
  pub sources : AreSources (node_indexes nodes) edges
  pub rises : Rises (source_index (node_indexes nodes)) edges
  pub offset :
      (i : ℕ)
      → i ≤ length nodes
      → get_elem? offsets i ≡ some (below (source_index (node_indexes nodes)) i edges)

offset-below :
    (nodes : List GraphNode) (edges : List GraphEdge) (counts offsets : List ℕ)
    → Counted (node_indexes nodes) none (replicate (length nodes) 0) edges counts
    → AreSums 0 counts offsets
    → (i : ℕ) → i ≤ length nodes
    → get_elem? (0 ∷ offsets) i ≡ some (below (source_index (node_indexes nodes)) i edges)
offset-below nodes edges counts offsets C sums zero h =
    ap some (sym (below-zero (source_index (node_indexes nodes)) edges))
offset-below nodes edges counts offsets C sums (suc i) h =
    let key = source_index (node_indexes nodes) in
    sums i (below key i edges) (tally key i edges)
      (offset-below nodes edges counts offsets C sums i (omega arith))
      (C.counts_are i ∙ rw (get_elem?-replicate (length nodes) i (omega arith)) (ground arith))
    ∙ ap some (sym (below-suc key i edges))

pub build_forward_index-Ensures :
    (nodes : List GraphNode) (edges : List GraphEdge)
    → Ensures (IsForward nodes edges) (build_forward_index nodes edges)
unfolding build_forward_index
build_forward_index-Ensures nodes edges =
    Ensures-bind (count_edges (node_indexes nodes) none (replicate (length nodes) 0) edges) _
      λ counts counted.
        let C =
          (count_edges-Ensures (node_indexes nodes) none (replicate (length nodes) 0) edges).at
            counts counted in
        Ensures-bind (sum_counts 0 counts) _ λ offsets summed.
          let S = (sum_counts-Ensures 0 counts).at offsets summed in
          Ensures-ok (0 ∷ offsets) (record {
            size = ap suc (S.size ∙ C.size ∙ length-replicate (length nodes));
            sources = C.sources;
            rises = C.rises;
            offset = offset-below nodes edges counts offsets C S.sums;
          })
