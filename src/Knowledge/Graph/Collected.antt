-- ===== src/Knowledge/Graph/Collected.antt =====
-- What `build_reverse_index` of crates/vesc-knowledge-index/src/graph.rs collects for each node.
use mathlib.Core.Option
use vesc_mcp.Prelude.{
  ℕ, zero, suc, ◌≡◌, refl, sym, ap, ◌∙◌, List, [], ◌∷◌, ◌++◌, Option, none, some, arith, ◌==◌,
  length, get_elem?, All, group, append_assoc, append-nil, Ensures, Ensures-ok, Ensures-ok_or,
  if◌then◌else◌,
}
use vesc_mcp.Map.{Map, get}
use vesc_mcp.Knowledge.Graph.{GraphEdge}
use vesc_mcp.Knowledge.Graph.Index.{EdgeIndex, push_at, collect_incoming}
use vesc_mcp.Knowledge.Graph.Forward.{or_zero}

-- The edges with their indexes, from `i` on.
abbrev pub numbered : ℕ → List GraphEdge → List EdgeIndex
numbered i [] = []
numbered i (e ∷ edges) = (i, e) ∷ numbered (suc i) edges

abbrev pub target_index : Map ℕ → EdgeIndex → ℕ
target_index indexes p = or_zero (get p.1.target indexes)

abbrev pub followed_by : List EdgeIndex → Option (List EdgeIndex) → Option (List EdgeIndex)
followed_by more o = Option.map (λ g. g ++ more) o

followed_by_nothing : (o : Option (List EdgeIndex)) → o ≡ followed_by [] o
followed_by_nothing none = refl
followed_by_nothing (some g) = ap some (sym (append-nil g))

get_elem?-push_at :
    (k t : ℕ) (p : EdgeIndex) (groups : List (List EdgeIndex))
    → get_elem? (push_at k p groups) t
      ≡ followed_by (if k == t then p ∷ [] else []) (get_elem? groups t)
unfolding push_at
get_elem?-push_at k t p [] = refl
get_elem?-push_at zero zero p (g ∷ groups) = refl
get_elem?-push_at zero (suc t) p (g ∷ groups) =
    ground (arith, followed_by_nothing (get_elem? groups t))
get_elem?-push_at (suc k) zero p (g ∷ groups) = ground (arith, append-nil g)
get_elem?-push_at (suc k) (suc t) p (g ∷ groups) = ground (arith, get_elem?-push_at k t p groups)

length-push_at :
    (k : ℕ) (p : EdgeIndex) (groups : List (List EdgeIndex))
    → length (push_at k p groups) ≡ length groups
unfolding push_at
length-push_at k p [] = refl
length-push_at zero p (g ∷ groups) = refl
length-push_at (suc k) p (g ∷ groups) = ap suc (length-push_at k p groups)

followed_by_twice :
    (xs ys : List EdgeIndex) (o : Option (List EdgeIndex))
    → followed_by ys (followed_by xs o) ≡ followed_by (xs ++ ys) o
followed_by_twice xs ys none = refl
followed_by_twice xs ys (some g) = ap some (append_assoc g xs ys)

pub record IsCollected (indexes : Map ℕ) (i : ℕ) (incoming : List (List EdgeIndex))
    (edges : List GraphEdge) (collected : List (List EdgeIndex)) : Type 0 where
  pub targets : All (λ e. get e.target indexes ≡ some (or_zero (get e.target indexes))) edges
  pub size : length collected ≡ length incoming
  pub groups :
      (t : ℕ)
      → get_elem? collected t
        ≡ followed_by (group (target_index indexes) t (numbered i edges)) (get_elem? incoming t)

IsCollected-cons :
    (indexes : Map ℕ) (i : ℕ) (incoming collected : List (List EdgeIndex)) (e : GraphEdge)
    (edges : List GraphEdge) (target : ℕ)
    → get e.target indexes ≡ some target
    → IsCollected indexes (suc i) (push_at target (i, e) incoming) edges collected
    → IsCollected indexes i incoming (e ∷ edges) collected
IsCollected-cons indexes i incoming collected e edges target found C =
    let same : or_zero (get e.target indexes) ≡ target = rw found refl in
    record {
      targets = (found ∙ ap some (sym same), C.targets);
      size = C.size ∙ length-push_at target (i, e) incoming;
      groups = λ t.
          C.groups t
          ∙ ap (followed_by (group (target_index indexes) t (numbered (suc i) edges)))
              (get_elem?-push_at target t (i, e) incoming)
          ∙ followed_by_twice _ _ (get_elem? incoming t)
          ∙ ap (λ g. followed_by g (get_elem? incoming t)) (ground (arith, same));
    }

pub collect_incoming-Ensures :
    (indexes : Map ℕ) (i : ℕ) (incoming : List (List EdgeIndex)) (edges : List GraphEdge)
    → Ensures (IsCollected indexes i incoming edges) (collect_incoming indexes i incoming edges)
unfolding collect_incoming
collect_incoming-Ensures indexes i incoming [] =
    Ensures-ok incoming (record {
      targets = tt;
      size = refl;
      groups = λ t. followed_by_nothing (get_elem? incoming t);
    })
collect_incoming-Ensures indexes i incoming (e ∷ edges) =
    Ensures-ok_or (get e.target indexes) _ _ λ target found. record {
      at = λ collected run. IsCollected-cons indexes i incoming collected e edges target found (
          (collect_incoming-Ensures indexes (suc i) (push_at target (i, e) incoming) edges).at
            collected run);
    }
