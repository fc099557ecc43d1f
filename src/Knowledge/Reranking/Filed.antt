-- ===== src/Knowledge/Reranking/Filed.antt =====
-- The rows of each facet in crates/vesc-knowledge-index/src/reranking.rs.

use mathlib.Core.Path.{subst}
use vesc_mcp.Prelude.{
  ℕ, zero, suc, ◌≡◌, refl, sym, Bool, true, false, List, [], ◌∷◌, ◌++◌, Ordering, All,
  if◌then◌else◌, take, Bool-cases, inl, inr,
}
use vesc_mcp.Text.{Text, text_eq, text_eq_iff, text_cmp}
use vesc_mcp.Map.{Map, get, insert}
use vesc_mcp.Knowledge.Investigation.{FacetRequirement}
use vesc_mcp.Knowledge.Investigation.Audit.{sort, insert_sorted}
use vesc_mcp.Knowledge.Sorting.{placed, insert_sorted_cons}
use vesc_mcp.Knowledge.Reranking.{
  FacetCandidate, facet_matches, rows_of, file_candidate, dedup_after, dedup_rows,
}

module _ {A : Type 0} (P : A → Type 0) where
  All-snoc : (xs : List A) (x : A) → All P xs → P x → All P (xs ++ x ∷ [])
  All-snoc [] x h p = (p, tt)
  All-snoc (y ∷ xs) x h p = (h.0, All-snoc xs x h.1 p)

  pub All-join : (xs ys : List A) → All P xs → All P ys → All P (xs ++ ys)
  All-join [] ys h k = k
  All-join (x ∷ xs) ys h k = (h.0, All-join xs ys h.1 k)

  pub All-take : (n : ℕ) (xs : List A) → All P xs → All P (take n xs)
  All-take zero xs h = tt
  All-take (suc n) [] h = tt
  All-take (suc n) (x ∷ xs) h = (h.0, All-take n xs h.1)

  pub All-if :
      (b : Bool) (xs ys : List A)
      → (b ≡ true → All P xs)
      → (b ≡ false → All P ys)
      → All P (if b then xs else ys)
  All-if true xs ys h k = h refl
  All-if false xs ys h k = k refl

  placed-All :
      (o : Ordering) (a b : A) (bs rest : List A)
      → P a
      → P b
      → All P bs
      → All P rest
      → All P (placed o a b bs rest)
  placed-All Ordering.lt a b bs rest pa pb h k = (pb, k)
  placed-All Ordering.eq a b bs rest pa pb h k = (pa, (pb, h))
  placed-All Ordering.gt a b bs rest pa pb h k = (pa, (pb, h))

  insert_sorted-All :
      (cmp : A → A → Ordering) (a : A) (xs : List A)
      → P a
      → All P xs
      → All P (insert_sorted cmp a xs)
  unfolding insert_sorted
  insert_sorted-All cmp a [] p h = (p, tt)
  insert_sorted-All cmp a (b ∷ bs) p h = subst (All P) (sym (insert_sorted_cons cmp a b bs)) (
      placed-All (cmp b a) a b bs (insert_sorted cmp a bs) p h.0 h.1
        (insert_sorted-All cmp a bs p h.1))

  pub sort-All : (cmp : A → A → Ordering) (xs : List A) → All P xs → All P (sort cmp xs)
  unfolding sort
  sort-All cmp [] h = tt
  sort-All cmp (x ∷ xs) h = insert_sorted-All cmp x (sort cmp xs) h.0 (sort-All cmp xs h.1)

insert-All :
    {V : Type 0} (P : Text × V → Type 0) (k : Text) (v : V) (m : Map V)
    → P (k, v)
    → All P m
    → All P (insert k v m)
unfolding insert
insert-All P k v [] h hs = (h, tt)
insert-All P k v ((j, other) ∷ m) h hs =
    elim (text_cmp k j)
      as (λ o. All P (elim o [
        | Ordering.lt ↦ (k, v) ∷ (j, other) ∷ m
        | Ordering.eq ↦ (k, v) ∷ m
        | Ordering.gt ↦ (j, other) ∷ insert k v m
      ])) [
        | Ordering.lt ↦ (h, hs)
        | Ordering.eq ↦ (h, hs.1)
        | Ordering.gt ↦ (hs.0, insert-All P k v m h hs.1)
      ]

module _ {F : Type 0} (P : Text → FacetCandidate F → Type 0) where
  -- Every row of the map has the property for its key.
  abbrev pub Filed : Map (List (FacetCandidate F)) → Type 0
  Filed = All (λ e. All (P e.0) e.1)

  rows_of-All :
      (id : Text) (m : Map (List (FacetCandidate F))) → Filed m → All (P id) (rows_of (get id m))
  unfolding get
  rows_of-All id [] h = tt
  rows_of-All id ((j, rows) ∷ m) h = elim (Bool-cases (text_eq j id)) [
    | inl same ↦ rw same (subst (λ k. All (P k) rows) ((text_eq_iff j id).0 same) h.0)
    | inr other ↦ rw other (rows_of-All id m h.1)
  ]

  pub file_candidate-Filed :
      (candidate : FacetCandidate F) (facets : List FacetRequirement)
      (m : Map (List (FacetCandidate F)))
      → All (λ f. facet_matches candidate.evidence f ≡ true → P f.id candidate) facets
      → Filed m
      → Filed (file_candidate candidate facets m)
  unfolding file_candidate
  file_candidate-Filed candidate [] m h hs = hs
  file_candidate-Filed candidate (f ∷ facets) m h hs = file_candidate-Filed candidate facets _ h.1 (
      All-if _ (facet_matches candidate.evidence f) _ m
        (λ is.
          insert-All _ f.id _ m
            (All-snoc (P f.id) (rows_of (get f.id m)) candidate (rows_of-All f.id m hs) (h.0 is))
            hs)
        (λ other. hs))

  dedup_after-All :
      (id : Text) (kept : FacetCandidate F) (rows : List (FacetCandidate F))
      → All (P id) rows
      → All (P id) (dedup_after kept rows)
  unfolding dedup_after
  dedup_after-All id kept [] h = tt
  dedup_after-All id kept (row ∷ rows) h =
      All-if (P id) (text_eq row.evidence.id kept.evidence.id) _ _
        (λ same. dedup_after-All id kept rows h.1) (λ other. (h.0, dedup_after-All id row rows h.1))

  pub dedup_rows-All :
      (id : Text) (rows : List (FacetCandidate F)) → All (P id) rows → All (P id) (dedup_rows rows)
  unfolding dedup_rows
  dedup_rows-All id [] h = tt
  dedup_rows-All id (row ∷ rows) h = (h.0, dedup_after-All id row rows h.1)
