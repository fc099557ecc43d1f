-- ===== src/Knowledge/Reranking/Retained.antt =====
-- What `retain_per_facet` of crates/vesc-knowledge-index/src/reranking.rs keeps.
use mathlib.Core.List.{Memᴰ}
use mathlib.Core.Path.{subst}
use vesc_mcp.Prelude.{
  Ensures, Ensures-ok, Ensures-err, length, length-take, ℕ, ◌+◌, ◌≤◌, ◌==◌, ltb, ◌≡◌, refl, true,
  ◌||◌, List, [], ◌∷◌, arith, All, All-map, take, ok, Bool-cases, inl, inr,
}
use vesc_mcp.Text.{Text}
use vesc_mcp.Map.{Map, values}
use vesc_mcp.Knowledge.Investigation.{FacetRequirement, InvestigationContract}
use vesc_mcp.Knowledge.Investigation.Audit.{sort}
use vesc_mcp.Knowledge.Reranking.Filed.{
  All-join, All-take, sort-All, Filed, file_candidate-Filed, dedup_rows-All,
}
use vesc_mcp.Knowledge.Reranking.{
  max_facet_quota, FacetQuota, new_quota, FacetCandidate, RetainedFacetCandidate, Scores,
  facet_matches, score, dedup_rows, enumerate, file_candidates, row_cmp, retain_rows,
  retain_per_facet,
}

All-Mem : {A : Type 0} (xs : List A) → All (λ x. Memᴰ x xs) xs
All-Mem [] = tt
All-Mem (x ∷ xs) = (Memᴰ.head refl, All-map (λ y y_in. Memᴰ.tail y_in) xs (All-Mem xs))

-- A facet with that id matches the candidate, whose scores are finite.
pub record Belongs {F : Type 0} (scores : Scores F) (facets : List FacetRequirement)
    (candidates : List (FacetCandidate F)) (id : Text) (candidate : FacetCandidate F) : Type 0 where
  pub facet : FacetRequirement
  pub facet_in : Memᴰ facet facets
  pub facet_is : facet.id ≡ id
  pub matching : facet_matches candidate.evidence facet ≡ true
  pub candidate_in : Memᴰ candidate candidates
  pub finite_score : scores.is_finite (score candidate) ≡ true
  pub finite_retrieval : scores.is_finite candidate.retrieval_score ≡ true

-- A kept row is one of the candidates, and its rank is from 1 to `last`.
pub record IsRow {F : Type 0} (scores : Scores F) (facets : List FacetRequirement)
    (candidates : List (FacetCandidate F)) (last : ℕ) (row : RetainedFacetCandidate F)
    : Type 0 where
  pub candidate : FacetCandidate F
  pub belongs : Belongs scores facets candidates row.facet_id candidate
  pub same_evidence : row.evidence ≡ candidate.evidence
  pub same_score : row.retrieval_score ≡ candidate.retrieval_score
  pub same_rerank : row.rerank_score ≡ candidate.rerank_score
  pub first_rank : 1 ≤ row.facet_rank
  pub last_rank : row.facet_rank ≤ last

module _ {F : Type 0} (scores : Scores F) (facets : List FacetRequirement)
    (all_candidates : List (FacetCandidate F)) where
  file_candidates-Filed :
      (candidates : List (FacetCandidate F)) (m : Map (List (FacetCandidate F)))
      → All (λ c. Memᴰ c all_candidates) candidates
      → Filed (Belongs scores facets all_candidates) m
      → Filed (Belongs scores facets all_candidates) (file_candidates scores facets candidates m)
  unfolding file_candidates
  file_candidates-Filed [] m h hs = hs
  file_candidates-Filed (c ∷ candidates) m h hs =
      file_candidates-Filed candidates _ h.1 (elim (Bool-cases (scores.is_finite (score c))) [
        | inl finite_score ↦ elim (Bool-cases (scores.is_finite c.retrieval_score)) [
          | inl finite_retrieval ↦
              rw (finite_score, finite_retrieval)
                (file_candidate-Filed (Belongs scores facets all_candidates) c facets m
                  (All-map
                    (λ f f_in matching. record {
                      facet = f;
                      facet_in = f_in;
                      facet_is = refl;
                      matching = matching;
                      candidate_in = h.0;
                      finite_score = finite_score;
                      finite_retrieval = finite_retrieval;
                    })
                    facets (All-Mem facets))
                  hs)
          | inr other ↦ rw (finite_score, other) hs
        ]
        | inr other ↦ rw other hs
      ])

  enumerate-All :
      (id : Text) (index last : ℕ) (rows : List (FacetCandidate F))
      → All (Belongs scores facets all_candidates id) rows
      → index + length rows ≤ last
      → All (IsRow scores facets all_candidates last) (enumerate id index rows)
  unfolding enumerate
  enumerate-All id index last [] h fits = tt
  enumerate-All id index last (c ∷ rows) h fits = (
    record {
      candidate = c;
      belongs = h.0;
      same_evidence = refl;
      same_score = refl;
      same_rerank = refl;
      first_rank = omega arith;
      last_rank = omega (arith, fits);
    },
    enumerate-All id (index + 1) last rows h.1 (omega (arith, fits)),
  )

  retain_rows-All :
      (quota : FacetQuota) (m : Map (List (FacetCandidate F)))
      → Filed (Belongs scores facets all_candidates) m
      → All (IsRow scores facets all_candidates quota.value) (retain_rows scores quota m)
  unfolding retain_rows
  retain_rows-All quota [] h = tt
  retain_rows-All quota ((id, rows) ∷ m) h =
      let P = Belongs scores facets all_candidates in
      let sorted = dedup_rows (sort (row_cmp scores) rows) in
      All-join _ _ _
        (enumerate-All id 0 quota.value (take quota.value sorted)
          (All-take (P id) quota.value sorted (
            dedup_rows-All P id (sort (row_cmp scores) rows)
              (sort-All (P id) (row_cmp scores) rows h.0)))
          (ground (arith, length-take quota.value sorted)))
        (retain_rows-All quota m h.1)

new_quota-Ensures :
    (value : ℕ)
    → Ensures
        (λ quota. (quota.value ≡ value) × (1 ≤ value) × (value ≤ max_facet_quota))
        (new_quota value)
unfolding new_quota
new_quota-Ensures value = elim (Bool-cases (value == 0 || ltb max_facet_quota value)) [
  | inl outside ↦ rw outside (Ensures-err value)
  | inr inside ↦
      rw inside (
        Ensures-ok (record { value = value })
          (refl, ground (arith, inside), ground (arith, inside)))
]

-- With a quota that `FacetQuota::new` makes of a value: the value is from 1 to 4, and every row that
-- is kept is one of the candidates, with finite scores; a facet of the contract with the id of the
-- row matches its evidence; and its rank is from 1 to the value.
pub retain_per_facet-All :
    {F : Type 0} (scores : Scores F) (contract : InvestigationContract)
    (candidates : List (FacetCandidate F)) (value : ℕ) (quota : FacetQuota)
    → new_quota value ≡ ok quota
    → (1 ≤ value)
      × (value ≤ max_facet_quota)
      × All
          (IsRow scores (values contract.facets) candidates value)
          (retain_per_facet scores contract candidates quota)
unfolding retain_per_facet
retain_per_facet-All scores contract candidates value quota run =
    let facets = values contract.facets in
    let (value_is, low, high) = (new_quota-Ensures value).at quota run in
    let kept =
      retain_rows-All scores facets candidates quota (file_candidates scores facets candidates [])
        (file_candidates-Filed scores facets candidates candidates [] (All-Mem candidates) tt) in
    (
      low,
      high,
      subst
          (λ last.
            All (IsRow scores facets candidates last)
              (retain_per_facet scores contract candidates quota))
          value_is kept,
    )
