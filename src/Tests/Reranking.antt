-- ===== src/Tests/Reranking.antt =====
-- Runs of crates/vesc-knowledge-index/src/reranking.rs, with numbers below 100 as the finite scores.
use vesc_mcp.Prelude.{ℕ, ◌≡◌, ◌≤◌, refl, List, [], ◌∷◌, none, ltb, compare, All, ok, err, map}
use vesc_mcp.Text.{Text, codes, text_eq, text_cmp}
use vesc_mcp.Map.{get, insert, values}
use vesc_mcp.Knowledge.Investigation.{Evidence, repository_eq, stage_eq}
use vesc_mcp.Knowledge.Investigation.Audit.{sort, insert_sorted}
use vesc_mcp.Knowledge.Reranking.{
  max_facet_quota, FacetQuota, new_quota, FacetCandidate, Scores, score, file_candidate,
  dedup_after, dedup_rows, enumerate, file_candidates, retain_rows, retain_per_facet,
}
use vesc_mcp.Knowledge.Reranking.Retained.{IsRow, retain_per_facet-All}
use vesc_mcp.Tests.Knowledge.{contract, found_package}

abbrev scores : Scores ℕ
scores = record { is_finite = λ n. ltb n 100; total_cmp = compare }

abbrev evidence : Text → Evidence
evidence id = record {
  id = id;
  repository = found_package.repository;
  stage = found_package.stage;
  revision = found_package.revision;
  path = found_package.path;
  decisive = found_package.decisive;
}

abbrev candidate : Text → ℕ → FacetCandidate ℕ
candidate id retrieval_score = record {
  evidence = evidence id;
  retrieval_score = retrieval_score;
  rerank_score = none;
}

-- One identity twice, with another between them, and one without a finite score.
abbrev candidates : List (FacetCandidate ℕ)
candidates =
    candidate (codes "a") 3
    ∷ candidate (codes "b") 5
    ∷ candidate (codes "c") 200
    ∷ candidate (codes "a") 7
    ∷ []

abbrev two : FacetQuota
two = record { value = 2 }

two_test : new_quota 2 ≡ ok two
unfolding new_quota
two_test = refl

five_test : new_quota 5 ≡ err 5
unfolding new_quota
five_test = refl

kept_test :
    map {B = Text × ℕ}
      (λ row. (row.evidence.id, row.facet_rank))
      (retain_per_facet scores contract candidates two)
    ≡ (codes "a", 1) ∷ (codes "b", 2) ∷ []
unfolding retain_per_facet retain_rows file_candidates file_candidate dedup_rows dedup_after
    enumerate score sort insert_sorted get insert values repository_eq stage_eq text_eq text_cmp
kept_test = refl

-- The second candidate of an identity stays when another stands between the two.
twice_test :
    map {B = Text × ℕ}
      (λ row. (row.evidence.id, row.facet_rank))
      (retain_per_facet scores contract candidates (record { value = 4 }))
    ≡ (codes "a", 1) ∷ (codes "b", 2) ∷ (codes "a", 3) ∷ []
unfolding retain_per_facet retain_rows file_candidates file_candidate dedup_rows dedup_after
    enumerate score sort insert_sorted get insert values repository_eq stage_eq text_eq text_cmp
twice_test = refl

retain_per_facet-All_example :
    (1 ≤ 2)
    × (2 ≤ max_facet_quota)
    × All
        (IsRow scores (values contract.facets) candidates 2)
        (retain_per_facet scores contract candidates two)
retain_per_facet-All_example = retain_per_facet-All scores contract candidates 2 two two_test
