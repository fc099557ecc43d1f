-- ===== src/Knowledge/Reranking.antt =====
-- crates/vesc-knowledge-index/src/reranking.rs: the candidates that are kept for every facet.
-- The reranking models of the second half of the file are fastembed's.
pub mod Filed
pub mod Retained
use vesc_mcp.Prelude.{
  ℕ, ◌+◌, ◌==◌, ltb, Bool, true, false, not, ◌&&◌, ◌||◌, List, [], ◌∷◌, ◌++◌, Option, none, some,
  Ordering, then_cmp, if◌then◌else◌, take, Result, ok, err,
}
use vesc_mcp.Text.{Text, text_eq, text_cmp}
use vesc_mcp.Map.{Map, get, insert, values}
use vesc_mcp.Knowledge.Investigation.{
  Era, exact, any_era, Evidence, FacetRequirement, InvestigationContract, repository_eq, stage_eq,
}
use vesc_mcp.Knowledge.Investigation.Audit.{sort}

abbrev pub max_facet_quota : ℕ
max_facet_quota = 4

pub record FacetQuota : Type 0 where
  pub value : ℕ

-- The error is the value.
unfoldable pub new_quota : ℕ → Result ℕ FacetQuota
new_quota value =
    if value == 0 || ltb max_facet_quota value then err value else ok (record { value = value })

-- `F` has the f32 numbers.
pub record FacetCandidate (F : Type 0) : Type 0 where
  pub evidence : Evidence
  pub retrieval_score : F
  pub rerank_score : Option F

pub record RetainedFacetCandidate (F : Type 0) : Type 0 where
  pub facet_id : Text
  pub facet_rank : ℕ
  pub evidence : Evidence
  pub retrieval_score : F
  pub rerank_score : Option F

-- `is_finite` and `total_cmp`
pub record Scores (F : Type 0) : Type 0 where
  pub is_finite : F → Bool
  pub total_cmp : F → F → Ordering

abbrev pub era_is : Era → Text → Bool
era_is (exact revision) r = text_eq revision r
era_is any_era r = true

abbrev pub facet_matches : Evidence → FacetRequirement → Bool
facet_matches evidence facet =
    repository_eq facet.repository evidence.repository
    && stage_eq facet.stage evidence.stage
    && era_is facet.era evidence.revision

module _ {F : Type 0} where
  unfoldable pub score : FacetCandidate F → F
  score candidate = elim candidate.rerank_score [
    | none ↦ candidate.retrieval_score
    | some rerank_score ↦ rerank_score
  ]

  abbrev pub rows_of : Option (List (FacetCandidate F)) → List (FacetCandidate F)
  rows_of none = []
  rows_of (some rows) = rows

  -- The inner loop, over the facets of the contract.
  unfoldable pub file_candidate :
      FacetCandidate F
      → List FacetRequirement
      → Map (List (FacetCandidate F))
      → Map (List (FacetCandidate F))
  file_candidate candidate [] by_facet = by_facet
  file_candidate candidate (facet ∷ facets) by_facet = file_candidate candidate facets (
      if facet_matches candidate.evidence facet
      then insert facet.id (rows_of (get facet.id by_facet) ++ candidate ∷ []) by_facet
      else by_facet)

  -- `dedup_by` behind the element that it kept last.
  unfoldable pub dedup_after : FacetCandidate F → List (FacetCandidate F) → List (FacetCandidate F)
  dedup_after kept [] = []
  dedup_after kept (row ∷ rows) =
      let same = dedup_after kept rows in
      let other = dedup_after row rows in
      if text_eq row.evidence.id kept.evidence.id then same else row ∷ other

  unfoldable pub dedup_rows : List (FacetCandidate F) → List (FacetCandidate F)
  dedup_rows [] = []
  dedup_rows (row ∷ rows) = row ∷ dedup_after row rows

  unfoldable pub enumerate : Text → ℕ → List (FacetCandidate F) → List (RetainedFacetCandidate F)
  enumerate facet_id index [] = []
  enumerate facet_id index (candidate ∷ rows) =
      record {
        facet_id = facet_id;
        facet_rank = index + 1;
        evidence = candidate.evidence;
        retrieval_score = candidate.retrieval_score;
        rerank_score = candidate.rerank_score;
      }
      ∷ enumerate facet_id (index + 1) rows

  module _ (scores : Scores F) where
    -- The outer loop, over the candidates.
    unfoldable pub file_candidates :
        List FacetRequirement
        → List (FacetCandidate F)
        → Map (List (FacetCandidate F))
        → Map (List (FacetCandidate F))
    file_candidates facets [] by_facet = by_facet
    file_candidates facets (candidate ∷ candidates) by_facet = file_candidates facets candidates (
        if not (scores.is_finite (score candidate))
          || not (scores.is_finite candidate.retrieval_score)
        then by_facet
        else file_candidate candidate facets by_facet)

    abbrev pub row_cmp : FacetCandidate F → FacetCandidate F → Ordering
    row_cmp left right =
        then_cmp
          (then_cmp (scores.total_cmp (score right) (score left))
            (scores.total_cmp right.retrieval_score left.retrieval_score))
          (text_cmp left.evidence.id right.evidence.id)

    unfoldable pub retain_rows :
        FacetQuota → Map (List (FacetCandidate F)) → List (RetainedFacetCandidate F)
    retain_rows quota [] = []
    retain_rows quota ((facet_id, rows) ∷ by_facet) =
        enumerate facet_id 0 (take quota.value (dedup_rows (sort row_cmp rows)))
        ++ retain_rows quota by_facet

    unfoldable pub retain_per_facet :
        InvestigationContract
        → List (FacetCandidate F)
        → FacetQuota
        → List (RetainedFacetCandidate F)
    retain_per_facet contract candidates quota =
        retain_rows quota (file_candidates (values contract.facets) candidates [])
