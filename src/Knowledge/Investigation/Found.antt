-- ===== src/Knowledge/Investigation/Found.antt =====
-- The loop of the audit in crates/vesc-knowledge-index/src/investigation.rs, against the evidence.
use vesc_mcp.Prelude.{◌≡◌, ◌∙◌, Bool, ◌&&◌, ◌||◌, List, [], ◌∷◌, any, arith}
use vesc_mcp.Text.{Text, text_eq}
use vesc_mcp.Map.{Map, get, contains_key}
use vesc_mcp.Knowledge.Investigation.{
  RelationshipRequirement, InvestigationContract, Evidence, EvidenceRelationship, kind_eq,
}
use vesc_mcp.Knowledge.Investigation.Audit.{era_matches, Found, audit_item, audit_loop, sorted_ids}
use vesc_mcp.Knowledge.Investigation.Coverage.{
  qualifies, under, under-push_entries, under-sorted_ids, contains_key-sorted_ids,
  contains_key-push_entries, any-era_matches, no_facet-any,
}

under-audit_item :
    (p : Text → Bool) (c : InvestigationContract) (k : Text) (found : Found) (item : Evidence)
    → under p k (audit_item c found item).0
      ≡ (under p k found.0 || (qualifies c k item && p item.id))
unfolding audit_item
under-audit_item p c k (q, r) item = ground (
  arith,
  any-era_matches c item k,
  no_facet-any (λ facet. text_eq facet.id k) (era_matches c item),
  under-push_entries p k q (era_matches c item) item.id,
)

contains_key-audit_item :
    (c : InvestigationContract) (k : Text) (found : Found) (item : Evidence)
    → contains_key k (audit_item c found item).0 ≡ (contains_key k found.0 || qualifies c k item)
unfolding audit_item
contains_key-audit_item c k (q, r) item = ground (
  arith,
  any-era_matches c item k,
  no_facet-any (λ facet. text_eq facet.id k) (era_matches c item),
  contains_key-push_entries k q (era_matches c item) item.id,
)

under-audit_loop :
    (p : Text → Bool) (c : InvestigationContract) (k : Text) (found : Found)
    (evidence : List Evidence)
    → under p k (audit_loop c found evidence).0
      ≡ (under p k found.0 || any (λ item. qualifies c k item && p item.id) evidence)
unfolding audit_loop
under-audit_loop p c k found [] = ground arith
under-audit_loop p c k found (item ∷ evidence) =
    under-audit_loop p c k (audit_item c found item) evidence
    ∙ ground (arith, under-audit_item p c k found item)

contains_key-audit_loop :
    (c : InvestigationContract) (k : Text) (found : Found) (evidence : List Evidence)
    → contains_key k (audit_loop c found evidence).0
      ≡ (contains_key k found.0 || any (qualifies c k) evidence)
unfolding audit_loop
contains_key-audit_loop c k found [] = ground arith
contains_key-audit_loop c k found (item ∷ evidence) =
    contains_key-audit_loop c k (audit_item c found item) evidence
    ∙ ground (arith, contains_key-audit_item c k found item)

module _ (c : InvestigationContract) (evidence : List Evidence) where
  -- Some qualifying evidence of the facet has an id with `p`.
  abbrev pub qualified : (Text → Bool) → Text → Bool
  qualified p k = any (λ item. qualifies c k item && p item.id) evidence

  -- The related evidence qualifies for the two facets of the requirement.
  abbrev pub connects : RelationshipRequirement → EvidenceRelationship → Bool
  connects required candidate =
      kind_eq candidate.kind required.kind
      && qualified (λ j. text_eq j candidate.from_evidence) required.from_facet
      && qualified (λ j. text_eq j candidate.to_evidence) required.to_facet

  abbrev pub qualifying : Map (List Text)
  qualifying = sorted_ids (audit_loop c ([], []) evidence).0

  pub under-qualifying : (p : Text → Bool) (k : Text) → under p k qualifying ≡ qualified p k
  unfolding get
  under-qualifying p k = under-sorted_ids p k _ ∙ under-audit_loop p c k ([], []) evidence

  pub contains_key-qualifying :
      (k : Text) → contains_key k qualifying ≡ any (qualifies c k) evidence
  unfolding contains_key get
  contains_key-qualifying k =
      contains_key-sorted_ids k _ ∙ contains_key-audit_loop c k ([], []) evidence
