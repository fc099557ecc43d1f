-- ===== src/Knowledge/Investigation/Complete.antt =====
-- The outcome of the audit and the check of an answer in
-- crates/vesc-knowledge-index/src/investigation.rs.
use vesc_mcp.Prelude.{
  filter_cong, any_cong, all_cong, all_iff, ◌≡◌, refl, sym, ap, ◌∙◌, ◌↔◌, Bool, true, not, ◌&&◌,
  List, [], ◌∷◌, any, all, All, filter, map, if◌then◌else◌, ok, guard, ◌>>◌, arith,
}
use vesc_mcp.Text.{Text, text_eq}
use vesc_mcp.Map.{Map, get, contains_key, values, keys}
use vesc_mcp.Knowledge.Investigation.{
  RelationshipRequirement, InvestigationContract, Evidence, EvidenceRelationship, kind_eq, contains,
}
use vesc_mcp.Knowledge.Investigation.Audit.{
  CoverageOutcome, complete, insufficient, relationship_is_covered, no_text, audit, is_cited,
  validate_answer, or_default, is_complete, AnswerValidationError,
}
use vesc_mcp.Knowledge.Investigation.Coverage.{qualifies, under}
use vesc_mcp.Knowledge.Investigation.Found.{
  qualified, connects, qualifying, under-qualifying, contains_key-qualifying,
}

-- A relationship is covered by the ids under its two facets.
abbrev related : Map (List Text) → RelationshipRequirement → EvidenceRelationship → Bool
related m required candidate =
    kind_eq candidate.kind required.kind
    && under (λ j. text_eq j candidate.from_evidence) required.from_facet m
    && under (λ j. text_eq j candidate.to_evidence) required.to_facet m

relationship_is_covered-any :
    (m : Map (List Text)) (required : RelationshipRequirement) (rs : List EvidenceRelationship)
    → relationship_is_covered required m rs ≡ any (related m required) rs
unfolding relationship_is_covered
relationship_is_covered-any m required [] = ground arith
relationship_is_covered-any m required (r ∷ rs) =
    ground (arith, relationship_is_covered-any m required rs)

no_text-filter :
    (p : Text → Bool) (xs : List Text) → no_text (filter (λ x. not (p x)) xs) ≡ all p xs
no_text-filter p [] = refl
no_text-filter p (x ∷ xs) = ground (arith, no_text-filter p xs)

no_text-map {ℓ} :
    {A : Type ℓ} (f : A → Text) (p : A → Bool) (xs : List A)
    → no_text (map f (filter (λ x. not (p x)) xs)) ≡ all p xs
no_text-map f p [] = refl
no_text-map f p (x ∷ xs) = ground (arith, no_text-map f p xs)

is_cited-under :
    (m : Map (List Text)) (cited_evidence : List Text) (k : Text)
    → is_cited m cited_evidence k ≡ under (λ id. contains id cited_evidence) k m
unfolding is_cited
is_cited-under m cited_evidence k = ground arith

answer_iff :
    (o : CoverageOutcome) (b : Bool) (e e' : AnswerValidationError)
    → ((guard (is_complete o) e >> guard b e') ≡ ok tt) ↔ ((o ≡ complete) × (b ≡ true))
answer_iff o b e e' = ground arith

-- Each facet has qualifying evidence, each relationship a related pair of it.
abbrev pub IsCovered : InvestigationContract → List Evidence → List EvidenceRelationship → Type 0
IsCovered c evidence relationships =
    All (λ k. any (qualifies c k) evidence ≡ true) (keys c.facets)
    × All (λ r. any (connects c evidence r) relationships ≡ true) (values c.relationships)

outcome_iff :
    (a b : Bool)
    → ((if a && b then complete else insufficient) ≡ complete) ↔ ((a ≡ true) × (b ≡ true))
outcome_iff a b = ground arith

module _ (c : InvestigationContract) (evidence : List Evidence)
    (relationships : List EvidenceRelationship) where
  covered_eq :
      (r : RelationshipRequirement)
      → relationship_is_covered r (qualifying c evidence) relationships
        ≡ any (connects c evidence r) relationships
  covered_eq r =
      relationship_is_covered-any (qualifying c evidence) r relationships
      ∙ any_cong (related (qualifying c evidence) r) (connects c evidence r) relationships (λ e.
        ap
          (λ b.
            kind_eq e.kind r.kind
            && b
            && under (λ j. text_eq j e.to_evidence) r.to_facet (qualifying c evidence))
          (under-qualifying c evidence (λ j. text_eq j e.from_evidence) r.from_facet)
        ∙ ap
            (λ b.
              kind_eq e.kind r.kind
              && qualified c evidence (λ j. text_eq j e.from_evidence) r.from_facet
              && b)
            (under-qualifying c evidence (λ j. text_eq j e.to_evidence) r.to_facet))

  complete_iff :
      (a b : Bool)
      → a ≡ all (λ k. any (qualifies c k) evidence) (keys c.facets)
      → b ≡ all (λ r. any (connects c evidence r) relationships) (values c.relationships)
      → ((if a && b then complete else insufficient) ≡ complete)
        ↔ IsCovered c evidence relationships
  complete_iff a b ha hb = (
    λ h.
        let (x, y) = (outcome_iff a b).0 h in
        (
          (all_iff _ (keys c.facets)).0 (sym ha ∙ x),
          (all_iff _ (values c.relationships)).0 (sym hb ∙ y),
        ),
    λ h.
        (outcome_iff a b).1
          (ha ∙ (all_iff _ (keys c.facets)).1 h.0, hb ∙ (all_iff _ (values c.relationships)).1 h.1),
  )

  -- The audit reports as missing the facets without qualifying evidence and the relationships
  -- without a related pair of it, and is complete exactly when there are none; the evidence listed
  -- for a facet is that which qualifies for it.
  pub audit_lem :
      ((audit c evidence relationships).missing_facets
        ≡ filter (λ k. not (any (qualifies c k) evidence)) (keys c.facets))
      × ((audit c evidence relationships).missing_relationships
          ≡ map
              (λ r. r.id)
              (filter
                (λ r. not (any (connects c evidence r) relationships))
                (values c.relationships)))
      × (((audit c evidence relationships).outcome ≡ complete) ↔ IsCovered c evidence relationships)
      × ((k id : Text)
          → contains id (or_default (get k (audit c evidence relationships).qualifying_evidence))
            ≡ any (λ item. qualifies c k item && text_eq item.id id) evidence)
  unfolding audit
  audit_lem =
      let facets =
        filter_cong (λ k. not (contains_key k (qualifying c evidence)))
          (λ k. not (any (qualifies c k) evidence)) (keys c.facets)
          (λ k. ap not (contains_key-qualifying c evidence k)) in
      let related =
        filter_cong (λ r. not (relationship_is_covered r (qualifying c evidence) relationships))
          (λ r. not (any (connects c evidence r) relationships)) (values c.relationships)
          (λ r. ap not (covered_eq r)) in
      (
        facets,
        ap (map (λ r. r.id)) related,
        complete_iff _ _
            (ap no_text facets ∙ no_text-filter (λ k. any (qualifies c k) evidence) (keys c.facets))
            (ap (λ rs. no_text (map (λ r. r.id) rs)) related
              ∙ no_text-map (λ (r : RelationshipRequirement). r.id)
                  (λ r. any (connects c evidence r) relationships) (values c.relationships)),
        λ k id. under-qualifying c evidence (λ j. text_eq j id) k,
      )

  -- The check of an answer on this audit succeeds exactly when the contract is covered by the evidence
  -- and the answer cites qualifying evidence of every facet.
  pub validate_answer_iff :
      (cited_evidence : List Text)
      → (validate_answer c (audit c evidence relationships) cited_evidence ≡ ok tt) ↔ (
          IsCovered c evidence relationships
          × All
              (λ k.
                any (λ item. qualifies c k item && contains item.id cited_evidence) evidence ≡ true)
              (keys c.facets))
  unfolding validate_answer audit
  validate_answer_iff cited_evidence =
      let cites : Text → Bool = λ id. contains id cited_evidence in
      let cited_eq =
        no_text-filter (is_cited (qualifying c evidence) cited_evidence) (keys c.facets)
        ∙ all_cong (is_cited (qualifying c evidence) cited_evidence) (qualified c evidence cites)
            (keys c.facets)
            (λ k.
              is_cited-under (qualifying c evidence) cited_evidence k
              ∙ under-qualifying c evidence cites k) in
      let checks = answer_iff (audit c evidence relationships).outcome _ _ _ in
      let outcome = audit_lem.2 in
      (
        λ h. (
          outcome.0 (checks.0 h).0,
          (all_iff _ (keys c.facets)).0 (sym cited_eq ∙ (checks.0 h).1),
        ),
        λ h. checks.1 (outcome.1 h.0, cited_eq ∙ (all_iff _ (keys c.facets)).1 h.1),
      )
