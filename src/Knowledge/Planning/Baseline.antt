-- ===== src/Knowledge/Planning/Baseline.antt =====
-- `apply` on the proposal of `hard_coded_proposal` in crates/vesc-knowledge-index/src/planning.rs.
use vesc_mcp.Prelude.{
  suc, ◌<◌, ◌≤◌, ◌≡◌, refl, ap, Bool, true, false, List, [], ◌∷◌, ltb, All, filter, map, length,
  if◌then◌else◌, ok, err, arith, Bool-cases, inl, inr,
}
use vesc_mcp.Text.{Text, text_eq, text_eq_refl}
use vesc_mcp.Map.{values}
use vesc_mcp.Knowledge.Investigation.{FacetRequirement, InvestigationContract, contains}
use vesc_mcp.Knowledge.Investigation.Contract.{
  extend, validate, insert_facets, insert_relationships,
}
use vesc_mcp.Knowledge.Investigation.Audit.{CoverageAudit}
use vesc_mcp.Knowledge.Planning.{
  SearchQuery, PlannerProposal, too_many, query_eq, apply, hard_coded_proposal,
}
use vesc_mcp.Knowledge.Planning.Apply.{IsBoundedText, Distinct, apply_iff}

validate-sizes :
    (c : InvestigationContract)
    → validate c ≡ ok tt
    → (length c.facets ≤ 64) × (length c.relationships ≤ 128)
unfolding validate
validate-sizes c h = ground (arith, h)

-- Nothing is added to a valid contract.
extend-empty :
    (c : InvestigationContract)
    → validate c ≡ ok tt
    → extend c (record { facets = []; relationships = [] }) ≡ ok c
unfolding extend insert_facets insert_relationships
extend-empty c h = let (few, few') = validate-sizes c h in rw h (ground (arith, few, few', h))

-- The ids are pairwise different, as the keys of a `BTreeMap` are.
abbrev pub AreIds : List FacetRequirement → Type 0
AreIds [] = Unit
AreIds (f ∷ fs) = All (λ g. text_eq g.id f.id ≡ false) fs × AreIds fs

module _ (debug : FacetRequirement → Text) (p : FacetRequirement → Bool) where
  abbrev query_of : FacetRequirement → SearchQuery
  query_of f = record { facet_id = f.id; query = debug f }

  abbrev queries : List FacetRequirement → List SearchQuery
  queries fs = map query_of (filter p fs)

  queries-new :
      (f : FacetRequirement) (fs : List FacetRequirement)
      → All (λ g. text_eq g.id f.id ≡ false) fs
      → All (λ r. query_eq r (query_of f) ≡ false) (queries fs)
  unfolding query_eq
  queries-new f [] h = tt
  queries-new f (g ∷ fs) h = elim (Bool-cases (p g)) [
    | inl e ↦ rw e (rw h.0 refl, queries-new f fs h.1)
    | inr e ↦ rw e (queries-new f fs h.1)
  ]

  queries-Distinct : (fs : List FacetRequirement) → AreIds fs → Distinct (queries fs)
  queries-Distinct [] h = tt
  queries-Distinct (f ∷ fs) h = elim (Bool-cases (p f)) [
    | inl e ↦ rw e (queries-new f fs h.0, queries-Distinct fs h.1)
    | inr e ↦ rw e (queries-Distinct fs h.1)
  ]

  abbrev IsKnown : List Text → SearchQuery → Type 0
  IsKnown known q = (contains q.facet_id known ≡ true) × IsBoundedText q.query

  IsKnown-more :
      (id : Text) (known : List Text) (qs : List SearchQuery)
      → All (IsKnown known) qs
      → All (IsKnown (id ∷ known)) qs
  IsKnown-more id known [] h = tt
  IsKnown-more id known (q ∷ qs) h = ((ground (arith, h.0.0), h.0.1), IsKnown-more id known qs h.1)

  queries-IsKnown :
      (fs : List FacetRequirement)
      → All (λ f. IsBoundedText (debug f)) fs
      → All (IsKnown (map (λ f. f.id) fs)) (queries fs)
  queries-IsKnown [] h = tt
  queries-IsKnown (f ∷ fs) h =
      let rest = IsKnown-more f.id _ (queries fs) (queries-IsKnown fs h.1) in
      elim (Bool-cases (p f)) [
        | inl e ↦ rw e (((rw (text_eq_refl f.id) refl, h.0), rest))
        | inr e ↦ rw e rest
      ]

length-map {ℓ κ} :
    {A : Type ℓ} {B : Type κ} (f : A → B) (xs : List A) → length (map f xs) ≡ length xs
length-map f [] = refl
length-map f (x ∷ xs) = ap (λ n. suc n) (length-map f xs)

-- The bounds refuse more than eight queries.
apply-too_many :
    (q : PlannerProposal) (c : InvestigationContract)
    → q.schema ≡ 1
    → 8 < length q.search_queries
    → apply q c ≡ err too_many
unfolding apply
apply-too_many q c schema many = rw schema (ground (arith, many))

-- For a valid contract whose facets have different ids, and facets that are described within the bounds
-- of a query, the baseline proposal is accepted and leaves the contract as it is when at most eight of
-- its facets are reported as missing, and is refused for its size when there are more.
pub hard_coded_proposal_lem :
    (debug : FacetRequirement → Text) (c : InvestigationContract) (audit : CoverageAudit)
    → validate c ≡ ok tt
    → AreIds (values c.facets)
    → All (λ f. IsBoundedText (debug f)) (values c.facets)
    → apply (hard_coded_proposal debug c audit) c ≡ (
        if ltb 8 (length (filter (λ f. contains f.id audit.missing_facets) (values c.facets)))
        then err too_many
        else ok c)
unfolding hard_coded_proposal
hard_coded_proposal_lem debug c audit valid ids texts =
    let missing : FacetRequirement → Bool = λ f. contains f.id audit.missing_facets in
    let size = length-map (query_of debug missing) (filter missing (values c.facets)) in
    let known = queries-IsKnown debug missing (values c.facets) texts in
    let distinct = queries-Distinct debug missing (values c.facets) ids in
    elim (Bool-cases (ltb 8 (length (filter missing (values c.facets))))) [
      | inl many ↦
          rw many
            (apply-too_many (hard_coded_proposal debug c audit) c refl (ground (arith, many, size)))
      | inr few ↦ rw few (
          (apply_iff (hard_coded_proposal debug c audit) c c).1 (
            (refl, omega arith, omega arith, ground (arith, few, size)),
            extend-empty c valid,
            (known, distinct),
          ))
    ]
