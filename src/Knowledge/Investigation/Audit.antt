-- ===== src/Knowledge/Investigation/Audit.antt =====
-- crates/vesc-knowledge-index/src/investigation.rs: the audit of the evidence and the check of an answer.
use vesc_mcp.Prelude.{
  ℕ, Bool, true, false, not, ◌&&◌, ◌||◌, List, [], ◌∷◌, ◌++◌, Option, none, some, any, filter, map,
  if◌then◌else◌, Result, guard, ◌>>◌, ltb, Ordering,
}
use vesc_mcp.Text.{Text, text_eq, text_cmp}
use vesc_mcp.Map.{Map, get, insert, contains_key, values, keys}
use vesc_mcp.Knowledge.Investigation.{
  FacetRequirement, RelationshipRequirement, InvestigationContract, Evidence, EvidenceRelationship,
  SchemaVersion, repository_eq, stage_eq, kind_eq, matches, contains,
}
use vesc_mcp.Knowledge.Investigation.Contract.{is_blank}

pub data CoverageOutcome : Type 0 where
  complete insufficient : CoverageOutcome

-- In the order of the source, which `Ord` follows.
pub data RejectionReason : Type 0 where
  wrong_repository wrong_stage wrong_era adjacent : RejectionReason

pub record RejectedEvidence : Type 0 where
  pub evidence_id : Text
  pub reason : RejectionReason

pub record CoverageAudit : Type 0 where
  pub schema : SchemaVersion
  pub outcome : CoverageOutcome
  pub qualifying_evidence : Map (List Text)
  pub missing_facets : List Text
  pub missing_relationships : List Text
  pub rejected_evidence : List RejectedEvidence

-- `sort` on a type with an order.
unfoldable pub insert_sorted : {A : Type 0} → (A → A → Ordering) → A → List A → List A
insert_sorted cmp a [] = a ∷ []
insert_sorted cmp a (b ∷ bs) =
    let rest = insert_sorted cmp a bs in elim (cmp b a) [ Ordering.lt ↦ b ∷ rest | _ ↦ a ∷ b ∷ bs ]

unfoldable pub sort : {A : Type 0} → (A → A → Ordering) → List A → List A
sort cmp [] = []
sort cmp (a ∷ as') = insert_sorted cmp a (sort cmp as')

-- `dedup` removes what equals the element before it.
unfoldable pub dedup : List Text → List Text
dedup [] = []
dedup (a ∷ []) = a ∷ []
dedup (a ∷ b ∷ bs) = let rest = dedup (b ∷ bs) in if text_eq a b then rest else a ∷ rest

abbrev rank : RejectionReason → ℕ
rank wrong_repository = 0
rank wrong_stage = 1
rank wrong_era = 2
rank adjacent = 3

unfoldable pub rejected_cmp : RejectedEvidence → RejectedEvidence → Ordering
rejected_cmp a b = elim (text_cmp a.evidence_id b.evidence_id) [
  | Ordering.eq ↦
      if ltb (rank a.reason) (rank b.reason)
      then Ordering.lt
      else if ltb (rank b.reason) (rank a.reason)
      then Ordering.gt
      else Ordering.eq
  | o ↦ o
]

abbrev pub or_default : Option (List Text) → List Text
or_default none = []
or_default (some ids) = ids

-- `qualifying.entry(facet).or_default().push(id)`
unfoldable pub push_entry : Map (List Text) → Text → Text → Map (List Text)
push_entry qualifying facet id =
    insert facet (or_default (get facet qualifying) ++ id ∷ []) qualifying

unfoldable pub push_entries : Map (List Text) → List FacetRequirement → Text → Map (List Text)
push_entries qualifying [] id = qualifying
push_entries qualifying (facet ∷ facets) id =
    push_entries (push_entry qualifying facet.id id) facets id

unfoldable pub repository_matches : InvestigationContract → Evidence → List FacetRequirement
repository_matches c item =
    filter (λ facet. repository_eq facet.repository item.repository) (values c.facets)

unfoldable pub stage_matches : InvestigationContract → Evidence → List FacetRequirement
stage_matches c item = filter (λ facet. stage_eq facet.stage item.stage) (repository_matches c item)

unfoldable pub era_matches : InvestigationContract → Evidence → List FacetRequirement
era_matches c item = filter (λ facet. matches facet.era item.revision) (stage_matches c item)

abbrev pub no_facet : List FacetRequirement → Bool
no_facet [] = true
no_facet (facet ∷ facets) = false

unfoldable pub rejection : InvestigationContract → Evidence → RejectionReason
rejection c item =
    if no_facet (repository_matches c item)
    then wrong_repository
    else if no_facet (stage_matches c item)
    then wrong_stage
    else wrong_era

-- The two results that the loop over the evidence grows.
abbrev pub Found : Type 0
Found = Map (List Text) × List RejectedEvidence

unfoldable pub audit_item : InvestigationContract → Found → Evidence → Found
audit_item c (qualifying, rejected) item =
    if not item.decisive || is_blank item.path
    then (qualifying, rejected ++ record { evidence_id = item.id; reason = adjacent } ∷ [])
    else if no_facet (era_matches c item)
    then (qualifying, rejected ++ record { evidence_id = item.id; reason = rejection c item } ∷ [])
    else (push_entries qualifying (era_matches c item) item.id, rejected)

unfoldable pub audit_loop : InvestigationContract → Found → List Evidence → Found
audit_loop c found [] = found
audit_loop c found (item ∷ evidence) = audit_loop c (audit_item c found item) evidence

unfoldable pub sorted_ids : Map (List Text) → Map (List Text)
sorted_ids = map (λ e. (e.0, dedup (sort text_cmp e.1)))

unfoldable pub relationship_is_covered :
    RelationshipRequirement → Map (List Text) → List EvidenceRelationship → Bool
relationship_is_covered required qualifying relationships =
    elim (get required.from_facet qualifying) [
      | none ↦ false
      | some from ↦ elim (get required.to_facet qualifying) [
        | none ↦ false
        | some to ↦
            any
              (λ candidate.
                kind_eq candidate.kind required.kind
                && contains candidate.from_evidence from
                && contains candidate.to_evidence to)
              relationships
      ]
    ]

abbrev pub no_text : List Text → Bool
no_text [] = true
no_text (id ∷ ids) = false

unfoldable pub audit :
    InvestigationContract → List Evidence → List EvidenceRelationship → CoverageAudit
audit c evidence relationships =
    let (found, rejected) = audit_loop c ([], []) evidence in
    let qualifying = sorted_ids found in
    let missing_facets = filter (λ id. not (contains_key id qualifying)) (keys c.facets) in
    let missing_relationships =
      map (λ required. required.id)
        (filter (λ required. not (relationship_is_covered required qualifying relationships))
          (values c.relationships)) in
    record {
      schema = c.schema;
      outcome =
          if no_text missing_facets && no_text missing_relationships
          then complete
          else insufficient;
      qualifying_evidence = qualifying;
      missing_facets = missing_facets;
      missing_relationships = missing_relationships;
      rejected_evidence = sort rejected_cmp rejected;
    }

pub data AnswerValidationError : Type 0 where
  incomplete_audit : AnswerValidationError
  missing_facet_citations : List Text → AnswerValidationError

abbrev pub is_complete : CoverageOutcome → Bool
is_complete complete = true
is_complete insufficient = false

-- Some qualifying evidence of the facet is cited.
unfoldable pub is_cited : Map (List Text) → List Text → Text → Bool
is_cited qualifying cited_evidence facet = elim (get facet qualifying) [
  | none ↦ false
  | some ids ↦ any (λ id. contains id cited_evidence) ids
]

unfoldable pub validate_answer :
    InvestigationContract → CoverageAudit → List Text → Result AnswerValidationError (Unit {0})
validate_answer c coverage cited_evidence = do
  guard (is_complete coverage.outcome) incomplete_audit
  let missing_facets =
      filter (λ facet. not (is_cited coverage.qualifying_evidence cited_evidence facet))
        (keys c.facets)
  guard (no_text missing_facets) (missing_facet_citations missing_facets)
