-- ===== src/Knowledge/Investigation/Contract.antt =====
-- crates/vesc-knowledge-index/src/investigation.rs: the checks of a contract and its extension by a
-- planner.
use vesc_mcp.Prelude.{
  ℕ, ◌+◌, Bool, false, not, ◌||◌, List, [], ◌∷◌, none, some, ◌==◌, ltb, all, length, if◌then◌else◌,
  Result, ok, err, ◌>>=◌, ◌>>◌, guard,
}
use vesc_mcp.Text.{Text, text_eq, trim, is_empty}
use vesc_mcp.Map.{Map, get, insert, contains_key, values}
use vesc_mcp.Knowledge.Investigation.{
  Era, exact, any_era, FacetRequirement, RelationshipRequirement, RoundBudget,
  InvestigationContract, PlannerExtension, investigation_schema_v1, facet_eq, relationship_eq,
}

pub data ContractError : Type 0 where
  limit_exceeded unknown_facet : ContractError
  conflicting_requirement : Text → ContractError
  unsupported_schema_major budget_outside_bounds invalid_facet : ContractError

abbrev pub max_facets : ℕ
max_facets = 64

abbrev pub max_relationships : ℕ
max_relationships = 128

unfoldable pub is_blank : Text → Bool
is_blank t = is_empty (trim t)

-- The bounds of `MAX_ROUNDS`, `MAX_CANDIDATES_PER_ROUND`, `MAX_CONTEXT_BYTES`, `MAX_GRAPH_HOPS` and
-- `MAX_MODEL_CALLS`.
unfoldable pub budget_is_valid : RoundBudget → Bool
budget_is_valid b = not (
    b.max_rounds == 0
    || ltb 16 b.max_rounds
    || b.max_candidates_per_round == 0
    || ltb 4096 b.max_candidates_per_round
    || b.max_context_bytes == 0
    || ltb 4194304 b.max_context_bytes
    || ltb 16 b.max_graph_hops
    || ltb 32 b.max_model_calls)

unfoldable pub era_is_blank : Era → Bool
era_is_blank (exact revision) = is_blank revision
era_is_blank any_era = false

unfoldable pub facet_is_valid : Text × FacetRequirement → Bool
facet_is_valid (id, facet) =
    not (is_blank id || not (text_eq id facet.id) || era_is_blank facet.era)

unfoldable pub relationship_is_valid : Map FacetRequirement → Text × RelationshipRequirement → Bool
relationship_is_valid facets (id, relationship) = not (
    is_blank id
    || not (text_eq id relationship.id)
    || not (contains_key relationship.from_facet facets)
    || not (contains_key relationship.to_facet facets))

unfoldable pub validate : InvestigationContract → Result ContractError (Unit {0})
validate c = do
  guard (c.schema.major == investigation_schema_v1.major) unsupported_schema_major
  guard
      (not (
        length c.facets == 0
        || ltb max_facets (length c.facets)
        || ltb max_relationships (length c.relationships)))
      limit_exceeded
  guard (budget_is_valid c.budget) budget_outside_bounds
  guard (all facet_is_valid c.facets) invalid_facet
  guard (all (relationship_is_valid c.facets) c.relationships) unknown_facet

unfoldable pub insert_unchanged_or_new :
    {V : Type 0} → (V → V → Bool) → Map V → Text → V → Result ContractError (Map V)
insert_unchanged_or_new eq values id value = elim (get id values) [
  | some existing ↦ if eq existing value then ok values else err (conflicting_requirement id)
  | none ↦ ok (insert id value values)
]

unfoldable pub insert_facets :
    Map FacetRequirement → List FacetRequirement → Result ContractError (Map FacetRequirement)
insert_facets facets [] = ok facets
insert_facets facets (facet ∷ rest) = do
  facets' ← insert_unchanged_or_new facet_eq facets facet.id facet
  insert_facets facets' rest

unfoldable pub insert_relationships :
    Map FacetRequirement
    → Map RelationshipRequirement
    → List RelationshipRequirement
    → Result ContractError (Map RelationshipRequirement)
insert_relationships facets relationships [] = ok relationships
insert_relationships facets relationships (relationship ∷ rest) = do
  guard
      (not (
        not (contains_key relationship.from_facet facets)
        || not (contains_key relationship.to_facet facets)))
      unknown_facet
  relationships' ←
      insert_unchanged_or_new relationship_eq relationships relationship.id relationship
  insert_relationships facets relationships' rest

-- The contract with other requirements.
abbrev pub with_requirements :
    InvestigationContract
    → Map FacetRequirement
    → Map RelationshipRequirement
    → InvestigationContract
with_requirements c facets relationships = record {
  schema = c.schema;
  question_class = c.question_class;
  budget = c.budget;
  facets = facets;
  relationships = relationships;
}

unfoldable pub extend :
    InvestigationContract → PlannerExtension → Result ContractError InvestigationContract
extend c extension = do
  validate c
  guard
      (not (
        ltb max_facets (length c.facets + length extension.facets)
        || ltb max_relationships (length c.relationships + length extension.relationships)))
      limit_exceeded
  facets ← insert_facets c.facets extension.facets
  relationships ← insert_relationships facets c.relationships extension.relationships
  let extended = with_requirements c facets relationships
  validate extended
  ok extended
