-- ===== src/Knowledge/Planning.antt =====
-- crates/vesc-knowledge-index/src/planning.rs: the proposals of planners and critics.
pub mod Apply
pub mod Baseline
use vesc_mcp.Prelude.{
  ℕ, Bool, true, false, not, ◌&&◌, ◌||◌, List, [], ◌∷◌, ◌==◌, ltb, any, filter, map, length, Result,
  ok, err, map_err, guard, ◌>>=◌, ◌>>◌,
}
use vesc_mcp.Text.{Text, text_eq, is_control}
use vesc_mcp.Text.Utf8.{byte_len}
use vesc_mcp.Map.{contains_key, values}
use vesc_mcp.Knowledge.Investigation.{
  FacetRequirement, RelationshipRequirement, InvestigationContract, PlannerExtension, contains,
}
use vesc_mcp.Knowledge.Investigation.Contract.{ContractError, extend, is_blank}
use vesc_mcp.Knowledge.Investigation.Audit.{CoverageAudit}

abbrev pub planner_schema : ℕ
planner_schema = 1

abbrev pub max_additions : ℕ
max_additions = 8

abbrev pub max_search_queries : ℕ
max_search_queries = 8

abbrev pub max_query_bytes : ℕ
max_query_bytes = 256

pub record SearchQuery : Type 0 where
  pub facet_id : Text
  pub query : Text

pub record PlannerProposal : Type 0 where
  pub schema : ℕ
  pub facet_additions : List FacetRequirement
  pub relationship_additions : List RelationshipRequirement
  pub search_queries : List SearchQuery
  pub request_critic : Bool

pub record CriticProposal : Type 0 where
  pub schema : ℕ
  pub facet_additions : List FacetRequirement
  pub relationship_additions : List RelationshipRequirement
  pub search_queries : List SearchQuery
  pub concerns : List Text

pub data PlannerProposalError : Type 0 where
  invalid_schema too_many unknown_query_facet invalid_query invalid_concern : PlannerProposalError
  contract_error : ContractError → PlannerProposalError

unfoldable pub query_eq : SearchQuery → SearchQuery → Bool
query_eq a b = text_eq a.facet_id b.facet_id && text_eq a.query b.query

-- A text that is blank, longer than `MAX_QUERY_BYTES` or holds a control character.
unfoldable pub is_bad_text : Text → Bool
is_bad_text t = is_blank t || ltb max_query_bytes (byte_len t) || any is_control t

-- The loop over the queries: `known_facets` is the list of the ids, `unique_queries` that of the queries
-- before.
unfoldable pub check_queries :
    List Text → List SearchQuery → List SearchQuery → Result PlannerProposalError (Unit {0})
check_queries known_facets unique_queries [] = ok tt
check_queries known_facets unique_queries (query ∷ queries) = do
  guard (contains query.facet_id known_facets) unknown_query_facet
  guard (not (is_bad_text query.query || any (query_eq query) unique_queries)) invalid_query
  check_queries known_facets (query ∷ unique_queries) queries

unfoldable pub apply :
    PlannerProposal → InvestigationContract → Result PlannerProposalError InvestigationContract
apply p contract = do
  guard (p.schema == planner_schema) invalid_schema
  guard
      (not (
        ltb max_additions (length p.facet_additions)
        || ltb max_additions (length p.relationship_additions)
        || ltb max_search_queries (length p.search_queries)))
      too_many
  extended ← map_err contract_error (
      extend contract
        (record { facets = p.facet_additions; relationships = p.relationship_additions }))
  check_queries (map (λ facet. facet.id) (values extended.facets)) [] p.search_queries
  ok extended

unfoldable pub critic_apply :
    CriticProposal → InvestigationContract → Result PlannerProposalError InvestigationContract
critic_apply p contract = do
  guard (not (ltb max_additions (length p.concerns) || any is_bad_text p.concerns)) invalid_concern
  apply
      (record {
        schema = p.schema;
        facet_additions = p.facet_additions;
        relationship_additions = p.relationship_additions;
        search_queries = p.search_queries;
        request_critic = false;
      })
      contract

-- `debug` is the derived `Debug` format of the repository, the stage and the era.
unfoldable pub hard_coded_proposal :
    (FacetRequirement → Text) → InvestigationContract → CoverageAudit → PlannerProposal
hard_coded_proposal debug contract audit = record {
  schema = planner_schema;
  facet_additions = [];
  relationship_additions = [];
  search_queries =
      map (λ facet. record { facet_id = facet.id; query = debug facet })
        (filter (λ facet. contains facet.id audit.missing_facets) (values contract.facets));
  request_critic = false;
}
