-- ===== src/Tests/Knowledge.antt =====
-- Runs of the contracts and the proposals of crates/vesc-knowledge-index.
use vesc_mcp.Prelude.{◌≡◌, ◌≤◌, refl, true, false, [], ◌∷◌, ok, err, filter, any, not, arith, All}
use vesc_mcp.Text.{
  codes, text_eq, text_cmp, trim, trim_start, trim_end, is_empty, is_whitespace, is_control,
}
use vesc_mcp.Text.Utf8.{as_bytes, encode_char}
use vesc_mcp.Map.{get, insert, contains_key, values, keys}
use vesc_mcp.Knowledge.Investigation.{
  vesc_package_lib, refloat, package_format, configuration, exact, any_era, produces,
  FacetRequirement, RelationshipRequirement, InvestigationContract, PlannerExtension, Evidence,
  EvidenceRelationship, historical_cross_repository_execution_trace, investigation_schema_v1,
  matches, repository_eq, stage_eq, kind_eq, facet_eq, relationship_eq, era_eq,
}
use vesc_mcp.Knowledge.Investigation.Contract.{
  validate, extend, is_blank, budget_is_valid, facet_is_valid, era_is_blank, relationship_is_valid,
  insert_facets, insert_relationships, insert_unchanged_or_new, conflicting_requirement,
}
use vesc_mcp.Knowledge.Investigation.Extend.{IsExtension, extend_lem}
use vesc_mcp.Knowledge.Investigation.Audit.{
  audit, audit_loop, audit_item, push_entries, push_entry, era_matches, stage_matches,
  repository_matches, rejection, sort, insert_sorted, dedup, rejected_cmp, sorted_ids,
  relationship_is_covered, validate_answer, wrong_stage, CoverageAudit, insufficient,
}
use vesc_mcp.Knowledge.Investigation.Coverage.{qualifies}
use vesc_mcp.Knowledge.Investigation.Complete.{audit_lem, validate_answer_iff}
use vesc_mcp.Knowledge.Investigation.Historical.{
  HistoricalTraceRevisions, historical_package_loader, historical_package_loader_iff,
  default_budget,
}
use vesc_mcp.Knowledge.Planning.{
  SearchQuery, PlannerProposal, CriticProposal, apply, critic_apply, check_queries, is_bad_text,
  query_eq, hard_coded_proposal,
}
use vesc_mcp.Knowledge.Planning.Apply.{
  apply_iff, critic_apply-IsExtension, IsBoundedText, additions, planner_of,
}
use vesc_mcp.Knowledge.Planning.Baseline.{hard_coded_proposal_lem}

abbrev pub package_facet : FacetRequirement
package_facet = record {
  id = codes "p";
  repository = vesc_package_lib;
  stage = package_format;
  era = exact (codes "r1");
}

abbrev pub other_facet : FacetRequirement
other_facet = record { id = codes "o"; repository = refloat; stage = configuration; era = any_era }

abbrev pub link : RelationshipRequirement
link = record { id = codes "l"; from_facet = codes "p"; to_facet = codes "o"; kind = produces }

abbrev pub contract : InvestigationContract
contract = record {
  schema = investigation_schema_v1;
  question_class = historical_cross_repository_execution_trace;
  budget = default_budget;
  facets = (codes "p", package_facet) ∷ [];
  relationships = [];
}

abbrev both : PlannerExtension
both = record { facets = package_facet ∷ other_facet ∷ []; relationships = link ∷ [] }

abbrev pub linked : InvestigationContract
linked = record {
  schema = investigation_schema_v1;
  question_class = historical_cross_repository_execution_trace;
  budget = default_budget;
  facets = (codes "o", other_facet) ∷ (codes "p", package_facet) ∷ [];
  relationships = (codes "l", link) ∷ [];
}

contract_valid : validate contract ≡ ok tt
unfolding validate budget_is_valid facet_is_valid era_is_blank is_blank trim trim_start trim_end
    is_whitespace is_empty text_eq
contract_valid = refl

extended : extend contract both ≡ ok linked
unfolding extend validate budget_is_valid facet_is_valid relationship_is_valid era_is_blank is_blank
    trim trim_start trim_end is_whitespace is_empty text_eq text_cmp get insert contains_key
    insert_facets insert_relationships insert_unchanged_or_new facet_eq relationship_eq
    repository_eq stage_eq era_eq kind_eq
extended = refl

extend_lem_example : IsExtension contract both linked
extend_lem_example = extend_lem contract both linked extended

-- The same id with another era.
conflict :
    extend contract (record {
      facets =
          record {
            id = codes "p";
            repository = vesc_package_lib;
            stage = package_format;
            era = any_era;
          }
          ∷ [];
      relationships = [];
    })
    ≡ err (conflicting_requirement (codes "p"))
unfolding extend validate budget_is_valid facet_is_valid relationship_is_valid era_is_blank is_blank
    trim trim_start trim_end is_whitespace is_empty text_eq text_cmp get insert contains_key
    insert_facets insert_relationships insert_unchanged_or_new facet_eq relationship_eq
    repository_eq stage_eq era_eq kind_eq
conflict = refl

abbrev pub found_package : Evidence
found_package = record {
  id = codes "e1";
  repository = vesc_package_lib;
  stage = package_format;
  revision = codes "r1";
  path = codes "a.rs";
  decisive = true;
}

abbrev pub found_other : Evidence
found_other = record {
  id = codes "e2";
  repository = refloat;
  stage = configuration;
  revision = codes "any";
  path = codes "b.c";
  decisive = true;
}

abbrev wrong : Evidence
wrong = record {
  id = codes "e3";
  repository = refloat;
  stage = package_format;
  revision = codes "any";
  path = codes "b.c";
  decisive = true;
}

abbrev pub relation : EvidenceRelationship
relation = record { from_evidence = codes "e1"; to_evidence = codes "e2"; kind = produces }

audited : audit linked (wrong ∷ found_package ∷ []) (relation ∷ []) ≡ record {
  schema = investigation_schema_v1;
  outcome = insufficient;
  qualifying_evidence = (codes "p", codes "e1" ∷ []) ∷ [];
  missing_facets = codes "o" ∷ [];
  missing_relationships = codes "l" ∷ [];
  rejected_evidence = record { evidence_id = codes "e3"; reason = wrong_stage } ∷ [];
}
unfolding audit audit_loop audit_item push_entries push_entry era_matches stage_matches
    repository_matches rejection sort insert_sorted dedup rejected_cmp sorted_ids
    relationship_is_covered get insert contains_key values keys text_eq text_cmp repository_eq
    stage_eq matches kind_eq is_blank trim trim_start trim_end is_whitespace is_empty
audited = refl

audit_lem_example :
    (audit linked (wrong ∷ found_package ∷ []) (relation ∷ [])).missing_facets
    ≡ filter (λ k. not (any (qualifies linked k) (wrong ∷ found_package ∷ []))) (keys linked.facets)
audit_lem_example = (audit_lem linked (wrong ∷ found_package ∷ []) (relation ∷ [])).0

validate_answer_iff_example :
    validate_answer linked
      (audit linked (found_package ∷ found_other ∷ []) (relation ∷ []))
      (codes "e2" ∷ codes "e1" ∷ [])
    ≡ ok tt
unfolding qualifies values keys text_eq repository_eq stage_eq matches kind_eq is_blank trim
    trim_start trim_end is_whitespace is_empty
validate_answer_iff_example =
    (validate_answer_iff linked (found_package ∷ found_other ∷ []) (relation ∷ [])
        (codes "e2" ∷ codes "e1" ∷ [])).1
      (((refl, (refl, tt)), (refl, tt)), (refl, (refl, tt)))

abbrev revisions : HistoricalTraceRevisions
revisions = record {
  package_revision = codes "p1";
  firmware = codes "f1";
  rtos = codes "c1";
  consumer = codes "r1";
}

historical_package_loader_iff_example : validate (historical_package_loader revisions) ≡ ok tt
unfolding is_blank trim trim_start trim_end is_whitespace is_empty
historical_package_loader_iff_example =
    (historical_package_loader_iff revisions).1 (refl, refl, refl, refl)

abbrev pub query : SearchQuery
query = record { facet_id = codes "o"; query = codes "q" }

abbrev pub proposal : PlannerProposal
proposal = record {
  schema = 1;
  facet_additions = package_facet ∷ other_facet ∷ [];
  relationship_additions = link ∷ [];
  search_queries = query ∷ [];
  request_critic = false;
}

query_bounded : IsBoundedText (codes "q")
unfolding is_blank trim trim_start trim_end is_whitespace is_empty is_control as_bytes encode_char
query_bounded = (refl, omega arith, refl)

apply_iff_example : apply proposal contract ≡ ok linked
unfolding values text_eq
apply_iff_example = (apply_iff proposal contract linked).1 (
  (refl, omega arith, omega arith, omega arith),
  extended,
  (((refl, query_bounded), tt), (tt, tt)),
)

abbrev pub critic : CriticProposal
critic = record {
  schema = 1;
  facet_additions = package_facet ∷ other_facet ∷ [];
  relationship_additions = link ∷ [];
  search_queries = query ∷ [];
  concerns = codes "c" ∷ [];
}

criticised : critic_apply critic contract ≡ ok linked
unfolding critic_apply apply check_queries is_bad_text query_eq values extend validate
    budget_is_valid facet_is_valid relationship_is_valid era_is_blank is_blank trim trim_start
    trim_end is_whitespace is_empty is_control as_bytes encode_char text_eq text_cmp get insert
    contains_key insert_facets insert_relationships insert_unchanged_or_new facet_eq relationship_eq
    repository_eq stage_eq era_eq kind_eq
criticised = refl

critic_apply-IsExtension_example :
    (1 ≤ 8)
    × All IsBoundedText (codes "c" ∷ [])
    × IsExtension contract (additions (planner_of critic)) linked
critic_apply-IsExtension_example = critic_apply-IsExtension critic contract linked criticised

abbrev nothing_found : CoverageAudit
nothing_found = record {
  schema = investigation_schema_v1;
  outcome = insufficient;
  qualifying_evidence = [];
  missing_facets = codes "p" ∷ [];
  missing_relationships = [];
  rejected_evidence = [];
}

hard_coded_proposal_lem_example :
    apply (hard_coded_proposal (λ f. codes "q") contract nothing_found) contract ≡ ok contract
unfolding values text_eq
hard_coded_proposal_lem_example =
    hard_coded_proposal_lem (λ f. codes "q") contract nothing_found contract_valid (tt, tt)
      (query_bounded, tt)
