-- ===== src/Knowledge/Pipeline/Run.antt =====
-- crates/vesc-knowledge-index/src/pipeline.rs: `run`, with the acquirer, which keeps a state, and the
-- answerer as parameters.
use vesc_mcp.Prelude.{
  ℕ, zero, suc, ◌+◌, ◌-◌, true, false, not, List, ◌++◌, Option, ltb, filter, map, Result, ok,
  map_err, guard, ◌>>=◌, ◌>>◌,
}
use vesc_mcp.Text.{Text, codes}
use vesc_mcp.Map.{keys, values}
use vesc_mcp.Knowledge.Investigation.{
  FacetRequirement, RelationshipRequirement, RelationshipKind, InvestigationContract, contains,
}
use vesc_mcp.Knowledge.Investigation.Contract.{validate}
use vesc_mcp.Knowledge.Investigation.Audit.{CoverageAudit, audit, is_complete, sort}
use vesc_mcp.Knowledge.Planning.{SearchQuery, PlannerProposal, CriticProposal, hard_coded_proposal}
use vesc_mcp.Knowledge.Pipeline.{
  OperatingPoint, AcquiredEvidence, AcquisitionRequest, AcquisitionRound, AnswerDraft, BudgetUsage,
  PipelineOutcome, exhausted, PipelineError, invalid_contract, model_call_budget, extend_edges,
}
use vesc_mcp.Knowledge.Pipeline.Round.{
  prepare, query_cmp, dedup_queries, count_round, keep_items, Session, start, finish,
}

module _ (debug : FacetRequirement → Text) (debug_kind : RelationshipKind → Text) where
  unfoldable pub round_queries :
      InvestigationContract → List SearchQuery → CoverageAudit → List SearchQuery
  round_queries contract model_queries coverage = dedup_queries (
      sort query_cmp (
        (hard_coded_proposal debug contract coverage).search_queries
        ++ filter (λ query. contains query.facet_id coverage.missing_facets) model_queries))

  unfoldable pub relationship_query : RelationshipRequirement → SearchQuery
  relationship_query required = record {
    facet_id = required.from_facet;
    query =
        codes "relationship "
        ++ (debug_kind required.kind
            ++ (codes " from " ++ (required.from_facet ++ (codes " to " ++ required.to_facet))));
  }

  unfoldable pub report : InvestigationContract → BudgetUsage → CoverageAudit → PipelineOutcome
  report contract usage coverage = exhausted (record {
    missing_facets = coverage.missing_facets;
    missing_relationships = coverage.missing_relationships;
    suggested_queries = dedup_queries (
        sort query_cmp (
          (hard_coded_proposal debug contract coverage).search_queries
          ++ map relationship_query (
              filter (λ required. contains required.id coverage.missing_relationships)
                (values contract.relationships))));
    usage = usage;
  })

  module _ {S : Type 0} (acquire : S → AcquisitionRequest → AcquisitionRound × S)
      (answerer : List AcquiredEvidence → CoverageAudit → AnswerDraft) where
    unfoldable pub request :
        InvestigationContract → List SearchQuery → ℕ → Session S → AcquisitionRequest
    request contract model_queries round session = record {
      round = round;
      missing_facets = session.audit.missing_facets;
      missing_relationships = session.audit.missing_relationships;
      queries = round_queries contract model_queries session.audit;
      max_candidates = contract.budget.max_candidates_per_round;
      remaining_context_bytes = contract.budget.max_context_bytes - session.usage.context_bytes;
      max_graph_hops = contract.budget.max_graph_hops;
    }

    -- One round up to the audit.
    unfoldable pub acquire_round :
        InvestigationContract → List SearchQuery → ℕ → Session S → Result PipelineError (Session S)
    acquire_round contract model_queries round session = do
      let (result, acquirer) =
          acquire session.acquirer (request contract model_queries round session)
      counted ← count_round contract.budget round session.usage result
      kept ←
          keep_items contract.budget result.relationships
            (keys session.retained ++ map (λ item. item.evidence.id) result.retained)
            (counted, session.retained) result.retained
      let relationships = extend_edges session.relationships result.relationships
      ok (record {
        usage = kept.0;
        retained = kept.1;
        relationships = relationships;
        audit = audit contract (map (λ item. item.evidence) (values kept.1)) relationships;
        acquirer = acquirer;
      })

    -- The rounds left, from `round` on.
    unfoldable pub rounds_loop :
        InvestigationContract
        → List SearchQuery
        → ℕ
        → ℕ
        → Session S
        → Result PipelineError PipelineOutcome
    rounds_loop contract model_queries zero round session =
        ok (report contract session.usage session.audit)
    rounds_loop contract model_queries (suc left) round session =
        acquire_round contract model_queries round session >>= λ next.
        elim (is_complete next.audit.outcome) [
          | true ↦ finish answerer contract next
          | false ↦ rounds_loop contract model_queries left (round + 1) next
        ]

    unfoldable pub run :
        InvestigationContract
        → OperatingPoint
        → Option PlannerProposal
        → Option CriticProposal
        → S
        → Result PipelineError PipelineOutcome
    run contract operating_point planner critic acquirer = do
      map_err invalid_contract (validate contract)
      prepared ← prepare contract operating_point planner critic
      guard (not (ltb prepared.contract.budget.max_model_calls prepared.model_calls))
          model_call_budget
      rounds_loop prepared.contract prepared.model_queries prepared.contract.budget.max_rounds 1
          (start prepared acquirer)
