-- ===== src/Knowledge/Pipeline/Round.antt =====
-- crates/vesc-knowledge-index/src/pipeline.rs: what `run` does before the rounds, the checks of a round and
-- of an answer.
use vesc_mcp.Prelude.{
  ℕ, ◌+◌, Bool, not, ◌||◌, List, [], ◌∷◌, ◌++◌, Option, none, some, ◌==◌, ltb, any, map, length,
  min, max, Ordering, if◌then◌else◌, Result, ok, map_err, ok_or, guard, ◌>>=◌, ◌>>◌, then_cmp,
}
use vesc_mcp.Text.{Text, text_cmp}
use vesc_mcp.Map.{Map, get, insert, values}
use vesc_mcp.Knowledge.Investigation.{
  EvidenceRelationship, RoundBudget, InvestigationContract, contains,
}
use vesc_mcp.Knowledge.Investigation.Contract.{is_blank}
use vesc_mcp.Knowledge.Investigation.Audit.{CoverageAudit, audit, validate_answer}
use vesc_mcp.Knowledge.Planning.{
  SearchQuery, PlannerProposal, CriticProposal, apply, critic_apply, query_eq,
}
use vesc_mcp.Knowledge.Pipeline.{
  OperatingPoint, hard_rules_only, fast_planner, planner_and_critic, AcquiredEvidence,
  AcquisitionRound, AnswerDraft, BudgetUsage, PipelineOutcome, answered, PipelineError,
  missing_planner, missing_critic, invalid_planner, model_call_budget, candidate_budget,
  relationship_budget, graph_hop_budget, context_byte_budget, answerer_model_call_budget,
  invalid_provenance, conflicting_evidence, blank_answer, invalid_answer, cites_outside_context,
  unsupported_relationship, saturating_add_u8, saturating_add_u32, acquired_eq, validate_provenance,
  contains_edge,
}

abbrev pub no_usage : BudgetUsage
no_usage = record {
  rounds = 0;
  candidates = 0;
  context_bytes = 0;
  graph_hops = 0;
  max_graph_hops = 0;
  model_calls = 0;
}

-- What stands before the rounds: the contract with the additions, the calls made, the queries.
pub record Prepared : Type 0 where
  pub contract : InvestigationContract
  pub model_calls : ℕ
  pub model_queries : List SearchQuery

unfoldable pub prepare :
    InvestigationContract
    → OperatingPoint
    → Option PlannerProposal
    → Option CriticProposal
    → Result PipelineError Prepared
prepare contract hard_rules_only planner critic =
    ok (record { contract = contract; model_calls = 0; model_queries = [] })
prepare contract fast_planner planner critic = do
  proposal ← ok_or planner missing_planner
  planned ← map_err invalid_planner (apply proposal contract)
  ok (record { contract = planned; model_calls = 1; model_queries = proposal.search_queries })
prepare contract planner_and_critic planner critic = do
  proposal ← ok_or planner missing_planner
  planned ← map_err invalid_planner (apply proposal contract)
  review ← ok_or critic missing_critic
  reviewed ← map_err invalid_planner (critic_apply review planned)
  ok (record {
    contract = reviewed;
    model_calls = 2;
    model_queries = proposal.search_queries ++ review.search_queries;
  })

unfoldable pub query_cmp : SearchQuery → SearchQuery → Ordering
query_cmp a b = then_cmp (text_cmp a.facet_id b.facet_id) (text_cmp a.query b.query)

unfoldable pub dedup_queries : List SearchQuery → List SearchQuery
dedup_queries [] = []
dedup_queries (a ∷ []) = a ∷ []
dedup_queries (a ∷ b ∷ bs) =
    let rest = dedup_queries (b ∷ bs) in if query_eq a b then rest else a ∷ rest

-- The usage after a round was acquired.
unfoldable pub count_round :
    RoundBudget → ℕ → BudgetUsage → AcquisitionRound → Result PipelineError BudgetUsage
count_round budget round usage result = do
  guard (not (ltb budget.max_candidates_per_round (length result.retained))) candidate_budget
  guard (not (ltb budget.max_candidates_per_round (length result.relationships)))
      relationship_budget
  let calls = saturating_add_u8 usage.model_calls result.model_calls
  guard (not (ltb budget.max_model_calls calls)) model_call_budget
  ok (record usage {
    rounds = round;
    candidates = saturating_add_u32 usage.candidates (min (length result.retained) 4294967295);
    model_calls = calls;
  })

-- The usage and the evidence that the loop over a round grows.
abbrev pub Kept : Type 0
Kept = BudgetUsage × Map AcquiredEvidence

unfoldable pub is_outside : List EvidenceRelationship → List Text → EvidenceRelationship → Bool
is_outside relationships available_ids edge =
    not (contains_edge edge relationships)
    || not (contains edge.from_evidence available_ids)
    || not (contains edge.to_evidence available_ids)

-- The usage with an item.
abbrev pub grow : BudgetUsage → AcquiredEvidence → BudgetUsage
grow usage item = record usage {
  context_bytes = saturating_add_u32 usage.context_bytes item.context_bytes;
  graph_hops = saturating_add_u32 usage.graph_hops item.provenance.graph_hops;
  max_graph_hops = max usage.max_graph_hops item.provenance.graph_hops;
}

-- The item beside what is retained under its id.
abbrev pub merge_item :
    BudgetUsage
    → Map AcquiredEvidence
    → AcquiredEvidence
    → Option AcquiredEvidence
    → Result PipelineError Kept
merge_item usage retained item none = ok (usage, insert item.evidence.id item retained)
merge_item usage retained item (some existing) =
    guard (acquired_eq existing item) conflicting_evidence >> ok (usage, retained)

unfoldable pub keep_item :
    RoundBudget
    → List EvidenceRelationship
    → List Text
    → Kept
    → AcquiredEvidence
    → Result PipelineError Kept
keep_item budget relationships available_ids (usage, retained) item = do
  guard (validate_provenance item.provenance) invalid_provenance
  guard (not (ltb budget.max_graph_hops item.provenance.graph_hops)) graph_hop_budget
  guard (not (any (is_outside relationships available_ids) item.provenance.graph_path))
      invalid_provenance
  let grown = grow usage item
  guard (not (ltb budget.max_context_bytes grown.context_bytes)) context_byte_budget
  merge_item grown retained item (get item.evidence.id retained)

unfoldable pub keep_items :
    RoundBudget
    → List EvidenceRelationship
    → List Text
    → Kept
    → List AcquiredEvidence
    → Result PipelineError Kept
keep_items budget relationships available_ids kept [] = ok kept
keep_items budget relationships available_ids kept (item ∷ items) = do
  kept' ← keep_item budget relationships available_ids kept item
  keep_items budget relationships available_ids kept' items

-- What a round leaves to the next one, with the state of the acquirer.
pub record Session (S : Type 0) : Type 0 where
  pub usage : BudgetUsage
  pub retained : Map AcquiredEvidence
  pub relationships : List EvidenceRelationship
  pub audit : CoverageAudit
  pub acquirer : S

abbrev pub start : {S : Type 0} → Prepared → S → Session S
start prepared acquirer = record {
  usage = record no_usage { model_calls = prepared.model_calls };
  retained = [];
  relationships = [];
  audit = audit prepared.contract [] [];
  acquirer = acquirer;
}

-- The checks of an answer and its result.
unfoldable pub finish :
    (List AcquiredEvidence → CoverageAudit → AnswerDraft)
    → {S : Type 0} → InvestigationContract
    → Session S
    → Result PipelineError PipelineOutcome
finish answerer contract session = do
  guard (not (session.usage.model_calls == contract.budget.max_model_calls))
      answerer_model_call_budget
  let evidence = values session.retained
  let draft = answerer evidence session.audit
  guard (not (is_blank draft.text)) blank_answer
  map_err invalid_answer (validate_answer contract session.audit draft.cited_evidence)
  let retained_ids = map (λ item. item.evidence.id) evidence
  guard (not (any (λ id. not (contains id retained_ids)) draft.cited_evidence))
      cites_outside_context
  guard
      (not (
        any (λ claim. not (contains_edge claim session.relationships)) draft.claimed_relationships))
      unsupported_relationship
  ok (
      answered (record {
        answer = draft;
        audit = session.audit;
        evidence = evidence;
        relationships = session.relationships;
        usage = record session.usage { model_calls = session.usage.model_calls + 1 };
      }))
