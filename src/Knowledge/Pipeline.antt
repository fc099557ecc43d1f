-- ===== src/Knowledge/Pipeline.antt =====
-- crates/vesc-knowledge-index/src/pipeline.rs: the records of the pipeline and its checks of a round.
pub mod Round
pub mod Run
pub mod Prepared
pub mod Kept
pub mod Finish
pub mod Rounds
pub mod Answered
use vesc_mcp.Prelude.{
  ℕ, ◌+◌, ◌-◌, ◌^◌, ◌<◌, Bool, true, false, not, ◌&&◌, ◌||◌, List, [], ◌∷◌, ◌++◌, Option, none,
  some, ◌==◌, ltb, any, filter, map, length, min, max, Ordering, if◌then◌else◌, Result, ok, err,
  guard, ◌>>=◌, ◌>>◌, then_cmp,
}
use vesc_mcp.Prelude.Int.{ℤ, pos, negsuc}
use vesc_mcp.Text.{Text, text_eq, text_cmp}
use vesc_mcp.Map.{Map, get, insert, keys}
use vesc_mcp.Knowledge.Investigation.{
  Evidence, EvidenceRelationship, RelationshipKind, produces, loaded_by, dispatches_to, runs_in,
  invoked_by, named_kind, RoundBudget, repository_eq, stage_eq, kind_eq, contains,
}
use vesc_mcp.Knowledge.Investigation.Contract.{ContractError}
use vesc_mcp.Knowledge.Investigation.Audit.{AnswerValidationError, CoverageAudit}
use vesc_mcp.Knowledge.Planning.{SearchQuery, PlannerProposalError}

pub data OperatingPoint : Type 0 where
  hard_rules_only fast_planner planner_and_critic : OperatingPoint

pub record EvidenceProvenance : Type 0 where
  pub lexical_rank : Option ℕ
  pub semantic_rank : Option ℕ
  pub graph_path : List EvidenceRelationship
  pub graph_hops : ℕ
  pub rerank_rank : ℕ
  pub retrieval_score_micros : ℤ
  pub rerank_score_micros : Option ℤ

abbrev is_some : Option ℕ → Bool
is_some none = false
is_some (some n) = true

-- `is_none_or(|rank| rank > 0)`
abbrev is_positive_or_none : Option ℕ → Bool
is_positive_or_none none = true
is_positive_or_none (some rank) = ltb 0 rank

abbrev is_filled : List EvidenceRelationship → Bool
is_filled [] = false
is_filled (e ∷ es) = true

unfoldable pub validate_provenance : EvidenceProvenance → Bool
validate_provenance p =
    (is_some p.lexical_rank || is_some p.semantic_rank || is_filled p.graph_path)
    && is_positive_or_none p.lexical_rank
    && is_positive_or_none p.semantic_rank
    && ltb 0 p.rerank_rank
    && p.graph_hops == length p.graph_path

pub record AcquiredEvidence : Type 0 where
  pub evidence : Evidence
  pub context_bytes : ℕ
  pub provenance : EvidenceProvenance

pub record AcquisitionRequest : Type 0 where
  pub round : ℕ
  pub missing_facets : List Text
  pub missing_relationships : List Text
  pub queries : List SearchQuery
  pub max_candidates : ℕ
  pub remaining_context_bytes : ℕ
  pub max_graph_hops : ℕ

pub record AcquisitionRound : Type 0 where
  pub retained : List AcquiredEvidence
  pub relationships : List EvidenceRelationship
  pub model_calls : ℕ

pub record AnswerDraft : Type 0 where
  pub text : Text
  pub cited_evidence : List Text
  pub claimed_relationships : List EvidenceRelationship

pub record BudgetUsage : Type 0 where
  pub rounds : ℕ
  pub candidates : ℕ
  pub context_bytes : ℕ
  pub graph_hops : ℕ
  pub max_graph_hops : ℕ
  pub model_calls : ℕ

pub record AnsweredInvestigation : Type 0 where
  pub answer : AnswerDraft
  pub audit : CoverageAudit
  pub evidence : List AcquiredEvidence
  pub relationships : List EvidenceRelationship
  pub usage : BudgetUsage

pub record InsufficiencyReport : Type 0 where
  pub missing_facets : List Text
  pub missing_relationships : List Text
  pub suggested_queries : List SearchQuery
  pub usage : BudgetUsage

pub data PipelineOutcome : Type 0 where
  answered : AnsweredInvestigation → PipelineOutcome
  exhausted : InsufficiencyReport → PipelineOutcome

pub data PipelineError : Type 0 where
  invalid_contract : ContractError → PipelineError
  missing_planner missing_critic : PipelineError
  invalid_planner : PlannerProposalError → PipelineError
  model_call_budget candidate_budget relationship_budget graph_hop_budget : PipelineError
  context_byte_budget answerer_model_call_budget : PipelineError
  invalid_provenance conflicting_evidence blank_answer : PipelineError
  invalid_answer : AnswerValidationError → PipelineError
  cites_outside_context unsupported_relationship : PipelineError

-- `u8::saturating_add` and `u32::saturating_add`
abbrev pub saturating_add_u8 : ℕ → ℕ → ℕ
saturating_add_u8 a b = min (a + b) 255

abbrev pub saturating_add_u32 : ℕ → ℕ → ℕ
saturating_add_u32 a b = min (a + b) 4294967295

abbrev option_eq : Option ℕ → Option ℕ → Bool
option_eq none none = true
option_eq (some a) (some b) = a == b
option_eq _ _ = false

abbrev int_eq : ℤ → ℤ → Bool
int_eq (pos a) (pos b) = a == b
int_eq (negsuc a) (negsuc b) = a == b
int_eq _ _ = false

abbrev option_int_eq : Option ℤ → Option ℤ → Bool
option_int_eq none none = true
option_int_eq (some a) (some b) = int_eq a b
option_int_eq _ _ = false

unfoldable pub edge_eq : EvidenceRelationship → EvidenceRelationship → Bool
edge_eq a b =
    text_eq a.from_evidence b.from_evidence
    && text_eq a.to_evidence b.to_evidence
    && kind_eq a.kind b.kind

unfoldable pub edges_eq : List EvidenceRelationship → List EvidenceRelationship → Bool
edges_eq [] [] = true
edges_eq (a ∷ as') (b ∷ bs) = edge_eq a b && edges_eq as' bs
edges_eq _ _ = false

abbrev bool_eq : Bool → Bool → Bool
bool_eq true b = b
bool_eq false b = not b

unfoldable pub evidence_eq : Evidence → Evidence → Bool
evidence_eq a b =
    text_eq a.id b.id
    && repository_eq a.repository b.repository
    && stage_eq a.stage b.stage
    && text_eq a.revision b.revision
    && text_eq a.path b.path
    && bool_eq a.decisive b.decisive

unfoldable pub provenance_eq : EvidenceProvenance → EvidenceProvenance → Bool
provenance_eq a b =
    option_eq a.lexical_rank b.lexical_rank
    && option_eq a.semantic_rank b.semantic_rank
    && edges_eq a.graph_path b.graph_path
    && a.graph_hops == b.graph_hops
    && a.rerank_rank == b.rerank_rank
    && int_eq a.retrieval_score_micros b.retrieval_score_micros
    && option_int_eq a.rerank_score_micros b.rerank_score_micros

unfoldable pub acquired_eq : AcquiredEvidence → AcquiredEvidence → Bool
acquired_eq a b =
    evidence_eq a.evidence b.evidence
    && a.context_bytes == b.context_bytes
    && provenance_eq a.provenance b.provenance

-- The derived `Ord`: the fields in their order, the kinds in the order of the source.
abbrev kind_rank : RelationshipKind → ℕ
kind_rank produces = 0
kind_rank loaded_by = 1
kind_rank dispatches_to = 2
kind_rank runs_in = 3
kind_rank invoked_by = 4
kind_rank (named_kind name) = 5

unfoldable pub kind_cmp : RelationshipKind → RelationshipKind → Ordering
kind_cmp (named_kind a) (named_kind b) = text_cmp a b
kind_cmp a b =
    if ltb (kind_rank a) (kind_rank b)
    then Ordering.lt
    else if ltb (kind_rank b) (kind_rank a)
    then Ordering.gt
    else Ordering.eq

unfoldable pub edge_cmp : EvidenceRelationship → EvidenceRelationship → Ordering
edge_cmp a b =
    then_cmp (text_cmp a.from_evidence b.from_evidence)
      (then_cmp (text_cmp a.to_evidence b.to_evidence) (kind_cmp a.kind b.kind))

-- A `BTreeSet` of relationships is the list of its elements in order.
unfoldable pub insert_edge :
    EvidenceRelationship → List EvidenceRelationship → List EvidenceRelationship
insert_edge a [] = a ∷ []
insert_edge a (b ∷ bs) =
    let rest = insert_edge a bs in
    elim (edge_cmp a b) [ Ordering.lt ↦ a ∷ b ∷ bs | Ordering.eq ↦ b ∷ bs | Ordering.gt ↦ b ∷ rest ]

unfoldable pub extend_edges :
    List EvidenceRelationship → List EvidenceRelationship → List EvidenceRelationship
extend_edges edges [] = edges
extend_edges edges (a ∷ new) = extend_edges (insert_edge a edges) new

abbrev pub contains_edge : EvidenceRelationship → List EvidenceRelationship → Bool
contains_edge edge edges = any (λ e. edge_eq e edge) edges
