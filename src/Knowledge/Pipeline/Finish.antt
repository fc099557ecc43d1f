-- ===== src/Knowledge/Pipeline/Finish.antt =====
-- What the answer that `finish` of crates/vesc-knowledge-index/src/pipeline.rs accepts rests on.
use vesc_mcp.Prelude.{
  ◌≤◌, ◌≡◌, ap, ◌∙◌, filter, true, false, not, ◌&&◌, List, ◌==◌, any, All, map, ok, map_err,
  Ensures, Ensures-ok, Ensures-guard, Ensures-bind, arith,
}
use mathlib.Core.Path.{subst}
use vesc_mcp.Text.{Text}
use vesc_mcp.Map.{keys, values}
use vesc_mcp.Knowledge.Investigation.{Evidence, RoundBudget, InvestigationContract, contains}
use vesc_mcp.Knowledge.Investigation.Contract.{is_blank}
use vesc_mcp.Knowledge.Investigation.Audit.{no_text, CoverageAudit, audit, validate_answer}
use vesc_mcp.Knowledge.Investigation.Coverage.{qualifies}
use vesc_mcp.Knowledge.Investigation.Complete.{IsCovered, audit_lem, validate_answer_iff}
use vesc_mcp.Knowledge.Investigation.Found.{connects}
use vesc_mcp.Knowledge.Pipeline.{
  AcquiredEvidence, AnswerDraft, AnsweredInvestigation, InsufficiencyReport, PipelineOutcome,
  answered, exhausted, contains_edge, invalid_answer,
}
use vesc_mcp.Knowledge.Pipeline.Round.{Session, finish}
use vesc_mcp.Knowledge.Pipeline.Prepared.{map_err-ok}
use vesc_mcp.Knowledge.Pipeline.Kept.{total_bytes, IsProven}

abbrev pub evidence_of : List AcquiredEvidence → List Evidence
evidence_of items = map (λ item. item.evidence) items

-- The answer rests on the evidence: the evidence covers the contract, every facet has qualifying evidence
-- that is cited, all that is cited and claimed was retained, and the text is not blank.
abbrev pub IsSupported : InvestigationContract → AnsweredInvestigation → Type 0
IsSupported contract a =
    IsCovered contract (evidence_of a.evidence) a.relationships
    × All
        (λ k.
          any (λ item. qualifies contract k item && contains item.id a.answer.cited_evidence)
            (evidence_of a.evidence)
          ≡ true)
        (keys contract.facets)
    × (any (λ id. not (contains id (map (λ item. item.evidence.id) a.evidence)))
          a.answer.cited_evidence
        ≡ false)
    × (any (λ claim. not (contains_edge claim a.relationships)) a.answer.claimed_relationships
        ≡ false)
    × (is_blank a.answer.text ≡ false)

-- The rounds, the model calls, the bytes and the hops are within the budget.
abbrev pub IsWithin : RoundBudget → AnsweredInvestigation → Type 0
IsWithin budget a =
    (a.usage.rounds ≤ budget.max_rounds)
    × (a.usage.model_calls ≤ budget.max_model_calls)
    × (total_bytes a.evidence ≤ budget.max_context_bytes)
    × All (IsProven budget) a.evidence

-- Something is missing.
abbrev pub IsIncomplete : List Text → List Text → Type 0
IsIncomplete missing_facets missing_relationships =
    (no_text missing_facets && no_text missing_relationships) ≡ false

-- All rounds were used, and something is missing.
abbrev pub IsExhausted : RoundBudget → InsufficiencyReport → Type 0
IsExhausted budget r =
    (r.usage.rounds ≡ budget.max_rounds)
    × (r.usage.model_calls ≤ budget.max_model_calls)
    × IsIncomplete r.missing_facets r.missing_relationships

-- What the report names is what the evidence of the session leaves open: the facets of the contract for
-- which none of it qualifies, and the relationships that no pair of it supports.
abbrev pub IsShort :
    {S : Type 0} → InvestigationContract → Session S → List Text → List Text → Type 0
IsShort contract s missing_facets missing_relationships =
    (missing_facets
      ≡ filter (λ k. not (any (qualifies contract k) (evidence_of (values s.retained))))
          (keys contract.facets))
    × (missing_relationships
        ≡ map (λ required. required.id)
            (filter
              (λ required. not (
                any (connects contract (evidence_of (values s.retained)) required) s.relationships))
              (values contract.relationships)))

-- An answer is supported and within the budget, and a report satisfies `Q`.
abbrev pub IsOutcome :
    (InsufficiencyReport → Type 0) → InvestigationContract → PipelineOutcome → Type 0
IsOutcome Q contract (answered a) = IsSupported contract a × IsWithin contract.budget a
IsOutcome Q contract (exhausted r) = Q r

-- What holds between two rounds.
abbrev pub IsSession : {S : Type 0} → InvestigationContract → Session S → Type 0
IsSession contract s =
    (s.audit ≡ audit contract (evidence_of (values s.retained)) s.relationships)
    × (total_bytes (values s.retained) ≤ s.usage.context_bytes)
    × (s.usage.context_bytes ≤ contract.budget.max_context_bytes)
    × All (IsProven contract.budget) (values s.retained)
    × (s.usage.model_calls ≤ contract.budget.max_model_calls)
    × (s.usage.rounds ≤ contract.budget.max_rounds)

-- What the audit of a session misses is what its evidence leaves open.
pub session-IsShort :
    {S : Type 0} (contract : InvestigationContract) (s : Session S)
    → IsSession contract s
    → IsShort contract s s.audit.missing_facets s.audit.missing_relationships
session-IsShort contract s (same, bytes, small, proven, _, _) =
    let audited = audit_lem contract (evidence_of (values s.retained)) s.relationships in
    (
      ap (λ a. a.missing_facets) same ∙ audited.0,
      ap (λ a. a.missing_relationships) same ∙ audited.1,
    )

module _ (answerer : List AcquiredEvidence → CoverageAudit → AnswerDraft) {S : Type 0} where
  pub finish-IsOutcome :
      (Q : InsufficiencyReport → Type 0) (contract : InvestigationContract) (s : Session S)
      → IsSession contract s
      → Ensures (IsOutcome Q contract) (finish answerer contract s)
  unfolding finish
  finish-IsOutcome Q contract s (same, bytes, small, proven, calls, rounds) =
      let evidence = values s.retained in
      let draft = answerer evidence s.audit in
      Ensures-guard (not (s.usage.model_calls == contract.budget.max_model_calls)) _ _ λ left.
        Ensures-guard (not (is_blank draft.text)) _ _ λ text.
          Ensures-bind
            (map_err invalid_answer (validate_answer contract s.audit draft.cited_evidence)) _
            λ _ valid.
              Ensures-guard
                (not (
                  any (λ id. not (contains id (map (λ item. item.evidence.id) evidence)))
                    draft.cited_evidence))
                _ _
                λ cited.
                  Ensures-guard
                    (not (
                      any (λ claim. not (contains_edge claim s.relationships))
                        draft.claimed_relationships))
                    _ _
                    λ claimed.
                      let checked =
                        subst (λ a. validate_answer contract a draft.cited_evidence ≡ ok tt) same
                          (map_err-ok invalid_answer
                            (validate_answer contract s.audit draft.cited_evidence) valid) in
                      let (covered, used) =
                        (validate_answer_iff contract (evidence_of evidence) s.relationships
                            draft.cited_evidence).0
                          checked in
                      Ensures-ok _ (
                        (
                          covered,
                          used,
                          ground (arith, cited),
                          ground (arith, claimed),
                          ground (arith, text),
                        ),
                        (rounds, ground (arith, calls, left), omega (arith, bytes, small), proven),
                      )
