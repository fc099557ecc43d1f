-- ===== src/Knowledge/Pipeline/Answered.antt =====
-- The outcomes of `run` in crates/vesc-knowledge-index/src/pipeline.rs: an answer, and a report of what is
-- missing.
use vesc_mcp.Prelude.{
  sym, ◌∙◌, ◌≡◌, ap, not, List, Option, ltb, ok, map_err, Ensures, Ensures-guard, Ensures-bind,
  arith,
}
use mathlib.Core.Path.{subst}
use vesc_mcp.Text.{Text}
use vesc_mcp.Knowledge.Investigation.{FacetRequirement, RelationshipKind, InvestigationContract}
use vesc_mcp.Knowledge.Investigation.Contract.{validate}
use vesc_mcp.Knowledge.Investigation.Audit.{CoverageAudit}
use vesc_mcp.Knowledge.Planning.{PlannerProposal, CriticProposal}
use vesc_mcp.Knowledge.Pipeline.{
  OperatingPoint, AcquiredEvidence, AcquisitionRequest, AcquisitionRound, AnswerDraft,
  AnsweredInvestigation, InsufficiencyReport, PipelineOutcome, answered, exhausted,
  invalid_contract,
}
use vesc_mcp.Knowledge.Pipeline.Round.{Prepared, prepare, start}
use vesc_mcp.Knowledge.Pipeline.Run.{run}
use vesc_mcp.Knowledge.Pipeline.Prepared.{prepare-budget, map_err-ok}
use vesc_mcp.Knowledge.Pipeline.Finish.{IsSupported, IsWithin, IsOutcome}
use vesc_mcp.Knowledge.Pipeline.Rounds.{
  IsReported, rounds_loop-IsOutcome, validate-bytes, validate-rounds, start-IsSession, no_rounds,
}

module _ (debug : FacetRequirement → Text) (debug_kind : RelationshipKind → Text) {S : Type 0}
    (acquire : S → AcquisitionRequest → AcquisitionRound × S)
    (answerer : List AcquiredEvidence → CoverageAudit → AnswerDraft) where
  -- The outcome of a run, with the contract that it was prepared with.
  abbrev IsRun :
      InvestigationContract
      → OperatingPoint
      → Option PlannerProposal
      → Option CriticProposal
      → S
      → PipelineOutcome
      → Type 0
  IsRun contract operating_point planner critic acquirer out =
      (prepared : Prepared) × (prepare contract operating_point planner critic ≡ ok prepared)
      × (prepared.contract.budget ≡ contract.budget)
      × IsOutcome
          (IsReported debug debug_kind acquire answerer prepared.contract prepared.model_queries 1
            (start prepared acquirer))
          prepared.contract out

  run-Prepared :
      (contract : InvestigationContract) (operating_point : OperatingPoint)
      (planner : Option PlannerProposal) (critic : Option CriticProposal) (acquirer : S)
      → Ensures
          (IsRun contract operating_point planner critic acquirer)
          (run debug debug_kind acquire answerer contract operating_point planner critic acquirer)
  unfolding run
  run-Prepared contract operating_point planner critic acquirer =
      Ensures-bind (map_err invalid_contract (validate contract)) _ λ _ valid.
        Ensures-bind (prepare contract operating_point planner critic) _ λ prepared hp.
          Ensures-guard (not (ltb prepared.contract.budget.max_model_calls prepared.model_calls)) _
            _
            λ few.
              let same = (prepare-budget contract operating_point planner critic).at prepared hp in
              let bounded =
                validate-bytes contract (map_err-ok invalid_contract (validate contract) valid) in
              let some_rounds =
                validate-rounds contract (map_err-ok invalid_contract (validate contract) valid) in
              record {
                at = λ out run. (
                  prepared,
                  hp,
                  same,
                  (rounds_loop-IsOutcome debug debug_kind acquire answerer prepared.contract
                        prepared.model_queries
                        (omega (arith, bounded, ap (λ b. b.max_context_bytes) same))
                        prepared.contract.budget.max_rounds 1 (start prepared acquirer)
                        (omega arith) (omega arith)
                        (start-IsSession prepared acquirer (ground (arith, few)))
                        (λ none_left. absurd (
                          no_rounds _ some_rounds
                            (sym (ap (λ b. b.max_rounds) same) ∙ none_left)))).at
                      out run,
                );
              }

  -- When `run` answers, the contract it was prepared with is that of the answer's evidence: the evidence
  -- covers it, every facet has qualifying evidence that the answer cites, what the answer cites and
  -- claims was retained, and its text is not blank; and the budget of the given contract bounds the
  -- rounds, the model calls and the bytes of the evidence, all of which has complete provenance within
  -- the hops.
  pub run-answered :
      (contract : InvestigationContract) (operating_point : OperatingPoint)
      (planner : Option PlannerProposal) (critic : Option CriticProposal) (acquirer : S)
      (a : AnsweredInvestigation)
      → run debug debug_kind acquire answerer contract operating_point planner critic acquirer
        ≡ ok (answered a)
      → (prepared : Prepared) × (prepare contract operating_point planner critic ≡ ok prepared)
        × IsSupported prepared.contract a
        × IsWithin contract.budget a
  run-answered contract operating_point planner critic acquirer a h =
      let (prepared, hp, same, (supported, within)) =
        (run-Prepared contract operating_point planner critic acquirer).at (answered a) h in
      (prepared, hp, supported, subst (λ b. IsWithin b a) same within)

  -- When `run` reports that its evidence is insufficient, it has used all the rounds of the budget and
  -- no more model calls than the budget allows; the rounds, none of which completed the evidence, lead
  -- from the start to a last session; and the report names exactly the facets of the prepared contract
  -- for which no retained evidence of that session qualifies and the relationships that no pair of it
  -- supports, at least one of them.
  pub run-exhausted :
      (contract : InvestigationContract) (operating_point : OperatingPoint)
      (planner : Option PlannerProposal) (critic : Option CriticProposal) (acquirer : S)
      (r : InsufficiencyReport)
      → run debug debug_kind acquire answerer contract operating_point planner critic acquirer
        ≡ ok (exhausted r)
      → (prepared : Prepared) × (prepare contract operating_point planner critic ≡ ok prepared)
        × (prepared.contract.budget ≡ contract.budget)
        × IsReported debug debug_kind acquire answerer prepared.contract prepared.model_queries 1
            (start prepared acquirer)
            r
  run-exhausted contract operating_point planner critic acquirer r h =
      (run-Prepared contract operating_point planner critic acquirer).at (exhausted r) h
