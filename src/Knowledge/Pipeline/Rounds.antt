-- ===== src/Knowledge/Pipeline/Rounds.antt =====
-- The rounds of `run` in crates/vesc-knowledge-index/src/pipeline.rs, from one session to the next.
use vesc_mcp.Prelude.{
  ◌&&◌, if◌then◌else◌, sym, ◌∙◌, ℕ, zero, suc, ◌+◌, ◌<◌, ◌≤◌, ◌≡◌, refl, Bool, true, false, not,
  List, ◌++◌, ltb, map, length, Result, ok, Ensures, Ensures-ok, Ensures-guard, Ensures-bind, arith,
}
use mathlib.Core.Path.{subst}
use vesc_mcp.Text.{Text}
use vesc_mcp.Map.{keys, values}
use vesc_mcp.Knowledge.Investigation.{
  Evidence, EvidenceRelationship, FacetRequirement, RelationshipKind, RoundBudget,
  InvestigationContract,
}
use vesc_mcp.Knowledge.Investigation.Contract.{validate, budget_is_valid}
use vesc_mcp.Knowledge.Investigation.Audit.{
  audit, no_text, complete, insufficient, CoverageAudit, is_complete,
}
use vesc_mcp.Knowledge.Planning.{SearchQuery}
use vesc_mcp.Knowledge.Pipeline.{
  AcquiredEvidence, AcquisitionRequest, AcquisitionRound, AnswerDraft, BudgetUsage,
  InsufficiencyReport, PipelineOutcome, answered, exhausted, saturating_add_u8,
}
use vesc_mcp.Knowledge.Pipeline.Round.{Prepared, count_round, keep_items, Session, start}
use vesc_mcp.Knowledge.Pipeline.Run.{report, request, acquire_round, rounds_loop, run}
use vesc_mcp.Knowledge.Pipeline.Kept.{keep_items-IsKept}
use vesc_mcp.Knowledge.Pipeline.Finish.{
  IsExhausted, IsIncomplete, IsShort, session-IsShort, IsOutcome, IsSession, finish-IsOutcome,
}

-- What a round counts before its items.
abbrev IsCounted : RoundBudget → ℕ → BudgetUsage → BudgetUsage → Type 0
IsCounted budget round usage counted =
    (counted.context_bytes ≡ usage.context_bytes)
    × (counted.rounds ≡ round)
    × (counted.model_calls ≤ budget.max_model_calls)

count_round-IsCounted :
    (budget : RoundBudget) (round : ℕ) (usage : BudgetUsage) (result : AcquisitionRound)
    → Ensures (IsCounted budget round usage) (count_round budget round usage result)
unfolding count_round
count_round-IsCounted budget round usage result =
    Ensures-guard (not (ltb budget.max_candidates_per_round (length result.retained))) _ _ λ _.
      Ensures-guard (not (ltb budget.max_candidates_per_round (length result.relationships))) _ _
        λ _.
          Ensures-guard
            (not
              (ltb budget.max_model_calls (saturating_add_u8 usage.model_calls result.model_calls)))
            _ _
            λ calls.
              let few : saturating_add_u8 usage.model_calls result.model_calls
                  ≤ budget.max_model_calls =
                ground (arith, calls) in
              Ensures-ok _ (refl, refl, few)

Ensures-elim {ℓ κ} :
    {E : Type 0} {A : Type ℓ} {P : A → Type κ} (b : Bool) (x y : Result E A)
    → (b ≡ true → Ensures P x)
    → (b ≡ false → Ensures P y)
    → Ensures P (elim b [ true ↦ x | false ↦ y ])
Ensures-elim true x y hx hy = hx refl
Ensures-elim false x y hx hy = hy refl

pub validate-bytes :
    (c : InvestigationContract) → validate c ≡ ok tt → c.budget.max_context_bytes ≤ 4194304
unfolding validate budget_is_valid
validate-bytes c h = ground (arith, h)

pub validate-rounds : (c : InvestigationContract) → validate c ≡ ok tt → 0 < c.budget.max_rounds
unfolding validate budget_is_valid
validate-rounds c h = ground (arith, h)

-- An audit that is not complete misses something.
audit-outcome :
    (c : InvestigationContract) (evidence : List Evidence)
    (relationships : List EvidenceRelationship)
    → is_complete (audit c evidence relationships).outcome ≡ (
        no_text (audit c evidence relationships).missing_facets
        && no_text (audit c evidence relationships).missing_relationships)
unfolding audit
audit-outcome c evidence relationships = either _
  where
    either : (b : Bool) → is_complete (if b then complete else insufficient) ≡ b
    either true = refl
    either false = refl

outcome-IsIncomplete :
    (c : InvestigationContract) (a : CoverageAudit) (evidence : List Evidence)
    (relationships : List EvidenceRelationship)
    → a ≡ audit c evidence relationships
    → is_complete a.outcome ≡ false
    → IsIncomplete a.missing_facets a.missing_relationships
outcome-IsIncomplete c a evidence relationships same h =
    subst
      (λ x. is_complete x.outcome ≡ false → IsIncomplete x.missing_facets x.missing_relationships)
      (sym same) (λ e. sym (audit-outcome c evidence relationships) ∙ e) h

pub start-IsSession :
    {S : Type 0} (prepared : Prepared) (acquirer : S)
    → prepared.model_calls ≤ prepared.contract.budget.max_model_calls
    → IsSession prepared.contract (start prepared acquirer)
unfolding values
start-IsSession prepared acquirer few = (refl, omega arith, omega arith, tt, few, omega arith)

pub no_rounds : (n : ℕ) → 0 < n → n ≡ 0 → ⊥
no_rounds n h e = omega (arith, h, e)

module _ (debug : FacetRequirement → Text) (debug_kind : RelationshipKind → Text) {S : Type 0}
    (acquire : S → AcquisitionRequest → AcquisitionRound × S)
    (answerer : List AcquiredEvidence → CoverageAudit → AnswerDraft) where
  -- From the session `s` before a round to the session `t` before a later one, by rounds that do not
  -- complete the evidence.
  pub data Rounds (contract : InvestigationContract) (model_queries : List SearchQuery)
      : ℕ → Session S → ℕ → Session S → Type 0 where
    stop : {round : ℕ} {s : Session S} → Rounds contract model_queries round s round s
    again :
        {round last : ℕ} {s next t : Session S}
        → acquire_round debug debug_kind acquire answerer contract model_queries round s ≡ ok next
        → is_complete next.audit.outcome ≡ false
        → Rounds contract model_queries (round + 1) next last t
        → Rounds contract model_queries round s last t

  -- The report after the last round: all rounds of the budget were run and left its items open.
  abbrev pub IsReported :
      InvestigationContract → List SearchQuery → ℕ → Session S → InsufficiencyReport → Type 0
  IsReported contract model_queries round s r =
      IsExhausted contract.budget r
      × (t : Session S) × Rounds contract model_queries round s (contract.budget.max_rounds + 1) t
      × IsShort contract t r.missing_facets r.missing_relationships

  IsReported-again :
      (contract : InvestigationContract) (model_queries : List SearchQuery) (round : ℕ)
      (s next : Session S)
      → acquire_round debug debug_kind acquire answerer contract model_queries round s ≡ ok next
      → is_complete next.audit.outcome ≡ false
      → (out : PipelineOutcome)
      → IsOutcome (IsReported contract model_queries (round + 1) next) contract out
      → IsOutcome (IsReported contract model_queries round s) contract out
  IsReported-again contract model_queries round s next run open_end (answered a) h = h
  IsReported-again contract model_queries round s next run open_end (exhausted r)
        (used, t, rounds, short) =
      (used, t, again run open_end rounds, short)

  module _ (contract : InvestigationContract) (model_queries : List SearchQuery)
      (bounded : contract.budget.max_context_bytes < 4294967295) where
    acquire_round-IsSession :
        (round : ℕ) (s : Session S)
        → round ≤ contract.budget.max_rounds
        → IsSession contract s
        → Ensures
            (λ next. IsSession contract next × (next.usage.rounds ≡ round))
            (acquire_round debug debug_kind acquire answerer contract model_queries round s)
    unfolding acquire_round
    acquire_round-IsSession round s early (same, bytes, small, proven, calls, rounds) =
        let result =
          (acquire s.acquirer
            (request debug debug_kind acquire answerer contract model_queries round s)).0 in
        let available = keys s.retained ++ map (λ item. item.evidence.id) result.retained in
        Ensures-bind (count_round contract.budget round s.usage result) _ λ counted hc.
          Ensures-bind
            (keep_items contract.budget result.relationships available (counted, s.retained)
              result.retained)
            _
            λ kept hk.
              let (same_bytes, this_round, few) =
                (count_round-IsCounted contract.budget round s.usage result).at counted hc in
              let (total, under, all_proven, same_calls, same_rounds) =
                (keep_items-IsKept contract.budget counted bounded result.relationships available
                    (counted, s.retained) result.retained
                    (
                      omega (arith, bytes, same_bytes),
                      omega (arith, small, same_bytes),
                      proven,
                      refl,
                      refl,
                    )).at
                  kept hk in
              Ensures-ok _ (
                (
                  refl,
                  total,
                  under,
                  all_proven,
                  omega (arith, few, same_calls),
                  omega (arith, early, this_round, same_rounds),
                ),
                same_rounds ∙ this_round,
              )

    pub rounds_loop-IsOutcome :
        (left round : ℕ) (s : Session S)
        → left + round ≡ contract.budget.max_rounds + 1
        → s.usage.rounds + 1 ≡ round
        → IsSession contract s
        → (left ≡ 0 → IsIncomplete s.audit.missing_facets s.audit.missing_relationships)
        → Ensures
            (IsOutcome (IsReported contract model_queries round s) contract)
            (rounds_loop debug debug_kind acquire answerer contract model_queries left round s)
    unfolding rounds_loop report
    rounds_loop-IsOutcome zero round s in_time last h missing =
        let (same, bytes, small, proven, calls, rounds) = h in
        let finished : round ≡ contract.budget.max_rounds + 1 = omega (arith, in_time) in
        Ensures-ok _ (
          (omega (arith, in_time, last), calls, missing refl),
          s,
          subst (λ n. Rounds contract model_queries round s n s) finished stop,
          session-IsShort contract s h,
        )
    rounds_loop-IsOutcome (suc left) round s in_time last h missing =
        Ensures-bind
          (acquire_round debug debug_kind acquire answerer contract model_queries round s) _
          λ next run.
            let (session, this_round) =
              (acquire_round-IsSession round s (omega (arith, in_time)) h).at next run in
            Ensures-elim (is_complete next.audit.outcome) _ _
              (λ _. finish-IsOutcome answerer _ contract next session)
              (λ open_end. record {
                at = λ out runs.
                    IsReported-again contract model_queries round s next run open_end out (
                      (rounds_loop-IsOutcome left (round + 1) next (omega (arith, in_time))
                          (omega (arith, this_round)) session
                          (λ _. outcome-IsIncomplete contract next.audit _ _ session.0 open_end)).at
                        out runs);
              })
