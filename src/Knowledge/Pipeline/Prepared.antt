-- ===== src/Knowledge/Pipeline/Prepared.antt =====
-- The contract through `prepare`, the first part of `run` in
-- crates/vesc-knowledge-index/src/pipeline.rs.
use vesc_mcp.Prelude.{
  ◌≡◌, refl, ap, ◌∙◌, Option, none, some, Result, ok, err, map_err, Ensures, Ensures-ok,
  Ensures-bind, Ensures-ok_or, ok-injective,
}
use vesc_mcp.Text.{Text}
use vesc_mcp.Map.{get}
use vesc_mcp.Knowledge.Investigation.{InvestigationContract, PlannerExtension}
use vesc_mcp.Knowledge.Investigation.Extend.{extend_lem, IsExtension, or_else}
use vesc_mcp.Knowledge.Planning.{PlannerProposal, CriticProposal, apply, critic_apply}
use vesc_mcp.Knowledge.Planning.Apply.{apply_iff, critic_apply-IsExtension, additions}
use vesc_mcp.Knowledge.Pipeline.{
  OperatingPoint, hard_rules_only, fast_planner, planner_and_critic, invalid_planner,
}
use vesc_mcp.Knowledge.Pipeline.Round.{Prepared, prepare}

pub map_err-ok {ℓ} :
    {E F : Type 0} {A : Type ℓ} (f : E → F) (r : Result E A) {a : A} → map_err f r ≡ ok a → r ≡ ok a
map_err-ok f (ok b) h = ap ok (ok-injective h)
map_err-ok f (err e) h = cc h

apply-budget :
    (p : PlannerProposal) (contract new : InvestigationContract)
    → apply p contract ≡ ok new
    → new.budget ≡ contract.budget
apply-budget p contract new h =
    ap (λ c. c.budget) (extend_lem contract (additions p) new ((apply_iff p contract new).0 h).1).0

critic_apply-budget :
    (p : CriticProposal) (contract new : InvestigationContract)
    → critic_apply p contract ≡ ok new
    → new.budget ≡ contract.budget
critic_apply-budget p contract new h =
    ap (λ c. c.budget) (critic_apply-IsExtension p contract new h).2.0

pub prepare-budget :
    (contract : InvestigationContract) (operating_point : OperatingPoint)
    (planner : Option PlannerProposal) (critic : Option CriticProposal)
    → Ensures
        (λ p. p.contract.budget ≡ contract.budget)
        (prepare contract operating_point planner critic)
unfolding prepare
prepare-budget contract hard_rules_only planner critic = Ensures-ok _ refl
prepare-budget contract fast_planner planner critic = Ensures-ok_or planner _ _ λ proposal _.
    Ensures-bind (map_err invalid_planner (apply proposal contract)) _ λ planned h.
      Ensures-ok _ (apply-budget proposal contract planned (map_err-ok invalid_planner _ h))
prepare-budget contract planner_and_critic planner critic = Ensures-ok_or planner _ _ λ proposal _.
    Ensures-bind (map_err invalid_planner (apply proposal contract)) _ λ planned h.
      Ensures-ok_or critic _ _ λ review _.
        Ensures-bind (map_err invalid_planner (critic_apply review planned)) _ λ reviewed hr.
          Ensures-ok _ (
            critic_apply-budget review planned reviewed (map_err-ok invalid_planner _ hr)
            ∙ apply-budget proposal contract planned (map_err-ok invalid_planner _ h))

or_else-same {ℓ} : {A : Type ℓ} (o : Option A) → o ≡ or_else o o
or_else-same none = refl
or_else-same (some a) = refl

-- Under each id, `new` has the requirement that `old` has there, if it has one.
abbrev pub Keeps : InvestigationContract → InvestigationContract → Type 0
Keeps old new =
    ((id : Text)
      → (get id new.facets ≡ or_else (get id old.facets) (get id new.facets))
        × (get id new.relationships
            ≡ or_else (get id old.relationships) (get id new.relationships)))

or_else-kept {ℓ} : {A : Type ℓ} (o rest n : Option A) → n ≡ or_else o rest → n ≡ or_else o n
or_else-kept none rest n h = refl
or_else-kept (some a) rest n h = h

or_else_trans {ℓ} :
    {A : Type ℓ} (a b c : Option A) → b ≡ or_else a b → c ≡ or_else b c → c ≡ or_else a c
or_else_trans none b c h k = refl
or_else_trans (some x) b c h k = k ∙ ap (λ o. or_else o c) h

IsExtension-Keeps :
    (old : InvestigationContract) (extension : PlannerExtension) (new : InvestigationContract)
    → IsExtension old extension new
    → Keeps old new
IsExtension-Keeps old extension new (same, facets, relationships, valid) id = (
  or_else-kept (get id old.facets) _ _ (facets.0 id),
  or_else-kept (get id old.relationships) _ _ (relationships.0 id),
)

Keeps-trans : (a b c : InvestigationContract) → Keeps a b → Keeps b c → Keeps a c
Keeps-trans a b c h k id = (
  or_else_trans (get id a.facets) (get id b.facets) (get id c.facets) (h id).0 (k id).0,
  or_else_trans (get id a.relationships) (get id b.relationships) (get id c.relationships) (h id).1
      (k id).1,
)

apply-Keeps :
    (p : PlannerProposal) (contract new : InvestigationContract)
    → apply p contract ≡ ok new
    → Keeps contract new
apply-Keeps p contract new h =
    IsExtension-Keeps contract (additions p) new
      (extend_lem contract (additions p) new ((apply_iff p contract new).0 h).1)

prepare-Ensures :
    (contract : InvestigationContract) (operating_point : OperatingPoint)
    (planner : Option PlannerProposal) (critic : Option CriticProposal)
    → Ensures (λ p. Keeps contract p.contract) (prepare contract operating_point planner critic)
unfolding prepare
prepare-Ensures contract hard_rules_only planner critic = Ensures-ok _ (λ id. (
  or_else-kept (get id contract.facets) (get id contract.facets) _ (or_else-same _),
  or_else-kept (get id contract.relationships) (get id contract.relationships) _ (or_else-same _),
))
prepare-Ensures contract fast_planner planner critic = Ensures-ok_or planner _ _ λ proposal _.
    Ensures-bind (map_err invalid_planner (apply proposal contract)) _ λ planned h.
      Ensures-ok _ (apply-Keeps proposal contract planned (map_err-ok invalid_planner _ h))
prepare-Ensures contract planner_and_critic planner critic = Ensures-ok_or planner _ _ λ proposal _.
    Ensures-bind (map_err invalid_planner (apply proposal contract)) _ λ planned h.
      Ensures-ok_or critic _ _ λ review _.
        Ensures-bind (map_err invalid_planner (critic_apply review planned)) _ λ reviewed hr.
          Ensures-ok _ (
            Keeps-trans contract planned reviewed
              (apply-Keeps proposal contract planned (map_err-ok invalid_planner _ h))
              (IsExtension-Keeps planned _ reviewed
                (critic_apply-IsExtension review planned reviewed
                  (map_err-ok invalid_planner _ hr)).2))

-- Planner and critic never take a requirement away: when the preparation of a run succeeds, the contract
-- has the given budget, and under each id with a facet or a relationship in the given contract it has that
-- requirement.
pub prepare-Keeps :
    (contract : InvestigationContract) (operating_point : OperatingPoint)
    (planner : Option PlannerProposal) (critic : Option CriticProposal) (prepared : Prepared)
    → prepare contract operating_point planner critic ≡ ok prepared
    → (prepared.contract.budget ≡ contract.budget) × Keeps contract prepared.contract
prepare-Keeps contract operating_point planner critic prepared h = (
  (prepare-budget contract operating_point planner critic).at prepared h,
  (prepare-Ensures contract operating_point planner critic).at prepared h,
)
