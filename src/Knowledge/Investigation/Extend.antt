-- ===== src/Knowledge/Investigation/Extend.antt =====
-- What `extend` of crates/vesc-knowledge-index/src/investigation.rs makes of a contract.
use vesc_mcp.Prelude.{
  ◌≡◌, refl, ap, ◌∙◌, Bool, true, List, [], ◌∷◌, Option, none, some, All, if◌then◌else◌, ok,
  Ensures, Ensures-ok, Ensures-err, Ensures-guard, Ensures-bind, Option-cases, inl, inr, Bool-cases,
  arith,
}
use mathlib.Core.Path.{subst}
use vesc_mcp.Text.{Text, text_eq, text_eq_iff, text_eq_refl}
use vesc_mcp.Map.{Map, get, insert, get-insert}
use vesc_mcp.Knowledge.Investigation.{
  FacetRequirement, RelationshipRequirement, InvestigationContract, PlannerExtension, facet_eq,
  relationship_eq, facet_eq→eq, relationship_eq→eq,
}
use vesc_mcp.Knowledge.Investigation.Contract.{
  validate, insert_unchanged_or_new, insert_facets, insert_relationships, with_requirements, extend,
}

abbrev pub or_else {ℓ} : {A : Type ℓ} → Option A → Option A → Option A
or_else none b = b
or_else (some a) b = some a

-- The first requirement of an extension with an id.
abbrev pub find_by {ℓ} : {V : Type ℓ} → (V → Text) → Text → List V → Option V
find_by key id [] = none
find_by key id (v ∷ vs) = if text_eq (key v) id then some v else find_by key id vs

-- The map `new` holds what `old` holds, and under the other ids what `vs` brings; each of `vs` is
-- what `new` holds under its id.
abbrev pub Merged : {V : Type 0} → (V → Text) → Map V → List V → Map V → Type 0
Merged key old vs new =
    ((id : Text) → get id new ≡ or_else (get id old) (find_by key id vs))
    × All (λ v. get (key v) new ≡ some v) vs

or_else-none {ℓ} : {A : Type ℓ} (o : Option A) → o ≡ or_else o none
or_else-none none = refl
or_else-none (some a) = refl

module _ {V : Type 0} (key : V → Text) where
  Merged-nil : (m : Map V) → Merged key m [] m
  Merged-nil m = (λ id. or_else-none (get id m), tt)

  Merged-cons :
      (m m' new : Map V) (v : V) (vs : List V)
      → Merged key m (v ∷ []) m'
      → Merged key m' vs new
      → Merged key m (v ∷ vs) new
  Merged-cons m m' new v vs (step, (held, _)) (rest, kept) = (
    λ id. ground (arith, step id, rest id),
    (rest (key v) ∙ ap (λ o. or_else o (find_by key (key v) vs)) held, kept),
  )

  -- A new requirement.
  Merged-insert :
      (m : Map V) (v : V) → get (key v) m ≡ none → Merged key m (v ∷ []) (insert (key v) v m)
  Merged-insert m v e = (
    λ id. get-insert (key v) id v m ∙ found id,
    (get-insert (key v) (key v) v m ∙ rw (text_eq_refl (key v)) refl, tt),
  )
    where
      found :
          (id : Text)
          → (if text_eq (key v) id then some v else get id m)
            ≡ or_else (get id m) (if text_eq (key v) id then some v else none)
      found id = elim (Bool-cases (text_eq (key v) id)) [
        | inl h ↦ rw h (rw (subst (λ i. get i m ≡ none) ((text_eq_iff (key v) id).0 h) e) refl)
        | inr h ↦ rw h (or_else-none (get id m))
      ]

  -- A requirement that is there.
  Merged-same : (m : Map V) (v : V) → get (key v) m ≡ some v → Merged key m (v ∷ []) m
  Merged-same m v e = (found, (e, tt))
    where
      found :
          (id : Text) → get id m ≡ or_else (get id m) (if text_eq (key v) id then some v else none)
      found id = elim (Bool-cases (text_eq (key v) id)) [
        | inl h ↦ rw h (rw (subst (λ i. get i m ≡ some v) ((text_eq_iff (key v) id).0 h) e) refl)
        | inr h ↦ rw h (or_else-none (get id m))
      ]

  insert_unchanged_or_new-Merged :
      (eq : V → V → Bool) (m : Map V) (v : V)
      → ((a b : V) → eq a b ≡ true → a ≡ b)
      → Ensures (Merged key m (v ∷ [])) (insert_unchanged_or_new eq m (key v) v)
  unfolding insert_unchanged_or_new get
  insert_unchanged_or_new-Merged eq m v sound = elim (Option-cases (get (key v) m)) [
    | inl e ↦ rw (e, insert_unchanged_or_new) (Ensures-ok _ (Merged-insert m v e))
    | inr (w, e) ↦
        rw (e, insert_unchanged_or_new)
          (elim (Bool-cases (eq w v)) [
            | inl h ↦ rw h (Ensures-ok _ (Merged-same m v (e ∙ ap some (sound w v h))))
            | inr h ↦ rw h (Ensures-err _)
          ])
  ]

insert_facets-Merged :
    (facets : Map FacetRequirement) (vs : List FacetRequirement)
    → Ensures (Merged (λ v. v.id) facets vs) (insert_facets facets vs)
unfolding insert_facets
insert_facets-Merged facets [] = Ensures-ok _ (Merged-nil (λ v. v.id) facets)
insert_facets-Merged facets (v ∷ vs) =
    Ensures-bind (insert_unchanged_or_new facet_eq facets v.id v) _ λ m' step. record {
      at = λ new run.
          Merged-cons (λ w. w.id) facets m' new v vs
            ((insert_unchanged_or_new-Merged (λ w. w.id) facet_eq facets v facet_eq→eq).at m' step)
            ((insert_facets-Merged m' vs).at new run);
    }

insert_relationships-Merged :
    (facets : Map FacetRequirement) (relationships : Map RelationshipRequirement)
    (vs : List RelationshipRequirement)
    → Ensures (Merged (λ v. v.id) relationships vs) (insert_relationships facets relationships vs)
unfolding insert_relationships
insert_relationships-Merged facets relationships [] =
    Ensures-ok _ (Merged-nil (λ v. v.id) relationships)
insert_relationships-Merged facets relationships (v ∷ vs) = Ensures-guard _ _ _ λ h.
    Ensures-bind (insert_unchanged_or_new relationship_eq relationships v.id v) _ λ m' step.
      record {
        at = λ new run.
            Merged-cons (λ w. w.id) relationships m' new v vs
              ((insert_unchanged_or_new-Merged (λ w. w.id) relationship_eq relationships v
                  relationship_eq→eq).at
                m' step)
              ((insert_relationships-Merged facets m' vs).at new run);
      }

-- The contract `new` is `old` with the requirements of `extension`.
abbrev pub IsExtension : InvestigationContract → PlannerExtension → InvestigationContract → Type 0
IsExtension old extension new =
    (new ≡ with_requirements old new.facets new.relationships)
    × Merged (λ v. v.id) old.facets extension.facets new.facets
    × Merged (λ v. v.id) old.relationships extension.relationships new.relationships
    × (validate new ≡ ok tt)

extend-IsExtension :
    (c : InvestigationContract) (extension : PlannerExtension)
    → Ensures (IsExtension c extension) (extend c extension)
unfolding extend
extend-IsExtension c extension = Ensures-bind (validate c) _ λ _ _. Ensures-guard _ _ _ λ _.
    Ensures-bind (insert_facets c.facets extension.facets) _ λ facets hf.
      Ensures-bind (insert_relationships facets c.relationships extension.relationships) _
        λ relationships hr.
          Ensures-bind (validate (with_requirements c facets relationships)) _ λ _ hv.
            Ensures-ok _ (
              refl,
              (insert_facets-Merged c.facets extension.facets).at facets hf,
              (insert_relationships-Merged facets c.relationships extension.relationships).at
                  relationships hr,
              hv,
            )

-- When `extend` succeeds, the new contract is valid and differs from the old one in its requirements
-- alone; under each id it has the old requirement or else the first of the extension, and it has every
-- requirement of the extension under its id.
pub extend_lem :
    (c : InvestigationContract) (extension : PlannerExtension) (new : InvestigationContract)
    → extend c extension ≡ ok new
    → IsExtension c extension new
extend_lem c extension new run = (extend-IsExtension c extension).at new run
