-- ===== src/Knowledge/Investigation.antt =====
-- crates/vesc-knowledge-index/src/investigation.rs: requirements, evidence and the contract. `PartialEq`
-- is a Boolean test with the lemma that it decides equality.
pub mod Contract
pub mod Extend
pub mod Audit
pub mod Coverage
pub mod Found
pub mod Complete
pub mod Historical
use vesc_mcp.Prelude.{
  ℕ, ◌≡◌, refl, ◌↔◌, Bool, true, false, ◌&&◌, List, [], ◌∷◌, any, arith, and_iff,
}
use vesc_mcp.Text.{Text, text_eq, text_eq_iff}
use vesc_mcp.Map.{Map}

pub data Repository : Type 0 where
  vesc_package_lib vesc_firmware chibi_os refloat : Repository
  named_repository : Text → Repository

pub data Stage : Type 0 where
  package_format generated_entry firmware_loader abi_dispatch runtime_module_loading : Stage
  consumer_invocation configuration : Stage
  named_stage : Text → Stage

pub data Era : Type 0 where
  exact : Text → Era
  any_era : Era

pub data RelationshipKind : Type 0 where
  produces loaded_by dispatches_to runs_in invoked_by : RelationshipKind
  named_kind : Text → RelationshipKind

unfoldable pub repository_eq : Repository → Repository → Bool
repository_eq vesc_package_lib vesc_package_lib = true
repository_eq vesc_firmware vesc_firmware = true
repository_eq chibi_os chibi_os = true
repository_eq refloat refloat = true
repository_eq (named_repository a) (named_repository b) = text_eq a b
repository_eq _ _ = false

unfoldable pub stage_eq : Stage → Stage → Bool
stage_eq package_format package_format = true
stage_eq generated_entry generated_entry = true
stage_eq firmware_loader firmware_loader = true
stage_eq abi_dispatch abi_dispatch = true
stage_eq runtime_module_loading runtime_module_loading = true
stage_eq consumer_invocation consumer_invocation = true
stage_eq configuration configuration = true
stage_eq (named_stage a) (named_stage b) = text_eq a b
stage_eq _ _ = false

unfoldable pub era_eq : Era → Era → Bool
era_eq (exact a) (exact b) = text_eq a b
era_eq any_era any_era = true
era_eq _ _ = false

unfoldable pub kind_eq : RelationshipKind → RelationshipKind → Bool
kind_eq produces produces = true
kind_eq loaded_by loaded_by = true
kind_eq dispatches_to dispatches_to = true
kind_eq runs_in runs_in = true
kind_eq invoked_by invoked_by = true
kind_eq (named_kind a) (named_kind b) = text_eq a b
kind_eq _ _ = false

pub repository_eq_iff : (a b : Repository) → (repository_eq a b ≡ true) ↔ (a ≡ b)
unfolding repository_eq
repository_eq_iff (named_repository a) (named_repository b) = ground (arith, text_eq_iff a b)
repository_eq_iff _ _ = ground arith

pub stage_eq_iff : (a b : Stage) → (stage_eq a b ≡ true) ↔ (a ≡ b)
unfolding stage_eq
stage_eq_iff (named_stage a) (named_stage b) = ground (arith, text_eq_iff a b)
stage_eq_iff _ _ = ground arith

pub era_eq_iff : (a b : Era) → (era_eq a b ≡ true) ↔ (a ≡ b)
unfolding era_eq
era_eq_iff (exact a) (exact b) = ground (arith, text_eq_iff a b)
era_eq_iff _ _ = ground arith

pub kind_eq_iff : (a b : RelationshipKind) → (kind_eq a b ≡ true) ↔ (a ≡ b)
unfolding kind_eq
kind_eq_iff (named_kind a) (named_kind b) = ground (arith, text_eq_iff a b)
kind_eq_iff _ _ = ground arith

unfoldable pub matches : Era → Text → Bool
matches (exact expected) revision = text_eq expected revision
matches any_era revision = true

pub record FacetRequirement : Type 0 where
  pub id : Text
  pub repository : Repository
  pub stage : Stage
  pub era : Era

pub record RelationshipRequirement : Type 0 where
  pub id : Text
  pub from_facet : Text
  pub to_facet : Text
  pub kind : RelationshipKind

unfoldable pub facet_eq : FacetRequirement → FacetRequirement → Bool
facet_eq a b =
    text_eq a.id b.id
    && repository_eq a.repository b.repository
    && stage_eq a.stage b.stage
    && era_eq a.era b.era

unfoldable pub relationship_eq : RelationshipRequirement → RelationshipRequirement → Bool
relationship_eq a b =
    text_eq a.id b.id
    && text_eq a.from_facet b.from_facet
    && text_eq a.to_facet b.to_facet
    && kind_eq a.kind b.kind

pub facet_eq→eq : (a b : FacetRequirement) → facet_eq a b ≡ true → a ≡ b
unfolding facet_eq
facet_eq→eq a b h = ground (
  arith,
  text_eq_iff a.id b.id,
  repository_eq_iff a.repository b.repository,
  stage_eq_iff a.stage b.stage,
  era_eq_iff a.era b.era,
)

pub relationship_eq→eq : (a b : RelationshipRequirement) → relationship_eq a b ≡ true → a ≡ b
unfolding relationship_eq
relationship_eq→eq a b h = ground (
  arith,
  text_eq_iff a.id b.id,
  text_eq_iff a.from_facet b.from_facet,
  text_eq_iff a.to_facet b.to_facet,
  kind_eq_iff a.kind b.kind,
)

pub record SchemaVersion : Type 0 where
  pub major : ℕ
  pub minor : ℕ

abbrev pub investigation_schema_v1 : SchemaVersion
investigation_schema_v1 = record { major = 1; minor = 0 }

pub record RoundBudget : Type 0 where
  pub max_rounds : ℕ
  pub max_candidates_per_round : ℕ
  pub max_context_bytes : ℕ
  pub max_graph_hops : ℕ
  pub max_model_calls : ℕ

pub data QuestionClass : Type 0 where
  historical_cross_repository_execution_trace : QuestionClass

pub record InvestigationContract : Type 0 where
  pub schema : SchemaVersion
  pub question_class : QuestionClass
  pub budget : RoundBudget
  pub facets : Map FacetRequirement
  pub relationships : Map RelationshipRequirement

pub record PlannerExtension : Type 0 where
  pub facets : List FacetRequirement
  pub relationships : List RelationshipRequirement

pub record Evidence : Type 0 where
  pub id : Text
  pub repository : Repository
  pub stage : Stage
  pub revision : Text
  pub path : Text
  pub decisive : Bool

pub record EvidenceRelationship : Type 0 where
  pub from_evidence : Text
  pub to_evidence : Text
  pub kind : RelationshipKind

-- `Vec::contains` and `BTreeSet::contains`.
abbrev pub contains : Text → List Text → Bool
contains id ids = any (λ j. text_eq j id) ids
