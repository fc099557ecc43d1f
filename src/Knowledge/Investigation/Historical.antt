-- ===== src/Knowledge/Investigation/Historical.antt =====
-- crates/vesc-knowledge-index/src/investigation.rs: the contract of a historical trace.
use vesc_mcp.Prelude.{ℕ, ◌*◌, ◌≡◌, refl, ◌↔◌, false, List, [], ◌∷◌, ok, arith}
use vesc_mcp.Text.{
  Text, text_eq, codes, text_cmp, is_empty, trim, trim_start, trim_end, trim_last, is_whitespace,
}
use vesc_mcp.Map.{Map, insert, get, contains_key}
use vesc_mcp.Knowledge.Investigation.{
  vesc_package_lib, vesc_firmware, chibi_os, refloat, package_format, generated_entry,
  firmware_loader, abi_dispatch, runtime_module_loading, consumer_invocation, exact, produces,
  loaded_by, dispatches_to, runs_in, invoked_by, FacetRequirement, RelationshipRequirement,
  RoundBudget, InvestigationContract, investigation_schema_v1,
  historical_cross_repository_execution_trace, Repository, Stage, Era, RelationshipKind,
}
use vesc_mcp.Knowledge.Investigation.Contract.{
  validate, is_blank, budget_is_valid, facet_is_valid, era_is_blank, relationship_is_valid,
}

pub record HistoricalTraceRevisions : Type 0 where
  pub package_revision : Text
  pub firmware : Text
  pub rtos : Text
  pub consumer : Text

-- `RoundBudget::default()`
abbrev pub default_budget : RoundBudget
default_budget = record {
  max_rounds = 4;
  max_candidates_per_round = 128;
  max_context_bytes = 64 * 1024;
  max_graph_hops = 4;
  max_model_calls = 4;
}

abbrev new_facet : Text → Repository → Stage → Era → FacetRequirement
new_facet id repository stage era = record {
  id = id;
  repository = repository;
  stage = stage;
  era = era;
}

abbrev new_relationship : Text → Text → Text → RelationshipKind → RelationshipRequirement
new_relationship id from_facet to_facet kind = record {
  id = id;
  from_facet = from_facet;
  to_facet = to_facet;
  kind = kind;
}

-- `collect` into a map by the ids.
unfoldable pub collect : {V : Type 0} → (V → Text) → List V → Map V → Map V
collect id [] m = m
collect id (v ∷ vs) m = collect id vs (insert (id v) v m)

unfoldable pub historical_package_loader : HistoricalTraceRevisions → InvestigationContract
historical_package_loader revisions = record {
  schema = investigation_schema_v1;
  question_class = historical_cross_repository_execution_trace;
  budget = default_budget;
  facets =
      collect (λ facet. facet.id)
        (new_facet (codes "package-format") vesc_package_lib package_format
            (exact revisions.package_revision)
          ∷ new_facet (codes "generated-entry") vesc_package_lib generated_entry
              (exact revisions.package_revision)
          ∷ new_facet (codes "firmware-loader") vesc_firmware firmware_loader
              (exact revisions.firmware)
          ∷ new_facet (codes "abi-dispatch") vesc_firmware abi_dispatch (exact revisions.firmware)
          ∷ new_facet (codes "runtime-module-loading") chibi_os runtime_module_loading
              (exact revisions.rtos)
          ∷ new_facet (codes "consumer-invocation") refloat consumer_invocation
              (exact revisions.consumer)
          ∷ [])
        [];
  relationships =
      collect (λ relationship. relationship.id)
        (new_relationship (codes "package-produces-entry") (codes "package-format")
            (codes "generated-entry") produces
          ∷ new_relationship (codes "entry-loaded-by-firmware") (codes "generated-entry")
              (codes "firmware-loader") loaded_by
          ∷ new_relationship (codes "loader-dispatches-abi") (codes "firmware-loader")
              (codes "abi-dispatch") dispatches_to
          ∷ new_relationship (codes "abi-runs-in-runtime") (codes "abi-dispatch")
              (codes "runtime-module-loading") runs_in
          ∷ new_relationship (codes "runtime-invoked-by-consumer") (codes "runtime-module-loading")
              (codes "consumer-invocation") invoked_by
          ∷ [])
        [];
}

-- A text that begins with a printing character is not blank.
id_is_filled : (c : ℕ) (t : Text) → is_whitespace c ≡ false → is_blank (c ∷ t) ≡ false
unfolding is_blank trim trim_start is_empty
id_is_filled c t h = rw h (kept (trim_end t))
  where
    kept : (t : Text) → is_empty (trim_last c t) ≡ false
    kept [] = rw h refl
    kept (d ∷ ds) = refl

-- The contract of a historical trace is valid exactly when none of its revisions is blank.
pub historical_package_loader_iff :
    (r : HistoricalTraceRevisions)
    → (validate (historical_package_loader r) ≡ ok tt) ↔ (
        (is_blank r.package_revision ≡ false)
        × (is_blank r.firmware ≡ false)
        × (is_blank r.rtos ≡ false)
        × (is_blank r.consumer ≡ false))
unfolding validate historical_package_loader collect insert get contains_key text_cmp text_eq
    budget_is_valid facet_is_valid era_is_blank relationship_is_valid is_whitespace
historical_package_loader_iff r =
    rw
      (
        id_is_filled 112 (codes "ackage-format") refl,
        id_is_filled 103 (codes "enerated-entry") refl,
        id_is_filled 102 (codes "irmware-loader") refl,
        id_is_filled 97 (codes "bi-dispatch") refl,
        id_is_filled 114 (codes "untime-module-loading") refl,
        id_is_filled 99 (codes "onsumer-invocation") refl,
        id_is_filled 112 (codes "ackage-produces-entry") refl,
        id_is_filled 101 (codes "ntry-loaded-by-firmware") refl,
        id_is_filled 108 (codes "oader-dispatches-abi") refl,
        id_is_filled 97 (codes "bi-runs-in-runtime") refl,
        id_is_filled 114 (codes "untime-invoked-by-consumer") refl,
      )
      (ground arith)
