-- ===== src/Tests/Pipeline.antt =====
-- Runs of crates/vesc-knowledge-index/src/pipeline.rs.
use vesc_mcp.Prelude.{ℕ, zero, suc, ◌+◌, ◌≡◌, refl, [], ◌∷◌, none, some, ok, err}
use vesc_mcp.Prelude.Int.{pos}
use vesc_mcp.Text.{
  Text, codes, text_eq, text_cmp, trim, trim_start, trim_end, is_empty, is_whitespace,
}
use vesc_mcp.Map.{get, insert, contains_key, values, keys}
use vesc_mcp.Knowledge.Investigation.{
  Evidence, FacetRequirement, RelationshipKind, matches, repository_eq, stage_eq, kind_eq,
}
use vesc_mcp.Knowledge.Investigation.Contract.{
  validate, is_blank, budget_is_valid, facet_is_valid, era_is_blank, relationship_is_valid,
}
use vesc_mcp.Knowledge.Investigation.Audit.{
  audit, audit_loop, audit_item, push_entries, push_entry, era_matches, stage_matches,
  repository_matches, rejection, sort, insert_sorted, dedup, rejected_cmp, sorted_ids,
  relationship_is_covered, validate_answer, is_cited,
}
use vesc_mcp.Text.{is_control}
use vesc_mcp.Text.Utf8.{as_bytes, encode_char}
use vesc_mcp.Knowledge.Investigation.{facet_eq, relationship_eq, era_eq}
use vesc_mcp.Knowledge.Investigation.Contract.{
  extend, insert_facets, insert_relationships, insert_unchanged_or_new,
}
use vesc_mcp.Knowledge.Planning.{
  hard_coded_proposal, query_eq, apply, critic_apply, check_queries, is_bad_text,
}
use vesc_mcp.Knowledge.Pipeline.{
  hard_rules_only, fast_planner, planner_and_critic, AcquiredEvidence, AcquisitionRequest,
  AcquisitionRound, AnswerDraft, AnsweredInvestigation, answered, exhausted, InsufficiencyReport,
  missing_planner, validate_provenance, edge_eq, edge_cmp, kind_cmp, insert_edge, extend_edges,
  evidence_eq, provenance_eq, acquired_eq, edges_eq,
}
use vesc_mcp.Knowledge.Pipeline.Round.{
  Prepared, prepare, query_cmp, dedup_queries, count_round, is_outside, keep_item, keep_items,
  start, finish,
}
use vesc_mcp.Knowledge.Pipeline.Run.{
  report, relationship_query, round_queries, request, acquire_round, rounds_loop, run,
}
use vesc_mcp.Knowledge.Pipeline.Prepared.{prepare-Keeps, Keeps}
use vesc_mcp.Knowledge.Pipeline.Finish.{IsSupported, IsWithin}
use vesc_mcp.Knowledge.Pipeline.Rounds.{IsReported}
use vesc_mcp.Knowledge.Pipeline.Answered.{run-answered, run-exhausted}
use vesc_mcp.Tests.Knowledge.{
  contract, query, proposal, critic, linked, found_package, found_other, relation,
}

abbrev item : Evidence → ℕ → AcquiredEvidence
item evidence context_bytes = record {
  evidence = evidence;
  context_bytes = context_bytes;
  provenance = record {
    lexical_rank = some 1;
    semantic_rank = none;
    graph_path = [];
    graph_hops = 0;
    rerank_rank = 1;
    retrieval_score_micros = pos 5;
    rerank_score_micros = none;
  };
}

-- One item in a round, the state is the number of rounds.
abbrev acquire : ℕ → AcquisitionRequest → AcquisitionRound × ℕ
acquire zero request =
    (record { retained = item found_package 10 ∷ []; relationships = []; model_calls = 0 }, 1)
acquire (suc n) request = (
  record {
    retained = item found_other 20 ∷ item found_package 10 ∷ [];
    relationships = relation ∷ [];
    model_calls = 1;
  },
  n + 2,
)

abbrev draft : AnswerDraft
draft = record {
  text = codes "p goes to o";
  cited_evidence = codes "e1" ∷ codes "e2" ∷ [];
  claimed_relationships = relation ∷ [];
}

abbrev outcome : AnsweredInvestigation
outcome = record {
  answer = draft;
  audit = audit linked (found_package ∷ found_other ∷ []) (relation ∷ []);
  evidence = item found_package 10 ∷ item found_other 20 ∷ [];
  relationships = relation ∷ [];
  usage = record {
    rounds = 2;
    candidates = 3;
    context_bytes = 40;
    graph_hops = 0;
    max_graph_hops = 0;
    model_calls = 2;
  };
}

abbrev describe : FacetRequirement → Text
describe f = codes "q"

abbrev describe_kind : RelationshipKind → Text
describe_kind k = codes "k"

two_rounds :
    run describe describe_kind acquire
      (λ evidence coverage. draft)
      linked
      hard_rules_only
      none
      none
      0
    ≡ ok (answered outcome)
unfolding run prepare rounds_loop acquire_round request round_queries hard_coded_proposal
    dedup_queries query_cmp query_eq count_round keep_items keep_item is_outside finish
    validate_provenance edge_eq edge_cmp kind_cmp insert_edge extend_edges evidence_eq provenance_eq
    acquired_eq edges_eq validate budget_is_valid facet_is_valid era_is_blank relationship_is_valid
    is_blank trim trim_start trim_end is_whitespace is_empty audit audit_loop audit_item
    push_entries push_entry era_matches stage_matches repository_matches rejection sort
    insert_sorted dedup rejected_cmp sorted_ids relationship_is_covered validate_answer is_cited get
    insert contains_key values keys text_eq text_cmp repository_eq stage_eq matches kind_eq
two_rounds = refl

no_planner :
    run describe describe_kind acquire (λ evidence coverage. draft) linked fast_planner none none 0
    ≡ err missing_planner
unfolding run prepare validate budget_is_valid facet_is_valid era_is_blank relationship_is_valid
    is_blank trim trim_start trim_end is_whitespace is_empty get contains_key text_eq
no_planner = refl

run-answered_example :
    (prepared : Prepared) × (prepare linked hard_rules_only none none ≡ ok prepared)
    × IsSupported prepared.contract outcome
    × IsWithin linked.budget outcome
run-answered_example =
    run-answered describe describe_kind acquire (λ evidence coverage. draft) linked hard_rules_only
      none none 0 outcome two_rounds

-- An acquirer that finds nothing.
abbrev quiet : ℕ → AcquisitionRequest → AcquisitionRound × ℕ
quiet n request = (record { retained = []; relationships = []; model_calls = 0 }, n)

abbrev nothing : InsufficiencyReport
nothing = record {
  missing_facets = codes "o" ∷ codes "p" ∷ [];
  missing_relationships = codes "l" ∷ [];
  suggested_queries =
      record { facet_id = codes "o"; query = codes "q" }
      ∷ record { facet_id = codes "p"; query = codes "q" }
      ∷ record { facet_id = codes "p"; query = codes "relationship k from p to o" }
      ∷ [];
  usage = record {
    rounds = 4;
    candidates = 0;
    context_bytes = 0;
    graph_hops = 0;
    max_graph_hops = 0;
    model_calls = 0;
  };
}

quiet_rounds :
    run describe describe_kind quiet (λ evidence coverage. draft) linked hard_rules_only none none 0
    ≡ ok (exhausted nothing)
unfolding run prepare rounds_loop acquire_round request round_queries hard_coded_proposal
    dedup_queries query_cmp query_eq report relationship_query count_round keep_items finish
    extend_edges validate budget_is_valid facet_is_valid era_is_blank relationship_is_valid is_blank
    trim trim_start trim_end is_whitespace is_empty audit audit_loop sort insert_sorted dedup
    sorted_ids relationship_is_covered get insert contains_key values keys text_eq text_cmp
quiet_rounds = refl

run-exhausted_example :
    (prepared : Prepared) × (prepare linked hard_rules_only none none ≡ ok prepared)
    × (prepared.contract.budget ≡ linked.budget)
    × IsReported describe describe_kind quiet
        (λ evidence coverage. draft)
        prepared.contract
        prepared.model_queries
        1
        (start prepared 0)
        nothing
run-exhausted_example =
    run-exhausted describe describe_kind quiet (λ evidence coverage. draft) linked hard_rules_only
      none none 0 nothing quiet_rounds

abbrev reviewed : Prepared
reviewed = record { contract = linked; model_calls = 2; model_queries = query ∷ query ∷ [] }

review : prepare contract planner_and_critic (some proposal) (some critic) ≡ ok reviewed
unfolding prepare critic_apply apply check_queries is_bad_text query_eq values extend validate
    budget_is_valid facet_is_valid relationship_is_valid era_is_blank is_blank trim trim_start
    trim_end is_whitespace is_empty is_control as_bytes encode_char text_eq text_cmp get insert
    contains_key insert_facets insert_relationships insert_unchanged_or_new facet_eq relationship_eq
    repository_eq stage_eq era_eq kind_eq
review = refl

prepare-Keeps_example : (linked.budget ≡ contract.budget) × Keeps contract linked
prepare-Keeps_example =
    prepare-Keeps contract planner_and_critic (some proposal) (some critic) reviewed review
