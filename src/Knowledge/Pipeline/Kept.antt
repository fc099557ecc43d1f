-- ===== src/Knowledge/Pipeline/Kept.antt =====
-- The evidence that the rounds of crates/vesc-knowledge-index/src/pipeline.rs keep, and its bytes.
use vesc_mcp.Prelude.{
  ℕ, ◌+◌, ◌<◌, ◌≤◌, ◌≡◌, true, not, List, [], ◌∷◌, Option, none, some, ltb, any, All, map, Ordering,
  Ensures, Ensures-ok, Ensures-guard, Ensures-bind, arith,
}
use vesc_mcp.Text.{Text, text_cmp}
use vesc_mcp.Map.{Map, get, insert, values}
use vesc_mcp.Knowledge.Investigation.{EvidenceRelationship, RoundBudget}
use vesc_mcp.Knowledge.Pipeline.{AcquiredEvidence, BudgetUsage, validate_provenance}
use vesc_mcp.Knowledge.Pipeline.Round.{Kept, is_outside, grow, merge_item, keep_item, keep_items}

-- The context bytes of the evidence.
abbrev pub total_bytes : List AcquiredEvidence → ℕ
total_bytes [] = 0
total_bytes (item ∷ items) = item.context_bytes + total_bytes items

total_bytes-insert :
    (k : Text) (item : AcquiredEvidence) (m : Map AcquiredEvidence)
    → total_bytes (values (insert k item m)) ≤ item.context_bytes + total_bytes (values m)
unfolding values insert
total_bytes-insert k item [] = omega arith
total_bytes-insert k item ((j, other) ∷ m) = ground (arith, total_bytes-insert k item m)

-- Evidence with complete provenance, over at most the hops of the budget.
abbrev pub IsProven : RoundBudget → AcquiredEvidence → Type 0
IsProven budget item =
    (validate_provenance item.provenance ≡ true)
    × (item.provenance.graph_hops ≤ budget.max_graph_hops)

All-insert :
    (P : AcquiredEvidence → Type 0) (k : Text) (item : AcquiredEvidence) (m : Map AcquiredEvidence)
    → P item
    → All P (values m)
    → All P (values (insert k item m))
unfolding values insert
All-insert P k item [] h hs = (h, tt)
All-insert P k item ((j, other) ∷ m) h hs =
    elim (text_cmp k j)
      as (λ o. All P (
        map (λ e. e.1)
          (elim o [
            | Ordering.lt ↦ (k, item) ∷ (j, other) ∷ m
            | Ordering.eq ↦ (k, item) ∷ m
            | Ordering.gt ↦ (j, other) ∷ insert k item m
          ]))) [
            | Ordering.lt ↦ (h, hs)
            | Ordering.eq ↦ (h, hs.1)
            | Ordering.gt ↦ (hs.0, All-insert P k item m h hs.1)
          ]

-- What holds of the usage and the evidence between two items.
abbrev pub IsKept : RoundBudget → BudgetUsage → Kept → Type 0
IsKept budget start kept =
    (total_bytes (values kept.1) ≤ kept.0.context_bytes)
    × (kept.0.context_bytes ≤ budget.max_context_bytes)
    × All (IsProven budget) (values kept.1)
    × (kept.0.model_calls ≡ start.model_calls)
    × (kept.0.rounds ≡ start.rounds)

module _ (budget : RoundBudget) (start : BudgetUsage)
    (bounded : budget.max_context_bytes < 4294967295) where
  merge_item-IsKept :
      (usage : BudgetUsage) (retained : Map AcquiredEvidence) (item : AcquiredEvidence)
      (existing : Option AcquiredEvidence)
      → item.context_bytes + total_bytes (values retained) ≤ usage.context_bytes
      → usage.context_bytes ≤ budget.max_context_bytes
      → IsProven budget item
      → All (IsProven budget) (values retained)
      → (usage.model_calls ≡ start.model_calls) × (usage.rounds ≡ start.rounds)
      → Ensures (IsKept budget start) (merge_item usage retained item existing)
  merge_item-IsKept usage retained item none fits small proven all_proven (calls, rounds) =
      let added = total_bytes-insert item.evidence.id item retained in
      Ensures-ok _ (
        omega (arith, fits),
        small,
        All-insert (IsProven budget) item.evidence.id item retained proven all_proven,
        calls,
        rounds,
      )
  merge_item-IsKept usage retained item (some existing) fits small proven all_proven
        (calls, rounds) =
      Ensures-guard _ _ _ λ _. Ensures-ok _ (omega (arith, fits), small, all_proven, calls, rounds)

  keep_item-IsKept :
      (relationships : List EvidenceRelationship) (available_ids : List Text) (kept : Kept)
      (item : AcquiredEvidence)
      → IsKept budget start kept
      → Ensures (IsKept budget start) (keep_item budget relationships available_ids kept item)
  unfolding keep_item
  keep_item-IsKept relationships available_ids (usage, retained) item
        (total, small, proven, calls, rounds) =
      Ensures-guard (validate_provenance item.provenance) _ _ λ hp.
        Ensures-guard (not (ltb budget.max_graph_hops item.provenance.graph_hops)) _ _ λ hh.
          Ensures-guard
            (not (any (is_outside relationships available_ids) item.provenance.graph_path)) _ _
            λ _.
              Ensures-guard (not (ltb budget.max_context_bytes (grow usage item).context_bytes)) _ _
                λ hb.
                  merge_item-IsKept (grow usage item) retained item (get item.evidence.id retained)
                    (ground (arith, hb, bounded, total)) (ground (arith, hb))
                    (hp, ground (arith, hh)) proven (calls, rounds)

  pub keep_items-IsKept :
      (relationships : List EvidenceRelationship) (available_ids : List Text) (kept : Kept)
      (items : List AcquiredEvidence)
      → IsKept budget start kept
      → Ensures (IsKept budget start) (keep_items budget relationships available_ids kept items)
  unfolding keep_items
  keep_items-IsKept relationships available_ids kept [] h = Ensures-ok _ h
  keep_items-IsKept relationships available_ids kept (item ∷ items) h =
      Ensures-bind (keep_item budget relationships available_ids kept item) _ λ next step.
        keep_items-IsKept relationships available_ids next items
          ((keep_item-IsKept relationships available_ids kept item h).at next step)
