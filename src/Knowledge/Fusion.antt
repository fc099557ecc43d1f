-- ===== src/Knowledge/Fusion.antt =====
-- crates/vesc-knowledge-index/src/fusion.rs: candidates of two searches, joined, ordered and selected.
pub mod Expand
pub mod Neighbors
pub mod Bounds
pub mod Select
pub mod Settled
pub mod Hydrate
use vesc_mcp.Prelude.{
  ℕ, ◌+◌, ◌-◌, ◌^◌, Bool, true, false, not, ◌&&◌, ◌||◌, List, [], ◌∷◌, ◌++◌, Option, none, some,
  Ordering, compare, ltb, leb, ◌==◌, length, map, min, max, if◌then◌else◌, then_cmp, bool_cmp,
}
use vesc_mcp.Text.{Text, text_cmp}
use vesc_mcp.Map.{Map, get, insert, values}
use vesc_mcp.Knowledge.Investigation.{contains}
use vesc_mcp.Knowledge.Investigation.Audit.{sort}
use vesc_mcp.Knowledge.Graph.{ContentDigest}

abbrev pub lexical_floor_depth : ℕ
lexical_floor_depth = 2

pub record FusionConfig : Type 0 where
  pub rrf_k : ℕ
  pub max_per_document : ℕ
  pub limit : ℕ
  pub lexical_floor : Bool

abbrev pub default_config : FusionConfig
default_config = record { rrf_k = 60; max_per_document = 2; limit = 10; lexical_floor = false }

pub record RetrievalMetadata : Type 0 where
  pub chunk_id : Text
  pub document_id : Text
  pub registered_id : Option Text
  pub content_digest : ContentDigest

-- `F` has the floating-point numbers, an f32 as well as an f64.
pub record LexicalCandidate (F : Type 0) : Type 0 where
  pub chunk : RetrievalMetadata
  pub score : F
  pub exact_identifier : Bool

pub record SemanticHit (F : Type 0) : Type 0 where
  pub chunk_id : Text
  pub similarity : F

-- `Candidate`, and the `FusedCandidate` that `into_hit` makes of it field by field.
pub record FusedCandidate (F : Type 0) : Type 0 where
  pub chunk : RetrievalMetadata
  pub score : F
  pub lexical_rank : Option ℕ
  pub semantic_rank : Option ℕ
  pub lexical_score : Option F
  pub semantic_similarity : Option F
  pub exact_identifier : Bool

-- The operations of floating-point numbers: zero, `score + 1.0 / (k + rank + 1.0)` for a u32 `rank`, and
-- `total_cmp`.
pub record Floats (F : Type 0) : Type 0 where
  pub zero_score : F
  pub add_reciprocal : F → ℕ → ℕ → F
  pub total_cmp : F → F → Ordering

-- `Option` is ordered with `None` first.
abbrev pub rank_cmp : Option ℕ → Option ℕ → Ordering
rank_cmp none none = Ordering.eq
rank_cmp none (some b) = Ordering.lt
rank_cmp (some a) none = Ordering.gt
rank_cmp (some a) (some b) = compare a b

abbrev is_none : Option Text → Bool
is_none none = true
is_none (some t) = false

-- `is_some_and(|rank| rank <= LEXICAL_FLOOR_DEPTH)`
abbrev pub is_protected : Option ℕ → Bool
is_protected none = false
is_protected (some rank) = leb rank lexical_floor_depth

module _ {F : Type 0} (floats : Floats F) where
  abbrev pub new_candidate : RetrievalMetadata → FusedCandidate F
  new_candidate chunk = record {
    chunk = chunk;
    score = floats.zero_score;
    lexical_rank = none;
    semantic_rank = none;
    lexical_score = none;
    semantic_similarity = none;
    exact_identifier = false;
  }

  abbrev pub or_new : Option (FusedCandidate F) → RetrievalMetadata → FusedCandidate F
  or_new none chunk = new_candidate chunk
  or_new (some entry) chunk = entry

  -- `rank` saturates at `u32::MAX`.
  abbrev reciprocal : FusionConfig → F → ℕ → F
  reciprocal config score rank = floats.add_reciprocal score config.rrf_k (min rank (2 ^ 32 - 1))

  unfoldable pub add_lexical :
      FusionConfig → ℕ → Map (FusedCandidate F) → List (LexicalCandidate F) → Map (FusedCandidate F)
  add_lexical config rank candidates [] = candidates
  add_lexical config rank candidates (hit ∷ hits) =
      let entry = or_new (get hit.chunk.chunk_id candidates) hit.chunk in
      add_lexical config (rank + 1)
        (insert hit.chunk.chunk_id
          (record entry {
            lexical_rank = some (rank + 1);
            lexical_score = some hit.score;
            exact_identifier = entry.exact_identifier || hit.exact_identifier;
            score = reciprocal config entry.score rank;
          })
          candidates)
        hits

  abbrev pub with_semantic :
      FusionConfig
      → ℕ
      → Map (FusedCandidate F)
      → SemanticHit F
      → Option RetrievalMetadata
      → Map (FusedCandidate F)
  with_semantic config rank candidates hit none = candidates
  with_semantic config rank candidates hit (some chunk) =
      let entry = or_new (get hit.chunk_id candidates) chunk in
      insert hit.chunk_id
        (record entry {
          semantic_rank = some (rank + 1);
          semantic_similarity = some hit.similarity;
          score = reciprocal config entry.score rank;
        })
        candidates

  unfoldable pub add_semantic :
      FusionConfig
      → Map RetrievalMetadata
      → ℕ
      → Map (FusedCandidate F)
      → List (SemanticHit F)
      → Map (FusedCandidate F)
  add_semantic config chunks rank candidates [] = candidates
  add_semantic config chunks rank candidates (hit ∷ hits) =
      add_semantic config chunks (rank + 1)
        (with_semantic config rank candidates hit (get hit.chunk_id chunks)) hits

  unfoldable pub candidate_cmp : FusionConfig → FusedCandidate F → FusedCandidate F → Ordering
  candidate_cmp config left right =
      then_cmp (bool_cmp right.exact_identifier left.exact_identifier) (
        then_cmp
          (if left.exact_identifier && right.exact_identifier
            then rank_cmp left.lexical_rank right.lexical_rank
            else Ordering.eq)
          (then_cmp
            (bool_cmp (is_none left.chunk.registered_id) (is_none right.chunk.registered_id))
            (then_cmp
              (if config.lexical_floor
                then bool_cmp (is_protected right.lexical_rank) (is_protected left.lexical_rank)
                else Ordering.eq)
              (then_cmp
                (if config.lexical_floor
                    && is_protected left.lexical_rank
                    && is_protected right.lexical_rank
                  then rank_cmp left.lexical_rank right.lexical_rank
                  else Ordering.eq)
                (then_cmp (floats.total_cmp right.score left.score)
                  (text_cmp left.chunk.chunk_id right.chunk.chunk_id))))))

-- `entry(document).or_default()`
abbrev pub count_of : Text → Map ℕ → ℕ
count_of document counts = elim (get document counts) [ none ↦ 0 | some n ↦ n ]

-- The loop that selects: `counts` of the documents and `content_ids` seen, `left` places.
unfoldable pub select_loop :
    {F : Type 0}
    → FusionConfig
    → ℕ
    → Map ℕ
    → List ContentDigest
    → List (FusedCandidate F)
    → List (FusedCandidate F)
select_loop config left counts content_ids [] = []
select_loop config left counts content_ids (candidate ∷ candidates) =
    let count = count_of candidate.chunk.document_id counts in
    let skip = select_loop config left counts content_ids candidates in
    let keep =
      select_loop config (left - 1) (insert candidate.chunk.document_id (count + 1) counts)
        (candidate.chunk.content_digest ∷ content_ids) candidates in
    if left == 0 || config.max_per_document == 0
    then []
    else if leb config.max_per_document count
    then skip
    else if contains candidate.chunk.content_digest content_ids
    then skip
    else candidate ∷ keep

unfoldable pub fuse_candidate_metadata :
    {F : Type 0}
    → Floats F
    → List (LexicalCandidate F)
    → List (SemanticHit F)
    → Map RetrievalMetadata
    → FusionConfig
    → List (FusedCandidate F)
fuse_candidate_metadata floats lexical semantic chunks config =
    let joined =
      add_semantic floats config chunks 0 (add_lexical floats config 0 [] lexical) semantic in
    select_loop config (max config.limit 1) [] []
      (sort (candidate_cmp floats config) (values joined))
