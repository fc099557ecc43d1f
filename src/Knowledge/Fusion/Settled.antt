-- ===== src/Knowledge/Fusion/Settled.antt =====
-- Which hits the selection of crates/vesc-knowledge-index/src/fusion.rs leaves out.
use mathlib.Core.Option.{some-injective}
use mathlib.Core.Path.{subst}
use vesc_mcp.Prelude.{
  Option, none, some, ℕ, ◌+◌, ◌<◌, ◌≡◌, refl, sym, ap, ◌∙◌, Bool, true, ◌||◌, List, [], ◌∷◌, arith,
  length, max, any, All, All-map, if◌then◌else◌, Bool-cases, inl, inr,
}
use vesc_mcp.Text.{Text, text_eq, text_eq_iff}
use vesc_mcp.Map.{Map, get, insert, values, get-insert}
use vesc_mcp.Knowledge.Investigation.Audit.{sort}
use vesc_mcp.Knowledge.Sorting.{All-sort}
use vesc_mcp.Knowledge.Fusion.Select.{is_settled, select_loop-settled, joined_candidates}
use vesc_mcp.Knowledge.Fusion.{
  or_new, with_semantic, FusionConfig, FusedCandidate, LexicalCandidate, SemanticHit,
  RetrievalMetadata, Floats, add_lexical, add_semantic, candidate_cmp, fuse_candidate_metadata,
}

-- The metadata of the first lexical hit of a chunk.
abbrev pub lexical_chunk :
    {F : Type 0} → Text → List (LexicalCandidate F) → Option RetrievalMetadata
lexical_chunk id [] = none
lexical_chunk id (hit ∷ hits) =
    if text_eq hit.chunk.chunk_id id then some hit.chunk else lexical_chunk id hits

abbrev pub is_semantic_hit : {F : Type 0} → Text → List (SemanticHit F) → Bool
is_semantic_hit id hits = any (λ hit. text_eq hit.chunk_id id) hits

abbrev pub or_else {ℓ} : {A : Type ℓ} → Option A → Option A → Option A
or_else none o = o
or_else (some a) o = some a

-- The metadata of a chunk that a search found: that of its first lexical hit, or the known one when it
-- is a semantic hit alone. A semantic hit without known metadata has none.
abbrev pub found_chunk :
    {F : Type 0}
    → Text
    → List (LexicalCandidate F)
    → List (SemanticHit F)
    → Map RetrievalMetadata
    → Option RetrievalMetadata
found_chunk id lexical semantic chunks =
    or_else (lexical_chunk id lexical) (if is_semantic_hit id semantic then get id chunks else none)

or_else-none {ℓ} : {A : Type ℓ} (o : Option A) → or_else o none ≡ o
or_else-none none = refl
or_else-none (some a) = refl

or_else_assoc {ℓ} :
    {A : Type ℓ} (o p q : Option A) → or_else (or_else o p) q ≡ or_else o (or_else p q)
or_else_assoc none p q = refl
or_else_assoc (some a) p q = refl

abbrev chunk_of : {F : Type 0} → Option (FusedCandidate F) → Option RetrievalMetadata
chunk_of none = none
chunk_of (some c) = some c.chunk

chunk_of-insert :
    {F : Type 0} (id k : Text) (entry : FusedCandidate F) (m : Map (FusedCandidate F))
    → chunk_of (get id (insert k entry m))
      ≡ (if text_eq k id then some entry.chunk else chunk_of (get id m))
chunk_of-insert id k entry m = ground (arith, get-insert k id entry m)

known_twice :
    (id : Text) (chunks : Map RetrievalMetadata) (k : Text) (b : Bool)
    → or_else (if text_eq k id then get k chunks else none) (if b then get id chunks else none)
      ≡ (if text_eq k id || b then get id chunks else none)
known_twice id chunks k b = elim (Bool-cases (text_eq k id)) [
  | inl same ↦ rw same (
      ap (λ t. or_else (get t chunks) (if b then get id chunks else none))
        ((text_eq_iff k id).0 same)
      ∙ ground arith)
  | inr other ↦ rw other refl
]

module _ {F : Type 0} (floats : Floats F) (config : FusionConfig) where
  chunk-or_new :
      (o : Option (FusedCandidate F)) (chunk : RetrievalMetadata)
      → some (or_new floats o chunk).chunk ≡ or_else (chunk_of o) (some chunk)
  chunk-or_new none chunk = refl
  chunk-or_new (some c) chunk = refl

  -- What an entry for a hit of `k` with metadata `chunk` does to the metadata under `id`.
  chunk_of-joined :
      (id k : Text) (entry : FusedCandidate F) (chunk : RetrievalMetadata)
      (m : Map (FusedCandidate F))
      → some entry.chunk ≡ or_else (chunk_of (get k m)) (some chunk)
      → chunk_of (get id (insert k entry m))
        ≡ or_else (chunk_of (get id m)) (if text_eq k id then some chunk else none)
  chunk_of-joined id k entry chunk m is =
      chunk_of-insert id k entry m ∙ elim (Bool-cases (text_eq k id)) [
        | inl same ↦
            rw same
              (is ∙ ap (λ t. or_else (chunk_of (get t m)) (some chunk)) ((text_eq_iff k id).0 same))
        | inr other ↦ rw other (sym (or_else-none _))
      ]

  chunk_of-add_lexical :
      (id : Text) (rank : ℕ) (m : Map (FusedCandidate F)) (hits : List (LexicalCandidate F))
      → chunk_of (get id (add_lexical floats config rank m hits))
        ≡ or_else (chunk_of (get id m)) (lexical_chunk id hits)
  unfolding add_lexical
  chunk_of-add_lexical id rank m [] = ground arith
  chunk_of-add_lexical id rank m (hit ∷ hits) =
      chunk_of-add_lexical id (rank + 1) _ hits
      ∙ ap (λ o. or_else o (lexical_chunk id hits))
          (chunk_of-joined id hit.chunk.chunk_id _ hit.chunk m
            (chunk-or_new (get hit.chunk.chunk_id m) hit.chunk))
      ∙ or_else_assoc (chunk_of (get id m))
          (if text_eq hit.chunk.chunk_id id then some hit.chunk else none) (lexical_chunk id hits)
      ∙ ground arith

  chunk_of-with_semantic :
      (id : Text) (rank : ℕ) (m : Map (FusedCandidate F)) (hit : SemanticHit F)
      (known : Option RetrievalMetadata)
      → chunk_of (get id (with_semantic floats config rank m hit known))
        ≡ or_else (chunk_of (get id m)) (if text_eq hit.chunk_id id then known else none)
  chunk_of-with_semantic id rank m hit none = ground (arith, or_else-none (chunk_of (get id m)))
  chunk_of-with_semantic id rank m hit (some chunk) =
      chunk_of-joined id hit.chunk_id _ chunk m (chunk-or_new (get hit.chunk_id m) chunk)

  chunk_of-add_semantic :
      (id : Text) (chunks : Map RetrievalMetadata) (rank : ℕ) (m : Map (FusedCandidate F))
      (hits : List (SemanticHit F))
      → chunk_of (get id (add_semantic floats config chunks rank m hits))
        ≡ or_else (chunk_of (get id m)) (if is_semantic_hit id hits then get id chunks else none)
  unfolding add_semantic
  chunk_of-add_semantic id chunks rank m [] = ground arith
  chunk_of-add_semantic id chunks rank m (hit ∷ hits) =
      chunk_of-add_semantic id chunks (rank + 1) _ hits
      ∙ ap (λ o. or_else o (if is_semantic_hit id hits then get id chunks else none))
          (chunk_of-with_semantic id rank m hit (get hit.chunk_id chunks))
      ∙ or_else_assoc (chunk_of (get id m))
          (if text_eq hit.chunk_id id then get hit.chunk_id chunks else none)
          (if is_semantic_hit id hits then get id chunks else none)
      ∙ ap (λ o. or_else (chunk_of (get id m)) o)
          (known_twice id chunks hit.chunk_id (is_semantic_hit id hits))

-- What holds of every candidate of a map holds of the metadata under a key.
values-chunk_of :
    {F : Type 0} (P : RetrievalMetadata → Type 0) (id : Text) (m : Map (FusedCandidate F))
    {chunk : RetrievalMetadata}
    → All (λ c. P c.chunk) (values m)
    → chunk_of (get id m) ≡ some chunk
    → P chunk
unfolding get values
values-chunk_of P id [] h is = cc is
values-chunk_of P id ((k, c) ∷ m) {chunk} h is = elim (Bool-cases (text_eq k id)) [
  | inl same ↦ subst P (some-injective c.chunk chunk (rw same at is)) h.0
  | inr other ↦ values-chunk_of P id m h.1 (rw other at is)
]

module _ {F : Type 0} (floats : Floats F) (lexical : List (LexicalCandidate F))
    (semantic : List (SemanticHit F)) (chunks : Map RetrievalMetadata) (config : FusionConfig) where
  joined_candidates-All :
      0 < config.max_per_document
      → length (fuse_candidate_metadata floats lexical semantic chunks config) < max config.limit 1
      → All
          (λ c.
            is_settled config
              (fuse_candidate_metadata floats lexical semantic chunks config)
              c.chunk
            ≡ true)
          (joined_candidates floats lexical semantic chunks config)
  unfolding fuse_candidate_metadata get
  joined_candidates-All some_quota room =
      let candidates = joined_candidates floats lexical semantic chunks config in
      let ordered = sort (candidate_cmp floats config) candidates in
      All-sort (candidate_cmp floats config) _ candidates (
        All-map (λ c h. ground (arith, h)) ordered
          (select_loop-settled config (max config.limit 1) [] [] ordered some_quota room))

-- Where the quota of a document is not zero and the selection is below the limit, every chunk that a
-- search found, by a lexical hit or by a semantic hit with known metadata, has a selected candidate with
-- its content, or its document has used up its quota.
pub fuse_candidate_metadata-settled :
    {F : Type 0} (floats : Floats F) (lexical : List (LexicalCandidate F))
    (semantic : List (SemanticHit F)) (chunks : Map RetrievalMetadata) (config : FusionConfig)
    (id : Text) (chunk : RetrievalMetadata)
    → 0 < config.max_per_document
    → length (fuse_candidate_metadata floats lexical semantic chunks config) < max config.limit 1
    → found_chunk id lexical semantic chunks ≡ some chunk
    → is_settled config (fuse_candidate_metadata floats lexical semantic chunks config) chunk ≡ true
unfolding get
fuse_candidate_metadata-settled floats lexical semantic chunks config id chunk some_quota room
      found =
    let first = add_lexical floats config 0 [] lexical in
    let there =
      chunk_of-add_semantic floats config id chunks 0 first semantic
      ∙ ap (λ o. or_else o (if is_semantic_hit id semantic then get id chunks else none))
          (chunk_of-add_lexical floats config id 0 [] lexical)
      ∙ found in
    values-chunk_of
      (λ c.
        is_settled config (fuse_candidate_metadata floats lexical semantic chunks config) c ≡ true)
      id (add_semantic floats config chunks 0 first semantic)
      (joined_candidates-All floats lexical semantic chunks config some_quota room) there
