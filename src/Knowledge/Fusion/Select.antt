-- ===== src/Knowledge/Fusion/Select.antt =====
-- The limits of the selection of crates/vesc-knowledge-index/src/fusion.rs.
use mathlib.Core.Path.{subst}
use vesc_mcp.Prelude.{
  ℕ, ◌+◌, ◌-◌, ◌<◌, ◌≤◌, ◌≡◌, refl, sym, ap, Bool, true, false, not, ◌&&◌, ◌||◌, List, [], ◌∷◌,
  arith, leb, ◌==◌, length, max, any, filter, All, All-map, if◌then◌else◌, Bool-cases, inl, inr,
}
use vesc_mcp.Text.{Text, text_eq, text_eq_iff}
use vesc_mcp.Map.{Map, get, insert, values, get-insert}
use vesc_mcp.Knowledge.Investigation.{contains}
use vesc_mcp.Knowledge.Investigation.Audit.{sort}
use vesc_mcp.Knowledge.Graph.{ContentDigest}
use vesc_mcp.Knowledge.Fusion.{
  FusionConfig, FusedCandidate, LexicalCandidate, SemanticHit, RetrievalMetadata, Floats, count_of,
  select_loop, add_lexical, add_semantic, candidate_cmp, fuse_candidate_metadata,
}

count_of-insert :
    (document other : Text) (counts : Map ℕ) (n : ℕ)
    → count_of other (insert document n counts)
      ≡ (if text_eq document other then n else count_of other counts)
count_of-insert document other counts n = ground (arith, get-insert document other n counts)

module _ {F : Type 0} (config : FusionConfig) where
  -- How many of these candidates a document has.
  abbrev pub documents : Text → List (FusedCandidate F) → ℕ
  documents document output = length (filter (λ c. text_eq c.chunk.document_id document) output)

  abbrev pub has_digest : ContentDigest → List (FusedCandidate F) → Bool
  has_digest digest output = any (λ c. text_eq c.chunk.content_digest digest) output

  select_loop-length :
      (left : ℕ) (counts : Map ℕ) (ids : List ContentDigest) (cs : List (FusedCandidate F))
      → length (select_loop config left counts ids cs) ≤ left
  unfolding select_loop
  select_loop-length left counts ids [] = omega arith
  select_loop-length left counts ids (c ∷ cs) = ground (
    arith,
    select_loop-length left counts ids cs,
    select_loop-length (left - 1)
        (insert c.chunk.document_id (count_of c.chunk.document_id counts + 1) counts)
        (c.chunk.content_digest ∷ ids) cs,
  )

  select_loop-documents :
      (document : Text) (left : ℕ) (counts : Map ℕ) (ids : List ContentDigest)
      (cs : List (FusedCandidate F))
      → count_of document counts ≤ config.max_per_document
      → count_of document counts + documents document (select_loop config left counts ids cs)
        ≤ config.max_per_document
  unfolding select_loop
  select_loop-documents document left counts ids [] h = omega (arith, h)
  select_loop-documents document left counts ids (c ∷ cs) h =
      let grown = insert c.chunk.document_id (count_of c.chunk.document_id counts + 1) counts in
      let same = text_eq_iff c.chunk.document_id document in
      let counted =
        count_of-insert c.chunk.document_id document counts
          (count_of c.chunk.document_id counts + 1) in
      ground (
        arith,
        h,
        same,
        counted,
        select_loop-documents document left counts ids cs,
        select_loop-documents document (left - 1) grown (c.chunk.content_digest ∷ ids) cs,
      )

  -- A digest that was seen does not come again.
  select_loop-unseen :
      (digest : ContentDigest) (left : ℕ) (counts : Map ℕ) (ids : List ContentDigest)
      (cs : List (FusedCandidate F))
      → contains digest ids ≡ true
      → has_digest digest (select_loop config left counts ids cs) ≡ false
  unfolding select_loop
  select_loop-unseen digest left counts ids [] h = refl
  select_loop-unseen digest left counts ids (c ∷ cs) h =
      let grown = insert c.chunk.document_id (count_of c.chunk.document_id counts + 1) counts in
      let same = text_eq_iff c.chunk.content_digest digest in
      let other : c.chunk.content_digest ≡ digest
          → contains c.chunk.content_digest ids ≡ contains digest ids =
        λ e. ap (λ d. contains d ids) e in
      ground (
        arith,
        h,
        same,
        other,
        select_loop-unseen digest left counts ids cs h,
        select_loop-unseen digest (left - 1) grown (c.chunk.content_digest ∷ ids) cs,
      )

  -- No two of these candidates have one digest.
  abbrev pub are_distinct : List (FusedCandidate F) → Bool
  are_distinct [] = true
  are_distinct (c ∷ cs) = not (has_digest c.chunk.content_digest cs) && are_distinct cs

  select_loop-are_distinct :
      (left : ℕ) (counts : Map ℕ) (ids : List ContentDigest) (cs : List (FusedCandidate F))
      → are_distinct (select_loop config left counts ids cs) ≡ true
  unfolding select_loop
  select_loop-are_distinct left counts ids [] = refl
  select_loop-are_distinct left counts ids (c ∷ cs) =
      let grown = insert c.chunk.document_id (count_of c.chunk.document_id counts + 1) counts in
      let digest = c.chunk.content_digest in
      let here = (text_eq_iff digest digest).1 refl in
      ground (
        arith,
        here,
        select_loop-are_distinct left counts ids cs,
        select_loop-are_distinct (left - 1) grown (digest ∷ ids) cs,
        select_loop-unseen digest (left - 1) grown (digest ∷ ids) cs,
      )

  -- A candidate is left out only for its digest or for the quota of its document.
  abbrev pub is_settled : List (FusedCandidate F) → RetrievalMetadata → Bool
  is_settled output chunk =
      has_digest chunk.content_digest output
      || leb config.max_per_document (documents chunk.document_id output)

  abbrev pub settled_behind :
      Map ℕ → List ContentDigest → List (FusedCandidate F) → FusedCandidate F → Bool
  settled_behind counts ids output c =
      contains c.chunk.content_digest ids
      || has_digest c.chunk.content_digest output
      || leb config.max_per_document
          (count_of c.chunk.document_id counts + documents c.chunk.document_id output)

  -- What was kept settles as much as what was seen.
  settled_keep :
      (c d : FusedCandidate F) (counts : Map ℕ) (ids : List ContentDigest)
      (output : List (FusedCandidate F))
      → settled_behind
          (insert c.chunk.document_id (count_of c.chunk.document_id counts + 1) counts)
          (c.chunk.content_digest ∷ ids)
          output
          d
        ≡ true
      → settled_behind counts ids (c ∷ output) d ≡ true
  settled_keep c d counts ids output h =
      let counted =
        count_of-insert c.chunk.document_id d.chunk.document_id counts
          (count_of c.chunk.document_id counts + 1) in
      let same : c.chunk.document_id ≡ d.chunk.document_id
          → count_of c.chunk.document_id counts ≡ count_of d.chunk.document_id counts =
        λ e. ap (λ t. count_of t counts) e in
      ground (arith, h, counted, same, text_eq_iff c.chunk.document_id d.chunk.document_id)

  pub select_loop-settled :
      (left : ℕ) (counts : Map ℕ) (ids : List ContentDigest) (cs : List (FusedCandidate F))
      → 0 < config.max_per_document
      → length (select_loop config left counts ids cs) < left
      → All (λ d. settled_behind counts ids (select_loop config left counts ids cs) d ≡ true) cs
  unfolding select_loop
  select_loop-settled left counts ids [] some_quota room = tt
  select_loop-settled left counts ids (c ∷ cs) some_quota room =
      let document = c.chunk.document_id in
      let digest = c.chunk.content_digest in
      let grown = insert document (count_of document counts + 1) counts in
      let open_left : (left == 0 || config.max_per_document == 0) ≡ false =
        ground (arith, room, some_quota) in
      elim (Bool-cases (leb config.max_per_document (count_of document counts))) [
        | inl full ↦
            let skipped : select_loop config left counts ids (c ∷ cs)
                ≡ select_loop config left counts ids cs =
              rw (open_left, full) refl in
            subst (λ out. All (λ d. settled_behind counts ids out d ≡ true) (c ∷ cs)) (sym skipped)
              (
                ground (arith, full),
                select_loop-settled left counts ids cs some_quota
                    (omega (arith, room, ap length skipped)),
              )
        | inr free ↦ elim (Bool-cases (contains digest ids)) [
          | inl seen ↦
              let skipped : select_loop config left counts ids (c ∷ cs)
                  ≡ select_loop config left counts ids cs =
                rw (open_left, free, seen) refl in
              subst (λ out. All (λ d. settled_behind counts ids out d ≡ true) (c ∷ cs))
                (sym skipped)
                (
                  ground (arith, seen),
                  select_loop-settled left counts ids cs some_quota
                      (omega (arith, room, ap length skipped)),
                )
          | inr new ↦
              let output = select_loop config (left - 1) grown (digest ∷ ids) cs in
              let kept : select_loop config left counts ids (c ∷ cs) ≡ c ∷ output =
                rw (open_left, free, new) refl in
              let rest =
                select_loop-settled (left - 1) grown (digest ∷ ids) cs some_quota
                  (omega (arith, room, ap length kept)) in
              let here = (text_eq_iff digest digest).1 refl in
              subst (λ out. All (λ d. settled_behind counts ids out d ≡ true) (c ∷ cs)) (sym kept)
                (
                  ground (arith, here),
                  All-map (λ d h. settled_keep c d counts ids output h) cs rest,
                )
        ]
      ]

abbrev pub joined_candidates :
    {F : Type 0}
    → Floats F
    → List (LexicalCandidate F)
    → List (SemanticHit F)
    → Map RetrievalMetadata
    → FusionConfig
    → List (FusedCandidate F)
joined_candidates floats lexical semantic chunks config =
    values (add_semantic floats config chunks 0 (add_lexical floats config 0 [] lexical) semantic)

-- The selection has at most the limit of candidates, and one of them where the limit is zero, no
-- document has more than its quota of them, and no two have the same content.
pub fuse_candidate_metadata-le :
    {F : Type 0} (floats : Floats F) (lexical : List (LexicalCandidate F))
    (semantic : List (SemanticHit F)) (chunks : Map RetrievalMetadata) (config : FusionConfig)
    (document : Text)
    → (length (fuse_candidate_metadata floats lexical semantic chunks config) ≤ max config.limit 1)
      × (documents config document (fuse_candidate_metadata floats lexical semantic chunks config)
          ≤ config.max_per_document)
      × (are_distinct config (fuse_candidate_metadata floats lexical semantic chunks config) ≡ true)
unfolding fuse_candidate_metadata get
fuse_candidate_metadata-le floats lexical semantic chunks config document =
    let ordered =
      sort (candidate_cmp floats config)
        (joined_candidates floats lexical semantic chunks config) in
    (
      select_loop-length config (max config.limit 1) [] [] ordered,
      omega (
        arith,
        select_loop-documents config document (max config.limit 1) [] [] ordered (omega arith),
      ),
      select_loop-are_distinct config (max config.limit 1) [] [] ordered,
    )
