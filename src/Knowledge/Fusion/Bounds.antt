-- ===== src/Knowledge/Fusion/Bounds.antt =====
-- The bounds of the context of crates/vesc-knowledge-index/src/fusion.rs.
use vesc_mcp.Prelude.{
  ◌⊎◌, ℕ, zero, suc, ◌+◌, ◌-◌, ◌<◌, ◌≤◌, ◌≡◌, refl, ap, ◌∙◌, true, false, List, [], ◌∷◌, ◌++◌,
  arith, leb, ◌==◌, length, min, take, length-append, Bool-cases, inl, inr,
}
use vesc_mcp.Text.{Text, is_empty}
use vesc_mcp.Text.Utf8.{encode_char, as_bytes, byte_len}
use vesc_mcp.Text.Ascii.{as_bytes-append}
use vesc_mcp.Map.{Map}
use vesc_mcp.Knowledge.Fusion.Neighbors.{IsAround, neighbors_of-IsAround}
use vesc_mcp.Knowledge.Fusion.Expand.{
  Chunk, neighbors_of, floor_boundary, prefix, separator, append_bounded_piece, append_neighbors,
  expand_adjacent_context,
}

floor_boundary-le : (end : ℕ) (piece : Text) → floor_boundary end piece ≤ end
unfolding floor_boundary
floor_boundary-le zero piece = omega arith
floor_boundary-le (suc end) piece = ground (arith, floor_boundary-le end piece)

prefix-le : (end : ℕ) (t : Text) → byte_len (prefix end t) ≤ end
unfolding prefix as_bytes
prefix-le end [] = omega arith
prefix-le end (c ∷ cs) = ground (
  arith,
  prefix-le (end - length (encode_char c)) cs,
  length-append (encode_char c) (as_bytes (prefix (end - length (encode_char c)) cs)),
)

byte_len-append : (s t : Text) → byte_len (s ++ t) ≡ byte_len s + byte_len t
byte_len-append s t = ap length (as_bytes-append s t) ∙ length-append (as_bytes s) (as_bytes t)

append_bounded_piece-le :
    (output piece : Text) (max_bytes : ℕ)
    → byte_len output ≤ max_bytes
    → byte_len (append_bounded_piece output piece max_bytes).0 ≤ max_bytes
unfolding append_bounded_piece
append_bounded_piece-le output piece max_bytes h =
    let test = leb (byte_len (separator output) + byte_len piece) (max_bytes - byte_len output) in
    let end = floor_boundary (min max_bytes (byte_len piece)) piece in
    elim (Bool-cases test) [
      | inl fits ↦
          rw (fits, append_bounded_piece)
            (ground (
              arith,
              fits,
              h,
              byte_len-append (output ++ separator output) piece,
              byte_len-append output (separator output),
            ))
      | inr long ↦ elim (Bool-cases (is_empty output)) [
        | inl empty ↦
            rw (long, append_bounded_piece)
              (rw empty (
                omega (
                  arith,
                  floor_boundary-le (min max_bytes (byte_len piece)) piece,
                  prefix-le end piece,
                )))
        | inr filled ↦ rw (long, append_bounded_piece) (rw filled h)
      ]
    ]

-- Behind a passage a piece is appended whole or not at all.
append_bounded_piece-cases :
    (output piece : Text) (max_bytes : ℕ)
    → is_empty output ≡ false
    → (append_bounded_piece output piece max_bytes ≡ (output ++ separator output ++ piece, true))
      ⊎ (append_bounded_piece output piece max_bytes ≡ (output, false))
unfolding append_bounded_piece
append_bounded_piece-cases output piece max_bytes filled =
    let test = leb (byte_len (separator output) + byte_len piece) (max_bytes - byte_len output) in
    elim (Bool-cases test) [
      | inl fits ↦ inl (rw (fits, append_bounded_piece) refl)
      | inr long ↦ inr (rw (long, append_bounded_piece) (rw filled refl))
    ]

is_empty-append : (s t : Text) → is_empty s ≡ false → is_empty (s ++ t) ≡ false
unfolding is_empty
is_empty-append [] t h = absurd (cc)
is_empty-append (c ∷ s) t h = refl

append_neighbors-le :
    (passage : Text) (count : ℕ) (neighbors : List Chunk) (max_bytes : ℕ)
    → byte_len passage ≤ max_bytes
    → byte_len (append_neighbors passage count neighbors max_bytes).0 ≤ max_bytes
unfolding append_neighbors
append_neighbors-le passage count [] max_bytes h = h
append_neighbors-le passage count (n ∷ ns) max_bytes h =
    let step = append_bounded_piece-le passage n.text max_bytes h in
    let rest =
      append_neighbors-le (append_bounded_piece passage n.text max_bytes).0 (count + 1) ns max_bytes
        step in
    ground (arith, step, rest)

append_neighbors-count :
    (passage : Text) (count : ℕ) (neighbors : List Chunk) (max_bytes : ℕ)
    → (append_neighbors passage count neighbors max_bytes).1 ≤ count + length neighbors
unfolding append_neighbors
append_neighbors-count passage count [] max_bytes = omega arith
append_neighbors-count passage count (n ∷ ns) max_bytes = ground (
  arith,
  append_neighbors-count (append_bounded_piece passage n.text max_bytes).0 (count + 1) ns max_bytes,
)

-- A passage and the texts of some chunks, each behind a blank line.
abbrev pub joined : Text → List Chunk → Text
joined passage [] = passage
joined passage (n ∷ ns) = joined (passage ++ separator passage ++ n.text) ns

-- A neighbour is taken whole or not at all.
append_neighbors-joined :
    (passage : Text) (count : ℕ) (neighbors : List Chunk) (max_bytes : ℕ)
    → is_empty passage ≡ false
    → (taken : ℕ) × ((append_neighbors passage count neighbors max_bytes).1 ≡ count + taken)
      × ((append_neighbors passage count neighbors max_bytes).0
          ≡ joined passage (take taken neighbors))
unfolding append_neighbors
append_neighbors-joined passage count [] max_bytes h = (0, omega arith, refl)
append_neighbors-joined passage count (n ∷ ns) max_bytes h =
    elim (append_bounded_piece-cases passage n.text max_bytes h) [
      | inl whole ↦
          let longer = passage ++ separator passage ++ n.text in
          let filled =
            is_empty-append (passage ++ separator passage) n.text
              (is_empty-append passage (separator passage) h) in
          let (taken, count_is, passage_is) =
            append_neighbors-joined longer (count + 1) ns max_bytes filled in
          (
            suc taken,
            rw (whole, append_neighbors) (omega (arith, count_is)),
            rw (whole, append_neighbors) passage_is,
          )
      | inr none_of_it ↦ (
        0,
        rw (none_of_it, append_neighbors) (omega arith),
        rw (none_of_it, append_neighbors) refl,
      )
    ]

-- A context has at most `max_bytes` bytes, and counts no more neighbours than there are in the list of
-- neighbours; this list has at most `max_neighbors` chunks before the anchor, which the links to
-- previous chunks lead to in its document, and at most `max_neighbors` behind it, which the links to
-- next chunks lead to in its document.
pub expand_adjacent_context-le :
    (anchor : Chunk) (chunks : Map Chunk) (max_neighbors max_bytes : ℕ)
    → (byte_len (expand_adjacent_context anchor chunks max_neighbors max_bytes).passage ≤ max_bytes)
      × ((expand_adjacent_context anchor chunks max_neighbors max_bytes).neighbor_count
          ≤ length (neighbors_of anchor chunks max_neighbors))
      × IsAround anchor chunks max_neighbors (neighbors_of anchor chunks max_neighbors)
unfolding expand_adjacent_context as_bytes
expand_adjacent_context-le anchor chunks max_neighbors max_bytes =
    let neighbors = neighbors_of anchor chunks max_neighbors in
    let around = neighbors_of-IsAround anchor chunks max_neighbors in
    let start = (append_bounded_piece [] anchor.text max_bytes).0 in
    elim (Bool-cases (max_bytes == 0)) [
      | inl none_left ↦ (rw none_left (omega arith), rw none_left (omega arith), around)
      | inr left ↦ (
        rw left (
            append_neighbors-le start 0 neighbors max_bytes
              (append_bounded_piece-le [] anchor.text max_bytes (omega arith))),
        rw left (omega (arith, append_neighbors-count start 0 neighbors max_bytes)),
        around,
      )
    ]

whole_anchor :
    (text : Text) (max_bytes : ℕ)
    → byte_len text ≤ max_bytes
    → append_bounded_piece [] text max_bytes ≡ (text, true)
unfolding append_bounded_piece as_bytes
whole_anchor text max_bytes h = ground (arith, h)

-- Where the passage of the anchor is not empty and fits the budget, which is not zero, the context is
-- that passage followed by the whole passages of the neighbours it counts, the first ones in order.
pub expand_adjacent_context-joined :
    (anchor : Chunk) (chunks : Map Chunk) (max_neighbors max_bytes : ℕ)
    → 0 < max_bytes
    → is_empty anchor.text ≡ false
    → byte_len anchor.text ≤ max_bytes
    → (expand_adjacent_context anchor chunks max_neighbors max_bytes).passage
      ≡ joined anchor.text (
          take
            (expand_adjacent_context anchor chunks max_neighbors max_bytes).neighbor_count
            (neighbors_of anchor chunks max_neighbors))
unfolding expand_adjacent_context
expand_adjacent_context-joined anchor chunks max_neighbors max_bytes some_left filled fits =
    let neighbors = neighbors_of anchor chunks max_neighbors in
    let left : (max_bytes == 0) ≡ false = ground (arith, some_left) in
    let start = whole_anchor anchor.text max_bytes fits in
    let (taken, count_is, passage_is) =
      append_neighbors-joined anchor.text 0 neighbors max_bytes filled in
    let plain : 0 + taken ≡ taken = omega arith in
    rw left (rw start (rw (count_is, plain) passage_is))
