-- ===== src/Knowledge/Graph/Reverse.antt =====
-- The reverse index of crates/vesc-knowledge-index/src/graph.rs, as it is laid out.
use mathlib.Core.Path.{subst}
use mathlib.Core.Option.{some-injective}
use vesc_mcp.Prelude.{
  ℕ, zero, suc, ◌+◌, ◌^◌, ◌≤◌, ◌≡◌, refl, ap, ◌∙◌, true, List, [], ◌∷◌, ◌++◌, some, arith, ltb, All,
  length, map, get_elem?, take, drop, length-append, group, Ensures, Ensures-ok, Ensures-guard,
  Ensures-bind,
}
use vesc_mcp.Text.Ascii.{All-append}
use vesc_mcp.Knowledge.Graph.Index.{EdgeIndex, lay_out}
use vesc_mcp.Knowledge.Graph.Decode.{offsets_are_valid, climbs_to}

-- What `decode_reverse_index` reads back, for `n` nodes and `m` edges.
pub record IsReverse (n m : ℕ) (offsets indices : List ℕ) : Type 0 where
  pub offsets_size : length offsets ≡ n + 1
  pub valid : offsets_are_valid m offsets ≡ true
  pub offsets_fit : All (λ i. i ≤ m) offsets
  pub indices_size : length indices ≡ m
  pub indices_fit : All (λ i. i ≤ m) indices

abbrev pub indexes_of : List EdgeIndex → List ℕ
indexes_of group = map (λ e. e.0) group

abbrev pub concat : List (List EdgeIndex) → List EdgeIndex
concat [] = []
concat (g ∷ groups) = g ++ concat groups

-- How many indexes stand before group `t`.
abbrev pub start_of : ℕ → List (List EdgeIndex) → ℕ
start_of zero groups = 0
start_of (suc t) [] = 0
start_of (suc t) (g ∷ groups) = length g + start_of t groups

-- The offsets and the indexes that a list of groups is laid out to, behind `written` others.
pub record IsLaidOut (written : ℕ) (groups : List (List EdgeIndex)) (laid : List ℕ × List ℕ)
    : Type 0 where
  pub size : length laid.0 ≡ length groups
  pub indices : laid.1 ≡ indexes_of (concat groups)
  pub climbs : climbs_to (written + length (concat groups)) written laid.0 ≡ true
  pub starts :
      (t : ℕ)
      → t ≤ length groups
      → get_elem? (written ∷ laid.0) t ≡ some (written + start_of t groups)

pub length-indexes_of : (g : List EdgeIndex) → length (indexes_of g) ≡ length g
length-indexes_of [] = refl
length-indexes_of (p ∷ g) = ap suc (length-indexes_of g)

indexes_of-append :
    (xs ys : List EdgeIndex) → indexes_of xs ++ indexes_of ys ≡ indexes_of (xs ++ ys)
indexes_of-append [] ys = refl
indexes_of-append (x ∷ xs) ys = ap (λ t. x.0 ∷ t) (indexes_of-append xs ys)

starts_cons :
    (written : ℕ) (g : List EdgeIndex) (groups : List (List EdgeIndex)) (offsets : List ℕ)
    → ((t : ℕ)
        → t ≤ length groups
        → get_elem? ((written + length g) ∷ offsets) t
          ≡ some (written + length g + start_of t groups))
    → (t : ℕ) → t ≤ suc (length groups)
    → get_elem? (written ∷ (written + length g) ∷ offsets) t
      ≡ some (written + start_of t (g ∷ groups))
starts_cons written g groups offsets rest zero h = ground arith
starts_cons written g groups offsets rest (suc t) h =
    let sum : written + length g + start_of t groups ≡ written + (length g + start_of t groups) =
      omega arith in
    rest t (omega arith) ∙ ap some sum

starts_nil : (written t : ℕ) → t ≤ 0 → get_elem? (written ∷ []) t ≡ some (written + start_of t [])
starts_nil written zero h = ground arith
starts_nil written (suc t) h = absurd (omega arith)

climbs_cons :
    (written : ℕ) (g : List EdgeIndex) (groups : List (List EdgeIndex)) (offsets : List ℕ)
    → climbs_to (written + length g + length (concat groups)) (written + length g) offsets ≡ true
    → climbs_to (written + length (g ++ concat groups)) written ((written + length g) ∷ offsets)
      ≡ true
climbs_cons written g groups offsets rest =
    let total : written + length g + length (concat groups)
        ≡ written + length (g ++ concat groups) =
      omega (arith, length-append g (concat groups)) in
    subst (λ n. climbs_to n written ((written + length g) ∷ offsets) ≡ true) total
      (ground (arith, rest))

pub lay_out-Ensures :
    (written : ℕ) (groups : List (List EdgeIndex))
    → Ensures (IsLaidOut written groups) (lay_out written groups)
unfolding lay_out
lay_out-Ensures written [] =
    Ensures-ok ([], [])
      (record { size = refl; indices = refl; climbs = ground arith; starts = starts_nil written })
lay_out-Ensures written (g ∷ groups) =
    Ensures-guard (ltb (written + length g) (2 ^ 32)) _ _ λ small.
      Ensures-bind (lay_out (written + length g) groups) _ λ rest run.
        let L = (lay_out-Ensures (written + length g) groups).at rest run in
        Ensures-ok ((written + length g) ∷ rest.0, indexes_of g ++ rest.1)
          (record {
            size = ap suc L.size;
            indices = rw (L.indices) (indexes_of-append g (concat groups));
            climbs = climbs_cons written g groups rest.0 L.climbs;
            starts = starts_cons written g groups rest.0 L.starts;
          })

take-indexes_of :
    (xs ys : List EdgeIndex) → take (length xs) (indexes_of (xs ++ ys)) ≡ indexes_of xs
take-indexes_of [] ys = refl
take-indexes_of (x ∷ xs) ys = ap (λ t. x.0 ∷ t) (take-indexes_of xs ys)

drop-indexes_of :
    (xs ys : List EdgeIndex) (n : ℕ)
    → drop (length xs + n) (indexes_of (xs ++ ys)) ≡ drop n (indexes_of ys)
drop-indexes_of [] ys n = let e : 0 + n ≡ n = omega arith in ap (λ k. drop k (indexes_of ys)) e
drop-indexes_of (x ∷ xs) ys n =
    let e : suc (length xs) + n ≡ suc (length xs + n) = omega arith in
    ap (λ k. drop k (indexes_of (x ∷ xs ++ ys))) e ∙ drop-indexes_of xs ys n

-- A group is the slice behind those before it.
pub take-drop-concat :
    (t : ℕ) (groups : List (List EdgeIndex)) (g : List EdgeIndex)
    → get_elem? groups t ≡ some g
    → take (length g) (drop (start_of t groups) (indexes_of (concat groups))) ≡ indexes_of g
take-drop-concat t [] g h = absurd (cc)
take-drop-concat zero (x ∷ groups) g h =
    let same : x ≡ g = some-injective _ _ h in rw (← same) (take-indexes_of x (concat groups))
take-drop-concat (suc t) (x ∷ groups) g h =
    rw (drop-indexes_of x (concat groups) (start_of t groups)) (take-drop-concat t groups g h)

pub start_of-suc :
    (t : ℕ) (groups : List (List EdgeIndex)) (g : List EdgeIndex)
    → get_elem? groups t ≡ some g
    → start_of (suc t) groups ≡ start_of t groups + length g
start_of-suc t [] g h = absurd (cc)
start_of-suc zero (x ∷ groups) g h = ground (arith, h)
start_of-suc (suc t) (x ∷ groups) g h = omega (arith, start_of-suc t groups g h)

pub start_of-length :
    (groups : List (List EdgeIndex)) → start_of (length groups) groups ≡ length (concat groups)
start_of-length [] = refl
start_of-length (g ∷ groups) =
    omega (arith, start_of-length groups, length-append g (concat groups))

pub All-concat :
    (P : EdgeIndex → Type 0) (groups : List (List EdgeIndex))
    → ((t : ℕ) (g : List EdgeIndex) → get_elem? groups t ≡ some g → All P g)
    → All P (concat groups)
All-concat P [] h = tt
All-concat P (g ∷ groups) h =
    All-append P (concat groups) g (All-concat P groups (λ t g' at. h (suc t) g' at)) (h 0 g refl)

pub map-fixed :
    (f : List EdgeIndex → List EdgeIndex) (groups : List (List EdgeIndex))
    → ((t : ℕ) (g : List EdgeIndex) → get_elem? groups t ≡ some g → f g ≡ g)
    → map f groups ≡ groups
map-fixed f [] h = refl
map-fixed f (g ∷ groups) h = rw (h 0 g refl, map-fixed f groups (λ t g' at. h (suc t) g' at)) refl

-- A group ends within the whole.
pub start_of-le :
    (t : ℕ) (groups : List (List EdgeIndex)) (g : List EdgeIndex)
    → get_elem? groups t ≡ some g
    → start_of t groups + length g ≤ length (indexes_of (concat groups))
start_of-le t [] g h = absurd (cc)
start_of-le zero (x ∷ groups) g h =
    let same = some-injective _ _ h in
    omega (
      arith,
      ap length same,
      length-indexes_of (x ++ concat groups),
      length-append x (concat groups),
    )
start_of-le (suc t) (x ∷ groups) g h = omega (
  arith,
  start_of-le t groups g h,
  length-indexes_of (x ++ concat groups),
  length-indexes_of (concat groups),
  length-append x (concat groups),
)
