-- ===== src/Map.antt =====
-- A `BTreeMap` with text keys: an association list in the order of its keys. A `HashMap` whose order
-- nobody reads is one too.
use vesc_mcp.Prelude.{
  ◌+◌, ◌≤◌, ◌≡◌, refl, Bool, true, false, List, [], ◌∷◌, Option, none, some, Ordering, arith,
  if◌then◌else◌, map, length,
}
use vesc_mcp.Text.{Text, text_eq, text_eq_iff, text_cmp, text_cmp_iff}

abbrev pub Map {ℓ} : Type ℓ → Type ℓ
Map V = List (Text × V)

module _ {ℓ} {V : Type ℓ} where
  unfoldable pub get : Text → Map V → Option V
  get k [] = none
  get k ((j, v) ∷ m) = if text_eq j k then some v else get k m

  unfoldable pub insert : Text → V → Map V → Map V
  insert k v [] = (k, v) ∷ []
  insert k v ((j, w) ∷ m) = elim (text_cmp k j) [
    | Ordering.lt ↦ (k, v) ∷ (j, w) ∷ m
    | Ordering.eq ↦ (k, v) ∷ m
    | Ordering.gt ↦ (j, w) ∷ insert k v m
  ]

  abbrev is_some : Option V → Bool
  is_some none = false
  is_some (some v) = true

  unfoldable pub contains_key : Text → Map V → Bool
  contains_key k m = is_some (get k m)

  unfoldable pub values : Map V → List V
  values = map (λ e. e.1)

  unfoldable pub keys : Map V → List Text
  keys = map (λ e. e.0)

  pub get-insert :
      (k j : Text) (v : V) (m : Map V)
      → get j (insert k v m) ≡ (if text_eq k j then some v else get j m)
  unfolding get insert
  get-insert k j v [] = refl
  get-insert k j v ((i, w) ∷ m) = ground (
    arith,
    get-insert k j v m,
    text_cmp_iff k i,
    text_eq_iff i j,
    text_eq_iff k j,
    text_eq_iff i k,
  )

  -- An insertion grows the map by one entry at most.
  pub length-insert : (k : Text) (v : V) (m : Map V) → length (insert k v m) ≤ length m + 1
  unfolding insert
  length-insert k v [] = omega arith
  length-insert k v ((j, w) ∷ m) = ground (arith, length-insert k v m)
