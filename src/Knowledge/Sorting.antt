-- ===== src/Knowledge/Sorting.antt =====
-- The elements of a list that `sort` has put in order.
use mathlib.Core.Path.{subst}
use vesc_mcp.Prelude.{◌≡◌, List, [], ◌∷◌, Ordering, arith, All}
use vesc_mcp.Knowledge.Investigation.Audit.{sort, insert_sorted}

-- What an insertion puts in front.
abbrev pub placed : {A : Type 0} → Ordering → A → A → List A → List A → List A
placed Ordering.lt a b bs rest = b ∷ rest
placed _ a b bs rest = a ∷ b ∷ bs

module _ {A : Type 0} (cmp : A → A → Ordering) where
  All-placed :
      (P : A → Type 0) (o : Ordering) (a b : A) (bs rest : List A)
      → (All P rest → P a × All P bs)
      → All P (placed o a b bs rest)
      → P a × All P (b ∷ bs)
  All-placed P Ordering.lt a b bs rest inner h = let (x, xs) = inner h.1 in (x, (h.0, xs))
  All-placed P Ordering.eq a b bs rest inner h = h
  All-placed P Ordering.gt a b bs rest inner h = h

  pub insert_sorted_cons :
      (a b : A) (bs : List A)
      → insert_sorted cmp a (b ∷ bs) ≡ placed (cmp b a) a b bs (insert_sorted cmp a bs)
  unfolding insert_sorted
  insert_sorted_cons a b bs = ground arith

  pub All-insert_sorted :
      (P : A → Type 0) (a : A) (xs : List A) → All P (insert_sorted cmp a xs) → P a × All P xs
  unfolding insert_sorted
  All-insert_sorted P a [] h = h
  All-insert_sorted P a (b ∷ bs) h =
      All-placed P (cmp b a) a b bs (insert_sorted cmp a bs) (All-insert_sorted P a bs)
        (subst (All P) (insert_sorted_cons a b bs) h)

  pub All-sort : (P : A → Type 0) (xs : List A) → All P (sort cmp xs) → All P xs
  unfolding sort
  All-sort P [] h = tt
  All-sort P (x ∷ xs) h =
      let (here, rest) = All-insert_sorted P x (sort cmp xs) h in (here, All-sort P xs rest)
