-- ===== src/Prelude/Groups.antt =====
-- Elements grouped by a number, and their places in a list that rises by it.
use Prim.Native.Nat.{Ordering, ℕ, suc, ◌+◌, ◌≤◌, ◌<◌}
use mathlib.Core.Path.{◌≡◌, refl}
use mathlib.Core.Bool.{Bool, true, false}
use mathlib.Core.List.{List, [], ◌∷◌, ◌++◌}
use native.Mathlib.Omega.{arith}
use vesc_mcp.Prelude.Tests.{ltb, ◌==◌, if◌then◌else◌}
use vesc_mcp.Prelude.Order.{Ascends}
use vesc_mcp.Prelude.Lists.{length, filter, take, drop, All}

pub filter_cong-All {ℓ} :
    {A : Type ℓ} (p q : A → Bool) (xs : List A)
    → All (λ x. p x ≡ q x) xs
    → filter p xs ≡ filter q xs
filter_cong-All p q [] h = refl
filter_cong-All p q (x ∷ xs) h = rw (h.0, filter_cong-All p q xs h.1) refl

pub filter-none {ℓ} :
    {A : Type ℓ} (p : A → Bool) (xs : List A) → All (λ x. p x ≡ false) xs → filter p xs ≡ []
filter-none p [] h = refl
filter-none p (x ∷ xs) h = rw (h.0) (filter-none p xs h.1)

pub All-split {ℓ κ} :
    {A : Type ℓ} (P : A → Type κ) (xs ys : List A) → All P (xs ++ ys) → All P xs × All P ys
All-split P [] ys h = (tt, h)
All-split P (x ∷ xs) ys h = let (a, b) = All-split P xs ys h.1 in ((h.0, a), b)

pub All-map {ℓ κ μ} :
    {A : Type ℓ} {P : A → Type κ} {Q : A → Type μ}
    → ((x : A) → P x → Q x)
    → (xs : List A) → All P xs
    → All Q xs
All-map f [] h = tt
All-map f (x ∷ xs) h = (f x h.0, All-map f xs h.1)

filter-if :
    {A : Type 0} (b : Bool) (x : A) (xs : List A) (P : A → Type 0)
    → (b ≡ true → P x)
    → All P xs
    → All P (if b then x ∷ xs else xs)
filter-if true x xs P h all = (h refl, all)
filter-if false x xs P h all = all

pub All-filter :
    {A : Type 0} (p : A → Bool) (P : A → Type 0) (xs : List A)
    → All (λ x. p x ≡ true → P x) xs
    → All P (filter p xs)
All-filter p P [] h = tt
All-filter p P (x ∷ xs) h = filter-if (p x) x (filter p xs) P h.0 (All-filter p P xs h.1)

pub filter-All :
    {A : Type 0} (p : A → Bool) (P : A → Type 0) (xs : List A) → All P xs → All P (filter p xs)
filter-All p P [] h = tt
filter-All p P (x ∷ xs) h = filter-if (p x) x (filter p xs) P (λ _. h.0) (filter-All p P xs h.1)

Ascends-if :
    {A : Type 0} (cmp : A → A → Ordering) (b : Bool) (x : A) (xs : List A)
    → All (λ y. cmp x y ≡ Ordering.lt) xs
    → Ascends cmp xs
    → Ascends cmp (if b then x ∷ xs else xs)
Ascends-if cmp true x xs h rest = (h, rest)
Ascends-if cmp false x xs h rest = rest

pub Ascends-filter :
    {A : Type 0} (cmp : A → A → Ordering) (p : A → Bool) (xs : List A)
    → Ascends cmp xs
    → Ascends cmp (filter p xs)
Ascends-filter cmp p [] h = tt
Ascends-filter cmp p (x ∷ xs) h =
    Ascends-if cmp (p x) x (filter p xs) (filter-All p (λ y. cmp x y ≡ Ordering.lt) xs h.0)
      (Ascends-filter cmp p xs h.1)

module _ {ℓ} {A : Type ℓ} (key : A → ℕ) where
  -- The elements of group `i`, how many they are, and how many elements have a lower group.
  abbrev pub group : ℕ → List A → List A
  group i xs = filter (λ x. key x == i) xs

  abbrev pub tally : ℕ → List A → ℕ
  tally i xs = length (group i xs)

  abbrev pub below : ℕ → List A → ℕ
  below i xs = length (filter (λ x. ltb (key x) i) xs)

  abbrev pub Rises : List A → Type ℓ
  Rises [] = Unit
  Rises (x ∷ xs) = All (λ y. key x ≤ key y) xs × Rises xs

  pub below-zero : (xs : List A) → below 0 xs ≡ 0
  below-zero [] = refl
  below-zero (x ∷ xs) = ground (arith, below-zero xs)

  pub below-suc : (i : ℕ) (xs : List A) → below (suc i) xs ≡ below i xs + tally i xs
  below-suc i [] = refl
  below-suc i (x ∷ xs) = ground (arith, below-suc i xs)

  pub below-le : (i : ℕ) (xs : List A) → below i xs ≤ length xs
  below-le i [] = omega arith
  below-le i (x ∷ xs) = ground (arith, below-le i xs)

  below-none :
      (i : ℕ) (x : A) (xs : List A) → i ≤ key x → All (λ y. key x ≤ key y) xs → below i xs ≡ 0
  below-none i x [] h all = refl
  below-none i x (y ∷ ys) h all = ground (arith, all.0, below-none i x ys h all.1)

  group-none :
      (i : ℕ) (x : A) (xs : List A) → i < key x → All (λ y. key x ≤ key y) xs → group i xs ≡ []
  group-none i x [] h all = refl
  group-none i x (y ∷ ys) h all = ground (arith, all.0, group-none i x ys h all.1)

  -- In a rising list a group is a slice.
  pub take-drop-group :
      (i : ℕ) (xs : List A) → Rises xs → take (tally i xs) (drop (below i xs) xs) ≡ group i xs
  take-drop-group i [] h = refl
  take-drop-group i (x ∷ xs) h =
      ground (arith, take-drop-group i xs h.1, below-none i x xs, group-none i x xs, h.0)

  pub below-length : (n : ℕ) (xs : List A) → All (λ x. key x < n) xs → below n xs ≡ length xs
  below-length n [] h = refl
  below-length n (x ∷ xs) h = ground (arith, below-length n xs h.1, h.0)
