-- ===== src/Prelude/Order.antt =====
-- Rust's `Ord`: comparisons into `Ordering`, chained by `then_with`.
use Prim.Native.Nat.{compare, Ordering}
use mathlib.Core.Path.{◌≡◌}
use mathlib.Core.Bool.{Bool, true, false, ◌&&◌}
use mathlib.Core.List.{List, [], ◌∷◌}
use native.Mathlib.Omega.{arith}
use vesc_mcp.Prelude.Lists.{All}

abbrev pub then_cmp : Ordering → Ordering → Ordering
then_cmp Ordering.eq o = o
then_cmp o _ = o

-- `false` is below `true`.
abbrev pub bool_cmp : Bool → Bool → Ordering
bool_cmp false true = Ordering.lt
bool_cmp true false = Ordering.gt
bool_cmp _ _ = Ordering.eq

abbrev pub is_lt : Ordering → Bool
is_lt Ordering.lt = true
is_lt _ = false

-- `windows(2).any(|pair| pair[0] >= pair[1])` finds nothing.
abbrev pub strictly_sorted {ℓ} : {A : Type ℓ} → (A → A → Ordering) → List A → Bool
strictly_sorted cmp [] = true
strictly_sorted cmp (a ∷ []) = true
strictly_sorted cmp (a ∷ b ∷ bs) = is_lt (cmp a b) && strictly_sorted cmp (b ∷ bs)

abbrev pub reverse : Ordering → Ordering
reverse Ordering.lt = Ordering.gt
reverse Ordering.eq = Ordering.eq
reverse Ordering.gt = Ordering.lt

-- A comparison that is a strict order up to what it takes for equal.
pub record IsOrder {ℓ} {A : Type ℓ} (cmp : A → A → Ordering) : Type ℓ where
  pub lt_trans : (a b c : A) → cmp a b ≡ Ordering.lt → cmp b c ≡ Ordering.lt → cmp a c ≡ Ordering.lt
  pub eq_left : (a b c : A) → cmp a b ≡ Ordering.eq → cmp a c ≡ cmp b c
  pub eq_right : (a b c : A) → cmp b c ≡ Ordering.eq → cmp a b ≡ cmp a c
  pub reversed : (a b : A) → cmp b a ≡ reverse (cmp a b)

pub compare-IsOrder : IsOrder compare
compare-IsOrder = record {
  lt_trans = λ a b c. ground arith;
  eq_left = λ a b c. ground arith;
  eq_right = λ a b c. ground arith;
  reversed = λ a b. ground arith;
}

pub bool_cmp-IsOrder : IsOrder bool_cmp
bool_cmp-IsOrder = record {
  lt_trans = λ a b c. ground arith;
  eq_left = λ a b c. ground arith;
  eq_right = λ a b c. ground arith;
  reversed = λ a b. ground arith;
}

module _ {ℓ} {A : Type ℓ} {p q : A → A → Ordering} where
  pub then_cmp-IsOrder : IsOrder p → IsOrder q → IsOrder (λ a b. then_cmp (p a b) (q a b))
  then_cmp-IsOrder P Q = record {
    lt_trans = λ a b c.
        ground (arith, P.lt_trans a b c, P.eq_left a b c, P.eq_right a b c, Q.lt_trans a b c);
    eq_left = λ a b c. ground (arith, P.eq_left a b c, Q.eq_left a b c);
    eq_right = λ a b c. ground (arith, P.eq_right a b c, Q.eq_right a b c);
    reversed = λ a b. ground (arith, P.reversed a b, Q.reversed a b);
  }

pub on-IsOrder {ℓ κ} :
    {A : Type ℓ} {B : Type κ} {cmp : B → B → Ordering} (f : A → B)
    → IsOrder cmp
    → IsOrder (λ a b. cmp (f a) (f b))
on-IsOrder f O = record {
  lt_trans = λ a b c. O.lt_trans (f a) (f b) (f c);
  eq_left = λ a b c. O.eq_left (f a) (f b) (f c);
  eq_right = λ a b c. O.eq_right (f a) (f b) (f c);
  reversed = λ a b. O.reversed (f a) (f b);
}

-- Each element is below every later one.
abbrev pub Ascends {ℓ} : {A : Type ℓ} → (A → A → Ordering) → List A → Type ℓ
Ascends cmp [] = Unit
Ascends cmp (x ∷ xs) = All (λ y. cmp x y ≡ Ordering.lt) xs × Ascends cmp xs

module _ {ℓ} {A : Type ℓ} {cmp : A → A → Ordering} (O : IsOrder cmp) where
  pub All-lt_trans :
      (a b : A) (xs : List A)
      → cmp a b ≡ Ordering.lt
      → All (λ y. cmp b y ≡ Ordering.lt) xs
      → All (λ y. cmp a y ≡ Ordering.lt) xs
  All-lt_trans a b [] h all = tt
  All-lt_trans a b (x ∷ xs) h all = (O.lt_trans a b x h all.0, All-lt_trans a b xs h all.1)

  pub strictly_sorted-Ascends : (xs : List A) → strictly_sorted cmp xs ≡ true → Ascends cmp xs
  strictly_sorted-Ascends [] h = tt
  strictly_sorted-Ascends (a ∷ []) h = (tt, tt)
  strictly_sorted-Ascends (a ∷ b ∷ bs) h =
      let first : cmp a b ≡ Ordering.lt = ground (arith, h) in
      let rest = strictly_sorted-Ascends (b ∷ bs) (ground (arith, h)) in
      ((first, All-lt_trans a b bs first rest.0), rest)
