-- ===== src/Prelude/Outcome.antt =====
-- Rust's `Result`, with `?` as the bind of a `do` block.
use mathlib.Core.Path.{◌≡◌, refl, subst}
use mathlib.Core.Bool.{Bool, true, false}
use mathlib.Core.Option.{Option, none, some}

pub data Result {ℓ} (E : Type 0) (A : Type ℓ) : Type ℓ where
  ok : A → Result E A
  err : E → Result E A

-- An error leaves the block; a value is handed to what follows.
infixl 5 ◌>>=◌
abbrev pub ◌>>=◌ {ℓ κ} :
    {E : Type 0} {A : Type ℓ} {B : Type κ} → Result E A → (A → Result E B) → Result E B
err e >>= next = err e
ok a >>= next = next a

infixl 5 ◌>>◌
abbrev pub ◌>>◌ {ℓ} : {E : Type 0} {B : Type ℓ} → Result E (Unit {0}) → Result E B → Result E B
check >> next = check >>= λ _. next

-- `if !test { return Err(e); }`
abbrev pub guard : {E : Type 0} → Bool → E → Result E (Unit {0})
guard true e = ok tt
guard false e = err e

abbrev pub ok_or {ℓ} : {E : Type 0} {A : Type ℓ} → Option A → E → Result E A
ok_or none e = err e
ok_or (some a) e = ok a

abbrev pub map_err {ℓ} : {E F : Type 0} {A : Type ℓ} → (E → F) → Result E A → Result F A
map_err f (ok a) = ok a
map_err f (err e) = err (f e)

err-ne-ok {ℓ} : {E : Type 0} {A : Type ℓ} {e : E} {a : A} → ◌≡◌ {A = Result E A} (err e) (ok a) → ⊥
err-ne-ok h = cc

pub ok-injective {ℓ} :
    {E : Type 0} {A : Type ℓ} {a b : A} → ◌≡◌ {A = Result E A} (ok a) (ok b) → a ≡ b
ok-injective h = cc

-- A bind that succeeds has succeeded twice.
pub bind-ok {ℓ κ} :
    {E : Type 0} {A : Type ℓ} {B : Type κ} (m : Result E A) (f : A → Result E B) {b : B}
    → (m >>= f) ≡ ok b
    → (a : A) × (m ≡ ok a) × (f a ≡ ok b)
bind-ok (ok a) f h = (a, refl, h)
bind-ok (err e) f h = absurd (err-ne-ok h)

-- Every successful result satisfies `P`.
pub record Ensures {ℓ κ} {E : Type 0} {A : Type ℓ} (P : A → Type κ) (r : Result E A)
    : Type (ℓ ⊔ κ) where
  pub at : (a : A) → r ≡ ok a → P a

module _ {ℓ κ} {E : Type 0} {A : Type ℓ} {P : A → Type κ} where
  pub Ensures-ok : (a : A) → P a → Ensures {E = E} P (ok a)
  Ensures-ok a h = record { at = λ b e. subst P (ok-injective e) h }

  pub Ensures-err : (e : E) → Ensures P (err e)
  Ensures-err e = record { at = λ b h. absurd (err-ne-ok h) }

  pub Ensures-guard :
      (b : Bool) (e : E) (m : Result E A) → (b ≡ true → Ensures P m) → Ensures P (guard b e >> m)
  Ensures-guard true e m h = h refl
  Ensures-guard false e m h = Ensures-err e

module _ {ℓ κ μ} {E : Type 0} {A : Type ℓ} {B : Type κ} {P : B → Type μ} where
  pub Ensures-bind :
      (m : Result E A) (f : A → Result E B)
      → ((a : A) → m ≡ ok a → Ensures P (f a))
      → Ensures P (m >>= f)
  Ensures-bind (ok a) f h = h a refl
  Ensures-bind (err e) f h = Ensures-err e

  pub Ensures-ok_or :
      (o : Option A) (e : E) (f : A → Result E B)
      → ((a : A) → o ≡ some a → Ensures P (f a))
      → Ensures P (ok_or o e >>= f)
  Ensures-ok_or none e f h = Ensures-err e
  Ensures-ok_or (some a) e f h = h a refl
