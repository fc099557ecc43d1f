-- ===== src/Domain/PkgDesc/Accepts.antt =====
-- Exactly which texts `parse_pkgdesc_qml` of crates/vesc-domain/src/pkgdesc/parse.rs accepts, and with
-- which descriptor.
use vesc_mcp.Prelude.{
  ℕ, ◌+◌, ◌≡◌, refl, sym, ap, ◌∙◌, Option-cases, false, List, [], ◌∷◌, Option, none, some, inl, inr,
  arith, ok, Ensures, Ensures-ok, Ensures-err, Ensures-bind, Bool-cases,
}
use vesc_mcp.Text.{Text, text_eq_iff, text_eq_refl}
use mathlib.Core.Path.{subst}
use vesc_mcp.Map.{Map, get, insert, contains_key, get-insert}
use vesc_mcp.Domain.PkgDesc.Property.{
  Declared, nothing_left, skipped, declaring, line_property-read, line_property-IsProperty,
}
use vesc_mcp.Domain.PkgDesc.{PropertyValue, line_property, extract_line, extract_loop}

abbrev cons_some {ℓ} : {A : Type ℓ} → Option A → List A → List A
cons_some none xs = xs
cons_some (some x) xs = x ∷ xs

-- The properties that the lines declare, in their order.
abbrev pub declared : List Text → Map PropertyValue
declared [] = []
declared (l ∷ ls) = cons_some (line_property l) (declared ls)

-- These are the declarations that the lines make by their form.
pub declared-Declared : (ls : List Text) → Declared ls (declared ls)
declared-Declared [] = nothing_left
declared-Declared (l ∷ ls) = elim (Option-cases (line_property l)) [
  | inl absent ↦
      rw absent (skipped (λ p is. cc (sym absent ∙ line_property-read l is)) (declared-Declared ls))
  | inr (p, found) ↦ rw found (declaring (line_property-IsProperty l found) (declared-Declared ls))
]

pub Declared-declared :
    {ls : List Text} {ds : Map PropertyValue} → Declared ls ds → declared ls ≡ ds
Declared-declared nothing_left = refl
Declared-declared (skipped {line} none_is d) = elim (Option-cases (line_property line)) [
  | inl absent ↦ rw absent (Declared-declared d)
  | inr (p, found) ↦ absurd (none_is p (line_property-IsProperty line found))
]
Declared-declared (declaring {line} {p = p} is d) =
    rw (line_property-read line is) (ap (λ ds. p ∷ ds) (Declared-declared d))

-- No name is declared twice.
abbrev pub AreDistinct : Map PropertyValue → Type 0
AreDistinct [] = Unit
AreDistinct ((n, v) ∷ ds) = (get n ds ≡ none) × AreDistinct ds

abbrev pub or_else {ℓ} : {A : Type ℓ} → Option A → Option A → Option A
or_else none o = o
or_else (some a) o = some a

-- `r` holds the declarations `ds` and the properties of `m`.
pub record Adds (m ds r : Map PropertyValue) : Type 0 where
  pub fresh : (k : Text) (v : PropertyValue) → get k ds ≡ some v → get k m ≡ none
  pub distinct : AreDistinct ds
  pub holds : (k : Text) → get k r ≡ or_else (get k ds) (get k m)

Adds-nil : (m : Map PropertyValue) → Adds m [] m
unfolding get
Adds-nil m = record { fresh = λ k v h. cc; distinct = tt; holds = λ k. refl }

module _ (m : Map PropertyValue) {ds r : Map PropertyValue} (n : Text) (v : PropertyValue)
    (new : get n m ≡ none) (a : Adds (insert n v m) ds r) where
  Adds-absent : (o : Option PropertyValue) → get n ds ≡ o → o ≡ none
  Adds-absent none e = refl
  Adds-absent (some w) e = ground (arith, a.fresh n w e, get-insert n n v m, text_eq_refl n)

  Adds-cons : Adds m ((n, v) ∷ ds) r
  unfolding get
  Adds-cons = record {
    fresh = λ k w h. ground (arith, a.fresh k w, get-insert n k v m, text_eq_iff n k);
    distinct = (Adds-absent (get n ds) refl, a.distinct);
    holds = λ k.
        ground (arith, a.holds k, get-insert n k v m, text_eq_iff n k, Adds-absent (get n ds) refl);
  }

get-eq_none : (k : Text) (m : Map PropertyValue) → contains_key k m ≡ false → get k m ≡ none
unfolding contains_key
get-eq_none k m h = ground arith

-- One line keeps the map or adds a new name to it.
abbrev Extended : Map PropertyValue → Option (Text × PropertyValue) → Map PropertyValue → Type 0
Extended m none out = out ≡ m
Extended m (some (n, v)) out = (get n m ≡ none) × (out ≡ insert n v m)

extract_line-Ensures :
    (path : Text) (i : ℕ) (o : Option (Text × PropertyValue)) (m : Map PropertyValue)
    → Ensures (Extended m o) (extract_line path i o m)
unfolding extract_line
extract_line-Ensures path i none m = Ensures-ok m refl
extract_line-Ensures path i (some (n, v)) m = elim (Bool-cases (contains_key n m)) [
  | inl old ↦ rw old (Ensures-err _)
  | inr new ↦ rw new (Ensures-ok _ (get-eq_none n m new, refl))
]

Adds-line :
    (m : Map PropertyValue) (o : Option (Text × PropertyValue)) (ds out r : Map PropertyValue)
    → Extended m o out
    → Adds out ds r
    → Adds m (cons_some o ds) r
Adds-line m none ds out r e a = subst (λ x. Adds x ds r) e a
Adds-line m (some (n, v)) ds out r e a = Adds-cons m n v e.0 (subst (λ x. Adds x ds r) e.1 a)

-- The properties that the loop collects.
pub extract_loop-Ensures :
    (path : Text) (i : ℕ) (ls : List Text) (m : Map PropertyValue)
    → Ensures (Adds m (declared ls)) (extract_loop path i ls m)
unfolding extract_loop
extract_loop-Ensures path i [] m = Ensures-ok m (Adds-nil m)
extract_loop-Ensures path i (l ∷ ls) m =
    Ensures-bind (extract_line path i (line_property l) m) _ λ out lined. record {
      at = λ r run.
          Adds-line m (line_property l) (declared ls) out r
            ((extract_line-Ensures path i (line_property l) m).at out lined)
            ((extract_loop-Ensures path (i + 1) ls out).at r run);
    }

-- Names that are not in the map.
abbrev pub AreNew : Map PropertyValue → Map PropertyValue → Type 0
AreNew ds m = (k : Text) (v : PropertyValue) → get k ds ≡ some v → get k m ≡ none

AreNew-insert :
    (n : Text) (v : PropertyValue) (ds m : Map PropertyValue)
    → AreDistinct ((n, v) ∷ ds)
    → AreNew ((n, v) ∷ ds) m
    → AreNew ds (insert n v m)
unfolding get
AreNew-insert n v ds m d f k w h = ground (arith, f k w, get-insert n k v m, text_eq_iff n k, d.0)

extract_line-ok :
    (path : Text) (i : ℕ) (o : Option (Text × PropertyValue)) (ds m : Map PropertyValue)
    → AreDistinct (cons_some o ds)
    → AreNew (cons_some o ds) m
    → (out : Map PropertyValue) × (extract_line path i o m ≡ ok out)
      × AreDistinct ds
      × AreNew ds out
unfolding extract_line
extract_line-ok path i none ds m d f = (m, refl, d, f)
extract_line-ok path i (some (n, v)) ds m d f =
    (insert n v m, rw (absent n m (f n v first)) refl, d.1, AreNew-insert n v ds m d f)
  where
    first : get n ((n, v) ∷ ds) ≡ some v
    first = unfold get in rw (text_eq_refl n) refl

    absent : (k : Text) (p : Map PropertyValue) → get k p ≡ none → contains_key k p ≡ false
    absent k p e = unfold contains_key in rw e refl

-- With distinct names that are new, the loop succeeds.
pub extract_loop-ok :
    (path : Text) (i : ℕ) (ls : List Text) (m : Map PropertyValue)
    → AreDistinct (declared ls)
    → AreNew (declared ls) m
    → (r : Map PropertyValue) × (extract_loop path i ls m ≡ ok r)
unfolding extract_loop
extract_loop-ok path i [] m d f = (m, refl)
extract_loop-ok path i (l ∷ ls) m d f =
    let (out, lined, d', f') = extract_line-ok path i (line_property l) (declared ls) m d f in
    let (r, run) = extract_loop-ok path (i + 1) ls out d' f' in (r, rw lined run)
