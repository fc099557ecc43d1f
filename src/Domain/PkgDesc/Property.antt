-- ===== src/Domain/PkgDesc/Property.antt =====
-- The lines that declare a property, for crates/vesc-domain/src/pkgdesc/parse.rs.
use mathlib.Core.Path.{subst}
use mathlib.Core.Option.{some-injective}
use vesc_mcp.Prelude.{
  ℕ, ◌≡◌, refl, ap, ◌∙◌, true, false, if◌then◌else◌, List, [], ◌∷◌, ◌++◌, Option, none, some, inl,
  inr, arith, Bool-cases, Option-cases, ==_iff,
}
use vesc_mcp.Text.{Text, codes, text_eq, text_eq_iff, trim, is_empty, contains_char}
use vesc_mcp.Text.Split.{
  strip_prefix, split_once, strip_prefix-eq_some, Splits, split_once-Splits, split_once-append,
}
use vesc_mcp.Text.Lines.{strip_suffix, trim_end_matches}
use vesc_mcp.Map.{Map}
use vesc_mcp.Domain.PkgDesc.{
  PropertyValue, text, bool, ◌>>?◌, parse_quoted_string, property_value, parse_property_line,
  line_property,
}

-- What stands behind the colon, without the white space around it and the semicolons at its end.
abbrev pub value_of : Text → Text
value_of tail = trim (trim_end_matches b';' (trim tail))

-- The line declares the property with this name and this value.
pub data IsProperty (line : Text) : Text × PropertyValue → Type 0 where
  is_string :
      (name tail value : Text)
      → trim line ≡ codes "property string " ++ (name ++ (b':' ∷ tail))
      → contains_char b':' name ≡ false
      → value_of tail ≡ b'"' ∷ (value ++ (b'"' ∷ []))
      → IsProperty line (trim name, text value)
  is_true :
      (name tail : Text)
      → trim line ≡ codes "property bool " ++ (name ++ (b':' ∷ tail))
      → contains_char b':' name ≡ false
      → value_of tail ≡ codes "true"
      → IsProperty line (trim name, bool true)
  is_false :
      (name tail : Text)
      → trim line ≡ codes "property bool " ++ (name ++ (b':' ∷ tail))
      → contains_char b':' name ≡ false
      → value_of tail ≡ codes "false"
      → IsProperty line (trim name, bool false)

strip_suffix-append : (c : ℕ) (t : Text) → strip_suffix c (t ++ (c ∷ [])) ≡ some t
unfolding strip_suffix
strip_suffix-append c [] = ground (arith, (==_iff c c).1 refl)
strip_suffix-append c (x ∷ []) = ground (arith, strip_suffix-append c [])
strip_suffix-append c (x ∷ y ∷ t) = ground (arith, strip_suffix-append c (y ∷ t))

strip_suffix-eq_some : (c : ℕ) (t : Text) {s : Text} → strip_suffix c t ≡ some s → t ≡ s ++ (c ∷ [])
unfolding strip_suffix
strip_suffix-eq_some c [] h = cc h
strip_suffix-eq_some c (x ∷ []) h = ground (arith, h)
strip_suffix-eq_some c (x ∷ y ∷ t) {s} h = elim (Option-cases (strip_suffix c (y ∷ t))) [
  | inl absent ↦ ground (arith, h, absent)
  | inr (r, found) ↦
      ap (λ u. x ∷ u) (strip_suffix-eq_some c (y ∷ t) found)
      ∙ ap (λ u. u ++ (c ∷ [])) (some-injective (x ∷ r) s (rw found at h))
]

bind-eq_some {ℓ κ} :
    {A : Type ℓ} {B : Type κ} (m : Option A) (f : A → Option B) {b : B}
    → (m >>? f) ≡ some b
    → (a : A) × (m ≡ some a) × (f a ≡ some b)
bind-eq_some none f h = cc h
bind-eq_some (some a) f h = (a, refl, h)

parse_property_line-read :
    (name tail : Text)
    → contains_char b':' name ≡ false
    → (parse_property_line (codes "property string " ++ (name ++ (b':' ∷ tail)))
        ≡ property_value (codes "string") (trim name) (value_of tail))
      × (parse_property_line (codes "property bool " ++ (name ++ (b':' ∷ tail)))
          ≡ property_value (codes "bool") (trim name) (value_of tail))
unfolding parse_property_line strip_prefix split_once
parse_property_line-read name tail free = (
  rw (split_once-append b':' name tail free) refl,
  rw (split_once-append b':' name tail free) refl,
)

-- A line that starts as a declaration is not skipped.
unskipped :
    (t rest : Text)
    → t ≡ codes "property " ++ rest
    → (if is_empty t then none else elim (strip_prefix (codes "//") t) [
      | some comment ↦ none
      | none ↦ parse_property_line t
    ])
      ≡ parse_property_line t
unfolding is_empty strip_prefix
unskipped t rest e = rw e (ap parse_property_line e)

module _ (line : Text) where
  -- A line that declares a property is read as that.
  pub line_property-read :
      {p : Text × PropertyValue} → IsProperty line p → line_property line ≡ some p
  unfolding line_property property_value parse_quoted_string text_eq strip_prefix
  line_property-read (is_string name tail value e free v) =
      unskipped (trim line) (codes "string " ++ (name ++ (b':' ∷ tail))) e
      ∙ ap parse_property_line e
      ∙ (parse_property_line-read name tail free).0
      ∙ rw v (rw (strip_suffix-append b'"' value) refl)
  line_property-read (is_true name tail e free v) =
      unskipped (trim line) (codes "bool " ++ (name ++ (b':' ∷ tail))) e
      ∙ ap parse_property_line e
      ∙ (parse_property_line-read name tail free).1
      ∙ rw v refl
  line_property-read (is_false name tail e free v) =
      unskipped (trim line) (codes "bool " ++ (name ++ (b':' ∷ tail))) e
      ∙ ap parse_property_line e
      ∙ (parse_property_line-read name tail free).1
      ∙ rw v refl

  -- The kinds and the values that are accepted.
  quoted-IsProperty :
      (name tail : Text) {p : Text × PropertyValue}
      → trim line ≡ codes "property string " ++ (name ++ (b':' ∷ tail))
      → contains_char b':' name ≡ false
      → (parse_quoted_string (value_of tail) >>? λ value. some (trim name, text value)) ≡ some p
      → IsProperty line p
  unfolding parse_quoted_string
  quoted-IsProperty name tail {p} e free h =
      let (value, quoted, is) = bind-eq_some (parse_quoted_string (value_of tail)) _ h in
      let (inner, opened, closed) =
        bind-eq_some (strip_prefix (b'"' ∷ []) (value_of tail)) _ quoted in
      subst (IsProperty line) (some-injective (trim name, text value) p is) (
        is_string name tail value e free (
          strip_prefix-eq_some (b'"' ∷ []) (value_of tail) opened
          ∙ ap (λ t. b'"' ∷ t) (strip_suffix-eq_some b'"' inner closed)))

  flag-IsProperty :
      (name tail : Text) {p : Text × PropertyValue}
      → trim line ≡ codes "property bool " ++ (name ++ (b':' ∷ tail))
      → contains_char b':' name ≡ false
      → property_value (codes "bool") (trim name) (value_of tail) ≡ some p
      → IsProperty line p
  unfolding property_value text_eq
  flag-IsProperty name tail {p} e free h =
      elim (Bool-cases (text_eq (value_of tail) (codes "true"))) [
        | inl held ↦
            subst (IsProperty line) (some-injective (trim name, bool true) p (rw held at h))
              (is_true name tail e free ((text_eq_iff _ (codes "true")).0 held))
        | inr other ↦ elim (Bool-cases (text_eq (value_of tail) (codes "false"))) [
          | inl denied ↦
              subst (IsProperty line)
                (some-injective (trim name, bool false) p (rw (other, denied) at h))
                (is_false name tail e free ((text_eq_iff _ (codes "false")).0 denied))
          | inr neither ↦ cc (rw (other, neither) at h)
        ]
      ]

  value-IsProperty :
      (kind name tail : Text) {p : Text × PropertyValue}
      → trim line ≡ codes "property " ++ (kind ++ (b' ' ∷ (name ++ (b':' ∷ tail))))
      → contains_char b':' name ≡ false
      → property_value kind (trim name) (value_of tail) ≡ some p
      → IsProperty line p
  unfolding property_value
  value-IsProperty kind name tail {p} e free h = elim (Bool-cases (text_eq kind (codes "string"))) [
    | inl string ↦
        quoted-IsProperty name tail
          (e
            ∙ ap (λ k. codes "property " ++ (k ++ (b' ' ∷ (name ++ (b':' ∷ tail)))))
                ((text_eq_iff kind (codes "string")).0 string))
          free (rw string at h)
    | inr other ↦ elim (Bool-cases (text_eq kind (codes "bool"))) [
      | inl flag ↦
          let kind_is = (text_eq_iff kind (codes "bool")).0 flag in
          flag-IsProperty name tail
            (e ∙ ap (λ k. codes "property " ++ (k ++ (b' ' ∷ (name ++ (b':' ∷ tail))))) kind_is)
            free (subst (λ k. property_value k (trim name) (value_of tail) ≡ some p) kind_is h)
      | inr neither ↦ cc (rw (other, neither) at h)
    ]
  ]

  parsed-IsProperty :
      {p : Text × PropertyValue} → parse_property_line (trim line) ≡ some p → IsProperty line p
  unfolding parse_property_line
  parsed-IsProperty {p} h =
      let (rest, headed, h1) = bind-eq_some (strip_prefix (codes "property ") (trim line)) _ h in
      let (kind, spaced, h2) = bind-eq_some (split_once b' ' rest) _ h1 in
      let (name, coloned, h3) = bind-eq_some (split_once b':' kind.1) _ h2 in
      let around_space = subst (Splits b' ' rest) spaced (split_once-Splits b' ' rest) in
      let around_colon = subst (Splits b':' kind.1) coloned (split_once-Splits b':' kind.1) in
      value-IsProperty kind.0 name.0 name.1
        (strip_prefix-eq_some (codes "property ") (trim line) headed
          ∙ ap (λ r. codes "property " ++ r)
              (around_space.0 ∙ ap (λ r. kind.0 ++ (b' ' ∷ r)) around_colon.0))
        around_colon.1 h3

  pub line_property-IsProperty :
      {p : Text × PropertyValue} → line_property line ≡ some p → IsProperty line p
  unfolding line_property
  line_property-IsProperty {p} h =
      let parsed : parse_property_line (trim line) ≡ some p = ground (arith, h) in
      parsed-IsProperty parsed

-- What some lines declare, in their order: the lines that declare no property are skipped.
pub data Declared : List Text → Map PropertyValue → Type 0 where
  nothing_left : Declared [] []
  skipped :
      {line : Text} {lines : List Text} {ds : Map PropertyValue}
      → ((p : Text × PropertyValue) → ¬ IsProperty line p)
      → Declared lines ds
      → Declared (line ∷ lines) ds
  declaring :
      {line : Text} {lines : List Text} {p : Text × PropertyValue} {ds : Map PropertyValue}
      → IsProperty line p
      → Declared lines ds
      → Declared (line ∷ lines) (p ∷ ds)
