-- ===== src/Text/Split.antt =====
-- Searching and splitting: `strip_prefix`, `strip_suffix`, `split_once`, `split`.
use vesc_mcp.Prelude.{
  ℕ, ◌≡◌, refl, ap, false, ◌||◌, List, [], ◌∷◌, ◌++◌, Option, none, some, arith, ◌==◌,
  if◌then◌else◌, Bool-cases, inl, inr, ==_iff, ◌∙◌,
}
use vesc_mcp.Text.{Text, contains_char}

unfoldable pub strip_prefix : Text → Text → Option Text
strip_prefix [] t = some t
strip_prefix (p ∷ ps) [] = none
strip_prefix (p ∷ ps) (c ∷ cs) = if p == c then strip_prefix ps cs else none

pub strip_prefix-append : (p t : Text) → strip_prefix p (p ++ t) ≡ some t
unfolding strip_prefix
strip_prefix-append [] t = refl
strip_prefix-append (c ∷ p) t = ground (arith, strip_prefix-append p t)

-- What is stripped was there.
pub strip_prefix-eq_some : (p t : Text) {r : Text} → strip_prefix p t ≡ some r → t ≡ p ++ r
unfolding strip_prefix
strip_prefix-eq_some [] t h = ground arith
strip_prefix-eq_some (c ∷ p) [] h = ground arith
strip_prefix-eq_some (c ∷ p) (d ∷ t) {r} h = ground (arith, strip_prefix-eq_some p t {r = r})

abbrev cons_left : ℕ → Option (Text × Text) → Option (Text × Text)
cons_left x none = none
cons_left x (some (a, b)) = some (x ∷ a, b)

-- `split_once(c)`: around the first occurrence of a character.
unfoldable pub split_once : ℕ → Text → Option (Text × Text)
split_once c [] = none
split_once c (x ∷ xs) =
    let rest = split_once c xs in if x == c then some ([], xs) else cons_left x rest

pub split_once-append :
    (c : ℕ) (a b : Text) → contains_char c a ≡ false → split_once c (a ++ (c ∷ b)) ≡ some (a, b)
unfolding split_once contains_char
split_once-append c [] b h = ground arith
split_once-append c (x ∷ a) b h = ground (arith, split_once-append c a b)

pub split_once-free : (c : ℕ) (a : Text) → contains_char c a ≡ false → split_once c a ≡ none
unfolding split_once contains_char
split_once-free c [] h = refl
split_once-free c (x ∷ a) h = ground (arith, split_once-free c a)

abbrev pub Splits : ℕ → Text → Option (Text × Text) → Type 0
Splits c t none = contains_char c t ≡ false
Splits c t (some (a, b)) = (t ≡ a ++ (c ∷ b)) × (contains_char c a ≡ false)

cons_left-Splits :
    (c x : ℕ) (t : Text) (o : Option (Text × Text))
    → (x == c) ≡ false
    → Splits c t o
    → Splits c (x ∷ t) (cons_left x o)
unfolding contains_char
cons_left-Splits c x t none e h = ground arith
cons_left-Splits c x t (some (a, b)) e (h, k) = (ap (λ s. x ∷ s) h, ground arith)

pub split_once-Splits : (c : ℕ) (t : Text) → Splits c t (split_once c t)
unfolding split_once contains_char
split_once-Splits c [] = refl
split_once-Splits c (x ∷ t) = elim (Bool-cases (x == c)) [
  | inl e ↦ rw e (rw ((==_iff x c).0 e) refl, refl)
  | inr ne ↦ rw ne (cons_left-Splits c x t (split_once c t) ne (split_once-Splits c t))
]

-- `split_once(p)`: around the first occurrence of a text.
unfoldable pub split_once_text : Text → Text → Option (Text × Text)
split_once_text p [] = elim (strip_prefix p []) [ some r ↦ some ([], r) | none ↦ none ]
split_once_text p (x ∷ xs) =
    let rest = split_once_text p xs in
    elim (strip_prefix p (x ∷ xs)) [
      | some r ↦ some ([], r)
      | none ↦ elim rest [ none ↦ none | some (a, b) ↦ some (x ∷ a, b) ]
    ]

abbrev pub cons_head : ℕ → List Text → List Text
cons_head x [] = (x ∷ []) ∷ []
cons_head x (p ∷ ps) = (x ∷ p) ∷ ps

-- `split(c)`: never empty.
unfoldable pub split : ℕ → Text → List Text
split c [] = [] ∷ []
split c (x ∷ xs) = let rest = split c xs in if x == c then [] ∷ rest else cons_head x rest

pub split-free : (c : ℕ) (a : Text) → contains_char c a ≡ false → split c a ≡ a ∷ []
unfolding split contains_char
split-free c [] h = refl
split-free c (x ∷ a) h = ground (arith, split-free c a)

pub split-append :
    (c : ℕ) (a b : Text) → contains_char c a ≡ false → split c (a ++ (c ∷ b)) ≡ a ∷ split c b
unfolding split contains_char
split-append c [] b h = ground arith
split-append c (x ∷ a) b h = ground (arith, split-append c a b)

pub contains_char-append :
    (c : ℕ) (a b : Text) → contains_char c (a ++ b) ≡ (contains_char c a || contains_char c b)
unfolding contains_char
contains_char-append c [] b = refl
contains_char-append c (x ∷ a) b = ground (arith, contains_char-append c a b)

-- The parts of a text around a character: none of them holds it, and joined they are the text.
pub data Parts (c : ℕ) : Text → List Text → Type 0 where
  last : {a : Text} → contains_char c a ≡ false → Parts c a (a ∷ [])
  more :
      {a t u : Text} {ps : List Text}
      → contains_char c a ≡ false
      → Parts c t ps
      → u ≡ a ++ (c ∷ t)
      → Parts c u (a ∷ ps)

Parts-cons :
    (c x : ℕ) {t : Text} {ps : List Text}
    → (x == c) ≡ false
    → Parts c t ps
    → Parts c (x ∷ t) (cons_head x ps)
unfolding contains_char
Parts-cons c x ne (last h) = last (ground arith)
Parts-cons c x ne (more h p e) = more (ground arith) p (ap (λ s. x ∷ s) e)

pub split-Parts : (c : ℕ) (t : Text) → Parts c t (split c t)
unfolding split contains_char
split-Parts c [] = last refl
split-Parts c (x ∷ t) = elim (Bool-cases (x == c)) [
  | inl e ↦ rw e (more refl (split-Parts c t) (rw ((==_iff x c).0 e) refl))
  | inr ne ↦ rw ne (Parts-cons c x ne (split-Parts c t))
]

-- The parts are what `split` returns.
pub Parts-split : (c : ℕ) {t : Text} {ps : List Text} → Parts c t ps → split c t ≡ ps
Parts-split c (last {a} h) = split-free c a h
Parts-split c (more {a} {t} h p e) =
    ap (split c) e ∙ split-append c a t h ∙ ap (λ ps. a ∷ ps) (Parts-split c p)
