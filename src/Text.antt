-- ===== src/Text.antt =====
-- Rust's `str` as the list of its characters (Unicode scalar values). This file has equality, order,
-- the character classes and trimming; Text/Split searches and splits, Text/Utf8 goes to bytes.
pub mod Split
pub mod Utf8
pub mod Lines
pub mod Ascii
use Prim.Native.Char.{code}
use vesc_mcp.Prelude.{
  ℕ, zero, suc, ◌+◌, ◌/◌, ◌%◌, ◌++◌, ◌≡◌, refl, ◌↔◌, Bool, true, false, ◌&&◌, ◌||◌, List, [], ◌∷◌,
  Ordering, compare, arith, leb, ltb, ◌==◌, if◌then◌else◌, any, String, IsOrder, reverse,
}

abbrev pub Text : Type 0
Text = List ℕ

-- The characters of a literal.
abbrev pub codes : String → Text
codes String.[] = []
codes (String.◌∷◌ c s) = code c ∷ codes s

unfoldable pub text_eq : Text → Text → Bool
text_eq [] [] = true
text_eq (x ∷ xs) (y ∷ ys) = x == y && text_eq xs ys
text_eq _ _ = false

pub text_eq_iff : (a b : Text) → (text_eq a b ≡ true) ↔ (a ≡ b)
unfolding text_eq
text_eq_iff (x ∷ a) (y ∷ b) = ground (arith, text_eq_iff a b)
text_eq_iff _ _ = ground arith

pub text_eq_refl : (a : Text) → text_eq a a ≡ true
text_eq_refl a = (text_eq_iff a a).1 refl

-- `str` is ordered by its UTF-8 bytes, which is the order of its scalar values.
unfoldable pub text_cmp : Text → Text → Ordering
text_cmp [] [] = Ordering.eq
text_cmp [] (y ∷ ys) = Ordering.lt
text_cmp (x ∷ xs) [] = Ordering.gt
text_cmp (x ∷ xs) (y ∷ ys) = elim (compare x y) [
  | Ordering.eq ↦ text_cmp xs ys
  | Ordering.lt ↦ Ordering.lt
  | Ordering.gt ↦ Ordering.gt
]

pub text_cmp_iff : (a b : Text) → (text_cmp a b ≡ Ordering.eq) ↔ (a ≡ b)
unfolding text_cmp
text_cmp_iff (x ∷ a) (y ∷ b) = ground (arith, text_cmp_iff a b)
text_cmp_iff _ _ = ground arith

text_cmp-lt_trans :
    (a b c : Text)
    → text_cmp a b ≡ Ordering.lt
    → text_cmp b c ≡ Ordering.lt
    → text_cmp a c ≡ Ordering.lt
unfolding text_cmp
text_cmp-lt_trans (x ∷ a) (y ∷ b) (z ∷ c) = ground (arith, text_cmp-lt_trans a b c)
text_cmp-lt_trans _ _ _ = ground arith

text_cmp-reversed : (a b : Text) → text_cmp b a ≡ reverse (text_cmp a b)
unfolding text_cmp
text_cmp-reversed (x ∷ a) (y ∷ b) = ground (arith, text_cmp-reversed a b)
text_cmp-reversed _ _ = ground arith

pub text_cmp-IsOrder : IsOrder text_cmp
text_cmp-IsOrder = record {
  lt_trans = text_cmp-lt_trans;
  eq_left = λ a b c e. rw ((text_cmp_iff a b).0 e) refl;
  eq_right = λ a b c e. rw ((text_cmp_iff b c).0 e) refl;
  reversed = text_cmp-reversed;
}

abbrev pub within : ℕ → ℕ → ℕ → Bool
within lo hi c = leb lo c && leb c hi

-- `char::is_whitespace`: the property White_Space of Unicode.
unfoldable pub is_whitespace : ℕ → Bool
is_whitespace c =
    within 0x9 0xd c
    || c == 0x20
    || c == 0x85
    || c == 0xa0
    || c == 0x1680
    || within 0x2000 0x200a c
    || c == 0x2028
    || c == 0x2029
    || c == 0x202f
    || c == 0x205f
    || c == 0x3000

-- `char::is_control`: the category Cc.
unfoldable pub is_control : ℕ → Bool
is_control c = ltb c 0x20 || within 0x7f 0x9f c

unfoldable pub is_ascii_alphanumeric : ℕ → Bool
is_ascii_alphanumeric c = within b'0' b'9' c || within b'A' b'Z' c || within b'a' b'z' c

unfoldable pub is_ascii_hexdigit : ℕ → Bool
is_ascii_hexdigit c = within b'0' b'9' c || within b'A' b'F' c || within b'a' b'f' c

unfoldable pub is_empty : Text → Bool
is_empty [] = true
is_empty (x ∷ xs) = false

unfoldable pub contains_char : ℕ → Text → Bool
contains_char c t = any (λ x. x == c) t

unfoldable pub trim_start : Text → Text
trim_start [] = []
trim_start (c ∷ cs) = let rest = trim_start cs in if is_whitespace c then rest else c ∷ cs

abbrev pub trim_last : ℕ → Text → Text
trim_last c [] = if is_whitespace c then [] else c ∷ []
trim_last c (d ∷ ds) = c ∷ d ∷ ds

unfoldable pub trim_end : Text → Text
trim_end [] = []
trim_end (c ∷ cs) = trim_last c (trim_end cs)

unfoldable pub trim : Text → Text
unfolding trim_start trim_end is_whitespace
trim t = trim_end (trim_start t)

-- The decimal digits of a number with at most `fuel` of them.
unfoldable decimal : ℕ → ℕ → Text
decimal zero n = []
decimal (suc fuel) n =
    let rest = decimal fuel (n / 10) in
    if ltb n 10 then (b'0' + n) ∷ [] else rest ++ (b'0' + n % 10) ∷ []

-- `to_string` of a u32, which has ten digits at most.
unfoldable pub u32_to_string : ℕ → Text
unfolding decimal
u32_to_string n = decimal 10 n

-- No white space at either end, as a test on the text.
pub data IsTrimmed : Text → Type 0 where
  blank : IsTrimmed []
  framed :
      {c : ℕ} {cs : Text}
      → is_whitespace c ≡ false
      → trim_end (c ∷ cs) ≡ c ∷ cs
      → IsTrimmed (c ∷ cs)

pub trim-IsTrimmed : {t : Text} → IsTrimmed t → trim t ≡ t
unfolding trim
trim-IsTrimmed blank = refl
trim-IsTrimmed (framed {c} {cs} h e) = ground (arith, e)
