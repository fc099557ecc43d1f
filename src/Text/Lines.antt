-- ===== src/Text/Lines.antt =====
-- `lines`, `strip_suffix` and `trim_end_matches` with a character.
use vesc_mcp.Prelude.{ℕ, List, [], ◌∷◌, Option, none, some, ◌==◌, if◌then◌else◌}
use vesc_mcp.Text.{Text}
use vesc_mcp.Text.Split.{split}

abbrev cons_some : ℕ → Option Text → Option Text
cons_some x none = none
cons_some x (some t) = some (x ∷ t)

unfoldable pub strip_suffix : ℕ → Text → Option Text
strip_suffix c [] = none
strip_suffix c (x ∷ []) = if x == c then some [] else none
strip_suffix c (x ∷ y ∷ t) = cons_some x (strip_suffix c (y ∷ t))

abbrev drop_last : ℕ → ℕ → Text → Text
drop_last c x [] = if x == c then [] else x ∷ []
drop_last c x (y ∷ t) = x ∷ y ∷ t

unfoldable pub trim_end_matches : ℕ → Text → Text
trim_end_matches c [] = []
trim_end_matches c (x ∷ t) = drop_last c x (trim_end_matches c t)

abbrev without_return : Text → Text
without_return t = elim (strip_suffix b'\r' t) [ none ↦ t | some s ↦ s ]

-- Of the parts between line feeds, the last is a line only if it is not empty, and it alone keeps a
-- carriage return.
abbrev pub end_lines : List Text → List Text
end_lines [] = []
end_lines ([] ∷ []) = []
end_lines ((x ∷ t) ∷ []) = (x ∷ t) ∷ []
end_lines (p ∷ q ∷ ps) = without_return p ∷ end_lines (q ∷ ps)

unfoldable pub lines : Text → List Text
unfolding strip_suffix split
lines t = end_lines (split b'\n' t)
