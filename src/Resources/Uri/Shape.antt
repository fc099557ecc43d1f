-- ===== src/Resources/Uri/Shape.antt =====
-- The shapes of the URIs that crates/vesc-mcp-core/src/resources/uri.rs parses and prints.
use vesc_mcp.Prelude.{ℕ, ◌≡◌, ◌≢◌, refl, true, false, [], ◌∷◌, ◌++◌, arith, any, All, ◌||◌, length}
use vesc_mcp.Text.{
  Text, codes, text_eq, trim, trim_end, is_empty, contains_char, is_whitespace, trim_last,
  is_ascii_hexdigit,
}
use vesc_mcp.Text.Split.{split_once_text, strip_prefix}
use vesc_mcp.Text.Ascii.{IsAscii}
use vesc_mcp.Resources.Uri.{
  ParsedResourceUri, catalog, knowledge_chunk, knowledge_document, knowledge_feedback,
  snapshot_knowledge_chunk, snapshot_knowledge_document, refloat_command, fixture_manifest,
  dynamic_manifest, parse_vesc_uri, parse_vescpkg_uri, parse_trimmed,
}

-- `trim` leaves a URI with a printing first character and a trimmed end.
pub trim_end-append : (s t : Text) → t ≢ [] → trim_end t ≡ t → trim_end (s ++ t) ≡ s ++ t
unfolding trim_end
trim_end-append [] t ne e = e
trim_end-append (c ∷ s) t ne e = rw (trim_end-append s t ne e) (cons s t ne)
  where
    cons : (s t : Text) → t ≢ [] → trim_last c (s ++ t) ≡ c ∷ (s ++ t)
    cons [] [] h = absurd (h refl)
    cons [] (d ∷ t') h = refl
    cons (d ∷ s') t' h = refl

-- A trimmed end stays trimmed behind any text.
pub record IsTail (t : Text) : Type 0 where
  pub filled : t ≢ []
  pub trimmed : trim_end t ≡ t

pub trim-append :
    (c : ℕ) (s t : Text) → is_whitespace c ≡ false → IsTail t → trim (c ∷ (s ++ t)) ≡ c ∷ (s ++ t)
unfolding trim
trim-append c s t h w = rw h (trim_end-append (c ∷ s) t w.filled w.trimmed)

-- What a scheme and its rest parse as.
pub scheme_vesc :
    (rest : Text)
    → parse_trimmed (codes "vesc://" ++ rest) ≡ parse_vesc_uri (codes "vesc://" ++ rest) rest
unfolding parse_trimmed split_once_text strip_prefix text_eq is_empty
scheme_vesc rest = refl

pub scheme_vescpkg :
    (rest : Text)
    → parse_trimmed (codes "vescpkg://" ++ rest)
      ≡ parse_vescpkg_uri (codes "vescpkg://" ++ rest) rest
unfolding parse_trimmed split_once_text strip_prefix text_eq is_empty
scheme_vescpkg rest = refl

pub IsPlain-trim_end : (t : Text) → All (λ c. is_whitespace c ≡ false) t → trim_end t ≡ t
unfolding trim_end
IsPlain-trim_end [] h = refl
IsPlain-trim_end (c ∷ t) h = rw (IsPlain-trim_end t h.1) (kept t)
  where
    kept : (t : Text) → trim_last c t ≡ c ∷ t
    kept [] = rw h.0 refl
    kept (d ∷ ds) = refl

-- An opaque id: not empty, with no slash and no white space.
abbrev pub IsToken : Text → Type 0
IsToken id =
    (is_empty id ≡ false) × (contains_char b'/' id ≡ false) × (any is_whitespace id ≡ false)

any-All : (t : Text) → any is_whitespace t ≡ false → All (λ c. is_whitespace c ≡ false) t
any-All [] h = tt
any-All (c ∷ t) h = (ground (arith, h), any-All t (ground (arith, h)))

pub IsTail-of_plain : (t : Text) → is_empty t ≡ false → any is_whitespace t ≡ false → IsTail t
unfolding is_empty
IsTail-of_plain [] e h = cc e
IsTail-of_plain (c ∷ t) e h = record {
  filled = λ x. cc x;
  trimmed = IsPlain-trim_end (c ∷ t) (any-All (c ∷ t) h);
}

-- An opaque id of a snapshot URI, behind 64 hexadecimal digits.
abbrev pub IsSnapshot : Text → Text → Type 0
IsSnapshot snapshot id =
    (length snapshot ≡ 64) × All (λ c. is_ascii_hexdigit c ≡ true) snapshot × IsToken id

-- The URI of the catalog entry is that of no command: `commands/refloat/` and a text that is not empty
-- and has no slash.
abbrev pub IsEntry : Text → Text → Type 0
IsEntry kind id =
    (command : Text)
    → kind ≡ codes "commands"
    → id ≡ codes "refloat/" ++ command
    → (is_empty command || contains_char b'/' command) ≡ true

-- The URIs that print to text from which they are read back.
abbrev pub IsCanonical : ParsedResourceUri → Type 0
IsCanonical (catalog kind id) =
    (is_empty kind ≡ false) × (contains_char b'/' kind ≡ false) × IsTail id × IsEntry kind id
IsCanonical (knowledge_chunk id) = IsToken id
IsCanonical (knowledge_document id) = IsToken id
IsCanonical (knowledge_feedback id) = IsToken id
IsCanonical (snapshot_knowledge_chunk snapshot id) = IsSnapshot snapshot id
IsCanonical (snapshot_knowledge_document snapshot id) = IsSnapshot snapshot id
IsCanonical (refloat_command command) =
    (is_empty command ≡ false) × (contains_char b'/' command ≡ false) × IsTail command
IsCanonical (fixture_manifest name) = (is_empty name ≡ false) × (contains_char b'/' name ≡ false)
IsCanonical (dynamic_manifest path) = (path ≢ []) × IsAscii path
