-- ===== src/Text/Ascii.antt =====
-- The bytes of a text: each is below 256, and the text is its own bytes if it is ASCII, and only then.
use vesc_mcp.Prelude.{
  ℕ, ◌<◌, ◌≤◌, ◌≡◌, ◌↔◌, refl, sym, ap, ◌∙◌, true, List, [], ◌∷◌, ◌++◌, arith, All, append_assoc,
  length, length-append,
}
use vesc_mcp.Text.{Text}
use vesc_mcp.Text.Utf8.{as_bytes, encode_char, is_scalar, AreScalar}

pub as_bytes-append : (s t : Text) → as_bytes (s ++ t) ≡ as_bytes s ++ as_bytes t
unfolding as_bytes
as_bytes-append [] t = refl
as_bytes-append (c ∷ s) t =
    ap (λ u. encode_char c ++ u) (as_bytes-append s t)
    ∙ sym (append_assoc (encode_char c) (as_bytes s) (as_bytes t))

pub All-append {ℓ} :
    {A : Type 0} (Q : A → Type ℓ) (ys xs : List A) → All Q ys → All Q xs → All Q (xs ++ ys)
All-append Q ys [] old new = old
All-append Q ys (x ∷ xs) old new = (new.0, All-append Q ys xs old new.1)

encode_char-lt : (c : ℕ) → is_scalar c ≡ true → All (λ b. b < 256) (encode_char c)
unfolding encode_char
encode_char-lt c h = ground arith

pub as_bytes-lt : (t : Text) → AreScalar t → All (λ b. b < 256) (as_bytes t)
unfolding as_bytes
as_bytes-lt [] h = tt
as_bytes-lt (c ∷ t) h =
    All-append (λ b. b < 256) (as_bytes t) (encode_char c) (as_bytes-lt t h.1)
      (encode_char-lt c h.0)

abbrev pub IsAscii : Text → Type 0
IsAscii t = All (λ c. c < 128) t

pub as_bytes-ascii : (t : Text) → IsAscii t → as_bytes t ≡ t
unfolding as_bytes encode_char
as_bytes-ascii [] h = refl
as_bytes-ascii (c ∷ t) h = ground (arith, as_bytes-ascii t h.1)

length-encode_char : (c : ℕ) → (0 < length (encode_char c)) × (length (encode_char c) ≤ 1 → c < 128)
unfolding encode_char
length-encode_char c = ground arith

length-le-as_bytes : (t : Text) → length t ≤ length (as_bytes t)
unfolding as_bytes
length-le-as_bytes [] = omega arith
length-le-as_bytes (c ∷ t) = omega (
  arith,
  length-append (encode_char c) (as_bytes t),
  (length-encode_char c).0,
  length-le-as_bytes t,
)

IsAscii-length : (t : Text) → length (as_bytes t) ≤ length t → IsAscii t
unfolding as_bytes
IsAscii-length [] h = tt
IsAscii-length (c ∷ t) h =
    let whole = length-append (encode_char c) (as_bytes t) in
    let (first, small) = length-encode_char c in
    let rest = length-le-as_bytes t in (small (omega arith), IsAscii-length t (omega arith))

pub as_bytes_iff : (t : Text) → (as_bytes t ≡ t) ↔ IsAscii t
as_bytes_iff t = (λ e. IsAscii-length t (omega (arith, ap length e)), as_bytes-ascii t)
