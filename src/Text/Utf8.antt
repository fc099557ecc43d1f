-- ===== src/Text/Utf8.antt =====
-- `as_bytes` and `str::from_utf8`: UTF-8 as RFC 3629 has it, with no overlong form and no surrogate.
use vesc_mcp.Prelude.{
  ℕ, ◌+◌, ◌-◌, ◌*◌, ◌/◌, ◌%◌, ◌<◌, ◌≤◌, ◌≡◌, refl, ap, Bool, true, ◌&&◌, not, List, [], ◌∷◌, ◌++◌,
  Option, none, some, arith, ltb, leb, if◌then◌else◌, length, All, append_assoc, ◌∙◌, sym,
}
use mathlib.Core.Option
use vesc_mcp.Text.{Text, within}

abbrev pub Bytes : Type 0
Bytes = List ℕ

-- A Unicode scalar value.
abbrev pub is_scalar : ℕ → Bool
is_scalar c = ltb c 0x11_0000 && not (within 0xd800 0xdfff c)

abbrev low6 : ℕ → ℕ
low6 c = 0x80 + c % 64

unfoldable pub encode_char : ℕ → Bytes
encode_char c =
    if ltb c 0x80
    then c ∷ []
    else if ltb c 0x800
    then (0xc0 + c / 64) ∷ low6 c ∷ []
    else if ltb c 0x1_0000
    then (0xe0 + c / 64 / 64) ∷ low6 (c / 64) ∷ low6 c ∷ []
    else (0xf0 + c / 64 / 64 / 64) ∷ low6 (c / 64 / 64) ∷ low6 (c / 64) ∷ low6 c ∷ []

unfoldable pub as_bytes : Text → Bytes
unfolding encode_char
as_bytes [] = []
as_bytes (c ∷ t) = encode_char c ++ as_bytes t

abbrev pub byte_len : Text → ℕ
byte_len t = length (as_bytes t)

-- The bytes of an unfinished character.
pub data Pending : Type 0 where
  idle : Pending
  two three four : ℕ → Pending
  three' four' : ℕ → ℕ → Pending
  four'' : ℕ → ℕ → ℕ → Pending

pub data Reading : Type 0 where
  refused : Reading
  pending : Pending → Reading
  char : ℕ → Reading

abbrev is_continuation : ℕ → Bool
is_continuation b = within 0x80 0xbf b

-- `lowest` refuses an overlong form.
abbrev finish : ℕ → ℕ → Reading
finish lowest c = if leb lowest c && is_scalar c then char c else refused

read_byte : Pending → ℕ → Reading
read_byte idle b =
    if ltb b 0x80
    then char b
    else if ltb b 0xc0
    then refused
    else if ltb b 0xe0
    then pending (two b)
    else if ltb b 0xf0
    then pending (three b)
    else if ltb b 0xf8
    then pending (four b)
    else refused
read_byte (two a) b =
    if is_continuation b then finish 0x80 ((a - 0xc0) * 64 + (b - 0x80)) else refused
read_byte (three a) b = if is_continuation b then pending (three' a b) else refused
read_byte (three' a b) c =
    if is_continuation c
    then finish 0x800 (((a - 0xe0) * 64 + (b - 0x80)) * 64 + (c - 0x80))
    else refused
read_byte (four a) b = if is_continuation b then pending (four' a b) else refused
read_byte (four' a b) c = if is_continuation c then pending (four'' a b c) else refused
read_byte (four'' a b c) d =
    if is_continuation d
    then finish 0x1_0000 ((((a - 0xf0) * 64 + (b - 0x80)) * 64 + (c - 0x80)) * 64 + (d - 0x80))
    else refused

abbrev at_end : Pending → Option Text
at_end idle = some []
at_end _ = none

decode : Pending → Bytes → Option Text
decode p [] = at_end p
decode p (b ∷ bs) = elim (read_byte p b) [
  | refused ↦ none
  | pending q ↦ decode q bs
  | char c ↦ Option.map (λ t. c ∷ t) (decode idle bs)
]

unfoldable pub from_utf8 : Bytes → Option Text
unfolding decode read_byte
from_utf8 = decode idle

decode-encode_char :
    (c : ℕ) (rest : Bytes)
    → is_scalar c ≡ true
    → decode idle (encode_char c ++ rest) ≡ Option.map (λ t. c ∷ t) (decode idle rest)
unfolding decode read_byte encode_char
decode-encode_char c rest h = ground arith

-- Decoding what was encoded gives the text back.
pub from_utf8-as_bytes :
    (t : Text) → All (λ c. is_scalar c ≡ true) t → from_utf8 (as_bytes t) ≡ some t
unfolding from_utf8 as_bytes
from_utf8-as_bytes [] h = refl
from_utf8-as_bytes (c ∷ t) h =
    decode-encode_char c (as_bytes t) h.0 ∙ ap (Option.map (λ s. c ∷ s)) (from_utf8-as_bytes t h.1)

-- The bytes that a state holds.
abbrev held : Pending → Bytes
held idle = []
held (two a) = a ∷ []
held (three a) = a ∷ []
held (four a) = a ∷ []
held (three' a b) = a ∷ b ∷ []
held (four' a b) = a ∷ b ∷ []
held (four'' a b c) = a ∷ b ∷ c ∷ []

-- What the lead byte and the continuation bytes of a state satisfy.
abbrev Fits : Pending → Type 0
Fits idle = Unit
Fits (two a) = (0xc0 ≤ a) × (a < 0xe0)
Fits (three a) = (0xe0 ≤ a) × (a < 0xf0)
Fits (four a) = (0xf0 ≤ a) × (a < 0xf8)
Fits (three' a b) = (0xe0 ≤ a) × (a < 0xf0) × (0x80 ≤ b) × (b < 0xc0)
Fits (four' a b) = (0xf0 ≤ a) × (a < 0xf8) × (0x80 ≤ b) × (b < 0xc0)
Fits (four'' a b c) = (0xf0 ≤ a) × (a < 0xf8) × (0x80 ≤ b) × (b < 0xc0) × (0x80 ≤ c) × (c < 0xc0)

abbrev Continues : Pending → ℕ → Reading → Type 0
Continues p b refused = Unit
Continues p b (pending q) = (held q ≡ held p ++ (b ∷ [])) × Fits q
Continues p b (char c) = (encode_char c ≡ held p ++ (b ∷ [])) × (is_scalar c ≡ true)

read_byte-Continues : (p : Pending) (b : ℕ) → Fits p → Continues p b (read_byte p b)
unfolding read_byte encode_char
read_byte-Continues idle b f = ground arith
read_byte-Continues _ b f = ground arith

abbrev pub AreScalar : Text → Type 0
AreScalar t = All (λ c. is_scalar c ≡ true) t

abbrev Decoded : Pending → Bytes → Option Text → Type 0
Decoded p bs none = Unit
Decoded p bs (some t) = (held p ++ bs ≡ as_bytes t) × AreScalar t

abbrev next : Reading → Bytes → Option Text
next refused bs = none
next (pending q) bs = decode q bs
next (char c) bs = Option.map (λ t. c ∷ t) (decode idle bs)

Decoded-char :
    (p : Pending) (b c : ℕ) (bs : Bytes) (o : Option Text)
    → Continues p b (char c)
    → Decoded idle bs o
    → Decoded p (b ∷ bs) (Option.map (λ t. c ∷ t) o)
unfolding as_bytes
Decoded-char p b c bs none h d = tt
Decoded-char p b c bs (some t) h d = (
  sym (append_assoc (held p) (b ∷ []) bs) ∙ rw (← h.0) (ap (λ s. encode_char c ++ s) d.0),
  (h.1, d.1),
)

Decoded-pending :
    (p q : Pending) (b : ℕ) (bs : Bytes) (o : Option Text)
    → Continues p b (pending q)
    → Decoded q bs o
    → Decoded p (b ∷ bs) o
Decoded-pending p q b bs none h d = tt
Decoded-pending p q b bs (some t) h d =
    (sym (append_assoc (held p) (b ∷ []) bs) ∙ rw (← h.0) d.0, d.1)

Decoded-next :
    (p : Pending) (b : ℕ) (bs : Bytes) (r : Reading)
    → Continues p b r
    → ((q : Pending) → Fits q → Decoded q bs (decode q bs))
    → Decoded p (b ∷ bs) (next r bs)
Decoded-next p b bs refused h ih = tt
Decoded-next p b bs (pending q) h ih = Decoded-pending p q b bs (decode q bs) h (ih q h.1)
Decoded-next p b bs (char c) h ih = Decoded-char p b c bs (decode idle bs) h (ih idle tt)

decode_cons : (p : Pending) (b : ℕ) (bs : Bytes) → decode p (b ∷ bs) ≡ next (read_byte p b) bs
unfolding decode
decode_cons p b bs = ground arith

decode_nil-Decoded : (p : Pending) → Decoded p [] (decode p [])
unfolding decode as_bytes
decode_nil-Decoded idle = (refl, tt)
decode_nil-Decoded _ = tt

decode-Decoded : (bs : Bytes) (p : Pending) → Fits p → Decoded p bs (decode p bs)
decode-Decoded [] p f = decode_nil-Decoded p
decode-Decoded (b ∷ bs) p f =
    rw (decode_cons p b bs) (
      Decoded-next p b bs (read_byte p b) (read_byte-Continues p b f)
        (λ q g. decode-Decoded bs q g))

-- What decodes is the encoding of the result, whose characters are scalar values.
pub from_utf8-eq_some :
    (bs : Bytes) {t : Text} → from_utf8 bs ≡ some t → (bs ≡ as_bytes t) × AreScalar t
unfolding from_utf8
from_utf8-eq_some bs h = rw h at (decode-Decoded bs idle tt)
