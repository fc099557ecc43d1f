-- ===== src/Resources/Uri/Percent.antt =====
-- Percent-encoding in crates/vesc-mcp-core/src/resources/uri.rs: `decode_manifest_path` against
-- `encode_manifest_path`.
use vesc_mcp.Prelude.{
  ℕ, ◌/◌, ◌%◌, ◌<◌, ◌≡◌, ◌↔◌, refl, sym, ap, ◌∙◌, false, List, [], ◌∷◌, ◌++◌, inl, inr, arith,
  if◌then◌else◌, ◌==◌, map, All, ok, Bool-cases, ok-injective, append_assoc, append-nil,
}
use mathlib.Core.Path.{subst}
use vesc_mcp.Text.{Text, is_whitespace}
use vesc_mcp.Text.Split.{split, Parts, last, more, split-Parts}
use vesc_mcp.Text.Ascii.{
  as_bytes-append, as_bytes-lt, All-append, IsAscii, as_bytes-ascii, as_bytes_iff,
}
use vesc_mcp.Text.Utf8.{Bytes, as_bytes, AreScalar}
use vesc_mcp.Resources.Uri.{
  is_unreserved, hex, encode_bytes, join_slash, encode_manifest_path, hex_digit, decode_loop,
  decode_manifest_path,
}

hex_digit-hex : (n : ℕ) → n < 16 → hex_digit (hex n) ≡ ok n
unfolding hex_digit hex
hex_digit-hex n h = ground arith

-- What `encode_bytes` writes for one byte.
abbrev encode_byte : ℕ → Text
encode_byte b = if is_unreserved b then b ∷ [] else b'%' ∷ hex (b / 16) ∷ hex (b % 16) ∷ []

is_unreserved-percent : is_unreserved b'%' ≡ false
unfolding is_unreserved
is_unreserved-percent = refl

decode_loop-plain :
    (out : Text) (b : ℕ) (rest : Bytes)
    → (b == b'%') ≡ false
    → decode_loop out (b ∷ rest) ≡ decode_loop (out ++ b ∷ []) rest
unfolding decode_loop
decode_loop-plain out b [] h = rw h refl
decode_loop-plain out b (c ∷ []) h = rw h refl
decode_loop-plain out b (c ∷ d ∷ rest) h = rw (h, decode_loop) refl

decode_loop-escaped :
    (out : Text) (b : ℕ) (rest : Bytes)
    → b < 256
    → decode_loop out (b'%' ∷ hex (b / 16) ∷ hex (b % 16) ∷ rest) ≡ decode_loop (out ++ b ∷ []) rest
unfolding decode_loop
decode_loop-escaped out b rest h = rw (hex_digit-hex (b / 16) (omega arith)) (
    rw (hex_digit-hex (b % 16) (omega arith))
      (ap (λ n. decode_loop (out ++ n ∷ []) rest) (omega arith)))

decode_loop-encode_byte :
    (out : Text) (b : ℕ) (rest : Bytes)
    → b < 256
    → decode_loop out (encode_byte b ++ rest) ≡ decode_loop (out ++ b ∷ []) rest
decode_loop-encode_byte out b rest h = elim (Bool-cases (is_unreserved b)) [
  | inl e ↦ rw e (decode_loop-plain out b rest (unfold is_unreserved in ground arith))
  | inr ne ↦ rw ne (decode_loop-escaped out b rest h)
]

encode_bytes_nil : encode_bytes [] ≡ []
unfolding encode_bytes
encode_bytes_nil = refl

encode_bytes_cons : (b : ℕ) (bs : Bytes) → encode_bytes (b ∷ bs) ≡ encode_byte b ++ encode_bytes bs
unfolding encode_bytes
encode_bytes_cons b bs = ground arith

decode_loop-encode_bytes :
    (bs : Bytes) (out : Text) (rest : Bytes)
    → All (λ b. b < 256) bs
    → decode_loop out (encode_bytes bs ++ rest) ≡ decode_loop (out ++ bs) rest
decode_loop-encode_bytes [] out rest h =
    ap (λ t. decode_loop out (t ++ rest)) encode_bytes_nil
    ∙ ap (λ o. decode_loop o rest) (sym (append-nil out))
decode_loop-encode_bytes (b ∷ bs) out rest h =
    ap (λ t. decode_loop out (t ++ rest)) (encode_bytes_cons b bs)
    ∙ ap (decode_loop out) (append_assoc (encode_byte b) (encode_bytes bs) rest)
    ∙ decode_loop-encode_byte out b (encode_bytes bs ++ rest) h.0
    ∙ decode_loop-encode_bytes bs (out ++ b ∷ []) rest h.1
    ∙ ap (λ o. decode_loop o rest) (append_assoc out (b ∷ []) bs)

-- Printing characters of ASCII.
abbrev pub IsPlain : Text → Type 0
IsPlain t = All (λ c. (c < 128) × (is_whitespace c ≡ false)) t

IsPlain-IsAscii : (t : Text) → IsPlain t → IsAscii t
IsPlain-IsAscii [] h = tt
IsPlain-IsAscii (c ∷ t) h = (h.0.0, IsPlain-IsAscii t h.1)

-- `encode_bytes` writes printing characters of ASCII alone.
encode_byte-IsPlain : (b : ℕ) → b < 256 → IsPlain (encode_byte b)
unfolding is_unreserved hex is_whitespace
encode_byte-IsPlain b h = ground arith

encode_bytes-IsPlain : (bs : Bytes) → All (λ b. b < 256) bs → IsPlain (encode_bytes bs)
encode_bytes-IsPlain [] h = rw encode_bytes_nil tt
encode_bytes-IsPlain (b ∷ bs) h = rw (encode_bytes_cons b bs) (
    All-append (λ c. (c < 128) × (is_whitespace c ≡ false)) (encode_bytes bs) (encode_byte b)
      (encode_bytes-IsPlain bs h.1) (encode_byte-IsPlain b h.0))

abbrev encode_segment : Text → Text
encode_segment segment = encode_bytes (as_bytes segment)

abbrev AreSegments : List Text → Type 0
AreSegments ps = All AreScalar ps

as_bytes_slash : (t : Text) → as_bytes (b'/' ∷ t) ≡ b'/' ∷ as_bytes t
unfolding as_bytes
as_bytes_slash t = refl

-- One segment, with what follows it.
decode_loop-segment :
    (p : Text) (out : Text) (rest : Bytes)
    → AreScalar p
    → decode_loop out (encode_segment p ++ rest) ≡ decode_loop (out ++ as_bytes p) rest
decode_loop-segment p out rest h = decode_loop-encode_bytes (as_bytes p) out rest (as_bytes-lt p h)

decode_loop_nil : (out : Text) → decode_loop out [] ≡ ok out
unfolding decode_loop
decode_loop_nil out = refl

decode_loop-join_slash :
    (ps : List Text) (out : Text)
    → AreSegments ps
    → decode_loop out (join_slash (map encode_segment ps)) ≡ ok (out ++ as_bytes (join_slash ps))
unfolding join_slash
decode_loop-join_slash [] out h =
    decode_loop_nil out ∙ ap ok (sym (append-nil out)) ∙ (unfold as_bytes in refl)
decode_loop-join_slash (p ∷ []) out h =
    ap (decode_loop out) (sym (append-nil (encode_segment p)))
    ∙ decode_loop-segment p out [] h.0
    ∙ decode_loop_nil _
decode_loop-join_slash (p ∷ q ∷ ps) out h =
    decode_loop-segment p out _ h.0
    ∙ decode_loop-plain (out ++ as_bytes p) b'/' _ refl
    ∙ decode_loop-join_slash (q ∷ ps) ((out ++ as_bytes p) ++ b'/' ∷ []) h.1
    ∙ ap ok (simp (as_bytes-append, as_bytes_slash, append_assoc))

join_slash-IsPlain : (ps : List Text) → All IsPlain ps → IsPlain (join_slash ps)
unfolding join_slash is_whitespace
join_slash-IsPlain [] h = tt
join_slash-IsPlain (p ∷ []) h = h.0
join_slash-IsPlain (p ∷ q ∷ ps) h =
    All-append (λ c. (c < 128) × (is_whitespace c ≡ false)) (b'/' ∷ join_slash (q ∷ ps)) p
      ((omega arith, refl), join_slash-IsPlain (q ∷ ps) h.1) h.0

encode_segments-IsPlain : (ps : List Text) → AreSegments ps → All IsPlain (map encode_segment ps)
encode_segments-IsPlain [] h = tt
encode_segments-IsPlain (p ∷ ps) h =
    (encode_bytes-IsPlain (as_bytes p) (as_bytes-lt p h.0), encode_segments-IsPlain ps h.1)

join_slash-Parts : {t : Text} {ps : List Text} → Parts b'/' t ps → join_slash ps ≡ t
unfolding join_slash
join_slash-Parts (last h) = refl
join_slash-Parts (more {a} h (last k) e) = sym e
join_slash-Parts (more {a} h (more k p e') e) =
    ap (λ s. a ++ (b'/' ∷ s)) (join_slash-Parts (more k p e')) ∙ sym e

AreScalar-split : (a : Text) (b : Text) → AreScalar (a ++ (b'/' ∷ b)) → AreScalar a × AreScalar b
AreScalar-split [] b h = (tt, h.1)
AreScalar-split (c ∷ a) b h = let (ha, hb) = AreScalar-split a b h.1 in ((h.0, ha), hb)

AreSegments-Parts : {t : Text} {ps : List Text} → Parts b'/' t ps → AreScalar t → AreSegments ps
AreSegments-Parts (last h) s = (s, tt)
AreSegments-Parts (more {a} {t} h p e) s =
    let (sa, st) = AreScalar-split a t (subst AreScalar e s) in (sa, AreSegments-Parts p st)

-- Both branches of `encode_manifest_path` write ASCII that decodes to the bytes of the path.
abbrev pub EncodesTo : Text → Text → Type 0
EncodesTo encoded path = IsPlain encoded × (decode_loop [] encoded ≡ ok (as_bytes path))

encode_absolute : (path : Text) → AreScalar path → EncodesTo (encode_bytes (as_bytes path)) path
encode_absolute path s = (
  encode_bytes-IsPlain (as_bytes path) (as_bytes-lt path s),
  ap (decode_loop []) (sym (append-nil (encode_segment path)))
      ∙ decode_loop-segment path [] [] s
      ∙ decode_loop_nil (as_bytes path),
)

encode_relative :
    (path : Text)
    → AreScalar path
    → EncodesTo (join_slash (map encode_segment (split b'/' path))) path
encode_relative path s =
    let parts = split-Parts b'/' path in
    let segments = AreSegments-Parts parts s in
    (
      join_slash-IsPlain _ (encode_segments-IsPlain _ segments),
      decode_loop-join_slash (split b'/' path) [] segments
          ∙ ap (λ t. ok (as_bytes t)) (join_slash-Parts parts),
    )

pub encode-EncodesTo : (path : Text) → AreScalar path → EncodesTo (encode_manifest_path path) path
unfolding encode_manifest_path
encode-EncodesTo [] s = (tt, unfold decode_loop as_bytes in refl)
encode-EncodesTo (c ∷ cs) s = elim (Bool-cases (c == b'/')) [
  | inl e ↦ rw e (encode_absolute (c ∷ cs) s)
  | inr ne ↦ rw ne (encode_relative (c ∷ cs) s)
]

-- For a path of scalar values, absolute or relative, decoding its encoding never fails, and gives
-- the text whose characters are the UTF-8 bytes of the path; this is the path itself exactly when the
-- path is ASCII.
pub decode-encode_manifest_path :
    (path : Text)
    → AreScalar path
    → (decode_manifest_path (encode_manifest_path path) ≡ ok (as_bytes path))
      × ((decode_manifest_path (encode_manifest_path path) ≡ ok path) ↔ IsAscii path)
unfolding decode_manifest_path
decode-encode_manifest_path path s =
    let (plain, decodes) = encode-EncodesTo path s in
    let run : decode_loop [] (as_bytes (encode_manifest_path path)) ≡ ok (as_bytes path) =
      ap (decode_loop []) (as_bytes-ascii _ (IsPlain-IsAscii _ plain)) ∙ decodes in
    (
      run,
      (
        λ h. (as_bytes_iff path).0 (ok-injective (sym run ∙ h)),
        λ h. run ∙ ap ok ((as_bytes_iff path).1 h),
      ),
    )
