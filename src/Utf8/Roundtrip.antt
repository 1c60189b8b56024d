-- ===== src/Utf8/Roundtrip.antt =====
-- Decoding gives back every text that can be encoded.
use mathlib.Core.Option
use mathlib.Core.Option.{some-injective}
use mem_sandbox.Base.{
  ◌==◌, if◌then◌else◌, ℕ, ◌+◌, ◌/◌, ◌%◌, ◌≤◌, ◌<◌, ◌≡◌, refl, ap, ◌∙◌, false, Option, none, some,
  [], ◌∷◌, ◌++◌, arith,
}
use mem_sandbox.Strings.{Text}
use mem_sandbox.Utf8.{
  Bytes, encode_char, append_encoded, encode, Pending, idle, decode_step, decode_from, decode,
}

abbrev state : ℕ → ℕ → ℕ → ℕ → Pending
state need bits low high = record { need = need; bits = bits; low = low; high = high }

silent :
    (s s' : Pending) (b : ℕ) (bs : Bytes)
    → decode_step s b ≡ some (s', [])
    → decode_from s (b ∷ bs) ≡ decode_from s' bs
unfolding decode_from
silent s s' b bs h = rw (h, decode_from) (same (decode_from s' bs))
  where
    same : (o : Option Text) → Option.map (λ (t : Text). t) o ≡ o
    same none = refl
    same (some t) = refl

emits :
    (s s' : Pending) (b c : ℕ) (bs : Bytes)
    → decode_step s b ≡ some (s', c ∷ [])
    → decode_from s (b ∷ bs) ≡ Option.map (λ t. c ∷ t) (decode_from s' bs)
unfolding decode_from
emits s s' b c bs h = rw (h, decode_from)

-- A byte that completes nothing.
abbrev pub GoesOn : Pending → ℕ → Pending → Type 0
GoesOn s b t = (decode_step s b ≡ some (t, [])) × ((t.need == 0) ≡ false)

-- The steps that read the bytes of one code point.
pub data Steps (c : ℕ) : Pending → Bytes → Type 0 where
  last : (s : Pending) (b : ℕ) → decode_step s b ≡ some (idle, c ∷ []) → Steps c s (b ∷ [])
  more : (s t : Pending) (b : ℕ) (bs : Bytes) → GoesOn s b t → Steps c t bs → Steps c s (b ∷ bs)

module _ (c : ℕ) where
  one : c < 0x80 → Steps c idle (c ∷ [])
  unfolding decode_step
  one h = last idle c (ground arith)

  two : 0x80 ≤ c → c < 0x800 → Steps c idle ((0xc0 + c / 64) ∷ (0x80 + c % 64) ∷ [])
  unfolding decode_step
  two h k =
      more idle (state 1 (c / 64) 0x80 0xbf) _ _ (ground arith, refl) (last _ _ (ground arith))

  three :
      0x800 ≤ c
      → ¬ ((0xd800 ≤ c) × (c ≤ 0xdfff))
      → c < 0x1_0000
      → Steps c idle ((0xe0 + c / 4096) ∷ (0x80 + (c / 64) % 64) ∷ (0x80 + c % 64) ∷ [])
  unfolding decode_step
  three h s k =
      more idle
        (state 2 (c / 4096) (if c / 4096 == 0 then 0xa0 else 0x80)
          (if c / 4096 == 13 then 0x9f else 0xbf))
        _ _ (ground arith, refl)
        (more _ (state 1 (c / 64) 0x80 0xbf) _ _ (ground arith, refl) (last _ _ (ground arith)))

  four :
      0x1_0000 ≤ c
      → c < 0x11_0000
      → Steps c idle (
          (0xf0 + c / 262144)
          ∷ (0x80 + (c / 4096) % 64)
          ∷ (0x80 + (c / 64) % 64)
          ∷ (0x80 + c % 64)
          ∷ [])
  unfolding decode_step
  four h k =
      more idle
        (state 3 (c / 262144) (if c / 262144 == 0 then 0x90 else 0x80)
          (if c / 262144 == 4 then 0x8f else 0xbf))
        _ _ (ground arith, refl)
        (more _ (state 2 (c / 4096) 0x80 0xbf) _ _ (ground arith, refl)
          (more _ (state 1 (c / 64) 0x80 0xbf) _ _ (ground arith, refl) (last _ _ (ground arith))))

pub encode_char-Steps : (c : ℕ) (b : Bytes) → encode_char c ≡ some b → Steps c idle b
unfolding encode_char
encode_char-Steps c b h = ground (arith, one c, two c, three c, four c)

pub decode-Steps :
    (c : ℕ) (s : Pending) (b rest : Bytes)
    → Steps c s b
    → decode_from s (b ++ rest) ≡ Option.map (λ t. c ∷ t) (decode_from idle rest)
decode-Steps c _ _ rest (last s x e) = emits s idle x c rest e
decode-Steps c _ _ rest (more s s' x bs e h) =
    silent s s' x (bs ++ rest) e.0 ∙ decode-Steps c s' bs rest h

-- The bytes of one code point are decoded, whatever follows them.
decode-encode_char :
    (c : ℕ) (b rest : Bytes)
    → encode_char c ≡ some b
    → decode_from idle (b ++ rest) ≡ Option.map (λ t. c ∷ t) (decode_from idle rest)
decode-encode_char c b rest h = decode-Steps c idle b rest (encode_char-Steps c b h)

pub append_encoded-eq-some :
    (o p : Option Bytes) (b : Bytes)
    → append_encoded o p ≡ some b
    → (x : Bytes) × (y : Bytes) × (o ≡ some x) × (p ≡ some y) × (x ++ y ≡ b)
append_encoded-eq-some none p b h = absurd (cc h)
append_encoded-eq-some (some x) none b h = absurd (cc h)
append_encoded-eq-some (some x) (some y) b h = (x, y, refl, refl, cc h)

pub decode-encode : (t : Text) (b : Bytes) → encode t ≡ some b → decode b ≡ some t
unfolding encode decode
decode-encode [] b h = unfold decode_from in rw (← some-injective [] b h)
decode-encode (c ∷ t) b h =
    let (x, y, ex, ey, e) = append_encoded-eq-some (encode_char c) (encode t) b h in
    rw (← e) (decode-encode_char c x y ex ∙ ap (Option.map (λ t. c ∷ t)) (decode-encode t y ey))
