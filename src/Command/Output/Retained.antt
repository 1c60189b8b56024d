-- ===== src/Command/Output/Retained.antt =====
-- What the loop of the collector retains of bytes that are cut off anywhere.
use mathlib.Core.Path.{subst}
use mathlib.Core.Option
use mem_sandbox.Base.{
  length, take, length-append, ℕ, zero, suc, ◌+◌, ◌≤◌, ◌≡◌, refl, ap, ◌∙◌, inl, inr, none, some,
  List, [], ◌∷◌, ◌++◌, append_assoc, append-nil, arith,
}
use mem_sandbox.Strings.{Text}
use mem_sandbox.Utf8.{
  Bytes, encode_char, encode, idle, decode_from, decode, error_from, error_start,
}
use mem_sandbox.Utf8.Roundtrip.{
  encode_char-Steps, decode-Steps, append_encoded-eq-some, decode-encode,
}
use mem_sandbox.Utf8.Cuts.{error-Steps, fitting, Cut}
use mem_sandbox.Utf8.Fitting.{encode-nonempty}
use mem_sandbox.Command.Output.{retain}

-- A whole encoding is retained at once.
retain-encoded :
    (fuel : ℕ) (t : Text) (e : Bytes) → encode t ≡ some e → retain (suc fuel) e ≡ some (t, e)
unfolding retain encode
retain-encoded fuel [] e h =
    let z : [] ≡ e = cc h in subst (λ e. retain (suc fuel) e ≡ some ([], e)) z refl
retain-encoded fuel (c ∷ t) [] h = absurd (let l = encode-nonempty c t [] h in omega (arith, l))
retain-encoded fuel (c ∷ t) (b ∷ bs) h = rw (decode-encode (c ∷ t) (b ∷ bs) h, retain) refl

-- The bytes of a text behind an encoding are decoded behind it, and its errors stand behind it.
decode-behind :
    (t : Text) (e q : Bytes)
    → encode t ≡ some e
    → decode_from idle q ≡ none
    → decode_from idle (e ++ q) ≡ none
unfolding encode
decode-behind [] e q h k = let z : [] ≡ e = cc h in rw (← z) k
decode-behind (c ∷ t) e q h k =
    let (b, r, eb, er, z) = append_encoded-eq-some (encode_char c) (encode t) e h in
    rw (← z, append_assoc b r q)
      (decode-Steps c idle b (r ++ q) (encode_char-Steps c b eb)
        ∙ ap (Option.map (λ t. c ∷ t)) (decode-behind t r q er k))

error-behind :
    (i : ℕ) (t : Text) (e q : Bytes)
    → encode t ≡ some e
    → ((i : ℕ) → error_from idle i i q ≡ i)
    → error_from idle i i (e ++ q) ≡ i + length e
unfolding encode
error-behind i [] e q h k = let z : [] ≡ e = cc h in rw (← z) (k i ∙ omega arith)
error-behind i (c ∷ t) e q h k =
    let (b, r, eb, er, z) = append_encoded-eq-some (encode_char c) (encode t) e h in
    rw (← z, append_assoc b r q)
      (error-Steps c idle i i b (r ++ q) (encode_char-Steps c b eb)
        ∙ error-behind (i + length b) t r q er k
        ∙ omega (arith, length-append b r))

take_all : {A : Type 0} (xs ys : List A) → take (length xs) (xs ++ ys) ≡ xs
take_all [] ys = refl
take_all (x ∷ xs) ys = ap (λ l. x ∷ l) (take_all xs ys)

-- One round drops what follows an encoding and cannot be decoded.
retain-broken :
    (fuel : ℕ) (p kept : Bytes)
    → decode p ≡ none
    → error_start p ≡ length kept
    → take (length kept) p ≡ kept
    → retain (suc fuel) p ≡ retain fuel kept
unfolding retain decode decode_from
retain-broken fuel [] kept h k m = absurd (cc h)
retain-broken fuel (b ∷ bs) kept h k m = unfold decode in rw (h, k, m, retain) refl

-- Two rounds retain the part of a cut encoding that fits.
retain-Cut :
    (fuel n : ℕ) (t : Text) (e : Bytes) (k : Cut n t e)
    → retain (suc (suc fuel)) (take n e) ≡ some (fitting n t, k.kept)
unfolding decode error_start
retain-Cut fuel n t e k =
    let whole = λ (x : ℕ). retain-encoded x (fitting n t) k.kept k.encoded in
    elim k.broken [
      | inl none_left ↦ rw (k.cut, none_left, append-nil k.kept) (whole (suc fuel))
      | inr (fails, begins) ↦ rw (k.cut) (
          retain-broken (suc fuel) (k.kept ++ k.tail) k.kept
            (decode-behind (fitting n t) k.kept k.tail k.encoded fails)
            (error-behind 0 (fitting n t) k.kept k.tail k.encoded begins ∙ omega arith)
            (take_all k.kept k.tail)
          ∙ whole fuel)
    ]

pub retain-fuel :
    (fuel n : ℕ) (t : Text) (e : Bytes) (k : Cut n t e)
    → 2 ≤ fuel
    → retain fuel (take n e) ≡ some (fitting n t, k.kept)
retain-fuel zero n t e k l = absurd (omega (arith, l))
retain-fuel (suc zero) n t e k l = absurd (omega (arith, l))
retain-fuel (suc (suc fuel)) n t e k l = retain-Cut fuel n t e k
