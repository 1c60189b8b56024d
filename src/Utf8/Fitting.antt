-- ===== src/Utf8/Fitting.antt =====
-- The longest part of a text that fits, of two texts one after the other.
use mem_sandbox.Base.{
  leb, Bool-cases, length, length-append, ℕ, ◌+◌, ◌-◌, ◌≤◌, ◌<◌, ◌≡◌, refl, sym, ap, ◌∙◌, inl, inr,
  true, false, some, [], ◌∷◌, ◌++◌, append_assoc, append-nil, arith,
}
use mem_sandbox.Strings.{Text}
use mem_sandbox.Utf8.{Bytes, encode_char, encode, idle}
use mem_sandbox.Utf8.Roundtrip.{Steps, last, more, encode_char-Steps, append_encoded-eq-some}
use mem_sandbox.Utf8.Cuts.{fitting}

pub encode-append :
    (t u : Text) (e f : Bytes)
    → encode t ≡ some e
    → encode u ≡ some f
    → encode (t ++ u) ≡ some (e ++ f)
unfolding encode
encode-append [] u e f h k = let z : [] ≡ e = cc h in rw (← z) k
encode-append (c ∷ t) u e f h k =
    let (b, r, eb, er, z) = append_encoded-eq-some (encode_char c) (encode t) e h in
    rw (eb, encode-append t u r f er k, ← z) (ap (λ x. some x) (sym (append_assoc b r f)))

pub fitting-append :
    (n m : ℕ) (t u : Text) (e : Bytes)
    → encode t ≡ some e
    → n ≡ length e + m
    → fitting n (t ++ u) ≡ t ++ fitting m u
unfolding fitting encode
fitting-append n m [] u e h k =
    let z : [] ≡ e = cc h in
    let none_used : length e ≡ 0 = rw (← z) refl in
    let same : n ≡ m = omega (arith, k, none_used) in rw (same) refl
fitting-append n m (c ∷ t) u e h k =
    let (b, r, eb, er, z) = append_encoded-eq-some (encode_char c) (encode t) e h in
    let l : n ≡ (length b + length r) + m = (rw (← z, length-append b r) at k) in
    let fit : leb (length b) n ≡ true = ground (arith, l) in
    rw (eb, fit, fitting)
      (ap (λ x. c ∷ x) (fitting-append (n - length b) m t u r er (omega (arith, l))))

pub fitting-all :
    (n : ℕ) (t : Text) (e : Bytes) → encode t ≡ some e → length e ≤ n → fitting n t ≡ t
unfolding fitting
fitting-all n t e h k =
    let same = fitting-append n (n - length e) t [] e h (omega (arith, k)) in
    ap (λ x. fitting n x) (sym (append-nil t)) ∙ same ∙ append-nil t

pub fitting-past :
    (n : ℕ) (t u : Text) (e : Bytes)
    → encode t ≡ some e
    → n < length e
    → fitting n (t ++ u) ≡ fitting n t
unfolding fitting encode
fitting-past n [] u e h k =
    let z : [] ≡ e = cc h in
    let none_used : length e ≡ 0 = rw (← z) refl in absurd (omega (arith, k, none_used))
fitting-past n (c ∷ t) u e h k =
    let (b, r, eb, er, z) = append_encoded-eq-some (encode_char c) (encode t) e h in
    let l : n < length b + length r = (rw (← z, length-append b r) at k) in
    elim (Bool-cases (leb (length b) n)) [
      | inr out ↦ rw (eb, out, fitting) refl
      | inl fit ↦
          rw (eb, fit, fitting)
            (ap (λ x. c ∷ x) (fitting-past (n - length b) t u r er (ground (arith, fit, l))))
    ]

encode_char-nonempty : (c : ℕ) (b : Bytes) → encode_char c ≡ some b → 1 ≤ length b
encode_char-nonempty c b h = go b (encode_char-Steps c b h)
  where
    go : (b : Bytes) → Steps c idle b → 1 ≤ length b
    go _ (last s x e) = omega arith
    go _ (more s t x bs e k) = omega arith

pub fitting-zero : (t : Text) (e : Bytes) → encode t ≡ some e → fitting 0 t ≡ []
unfolding fitting encode
fitting-zero [] e h = refl
fitting-zero (c ∷ t) e h =
    let (b, r, eb, er, z) = append_encoded-eq-some (encode_char c) (encode t) e h in
    let l = encode_char-nonempty c b eb in
    let out : leb (length b) 0 ≡ false = ground (arith, l) in rw (eb, out, fitting) refl

pub encode-nonempty : (c : ℕ) (t : Text) (e : Bytes) → encode (c ∷ t) ≡ some e → 1 ≤ length e
unfolding encode
encode-nonempty c t e h =
    let (b, r, eb, er, z) = append_encoded-eq-some (encode_char c) (encode t) e h in
    rw (← z) (let l = encode_char-nonempty c b eb in omega (arith, l, length-append b r))
