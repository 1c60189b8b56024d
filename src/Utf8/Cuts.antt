-- ===== src/Utf8/Cuts.antt =====
-- What decoding makes of the bytes of a text that are cut off anywhere, and the longest part of a text
-- whose bytes fit into a number.
use mathlib.Core.Path.{subst}
use mem_sandbox.Base.{
  leb, ◌==◌, if◌then◌else◌, Bool-cases, length, take, length-append, ℕ, zero, suc, ◌+◌, ◌-◌, ◌≤◌,
  ◌<◌, ◌≡◌, refl, sym, ap, ◌⊎◌, inl, inr, false, none, some, List, [], ◌∷◌, ◌++◌, append_assoc,
  arith,
}
use mem_sandbox.Strings.{Text}
use mem_sandbox.Utf8.{Bytes, encode_char, encode, Pending, idle, decode_from, error_from}
use mem_sandbox.Utf8.Roundtrip.{
  GoesOn, Steps, last, more, encode_char-Steps, append_encoded-eq-some,
}

-- A sequence that is cut off is not decoded, and where it begins is known.
record IsBroken (s : Pending) (start index : ℕ) (q : Bytes) : Type 0 where
  fails : decode_from s q ≡ none
  begins : error_from s start index q ≡ start

IsBroken-more :
    (s t : Pending) (start index x : ℕ) (q : Bytes)
    → GoesOn s x t
    → IsBroken t start (index + 1) q
    → IsBroken s start index (x ∷ q)
unfolding decode_from error_from
IsBroken-more s t start index x q (e, n) h = record {
  fails = rw (e, decode_from, h.fails) refl;
  begins = rw (e, n, error_from) h.begins;
}

IsBroken-Steps :
    (c : ℕ) (s : Pending) (start index : ℕ) (b : Bytes) (j : ℕ)
    → Steps c s b
    → (s.need == 0) ≡ false
    → j < length b
    → IsBroken s start index (take j b)
unfolding decode_from error_from
IsBroken-Steps c s start index b zero h k l = record { fails = rw (k) refl; begins = refl }
IsBroken-Steps c _ start index _ (suc j) (last s x e) k l = absurd (omega (arith, l))
IsBroken-Steps c _ start index _ (suc j) (more s t x bs e h) k l =
    IsBroken-more s t start index x (take j bs) e
      (IsBroken-Steps c t start (index + 1) bs j h e.1 (omega (arith, l)))

IsBroken-idle :
    (c : ℕ) (start : ℕ) (b : Bytes) (j : ℕ)
    → Steps c idle b
    → suc j < length b
    → IsBroken idle start start (take (suc j) b)
IsBroken-idle c start _ j (last s x e) l = absurd (omega (arith, l))
IsBroken-idle c start _ j (more s t x bs e h) l =
    IsBroken-more idle t start start x (take j bs) e
      (IsBroken-Steps c t start (start + 1) bs j h e.1 (omega (arith, l)))

pub error-Steps :
    (c : ℕ) (s : Pending) (start index : ℕ) (b rest : Bytes)
    → Steps c s b
    → error_from s start index (b ++ rest)
      ≡ error_from idle (index + length b) (index + length b) rest
unfolding error_from
error-Steps c _ start index _ rest (last s x e) = rw (e, error_from) refl
error-Steps c _ start index _ rest (more s s2 x bs (e, n) h) =
    rw (e, n, error_from, error-Steps c s2 start (index + 1) bs rest h) (ground arith)

-- The longest part of a text, from its start, whose bytes are not more than a number.
unfoldable pub fitting : ℕ → Text → Text
fitting n [] = []
fitting n (c ∷ t) = elim (encode_char c) [
  | none ↦ []
  | some b ↦ let rest = fitting (n - length b) t in if leb (length b) n then c ∷ rest else []
]

-- The bytes cut off at a number: those of the part that fits, and a sequence that is cut off, or
-- nothing.
pub record Cut (n : ℕ) (t : Text) (e : Bytes) : Type 0 where
  pub kept : Bytes
  pub tail : Bytes
  pub encoded : encode (fitting n t) ≡ some kept
  pub fits : length kept ≤ n
  pub cut : take n e ≡ kept ++ tail
  pub broken :
      (tail ≡ []) ⊎ ((decode_from idle tail ≡ none) × ((i : ℕ) → error_from idle i i tail ≡ i))

take_past :
    {A : Type 0} (n m : ℕ) (xs ys : List A)
    → n ≡ length xs + m
    → take n (xs ++ ys) ≡ xs ++ take m ys
take_past n m [] ys h = let z : n ≡ m = omega (arith, h) in rw (z) refl
take_past zero m (x ∷ xs) ys h = absurd (omega (arith, h))
take_past (suc n) m (x ∷ xs) ys h = ap (λ l. x ∷ l) (take_past n m xs ys (omega (arith, h)))

take_within : {A : Type 0} (n : ℕ) (xs ys : List A) → n ≤ length xs → take n (xs ++ ys) ≡ take n xs
take_within zero xs ys h = refl
take_within (suc n) [] ys h = absurd (omega (arith, h))
take_within (suc n) (x ∷ xs) ys h = ap (λ l. x ∷ l) (take_within n xs ys (omega (arith, h)))

cut_nil : (n : ℕ) → take {A = ℕ} n [] ≡ []
cut_nil zero = refl
cut_nil (suc n) = refl

Cut-encode_char :
    (n c : ℕ) (t : Text) (b r : Bytes)
    → encode_char c ≡ some b
    → n < length b
    → Cut n (c ∷ t) (b ++ r)
unfolding fitting encode
Cut-encode_char n c t b r e l = record {
  kept = [];
  tail = take n b;
  encoded = let z : fitting n (c ∷ t) ≡ [] = ground (arith, e, l) in rw (z) refl;
  fits = omega arith;
  cut = take_within n b r (omega (arith, l));
  broken = go n l;
}
  where
    go :
        (n : ℕ)
        → n < length b
        → (take n b ≡ [])
          ⊎ ((decode_from idle (take n b) ≡ none) × ((i : ℕ) → error_from idle i i (take n b) ≡ i))
    go zero l = inl refl
    go (suc j) l = inr (
      (IsBroken-idle c 0 b j (encode_char-Steps c b e) l).fails,
      λ i. (IsBroken-idle c i b j (encode_char-Steps c b e) l).begins,
    )

pub encode-Cut : (n : ℕ) (t : Text) (e : Bytes) → encode t ≡ some e → Cut n t e
unfolding encode fitting
encode-Cut n [] e h =
    let z : [] ≡ e = cc h in
    subst (λ e. Cut n [] e) z
      (record {
        kept = [];
        tail = [];
        encoded = refl;
        fits = omega arith;
        cut = cut_nil n;
        broken = inl refl;
      })
encode-Cut n (c ∷ t) e h =
    let (b, r, eb, er, z) = append_encoded-eq-some (encode_char c) (encode t) e h in
    elim (Bool-cases (leb (length b) n)) [
      | inr out ↦
          subst (λ e. Cut n (c ∷ t) e) z (Cut-encode_char n c t b r eb (ground (arith, out)))
      | inl fit ↦
          let rest = encode-Cut (n - length b) t r er in
          let l : length b ≤ n = ground (arith, fit) in
          let part : fitting n (c ∷ t) ≡ c ∷ fitting (n - length b) t =
            rw (eb, fit, fitting) refl in
          subst (λ e. Cut n (c ∷ t) e) z
            (record {
              kept = b ++ rest.kept;
              tail = rest.tail;
              encoded = rw (part, eb, rest.encoded) refl;
              fits = let k = rest.fits in omega (arith, length-append b rest.kept, l, k);
              cut =
                  rw (take_past n (n - length b) b r (omega (arith, l)), rest.cut)
                    (sym (append_assoc b rest.kept rest.tail));
              broken = rest.broken;
            })
    ]
