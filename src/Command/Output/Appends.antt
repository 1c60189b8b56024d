-- ===== src/Command/Output/Appends.antt =====
-- One call of `append`, by what the collector has room for.
use mem_sandbox.Base.{
  ltb, leb, Bool-cases, length, length-append, ℕ, ◌+◌, ◌-◌, ◌≤◌, ◌<◌, ◌≡◌, refl, sym, ap, ◌∙◌, ◌⊎◌,
  inl, inr, true, false, ◌||◌, some, List, [], ◌∷◌, ◌++◌, append_assoc, append-nil, arith,
}
use mem_sandbox.Strings.{Text}
use mem_sandbox.Utf8.{Bytes, encode}
use mem_sandbox.Utf8.Cuts.{fitting, encode-Cut}
use mem_sandbox.Utf8.Fitting.{
  encode-append, fitting-append, fitting-all, fitting-past, fitting-zero,
}
use mem_sandbox.Command.Output.{Collector, nonempty, append_bytes, joined}
use mem_sandbox.Command.Output.Retained.{retain-fuel}

-- What a collector holds of the whole text that was appended, and of its bytes.
pub record Collects (max_bytes : ℕ) (t : Text) (e : Bytes) (c : Collector) : Type 0 where
  pub text : joined c.parts ≡ fitting max_bytes t
  pub counted : c.original_bytes ≡ length e
  pub marked : c.truncated ≡ ltb max_bytes (length e)
  pub shut : c.retention_closed ≡ ltb max_bytes (length e)
  pub room : (c.retention_closed ≡ true) ⊎ (c.retained_bytes ≡ length e)

joined-append : (xs : List Text) (t : Text) → joined (xs ++ t ∷ []) ≡ joined xs ++ t
joined-append [] t = append-nil t
joined-append (x ∷ xs) t = rw (joined-append xs t) (sym (append_assoc x (joined xs) t))

nonempty-length : (b : Bytes) (n : ℕ) → nonempty b ≡ ltb n (n + length b)
nonempty-length [] n = ground arith
nonempty-length (x ∷ b) n = ground arith

-- A collector with nothing left out.
record HoldsAll (max_bytes : ℕ) (t : Text) (e : Bytes) (c : Collector) : Type 0 where
  fits : length e ≤ max_bytes
  open_still : c.retention_closed ≡ false
  unmarked : c.truncated ≡ false
  used : c.retained_bytes ≡ length e
  whole : joined c.parts ≡ t
  counts : c.original_bytes ≡ length e

Collects-HoldsAll :
    (max_bytes : ℕ) (t : Text) (e : Bytes) (c : Collector)
    → encode t ≡ some e
    → Collects max_bytes t e c
    → length e ≤ max_bytes
    → HoldsAll max_bytes t e c
Collects-HoldsAll max_bytes t e c h was l =
    let under : ltb max_bytes (length e) ≡ false = ground (arith, l) in
    record {
      fits = l;
      open_still = was.shut ∙ under;
      unmarked = was.marked ∙ under;
      used = elim was.room [
        | inl shut ↦ absurd (let z = was.shut ∙ under in cc (shut, z))
        | inr used ↦ used
      ];
      whole = was.text ∙ fitting-all max_bytes t e h l;
      counts = was.counted;
    }

module _ (max_bytes : ℕ) (t u : Text) (e f : Bytes) (c : Collector) (h : encode t ≡ some e)
    (k : encode u ≡ some f) where
  abbrev pub Appends : Type 0
  Appends =
      (d : Collector) × (append_bytes max_bytes u f c ≡ some d)
      × Collects max_bytes (t ++ u) (e ++ f) d

  -- A collector that is shut counts on.
  append-shut : Collects max_bytes t e c → max_bytes < length e → Appends
  unfolding append_bytes
  append-shut was l =
      let over : ltb max_bytes (length e) ≡ true = ground (arith, l) in
      let still : ltb max_bytes (length (e ++ f)) ≡ true = ground (arith, l, length-append e f) in
      let is_shut : c.retention_closed ≡ true = was.shut ∙ over in
      let is_marked : c.truncated ≡ true = was.marked ∙ over in
      (
        record c {
          original_bytes = c.original_bytes + length f;
          truncated = c.truncated || nonempty f;
        },
        rw (is_shut, append_bytes) refl,
        record {
          text = was.text ∙ sym (fitting-past max_bytes t u e h l);
          counted = let z = was.counted in omega (arith, z, length-append e f);
          marked = rw (is_marked, still) refl;
          shut = is_shut ∙ sym still;
          room = inl is_shut;
        },
      )

  -- One that is full is shut by the first byte.
  append-full : HoldsAll max_bytes t e c → max_bytes ≡ length e → Appends
  unfolding append_bytes
  append-full was l =
      let used = was.used in
      let full : leb max_bytes c.retained_bytes ≡ true = ground (arith, l, used) in
      let shuts : nonempty f ≡ ltb max_bytes (length (e ++ f)) =
        (nonempty-length f (length e) ∙ ap (λ n. ltb n (length e + length f)) (sym l))
        ∙ ap (λ n. ltb max_bytes n) (sym (length-append e f)) in
      (
        record c {
          original_bytes = c.original_bytes + length f;
          truncated = c.truncated || nonempty f;
          retention_closed = nonempty f;
        },
        rw (was.open_still, full, append_bytes) refl,
        record {
          text =
              was.whole
              ∙ sym (append-nil t)
              ∙ ap (λ x. t ++ x) (sym (fitting-zero u f k))
              ∙ sym (fitting-append max_bytes 0 t u e h (omega (arith, l)));
          counted = let z = was.counts in omega (arith, z, length-append e f);
          marked = rw (was.unmarked) shuts;
          shut = shuts;
          room = full_room f used;
        },
      )
    where
      full_room :
          (f : Bytes)
          → c.retained_bytes ≡ length e
          → (nonempty f ≡ true) ⊎ (c.retained_bytes ≡ length (e ++ f))
      full_room [] used = inr (used ∙ ap (λ x. length x) (sym (append-nil e)))
      full_room (x ∷ f) used = inl refl

  -- What fits is kept whole.
  append-whole :
      HoldsAll max_bytes t e c → length e < max_bytes → length e + length f ≤ max_bytes → Appends
  unfolding append_bytes
  append-whole was l m =
      let used = was.used in
      let space : leb max_bytes c.retained_bytes ≡ false = ground (arith, l, used) in
      let fit : leb (length f) (max_bytes - c.retained_bytes) ≡ true = ground (arith, m, used) in
      let both : length (e ++ f) ≤ max_bytes = omega (arith, m, length-append e f) in
      let under : ltb max_bytes (length (e ++ f)) ≡ false = ground (arith, both) in
      (
        record c {
          original_bytes = c.original_bytes + length f;
          parts = c.parts ++ u ∷ [];
          retained_bytes = c.retained_bytes + length f;
        },
        rw (was.open_still, space, fit, append_bytes) refl,
        record {
          text =
              joined-append c.parts u
              ∙ ap (λ x. x ++ u) was.whole
              ∙ sym (fitting-all max_bytes (t ++ u) (e ++ f) (encode-append t u e f h k) both);
          counted = let z = was.counts in omega (arith, z, length-append e f);
          marked = was.unmarked ∙ sym under;
          shut = was.open_still ∙ sym under;
          room = inr (omega (arith, used, length-append e f));
        },
      )

  -- Of what does not fit the part that does is kept.
  append-cut :
      HoldsAll max_bytes t e c → length e < max_bytes → max_bytes < length e + length f → Appends
  unfolding append_bytes
  append-cut was l m =
      let used = was.used in
      let space : leb max_bytes c.retained_bytes ≡ false = ground (arith, l, used) in
      let unfit : leb (length f) (max_bytes - c.retained_bytes) ≡ false = ground (arith, m, used) in
      let over : ltb max_bytes (length (e ++ f)) ≡ true = ground (arith, m, length-append e f) in
      let part = encode-Cut (max_bytes - c.retained_bytes) u f k in
      let kept =
        retain-fuel (length f) (max_bytes - c.retained_bytes) u f part (omega (arith, l, m)) in
      (
        record c {
          original_bytes = c.original_bytes + length f;
          parts = c.parts ++ fitting (max_bytes - c.retained_bytes) u ∷ [];
          retained_bytes = c.retained_bytes + length part.kept;
          truncated = true;
          retention_closed = true;
        },
        rw (was.open_still, space, unfit, kept, append_bytes) refl,
        record {
          text =
              joined-append c.parts (fitting (max_bytes - c.retained_bytes) u)
              ∙ ap (λ x. x ++ fitting (max_bytes - c.retained_bytes) u) was.whole
              ∙ sym (
                  fitting-append max_bytes (max_bytes - c.retained_bytes) t u e h
                    (omega (arith, l, used)));
          counted = let z = was.counts in omega (arith, z, length-append e f);
          marked = sym over;
          shut = sym over;
          room = inl refl;
        },
      )

  pub append_bytes-Collects : Collects max_bytes t e c → Appends
  append_bytes-Collects was = elim (Bool-cases (ltb max_bytes (length e))) [
    | inl over ↦ append-shut was (ground (arith, over))
    | inr under ↦
        let all = Collects-HoldsAll max_bytes t e c h was (ground (arith, under)) in
        elim (Bool-cases (leb max_bytes (length e))) [
          | inl full ↦ append-full all (ground (arith, full, under))
          | inr space ↦ elim (Bool-cases (leb (length e + length f) max_bytes)) [
            | inl fit ↦ append-whole all (ground (arith, space)) (ground (arith, fit))
            | inr unfit ↦ append-cut all (ground (arith, space)) (ground (arith, unfit))
          ]
        ]
  ]
