-- ===== src/Command/Output/Bounded.antt =====
-- The bounded output is the longest part of the whole output that fits.
use mathlib.Core.Path.{subst}
use mem_sandbox.Base.{
  ltb, length, ℕ, ◌≤◌, ◌≡◌, refl, sym, ap, ◌∙◌, inr, some, List, [], ◌∷◌, ◌++◌, append_assoc,
  append-nil, arith,
}
use mem_sandbox.Strings.{Text}
use mem_sandbox.Utf8.{Bytes, encode_char, encode}
use mem_sandbox.Utf8.Roundtrip.{append_encoded-eq-some}
use mem_sandbox.Utf8.Cuts.{fitting, encode-Cut}
use mem_sandbox.Utf8.Fitting.{encode-append}
use mem_sandbox.Command.Output.{
  BoundedText, Collector, new_collector, append, joined, result, append_all, bound_text,
}
use mem_sandbox.Command.Output.Appends.{Collects, append_bytes-Collects}

encode-split :
    (t u : Text) (e : Bytes)
    → encode (t ++ u) ≡ some e
    → (x : Bytes) × (y : Bytes) × (encode t ≡ some x) × (encode u ≡ some y) × (x ++ y ≡ e)
unfolding encode
encode-split [] u e h = ([], e, refl, h, refl)
encode-split (c ∷ t) u e h =
    let (b, r, eb, er, z) = append_encoded-eq-some (encode_char c) (encode (t ++ u)) e h in
    let (x, y, ex, ey, w) = encode-split t u r er in
    (b ++ x, y, rw (eb, ex) refl, ey, append_assoc b x y ∙ ap (λ l. b ++ l) w ∙ z)

append_all-Collects :
    (max_bytes : ℕ) (ts : List Text) (t : Text) (e f : Bytes) (c : Collector)
    → encode t ≡ some e
    → encode (joined ts) ≡ some f
    → Collects max_bytes t e c
    → (d : Collector) × (append_all max_bytes ts c ≡ some d)
      × Collects max_bytes (t ++ joined ts) (e ++ f) d
unfolding append_all append
append_all-Collects max_bytes [] t e f c h k was =
    let none_left : [] ≡ f = (let z = k in unfold encode in cc z) in
    (
      c,
      refl,
      subst (λ x. Collects max_bytes x (e ++ f) c) (sym (append-nil t))
          (subst (λ x. Collects max_bytes t x c) (sym (append-nil e) ∙ ap (λ x. e ++ x) none_left)
            was),
    )
append_all-Collects max_bytes (u ∷ ts) t e f c h k was =
    let (x, y, ex, ey, w) = encode-split u (joined ts) f k in
    let (d, step, now) = append_bytes-Collects max_bytes t u e x c h ex was in
    let (final, run, end) =
      append_all-Collects max_bytes ts (t ++ u) (e ++ x) y d (encode-append t u e x h ex) ey now in
    (
      final,
      rw (ex, step, append_all, append) run,
      subst (λ l. Collects max_bytes l (e ++ f) final) (append_assoc t u (joined ts))
          (subst (λ l. Collects max_bytes ((t ++ u) ++ joined ts) l final)
            (append_assoc e x y ∙ ap (λ l. e ++ l) w) end),
    )

-- What is expected of a whole text.
abbrev pub bounded : ℕ → Text → Bytes → BoundedText
bounded max_bytes t e = record {
  text = fitting max_bytes t;
  original_bytes = length e;
  truncated = ltb max_bytes (length e);
}

result-Collects :
    (max_bytes : ℕ) (t : Text) (e : Bytes) (c : Collector)
    → Collects max_bytes t e c
    → result c ≡ bounded max_bytes t e
result-Collects max_bytes t e c h =
    let a = h.text in let b = h.counted in let d = h.marked in rw (a, b, d) refl

new_collector-Collects : (max_bytes : ℕ) → Collects max_bytes [] [] new_collector
unfolding fitting
new_collector-Collects max_bytes = record {
  text = refl;
  counted = refl;
  marked = ground arith;
  shut = ground arith;
  room = inr refl;
}

bound_text-bounded :
    (max_bytes : ℕ) (t : Text) (e : Bytes)
    → encode t ≡ some e
    → bound_text t max_bytes ≡ some (bounded max_bytes t e)
unfolding bound_text append encode
bound_text-bounded max_bytes t e h =
    let (d, step, now) =
      append_bytes-Collects max_bytes [] t [] e new_collector refl h
        (new_collector-Collects max_bytes) in
    rw (h, step, append) (ap (λ x. some x) (result-Collects max_bytes t e d now))

-- When the whole text of all appended texts can be encoded, the collector takes them all, and its
-- result does not depend on how the text is cut into them: it is that of `bound_text` for the whole
-- text. Its text is the longest part of the whole text, from the start, whose bytes are not more than
-- the maximum, so it is never longer; its number of original bytes is that of the whole text; and it
-- is marked as truncated exactly when these are more than the maximum.
pub append_all-bounded :
    (max_bytes : ℕ) (ts : List Text) (e : Bytes)
    → encode (joined ts) ≡ some e
    → (c : Collector) × (append_all max_bytes ts new_collector ≡ some c)
      × (result c ≡ bounded max_bytes (joined ts) e)
      × (bound_text (joined ts) max_bytes ≡ some (result c))
      × (b : Bytes) × (encode (fitting max_bytes (joined ts)) ≡ some b)
      × (length b ≤ max_bytes)
unfolding encode
append_all-bounded max_bytes ts e h =
    let (c, run, end) =
      append_all-Collects max_bytes ts [] [] e new_collector refl h
        (new_collector-Collects max_bytes) in
    let ends : result c ≡ bounded max_bytes (joined ts) e =
      result-Collects max_bytes (joined ts) e c end in
    let part = encode-Cut max_bytes (joined ts) e h in
    (
      c,
      run,
      ends,
      bound_text-bounded max_bytes (joined ts) e h ∙ ap (λ x. some x) (sym ends),
      part.kept,
      part.encoded,
      part.fits,
    )
