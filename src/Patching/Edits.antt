-- ===== src/Patching/Edits.antt =====
-- What applying hunks means: each replaces its old lines by its new ones, in order.
use mathlib.Core.Path.{subst}
use mem_sandbox.Base.{
  ltb, ◌==◌, if◌then◌else◌, Bool-cases, Option-cases, length, length-append, take, drop, get_elem?,
  drop-get_elem?, drop-take, ℕ, zero, suc, ◌+◌, ◌-◌, ◌≤◌, ◌≡◌, refl, sym, ap, ◌∙◌, inl, inr, true,
  false, not, ◌||◌, some, List, [], ◌∷◌, ◌++◌, append_assoc, append-nil, arith,
}
use mem_sandbox.Errors.{
  invalid_patch, patch_context_mismatch, ok, raise_if, raise_if-eq-ok, >>=-eq-ok,
}
use mem_sandbox.Strings.{Text, text_eq, text_eq_iff}
use mem_sandbox.Lines.{split_normalized_lines}
use mem_sandbox.Lines.Laws.{unlines}
use mem_sandbox.Patching.{
  PatchLine, PatchHunk, FilePatch, start_index, target_index, is_length, apply_lines, apply_hunks,
  apply_file_patch,
}

-- The lines that a hunk expects, and those that it leaves.
unfoldable pub old_lines : List PatchLine → List Text
old_lines [] = []
old_lines (l ∷ ls) = let rest = old_lines ls in if l.prefix == b'+' then rest else l.content ∷ rest

unfoldable pub new_lines : List PatchLine → List Text
new_lines [] = []
new_lines (l ∷ ls) =
    let rest = new_lines ls in
    if l.prefix == b'+' || l.prefix == b' ' then l.content ∷ rest else rest

-- The line number in the header of a hunk, counted from 1, when this many lines stand before it: that
-- of its first line, or of the line before it if it has none.
abbrev pub IsNumbered : ℕ → ℕ → ℕ → Type 0
IsNumbered start count before = start ≡ before + (if count == 0 then 0 else 1)

-- The hunks take the first lines to the second, behind so many old and new lines: between them the
-- lines are the same, and each stands where its header says, in the old lines and in the new ones.
pub data Edits : ℕ → ℕ → List PatchHunk → List Text → List Text → Type 0 where
  unchanged : (before made : ℕ) (rest : List Text) → Edits before made [] rest rest
  replaced :
      (before made : ℕ) (h : PatchHunk) (hs : List PatchHunk) (gap rest out : List Text)
      → IsNumbered h.old_start h.old_count (before + length gap)
      → IsNumbered h.new_start h.new_count (made + length gap)
      → Edits
          (before + length gap + length (old_lines h.lines))
          (made + length gap + length (new_lines h.lines))
          hs
          rest
          out
      → Edits before made
          (h ∷ hs)
          (gap ++ (old_lines h.lines ++ rest))
          (gap ++ (new_lines h.lines ++ out))

suc_eq : (n : ℕ) → suc n ≡ n + 1
suc_eq n = omega arith

here :
    (source : List Text) (index : ℕ) (actual expected : Text)
    → get_elem? source index ≡ some actual
    → text_eq actual expected ≡ true
    → drop index source ≡ expected ∷ drop (index + 1) source
here source index actual expected g f =
    drop-get_elem? source index expected (g ∙ ap some ((text_eq_iff actual expected).0 f))
    ∙ ap (λ i. expected ∷ drop i source) (suc_eq index)

inside : (n m k : ℕ) → (ltb m n || ltb k m) ≡ false → n + (m - n) ≡ m
inside n m k h = ground arith

apply_lines-old_new :
    (source : List Text) (ls : List PatchLine) (index next : ℕ) (result extended : List Text)
    → apply_lines source ls index result ≡ ok (next, extended)
    → (drop index source ≡ old_lines ls ++ drop next source) × (extended ≡ result ++ new_lines ls)
unfolding apply_lines old_lines new_lines
apply_lines-old_new source [] index next result extended h =
    (ap (λ n. drop n source) (ground arith), ground (arith, append-nil result))
apply_lines-old_new source (l ∷ ls) index next result extended h =
    elim (Bool-cases (l.prefix == b'+')) [
      | inl e ↦
          let (d, x) =
            apply_lines-old_new source ls index next (result ++ l.content ∷ []) extended
              (ground (arith, e)) in
          (
            ground (arith, e, d),
            ground (arith, e, x, append_assoc result (l.content ∷ []) (new_lines ls)),
          )
      | inr e ↦ elim (Option-cases (get_elem? source index)) [
        | inl g ↦ absurd (ground (arith, e, g))
        | inr (actual, g) ↦ elim (Bool-cases (text_eq actual l.content)) [
          | inr f ↦ absurd (ground (arith, e, g, f))
          | inl f ↦ elim (Bool-cases (l.prefix == b' ')) [
            | inl b ↦
                let (d, x) =
                  apply_lines-old_new source ls (index + 1) next (result ++ l.content ∷ []) extended
                    (ground (arith, e, g, f, b)) in
                (
                  ground (arith, e, d, here source index actual l.content g f),
                  ground (arith, e, b, x, append_assoc result (l.content ∷ []) (new_lines ls)),
                )
            | inr b ↦
                let (d, x) =
                  apply_lines-old_new source ls (index + 1) next result extended
                    (ground (arith, e, g, f, b)) in
                (
                  ground (arith, e, d, here source index actual l.content g f),
                  ground (arith, e, b, x),
                )
          ]
        ]
      ]
    ]

apply_lines-next :
    (source : List Text) (ls : List PatchLine) (index next : ℕ) (result extended : List Text)
    → apply_lines source ls index result ≡ ok (next, extended)
    → next ≡ index + length (old_lines ls)
unfolding apply_lines old_lines
apply_lines-next source [] index next result extended h = ground arith
apply_lines-next source (l ∷ ls) index next result extended h =
    elim (Bool-cases (l.prefix == b'+')) [
      | inl e ↦
          let x =
            apply_lines-next source ls index next (result ++ l.content ∷ []) extended
              (ground (arith, e)) in
          ground (arith, e, x)
      | inr e ↦ elim (Option-cases (get_elem? source index)) [
        | inl g ↦ absurd (ground (arith, e, g))
        | inr (actual, g) ↦ elim (Bool-cases (text_eq actual l.content)) [
          | inr f ↦ absurd (ground (arith, e, g, f))
          | inl f ↦ elim (Bool-cases (l.prefix == b' ')) [
            | inl b ↦
                let x =
                  apply_lines-next source ls (index + 1) next (result ++ l.content ∷ []) extended
                    (ground (arith, e, g, f, b)) in
                ground (arith, e, x)
            | inr b ↦
                let x =
                  apply_lines-next source ls (index + 1) next result extended
                    (ground (arith, e, g, f, b)) in
                ground (arith, e, x)
          ]
        ]
      ]
    ]

length-take : (l : List Text) (n : ℕ) → n ≤ length l → length (take n l) ≡ n
length-take l zero h = refl
length-take [] (suc n) h = absurd (omega arith)
length-take (x ∷ l) (suc n) h = ap suc (length-take l n (omega arith))

length-drop : (l : List Text) (n : ℕ) → length (drop n l) ≡ length l - n
length-drop l zero = omega arith
length-drop [] (suc n) = omega arith
length-drop (x ∷ l) (suc n) = omega (arith, length-drop l n)

length-gap :
    (source : List Text) (n m : ℕ)
    → (ltb m n || ltb (length source) m) ≡ false
    → n + length (take (m - n) (drop n source)) ≡ m
length-gap source n m h =
    let p : n ≤ m = ground (arith, h) in
    let q : m ≤ length source = ground (arith, h) in
    let d = length-drop source n in
    let t = length-take (drop n source) (m - n) (omega (arith, d, p, q)) in omega (arith, t, p)

target_index-IsNumbered :
    (start count target : ℕ)
    → target_index (start_index start count) ≡ ok target
    → IsNumbered start count target
target_index-IsNumbered zero count target h = ground arith
target_index-IsNumbered (suc n) count target h = ground arith

is_length-IsNumbered :
    (start count n : ℕ)
    → not (is_length n (start_index start count)) ≡ false
    → IsNumbered start count n
is_length-IsNumbered zero count n h = ground arith
is_length-IsNumbered (suc m) count n h = ground arith

apply_hunks-Edits :
    (source : List Text) (hs : List PatchHunk) (index next : ℕ) (result extended : List Text)
    → apply_hunks source hs index result ≡ ok (next, extended)
    → (out : List Text) × Edits index (length result) hs (drop index source) out
      × (extended ++ drop next source ≡ result ++ out)
unfolding apply_hunks
apply_hunks-Edits source [] index next result extended h =
    (drop index source, unchanged _ _ _, ground arith)
apply_hunks-Edits source (k ∷ hs) index next result extended h =
    let (target, begins, h0) = >>=-eq-ok (target_index (start_index k.old_start k.old_count)) _ h in
    let gap = take (target - index) (drop index source) in
    let (_, placed, h1) =
      >>=-eq-ok (raise_if (ltb target index || ltb (length source) target) patch_context_mismatch) _
        h0 in
    let (_, numbered, h2) =
      >>=-eq-ok
        (raise_if (not (is_length (length (result ++ gap)) (start_index k.new_start k.new_count)))
          invalid_patch)
        _ h1 in
    let ((mid, made), lines, h3) =
      >>=-eq-ok (apply_lines source k.lines target (result ++ gap)) _ h2 in
    let (expected, grown) =
      apply_lines-old_new source k.lines target mid (result ++ gap) made lines in
    let (out, edits, e) = apply_hunks-Edits source hs mid next made extended h3 in
    let at = length-gap source index target (raise_if-eq-ok _ _ _ placed) in
    let grows = length-append result gap in
    let out' = gap ++ (new_lines k.lines ++ out) in
    (
      out',
      subst (λ x. Edits index (length result) (k ∷ hs) x out')
          (sym (
            drop-take source index (target - index) target
              (inside index target (length source) (raise_if-eq-ok _ _ _ placed))
            ∙ ap (λ x. gap ++ x) expected))
          (replaced index (length result) k hs gap (drop mid source) out
            (subst (IsNumbered k.old_start k.old_count) (sym at)
              (target_index-IsNumbered k.old_start k.old_count target begins))
            (subst (IsNumbered k.new_start k.new_count) grows
              (is_length-IsNumbered k.new_start k.new_count _ (raise_if-eq-ok _ _ _ numbered)))
            (subst
              (λ i.
                Edits i (length result + length gap + length (new_lines k.lines)) hs
                  (drop mid source) out)
              (apply_lines-next source k.lines target mid (result ++ gap) made lines
                ∙ ap (λ i. i + length (old_lines k.lines)) (sym at))
              (subst (λ j. Edits mid j hs (drop mid source) out)
                (ap length grown
                  ∙ length-append (result ++ gap) (new_lines k.lines)
                  ∙ ap (λ i. i + length (new_lines k.lines)) grows)
                edits))),
      e
          ∙ ap (λ m. m ++ out) grown
          ∙ append_assoc (result ++ gap) (new_lines k.lines) out
          ∙ append_assoc result gap (new_lines k.lines ++ out),
    )

-- A file patch that is applied returns the text of lines that its hunks make of the lines of the
-- file: each hunk replaces its old lines by its new ones at the line numbers that its header
-- gives for the old and for the new text, what lies between the hunks is as it was, and a newline
-- at the end is there if and only if it was there.
pub apply_file_patch-Edits :
    (content out : Text) (patch : FilePatch)
    → apply_file_patch content patch ≡ ok out
    → (lines : List Text) × Edits 0 0 patch.hunks (split_normalized_lines content).0 lines
      × (out ≡ unlines (lines, (split_normalized_lines content).1))
unfolding apply_file_patch
apply_file_patch-Edits content out patch h =
    let ((index, result), applied, e) =
      >>=-eq-ok (apply_hunks (split_normalized_lines content).0 patch.hunks 0 []) _ h in
    let (lines, edits, same) =
      apply_hunks-Edits (split_normalized_lines content).0 patch.hunks 0 index [] result applied in
    (lines, edits, rw (← same) (cc e))
