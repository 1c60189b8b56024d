-- ===== src/Lines/Laws.antt =====
-- Normalised texts hold no return, normalising twice is normalising once, and lines are put together
-- again by the join that `read_range` and `apply_file_patch` use.
use mem_sandbox.Base.{
  ◌==◌, if◌then◌else◌, Bool-cases, init-snoc, ◌≡◌, refl, sym, ap, ◌∙◌, inl, inr, Bool, true, false,
  List, [], ◌∷◌, ◌++◌, append_assoc, append-nil, arith,
}
use mem_sandbox.Strings.{Text, text_eq, has_char, grow, split, join, join-split, ends_with}
use mem_sandbox.Lines.{
  newline, return, replace_crlf, replace_cr, normalize_line_endings, split_lines,
  split_normalized_lines,
}

replace_cr-HasNo : (t : Text) → has_char return (replace_cr t) ≡ false
unfolding replace_cr has_char
replace_cr-HasNo [] = refl
replace_cr-HasNo (c ∷ t) = ground (arith, replace_cr-HasNo t)

-- A normalised text holds no carriage return.
pub normalize-HasNo_return : (t : Text) → has_char return (normalize_line_endings t) ≡ false
unfolding normalize_line_endings
normalize-HasNo_return t = replace_cr-HasNo (replace_crlf t)

replace_cr-id : (t : Text) → has_char return t ≡ false → replace_cr t ≡ t
unfolding replace_cr has_char
replace_cr-id [] h = refl
replace_cr-id (c ∷ t) h = ground (arith, replace_cr-id t)

replace_crlf-id : (t : Text) → has_char return t ≡ false → replace_crlf t ≡ t
unfolding replace_crlf has_char
replace_crlf-id [] h = refl
replace_crlf-id (c ∷ []) h = refl
replace_crlf-id (c ∷ d ∷ t) h = ground (arith, replace_crlf-id (d ∷ t))

-- A text without carriage returns is normalised already.
pub normalize-id : (t : Text) → has_char return t ≡ false → normalize_line_endings t ≡ t
unfolding normalize_line_endings
normalize-id t h = rw (replace_crlf-id t h) (replace_cr-id t h)

-- Normalising the line endings of a text a second time changes nothing.
pub normalize_idem :
    (t : Text) → normalize_line_endings (normalize_line_endings t) ≡ normalize_line_endings t
normalize_idem t = normalize-id (normalize_line_endings t) (normalize-HasNo_return t)

-- The text of lines, with a newline at the end or without.
abbrev pub unlines : List Text × Bool → Text
unlines (ls, trailing) = join newline ls ++ (if trailing then newline ∷ [] else [])

join-snoc_nil :
    (s : Text) (ss : List Text)
    → join newline ((s ∷ ss) ++ [] ∷ []) ≡ join newline (s ∷ ss) ++ newline ∷ []
unfolding join
join-snoc_nil s [] = refl
join-snoc_nil s (t ∷ ss) = rw (join-snoc_nil t ss) (sym (append_assoc s _ (newline ∷ [])))

-- The last piece of a text that ends with a newline is empty.
split-ends_with :
    (t : Text)
    → ends_with (newline ∷ []) t ≡ true
    → (s : Text) × (ss : List Text) × (split newline t ≡ (s ∷ ss) ++ [] ∷ [])
unfolding ends_with split text_eq
split-ends_with [] h = absurd (cc h)
split-ends_with (c ∷ []) h = ([], [], ground arith)
split-ends_with (c ∷ d ∷ t) h =
    let (s, ss, e) = split-ends_with (d ∷ t) (ground arith) in
    elim (Bool-cases (c == newline)) [
      | inl new ↦ ([], s ∷ ss, rw new (ap (λ l. [] ∷ l) e))
      | inr old ↦ (c ∷ s, ss, rw old (ap (grow c) e))
    ]

unlines-split_lines : (t : Text) → unlines (split_lines t) ≡ t
unfolding split_lines
unlines-split_lines [] = unfold join in refl
unlines-split_lines (c ∷ t) = elim (Bool-cases (ends_with (newline ∷ []) (c ∷ t))) [
  | inl trailing ↦
      let (s, ss, e) = split-ends_with (c ∷ t) trailing in
      rw (trailing, e, init-snoc (s ∷ ss) [])
        (sym (join-snoc_nil s ss) ∙ ap (join newline) (sym e) ∙ join-split newline (c ∷ t))
  | inr bare ↦ rw (bare, append-nil) (join-split newline (c ∷ t))
]

-- The lines of a text and the flag for a last newline are the normalised text, taken apart: put
-- together again they are that text.
pub unlines-split_normalized_lines :
    (t : Text) → unlines (split_normalized_lines t) ≡ normalize_line_endings t
unfolding split_normalized_lines
unlines-split_normalized_lines t = unlines-split_lines (normalize_line_endings t)
