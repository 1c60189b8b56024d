-- ===== src/Patching/Parse/Counted.antt =====
-- The lines of a parsed hunk are as many as its header says.
use mathlib.Core.Path.{subst}
use mem_sandbox.Base.{
  ltb, ◌==◌, Bool-cases, Option-cases, length, ℕ, ◌+◌, ◌≤◌, ◌≡◌, refl, sym, ◌∙◌, inl, inr, Bool,
  true, false, not, ◌||◌, Option, some, List, [], ◌∷◌, ◌++◌, arith,
}
use mem_sandbox.Errors.{invalid_patch, ok, raise_if, raise_if-eq-ok, >>=-eq-ok, Result-cases}
use mem_sandbox.Strings.{Text, text_eq}
use mem_sandbox.Patching.{PatchLine, PatchHunk}
use mem_sandbox.Patching.Edits.{old_lines, new_lines}
use mem_sandbox.Patching.Parse.{
  validate_hunk_range, int_or_one, no_newline_marker, patch_line, counts_old, counts_new, changes,
  Body, no_body, add_line, take_line, take_body, hunk_of, match_header, parse_hunk,
}

unfoldable pub any_change : List PatchLine → Bool
any_change [] = false
any_change (l ∷ ls) = changes l || any_change ls

-- The variables of the loop tell of the lines read.
record IsBody (b : Body) : Type 0 where
  old : b.old_seen ≡ length (old_lines b.lines)
  new : b.new_seen ≡ length (new_lines b.lines)
  change : b.has_change ≡ any_change b.lines

-- The header counts the hunk's lines, and one of them is a change.
pub record IsCounted (h : PatchHunk) : Type 0 where
  pub old : length (old_lines h.lines) ≡ h.old_count
  pub new : length (new_lines h.lines) ≡ h.new_count
  pub change : any_change h.lines ≡ true

abbrev is_line : PatchLine → Bool
is_line l = l.prefix == b' ' || l.prefix == b'-' || l.prefix == b'+'

patch_line-is_line : (t : Text) (l : PatchLine) → patch_line t ≡ ok l → is_line l ≡ true
unfolding patch_line
patch_line-is_line [] l h = absurd (cc h)
patch_line-is_line (c ∷ t) l h = elim (Bool-cases (c == b' ' || c == b'-' || c == b'+')) [
  | inl k ↦
      let same : record { prefix = c; content = t } ≡ l = cc (rw k at h) in
      subst (λ (m : PatchLine). is_line m ≡ true) same k
  | inr k ↦ absurd (cc (rw k at h))
]

old_lines-snoc :
    (ls : List PatchLine) (l : PatchLine)
    → is_line l ≡ true
    → length (old_lines (ls ++ l ∷ [])) ≡ length (old_lines ls) + counts_old l
unfolding old_lines
old_lines-snoc [] l h = ground (arith, h)
old_lines-snoc (k ∷ ls) l h = ground (arith, old_lines-snoc ls l h)

new_lines-snoc :
    (ls : List PatchLine) (l : PatchLine)
    → is_line l ≡ true
    → length (new_lines (ls ++ l ∷ [])) ≡ length (new_lines ls) + counts_new l
unfolding new_lines
new_lines-snoc [] l h = ground (arith, h)
new_lines-snoc (k ∷ ls) l h = ground (arith, new_lines-snoc ls l h)

any_change-snoc :
    (ls : List PatchLine) (l : PatchLine) → any_change (ls ++ l ∷ []) ≡ (any_change ls || changes l)
unfolding any_change
any_change-snoc [] l = ground arith
any_change-snoc (k ∷ ls) l = ground (arith, any_change-snoc ls l)

add_line-IsBody : (b : Body) (l : PatchLine) → is_line l ≡ true → IsBody b → IsBody (add_line b l)
add_line-IsBody b l h i = record {
  old = omega (arith, i.old, old_lines-snoc b.lines l h);
  new = omega (arith, i.new, new_lines-snoc b.lines l h);
  change = rw (any_change-snoc b.lines l, i.change) refl;
}

module _ (old_count new_count : ℕ) where
  -- What holds in every round of the loop.
  record IsWithin (b : Body) : Type 0 where
    body : IsBody b
    old_fits : b.old_seen ≤ old_count
    new_fits : b.new_seen ≤ new_count

  take_line-IsWithin :
      (line : Text) (b more : Body)
      → take_line old_count new_count line b ≡ ok more
      → IsWithin b
      → IsWithin more
  unfolding take_line
  take_line-IsWithin line b more h w =
      let (l, p, h1) = >>=-eq-ok (patch_line line) _ h in
      let (_, fits, h2) =
        >>=-eq-ok
          (raise_if
            (ltb old_count (b.old_seen + counts_old l) || ltb new_count (b.new_seen + counts_new l))
            invalid_patch)
          _ h1 in
      let within = raise_if-eq-ok _ _ _ fits in
      let same : add_line b l ≡ more = cc h2 in
      subst IsWithin same (record {
        body = add_line-IsBody b l (patch_line-is_line line l p) w.body;
        old_fits = ground (arith, within);
        new_fits = ground (arith, within);
      })

  -- At the end of the loop the counts are reached.
  record IsWhole (b : Body) : Type 0 where
    body : IsBody b
    old_whole : b.old_seen ≡ old_count
    new_whole : b.new_seen ≡ new_count

  reached :
      (b : Body)
      → IsWithin b
      → (ltb b.old_seen old_count || ltb b.new_seen new_count) ≡ false
      → IsWhole b
  reached b w k = record {
    body = w.body;
    old_whole = ground (arith, k, w.old_fits);
    new_whole = ground (arith, k, w.new_fits);
  }

  take_body-IsWhole :
      (ls left : List Text) (b out : Body)
      → take_body old_count new_count ls b ≡ ok (out, left)
      → IsWithin b
      → IsWhole out × (length left ≤ length ls)
  unfolding take_body
  take_body-IsWhole [] left b out h w =
      elim (Bool-cases (ltb b.old_seen old_count || ltb b.new_seen new_count)) [
        | inl k ↦ absurd (cc (rw k at h))
        | inr k ↦
            let same : (b, []) ≡ (out, left) = cc (rw k at h) in
            subst (λ (r : Body × List Text). IsWhole r.0 × (length r.1 ≤ 0)) same
              (reached b w k, omega arith)
      ]
  take_body-IsWhole (l ∷ ls) left b out h w =
      elim (Bool-cases (ltb b.old_seen old_count || ltb b.new_seen new_count)) [
        | inr k ↦
            let same : (b, l ∷ ls) ≡ (out, left) = cc (rw k at h) in
            subst (λ (r : Body × List Text). IsWhole r.0 × (length r.1 ≤ length (l ∷ ls))) same
              (reached b w k, omega arith)
        | inl k ↦ elim (Bool-cases (text_eq l no_newline_marker)) [
          | inl m ↦
              let (whole, shorter) = take_body-IsWhole ls left b out (rw (k, m) at h) w in
              (whole, omega (arith, shorter))
          | inr m ↦ elim (Result-cases (take_line old_count new_count l b)) [
            | inl (e, t) ↦ absurd (cc (rw (k, m, t) at h))
            | inr (more, t) ↦
                let (whole, shorter) =
                  take_body-IsWhole ls left more out (rw (k, m, t) at h)
                    (take_line-IsWithin l b more t w) in
                (whole, omega (arith, shorter))
          ]
        ]
      ]

start-IsWithin : (old_count new_count : ℕ) → IsWithin old_count new_count no_body
unfolding old_lines new_lines any_change
start-IsWithin old_count new_count = record {
  body = record { old = refl; new = refl; change = refl };
  old_fits = omega arith;
  new_fits = omega arith;
}

hunk_of-IsCounted :
    (old_start old_count new_start new_count : ℕ) (ls left : List Text) (h : PatchHunk)
    → hunk_of old_start old_count new_start new_count ls ≡ ok (h, left)
    → IsCounted h × (length left ≤ length ls)
unfolding hunk_of
hunk_of-IsCounted old_start old_count new_start new_count ls left h e =
    let (_, _, e1) = >>=-eq-ok (validate_hunk_range old_start old_count new_start new_count) _ e in
    let ((body, behind), taken, e2) = >>=-eq-ok (take_body old_count new_count ls no_body) _ e1 in
    let (_, changed, e3) = >>=-eq-ok (raise_if (not body.has_change) invalid_patch) _ e2 in
    let (whole, shorter) =
      take_body-IsWhole old_count new_count ls behind no_body body taken
        (start-IsWithin old_count new_count) in
    let hunk : PatchHunk = record {
      old_start = old_start;
      old_count = old_count;
      new_start = new_start;
      new_count = new_count;
      lines = body.lines;
    } in
    let seen : body.has_change ≡ true = ground (arith, raise_if-eq-ok _ _ _ changed) in
    let same : (hunk, behind) ≡ (h, left) = cc e3 in
    subst (λ (r : PatchHunk × List Text). IsCounted r.0 × (length r.1 ≤ length ls)) same
      (
        record {
          old = sym whole.body.old ∙ whole.old_whole;
          new = sym whole.body.new ∙ whole.new_whole;
          change = sym whole.body.change ∙ seen;
        },
        shorter,
      )

module _ (digit_value : ℕ → Option ℕ) where
  -- A hunk that is read is counted, and no more lines are left.
  pub parse_hunk-IsCounted :
      (header : Text) (ls left : List Text) (h : PatchHunk)
      → parse_hunk digit_value header ls ≡ ok (h, left)
      → IsCounted h × (length left ≤ length ls)
  unfolding parse_hunk
  parse_hunk-IsCounted header ls left h e = elim (Option-cases (match_header digit_value header)) [
    | inl m ↦ absurd (cc (rw (m, parse_hunk) at e))
    | inr ((old, new), m) ↦
        let (old_start, _, e1) =
          >>=-eq-ok (int_or_one (some old.start)) _ (rw (m, parse_hunk) at e) in
        let (old_count, _, e2) = >>=-eq-ok (int_or_one old.count) _ e1 in
        let (new_start, _, e3) = >>=-eq-ok (int_or_one (some new.start)) _ e2 in
        let (new_count, _, e4) = >>=-eq-ok (int_or_one new.count) _ e3 in
        hunk_of-IsCounted old_start old_count new_start new_count ls left h e4
  ]
