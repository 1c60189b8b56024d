-- ===== src/Workspace/Ranges.antt =====
-- What `read_range` returns.
use mem_sandbox.Base.{
  ltb, if◌then◌else◌, Bool-cases, length, take, drop, ℕ, ◌+◌, ◌-◌, ◌≤◌, ◌<◌, min, ◌≡◌, refl, ap,
  ◌∙◌, inl, inr, false, Option, none, some, List, [], ◌∷◌, ◌++◌, arith,
}
use mem_sandbox.Errors.{ok, >>=-eq-ok}
use mem_sandbox.Strings.{Text, join}
use mem_sandbox.Utf8.{Bytes, encode}
use mem_sandbox.Models.{
  WorkspaceLimits, WorkspaceTextResult, WorkspaceRangeRequest, WorkspaceRangeResult,
}
use mem_sandbox.Tree.{get_node, require_file}
use mem_sandbox.Hashing.{encode_name, from_bytes}
use mem_sandbox.Lines.{newline, normalize_line_endings, split_normalized_lines}
use mem_sandbox.Lines.Laws.{unlines-split_normalized_lines}
use mem_sandbox.Measure.{Env}
use mem_sandbox.State.{State, validate_path}
use mem_sandbox.Workspace.Reads.{decode_utf8, line_or, check_range, read_text, range_of, read_range}

encode_name-eq-ok : (t : Text) (b : Bytes) → encode_name t ≡ ok b → encode t ≡ some b
encode_name-eq-ok t b h = ground arith

min_self : (n : ℕ) → min n n ≡ n
min_self n = omega arith

min_over : (line total : ℕ) → total < line → min (line_or (some line) total) total ≡ total
min_over line total h = ground arith

min_within :
    (line total : ℕ) → 1 ≤ line → line ≤ total → min (line_or (some line) total) total ≡ line
min_within line total h g = ground arith

take-length : (ls : List Text) → take (length ls) ls ≡ ls
take-length [] = refl
take-length (l ∷ ls) = ap (λ t. l ∷ t) (take-length ls)

-- The lines from the first to the last one that a request asks for, of so many: to the last line if it
-- names none or one behind it. Of no lines there are none, whatever is asked for.
pub data IsAsked (r : WorkspaceRangeRequest) (total first last : ℕ) : Type 0 where
  no_lines : total ≡ 0 → first ≡ 1 → last ≡ 0 → IsAsked r total first last
  to_end :
      1 ≤ total
      → first ≡ r.start_line
      → r.end_line ≡ none
      → last ≡ total
      → IsAsked r total first last
  to_line :
      (line : ℕ)
      → first ≡ r.start_line
      → r.end_line ≡ some line
      → line ≤ total
      → last ≡ line
      → IsAsked r total first last
  past_end :
      (line : ℕ)
      → 1 ≤ total
      → first ≡ r.start_line
      → r.end_line ≡ some line
      → total < line
      → last ≡ total
      → IsAsked r total first last

-- What a range result says of the lines of the file.
pub record IsRange (limits : WorkspaceLimits) (r : WorkspaceRangeRequest) (lines : List Text)
    (out : WorkspaceRangeResult) : Type 0 where
  pub asked : IsAsked r out.total_lines out.start_line out.end_line
  pub total : out.total_lines ≡ length lines
  pub ends : out.end_line ≤ out.total_lines
  pub starts : 1 ≤ out.start_line
  pub ordered : out.start_line ≤ out.end_line + 1
  pub few_lines : out.end_line + 1 ≤ limits.max_read_lines + out.start_line
  pub content : out.content ≡ join newline (drop (out.start_line - 1) (take out.end_line lines))
  pub encoded : Bytes
  pub encodes : encode out.content ≡ some encoded
  pub few_bytes : length encoded ≤ limits.max_read_bytes

-- The result tells of the file that was read.
abbrev pub IsOf : WorkspaceTextResult → WorkspaceRangeResult → Type 0
IsOf text out =
    (out.path ≡ text.path) × (out.content_hash ≡ text.content_hash) × (out.revision ≡ text.revision)

module _ (env : Env) (r : WorkspaceRangeRequest) (s : State) where
  range_of-empty :
      (content : Bytes) (out : WorkspaceRangeResult)
      → range_of env r s content [] ≡ ok out
      → IsRange env.limits r [] out
  unfolding range_of encode join
  range_of-empty content out h = record {
    asked = no_lines (ground arith) (ground arith) (ground arith);
    total = ground arith;
    ends = ground arith;
    starts = ground arith;
    ordered = ground arith;
    few_lines = ground arith;
    content = ground arith;
    encoded = [];
    encodes = ground arith;
    few_bytes = omega arith;
  }

  first_line : (line : ℕ) → r.end_line ≡ some line → check_range r ≡ ok r → 1 ≤ line
  unfolding check_range
  first_line line e c = ground (arith, e)

  last_line : ℕ → ℕ
  last_line total = min (line_or r.end_line total) total

  range_text : List Text → Text
  range_text ls = join newline (drop (r.start_line - 1) (take (last_line (length ls)) ls))

  range_steps :
      (content : Bytes) (l : Text) (ls : List Text) (out : WorkspaceRangeResult)
      → range_of env r s content (l ∷ ls) ≡ ok out
      → (ltb (length (l ∷ ls)) r.start_line ≡ false)
        × (ltb env.limits.max_read_lines (last_line (length (l ∷ ls)) + 1 - r.start_line) ≡ false)
        × (bytes : Bytes) × (encode_name (range_text (l ∷ ls)) ≡ ok bytes)
        × (ltb env.limits.max_read_bytes (length bytes) ≡ false)
        × (out ≡ record {
          path = r.path;
          content = range_text (l ∷ ls);
          start_line = r.start_line;
          end_line = last_line (length (l ∷ ls));
          total_lines = length (l ∷ ls);
          content_hash = from_bytes env.sha256 content;
          revision = s.stats.revision;
        })
  unfolding range_of last_line range_text
  range_steps content l ls out h = ground arith

  check_range-facts :
      check_range r ≡ ok r
      → (total : ℕ) → r.start_line ≤ total
      → (1 ≤ r.start_line) × (r.start_line ≤ last_line total) × (last_line total ≤ total)
  unfolding check_range last_line
  check_range-facts c total h = ground arith

  -- The lines are the ones that were asked for.
  last_line-IsAsked :
      (total : ℕ) (end : Option ℕ)
      → r.end_line ≡ end
      → 1 ≤ total
      → r.start_line ≤ total
      → check_range r ≡ ok r
      → IsAsked r total r.start_line (last_line total)
  unfolding last_line
  last_line-IsAsked total none e some_lines inside c =
      to_end some_lines refl e (rw (e) (min_self total))
  last_line-IsAsked total (some line) e some_lines inside c = elim (Bool-cases (ltb total line)) [
    | inl over ↦
        past_end line some_lines refl e (ground (arith, over))
          (rw (e) (min_over line total (ground (arith, over))))
    | inr within ↦
        to_line line refl e (ground (arith, within))
          (rw (e) (min_within line total (first_line line e c) (ground (arith, within))))
  ]

  range_of-cons :
      (content : Bytes) (l : Text) (ls : List Text) (out : WorkspaceRangeResult)
      → check_range r ≡ ok r
      → range_of env r s content (l ∷ ls) ≡ ok out
      → IsRange env.limits r (l ∷ ls) out
  unfolding range_text
  range_of-cons content l ls out c h =
      let (inside, few_lines, bytes, e, few_bytes, same) = range_steps content l ls out h in
      let (positive, ordered, within) =
        check_range-facts c (length (l ∷ ls)) (ground (arith, inside)) in
      rw same (record {
        asked =
            last_line-IsAsked (length (l ∷ ls)) r.end_line refl (omega arith)
              (ground (arith, inside)) c;
        total = refl;
        ends = within;
        starts = positive;
        ordered = omega arith;
        few_lines = ground (arith, few_lines);
        content = refl;
        encoded = bytes;
        encodes = encode_name-eq-ok (range_text (l ∷ ls)) bytes e;
        few_bytes = ground (arith, few_bytes);
      })

  range_of-IsRange :
      (content : Bytes) (lines : List Text) (out : WorkspaceRangeResult)
      → check_range r ≡ ok r
      → range_of env r s content lines ≡ ok out
      → IsRange env.limits r lines out
  range_of-IsRange content [] out c h = range_of-empty content out h
  range_of-IsRange content (l ∷ ls) out c h = range_of-cons content l ls out c h

  range_of-IsOf :
      (content : Bytes) (lines : List Text) (out : WorkspaceRangeResult)
      → range_of env r s content lines ≡ ok out
      → (out.path ≡ r.path)
        × (out.content_hash ≡ from_bytes env.sha256 content)
        × (out.revision ≡ s.stats.revision)
  unfolding range_of
  range_of-IsOf content [] out h = ground arith
  range_of-IsOf content (l ∷ ls) out h =
      let (_, _, _, _, _, same) = range_steps content l ls out h in rw same (refl, refl, refl)

  read_range-steps :
      (out : WorkspaceRangeResult)
      → read_range env r s ≡ ok out
      → (content : Bytes) × (text : WorkspaceTextResult) × (read_text env r.path s ≡ ok text)
        × (range_of env r s content (split_normalized_lines text.content).0 ≡ ok out)
        × IsOf text out
  unfolding read_range read_text
  read_range-steps out h =
      let (_, v, h1) = >>=-eq-ok (validate_path env r.path) _ h in
      let (node, g, h2) = >>=-eq-ok (get_node s.root r.path) _ h1 in
      let (content, f, h3) = >>=-eq-ok (require_file node) _ h2 in
      let (text, d, h4) = >>=-eq-ok (decode_utf8 content) _ h3 in
      (
        content,
        record {
          path = r.path;
          content = text;
          content_hash = from_bytes env.sha256 content;
          revision = s.stats.revision;
        },
        rw (v, g, f, d) refl,
        h4,
        range_of-IsOf content (split_normalized_lines text).0 out h4,
      )

  -- A range that a well-formed request returns lies within the file: it is the lines of the
  -- file's text from the first to the last line asked for, to the end of the file if that names
  -- no last line or one behind it, and nothing if the file has no lines; it keeps the limits on
  -- lines and on bytes, and tells of the file's path, hash and revision as `read_text` does.
  pub read_range-IsRange :
      (out : WorkspaceRangeResult)
      → check_range r ≡ ok r
      → read_range env r s ≡ ok out
      → (text : WorkspaceTextResult) × (read_text env r.path s ≡ ok text)
        × IsRange env.limits r (split_normalized_lines text.content).0 out
        × IsOf text out
  read_range-IsRange out c h =
      let (content, text, read, e, of_text) = read_range-steps out h in
      (
        text,
        read,
        range_of-IsRange content (split_normalized_lines text.content).0 out c e,
        of_text,
      )

  range_of-all :
      (content : Bytes) (lines : List Text) (out : WorkspaceRangeResult)
      → r.start_line ≡ 1
      → r.end_line ≡ none
      → range_of env r s content lines ≡ ok out
      → out.content ≡ join newline lines
  range_of-all content [] out b e h = unfold range_of join in ground arith
  range_of-all content (l ∷ ls) out b e h =
      let (_, _, _, _, _, same) = range_steps content l ls out h in
      ap (λ (o : WorkspaceRangeResult). o.content) same
      ∙ unfold range_text last_line in
        rw (b, e, min_self (length (l ∷ ls)), take-length (l ∷ ls)) refl

  -- A range from the first line without a last line, if it is returned, is the whole text of the file
  -- with normalised line endings, less a newline at its end.
  pub read_range-all :
      (out : WorkspaceRangeResult)
      → r.start_line ≡ 1
      → r.end_line ≡ none
      → read_range env r s ≡ ok out
      → (text : WorkspaceTextResult) × (read_text env r.path s ≡ ok text)
        × (out.content ++ (if (split_normalized_lines text.content).1 then newline ∷ [] else [])
            ≡ normalize_line_endings text.content)
  read_range-all out b e h =
      let (content, text, read, g, _) = read_range-steps out h in
      (
        text,
        read,
        rw (range_of-all content (split_normalized_lines text.content).0 out b e g)
            (unlines-split_normalized_lines text.content),
      )
