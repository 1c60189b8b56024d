-- ===== src/Patching/Parse.antt =====
-- The parts of `parse_unified_diff` of src/mem_sandbox/workspace/patching.py: paths of headers, the
-- ranges of hunks, and the lines of a hunk. `\d` of the header's pattern is the value of a decimal
-- digit of Unicode, a parameter, and so is the resolving of paths, as in the source. A loop has the lines that are left where the source has an index.
pub mod Counted
use mem_sandbox.Base.{
  ltb, ◌==◌, if◌then◌else◌, length, drop, ℕ, ◌+◌, ◌-◌, ◌*◌, Bool, true, false, not, ◌||◌, Option,
  none, some, List, [], ◌∷◌, ◌++◌,
}
use mem_sandbox.Errors.{
  Error, invalid_patch, value_error, overflow_error, assertion_error, cancelled_error, Result, err,
  ok, raise_if, ◌>>=◌, ◌>>◌,
}
use mem_sandbox.Strings.{Text, codes, text_eq, starts_with}
use mem_sandbox.Paths.{SandboxPath}
use mem_sandbox.Lines.{newline}
use mem_sandbox.Patching.{PatchLine, PatchHunk}

abbrev pub tab : ℕ
tab = 9

-- `lines.pop()` of an empty last line
unfoldable pub without_empty_last : List Text → List Text
without_empty_last [] = []
without_empty_last (l ∷ []) = if text_eq l [] then [] else l ∷ []
without_empty_last (l ∷ m ∷ ls) = l ∷ without_empty_last (m ∷ ls)

-- The errors that `except (SandboxError, TypeError, ValueError)` meets.
abbrev pub is_caught : Error → Bool
is_caught overflow_error = false
is_caught assertion_error = false
is_caught cancelled_error = false
is_caught e = true

-- The end of `_parse_header_path`
unfoldable pub as_patch_error : Result SandboxPath → Result SandboxPath
as_patch_error (ok p) = ok p
as_patch_error (err e) = if is_caught e then err invalid_patch else err e

-- `.split("\t", 1)[0]`
unfoldable pub before_tab : Text → Text
before_tab [] = []
before_tab (c ∷ t) = let rest = before_tab t in if c == tab then [] else c ∷ rest

-- The path of a header without `a/` or `b/`.
unfoldable pub strip_side : Text → Text
strip_side t = if starts_with (codes "a/") t || starts_with (codes "b/") t then drop 2 t else t

-- `_validate_hunk_range`; counts are natural numbers.
unfoldable pub validate_hunk_range : ℕ → ℕ → ℕ → ℕ → Result (Unit {0})
validate_hunk_range old_start old_count new_start new_count = do
  raise_if (ltb old_start (if old_count == 0 then 0 else 1)) invalid_patch
  raise_if (ltb new_start (if new_count == 0 then 0 else 1)) invalid_patch

-- The number that digits make behind those of `n`.
unfoldable pub int_of : List ℕ → ℕ → Result ℕ
int_of [] n = ok n
int_of (d ∷ ds) n = int_of ds (n * 10 + d)

-- `int(group or "1")`: Python refuses more than 4300 digits.
unfoldable pub int_or_one : Option (List ℕ) → Result ℕ
int_or_one none = ok 1
int_or_one (some ds) = do raise_if (ltb 4300 (length ds)) value_error; int_of ds 0

abbrev pub no_newline_marker : Text
no_newline_marker = codes "\\ No newline at end of file"

-- A line of a hunk, or the refusal of it.
unfoldable pub patch_line : Text → Result PatchLine
patch_line [] = err invalid_patch
patch_line (c ∷ t) =
    if c == b' ' || c == b'-' || c == b'+'
    then ok (record { prefix = c; content = t })
    else err invalid_patch

abbrev pub counts_old : PatchLine → ℕ
counts_old l = if l.prefix == b' ' || l.prefix == b'-' then 1 else 0

abbrev pub counts_new : PatchLine → ℕ
counts_new l = if l.prefix == b' ' || l.prefix == b'+' then 1 else 0

abbrev pub changes : PatchLine → Bool
changes l = l.prefix == b'-' || l.prefix == b'+'

-- The variables of the loop over a hunk's lines.
pub record Body : Type 0 where
  pub lines : List PatchLine
  pub old_seen : ℕ
  pub new_seen : ℕ
  pub has_change : Bool

abbrev pub no_body : Body
no_body = record { lines = []; old_seen = 0; new_seen = 0; has_change = false }

abbrev pub add_line : Body → PatchLine → Body
add_line b l = record {
  lines = b.lines ++ l ∷ [];
  old_seen = b.old_seen + counts_old l;
  new_seen = b.new_seen + counts_new l;
  has_change = b.has_change || changes l;
}

-- One line that is no marker.
unfoldable pub take_line : ℕ → ℕ → Text → Body → Result Body
take_line old_count new_count line b = do
  l ← patch_line line
  let more = add_line b l
  raise_if (ltb old_count more.old_seen || ltb new_count more.new_seen) invalid_patch
  ok more

-- The loop over a hunk's lines: the lines, and what is left.
unfoldable pub take_body : ℕ → ℕ → List Text → Body → Result (Body × List Text)
take_body old_count new_count [] b =
    if ltb b.old_seen old_count || ltb b.new_seen new_count then err invalid_patch else ok (b, [])
take_body old_count new_count (l ∷ ls) b =
    let skipped = take_body old_count new_count ls b in
    let taken : Result (Body × List Text) = elim (take_line old_count new_count l b) [
      | err e ↦ err e
      | ok more ↦ take_body old_count new_count ls more
    ] in
    if not (ltb b.old_seen old_count || ltb b.new_seen new_count)
    then ok (b, l ∷ ls)
    else if text_eq l no_newline_marker
    then skipped
    else taken

-- The hunk of these ranges, of the lines behind its header: what is left is behind it.
unfoldable pub hunk_of : ℕ → ℕ → ℕ → ℕ → List Text → Result (PatchHunk × List Text)
hunk_of old_start old_count new_start new_count ls = do
  validate_hunk_range old_start old_count new_start new_count
  (body, left) ← take_body old_count new_count ls no_body
  raise_if (not body.has_change) invalid_patch
  let hunk : PatchHunk = record {
    old_start = old_start;
    old_count = old_count;
    new_start = new_start;
    new_count = new_count;
    lines = body.lines;
  }
  ok (hunk, left)

-- What stands behind a file's hunks: nothing, or the next file.
unfoldable pub check_behind : List Text → Result (Unit {0})
check_behind [] = ok tt
check_behind (l ∷ ls) = raise_if (not (starts_with (codes "--- ") l)) invalid_patch

unfoldable pub seen_path : SandboxPath → List SandboxPath → Bool
seen_path p [] = false
seen_path p (q ∷ qs) = text_eq q.value p.value || seen_path p qs

module _ (resolve_path : Text → Result SandboxPath) where
  -- `_parse_header_path`, for headers of four characters
  unfoldable pub parse_header_path : Text → Result SandboxPath
  parse_header_path line =
      let raw = before_tab (drop 4 line) in
      if text_eq raw []
      then err invalid_patch
      else if text_eq raw (codes "/dev/null")
      then err invalid_patch
      else as_patch_error (resolve_path (strip_side raw))

  -- The two headers of a file, the first with the lines behind it: the path, and what is left.
  unfoldable pub parse_file_header :
      Text → List Text → List SandboxPath → Result (SandboxPath × List Text)
  parse_file_header header ls seen = do
    raise_if (not (starts_with (codes "--- ") header)) invalid_patch
    old_path ← parse_header_path header
    elim ls [
      | [] ↦ err invalid_patch
      | second ∷ rest ↦ do
        raise_if (not (starts_with (codes "+++ ") second)) invalid_patch
        new_path ← parse_header_path second
        raise_if (not (text_eq old_path.value new_path.value)) invalid_patch
        raise_if (seen_path old_path seen) invalid_patch
        ok (old_path, rest)
    ]

-- The ranges of a hunk's header, as the pattern's groups.
pub record HunkRange : Type 0 where
  pub start : List ℕ
  pub count : Option (List ℕ)

module _ (digit_value : ℕ → Option ℕ) where
  -- `\d+`: the values of the digits, and what is left.
  unfoldable pub digits : Text → List ℕ × Text
  digits [] = ([], [])
  digits (c ∷ t) =
      let rest = digits t in
      elim (digit_value c) [ none ↦ ([], c ∷ t) | some d ↦ (d ∷ rest.0, rest.1) ]

  unfoldable pub some_digits : Text → Option (List ℕ × Text)
  some_digits t = elim (digits t).0 [ [] ↦ none | d ∷ ds ↦ some (d ∷ ds, (digits t).1) ]

  -- `\d+(?:,\d+)?`; neither the comma nor the blank is a digit, so no other split can match.
  unfoldable pub hunk_range : Text → Option (HunkRange × Text)
  hunk_range t = elim (some_digits t) [
    | none ↦ none
    | some (start, rest) ↦
        if starts_with (codes ",") rest
        then elim (some_digits (drop 1 rest)) [
          | none ↦ none
          | some (count, behind) ↦ some (record { start = start; count = some count }, behind)
        ]
        else some (record { start = start; count = none }, rest)
  ]

  -- A literal of the pattern, and then a range.
  abbrev pub range_behind : Text → Text → Option (HunkRange × Text)
  range_behind literal t =
      if starts_with literal t then hunk_range (drop (length literal) t) else none

  -- `_HUNK_HEADER.fullmatch`
  unfoldable pub match_header : Text → Option (HunkRange × HunkRange)
  match_header line = elim (range_behind (codes "@@ -") line) [
    | none ↦ none
    | some (old, rest) ↦ elim (range_behind (codes " +") rest) [
      | none ↦ none
      | some (new, behind) ↦
          if text_eq behind (codes " @@") || starts_with (codes " @@ ") behind
          then some (old, new)
          else none
    ]
  ]

  -- A round of the loop over the hunks, at a header and the lines behind it.
  unfoldable pub parse_hunk : Text → List Text → Result (PatchHunk × List Text)
  parse_hunk header ls = elim (match_header header) [
    | none ↦ err invalid_patch
    | some (old, new) ↦ do
      old_start ← int_or_one (some old.start)
      old_count ← int_or_one old.count
      new_start ← int_or_one (some new.start)
      new_count ← int_or_one new.count
      hunk_of old_start old_count new_start new_count ls
  ]
