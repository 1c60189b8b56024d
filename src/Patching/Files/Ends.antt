-- ===== src/Patching/Files/Ends.antt =====
-- Parsing a patch ends on every text, and what it returns is counted.
use mathlib.Core.Path.{subst}
use mem_sandbox.Runs.{pure, bind-eq-pure, IsDone, bind-IsDone}
use mem_sandbox.Base.{
  ◌==◌, Bool-cases, length, drop, All, ℕ, zero, suc, ◌≤◌, ◌≡◌, refl, inl, inr, false, not, Option,
  some, List, [], ◌∷◌, arith,
}
use mem_sandbox.Errors.{invalid_patch, Result, err, ok, raise_if, raise_if-eq-ok, >>=-eq-ok}
use mem_sandbox.Strings.{Text, codes, text_eq, starts_with, split}
use mem_sandbox.Paths.{SandboxPath}
use mem_sandbox.Lines.{newline, normalize_line_endings}
use mem_sandbox.Patching.{PatchHunk, FilePatch}
use mem_sandbox.Patching.Parse.{
  without_empty_last, is_caught, as_patch_error, before_tab, strip_side, check_behind, seen_path,
  parse_header_path, parse_file_header, parse_hunk,
}
use mem_sandbox.Patching.Parse.Counted.{IsCounted, parse_hunk-IsCounted}
use mem_sandbox.Patching.Files.{parse_hunks, parse_files, parse_unified_diff}

-- A file of a parsed patch has a resolved path, it has hunks, and each is counted.
pub record IsWhole (resolve_path : Text → Result SandboxPath) (f : FilePatch) : Type 0 where
  pub raw : Text
  pub resolved : resolve_path raw ≡ ok f.path
  pub some_hunk : (length f.hunks == 0) ≡ false
  pub counted : All IsCounted f.hunks

-- No two files have the same path.
unfoldable pub AreDistinct : List FilePatch → Type 0
AreDistinct [] = Unit
AreDistinct (f ∷ fs) =
    All (λ (g : FilePatch). text_eq f.path.value g.path.value ≡ false) fs × AreDistinct fs

-- The path of a file's headers was resolved and not seen, and lines were read.
record IsHeader (resolve_path : Text → Result SandboxPath) (ls : List Text)
    (seen : List SandboxPath) (r : SandboxPath × List Text) : Type 0 where
  raw : Text
  resolved : resolve_path raw ≡ ok r.0
  fresh : seen_path r.0 seen ≡ false
  shorter : length r.1 ≤ length ls

as_patch_error-eq-ok :
    (r : Result SandboxPath) (p : SandboxPath) → as_patch_error r ≡ ok p → r ≡ ok p
unfolding as_patch_error
as_patch_error-eq-ok (ok q) p h = h
as_patch_error-eq-ok (err e) p h = elim (Bool-cases (is_caught e)) [
  | inl k ↦ absurd (cc (rw k at h))
  | inr k ↦ absurd (cc (rw k at h))
]

parse_header_path-eq-ok :
    (resolve_path : Text → Result SandboxPath) (line : Text) (p : SandboxPath)
    → parse_header_path resolve_path line ≡ ok p
    → resolve_path (strip_side (before_tab (drop 4 line))) ≡ ok p
unfolding parse_header_path
parse_header_path-eq-ok resolve_path line p h = as_patch_error-eq-ok _ p (ground (arith, h))

parse_file_header-IsHeader :
    (resolve_path : Text → Result SandboxPath) (header : Text) (ls : List Text)
    (seen : List SandboxPath) (r : SandboxPath × List Text)
    → parse_file_header resolve_path header ls seen ≡ ok r
    → IsHeader resolve_path ls seen r
unfolding parse_file_header
parse_file_header-IsHeader resolve_path header [] seen r h =
    let (_, _, h1) =
      >>=-eq-ok (raise_if (not (starts_with (codes "--- ") header)) invalid_patch) _ h in
    let (_, _, h2) = >>=-eq-ok (parse_header_path resolve_path header) _ h1 in absurd (cc h2)
parse_file_header-IsHeader resolve_path header (second ∷ rest) seen r h =
    let (_, _, h1) =
      >>=-eq-ok (raise_if (not (starts_with (codes "--- ") header)) invalid_patch) _ h in
    let (old, read, h2) = >>=-eq-ok (parse_header_path resolve_path header) _ h1 in
    let (_, _, h3) =
      >>=-eq-ok (raise_if (not (starts_with (codes "+++ ") second)) invalid_patch) _ h2 in
    let (new, _, h4) = >>=-eq-ok (parse_header_path resolve_path second) _ h3 in
    let (_, _, h5) = >>=-eq-ok (raise_if (not (text_eq old.value new.value)) invalid_patch) _ h4 in
    let (_, unseen, h6) = >>=-eq-ok (raise_if (seen_path old seen) invalid_patch) _ h5 in
    let same : (old, rest) ≡ r = cc h6 in
    subst (IsHeader resolve_path (second ∷ rest) seen) same (record {
      raw = _;
      resolved = parse_header_path-eq-ok resolve_path header old read;
      fresh = raise_if-eq-ok _ _ _ unseen;
      shorter = omega arith;
    })

-- Paths that are new to a list and one more are new to the list, and differ from the one.
still_new :
    (p : SandboxPath) (seen : List SandboxPath) (fs : List FilePatch)
    → All (λ (f : FilePatch). seen_path f.path (p ∷ seen) ≡ false) fs
    → All (λ (f : FilePatch). text_eq p.value f.path.value ≡ false) fs
      × All (λ (f : FilePatch). seen_path f.path seen ≡ false) fs
unfolding seen_path
still_new p seen [] a = (tt, tt)
still_new p seen (f ∷ fs) (e, a) =
    let (others, rest) = still_new p seen fs a in
    ((ground (arith, e), others), (ground (arith, e), rest))

module _ (digit_value : ℕ → Option ℕ) (resolve_path : Text → Result SandboxPath) where
  some_ok : {A : Type 0} {r : Result A} {a : A} → some r ≡ pure a → r ≡ ok a
  some_ok h = cc h

  raised_or : {A : Type 0} (r : Result A) → IsDone (some r)
  raised_or r = (r, refl)

  parse_hunks-IsDone :
      (fuel : ℕ) (ls : List Text)
      → length ls ≤ fuel
      → IsDone (parse_hunks digit_value resolve_path fuel ls)
  unfolding parse_hunks
  parse_hunks-IsDone fuel [] l = (_, refl)
  parse_hunks-IsDone zero (k ∷ ls) l = absurd (omega arith)
  parse_hunks-IsDone (suc fuel) (k ∷ ls) l = elim (Bool-cases (starts_with (codes "@@") k)) [
    | inr e ↦ (ok ([], k ∷ ls), rw (e, parse_hunks) refl)
    | inl e ↦
        rw (e, parse_hunks)
          (bind-IsDone (some (parse_hunk digit_value k ls)) _ (raised_or _) λ (hunk, rest) h.
            bind-IsDone (parse_hunks digit_value resolve_path fuel rest) _
              (parse_hunks-IsDone fuel rest
                (omega (arith, l, (parse_hunk-IsCounted digit_value k ls rest hunk (some_ok h)).1)))
              λ _ _. (_, refl))
  ]

  parse_hunks-IsCounted :
      (fuel : ℕ) (ls left : List Text) (hs : List PatchHunk)
      → parse_hunks digit_value resolve_path fuel ls ≡ pure (hs, left)
      → All IsCounted hs × (length left ≤ length ls)
  unfolding parse_hunks
  parse_hunks-IsCounted fuel [] left hs h =
      let none_read : hs ≡ [] = cc h in
      let nothing : left ≡ [] = cc h in rw (none_read, nothing) (tt, omega arith)
  parse_hunks-IsCounted zero (k ∷ ls) left hs h = absurd (cc h)
  parse_hunks-IsCounted (suc fuel) (k ∷ ls) left hs h =
      elim (Bool-cases (starts_with (codes "@@") k)) [
        | inr e ↦
            let h1 : pure ([], k ∷ ls) ≡ pure (hs, left) = rw (e, parse_hunks) at h in
            let none_read : hs ≡ [] = cc h1 in
            let all_left : left ≡ k ∷ ls = cc h1 in rw (none_read, all_left) (tt, omega arith)
        | inl e ↦
            let ((hunk, rest), p, h1) =
              bind-eq-pure (some (parse_hunk digit_value k ls)) _ (rw (e, parse_hunks) at h) in
            let ((hunks, behind), q, h2) =
              bind-eq-pure (parse_hunks digit_value resolve_path fuel rest) _ h1 in
            let (one, shorter) = parse_hunk-IsCounted digit_value k ls rest hunk (some_ok p) in
            let (others, less) = parse_hunks-IsCounted fuel rest behind hunks q in
            let read : hs ≡ hunk ∷ hunks = cc h2 in
            let same : left ≡ behind = cc h2 in
            rw (read, same) ((one, others), omega (arith, shorter, less))
      ]

  parse_files-IsDone :
      (fuel : ℕ) (ls : List Text) (seen : List SandboxPath)
      → length ls ≤ fuel
      → IsDone (parse_files digit_value resolve_path fuel ls seen)
  unfolding parse_files
  parse_files-IsDone fuel [] seen l = (_, refl)
  parse_files-IsDone zero (k ∷ ls) seen l = absurd (omega arith)
  parse_files-IsDone (suc fuel) (k ∷ ls) seen l =
      bind-IsDone (some (parse_file_header resolve_path k ls seen)) _ (raised_or _)
        λ (path, rest) h.
          bind-IsDone (parse_hunks digit_value resolve_path (length rest) rest) _
            (parse_hunks-IsDone (length rest) rest (omega arith))
            λ (hunks, left) q.
              bind-IsDone (some (raise_if (length hunks == 0) invalid_patch)) _ (raised_or _) λ _ _.
                bind-IsDone (some (check_behind left)) _ (raised_or _) λ _ _.
                  bind-IsDone (parse_files digit_value resolve_path fuel left (path ∷ seen)) _
                    (parse_files-IsDone fuel left (path ∷ seen) (
                      omega (
                        arith,
                        l,
                        (parse_hunks-IsCounted (length rest) rest left hunks q).1,
                        (parse_file_header-IsHeader resolve_path k ls seen (path, rest)
                            (some_ok h)).shorter,
                      )))
                    λ _ _. (_, refl)

  -- Parsing a patch ends on every text: with file patches, or with an exception.
  pub parse_unified_diff-total :
      (patch : Text)
      → (r : Result (List FilePatch)) × (parse_unified_diff digit_value resolve_path patch ≡ some r)
  unfolding parse_unified_diff
  parse_unified_diff-total patch =
      go (without_empty_last (split newline (normalize_line_endings patch))) refl
    where
      go :
          (lines : List Text)
          → without_empty_last (split newline (normalize_line_endings patch)) ≡ lines
          → IsDone (parse_unified_diff digit_value resolve_path patch)
      go [] e = (err invalid_patch, rw (e, parse_unified_diff) refl)
      go (l ∷ ls) e =
          rw (e, parse_unified_diff)
            (parse_files-IsDone (length (l ∷ ls)) (l ∷ ls) [] (omega arith))

  parse_files-IsWhole :
      (fuel : ℕ) (ls : List Text) (seen : List SandboxPath) (fs : List FilePatch)
      → parse_files digit_value resolve_path fuel ls seen ≡ pure fs
      → All (IsWhole resolve_path) fs
        × AreDistinct fs
        × All (λ (f : FilePatch). seen_path f.path seen ≡ false) fs
  unfolding parse_files AreDistinct
  parse_files-IsWhole fuel [] seen fs h =
      let nothing : [] ≡ fs = cc h in rw (← nothing) (tt, tt, tt)
  parse_files-IsWhole zero (k ∷ ls) seen fs h = absurd (cc h)
  parse_files-IsWhole (suc fuel) (k ∷ ls) seen fs h =
      let ((path, rest), p, h1) =
        bind-eq-pure (some (parse_file_header resolve_path k ls seen)) _ h in
      let ((hunks, left), q, h2) =
        bind-eq-pure (parse_hunks digit_value resolve_path (length rest) rest) _ h1 in
      let (_, some_hunk, h3) =
        bind-eq-pure (some (raise_if (length hunks == 0) invalid_patch)) _ h2 in
      let (_, _, h4) = bind-eq-pure (some (check_behind left)) _ h3 in
      let (files, r, h5) =
        bind-eq-pure (parse_files digit_value resolve_path fuel left (path ∷ seen)) _ h4 in
      let (whole, distinct, new) = parse_files-IsWhole fuel left (path ∷ seen) files r in
      let (others, still) = still_new path seen files new in
      let header = parse_file_header-IsHeader resolve_path k ls seen (path, rest) (some_ok p) in
      let file : FilePatch = record { path = path; hunks = hunks } in
      let read : file ∷ files ≡ fs = cc h5 in
      subst
        (λ (gs : List FilePatch).
          All (IsWhole resolve_path) gs
          × AreDistinct gs
          × All (λ (f : FilePatch). seen_path f.path seen ≡ false) gs)
        read
        (
          (
            record {
              raw = header.raw;
              resolved = header.resolved;
              some_hunk = raise_if-eq-ok _ _ _ (some_ok some_hunk);
              counted = (parse_hunks-IsCounted (length rest) rest left hunks q).0;
            },
            whole,
          ),
          (others, distinct),
          (header.fresh, still),
        )

  -- In a patch that is parsed, each path is one that was resolved, each file has hunks, no two files have the same path, and in each hunk
  -- the old and the new lines are as many as its header says and some line is a change.
  pub parse_unified_diff-IsWhole :
      (patch : Text) (fs : List FilePatch)
      → parse_unified_diff digit_value resolve_path patch ≡ pure fs
      → All (IsWhole resolve_path) fs × AreDistinct fs
  unfolding parse_unified_diff
  parse_unified_diff-IsWhole patch fs h =
      go (without_empty_last (split newline (normalize_line_endings patch))) refl
    where
      go :
          (lines : List Text)
          → without_empty_last (split newline (normalize_line_endings patch)) ≡ lines
          → All (IsWhole resolve_path) fs × AreDistinct fs
      go [] e = absurd (cc (rw (e, parse_unified_diff) at h))
      go (l ∷ ls) e =
          let (whole, distinct, _) =
            parse_files-IsWhole (length (l ∷ ls)) (l ∷ ls) [] fs
              (rw (e, parse_unified_diff) at h) in
          (whole, distinct)
