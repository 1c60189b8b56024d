-- ===== src/Paths/Resolve.antt =====
-- `SandboxPath.resolve`: what it returns lies below the root, and canonical texts come back.
use mem_sandbox.Base.{
  ◌==◌, Option-cases, length, All, ℕ, ◌≤◌, ◌<◌, ◌≡◌, refl, sym, ap, ◌∙◌, inl, inr, false, not, ◌&&◌,
  Option, some, List, [], ◌∷◌, ◌++◌, append_assoc, append-nil, arith,
}
use mem_sandbox.Errors.{ok}
use mem_sandbox.Strings.{Text, text_eq, has_char, starts_with, text_eq_refl, split, join}
use mem_sandbox.Utf8.{Bytes, encode}
use mem_sandbox.Paths.{
  slash, root_value, root_prefix, workspace_name, SandboxPath, construct, utf8_length,
  resolve_segments, start_parts, is_outside, check_segments, confine, resolve,
}
use mem_sandbox.Paths.Render.{
  IsSegment, render, workspace_name-IsSegment, trail-eq-join, split-trail, has_no_nul-trail,
}
use mem_sandbox.Paths.Canonical.{
  at, begins_with_slash, below_root, construct-render, construct-eq-ok,
}

-- The path keeps the limits on its segments and on its whole text.
pub record Fits (ss : List Text) (max_path_bytes max_segment_bytes : ℕ) : Type 0 where
  pub segments : check_segments max_segment_bytes (workspace_name ∷ ss) ≡ ok tt
  pub size : ℕ
  pub measured : utf8_length (render ss) ≡ ok size
  pub within : size ≤ max_path_bytes
  pub path_limit : 0 < max_path_bytes
  pub segment_limit : 0 < max_segment_bytes

module _ (ss : List Text) (a : All IsSegment ss) (mp ms : ℕ) where
  normalized-eq : slash ∷ join slash (workspace_name ∷ ss) ≡ render ss
  normalized-eq = sym (trail-eq-join workspace_name ss)

  inside :
      (not (text_eq (render ss) root_value) && not (starts_with root_prefix (render ss))) ≡ false
  inside = ground (arith, below_root ss)

  -- From the segments of a canonical path within the limits, the path is built.
  pub confine-at : Fits ss mp ms → confine (workspace_name ∷ ss) mp ms ≡ ok (at ss)
  unfolding confine is_outside
  confine-at f =
      rw (text_eq_refl workspace_name, normalized-eq, inside, f.segments, f.measured)
        (rw (construct-render ss a) (ground (arith, f.within)))

resolve_segments-append :
    (done ss : List Text) → All IsSegment ss → resolve_segments done ss ≡ ok (done ++ ss)
unfolding resolve_segments
resolve_segments-append done [] a = rw append-nil
resolve_segments-append done (s ∷ ss) (h, a) =
    rw (h.not_empty, h.not_dot, h.not_dotdot, h.no_nul)
      (resolve_segments-append (done ++ s ∷ []) ss a ∙ rw append_assoc)

resolve_segments-render :
    (ss : List Text)
    → All IsSegment ss
    → resolve_segments [] (split slash (render ss)) ≡ ok (workspace_name ∷ ss)
resolve_segments-render ss a = rw (split-trail workspace_name ss (workspace_name-IsSegment, a)) (
    unfold resolve_segments text_eq in
    resolve_segments-append [] (workspace_name ∷ ss) (workspace_name-IsSegment, a))

start_parts-render :
    (ss : List Text) (cwd : Option SandboxPath) → start_parts (render ss) cwd ≡ ok []
unfolding start_parts
start_parts-render ss cwd = rw (begins_with_slash ss)

-- A canonical path within the limits is resolved to itself, whatever the working directory.
pub resolve-render :
    (ss : List Text) (cwd : Option SandboxPath) (mp ms : ℕ)
    → All IsSegment ss
    → Fits ss mp ms
    → resolve (render ss) cwd mp ms ≡ ok (at ss)
unfolding resolve
resolve-render ss cwd mp ms a f =
    rw (not_empty, no_nul, mp_pos, ms_pos, start_parts-render ss cwd, resolve_segments-render ss a)
      (confine-at ss a mp ms f)
  where
    not_empty : text_eq (render ss) [] ≡ false
    not_empty = unfold text_eq in refl

    no_nul : has_char 0 (render ss) ≡ false
    no_nul = has_no_nul-trail (workspace_name ∷ ss) (workspace_name-IsSegment, a)

    mp_pos : (mp == 0) ≡ false
    mp_pos = ground (arith, f.path_limit)

    ms_pos : (ms == 0) ≡ false
    ms_pos = ground (arith, f.segment_limit)

-- A path lies below the root, and its encoded text keeps the limit.
pub record IsConfined (mp : ℕ) (p : SandboxPath) : Type 0 where
  pub segments : List Text
  pub proper : All IsSegment segments
  pub canonical : p ≡ at segments
  pub encoded : Bytes
  pub encodes : encode p.value ≡ some encoded
  pub within : length encoded ≤ mp

utf8_length-eq-ok :
    (t : Text) (n : ℕ) → utf8_length t ≡ ok n → (b : Bytes) × (encode t ≡ some b) × (length b ≡ n)
unfolding utf8_length
utf8_length-eq-ok t n h = elim (Option-cases (encode t)) [
  | inl e ↦ absurd (cc (rw (e, utf8_length) at h))
  | inr (b, e) ↦ (b, e, ground arith)
]

-- The steps that a successful end of `resolve` has taken.
confine_steps :
    (found : List Text) (mp ms : ℕ) (p : SandboxPath)
    → confine found mp ms ≡ ok p
    → (n : ℕ) × (utf8_length (slash ∷ join slash found) ≡ ok n)
      × (n ≤ mp)
      × (construct (slash ∷ join slash found) ≡ ok p)
unfolding confine
confine_steps found mp ms p h = ground arith

resolve_steps :
    (value : Text) (cwd : Option SandboxPath) (mp ms : ℕ) (p : SandboxPath)
    → resolve value cwd mp ms ≡ ok p
    → (start : List Text) × (start_parts value cwd ≡ ok start)
      × (found : List Text) × (resolve_segments start (split slash value) ≡ ok found)
      × (confine found mp ms ≡ ok p)
unfolding resolve
resolve_steps value cwd mp ms p h = ground arith

-- Every path that `resolve` returns is the root or lies below it, made of proper segments, and its
-- encoded text keeps the limit on bytes.
pub resolve-IsConfined :
    (value : Text) (cwd : Option SandboxPath) (mp ms : ℕ) (p : SandboxPath)
    → resolve value cwd mp ms ≡ ok p
    → IsConfined mp p
resolve-IsConfined value cwd mp ms p h =
    let (_, _, found, _, c) = resolve_steps value cwd mp ms p h in
    let (n, m, l, built) = confine_steps found mp ms p c in
    let (b, e, size) = utf8_length-eq-ok (slash ∷ join slash found) n m in
    let (same, accepted) = construct-eq-ok (slash ∷ join slash found) p built in
    elim accepted [
      | inl empty ↦ absurd (cc empty)
      | inr (ss, a, r) ↦ record {
        segments = ss;
        proper = a;
        canonical = ap (λ v. record { value = v }) (same ∙ r);
        encoded = b;
        encodes = rw same e;
        within = omega arith;
      }
    ]
