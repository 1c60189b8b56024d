-- ===== src/Workspace/Apart.antt =====
-- What `_validate_transfer_paths` and `_validate_path` say of two paths.
use mem_sandbox.Base.{All, ◌≡◌, sym, ap, ◌∙◌, ◌≢◌, inl, inr, false, List, [], arith}
use mem_sandbox.Errors.{ok}
use mem_sandbox.Strings.{Text, text_eq, text_eq_refl}
use mem_sandbox.Paths.{SandboxPath, construct, is_root, parts, is_ancestor_of, resolve}
use mem_sandbox.Paths.Render.{IsSegment, render}
use mem_sandbox.Paths.Canonical.{at, construct-eq-ok}
use mem_sandbox.Paths.Parts.{parts-at}
use mem_sandbox.Paths.Ancestors.{Diverges, is_ancestor_of-at, Diverges-of_neither}
use mem_sandbox.Measure.{Env}
use mem_sandbox.State.{validate_path}
use mem_sandbox.Workspace.Transfers.{check_transfer}

-- The two paths are apart: neither is the root, and neither contains the other.
pub record Apart (p q : SandboxPath) : Type 0 where
  pub source_not_root : is_root p ≡ false
  pub destination_not_root : is_root q ≡ false
  pub diverges : Diverges (parts p) (parts q)

check_transfer_facts :
    (p q : SandboxPath) (u : Unit {0})
    → check_transfer p q ≡ ok u
    → (is_root p ≡ false)
      × (is_root q ≡ false)
      × (text_eq p.value q.value ≡ false)
      × (is_ancestor_of p q ≡ false)
      × (is_ancestor_of q p ≡ false)
unfolding check_transfer
check_transfer_facts p q u h = ground arith

Apart-at :
    (xs ys : List Text)
    → All IsSegment xs
    → All IsSegment ys
    → check_transfer (at xs) (at ys) ≡ ok tt
    → Apart (at xs) (at ys)
Apart-at xs ys a b h =
    let (rp, rq, ne, pq, qp) = check_transfer_facts (at xs) (at ys) tt h in
    record {
      source_not_root = rp;
      destination_not_root = rq;
      diverges =
          rw (parts-at xs a, parts-at ys b)
            (Diverges-of_neither xs ys (sym (is_ancestor_of-at xs ys a b) ∙ pq)
              (sym (is_ancestor_of-at ys xs b a) ∙ qp) (λ e. cc (ne, text_eq_refl (render ys), e)));
    }

validate_path-empty : (env : Env) (p : SandboxPath) → p.value ≡ [] → validate_path env p ≢ ok tt
unfolding validate_path resolve text_eq
validate_path-empty env p e h = ground arith

module _ (env : Env) where
  -- A path that the constructor built and that passed `_validate_path` is canonical.
  pub validated :
      (p : SandboxPath)
      → construct p.value ≡ ok p
      → validate_path env p ≡ ok tt
      → (ss : List Text) × All IsSegment ss × (p ≡ at ss)
  validated p built h =
      let (_, c) = construct-eq-ok p.value p built in
      elim c [
        | inl e ↦ absurd (validate_path-empty env p e h)
        | inr (ss, a, e) ↦ (ss, a, ap (λ v. record { value = v }) e)
      ]

  pub transfer-Apart :
      (p q : SandboxPath)
      → construct p.value ≡ ok p
      → construct q.value ≡ ok q
      → validate_path env p ≡ ok tt
      → validate_path env q ≡ ok tt
      → check_transfer p q ≡ ok tt
      → Apart p q
  transfer-Apart p q bp bq vp vq h =
      let (xs, a, e) = validated p bp vp in
      let (ys, b, f) = validated q bq vq in rw (e, f) (Apart-at xs ys a b (rw (e, f) at h))
