-- ===== src/Workspace/Patches/Computed.antt =====
-- The updates that a patch computes, file by file.
use mathlib.Core.Path.{subst}
use mem_sandbox.Base.{
  ltb, Bool-cases, length, All, ◌≤◌, ◌≡◌, refl, sym, ap, ◌∙◌, inl, inr, false, Option, none, some,
  List, [], ◌∷◌,
}
use mem_sandbox.Errors.{
  stale_content, file_size_limit_exceeded, Result, err, ok, raise_if, raise_if-eq-ok, >>=-eq-ok,
}
use mem_sandbox.Strings.{Text, text_eq, text_eq_iff}
use mem_sandbox.Utf8.{Bytes}
use mem_sandbox.Paths.{SandboxPath, is_root, parts}
use mem_sandbox.Models.{ContentHash, ExpectedFileHash}
use mem_sandbox.Tree.{Node, file, directory, Children, get_node, require_file}
use mem_sandbox.Paths.Ancestors.{Diverges-sym}
use mem_sandbox.Patching.{FilePatch, apply_file_patch}
use mem_sandbox.Patching.Files.Ends.{AreDistinct}
use mem_sandbox.Hashing.{from_bytes}
use mem_sandbox.Measure.{Env}
use mem_sandbox.Workspace.Reads.{decode_utf8}
use mem_sandbox.Workspace.Writes.{find, hash_eq}
use mem_sandbox.Workspace.Patches.Updates.{
  FileUpdate, expected_for, is_stale, encode_patched, file_update, file_updates,
}
use mem_sandbox.Workspace.Patches.Apart.{
  IsMade, files-Diverges, file-not_root, AllApart, PairwiseApart,
}
use mem_sandbox.Workspace.WriteEnds.{within_limit}

is_stale-false :
    (wanted : Option ContentHash) (previous : ContentHash)
    → is_stale wanted previous ≡ false
    → (expected : ContentHash) → wanted ≡ some expected
    → previous ≡ expected
is_stale-false none previous h expected e = absurd (cc e)
is_stale-false (some hash) previous h expected e = elim (Bool-cases (hash_eq hash previous)) [
  | inl k ↦
      let same : hash ≡ expected = cc e in
      ap (λ d. record { digest = d }) (sym ((text_eq_iff hash.digest previous.digest).0 k)) ∙ same
  | inr k ↦ absurd (cc (rw k at h))
]

-- Before, the path of the file patch held a file whose hash was the expected one, if one was given,
-- and after, it holds the patched text.
pub record IsPatched (env : Env) (es : List ExpectedFileHash) (before after : Children)
    (f : FilePatch) : Type 0 where
  pub old : Bytes
  pub was : find before f.path ≡ ok (some (file old))
  pub fresh :
      (expected : ContentHash)
      → expected_for f.path es ≡ some expected
      → from_bytes env.sha256 old ≡ expected
  pub text : Text
  pub decoded : decode_utf8 old ≡ ok text
  pub patched : Text
  pub applied : apply_file_patch text f ≡ ok patched
  pub new : Bytes
  pub encoded : encode_patched patched ≡ ok new
  pub fits : length new ≤ env.limits.max_file_bytes
  pub is : find after f.path ≡ ok (some (file new))

-- What an update is, of the tree it was computed from.
pub record IsUpdate (env : Env) (es : List ExpectedFileHash) (cs : Children) (f : FilePatch)
    (u : FileUpdate) : Type 0 where
  pub path : u.path ≡ f.path
  pub old : Bytes
  pub was : find cs f.path ≡ ok (some (file old))
  pub built :
      (after : Children)
      → find after u.path ≡ ok (some (file u.content))
      → IsPatched env es cs after f

module _ (env : Env) (es : List ExpectedFileHash) (cs : Children) where
  file_steps :
      (f : FilePatch) (node : Node) (old : Bytes)
      → get_node cs f.path ≡ ok node
      → require_file node ≡ ok old
      → find cs f.path ≡ ok (some (file old))
  unfolding get_node
  file_steps f (directory ds) old h k = absurd (cc k)
  file_steps f (file b) old h k = go (find cs f.path) refl
    where
      go : (r : Result (Option Node)) → find cs f.path ≡ r → find cs f.path ≡ ok (some (file old))
      go (err x) e = absurd (cc (rw e at h))
      go (ok none) e = absurd (cc (rw e at h))
      go (ok (some n)) e = e ∙ cc (rw e at h, k)

  file_update-IsUpdate :
      (f : FilePatch) (u : FileUpdate) → file_update env cs es f ≡ ok u → IsUpdate env es cs f u
  unfolding file_update
  file_update-IsUpdate f u h =
      let (node, got, h1) = >>=-eq-ok (get_node cs f.path) _ h in
      let (old, required, h2) = >>=-eq-ok (require_file node) _ h1 in
      let (_, fresh, h3) =
        >>=-eq-ok
          (raise_if (is_stale (expected_for f.path es) (from_bytes env.sha256 old)) stale_content) _
          h2 in
      let (text, decoded, h4) = >>=-eq-ok (decode_utf8 old) _ h3 in
      let (patched, applied, h5) = >>=-eq-ok (apply_file_patch text f) _ h4 in
      let (new, encoded, h6) = >>=-eq-ok (encode_patched patched) _ h5 in
      let (_, size, h7) =
        >>=-eq-ok (raise_if (ltb env.limits.max_file_bytes (length new)) file_size_limit_exceeded) _
          h6 in
      let update : FileUpdate = record {
        path = f.path;
        content = new;
        previous_hash = from_bytes env.sha256 old;
        current_hash = from_bytes env.sha256 new;
      } in
      let same : update ≡ u = cc h7 in
      subst (IsUpdate env es cs f) same (record {
        path = refl;
        old = old;
        was = file_steps f node old got required;
        built = λ after is. record {
          old = old;
          was = file_steps f node old got required;
          fresh = is_stale-false _ _ (raise_if-eq-ok _ _ _ fresh);
          text = text;
          decoded = decoded;
          patched = patched;
          applied = applied;
          new = new;
          encoded = encoded;
          fits = within_limit _ _ (raise_if-eq-ok _ _ _ size);
          is = is;
        };
      })

  -- An update of each file patch, in order.
  pub AreUpdates : List FilePatch → List FileUpdate → Type 0
  AreUpdates [] [] = Unit
  AreUpdates [] (u ∷ us) = ⊥
  AreUpdates (f ∷ fs) [] = ⊥
  AreUpdates (f ∷ fs) (u ∷ us) = IsUpdate env es cs f u × AreUpdates fs us

  pub file_updates-AreUpdates :
      (fs : List FilePatch) (us : List FileUpdate)
      → file_updates env cs es fs ≡ ok us
      → AreUpdates fs us
  unfolding file_updates AreUpdates
  file_updates-AreUpdates [] us h = let same : [] ≡ us = cc h in rw (← same) tt
  file_updates-AreUpdates (f ∷ fs) us h =
      let (u, one, h1) = >>=-eq-ok (file_update env cs es f) _ h in
      let (others, rest, h2) = >>=-eq-ok (file_updates env cs es fs) _ h1 in
      let same : u ∷ others ≡ us = cc h2 in
      rw (← same) (file_update-IsUpdate f u one, file_updates-AreUpdates fs others rest)

  -- A property of the paths of the file patches is one of the updates'.
  pub updates-All :
      (P : SandboxPath → Type 0) (fs : List FilePatch) (us : List FileUpdate)
      → AreUpdates fs us
      → All (λ (f : FilePatch). P f.path) fs
      → All (λ (u : FileUpdate). P u.path) us
  unfolding AreUpdates
  updates-All P [] [] a all = tt
  updates-All P [] (u ∷ us) a all = absurd a
  updates-All P (f ∷ fs) [] a all = absurd a
  updates-All P (f ∷ fs) (u ∷ us) (i, is) (p, rest) =
      (subst P (sym i.path) p, updates-All P fs us is rest)

  pub updates-not_root :
      (fs : List FilePatch) (us : List FileUpdate)
      → AreUpdates fs us
      → All (λ (u : FileUpdate). is_root u.path ≡ false) us
  unfolding AreUpdates
  updates-not_root [] [] a = tt
  updates-not_root [] (u ∷ us) a = absurd a
  updates-not_root (f ∷ fs) [] a = absurd a
  updates-not_root (f ∷ fs) (u ∷ us) (i, is) =
      (rw (i.path) (file-not_root cs f.path i.old i.was), updates-not_root fs us is)

  -- The files of updates lie apart from a file at another path.
  updates-AllApart :
      (p : SandboxPath) (b : Bytes) (fs : List FilePatch) (us : List FileUpdate)
      → IsMade p
      → find cs p ≡ ok (some (file b))
      → AreUpdates fs us
      → All (λ (f : FilePatch). IsMade f.path) fs
      → All (λ (f : FilePatch). text_eq p.value f.path.value ≡ false) fs
      → AllApart p us
  unfolding AreUpdates
  updates-AllApart p b [] [] m h a made ne = tt
  updates-AllApart p b [] (u ∷ us) m h a made ne = absurd a
  updates-AllApart p b (f ∷ fs) [] m h a made ne = absurd a
  updates-AllApart p b (f ∷ fs) (u ∷ us) m h (i, is) (made, mades) (ne, nes) = (
    rw (i.path) (
        Diverges-sym (parts p) (parts f.path)
          (files-Diverges p f.path cs b i.old m made h i.was ne)),
    updates-AllApart p b fs us m h is mades nes,
  )

  pub updates-PairwiseApart :
      (fs : List FilePatch) (us : List FileUpdate)
      → AreUpdates fs us
      → All (λ (f : FilePatch). IsMade f.path) fs
      → AreDistinct fs
      → PairwiseApart us
  unfolding AreUpdates AreDistinct PairwiseApart
  updates-PairwiseApart [] [] a made d = tt
  updates-PairwiseApart [] (u ∷ us) a made d = absurd a
  updates-PairwiseApart (f ∷ fs) [] a made d = absurd a
  updates-PairwiseApart (f ∷ fs) (u ∷ us) (i, is) (made, mades) (ne, d) = (
    rw (i.path) (updates-AllApart f.path i.old fs us made i.was is mades ne),
    updates-PairwiseApart fs us is mades d,
  )

  pub updates-IsPatched :
      (after : Children) (fs : List FilePatch) (us : List FileUpdate)
      → AreUpdates fs us
      → All (λ (u : FileUpdate). find after u.path ≡ ok (some (file u.content))) us
      → All (IsPatched env es cs after) fs
  unfolding AreUpdates
  updates-IsPatched after [] [] a found = tt
  updates-IsPatched after [] (u ∷ us) a found = absurd a
  updates-IsPatched after (f ∷ fs) [] a found = absurd a
  updates-IsPatched after (f ∷ fs) (u ∷ us) (i, is) (one, rest) =
      (i.built after one, updates-IsPatched after fs us is rest)
