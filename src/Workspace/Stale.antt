-- ===== src/Workspace/Stale.antt =====
-- A write that expects what is no longer there.
use mem_sandbox.Workspace.Op.{lift, current, ◌>>=◌, Ends-result}
use mem_sandbox.Base.{
  ltb, Bool-cases, length, ℕ, ◌≤◌, ◌≡◌, ◌≢◌, refl, ap, ◌∙◌, inl, inr, false, some, arith,
}
use mem_sandbox.Errors.{Error, path_already_exists, stale_content, err, ok}
use mem_sandbox.Strings.{text_eq_iff}
use mem_sandbox.Utf8.{Bytes}
use mem_sandbox.Paths.{is_root}
use mem_sandbox.Models.{
  ContentHash, WritePrecondition, path_must_not_exist, content_hash_must_equal,
  WorkspaceWriteRequest, WorkspaceMutation,
}
use mem_sandbox.Tree.{file}
use mem_sandbox.Hashing.{from_bytes}
use mem_sandbox.Measure.{Env}
use mem_sandbox.State.{State, validate_path}
use mem_sandbox.Workspace.Writes.{find, hash_eq, check_precondition, write}
use mem_sandbox.Workspace.WriteEnds.{write-Ends}
use mem_sandbox.Workspace.Contents.{find-write}

-- What a request may not expect of a file with this hash, and the error that tells of it.
pub data Refuses (current : ContentHash) : WritePrecondition → Error → Type 0 where
  exists : Refuses current path_must_not_exist path_already_exists
  stale :
      (expected : ContentHash)
      → current ≢ expected
      → Refuses current (content_hash_must_equal expected) stale_content

hash_eq-false : (a b : ContentHash) → a ≢ b → hash_eq a b ≡ false
hash_eq-false a b ne = elim (Bool-cases (hash_eq a b)) [
  | inr e ↦ e
  | inl e ↦ absurd (ne (ap (λ d. record { digest = d }) ((text_eq_iff a.digest b.digest).0 e)))
]

check_precondition-Refuses :
    (env : Env) (content : Bytes) (condition : WritePrecondition) (e : Error)
    → Refuses (from_bytes env.sha256 content) condition e
    → check_precondition env (some (file content)) condition ≡ err e
unfolding check_precondition
check_precondition-Refuses env content _ _ exists = refl
check_precondition-Refuses env content _ _ (stale expected ne) =
    rw (hash_eq-false _ _ ne, check_precondition) refl

not_over : (a b : ℕ) → a ≤ b → ltb b a ≡ false
not_over a b h = ground (arith, h)

-- After a write of a path that returned, a later write to the same path, of bytes within the
-- limit on files, that expects nothing there or a hash other than that of the bytes written
-- raises the error for that, and changes nothing: a writer that has not seen the file cannot
-- overwrite it.
pub write-write_stale :
    (env : Env) (s : State) (a : WorkspaceMutation) (r later : WorkspaceWriteRequest) (e : Error)
    → later.path ≡ r.path
    → length later.content ≤ env.limits.max_file_bytes
    → Refuses (from_bytes env.sha256 r.content) later.precondition e
    → (write env r s).0 ≡ ok a
    → write env later (write env r s).1 ≡ (err e, (write env r s).1)
write-write_stale env s a r later e same small refuses h =
    let w = Ends-result a (write-Ends env r s) h in
    let held = (find-write env s a r h).0 in
    let valid : validate_path env later.path ≡ ok tt = rw (same) w.valid in
    let root = ap is_root same ∙ w.put.not_root in
    let found : find (write env r s).1.root later.path ≡ ok (some (file r.content)) =
      rw (same) held in
    refused (write env r s).1 valid root found
  where
    refused :
        (t : State)
        → validate_path env later.path ≡ ok tt
        → is_root later.path ≡ false
        → find t.root later.path ≡ ok (some (file r.content))
        → write env later t ≡ (err e, t)
    refused t valid root found =
        unfold write ◌>>=◌ lift current in
        rw
          (
            valid,
            root,
            not_over _ _ small,
            found,
            check_precondition-Refuses env r.content later.precondition e refuses,
          )
          refl
