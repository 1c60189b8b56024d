-- ===== src/Tree/Parents.antt =====
-- What `_ensure_parent` leaves: the parent is a directory, and every walk that diverges from the
-- path ends as before.
use mathlib.Core.Path.{subst}
use mem_sandbox.Base.{
  ◌≡◌, refl, ◌∙◌, inl, inr, Bool, true, false, Option, none, some, List, [], ◌∷◌, ◌++◌, arith,
}
use mem_sandbox.Errors.{ok}
use mem_sandbox.Strings.{Text}
use mem_sandbox.Paths.{SandboxPath, join_path}
use mem_sandbox.Models.{WorkspaceLimits}
use mem_sandbox.Tree.{
  Node, file, directory, Children, empty, get, put, try_get_node, next_directory,
  ensure_directories,
}
use mem_sandbox.Tree.Dict.{get-put_self, get-put_ne}
use mem_sandbox.Tree.Places.{
  DirectoryAt, try_get_node-child, try_get_node-missing, try_get_node-same,
}
use mem_sandbox.Paths.Ancestors.{Diverges, Diverges-not_nil}

-- The steps of the loop at one segment.
ensure_steps :
    (create : Bool) (limits : WorkspaceLimits) (cs : Children) (t : SandboxPath) (s : Text)
    (ss : List Text) (out : Children)
    → ensure_directories create limits cs t (s ∷ ss) ≡ ok out
    → (here : SandboxPath) × (join_path t (s ∷ []) limits.max_path_bytes limits.max_segment_bytes
        ≡ ok here)
      × (next : Children) × (next_directory create (get s cs) ≡ ok next)
      × (filled : Children) × (ensure_directories create limits next here ss ≡ ok filled)
      × (put s (directory filled) cs ≡ out)
unfolding ensure_directories
ensure_steps create limits cs t s ss out h = ground arith

-- After a successful run the walk along the segments ends at a directory.
pub ensure_directories-DirectoryAt :
    (create : Bool) (limits : WorkspaceLimits) (cs : Children) (t : SandboxPath) (ss : List Text)
    (out : Children)
    → ensure_directories create limits cs t ss ≡ ok out
    → (d : Children) × DirectoryAt ss out d
ensure_directories-DirectoryAt create limits cs t [] out h = (out, unfold try_get_node in refl)
ensure_directories-DirectoryAt create limits cs t (s ∷ ss) out h =
    let (here, _, next, _, filled, below, e) = ensure_steps create limits cs t s ss out h in
    let (d, found) = ensure_directories-DirectoryAt create limits next here ss filled below in
    (
      d,
      rw (← e) (
          try_get_node-child s ss _ (directory filled) (get-put_self s (directory filled) cs)
          ∙ found),
    )

-- A directory that was made or found reads like the entry that it came from.
next_directory-same :
    (create : Bool) (s x : Text) (q : List Text) (cs next : Children) (o : Option Node)
    → get s cs ≡ o
    → next_directory create o ≡ ok next
    → try_get_node (directory next) (x ∷ q) ≡ try_get_node (directory cs) (s ∷ x ∷ q)
next_directory-same true s x q cs next none e h =
    let made : empty ≡ next = ground arith in
    rw (try_get_node-missing s (x ∷ q) cs e, ← made) (unfold try_get_node get in refl)
next_directory-same false s x q cs next none e h = absurd (cc h)
next_directory-same create s x q cs next (some (file b)) e h = absurd (cc h)
next_directory-same create s x q cs next (some (directory d)) e h =
    let found : d ≡ next = ground arith in
    rw (try_get_node-child s (x ∷ q) cs (directory d) e, found)

pub ensure_directories-outside :
    (create : Bool) (limits : WorkspaceLimits) (cs : Children) (t : SandboxPath) (ss : List Text)
    (k : Text) (out : Children) (q : List Text)
    → ensure_directories create limits cs t ss ≡ ok out
    → Diverges (ss ++ k ∷ []) q
    → try_get_node (directory out) q ≡ try_get_node (directory cs) q
ensure_directories-outside create limits cs t [] k out q h v =
    unfold ensure_directories in ground arith
ensure_directories-outside create limits cs t (s ∷ ss) k out [] h v = elim v [ ]
ensure_directories-outside create limits cs t (s ∷ ss) k out (x ∷ q) h (inl ne) =
    let (here, _, next, _, filled, below, e) = ensure_steps create limits cs t s ss out h in
    rw (← e) (try_get_node-same x q _ cs (get-put_ne x s (directory filled) cs ne))
ensure_directories-outside create limits cs t (s ∷ ss) k out (x ∷ []) h (inr (e, v)) =
    absurd (Diverges-not_nil (ss ++ k ∷ []) v)
ensure_directories-outside create limits cs t (s ∷ ss) k out (x ∷ y ∷ q) h (inr (e, v)) =
    let (here, _, next, step, filled, below, made) = ensure_steps create limits cs t s ss out h in
    subst (λ z. try_get_node (directory out) (z ∷ y ∷ q) ≡ try_get_node (directory cs) (z ∷ y ∷ q))
      e
      (rw (← made) (
        try_get_node-child s (y ∷ q) _ (directory filled) (get-put_self s (directory filled) cs)
        ∙ ensure_directories-outside create limits next here ss k filled (y ∷ q) below v
        ∙ next_directory-same create s y q cs next (get s cs) refl step))
