-- ===== src/Tree/Dict.antt =====
-- The laws of a directory's dict.
use mem_sandbox.Base.{if◌then◌else◌, ◌≡◌, refl, ◌≢◌, false, none, some, arith}
use mem_sandbox.Strings.{Text, text_eq, text_eq_iff, text_eq_refl}
use mem_sandbox.Tree.{Node, Children, empty, child, get, put, delete}

pub get-put :
    (j k : Text) (n : Node) (cs : Children)
    → get j (put k n cs) ≡ (if text_eq k j then some n else get j cs)
unfolding get put
get-put j k n empty = refl
get-put j k n (child i m cs) =
    ground (arith, text_eq_iff i k, text_eq_iff i j, text_eq_iff k j, get-put j k n cs)

pub get-delete :
    (j k : Text) (cs : Children) → get j (delete k cs) ≡ (if text_eq k j then none else get j cs)
unfolding get delete
get-delete j k empty = ground arith
get-delete j k (child i m cs) =
    ground (arith, text_eq_iff i k, text_eq_iff i j, text_eq_iff k j, get-delete j k cs)

pub get-put_self : (k : Text) (n : Node) (cs : Children) → get k (put k n cs) ≡ some n
get-put_self k n cs = rw (get-put k k n cs, text_eq_refl k)

pub get-delete_self : (k : Text) (cs : Children) → get k (delete k cs) ≡ none
get-delete_self k cs = rw (get-delete k k cs, text_eq_refl k)

pub text_eq-of_ne : (j k : Text) → j ≢ k → text_eq j k ≡ false
text_eq-of_ne j k n = ground (arith, text_eq_iff j k)

pub get-put_ne : (j k : Text) (n : Node) (cs : Children) → k ≢ j → get j (put k n cs) ≡ get j cs
get-put_ne j k n cs h = rw (get-put j k n cs, text_eq-of_ne k j h)

pub get-delete_ne : (j k : Text) (cs : Children) → k ≢ j → get j (delete k cs) ≡ get j cs
get-delete_ne j k cs h = rw (get-delete j k cs, text_eq-of_ne k j h)
