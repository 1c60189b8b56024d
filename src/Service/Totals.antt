-- ===== src/Service/Totals.antt =====
-- Sums over the calls and the records, and how the operations on lists change them.
use mem_sandbox.Base.{
  ◌==◌, ==_iff, Bool-cases, All, ℕ, ◌+◌, ◌≤◌, ◌≡◌, refl, sym, ap, ◌∙◌, inl, inr, Bool, true, false,
  some, List, [], ◌∷◌, arith,
}
use mem_sandbox.Service.{
  SessionRecord, has, discard, handles, session_ids, find_record, put_record, delete_record,
  start_deletion, start_all,
}
use mem_sandbox.Service.Calls.{Call, find_call, drop_call}

abbrev pub bit : Bool → ℕ
bit true = 1
bit false = 0

unfoldable pub total : {A : Type 0} → (A → ℕ) → List A → ℕ
total f [] = 0
total f (x ∷ l) = f x + total f l

-- How often a number is in a list.
unfoldable pub count : ℕ → List ℕ → ℕ
count k [] = 0
count k (x ∷ l) = bit (k == x) + count k l

pub count-has : (k : ℕ) (l : List ℕ) → has k l ≡ false → count k l ≡ 0
unfolding count has
count-has k [] h = refl
count-has k (x ∷ l) h = ground (arith, h, count-has k l)

pub total-handles :
    (k : ℕ) (rs : List SessionRecord) → count k (handles rs) ≡ total (λ r. bit (k == r.handle)) rs
unfolding count total
total-handles k [] = refl
total-handles k (r ∷ rs) = ap (λ n. bit (k == r.handle) + n) (total-handles k rs)

pub total-session_ids :
    (k : ℕ) (rs : List SessionRecord)
    → count k (session_ids rs) ≡ total (λ r. bit (k == r.session_id)) rs
unfolding count total
total-session_ids k [] = refl
total-session_ids k (r ∷ rs) = ap (λ n. bit (k == r.session_id) + n) (total-session_ids k rs)

-- What is discarded is gone, and the rest stays.
pub discard-same : (x : ℕ) (l : List ℕ) → count x (discard x l) ≡ 0
unfolding count discard
discard-same x [] = refl
discard-same x (y ∷ l) = ground (arith, discard-same x l)

pub discard-other : (k x : ℕ) (l : List ℕ) → (k == x) ≡ false → count k (discard x l) ≡ count k l
unfolding count discard
discard-other k x [] h = refl
discard-other k x (y ∷ l) h = ground (arith, h, discard-other k x l h)

-- One of at most one is discarded.
pub discard-once :
    (k x : ℕ) (l : List ℕ) (n m : ℕ)
    → count k l ≡ n
    → n ≤ 1
    → m + bit (k == x) ≡ n
    → count k (discard x l) ≡ m
discard-once k x l n m h one e = elim (Bool-cases (k == x)) [
  | inl same ↦
      let k_is : k ≡ x = (==_iff k x).0 same in
      let gone : count k (discard x l) ≡ 0 = rw (k_is) (discard-same x l) in
      let b : bit (k == x) ≡ 1 = rw (same) refl in omega (arith, gone, b, e, one)
  | inr other ↦
      let kept = discard-other k x l other in
      let b : bit (k == x) ≡ 0 = rw (other) refl in omega (arith, kept, b, e, h)
]

pub discard-absent : (k x : ℕ) (l : List ℕ) → count x l ≡ 0 → count k (discard x l) ≡ count k l
discard-absent k x l h = elim (Bool-cases (k == x)) [
  | inl same ↦ let k_is : k ≡ x = (==_iff k x).0 same in rw (k_is) (discard-same x l ∙ sym h)
  | inr other ↦ discard-other k x l other
]

pub find_call-operation :
    (n : ℕ) (cs : List Call) (c : Call) → find_call n cs ≡ some c → c.operation ≡ n
unfolding find_call
find_call-operation n [] c h = absurd (cc h)
find_call-operation n (d ∷ cs) c h = elim (Bool-cases (n == d.operation)) [
  | inl same ↦
      let e : d ≡ c = cc (rw (same, find_call) at h) in
      let k : n ≡ d.operation = (==_iff n d.operation).0 same in rw (← e) (sym k)
  | inr other ↦ find_call-operation n cs c (rw (other, find_call) at h)
]

drop_found :
    (f : Call → ℕ) (n : ℕ) (cs : List Call) (c : Call)
    → find_call n cs ≡ some c
    → f c + total f (drop_call n cs) ≡ total f cs
unfolding find_call drop_call total
drop_found f n [] c h = absurd (cc h)
drop_found f n (d ∷ cs) c h = elim (Bool-cases (n == d.operation)) [
  | inl same ↦ let e : d ≡ c = cc (rw (same, find_call) at h) in rw (same, drop_call, e) refl
  | inr other ↦
      let rest = drop_found f n cs c (rw (other, find_call) at h) in
      rw (other, drop_call) (omega (arith, rest))
]

pub total-drop_call :
    (f : Call → ℕ) (n : ℕ) (cs : List Call) (c : Call)
    → find_call n cs ≡ some c
    → total f (c ∷ drop_call c.operation cs) ≡ total f cs
unfolding total
total-drop_call f n cs c h =
    ap (λ m. f c + total f (drop_call m cs)) (find_call-operation n cs c h) ∙ drop_found f n cs c h

pub All-drop_call : (P : Call → Type 0) (n : ℕ) (cs : List Call) → All P cs → All P (drop_call n cs)
unfolding drop_call
All-drop_call P n [] h = tt
All-drop_call P n (d ∷ cs) (p, h) = elim (Bool-cases (n == d.operation)) [
  | inl same ↦ rw (same, drop_call) h
  | inr other ↦ rw (other, drop_call) (p, All-drop_call P n cs h)
]

pub All-find_call :
    (P : Call → Type 0) (n : ℕ) (cs : List Call) (c : Call)
    → find_call n cs ≡ some c
    → All P cs
    → P c
unfolding find_call
All-find_call P n [] c h a = absurd (cc h)
All-find_call P n (d ∷ cs) c h (p, a) = elim (Bool-cases (n == d.operation)) [
  | inl same ↦ let e : d ≡ c = cc (rw (same, find_call) at h) in rw (← e) p
  | inr other ↦ All-find_call P n cs c (rw (other, find_call) at h) a
]

pub find_record-handle :
    (h : ℕ) (rs : List SessionRecord) (r : SessionRecord) → find_record h rs ≡ some r → r.handle ≡ h
unfolding find_record
find_record-handle h [] r e = absurd (cc e)
find_record-handle h (q ∷ rs) r e = elim (Bool-cases (h == q.handle)) [
  | inl same ↦
      let z : q ≡ r = cc (rw (same, find_record) at e) in
      let k : h ≡ q.handle = (==_iff h q.handle).0 same in rw (← z) (sym k)
  | inr other ↦ find_record-handle h rs r (rw (other, find_record) at e)
]

pub total-delete_record :
    (f : SessionRecord → ℕ) (h : ℕ) (rs : List SessionRecord) (r : SessionRecord)
    → find_record h rs ≡ some r
    → f r + total f (delete_record h rs) ≡ total f rs
unfolding find_record delete_record total
total-delete_record f h [] r e = absurd (cc e)
total-delete_record f h (q ∷ rs) r e = elim (Bool-cases (h == q.handle)) [
  | inl same ↦ let z : q ≡ r = cc (rw (same, find_record) at e) in rw (same, delete_record, z) refl
  | inr other ↦
      let rest = total-delete_record f h rs r (rw (other, find_record) at e) in
      rw (other, delete_record) (omega (arith, rest))
]

-- A record with a new handle is one more.
pub total-put_record :
    (f : SessionRecord → ℕ) (n : SessionRecord) (rs : List SessionRecord)
    → total (λ r. bit (n.handle == r.handle)) rs ≡ 0
    → total f (put_record n rs) ≡ total f rs + f n
unfolding put_record total
total-put_record f n [] h = omega arith
total-put_record f n (r ∷ rs) h = elim (Bool-cases (n.handle == r.handle)) [
  | inl same ↦
      let b : bit (n.handle == r.handle) ≡ 1 = rw (same) refl in absurd (omega (arith, b, h))
  | inr other ↦
      let rest = total-put_record f n rs (omega (arith, h)) in
      rw (other, put_record) (omega (arith, rest))
]

module _ (f : SessionRecord → ℕ)
    (same : (r : SessionRecord) → f (record r { deleting = true }) ≡ f r) where
  pub total-start_deletion :
      (h : ℕ) (rs : List SessionRecord) → total f (start_deletion h rs) ≡ total f rs
  unfolding start_deletion total
  total-start_deletion h [] = refl
  total-start_deletion h (r ∷ rs) = elim (Bool-cases (h == r.handle)) [
    | inl e ↦ rw (e, start_deletion) (ap (λ n. n + total f rs) (same r))
    | inr e ↦ rw (e, start_deletion) (ap (λ n. f r + n) (total-start_deletion h rs))
  ]

  pub total-start_all : (rs : List SessionRecord) → total f (start_all rs) ≡ total f rs
  unfolding start_all total
  total-start_all [] = refl
  total-start_all (r ∷ rs) =
      ap (λ n. n + total f (start_all rs)) (same r) ∙ ap (λ n. f r + n) (total-start_all rs)

pub total-none : {A : Type 0} (f : A → ℕ) (l : List A) → All (λ x. f x ≡ 0) l → total f l ≡ 0
unfolding total
total-none f [] h = refl
total-none f (x ∷ l) (p, h) = let r = total-none f l h in omega (arith, p, r)
