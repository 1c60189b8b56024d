-- ===== src/Secrets/Records.antt =====
-- The broker's records, the waiting calls and the leases as lists: what a removal does to them.
use mem_sandbox.Base.{
  leb, ◌==◌, Bool-cases, length, get_elem?, All, ℕ, zero, suc, ◌+◌, ◌≤◌, min, ◌≡◌, refl, ap, inl,
  inr, Bool, true, false, not, ◌&&◌, ◌||◌, some, List, [], ◌∷◌, arith,
}
use mem_sandbox.Errors.{ok}
use mem_sandbox.Secrets.{
  BrokerLimits, Broker, pop_token, purge_expired, admit, Lease, close, remove_at, set,
}

-- A call with this token waits.
unfoldable pub waits : ℕ → List (ℕ × ℕ) → Bool
waits token [] = false
waits token ((t, e) ∷ l) = t == token || waits token l

-- A lease with this token is open.
unfoldable pub holds : ℕ → List Lease → Bool
holds token [] = false
holds token (l ∷ ls) = (l.token == token && not l.closed) || holds token ls

-- The record belongs to a waiting call or to an open lease.
abbrev pub IsOwned : List (ℕ × ℕ) → List Lease → ℕ × ℕ → Type 0
IsOwned waiting leases (t, e) = (waits t waiting || holds t leases) ≡ true

pub pop_token-length : (t : ℕ) (l : List (ℕ × ℕ)) → length (pop_token t l) ≤ length l
unfolding pop_token
pop_token-length t [] = omega arith
pop_token-length t ((u, e) ∷ l) = ground (arith, pop_token-length t l)

pub purge_expired-length : (n : ℕ) (l : List (ℕ × ℕ)) → length (purge_expired n l) ≤ length l
unfolding purge_expired
purge_expired-length n [] = omega arith
purge_expired-length n ((u, e) ∷ l) = ground (arith, purge_expired-length n l)

module _ (P Q : ℕ × ℕ → Type 0) where
  pub All-purge_expired :
      (now : ℕ) (l : List (ℕ × ℕ))
      → ((r : ℕ × ℕ) → P r → Q r)
      → All P l
      → All Q (purge_expired now l)
  unfolding purge_expired
  All-purge_expired now [] f a = tt
  All-purge_expired now ((t, e) ∷ l) f (p, a) = elim (Bool-cases (leb e now)) [
    | inl k ↦ rw k (All-purge_expired now l f a)
    | inr k ↦ rw k (f (t, e) p, All-purge_expired now l f a)
  ]

  -- What is left behind a pop has another token.
  pub All-pop_token :
      (token : ℕ) (l : List (ℕ × ℕ))
      → ((t e : ℕ) → (t == token) ≡ false → P (t, e) → Q (t, e))
      → All P l
      → All Q (pop_token token l)
  unfolding pop_token
  All-pop_token token [] f a = tt
  All-pop_token token ((t, e) ∷ l) f (p, a) = elim (Bool-cases (t == token)) [
    | inl k ↦ rw k (All-pop_token token l f a)
    | inr k ↦ rw k (f t e k p, All-pop_token token l f a)
  ]

  pub All-weaken : (l : List (ℕ × ℕ)) → ((r : ℕ × ℕ) → P r → Q r) → All P l → All Q l
  All-weaken [] f a = tt
  All-weaken (r ∷ l) f (p, a) = (f r p, All-weaken l f a)

pub waits-remove_at :
    (token place t e : ℕ) (l : List (ℕ × ℕ))
    → get_elem? l place ≡ some (t, e)
    → waits token l ≡ (t == token || waits token (remove_at place l))
unfolding waits
waits-remove_at token place t e [] h = absurd (cc h)
waits-remove_at token zero t e ((u, f) ∷ l) h = ground arith
waits-remove_at token (suc place) t e ((u, f) ∷ l) h =
    ground (arith, waits-remove_at token place t e l h)

pub holds-set :
    (token place : ℕ) (l new : Lease) (ls : List Lease)
    → get_elem? ls place ≡ some l
    → (l.token == token) ≡ false
    → holds token ls ≡ true
    → holds token (set ls place new) ≡ true
unfolding holds
holds-set token place l new [] h ne k = absurd (cc h)
holds-set token zero l new (m ∷ ls) h ne k = ground arith
holds-set token (suc place) l new (m ∷ ls) h ne k =
    ground (arith, holds-set token place l new ls h ne)

pub set_same :
    (ls : List Lease) (place : ℕ) (l : Lease) → get_elem? ls place ≡ some l → set ls place l ≡ ls
set_same [] place l h = refl
set_same (m ∷ ls) zero l h = ground arith
set_same (m ∷ ls) (suc place) l h = ap (λ t. m ∷ t) (set_same ls place l h)

pub close_again : (l : Lease) (b : Broker) → l.closed ≡ true → close l b ≡ (l, b)
unfolding close
close_again l b k = ground (arith, k)

-- With no record, a request is admitted.
pub admit-empty :
    (limits : BrokerLimits) (requested now : ℕ) (b : Broker)
    → b.records ≡ []
    → 1 ≤ limits.max_active_leases
    → now + min requested limits.max_lease_time ≤ limits.max_datetime
    → (admit limits requested (some now) b).0
      ≡ ok (b.next_token, now + min requested limits.max_lease_time)
unfolding admit purge_expired
admit-empty limits requested now b e positive fits = rw (e) (ground (arith, positive, fits))

pub ==_sym : (a b : ℕ) → (a == b) ≡ (b == a)
==_sym a b = ground arith

holds-closed :
    (token : ℕ) (ls : List Lease) → All (λ (l : Lease). l.closed ≡ true) ls → holds token ls ≡ false
unfolding holds
holds-closed token [] a = refl
holds-closed token (l ∷ ls) (c, a) = ground (arith, c, holds-closed token ls a)

pub nothing_owned :
    (waiting : List (ℕ × ℕ)) (ls : List Lease) (records : List (ℕ × ℕ))
    → waiting ≡ []
    → All (λ (l : Lease). l.closed ≡ true) ls
    → All (IsOwned waiting ls) records
    → records ≡ []
nothing_owned waiting ls [] h c a = refl
nothing_owned waiting ls ((t, e) ∷ l) h c (p, a) =
    absurd (unfold waits in cc (rw (h, holds-closed t ls c) at p))
