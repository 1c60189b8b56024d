-- ===== src/Secrets.antt =====
-- `BoundedSecretBroker` and its leases, of src/mem_sandbox/secrets/broker.py.
-- A time is a number of microseconds; the clock's answer is an argument of each call, `none` where the
-- clock fails or returns no UTC time. The value source is awaited between admission and settlement, so
-- the two are steps of their own, and other calls may come between them.
pub mod Records
pub mod Capacity
use mem_sandbox.Base.{
  ltb, leb, ◌==◌, if◌then◌else◌, length, get_elem?, ℕ, zero, suc, ◌+◌, min, Bool, true, false, ◌||◌,
  Option, none, some, List, [], ◌∷◌, ◌++◌,
}
use mem_sandbox.Errors.{
  secret_not_found, secret_expired, secret_lease_closed, secret_lease_limit_exceeded,
  secret_source_unavailable, secret_source_value_invalid, cancelled_error, Result, err, ok,
}
use mem_sandbox.Strings.{Text}
use mem_sandbox.Utf8.{encode}

-- `SecretBrokerLimits`; `max_datetime` is the last time that `datetime` can hold.
pub record BrokerLimits : Type 0 where
  pub max_active_leases : ℕ
  pub max_lease_time : ℕ
  pub max_value_bytes : ℕ
  pub max_datetime : ℕ

-- The accepted leases, each token with its expiration, and the next token.
pub record Broker : Type 0 where
  pub records : List (ℕ × ℕ)
  pub next_token : ℕ

abbrev pub new_broker : Broker
new_broker = record { records = []; next_token = 1 }

-- `self._records.pop(token, None)`
unfoldable pub pop_token : ℕ → List (ℕ × ℕ) → List (ℕ × ℕ)
pop_token token [] = []
pop_token token ((t, e) ∷ l) =
    let rest = pop_token token l in if t == token then rest else (t, e) ∷ rest

-- `_release`
abbrev pub release : ℕ → Broker → Broker
release token b = record b { records = pop_token token b.records }

-- `_purge_expired_locked`
unfoldable pub purge_expired : ℕ → List (ℕ × ℕ) → List (ℕ × ℕ)
purge_expired now [] = []
purge_expired now ((t, e) ∷ l) =
    let rest = purge_expired now l in if leb e now then rest else (t, e) ∷ rest

-- The part of `lease` under the lock, for a request of this duration: a token with its expiration.
unfoldable pub admit : BrokerLimits → ℕ → Option ℕ → Broker → Result (ℕ × ℕ) × Broker
admit limits requested none b = (err secret_source_unavailable, b)
admit limits requested (some now) b =
    let kept = record b { records = purge_expired now b.records } in
    let expires_at = now + min requested limits.max_lease_time in
    if leb limits.max_active_leases (length kept.records)
    then (err secret_lease_limit_exceeded, kept)
    else if ltb limits.max_datetime expires_at
    then (err secret_source_unavailable, kept)
    else (
      ok (b.next_token, expires_at),
      record {
        records = kept.records ++ (b.next_token, expires_at) ∷ [];
        next_token = b.next_token + 1;
      },
    )

-- What awaiting the source comes to: a text, or an exception. An exception that is none of the
-- source's own is any other.
pub data Resolution : Type 0 where
  resolved : Text → Resolution
  missing invalid unavailable other_failure cancelled : Resolution

-- `_resolve`, with the test of the value's bytes that follows it in `lease`.
unfoldable pub checked_value : BrokerLimits → Resolution → Result Text
checked_value limits (resolved t) = elim (encode t) [
  | none ↦ err secret_source_value_invalid
  | some bytes ↦
      if length bytes == 0 || ltb limits.max_value_bytes (length bytes)
      then err secret_source_value_invalid
      else ok t
]
checked_value limits missing = err secret_not_found
checked_value limits invalid = err secret_source_value_invalid
checked_value limits unavailable = err secret_source_unavailable
checked_value limits other_failure = err secret_source_unavailable
checked_value limits cancelled = err cancelled_error

-- `_BoundedSecretLease`
pub record Lease : Type 0 where
  pub token : ℕ
  pub secret : Text
  pub expires_at : ℕ
  pub closed : Bool

-- The part of `lease` behind the wait: the token is released if anything is raised.
unfoldable pub settle : BrokerLimits → ℕ × ℕ → Resolution → Broker → Result Lease × Broker
settle limits (token, expires_at) r b = elim (checked_value limits r) [
  | err e ↦ (err e, release token b)
  | ok t ↦ (ok (record { token = token; secret = t; expires_at = expires_at; closed = false }), b)
]

-- `_BoundedSecretLease.value`
unfoldable pub lease_value : Lease → Option ℕ → Result Text
lease_value l now = if l.closed then err secret_lease_closed else elim now [
  | none ↦ err secret_source_unavailable
  | some n ↦ if leb l.expires_at n then err secret_expired else ok l.secret
]

-- `_BoundedSecretLease.close`
unfoldable pub close : Lease → Broker → Lease × Broker
close l b = if l.closed then (l, b) else (record l { closed = true }, release l.token b)

-- A broker with the calls of `lease` that wait, and the leases that were returned.
pub record World : Type 0 where
  pub broker : Broker
  pub waiting : List (ℕ × ℕ)
  pub leases : List Lease

-- What happens next: a call of `lease`, the end of a wait, or a call of `close`. The last two name the
-- place of the waiting call and of the lease.
pub data Event : Type 0 where
  requests : ℕ → Option ℕ → Event
  settles : ℕ → Resolution → Event
  closes : ℕ → Event

-- The list without the entry at a place.
abbrev pub remove_at {ℓ} : {A : Type ℓ} → ℕ → List A → List A
remove_at n [] = []
remove_at zero (x ∷ xs) = xs
remove_at (suc n) (x ∷ xs) = x ∷ remove_at n xs

abbrev pub set {ℓ} : {A : Type ℓ} → List A → ℕ → A → List A
set [] n y = []
set (x ∷ xs) zero y = y ∷ xs
set (x ∷ xs) (suc n) y = x ∷ set xs n y

abbrev pub add_admitted : World → Result (ℕ × ℕ) × Broker → World
add_admitted w (err e, b) = record w { broker = b }
add_admitted w (ok call, b) = record w { broker = b; waiting = call ∷ w.waiting }

abbrev pub add_settled : World → Result Lease × Broker → World
add_settled w (err e, b) = record w { broker = b }
add_settled w (ok l, b) = record w { broker = b; leases = l ∷ w.leases }

unfoldable pub step : BrokerLimits → Event → World → World
step limits (requests requested now) w = add_admitted w (admit limits requested now w.broker)
step limits (settles place r) w = elim (get_elem? w.waiting place) [
  | none ↦ w
  | some call ↦
      add_settled (record w { waiting = remove_at place w.waiting }) (settle limits call r w.broker)
]
step limits (closes place) w = elim (get_elem? w.leases place) [
  | none ↦ w
  | some l ↦ record w {
    broker = (close l w.broker).1;
    leases = set w.leases place (close l w.broker).0;
  }
]

unfoldable pub run_events : BrokerLimits → List Event → World → World
run_events limits [] w = w
run_events limits (e ∷ es) w = run_events limits es (step limits e w)

abbrev pub new_world : World
new_world = record { broker = new_broker; waiting = []; leases = [] }
