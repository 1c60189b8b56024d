-- ===== src/Tests/Secrets.antt =====
-- The theorems on the broker of secrets at concrete calls.
use mem_sandbox.Base.{All, ℕ, ◌≡◌, refl, true, none, some, List, [], ◌∷◌, arith}
use mem_sandbox.Errors.{ok}
use mem_sandbox.Strings.{codes}
use mem_sandbox.Utf8.{encode_char, encode}
use mem_sandbox.Secrets.{
  BrokerLimits, pop_token, purge_expired, admit, resolved, missing, checked_value, Lease, settle,
  close, Event, requests, settles, closes, step, run_events, new_world,
}
use mem_sandbox.Secrets.Capacity.{IsAccounted, run_events-IsAccounted, admit-after_close}

abbrev two_leases : BrokerLimits
two_leases = record {
  max_active_leases = 2;
  max_lease_time = 60;
  max_value_bytes = 8;
  max_datetime = 1000;
}

-- Two calls, of which one fails and the other's lease is closed again; a third finds no clock.
abbrev events : List Event
events =
    requests 30 (some 100)
    ∷ requests 90 (some 101)
    ∷ requests 10 (some 102)
    ∷ settles 0 (resolved (codes "key"))
    ∷ requests 10 none
    ∷ settles 0 missing
    ∷ closes 0
    ∷ []

record Ran : Type 0 where
  waiting : (run_events two_leases events new_world).waiting ≡ []
  leases :
      (run_events two_leases events new_world).leases
      ≡ record { token = 2; secret = codes "key"; expires_at = 161; closed = true } ∷ []

ran : Ran
unfolding run_events step admit settle close checked_value pop_token purge_expired encode
    encode_char
ran = record { waiting = refl; leases = refl }

run_events-IsAccounted_example : IsAccounted two_leases (run_events two_leases events new_world)
run_events-IsAccounted_example = run_events-IsAccounted two_leases events

ended : All (λ (l : Lease). l.closed ≡ true) (run_events two_leases events new_world).leases
ended = rw (ran.leases) (refl, tt)

admit-after_close_example :
    (call : ℕ × ℕ) × ((admit two_leases 20
        (some 200)
        (run_events two_leases events new_world).broker).0
      ≡ ok call)
admit-after_close_example =
    admit-after_close two_leases events 20 200 ran.waiting ended (omega arith) (omega arith)
