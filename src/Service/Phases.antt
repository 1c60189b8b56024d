-- ===== src/Service/Phases.antt =====
-- The close of the service, in its phases.
use mathlib.Core.Path.{subst}
use mem_sandbox.Base.{
  ◌==◌, ==_iff, ==_refl, Bool-cases, All, ℕ, ◌≤◌, ◌≡◌, refl, ◌∙◌, inl, inr, Bool, true, false, not,
  ◌&&◌, List, [], ◌∷◌, arith,
}
use mem_sandbox.Service.{
  open_state, closing_state, closed_state, SessionRecord, Service, has, handles, require_open,
  start_all, close_begins, close_ends,
}
use mem_sandbox.Service.Calls.{
  Call, CloseTask, no_close, waiting, finished, RuntimeLog, World, none_in, begin_close, end_close,
}
use mem_sandbox.Service.Totals.{bit, total, count, count-has, total-handles, total-start_all}
use mem_sandbox.Service.Ownership.{reserved, holds, Owned, IsOwned}
use mem_sandbox.Service.Kept.{Owned-records}
use mem_sandbox.Service.Shut.{IsShut, AllCalls, AllRecords, Follows}
use mem_sandbox.Service.Closing.{Good}

has-count : (k : ℕ) (l : List ℕ) → 1 ≤ count k l → has k l ≡ true
has-count k l h = elim (Bool-cases (has k l)) [
  | inl e ↦ e
  | inr e ↦ let z = count-has k l e in absurd (omega (arith, z, h))
]

-- What is counted in a list is in it.
itself :
    {A : Type 0} (g : A → ℕ) (l : List A) (ds : List ℕ)
    → ((k : ℕ) → total (λ x. bit (k == g x)) l ≤ count k ds)
    → All (λ x. has (g x) ds ≡ true) l
unfolding total
itself g [] ds h = tt
itself g (x ∷ l) ds h = (
  has-count (g x) ds (
      let z = h (g x) in
      let b : bit (g x == g x) ≡ 1 = rw (==_refl (g x)) refl in omega (arith, z, b)),
  itself g l ds (λ k. let z = h k in omega (arith, z)),
)

-- While a close waits for operations and handles, no other one is there.
pub record Draining (ps hs : List ℕ) (w : World) : Type 0 where
  pub state : w.service.state ≡ closing_state
  pub task : w.close_task ≡ waiting ps hs
  pub calls : AllCalls (λ n. has n ps) w.calls
  pub records : AllRecords (λ n. has n hs) w.service.records

pub record Over (w : World) : Type 0 where
  pub state : w.service.state ≡ closed_state
  pub task : w.close_task ≡ finished
  pub calls : AllCalls (λ n. false) w.calls
  pub records : AllRecords (λ n. false) w.service.records

-- Before a close, while it waits, and behind it.
pub data Phase (w : World) : Type 0 where
  running : w.service.state ≡ open_state → w.close_task ≡ no_close → Phase w
  draining : (ps hs : List ℕ) → Draining ps hs w → Phase w
  over : Over w → Phase w

Follows-Phase : (w v : World) → Follows w v → Phase w → Phase v
unfolding require_open
Follows-Phase w v f (running s t) = running (f.state ∙ s) (f.task ∙ t)
Follows-Phase w v f (draining ps hs d) =
    let shut : IsShut w = rw (d.state, require_open) refl in
    draining ps hs (record {
      state = f.state ∙ d.state;
      task = f.task ∙ d.task;
      calls = f.calls (λ n. has n ps) shut d.calls;
      records = f.records (λ n. has n hs) shut d.records;
    })
Follows-Phase w v f (over d) =
    let shut : IsShut w = rw (d.state, require_open) refl in
    over (record {
      state = f.state ∙ d.state;
      task = f.task ∙ d.task;
      calls = f.calls (λ n. false) shut d.calls;
      records = f.records (λ n. false) shut d.records;
    })

-- What holds between events.
pub record IsKept (w : World) : Type 0 where
  pub owned : IsOwned w
  pub phase : Phase w

pub Good-IsKept : (w v : World) → Phase w → Good w v → IsKept v
Good-IsKept w v p g = record { owned = g.owned; phase = Follows-Phase w v g.follows p }

pub begin_close-IsKept :
    (w : World) (t : CloseTask) → w.close_task ≡ t → IsKept w → IsKept (begin_close t w)
unfolding begin_close close_begins
begin_close-IsKept w no_close e h = record {
  owned =
      Owned-records w.service w.calls w.log w.next_operation closing_state
        (start_all w.service.records)
        (λ (f : SessionRecord → ℕ)
            (same : (r : SessionRecord) → f (record r { deleting = true }) ≡ f r).
          total-start_all f same w.service.records)
        h.owned;
  phase = draining w.service.pending_operations (handles w.service.records) (record {
    state = refl;
    task = refl;
    calls =
        (itself (λ (c : Call). c.operation) w.calls w.service.pending_operations
          (λ k. let z = h.owned.operations k in omega (arith, z)));
    records =
        (itself (λ (r : SessionRecord). r.handle) (start_all w.service.records)
          (handles w.service.records)
          (λ k.
            let z = total-handles k w.service.records in
            let y = total-start_all (λ r. bit (k == r.handle)) (λ r. refl) w.service.records in
            omega (arith, z, y)));
  });
}
begin_close-IsKept w (waiting ps hs) e h = h
begin_close-IsKept w finished e h = h

none_in-has :
    (x : ℕ) (l there : List ℕ)
    → none_in l there ≡ true
    → has x l ≡ true
    → has x there ≡ true
    → false ≡ true
unfolding none_in has
none_in-has x [] there n h k = h
none_in-has x (y ∷ l) there n h k =
    let parts = both (has y there) (none_in l there) n in
    elim (Bool-cases (x == y)) [
      | inl same ↦
          let z : has y there ≡ true = rw (← (==_iff x y).0 same) k in let u = parts.0 in cc (z, u)
      | inr other ↦ none_in-has x l there parts.1 (rw (other) at h) k
    ]
  where
    both : (a b : Bool) → (not a && b) ≡ true → (a ≡ false) × (b ≡ true)
    both true b e = absurd (cc e)
    both false b e = (refl, e)

All-both :
    {A : Type 0} {P Q R : A → Type 0} (l : List A)
    → ((x : A) → P x → Q x → R x)
    → All P l
    → All Q l
    → All R l
All-both [] f p q = tt
All-both (x ∷ l) f (p, ps) (q, qs) = (f x p q, All-both l f ps qs)

end_close-Phase :
    (w : World) (ps hs : List ℕ)
    → IsOwned w
    → none_in ps w.service.pending_operations ≡ true
    → none_in hs (handles w.service.records) ≡ true
    → AllCalls (λ n. has n ps) w.calls
    → AllRecords (λ n. has n hs) w.service.records
    → AllCalls (λ n. false) w.calls × AllRecords (λ n. false) w.service.records
end_close-Phase w ps hs h p q c r = (
  All-both w.calls
      (λ (x : Call) (a : has x.operation ps ≡ true)
          (b : has x.operation w.service.pending_operations ≡ true).
        none_in-has x.operation ps w.service.pending_operations p a b)
      c
      (itself (λ (x : Call). x.operation) w.calls w.service.pending_operations
        (λ k. let z = h.operations k in omega (arith, z))),
  All-both w.service.records
      (λ (x : SessionRecord) (a : has x.handle hs ≡ true)
          (b : has x.handle (handles w.service.records) ≡ true).
        none_in-has x.handle hs (handles w.service.records) q a b)
      r
      (itself (λ (x : SessionRecord). x.handle) w.service.records (handles w.service.records)
        (λ k. let z = total-handles k w.service.records in omega (arith, z))),
)

pub none-here : {A : Type 0} (l : List A) → All (λ x. false ≡ true) l → l ≡ []
none-here [] h = refl
none-here (x ∷ l) (e, h) = absurd (cc e)

-- Clearing the reservations takes nothing when no call is left.
Owned-close_ends :
    (s : Service) (cs : List Call) (o : RuntimeLog) (m : ℕ)
    → cs ≡ []
    → Owned s cs o m
    → Owned (close_ends s) cs o m
unfolding close_ends count total
Owned-close_ends s cs o m e h = record {
  each_runtime = h.each_runtime;
  held = cleared;
  once = h.once;
  operations = h.operations;
  distinct = h.distinct;
  numbered = h.numbered;
}
  where
    cleared : (b : Bool) (k : ℕ) → count k (reserved b (close_ends s)) ≡ total (holds b k) cs
    cleared true k = rw (e) refl
    cleared false k = rw (e) refl

pub end_close-IsKept :
    (w : World) (t : CloseTask) → w.close_task ≡ t → IsKept w → IsKept (end_close t w)
unfolding end_close
end_close-IsKept w no_close e h = h
end_close-IsKept w finished e h = h
end_close-IsKept w (waiting ps hs) e h =
    elim (Bool-cases (none_in ps w.service.pending_operations)) [
      | inr p ↦ rw (p, end_close) h
      | inl p ↦ elim (Bool-cases (none_in hs (handles w.service.records))) [
        | inr q ↦ rw (p, q, end_close) h
        | inl q ↦ rw (p, q, end_close) (ends p q h.phase)
      ]
    ]
  where
    ends :
        none_in ps w.service.pending_operations ≡ true
        → none_in hs (handles w.service.records) ≡ true
        → Phase w
        → IsKept (record w { service = close_ends w.service; close_task = finished })
    ends p q (running s t) = absurd (cc (e, t))
    ends p q (over d) = absurd (let t = d.task in cc (e, t))
    ends p q (draining ps2 hs2 d) =
        let t = d.task in
        let same_ps : ps2 ≡ ps = cc (e, t) in
        let same_hs : hs2 ≡ hs = cc (e, t) in
        let empty =
          end_close-Phase w ps hs h.owned p q
            (subst (λ l. AllCalls (λ n. has n l) w.calls) same_ps d.calls)
            (subst (λ l. AllRecords (λ n. has n l) w.service.records) same_hs d.records) in
        record {
          owned =
              Owned-close_ends w.service w.calls w.log w.next_operation (none-here w.calls empty.0)
                h.owned;
          phase =
              unfold close_ends in
              over (record { state = refl; task = refl; calls = empty.0; records = empty.1 });
        }
