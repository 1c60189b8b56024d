-- ===== src/Service/Lookups.antt =====
-- A sandbox that was published is found under its handle until it is deleted.
use mem_sandbox.Base.{
  ◌==◌, ==_refl, Bool-cases, Option-cases, ℕ, ◌≤◌, ◌≡◌, refl, ap, ◌∙◌, inl, inr, Bool, true, false,
  Option, none, some, List, [], ◌∷◌, arith,
}
use mem_sandbox.Service.{
  SessionRecord, find_record, put_record, delete_record, finish_lifecycle, start_deletion,
}
use mem_sandbox.Service.Calls.{
  Raised, CallKind, create_call, Stage, loading, building, starting, cleaning, Call, World,
  find_call, drop_call, finish, reserved_ids, reserve, created, create, resumed, resume, goes_on,
  leaves, loaded, Built, built, not_built, made, published, started, cleaned, on_loads, on_builds,
  on_starts, on_cleans, at_call,
}
use mem_sandbox.Service.Totals.{total, find_record-handle, total-delete_record}
use mem_sandbox.Service.Ownership.{holds, has_key, Owned, IsOwned, Owned-front}
use mem_sandbox.Service.Steps.{reserve_identifiers-cases, begun, begin-cases}
use mem_sandbox.Service.Waits.{publish-cases}

module _ (h : ℕ) where
  find-put_record :
      (n : SessionRecord) (rs : List SessionRecord)
      → (h == n.handle) ≡ false
      → find_record h (put_record n rs) ≡ find_record h rs
  unfolding find_record put_record
  find-put_record n [] k = rw (k, find_record) refl
  find-put_record n (r ∷ rs) k = ground (arith, k, find-put_record n rs k)

  pub find-delete_record :
      (i : ℕ) (rs : List SessionRecord)
      → (h == i) ≡ false
      → find_record h (delete_record i rs) ≡ find_record h rs
  unfolding find_record delete_record
  find-delete_record i [] k = refl
  find-delete_record i (r ∷ rs) k = ground (arith, k, find-delete_record i rs k)

  pub find-start_deletion :
      (i : ℕ) (rs : List SessionRecord)
      → (h == i) ≡ false
      → find_record h (start_deletion i rs) ≡ find_record h rs
  unfolding find_record start_deletion
  find-start_deletion i [] k = refl
  find-start_deletion i (r ∷ rs) k = ground (arith, k, find-start_deletion i rs k)

  -- A record of the handle is counted.
  found_counted :
      (rs : List SessionRecord) (q : SessionRecord)
      → find_record h rs ≡ some q
      → 1 ≤ total (has_key true h) rs
  unfolding total
  found_counted rs q e =
      let x = total-delete_record (has_key true h) h rs q e in
      let y : has_key true h q ≡ 1 =
        (let z = find_record-handle h rs q e in rw (z, ==_refl h) refl) in
      omega (arith, x, y)

abbrev pub Same : World → World → Type 0
Same w v = v.service.records ≡ w.service.records

reserve-Same :
    (n : ℕ) (kind : CallKind) (ids : Option (ℕ × ℕ)) (w : World) → Same w (reserve n kind ids w)
unfolding reserve reserved_ids finish finish_lifecycle
reserve-Same n kind none w = refl
reserve-Same n kind (some (i, j)) w = elim (reserve_identifiers-cases i j w.service) [
  | inl (e, k) ↦ rw (k, reserved_ids) refl
  | inr (k, free, new) ↦ rw (k, reserved_ids) refl
]

pub create-Same : (ids : Option (ℕ × ℕ)) (w : World) → Same w (create ids w)
unfolding create created
create-Same ids w = elim (begin-cases w) [
  | inl (e, k) ↦ rw (k, create, created) refl
  | inr k ↦ rw (k, create, created) (reserve-Same w.next_operation create_call ids (begun w))
]

pub resume-Same : (w : World) → Same w (resume w)
unfolding resume resumed
resume-Same w = elim (begin-cases w) [
  | inl (e, k) ↦ rw (k, resume, resumed) refl
  | inr k ↦ rw (k, resume, resumed) refl
]

-- The record is still found behind the step.
abbrev pub Finds : ℕ → SessionRecord → World → Type 0
Finds h q v = find_record h v.service.records ≡ some q

-- A record that a call publishes is under another handle.
published_apart :
    (h : ℕ) (q : SessionRecord) (w : World) (c : Call) (i j r : ℕ)
    → Owned w.service (c ∷ drop_call c.operation w.calls) w.log w.next_operation
    → c.stage ≡ starting i j r
    → find_record h w.service.records ≡ some q
    → (h == i) ≡ false
unfolding total
published_apart h q w c i j r o at e = elim (Bool-cases (h == i)) [
  | inr apart ↦ apart
  | inl same ↦
      let x = found_counted h w.service.records q e in
      let y = o.once true h in
      let z : holds true h c ≡ 1 = rw (at, same) refl in absurd (omega (arith, x, y, z))
]

module _ (h : ℕ) (q : SessionRecord) (w : World)
    (e : find_record h w.service.records ≡ some q) where
  started-Finds :
      (c : Call) (i j r : ℕ) (x clock : Option Raised)
      → Owned w.service (c ∷ drop_call c.operation w.calls) w.log w.next_operation
      → c.stage ≡ starting i j r
      → Finds h q (started c i j r x clock w)
  unfolding started goes_on published
  started-Finds c i j r (some x) clock o at = e
  started-Finds c i j r none (some x) o at = e
  started-Finds c i j r none none o at = elim (publish-cases i j r w.service) [
    | inl (x, k) ↦ rw (k, published) e
    | inr k ↦
        let apart = published_apart h q w c i j r o at e in
        rw (k, published)
          (unfold finish in
            unfold finish_lifecycle in
            unfold leaves in
            find-put_record h (record { handle = i; session_id = j; runtime = r; deleting = false })
              w.service.records apart
            ∙ e)
  ]

  at_call-Finds :
      (n : ℕ) (f : Call → Stage → World → World)
      → IsOwned w
      → ((c : Call)
          → Owned w.service (c ∷ drop_call c.operation w.calls) w.log w.next_operation
          → (stage : Stage) → c.stage ≡ stage
          → Finds h q (f c stage w))
      → Finds h q (at_call n f w)
  unfolding at_call
  at_call-Finds n f o k = elim (Option-cases (find_call n w.calls)) [
    | inl z ↦ rw (z, at_call) e
    | inr (c, z) ↦
        rw (z, at_call)
          (k c (Owned-front w.service w.calls w.log w.next_operation n c z o) c.stage refl)
  ]

  pub starts-Finds :
      (x clock : Option Raised) (n : ℕ) → IsOwned w → Finds h q (at_call n (on_starts x clock) w)
  unfolding on_starts
  starts-Finds x clock n o = at_call-Finds n (on_starts x clock) o go
    where
      go :
          (c : Call)
          → Owned w.service (c ∷ drop_call c.operation w.calls) w.log w.next_operation
          → (stage : Stage) → c.stage ≡ stage
          → Finds h q (on_starts x clock c stage w)
      go c o (starting i j r) at = started-Finds c i j r x clock o at
      go c o loading at = e
      go c o (building i j) at = e
      go c o (cleaning i j r again y) at = e

  pub loads-Finds :
      (x : Option Raised) (ids : Option (ℕ × ℕ)) (n : ℕ)
      → IsOwned w
      → Finds h q (at_call n (on_loads x ids) w)
  unfolding on_loads
  loads-Finds x ids n o = at_call-Finds n (on_loads x ids) o go
    where
      load : (c : Call) (x : Option Raised) → Finds h q (loaded c x ids w)
      load c (some y) =
          unfold loaded in unfold finish in unfold finish_lifecycle in unfold leaves in e
      load c none =
          unfold loaded in
          unfold leaves in ap (find_record h) (reserve-Same c.operation c.kind ids (leaves c w)) ∙ e

      go :
          (c : Call)
          → Owned w.service (c ∷ drop_call c.operation w.calls) w.log w.next_operation
          → (stage : Stage) → c.stage ≡ stage
          → Finds h q (on_loads x ids c stage w)
      go c o loading at = load c x
      go c o (starting i j r) at = e
      go c o (building i j) at = e
      go c o (cleaning i j r again y) at = e

  pub builds-Finds : (b : Built) (n : ℕ) → IsOwned w → Finds h q (at_call n (on_builds b) w)
  unfolding on_builds
  builds-Finds b n o = at_call-Finds n (on_builds b) o go
    where
      make : (c : Call) (i j : ℕ) (b : Built) → Finds h q (made c i j b w)
      make c i j (built r) = unfold made in unfold goes_on in e
      make c i j (not_built y) =
          unfold made in unfold finish in unfold finish_lifecycle in unfold leaves in e

      go :
          (c : Call)
          → Owned w.service (c ∷ drop_call c.operation w.calls) w.log w.next_operation
          → (stage : Stage) → c.stage ≡ stage
          → Finds h q (on_builds b c stage w)
      go c o (building i j) at = make c i j b
      go c o (starting i j r) at = e
      go c o loading at = e
      go c o (cleaning i j r again y) at = e

  pub cleans-Finds : (b : Bool) (n : ℕ) → IsOwned w → Finds h q (at_call n (on_cleans b) w)
  unfolding on_cleans
  cleans-Finds b n o = at_call-Finds n (on_cleans b) o go
    where
      clean :
          (c : Call) (i j r : ℕ) (again : Bool) (y : Raised) (b : Bool)
          → Finds h q (cleaned c i j r again y b w)
      clean c i j r true y true = unfold cleaned in unfold goes_on in e
      clean c i j r true y false =
          unfold cleaned in unfold finish in unfold finish_lifecycle in unfold leaves in e
      clean c i j r false y true =
          unfold cleaned in unfold finish in unfold finish_lifecycle in unfold leaves in e
      clean c i j r false y false =
          unfold cleaned in unfold finish in unfold finish_lifecycle in unfold leaves in e

      go :
          (c : Call)
          → Owned w.service (c ∷ drop_call c.operation w.calls) w.log w.next_operation
          → (stage : Stage) → c.stage ≡ stage
          → Finds h q (on_cleans b c stage w)
      go c o (cleaning i j r again y) at = clean c i j r again y b
      go c o (starting i j r) at = e
      go c o loading at = e
      go c o (building i j) at = e
