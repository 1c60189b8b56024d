-- ===== src/Service/Kept.antt =====
-- What the steps of the service do to its ownership.
use mem_sandbox.Base.{
  ◌==◌, ==_iff, ==_refl, Bool-cases, All, ℕ, ◌+◌, ◌≤◌, ◌<◌, ◌≡◌, refl, ap, ◌∙◌, inl, inr, Bool,
  true, false, some, List, [], ◌∷◌, arith,
}
use mem_sandbox.Service.{
  ServiceState, SessionRecord, Service, has, discard, handles, session_ids, find_record, put_record,
  delete_record, end_deletion,
}
use mem_sandbox.Service.Calls.{CallKind, loading, building, starting, Call, RuntimeLog, log_closed}
use mem_sandbox.Service.Totals.{
  bit, total, count, count-has, total-handles, total-session_ids, discard-absent,
  find_record-handle, total-delete_record, total-put_record, total-none,
}
use mem_sandbox.Service.Ownership.{
  pick, key, reserved, holds, runtimes, has_runtime, is_operation, has_key, Owned, Owned-discards,
}

pub All-map :
    {A : Type 0} {P Q : A → Type 0} (l : List A) → ((x : A) → P x → Q x) → All P l → All Q l
All-map [] f h = tt
All-map (x ∷ l) f (p, h) = (f x p, All-map l f h)

-- The number of the next operation is new.
total-next :
    (m : ℕ) (cs : List Call) → All (λ c. c.operation < m) cs → total (is_operation m) cs ≡ 0
total-next m cs h =
    total-none (is_operation m) cs (All-map cs (λ (c : Call) (l : c.operation < m). differs c l) h)
  where
    differs : (c : Call) → c.operation < m → is_operation m c ≡ 0
    differs c l = ground (arith, l)

abbrev pub keys : Bool → List SessionRecord → List ℕ
keys true rs = handles rs
keys false rs = session_ids rs

total-keys :
    (b : Bool) (k : ℕ) (rs : List SessionRecord) → count k (keys b rs) ≡ total (has_key b k) rs
total-keys true k rs = total-handles k rs
total-keys false k rs = total-session_ids k rs

pub Owned-begin :
    (s : Service) (cs : List Call) (o : RuntimeLog) (m : ℕ) (kind : CallKind)
    → Owned s cs o m
    → Owned
        (record s { pending_operations = m ∷ s.pending_operations })
        (record { operation = m; kind = kind; stage = loading } ∷ cs)
        o
        (m + 1)
unfolding total count
Owned-begin s cs o m kind h = record {
  each_runtime = λ k. let x = h.each_runtime k in omega (arith, x);
  held = kept;
  once = λ b k. let x = h.once b k in omega (arith, x);
  operations = λ p. ap (λ n. bit (p == m) + n) (h.operations p);
  distinct = λ p. one_more p (h.distinct p);
  numbered =
      (omega arith, All-map cs (λ (c : Call) (l : c.operation < m). omega (arith, l)) h.numbered);
}
  where
    kept :
        (b : Bool) (k : ℕ)
        → count k (reserved b (record s { pending_operations = m ∷ s.pending_operations }))
          ≡ 0 + total (holds b k) cs
    kept true k = let x = h.held true k in omega (arith, x)
    kept false k = let x = h.held false k in omega (arith, x)

    one_more :
        (p : ℕ) → total (is_operation p) cs ≤ 1 → bit (p == m) + total (is_operation p) cs ≤ 1
    one_more p l = elim (Bool-cases (p == m)) [
      | inl same ↦
          let none_yet : total (is_operation p) cs ≡ 0 =
            rw ((==_iff p m).0 same) (total-next m cs h.numbered) in
          rw (same) (omega (arith, none_yet))
      | inr other ↦ rw (other) (omega (arith, l))
    ]

-- Identifiers that are not in use are given to a call.
pub Owned-reserve :
    (s : Service) (cs : List Call) (o : RuntimeLog) (m n i j : ℕ) (kind : CallKind)
    → ((b : Bool) → has (pick b i j) (reserved b s) ≡ false)
    → ((b : Bool) → has (pick b i j) (keys b s.records) ≡ false)
    → Owned s (record { operation = n; kind = kind; stage = loading } ∷ cs) o m
    → Owned
        (record s {
          reserved_handles = i ∷ s.reserved_handles;
          reserved_session_ids = j ∷ s.reserved_session_ids;
        })
        (record { operation = n; kind = kind; stage = building i j } ∷ cs)
        o
        m
unfolding total count
Owned-reserve s cs o m n i j kind free unpublished h = record {
  each_runtime = h.each_runtime;
  held = kept;
  once = λ b k. one_more b k;
  operations = h.operations;
  distinct = h.distinct;
  numbered = h.numbered;
}
  where
    kept :
        (b : Bool) (k : ℕ)
        → count k (
            reserved b (record s {
              reserved_handles = i ∷ s.reserved_handles;
              reserved_session_ids = j ∷ s.reserved_session_ids;
            }))
          ≡ bit (k == pick b i j) + total (holds b k) cs
    kept true k = let x = h.held true k in omega (arith, x)
    kept false k = let x = h.held false k in omega (arith, x)

    one_more :
        (b : Bool) (k : ℕ)
        → bit (k == pick b i j) + total (holds b k) cs + total (has_key b k) s.records ≤ 1
    one_more b k = elim (Bool-cases (k == pick b i j)) [
      | inl same ↦
          let e : k ≡ pick b i j = (==_iff k (pick b i j)).0 same in
          let x : count k (reserved b s) ≡ 0 =
            rw (e) (count-has (pick b i j) (reserved b s) (free b)) in
          let y : count k (keys b s.records) ≡ 0 =
            rw (e) (count-has (pick b i j) (keys b s.records) (unpublished b)) in
          let z = h.held b k in
          let u = total-keys b k s.records in rw (same) (omega (arith, x, y, z, u))
      | inr other ↦ let x = h.once b k in rw (other) (omega (arith, x))
    ]

-- The runtime of a call moves to a record.
pub Owned-publish :
    (s : Service) (cs : List Call) (o : RuntimeLog) (m i j r : ℕ) (c : Call)
    → c.stage ≡ starting i j r
    → Owned s (c ∷ cs) o m
    → Owned
        (record s {
          records =
              put_record
                (record { handle = i; session_id = j; runtime = r; deleting = false })
                s.records;
          reserved_handles = discard i s.reserved_handles;
          reserved_session_ids = discard j s.reserved_session_ids;
        })
        (record c { stage = loading } ∷ cs)
        o
        m
unfolding total
Owned-publish s cs o m i j r c at h =
    let has_them : (b : Bool) (k : ℕ) → holds b k c ≡ bit (k == pick b i j) = λ b k. rw (at) refl in
    let gone = Owned-discards h i j has_them in
    let new : SessionRecord = record {
      handle = i;
      session_id = j;
      runtime = r;
      deleting = false;
    } in
    let unused : total (has_key true i) s.records ≡ 0 =
      (let x = h.once true i in
        let y = has_them true i in
        let z : bit (i == i) ≡ 1 = rw (==_refl i) refl in omega (arith, x, y, z)) in
    let put = λ (f : SessionRecord → ℕ). total-put_record f new s.records unused in
    record {
      each_runtime = λ k.
          let x = h.each_runtime k in
          let y : runtimes k c ≡ bit (k == r) = rw (at) refl in
          let z = put (has_runtime k) in omega (arith, x, y, z);
      held = left gone;
      once = λ b k.
          let x = h.once b k in
          let y = has_them b k in
          let z = put (has_key b k) in let u = key_is b k in omega (arith, x, y, z, u);
      operations = h.operations;
      distinct = h.distinct;
      numbered = h.numbered;
    }
  where
    key_is :
        (b : Bool) (k : ℕ)
        → has_key b k (record { handle = i; session_id = j; runtime = r; deleting = false })
          ≡ bit (k == pick b i j)
    key_is true k = refl
    key_is false k = refl

    left :
        ((b : Bool) (k : ℕ) → count k (discard (pick b i j) (reserved b s)) ≡ total (holds b k) cs)
        → (b : Bool) (k : ℕ)
        → count k (
            reserved b (record s {
              records =
                  put_record
                    (record { handle = i; session_id = j; runtime = r; deleting = false })
                    s.records;
              reserved_handles = discard i s.reserved_handles;
              reserved_session_ids = discard j s.reserved_session_ids;
            }))
          ≡ 0 + total (holds b k) cs
    left gone true k = let x = gone true k in omega (arith, x)
    left gone false k = let x = gone false k in omega (arith, x)

-- The runtime of a record that is deleted is closed.
pub Owned-end_deletion :
    (s : Service) (cs : List Call) (o : RuntimeLog) (m i : ℕ) (r : SessionRecord)
    → find_record i s.records ≡ some r
    → Owned s cs o m
    → Owned (end_deletion r s) cs (log_closed r.runtime o) m
unfolding end_deletion count
Owned-end_deletion s cs o m i r e h = record {
  each_runtime =
      λ k. let x = h.each_runtime k in let y = deleted (has_runtime k) in omega (arith, x, y);
  held = kept;
  once = λ b k. let x = h.once b k in let y = deleted (has_key b k) in omega (arith, x, y);
  operations = h.operations;
  distinct = h.distinct;
  numbered = h.numbered;
}
  where
    deleted :
        (f : SessionRecord → ℕ)
        → f r + total f (delete_record r.handle s.records) ≡ total f s.records
    deleted f =
        ap (λ n. f r + total f (delete_record n s.records)) (find_record-handle i s.records r e)
        ∙ total-delete_record f i s.records r e

    unheld : (b : Bool) → count (key b r) (reserved b s) ≡ 0
    unheld b =
        let x = h.held b (key b r) in
        let y = h.once b (key b r) in
        let z = deleted (has_key b (key b r)) in
        let u : has_key b (key b r) r ≡ 1 = rw (==_refl (key b r)) refl in omega (arith, x, y, z, u)

    kept : (b : Bool) (k : ℕ) → count k (reserved b (end_deletion r s)) ≡ total (holds b k) cs
    kept true k = discard-absent k r.handle s.reserved_handles (unheld true) ∙ h.held true k
    kept false k =
        discard-absent k r.session_id s.reserved_session_ids (unheld false) ∙ h.held false k

-- Starting deletions and changing the state moves nothing.
pub Owned-records :
    (s : Service) (cs : List Call) (o : RuntimeLog) (m : ℕ) (t : ServiceState)
    (rs : List SessionRecord)
    → ((f : SessionRecord → ℕ)
        → ((r : SessionRecord) → f (record r { deleting = true }) ≡ f r)
        → total f rs ≡ total f s.records)
    → Owned s cs o m
    → Owned (record s { state = t; records = rs }) cs o m
Owned-records s cs o m t rs same h = record {
  each_runtime = λ k.
      let x = h.each_runtime k in let y = same (has_runtime k) (λ r. refl) in omega (arith, x, y);
  held = kept;
  once = λ b k. let x = h.once b k in let y = same (has_key b k) (keyed b k) in omega (arith, x, y);
  operations = h.operations;
  distinct = h.distinct;
  numbered = h.numbered;
}
  where
    keyed :
        (b : Bool) (k : ℕ) (r : SessionRecord)
        → has_key b k (record r { deleting = true }) ≡ has_key b k r
    keyed true k r = refl
    keyed false k r = refl

    kept :
        (b : Bool) (k : ℕ)
        → count k (reserved b (record s { state = t; records = rs })) ≡ total (holds b k) cs
    kept true k = h.held true k
    kept false k = h.held false k
