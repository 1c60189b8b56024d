-- ===== src/Service/Ownership.antt =====
-- Who holds the runtimes, the identifiers and the operations of a service.
use mem_sandbox.Base.{
  ◌==◌, All, ℕ, ◌+◌, ◌≤◌, ◌<◌, ◌≡◌, sym, ◌∙◌, Bool, true, false, none, some, List, ◌∷◌, arith,
}
use mem_sandbox.Service.{SessionRecord, Service, discard, finish_lifecycle}
use mem_sandbox.Service.Calls.{
  Stage, loading, building, starting, cleaning, Call, RuntimeLog, World, find_call, drop_call,
}
use mem_sandbox.Service.Totals.{
  bit, total, count, discard-same, discard-once, discard-absent, total-drop_call, All-drop_call,
  All-find_call,
}

-- The handle or the session identifier.
abbrev pub pick : Bool → ℕ → ℕ → ℕ
pick true handle session_id = handle
pick false handle session_id = session_id

abbrev pub key : Bool → SessionRecord → ℕ
key true r = r.handle
key false r = r.session_id

abbrev pub reserved : Bool → Service → List ℕ
reserved true s = s.reserved_handles
reserved false s = s.reserved_session_ids

abbrev pub holds_at : Bool → ℕ → Stage → ℕ
holds_at b k loading = 0
holds_at b k (building h i) = bit (k == pick b h i)
holds_at b k (starting h i r) = bit (k == pick b h i)
holds_at b k (cleaning h i r again x) = bit (k == pick b h i)

abbrev pub holds : Bool → ℕ → Call → ℕ
holds b k c = holds_at b k c.stage

-- How often a stage, a call or a record has a runtime.
abbrev pub runtimes_at : ℕ → Stage → ℕ
runtimes_at k loading = 0
runtimes_at k (building h i) = 0
runtimes_at k (starting h i r) = bit (k == r)
runtimes_at k (cleaning h i r again x) = bit (k == r)

abbrev pub runtimes : ℕ → Call → ℕ
runtimes k c = runtimes_at k c.stage

abbrev pub has_runtime : ℕ → SessionRecord → ℕ
has_runtime k r = bit (k == r.runtime)

abbrev pub is_operation : ℕ → Call → ℕ
is_operation p c = bit (p == c.operation)

abbrev pub has_key : Bool → ℕ → SessionRecord → ℕ
has_key b k r = bit (k == key b r)

-- Each runtime that was built is as often with a call or a record as its close has not ended; the
-- reserved identifiers are those that the calls hold, and no two calls or records have one in common; the pending operations are those of
-- the calls, all different and below the next one.
pub record Owned (s : Service) (cs : List Call) (log : RuntimeLog) (next : ℕ) : Type 0 where
  pub each_runtime :
      (k : ℕ)
      → count k log.built_runtimes
        ≡ count k log.ended_closes + (total (runtimes k) cs + total (has_runtime k) s.records)
  pub held : (b : Bool) (k : ℕ) → count k (reserved b s) ≡ total (holds b k) cs
  pub once : (b : Bool) (k : ℕ) → total (holds b k) cs + total (has_key b k) s.records ≤ 1
  pub operations : (p : ℕ) → count p s.pending_operations ≡ total (is_operation p) cs
  pub distinct : (p : ℕ) → total (is_operation p) cs ≤ 1
  pub numbered : All (λ c. c.operation < next) cs

abbrev pub IsOwned : World → Type 0
IsOwned w = Owned w.service w.calls w.log w.next_operation

-- The order of the calls does not matter.
pub Owned-front :
    (s : Service) (cs : List Call) (o : RuntimeLog) (m n : ℕ) (c : Call)
    → find_call n cs ≡ some c
    → Owned s cs o m
    → Owned s (c ∷ drop_call c.operation cs) o m
Owned-front s cs o m n c e h =
    let move = λ (f : Call → ℕ). total-drop_call f n cs c e in
    record {
      each_runtime =
          λ k. let x = h.each_runtime k in let y = move (runtimes k) in omega (arith, x, y);
      held = λ b k. h.held b k ∙ sym (move (holds b k));
      once = λ b k. let x = move (holds b k) in let y = h.once b k in omega (arith, x, y);
      operations = λ p. h.operations p ∙ sym (move (is_operation p));
      distinct = λ p. let x = move (is_operation p) in let y = h.distinct p in omega (arith, x, y);
      numbered = (
        All-find_call (λ c. c.operation < m) n cs c e h.numbered,
        All-drop_call (λ c. c.operation < m) c.operation cs h.numbered,
      );
    }

module _ {s : Service} {cs : List Call} {o : RuntimeLog} {m : ℕ} {c : Call}
    (h : Owned s (c ∷ cs) o m) where
  -- A call goes on with the same identifiers.
  pub Owned-goes_on :
      (stage : Stage) (p : RuntimeLog)
      → ((b : Bool) (k : ℕ) → holds_at b k stage ≡ holds b k c)
      → ((k : ℕ)
          → count k o.built_runtimes + count k p.ended_closes + runtimes_at k stage
            ≡ count k p.built_runtimes + count k o.ended_closes + runtimes k c)
      → Owned s (record c { stage = stage } ∷ cs) p m
  unfolding total
  Owned-goes_on stage p same e = record {
    each_runtime = λ k. let x = h.each_runtime k in let y = e k in omega (arith, x, y);
    held = λ b k. let x = h.held b k in let y = same b k in omega (arith, x, y);
    once = λ b k. let x = h.once b k in let y = same b k in omega (arith, x, y);
    operations = h.operations;
    distinct = h.distinct;
    numbered = h.numbered;
  }

  -- A call ends that leaves its identifiers behind, if it has some.
  pub Owned-finish :
      (i j : ℕ) (p : RuntimeLog)
      → ((b : Bool) (k : ℕ) → count k (discard (pick b i j) (reserved b s)) ≡ total (holds b k) cs)
      → ((k : ℕ)
          → count k o.built_runtimes + count k p.ended_closes
            ≡ count k p.built_runtimes + count k o.ended_closes + runtimes k c)
      → Owned (finish_lifecycle c.operation (some (i, j)) s) cs p m
  unfolding total finish_lifecycle
  Owned-finish i j p gone e = record {
    each_runtime = λ k. let x = h.each_runtime k in let y = e k in omega (arith, x, y);
    held = left;
    once = λ b k. let x = h.once b k in omega (arith, x);
    operations = λ p.
        discard-once p c.operation s.pending_operations (total (is_operation p) (c ∷ cs))
          (total (is_operation p) cs) (h.operations p) (h.distinct p) (omega arith);
    distinct = λ p. let x = h.distinct p in omega (arith, x);
    numbered = h.numbered.1;
  }
    where
      left :
          (b : Bool) (k : ℕ)
          → count k (reserved b (finish_lifecycle c.operation (some (i, j)) s))
            ≡ total (holds b k) cs
      left true k = gone true k
      left false k = gone false k

  pub Owned-finish_none :
      ((b : Bool) (k : ℕ) → holds b k c ≡ 0)
      → ((k : ℕ) → runtimes k c ≡ 0)
      → Owned (finish_lifecycle c.operation none s) cs o m
  unfolding total finish_lifecycle
  Owned-finish_none nothing e = record {
    each_runtime = λ k. let x = h.each_runtime k in let y = e k in omega (arith, x, y);
    held = left;
    once = λ b k. let x = h.once b k in omega (arith, x);
    operations = λ p.
        discard-once p c.operation s.pending_operations (total (is_operation p) (c ∷ cs))
          (total (is_operation p) cs) (h.operations p) (h.distinct p) (omega arith);
    distinct = λ p. let x = h.distinct p in omega (arith, x);
    numbered = h.numbered.1;
  }
    where
      left :
          (b : Bool) (k : ℕ)
          → count k (reserved b (finish_lifecycle c.operation none s)) ≡ total (holds b k) cs
      left true k = let x = h.held true k in let y = nothing true k in omega (arith, x, y)
      left false k = let x = h.held false k in let y = nothing false k in omega (arith, x, y)

  -- The call has just these identifiers.
  pub Owned-discards :
      (i j : ℕ)
      → ((b : Bool) (k : ℕ) → holds b k c ≡ bit (k == pick b i j))
      → (b : Bool) (k : ℕ) → count k (discard (pick b i j) (reserved b s)) ≡ total (holds b k) cs
  unfolding total
  Owned-discards i j has_them b k =
      discard-once k (pick b i j) (reserved b s) (total (holds b k) (c ∷ cs)) (total (holds b k) cs)
        (h.held b k) (let x = h.once b k in omega (arith, x))
        (let x = has_them b k in omega (arith, x))

  pub Owned-discards_twice :
      (i j : ℕ)
      → ((b : Bool) (k : ℕ) → holds b k c ≡ bit (k == pick b i j))
      → (b : Bool) (k : ℕ)
      → count k (discard (pick b i j) (discard (pick b i j) (reserved b s))) ≡ total (holds b k) cs
  Owned-discards_twice i j has_them b k =
      discard-absent k (pick b i j) (discard (pick b i j) (reserved b s))
        (discard-same (pick b i j) (reserved b s))
      ∙ Owned-discards i j has_them b k
