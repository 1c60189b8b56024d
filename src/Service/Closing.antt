-- ===== src/Service/Closing.antt =====
-- Every event that is not of `close` keeps the ownership and leaves a shut service shut.
use mathlib.Core.Path.{subst}
use mem_sandbox.Base.{
  Bool-cases, Option-cases, ℕ, ◌≡◌, refl, sym, ap, ◌∙◌, inl, inr, Bool, true, Option, some, ◌∷◌,
}
use mem_sandbox.Service.{SessionRecord, Service, find_record, end_deletion}
use mem_sandbox.Service.Calls.{
  Raised, Stage, loading, building, starting, cleaning, Call, World, find_call, drop_call, Built,
  end_of_deletion, on_loads, on_builds, on_starts, on_cleans, at_call,
}
use mem_sandbox.Service.Totals.{find_call-operation, total-start_deletion}
use mem_sandbox.Service.Ownership.{Owned, IsOwned, Owned-front}
use mem_sandbox.Service.Kept.{Owned-end_deletion, Owned-records}
use mem_sandbox.Service.Waits.{loaded-IsOwned, made-IsOwned, started-IsOwned, cleaned-IsOwned}
use mem_sandbox.Service.Shut.{Follows, Follows-refl}
use mem_sandbox.Service.Stays.{
  loaded-Follows, made-Follows, started-Follows, cleaned-Follows, Marks, Marks-Follows,
  end_of_deletion-Follows,
}

pub record Good (w v : World) : Type 0 where
  pub owned : IsOwned v
  pub follows : Follows w v

pub Good-refl : (w : World) → IsOwned w → Good w w
Good-refl w h = record { owned = h; follows = Follows-refl w }

module _ (w : World) (h : IsOwned w) where
  abbrev Handled : (Call → Stage → World → World) → Type 0
  Handled f =
      (c : Call)
      → Owned w.service (c ∷ drop_call c.operation w.calls) w.log w.next_operation
      → find_call c.operation w.calls ≡ some c
      → (stage : Stage) → c.stage ≡ stage
      → Good w (f c stage w)

  at_call-Good : (n : ℕ) (f : Call → Stage → World → World) → Handled f → Good w (at_call n f w)
  unfolding at_call
  at_call-Good n f k = elim (Option-cases (find_call n w.calls)) [
    | inl e ↦ rw (e, at_call) (Good-refl w h)
    | inr (c, e) ↦
        let same : find_call c.operation w.calls ≡ some c =
          ap (λ m. find_call m w.calls) (find_call-operation n w.calls c e) ∙ e in
        rw (e, at_call)
          (k c (Owned-front w.service w.calls w.log w.next_operation n c e h) same c.stage refl)
  ]

  pub loads-Good :
      (x : Option Raised) (ids : Option (ℕ × ℕ)) (n : ℕ) → Good w (at_call n (on_loads x ids) w)
  unfolding on_loads
  loads-Good x ids n = at_call-Good n (on_loads x ids) go
    where
      go : Handled (on_loads x ids)
      go c o k loading e = record {
        owned = loaded-IsOwned c w o x ids e;
        follows = loaded-Follows c w k x ids;
      }
      go c o k (building i j) e = Good-refl w h
      go c o k (starting i j r) e = Good-refl w h
      go c o k (cleaning i j r again y) e = Good-refl w h

  pub builds-Good : (b : Built) (n : ℕ) → Good w (at_call n (on_builds b) w)
  unfolding on_builds
  builds-Good b n = at_call-Good n (on_builds b) go
    where
      go : Handled (on_builds b)
      go c o k (building i j) e = record {
        owned = made-IsOwned c w o i j b e;
        follows = made-Follows c w k i j b;
      }
      go c o k loading e = Good-refl w h
      go c o k (starting i j r) e = Good-refl w h
      go c o k (cleaning i j r again y) e = Good-refl w h

  pub starts-Good : (x clock : Option Raised) (n : ℕ) → Good w (at_call n (on_starts x clock) w)
  unfolding on_starts
  starts-Good x clock n = at_call-Good n (on_starts x clock) go
    where
      go : Handled (on_starts x clock)
      go c o k (starting i j r) e = record {
        owned = started-IsOwned c w o i j r x clock e;
        follows = started-Follows c w k i j r x clock;
      }
      go c o k loading e = Good-refl w h
      go c o k (building i j) e = Good-refl w h
      go c o k (cleaning i j r again y) e = Good-refl w h

  pub cleans-Good : (b : Bool) (n : ℕ) → Good w (at_call n (on_cleans b) w)
  unfolding on_cleans
  cleans-Good b n = at_call-Good n (on_cleans b) go
    where
      go : Handled (on_cleans b)
      go c o k (cleaning i j r again y) e = record {
        owned = cleaned-IsOwned c w o i j r again y b e;
        follows = cleaned-Follows c w k i j r again y b;
      }
      go c o k loading e = Good-refl w h
      go c o k (building i j) e = Good-refl w h
      go c o k (starting i j r) e = Good-refl w h

  pub Marks-Good : (i : ℕ) (t : Service) → Marks i w.service t → Good w (record w { service = t })
  Marks-Good i t m = record { owned = go m; follows = Marks-Follows i w t m }
    where
      go : Marks i w.service t → IsOwned (record w { service = t })
      go (inl e) = subst (λ t. IsOwned (record w { service = t })) (sym e) h
      go (inr (k, e)) =
          subst (λ t. IsOwned (record w { service = t })) (sym e)
            (Owned-records w.service w.calls w.log w.next_operation w.service.state _
              (λ (f : SessionRecord → ℕ)
                  (same : (r : SessionRecord) → f (record r { deleting = true }) ≡ f r).
                total-start_deletion f same i w.service.records)
              h)

  pub end_of_deletion-Good :
      (i : ℕ) (r : SessionRecord)
      → find_record i w.service.records ≡ some r
      → Good w (end_of_deletion r w)
  unfolding end_of_deletion end_deletion
  end_of_deletion-Good i r e = record { owned = go; follows = end_of_deletion-Follows r w }
    where
      go : IsOwned (end_of_deletion r w)
      go = elim (Bool-cases r.deleting) [
        | inl d ↦
            rw (d, end_of_deletion)
              (Owned-end_deletion w.service w.calls w.log w.next_operation i r e h)
        | inr d ↦ rw (d, end_of_deletion) h
      ]
