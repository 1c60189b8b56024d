-- ===== src/Service/Stays.antt =====
-- The events that are not of `close` leave a shut service shut.
use mathlib.Core.Path.{subst}
use mem_sandbox.Base.{
  ◌==◌, Bool-cases, Option-cases, ℕ, ◌≡◌, refl, sym, ◌⊎◌, inl, inr, Bool, true, false, Option, none,
  some, List, [], ◌∷◌,
}
use mem_sandbox.Service.{
  sandbox_service_closed, SessionRecord, Service, find_record, delete_record, require_open,
  finish_lifecycle, publish, start_deletion, get_session, delete, end_deletion,
}
use mem_sandbox.Service.Calls.{
  Raised, CallEnd, Stage, starting, Call, RuntimeLog, World, find_call, drop_call, finish, goes_on,
  leaves, loaded, Built, built, not_built, log_built, log_closed, made, published, started, cleaned,
  end_of_deletion,
}
use mem_sandbox.Service.Totals.{All-drop_call, All-find_call}
use mem_sandbox.Service.Waits.{publish-cases}
use mem_sandbox.Service.Shut.{IsShut, AllCalls, AllRecords, Follows, Follows-refl, reserve-Follows}

module _ (c : Call) (w : World) (found : find_call c.operation w.calls ≡ some c) where
  abbrev others : List Call
  others = drop_call c.operation w.calls

  fewer : (P : ℕ → Bool) → AllCalls P w.calls → AllCalls P others
  fewer P h = All-drop_call (λ c. P c.operation ≡ true) c.operation w.calls h

  itself : (P : ℕ → Bool) → AllCalls P w.calls → P c.operation ≡ true
  itself P h = All-find_call (λ c. P c.operation ≡ true) c.operation w.calls c found h

  goes_on-Follows :
      (stage : Stage) (o : RuntimeLog) → Follows w (goes_on c stage (record w { log = o }))
  unfolding goes_on
  goes_on-Follows stage o = record {
    state = refl;
    task = refl;
    calls = λ P s h. (itself P h, fewer P h);
    records = λ P s h. h;
  }

  finish-Follows :
      (i j : ℕ) (o : RuntimeLog) (end : CallEnd)
      → Follows w (finish c.operation (some (i, j)) end (leaves c (record w { log = o })))
  unfolding finish finish_lifecycle leaves
  finish-Follows i j o end = record {
    state = refl;
    task = refl;
    calls = λ P s h. fewer P h;
    records = λ P s h. h;
  }

  pub loaded-Follows : (x : Option Raised) (ids : Option (ℕ × ℕ)) → Follows w (loaded c x ids w)
  unfolding loaded leaves finish finish_lifecycle
  loaded-Follows (some x) ids = record {
    state = refl;
    task = refl;
    calls = λ P s h. fewer P h;
    records = λ P s h. h;
  }
  loaded-Follows none ids =
      let rest = reserve-Follows c.operation c.kind ids (leaves c w) in
      record {
        state = rest.state;
        task = rest.task;
        calls = λ P s h. rest.calls P s (fewer P h);
        records = rest.records;
      }

  pub made-Follows : (i j : ℕ) (x : Built) → Follows w (made c i j x w)
  unfolding made
  made-Follows i j (built r) = goes_on-Follows (starting i j r) (log_built r w.log)
  made-Follows i j (not_built x) = finish-Follows i j w.log _

  pub started-Follows :
      (i j r : ℕ) (x clock : Option Raised) → Follows w (started c i j r x clock w)
  unfolding started published
  started-Follows i j r (some x) clock = goes_on-Follows _ w.log
  started-Follows i j r none (some x) = goes_on-Follows _ w.log
  started-Follows i j r none none = elim (publish-cases i j r w.service) [
    | inl (e, k) ↦ rw (k, published) (goes_on-Follows _ w.log)
    | inr k ↦
        rw (k, published)
          (unfold finish in
            unfold finish_lifecycle in
            unfold leaves in
            record {
              state = refl;
              task = refl;
              calls = λ P s h. fewer P h;
              records = λ P s h. absurd (not_published s k);
            })
  ]
    where
      not_published : {t : Service} → IsShut w → publish i j r w.service ≡ (none, t) → ⊥
      not_published s k =
          let z : publish i j r w.service ≡ (some sandbox_service_closed, w.service) =
            unfold publish in rw (s, publish) refl in
          cc (z, k)

  pub cleaned-Follows :
      (i j r : ℕ) (again : Bool) (x : Raised) (interrupted : Bool)
      → Follows w (cleaned c i j r again x interrupted w)
  unfolding cleaned
  cleaned-Follows i j r true x true = goes_on-Follows _ w.log
  cleaned-Follows i j r true x false = finish-Follows i j (log_closed r w.log) _
  cleaned-Follows i j r false x true = finish-Follows i j (log_closed r w.log) _
  cleaned-Follows i j r false x false = finish-Follows i j (log_closed r w.log) _

-- Nothing happens, or an open service starts a deletion.
abbrev pub Marks : ℕ → Service → Service → Type 0
Marks i s t =
    (t ≡ s) ⊎ ((require_open s ≡ none) × (t ≡ record s { records = start_deletion i s.records }))

pub get_session-Marks : (i : ℕ) (r : Bool) (s : Service) → Marks i s (get_session i r s).1
unfolding get_session
get_session-Marks i r s = elim (Option-cases (require_open s)) [
  | inr (e, k) ↦ inl (rw (k, get_session) refl)
  | inl k ↦ elim (Option-cases (find_record i s.records)) [
    | inl n ↦ inl (rw (k, n, get_session) refl)
    | inr (q, n) ↦ elim (Bool-cases q.deleting) [
      | inl d ↦ inl (rw (k, n, d, get_session) refl)
      | inr d ↦ elim (Bool-cases r) [
        | inl run ↦ inl (rw (k, n, d, run, get_session) refl)
        | inr run ↦ inr (k, rw (k, n, d, run, get_session) refl)
      ]
    ]
  ]
]

pub delete-Marks : (i : ℕ) (s : Service) → Marks i s (delete i s).1
unfolding delete
delete-Marks i s = elim (Option-cases (require_open s)) [
  | inr (e, k) ↦ inl (rw (k, delete) refl)
  | inl k ↦ elim (Option-cases (find_record i s.records)) [
    | inl n ↦ inl (rw (k, n, delete) refl)
    | inr (q, n) ↦ inr (k, rw (k, n, delete) refl)
  ]
]

pub Marks-Follows :
    (i : ℕ) (w : World) (t : Service) → Marks i w.service t → Follows w (record w { service = t })
Marks-Follows i w t (inl e) =
    subst (λ t. Follows w (record w { service = t })) (sym e) (Follows-refl w)
Marks-Follows i w t (inr (k, e)) =
    subst (λ t. Follows w (record w { service = t })) (sym e)
      (record {
        state = refl;
        task = refl;
        calls = λ P s h. h;
        records = λ P s h. absurd (cc (s, k));
      })

All-delete_record :
    (P : ℕ → Bool) (i : ℕ) (rs : List SessionRecord)
    → AllRecords P rs
    → AllRecords P (delete_record i rs)
unfolding delete_record
All-delete_record P i [] h = tt
All-delete_record P i (r ∷ rs) (p, h) = elim (Bool-cases (i == r.handle)) [
  | inl same ↦ rw (same, delete_record) h
  | inr other ↦ rw (other, delete_record) (p, All-delete_record P i rs h)
]

pub end_of_deletion-Follows : (r : SessionRecord) (w : World) → Follows w (end_of_deletion r w)
unfolding end_of_deletion end_deletion
end_of_deletion-Follows r w = elim (Bool-cases r.deleting) [
  | inl yes_it ↦
      rw (yes_it, end_of_deletion)
        (record {
          state = refl;
          task = refl;
          calls = λ P s h. h;
          records = λ P s h. All-delete_record P r.handle w.service.records h;
        })
  | inr not_yet ↦ rw (not_yet, end_of_deletion) (Follows-refl w)
]
