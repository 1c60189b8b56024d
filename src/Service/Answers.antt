-- ===== src/Service/Answers.antt =====
-- What get_session answers stays what it answers, until the sandbox is deleted or the service closes.
use mem_sandbox.Base.{
  ◌==◌, ==_iff, Bool-cases, Option-cases, ℕ, ◌≡◌, refl, ap, ◌∙◌, inl, inr, Bool, true, false, not,
  ◌&&◌, ◌||◌, none, some, List, [], ◌∷◌,
}
use mem_sandbox.Service.{
  ServiceState, open_state, closing_state, closed_state, SessionRecord, Service, find_record,
  require_open, session_of, get_session, end_deletion,
}
use mem_sandbox.Service.Calls.{
  World, new_world, Event, creates, resumes, loads, builds, starts, cleans, gets, deletes, deleted,
  closes, closed, end_of_deletion, end_close, step, run_events,
}
use mem_sandbox.Service.Totals.{find_record-handle}
use mem_sandbox.Service.Stays.{Marks, get_session-Marks, delete-Marks}
use mem_sandbox.Service.Phases.{Phase, running, draining, over, IsKept}
use mem_sandbox.Service.Lookups.{
  find-delete_record, find-start_deletion, create-Same, resume-Same, Finds, starts-Finds,
  loads-Finds, builds-Finds, cleans-Finds,
}
use mem_sandbox.Service.Histories.{step-Good, step-IsKept, runs-IsKept, new_world-IsKept}

-- Does the event neither delete the sandbox of the handle nor close the service?
abbrev pub spares : ℕ → Event → Bool
spares h (gets i is_running) = is_running || not (h == i)
spares h (deletes i) = not (h == i)
spares h closes = false
spares h e = true

abbrev pub all_spare : ℕ → List Event → Bool
all_spare h [] = true
all_spare h (e ∷ es) = spares h e && all_spare h es

split_and : (a b : Bool) → (a && b) ≡ true → (a ≡ true) × (b ≡ true)
split_and true b e = (refl, e)
split_and false b e = absurd (cc e)

opposite : (b : Bool) → not b ≡ true → b ≡ false
opposite true e = absurd (cc e)
opposite false e = refl

-- An open service that finds a record under the handle, which is not being deleted.
record Serves (h : ℕ) (q : SessionRecord) (w : World) : Type 0 where
  kept : IsKept w
  found : find_record h w.service.records ≡ some q
  stays : q.deleting ≡ false
  is_open : w.service.state ≡ open_state

open_lem : (s : Service) → require_open s ≡ none → s.state ≡ open_state
unfolding require_open
open_lem s e = go s.state refl
  where
    go : (t : ServiceState) → s.state ≡ t → s.state ≡ open_state
    go open_state k = k
    go closing_state k = absurd (let z = rw (k) at e in cc z)
    go closed_state k = absurd (let z = rw (k) at e in cc z)

get_session-same : (h : ℕ) (s : Service) → (get_session h true s).1 ≡ s
unfolding get_session
get_session-same h s = elim (Option-cases (require_open s)) [
  | inr (x, k) ↦ rw (k, get_session) refl
  | inl k ↦ elim (Option-cases (find_record h s.records)) [
    | inl n ↦ rw (k, n, get_session) refl
    | inr (q, n) ↦ elim (Bool-cases q.deleting) [
      | inl d ↦ rw (k, n, d, get_session) refl
      | inr d ↦ rw (k, n, d, get_session) refl
    ]
  ]
]

module _ (h : ℕ) (q : SessionRecord) (w : World) (serves : Serves h q w) where
  Marks-Finds :
      (i : ℕ) (t : Service)
      → (h == i) ≡ false
      → Marks i w.service t
      → Finds h q (record w { service = t })
  Marks-Finds i t apart (inl e) = ap (λ t. find_record h t.records) e ∙ serves.found
  Marks-Finds i t apart (inr (k, e)) =
      ap (λ t. find_record h t.records) e
      ∙ find-start_deletion h i w.service.records apart
      ∙ serves.found

  end_of_deletion-Finds :
      (i : ℕ) (r : SessionRecord)
      → find_record i w.service.records ≡ some r
      → Finds h q (end_of_deletion r w)
  unfolding end_of_deletion
  end_of_deletion-Finds i r z = elim (Bool-cases r.deleting) [
    | inr d ↦ rw (d, end_of_deletion) serves.found
    | inl d ↦
        rw (d, end_of_deletion)
          (unfold end_deletion in
            find-delete_record h r.handle w.service.records (other d) ∙ serves.found)
  ]
    where
      other : r.deleting ≡ true → (h == r.handle) ≡ false
      other d = elim (Bool-cases (h == r.handle)) [
        | inr apart ↦ apart
        | inl same ↦
            let own = find_record-handle i w.service.records r z in
            let g : find_record h w.service.records ≡ some r =
              ap (λ k. find_record k w.service.records) ((==_iff h r.handle).0 same ∙ own) ∙ z in
            let f = serves.found in let u = serves.stays in absurd (cc (f, g, d, u))
      ]

  step_closed : step closed w ≡ w
  unfolding step
  step_closed = go serves.kept.phase
    where
      go : Phase w → end_close w.close_task w ≡ w
      go (running s t) = unfold end_close in rw (t) refl
      go (draining ps hs d) = absurd (let s = d.state in let o = serves.is_open in cc (s, o))
      go (over d) = absurd (let s = d.state in let o = serves.is_open in cc (s, o))

  step-Finds : (e : Event) → spares h e ≡ true → Finds h q (step e w)
  unfolding step
  step-Finds (creates ids) k = ap (find_record h) (create-Same ids w) ∙ serves.found
  step-Finds resumes k = ap (find_record h) (resume-Same w) ∙ serves.found
  step-Finds (loads n x ids) k = loads-Finds h q w serves.found x ids n serves.kept.owned
  step-Finds (builds n b) k = builds-Finds h q w serves.found b n serves.kept.owned
  step-Finds (starts n x clock) k = starts-Finds h q w serves.found x clock n serves.kept.owned
  step-Finds (cleans n b) k = cleans-Finds h q w serves.found b n serves.kept.owned
  step-Finds (gets i true) k =
      ap (λ t. find_record h t.records) (get_session-same i w.service) ∙ serves.found
  step-Finds (gets i false) k =
      Marks-Finds i _ (opposite (h == i) k) (get_session-Marks i false w.service)
  step-Finds (deletes i) k = Marks-Finds i _ (opposite (h == i) k) (delete-Marks i w.service)
  step-Finds (deleted i) k = elim (Option-cases (find_record i w.service.records)) [
    | inl z ↦ rw (z, step) (serves.found)
    | inr (r, z) ↦ rw (z, step) (end_of_deletion-Finds i r z)
  ]
  step-Finds closes k = absurd (cc k)
  step-Finds closed k = rw (step_closed) serves.found

  step_state : (e : Event) → spares h e ≡ true → (step e w).service.state ≡ w.service.state
  step_state (creates ids) k = (step-Good (creates ids) w refl serves.kept.owned).follows.state
  step_state resumes k = (step-Good resumes w refl serves.kept.owned).follows.state
  step_state (loads n x ids) k = (step-Good (loads n x ids) w refl serves.kept.owned).follows.state
  step_state (builds n b) k = (step-Good (builds n b) w refl serves.kept.owned).follows.state
  step_state (starts n x clock) k =
      (step-Good (starts n x clock) w refl serves.kept.owned).follows.state
  step_state (cleans n b) k = (step-Good (cleans n b) w refl serves.kept.owned).follows.state
  step_state (gets i r) k = (step-Good (gets i r) w refl serves.kept.owned).follows.state
  step_state (deletes i) k = (step-Good (deletes i) w refl serves.kept.owned).follows.state
  step_state (deleted i) k = (step-Good (deleted i) w refl serves.kept.owned).follows.state
  step_state closes k = absurd (cc k)
  step_state closed k = rw (step_closed) refl

  step-Serves : (e : Event) → spares h e ≡ true → Serves h q (step e w)
  step-Serves e k = record {
    kept = step-IsKept e w serves.kept;
    found = step-Finds e k;
    stays = serves.stays;
    is_open = step_state e k ∙ serves.is_open;
  }

runs-Serves :
    (h : ℕ) (q : SessionRecord) (es : List Event) (w : World)
    → all_spare h es ≡ true
    → Serves h q w
    → Serves h q (run_events es w)
unfolding run_events
runs-Serves h q [] w k s = s
runs-Serves h q (e ∷ es) w k s =
    let parts = split_and (spares h e) (all_spare h es) k in
    runs-Serves h q es (step e w) parts.1 (step-Serves h q w s e parts.0)

-- An answer comes from a record, and a record gives the answer.
Answers : ℕ → ℕ → Service → Type 0
Answers h r s = (get_session h true s).0 ≡ session_of r

answered :
    (h r : ℕ) (w : World)
    → IsKept w
    → Answers h r w.service
    → ((q : SessionRecord) × (q.runtime ≡ r) × Serves h q w)
unfolding Answers get_session
answered h r w kept e = elim (Option-cases (require_open w.service)) [
  | inr (x, k) ↦ absurd (let z = rw (k, get_session) at e in cc z)
  | inl k ↦ elim (Option-cases (find_record h w.service.records)) [
    | inl n ↦ absurd (let z = rw (k, n, get_session) at e in cc z)
    | inr (q, n) ↦ elim (Bool-cases q.deleting) [
      | inl d ↦ absurd (let z = rw (k, n, d, get_session) at e in cc z)
      | inr d ↦ (
        q,
        (let z = rw (k, n, d, get_session) at e in cc z),
        record { kept = kept; found = n; stays = d; is_open = open_lem w.service k },
      )
    ]
  ]
]

answers : (h : ℕ) (q : SessionRecord) (w : World) → Serves h q w → Answers h q.runtime w.service
unfolding Answers get_session
answers h q w s =
    let k : require_open w.service ≡ none = (unfold require_open in rw (s.is_open) refl) in
    rw (k, s.found, s.stays, get_session) refl

-- After any events of a new service, if `get_session` gives the session of a runtime for a handle,
-- then it still gives that session after any later events, whatever other calls come and end, if
-- none of them deletes the handle, finds its session not running or begins to close the service.
pub get_session-run_events :
    (h r : ℕ) (es later : List Event)
    → (get_session h true (run_events es new_world).service).0 ≡ session_of r
    → all_spare h later ≡ true
    → (get_session h true (run_events later (run_events es new_world)).service).0 ≡ session_of r
unfolding Answers
get_session-run_events h r es later e k =
    let (q, same, s) =
      answered h r (run_events es new_world) (runs-IsKept es new_world new_world-IsKept) e in
    answers h q (run_events later (run_events es new_world))
      (runs-Serves h q later (run_events es new_world) k s)
    ∙ ap session_of same
