-- ===== src/Service/Histories.antt =====
-- Every run of the service keeps its ownership, and a service that is closed holds nothing.
use mem_sandbox.Base.{Option-cases, ℕ, ◌≡◌, refl, inl, inr, Bool, true, false, List, [], ◌∷◌, arith}
use mem_sandbox.Service.{new_service, find_record}
use mem_sandbox.Service.Calls.{
  World, new_world, Event, creates, resumes, loads, builds, starts, cleans, gets, deletes, deleted,
  closes, closed, step, run_events,
}
use mem_sandbox.Service.Totals.{total, count}
use mem_sandbox.Service.Ownership.{reserved, IsOwned}
use mem_sandbox.Service.Steps.{create-IsOwned, resume-IsOwned}
use mem_sandbox.Service.Shut.{create-Follows, resume-Follows}
use mem_sandbox.Service.Stays.{get_session-Marks, delete-Marks}
use mem_sandbox.Service.Closing.{
  Good, Good-refl, loads-Good, builds-Good, starts-Good, cleans-Good, Marks-Good,
  end_of_deletion-Good,
}
use mem_sandbox.Service.Phases.{running, IsKept, Good-IsKept, begin_close-IsKept, end_close-IsKept}

-- Is the event one of `close`?
abbrev pub is_closing : Event → Bool
is_closing closes = true
is_closing closed = true
is_closing e = false

pub step-Good : (e : Event) (w : World) → is_closing e ≡ false → IsOwned w → Good w (step e w)
unfolding step
step-Good (creates ids) w k h = record {
  owned = create-IsOwned ids w h;
  follows = create-Follows ids w;
}
step-Good resumes w k h = record { owned = resume-IsOwned w h; follows = resume-Follows w }
step-Good (loads n x ids) w k h = loads-Good w h x ids n
step-Good (builds n b) w k h = builds-Good w h b n
step-Good (starts n x clock) w k h = starts-Good w h x clock n
step-Good (cleans n b) w k h = cleans-Good w h b n
step-Good (gets i r) w k h = Marks-Good w h i _ (get_session-Marks i r w.service)
step-Good (deletes i) w k h = Marks-Good w h i _ (delete-Marks i w.service)
step-Good (deleted i) w k h = elim (Option-cases (find_record i w.service.records)) [
  | inl e ↦ rw (e, step) (Good-refl w h)
  | inr (r, e) ↦ rw (e, step) (end_of_deletion-Good w h i r e)
]
step-Good closes w k h = absurd (cc k)
step-Good closed w k h = absurd (cc k)

pub step-IsKept : (e : Event) (w : World) → IsKept w → IsKept (step e w)
unfolding step
step-IsKept closes w h = begin_close-IsKept w w.close_task refl h
step-IsKept closed w h = end_close-IsKept w w.close_task refl h
step-IsKept (creates ids) w h = Good-IsKept w _ h.phase (step-Good (creates ids) w refl h.owned)
step-IsKept resumes w h = Good-IsKept w _ h.phase (step-Good resumes w refl h.owned)
step-IsKept (loads n x ids) w h = Good-IsKept w _ h.phase (step-Good (loads n x ids) w refl h.owned)
step-IsKept (builds n b) w h = Good-IsKept w _ h.phase (step-Good (builds n b) w refl h.owned)
step-IsKept (starts n x clock) w h =
    Good-IsKept w _ h.phase (step-Good (starts n x clock) w refl h.owned)
step-IsKept (cleans n b) w h = Good-IsKept w _ h.phase (step-Good (cleans n b) w refl h.owned)
step-IsKept (gets i r) w h = Good-IsKept w _ h.phase (step-Good (gets i r) w refl h.owned)
step-IsKept (deletes i) w h = Good-IsKept w _ h.phase (step-Good (deletes i) w refl h.owned)
step-IsKept (deleted i) w h = Good-IsKept w _ h.phase (step-Good (deleted i) w refl h.owned)

pub runs-IsKept : (es : List Event) (w : World) → IsKept w → IsKept (run_events es w)
unfolding run_events
runs-IsKept [] w h = h
runs-IsKept (e ∷ es) w h = runs-IsKept es (step e w) (step-IsKept e w h)

pub new_world-IsKept : IsKept new_world
unfolding total count
new_world-IsKept = record {
  owned = record {
    each_runtime = λ k. omega arith;
    held = none_held;
    once = λ b k. omega arith;
    operations = λ p. refl;
    distinct = λ p. omega arith;
    numbered = tt;
  };
  phase = running refl refl;
}
  where
    none_held : (b : Bool) (k : ℕ) → count k (reserved b new_service) ≡ 0
    none_held true k = refl
    none_held false k = refl
