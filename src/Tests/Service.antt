-- ===== src/Tests/Service.antt =====
-- The theorems on the service at concrete events.
use mem_sandbox.Base.{◌≡◌, refl, true, false, none, some, List, [], ◌∷◌}
use mem_sandbox.Service.{
  closed_state, sandbox_identifier_conflict, sandbox_service_closed, has, discard, find_record,
  put_record, delete_record, require_open, begin_lifecycle, finish_lifecycle, reserve_identifiers,
  publish, start_deletion, start_all, session_of, get_session, delete, end_deletion, close_begins,
  close_ends,
}
use mem_sandbox.Service.Calls.{
  service_error, returned_handle, raised_error, new_world, find_call, drop_call, factory_error,
  start_error, outer_error, closes_again, finish, reserved_ids, reserve, begin, created, create,
  resumed, resume, goes_on, leaves, loaded, built, made, published, started, cleaned, Event,
  creates, resumes, loads, builds, starts, cleans, gets, deletes, deleted, closes, closed,
  end_of_deletion, none_in, begin_close, end_close, on_loads, on_builds, on_starts, on_cleans,
  at_call, step, run_events,
}
use mem_sandbox.Service.Answers.{get_session-run_events}

-- One sandbox is made and one fails to start while the service closes; both are cleaned up.
abbrev events : List Event
events =
    creates (some (5, 6))
    ∷ creates (some (5, 9))
    ∷ resumes
    ∷ builds 0 (built 70)
    ∷ starts 0 none none
    ∷ loads 2 none (some (8, 9))
    ∷ builds 2 (built 71)
    ∷ closes
    ∷ starts 2 none none
    ∷ deleted 5
    ∷ closed
    ∷ cleans 2 false
    ∷ closed
    ∷ creates (some (1, 2))
    ∷ []

record Ran : Type 0 where
  is_closed : (run_events events new_world).service.state ≡ closed_state
  answers :
      (run_events events new_world).ended
      ≡ (3, raised_error (service_error sandbox_service_closed))
        ∷ (2, raised_error (service_error sandbox_service_closed))
        ∷ (0, returned_handle 5)
        ∷ (1, raised_error (service_error sandbox_identifier_conflict))
        ∷ []

-- A sandbox that runs, and events that leave it alone.
abbrev sandbox : List Event
sandbox = creates (some (5, 6)) ∷ builds 0 (built 70) ∷ starts 0 none none ∷ []

abbrev later : List Event
later =
    creates (some (5, 9))
    ∷ creates (some (7, 9))
    ∷ builds 2 (built 71)
    ∷ starts 2 none none
    ∷ deleted 5
    ∷ gets 5 true
    ∷ gets 7 false
    ∷ deleted 7
    ∷ deletes 8
    ∷ closed
    ∷ []

found : (get_session 5 true (run_events sandbox new_world).service).0 ≡ session_of 70
unfolding run_events step create created resume resumed reserve reserved_ids begin finish goes_on
    leaves loaded made started published cleaned closes_again start_error factory_error outer_error
    begin_close end_close none_in on_loads on_builds on_starts on_cleans at_call find_call drop_call
    end_of_deletion has discard find_record put_record delete_record require_open begin_lifecycle
    finish_lifecycle reserve_identifiers publish start_deletion start_all get_session delete
    end_deletion close_begins close_ends
found = refl

get_session-run_events_example :
    (get_session 5 true (run_events later (run_events sandbox new_world)).service).0 ≡ session_of 70
get_session-run_events_example = get_session-run_events 5 70 sandbox later found refl
