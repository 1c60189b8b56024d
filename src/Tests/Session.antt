-- ===== src/Tests/Session.antt =====
-- The theorems on the session at concrete calls.
use mem_sandbox.Session.Acts.{
  unexpected, raised, returned, pure, outcome, raise, attempt, raise_when, lifecycle_of, change,
  ◌>>=◌,
}
use mem_sandbox.Base.{length, ◌≡◌, refl, true, false, none, List, [], ◌∷◌}
use mem_sandbox.Session.{
  running, closed, category, read_file_kind, write_file_kind, stat_kind, delivered, refused,
  finished_close, Session, new_session, OperationLimits, is_running,
}
use mem_sandbox.Session.Lifecycle.{
  request_close, interfere, awaited, Emission, new_event, delivery_outcome, emit_new, admitted,
  admission_outcome, set_lifecycle, finish_start, require_created, start, first_error, caught,
  raise_some, close_body, end_close, close_once,
}
use mem_sandbox.Session.Operations.{
  completed, Answers, rejection, reject_non_running, remaining, validate_policy_decision,
  fail_closed, emit_failed, act, post_commit_outcome, emit_built, emit_post_commit, work,
  terminal_for_category, terminal_type, final_outcome, settle_operation, unannounced, announce,
  conclude, run_operation,
}
use mem_sandbox.Session.History.{
  SessionCall, starts, operates, asks_close, closes_once, run_call, run_calls,
}
use mem_sandbox.Session.Protocol.Runs.{run_calls-finished, close-closed}
use mem_sandbox.Session.Success.{IsSuccess, run_operation-IsSuccess}

abbrev sent : Emission
sent = record { delivery = delivered; meanwhile = false }

abbrev half_minute : OperationLimits
half_minute = record { timeout_seconds = 30; terminal_event_reserve_seconds = 1 }

-- A write that goes well, and one whose policy raises and whose wait meets a call of `close`.
abbrev good : Answers
good = record {
  gate = admitted;
  gate_meanwhile = false;
  started_monotonic = 100;
  normalized = returned tt;
  cancellation_set = false;
  operation_id = 7;
  start_emission = sent;
  policy_time = 101;
  decision = returned (record {
    allowed = true;
    effective_limits = record { timeout_seconds = 20; terminal_event_reserve_seconds = 1 };
  });
  policy_meanwhile = false;
  action_time = 102;
  action = completed 5;
  action_meanwhile = false;
  post_commit = none;
  terminal = sent;
}

abbrev doomed : Answers
doomed = record good { operation_id = 8; decision = raised unexpected; policy_meanwhile = true }

abbrev calls : List SessionCall
calls =
    starts admitted false sent
    ∷ operates write_file_kind half_minute good
    ∷ operates read_file_kind half_minute doomed
    ∷ closes_once sent (returned tt) (record { delivery = refused; meanwhile = false })
    ∷ []

-- Seven events: the start, two for each operation, and two for the close.
record Ran : Type 0 where
  events : length (run_calls calls new_session).log ≡ 7
  finished : (run_calls calls new_session).close_task ≡ finished_close

ran : Ran
unfolding run_calls run_call start require_created finish_start close_body close_once end_close
    first_error ◌>>=◌ lifecycle_of raise_some raise_when awaited outcome attempt change pure raise
    caught admission_outcome interfere emit_new delivery_outcome new_event request_close
    set_lifecycle run_operation reject_non_running rejection act emit_built emit_failed
    emit_post_commit fail_closed final_outcome post_commit_outcome remaining settle_operation
    terminal_for_category terminal_type unannounced validate_policy_decision work category announce
    conclude
ran = record { events = refl; finished = refl }

run_calls-finished_example :
    run_calls (asks_close ∷ operates stat_kind half_minute good ∷ []) (run_calls calls new_session)
    ≡ run_calls calls new_session
run_calls-finished_example =
    run_calls-finished calls (asks_close ∷ operates stat_kind half_minute good ∷ []) ran.finished

abbrev opened : List SessionCall
opened = starts admitted false sent ∷ []

close-closed_example :
    let s =
      run_calls
        (asks_close ∷ closes_once sent (raised unexpected) sent ∷ [])
        (run_calls opened new_session) in
    (s.lifecycle ≡ closed) × (s.close_task ≡ finished_close)
close-closed_example = close-closed opened sent (raised unexpected) sent

abbrev running_session : Session
running_session = record new_session { lifecycle = running }

good_returns : (run_operation write_file_kind half_minute good running_session).0 ≡ returned 5
unfolding ◌>>=◌ lifecycle_of raise_some raise_when awaited outcome attempt change pure raise caught
    admission_outcome interfere emit_new delivery_outcome new_event request_close set_lifecycle
    run_operation reject_non_running rejection act emit_built emit_failed emit_post_commit
    fail_closed final_outcome post_commit_outcome remaining settle_operation terminal_for_category
    terminal_type unannounced validate_policy_decision work category announce conclude
good_returns = refl

run_operation-IsSuccess_example :
    (is_running running_session.lifecycle ≡ true) × IsSuccess half_minute good 5
run_operation-IsSuccess_example =
    run_operation-IsSuccess write_file_kind half_minute good running_session 5 good_returns
