-- ===== src/Service/Calls.antt =====
-- `create`, `resume`, `delete`, `get_session` and `close` of src/mem_sandbox/service/service.py, as steps
-- from one wait to the next. What a wait comes to is in the event that ends it; a call is known by its
-- pending operation.
use mem_sandbox.Base.{
  ◌==◌, if◌then◌else◌, ℕ, ◌+◌, Bool, true, false, not, ◌&&◌, Option, none, some, List, [], ◌∷◌,
}
use mem_sandbox.Service.{
  ServiceError, sandbox_identifier_conflict, sandbox_startup_failed, sandbox_resume_failed,
  session_factory_failed, SessionRecord, Service, new_service, has, handles, find_record,
  begin_lifecycle, finish_lifecycle, reserve_identifiers, publish, get_session, delete,
  end_deletion, close_begins, close_ends,
}

-- What a collaborator or a call raises.
pub data Raised : Type 0 where
  service_error : ServiceError → Raised
  cancelled_error other_error : Raised

pub data CallEnd : Type 0 where
  returned_handle : ℕ → CallEnd
  raised_error : Raised → CallEnd

pub data CallKind : Type 0 where
  create_call resume_call : CallKind

-- What a call waits for: the snapshot, the factory, the session's start, or the close of a runtime that
-- is not published, which is tried again if it says so and the call is cancelled in it.
pub data Stage : Type 0 where
  loading : Stage
  building : ℕ → ℕ → Stage
  starting : ℕ → ℕ → ℕ → Stage
  cleaning : ℕ → ℕ → ℕ → Bool → Raised → Stage

pub record Call : Type 0 where
  pub operation : ℕ
  pub kind : CallKind
  pub stage : Stage

-- The task of `close`: not there, waiting for operations and for the deletions of handles, or done.
pub data CloseTask : Type 0 where
  no_close : CloseTask
  waiting : List ℕ → List ℕ → CloseTask
  finished : CloseTask

-- The runtimes that the factory has returned, and those whose `close` was called and has ended: it
-- returned, raised or was cancelled. A runtime is put in again each time.
pub record RuntimeLog : Type 0 where
  pub built_runtimes : List ℕ
  pub ended_closes : List ℕ

-- The service, its calls and its close; the runtimes; the next operation; and the ends of calls.
pub record World : Type 0 where
  pub service : Service
  pub calls : List Call
  pub close_task : CloseTask
  pub log : RuntimeLog
  pub next_operation : ℕ
  pub ended : List (ℕ × CallEnd)

abbrev pub new_world : World
new_world = record {
  service = new_service;
  calls = [];
  close_task = no_close;
  log = record { built_runtimes = []; ended_closes = [] };
  next_operation = 0;
  ended = [];
}

unfoldable pub find_call : ℕ → List Call → Option Call
find_call operation [] = none
find_call operation (c ∷ cs) =
    let rest = find_call operation cs in if operation == c.operation then some c else rest

unfoldable pub drop_call : ℕ → List Call → List Call
drop_call operation [] = []
drop_call operation (c ∷ cs) =
    let rest = drop_call operation cs in if operation == c.operation then cs else c ∷ rest

-- The `except` clauses around the factory, around the start, and around the whole of `resume`.
unfoldable pub factory_error : CallKind → Raised → Raised
factory_error kind cancelled_error = cancelled_error
factory_error create_call (service_error e) = service_error e
factory_error create_call other_error = service_error session_factory_failed
factory_error resume_call (service_error session_factory_failed) =
    service_error sandbox_resume_failed
factory_error resume_call (service_error e) = service_error e
factory_error resume_call other_error = service_error sandbox_resume_failed

unfoldable pub start_error : CallKind → Raised → Raised
start_error kind cancelled_error = cancelled_error
start_error create_call x = service_error sandbox_startup_failed
start_error resume_call x = service_error sandbox_resume_failed

unfoldable pub outer_error : CallKind → Raised → Raised
outer_error create_call x = x
outer_error resume_call cancelled_error = cancelled_error
outer_error resume_call (service_error e) = service_error e
outer_error resume_call other_error = service_error sandbox_resume_failed

-- Is the close of the runtime tried once more if the call is cancelled in it? It is made in the
-- `except` clause of `create`, and `finally` makes it again.
unfoldable pub closes_again : CallKind → Raised → Bool
closes_again create_call cancelled_error = false
closes_again create_call x = true
closes_again resume_call x = false

-- The `finally` clause behind the close of a runtime, of a call that is not among the calls.
unfoldable pub finish : ℕ → Option (ℕ × ℕ) → CallEnd → World → World
finish operation ids end w = record w {
  service = finish_lifecycle operation ids w.service;
  ended = (operation, end) ∷ w.ended;
}

-- `_reserve_identifiers`, and the call of the factory; `none` if an identifier is invalid.
unfoldable pub reserved_ids : ℕ → CallKind → ℕ → ℕ → World → Option ServiceError × Service → World
reserved_ids operation kind handle session_id w (some x, s) =
    finish operation none (raised_error (service_error x)) w
reserved_ids operation kind handle session_id w (none, s) = record w {
  service = s;
  calls =
      record { operation = operation; kind = kind; stage = building handle session_id } ∷ w.calls;
}

unfoldable pub reserve : ℕ → CallKind → Option (ℕ × ℕ) → World → World
reserve operation kind none w =
    finish operation none (raised_error (service_error sandbox_identifier_conflict)) w
reserve operation kind (some (handle, session_id)) w =
    reserved_ids operation kind handle session_id w
      (reserve_identifiers handle session_id w.service)

-- `_begin_lifecycle` of a call: what it raises, and the world with the next operation.
unfoldable pub begin : World → Option ServiceError × World
begin w =
    let (e, s) = begin_lifecycle w.next_operation w.service in
    (e, record w { service = s; next_operation = w.next_operation + 1 })

unfoldable pub created : ℕ → Option (ℕ × ℕ) → Option ServiceError × World → World
created operation ids (some x, w) = record w {
  ended = (operation, raised_error (service_error x)) ∷ w.ended;
}
created operation ids (none, w) = reserve operation create_call ids w

unfoldable pub create : Option (ℕ × ℕ) → World → World
create ids w = created w.next_operation ids (begin w)

unfoldable pub resumed : ℕ → Option ServiceError × World → World
resumed operation (some x, w) = record w {
  ended = (operation, raised_error (service_error x)) ∷ w.ended;
}
resumed operation (none, w) = record w {
  calls = record { operation = operation; kind = resume_call; stage = loading } ∷ w.calls;
}

unfoldable pub resume : World → World
resume w = resumed w.next_operation (begin w)

-- The call waits at another place.
unfoldable pub goes_on : Call → Stage → World → World
goes_on c stage w = record w { calls = record c { stage = stage } ∷ drop_call c.operation w.calls }

unfoldable pub leaves : Call → World → World
leaves c w = record w { calls = drop_call c.operation w.calls }

-- The end of the snapshot's load and decoding.
unfoldable pub loaded : Call → Option Raised → Option (ℕ × ℕ) → World → World
loaded c (some x) ids w = finish c.operation none (raised_error (outer_error c.kind x)) (leaves c w)
loaded c none ids w = reserve c.operation c.kind ids (leaves c w)

-- A runtime that the factory returned, and one whose close has ended.
abbrev pub log_built : ℕ → RuntimeLog → RuntimeLog
log_built runtime l = record l { built_runtimes = runtime ∷ l.built_runtimes }

abbrev pub log_closed : ℕ → RuntimeLog → RuntimeLog
log_closed runtime l = record l { ended_closes = runtime ∷ l.ended_closes }

-- What the factory comes to.
pub data Built : Type 0 where
  built : ℕ → Built
  not_built : Raised → Built

unfoldable pub made : Call → ℕ → ℕ → Built → World → World
made c handle session_id (built runtime) w =
    goes_on c (starting handle session_id runtime) (record w { log = log_built runtime w.log })
made c handle session_id (not_built x) w =
    finish c.operation (some (handle, session_id)) (raised_error (factory_error c.kind x))
      (leaves c w)

-- `_publish` behind a start that went well, and the end of the call.
unfoldable pub published : Call → ℕ → ℕ → ℕ → World → Option ServiceError × Service → World
published c handle session_id runtime w (some x, s) =
    goes_on c (cleaning handle session_id runtime false (service_error x)) w
published c handle session_id runtime w (none, s) =
    finish c.operation (some (handle, session_id)) (returned_handle handle)
      (leaves c (record w { service = s }))

-- The end of the session's start: the error that it raises, or what `_utc_now` raises.
unfoldable pub started : Call → ℕ → ℕ → ℕ → Option Raised → Option Raised → World → World
started c handle session_id runtime (some x) clock w =
    goes_on c (cleaning handle session_id runtime (closes_again c.kind x) (start_error c.kind x)) w
started c handle session_id runtime none (some x) w =
    goes_on c (cleaning handle session_id runtime false (outer_error c.kind x)) w
started c handle session_id runtime none none w =
    published c handle session_id runtime w (publish handle session_id runtime w.service)

-- The end of the close of a runtime that was not published, and if the call was cancelled in it.
unfoldable pub cleaned : Call → ℕ → ℕ → ℕ → Bool → Raised → Bool → World → World
cleaned c handle session_id runtime true x true w =
    goes_on c (cleaning handle session_id runtime false cancelled_error) w
cleaned c handle session_id runtime again x interrupted w =
    finish c.operation (some (handle, session_id))
      (raised_error (if interrupted then cancelled_error else x))
      (leaves c (record w { log = log_closed runtime w.log }))

pub data Event : Type 0 where
  creates : Option (ℕ × ℕ) → Event
  resumes : Event
  loads : ℕ → Option Raised → Option (ℕ × ℕ) → Event
  builds : ℕ → Built → Event
  starts : ℕ → Option Raised → Option Raised → Event
  cleans : ℕ → Bool → Event
  gets : ℕ → Bool → Event
  deletes : ℕ → Event
  deleted : ℕ → Event
  closes closed : Event

-- The end of the deletion task of a record, of a handle.
unfoldable pub end_of_deletion : SessionRecord → World → World
end_of_deletion r w =
    if r.deleting
    then record w { service = end_deletion r w.service; log = log_closed r.runtime w.log }
    else w

-- Nothing of the first list is in the second one.
unfoldable pub none_in : List ℕ → List ℕ → Bool
none_in [] there = true
none_in (x ∷ l) there = not (has x there) && none_in l there

-- `_close_once` up to its wait, and behind it when all that it waits for has ended.
unfoldable pub begin_close : CloseTask → World → World
begin_close no_close w = record w {
  service = close_begins w.service;
  close_task = waiting w.service.pending_operations (handles w.service.records);
}
begin_close task w = w

unfoldable pub end_close : CloseTask → World → World
end_close (waiting ps hs) w =
    if none_in ps w.service.pending_operations && none_in hs (handles w.service.records)
    then record w { service = close_ends w.service; close_task = finished }
    else w
end_close task w = w

-- The end of a wait of a call that waits for it; a call that does not is left alone.
unfoldable pub on_loads : Option Raised → Option (ℕ × ℕ) → Call → Stage → World → World
on_loads x ids c loading w = loaded c x ids w
on_loads x ids c stage w = w

unfoldable pub on_builds : Built → Call → Stage → World → World
on_builds b c (building h i) w = made c h i b w
on_builds b c stage w = w

unfoldable pub on_starts : Option Raised → Option Raised → Call → Stage → World → World
on_starts x clock c (starting h i r) w = started c h i r x clock w
on_starts x clock c stage w = w

unfoldable pub on_cleans : Bool → Call → Stage → World → World
on_cleans b c (cleaning h i r again x) w = cleaned c h i r again x b w
on_cleans b c stage w = w

unfoldable pub at_call : ℕ → (Call → Stage → World → World) → World → World
at_call n f w = elim (find_call n w.calls) [ none ↦ w | some c ↦ f c c.stage w ]

unfoldable pub step : Event → World → World
step (creates ids) w = create ids w
step resumes w = resume w
step (loads n x ids) w = at_call n (on_loads x ids) w
step (builds n b) w = at_call n (on_builds b) w
step (starts n x clock) w = at_call n (on_starts x clock) w
step (cleans n b) w = at_call n (on_cleans b) w
step (gets h is_running) w = record w { service = (get_session h is_running w.service).1 }
step (deletes h) w = record w { service = (delete h w.service).1 }
step (deleted h) w = elim (find_record h w.service.records) [
  | none ↦ w
  | some r ↦ end_of_deletion r w
]
step closes w = begin_close w.close_task w
step closed w = end_close w.close_task w

unfoldable pub run_events : List Event → World → World
run_events [] w = w
run_events (e ∷ es) w = run_events es (step e w)
