-- ===== src/Scope/Defs.antt =====
-- scope.go: the state of a scope, and the operations on it.
--
-- An operation that holds a mutex or is one atomic access is one function from state to state. The
-- counters are unbounded numbers. Times are readings that the caller passes.
use scoped.Base.{
  ℕ, suc, ◌-◌, Bool, true, false, ◌&&◌, not, if◌then◌else◌, ◌==◌, ltb, leb, Option, none, some,
  List, [], ◌∷◌, ◌++◌, map, length,
}
use scoped.Errors.{
  TaskInfo, TaskError, GoError, PanicValue, nil, canceled, panic_error, task_error, is_nil,
  as_panic_error, join,
}
use scoped.Scope.Config.{Config, Policy, fail_fast, collect}

pub data EventKind : Type 0 where
  started done errored panicked cancelled : EventKind

pub record TaskEvent : Type 0 where
  pub kind : EventKind
  pub task : TaskInfo
  pub err : GoError
  pub duration : ℕ

pub record RunningTaskEntry : Type 0 where
  pub id : ℕ
  pub name : ℕ
  pub started : ℕ

-- `ctx_err` is `ctx.Err()`, `err_once` whether a call is or was inside `errOnce.Do`, `once_over`
-- whether that call has returned, for which the others wait, `first_err` nil until it is
-- stored, `sem` the number of slots in use. `events` are the calls of the `onEvent` hook, the
-- oldest first, and `root_open` is the flag of the root spawner.
pub record Scope : Type 0 where
  pub config : Config
  pub open config use *
  pub ctx_err : GoError
  pub ctx_cause : GoError
  pub wg : ℕ
  pub sem : ℕ
  pub first_err : GoError
  pub err_once : Bool
  pub once_over : Bool
  pub errs : List TaskError
  pub dropped_errors : ℕ
  pub panics : List PanicValue
  pub total_spawned : ℕ
  pub active_tasks : ℕ
  pub completed : ℕ
  pub errored_tasks : ℕ
  pub panicked_tasks : ℕ
  pub cancelled_tasks : ℕ
  pub running_tasks : List RunningTaskEntry
  pub next_task_id : ℕ
  pub events : List TaskEvent
  pub root_open : Bool

-- `New`, with the error that the parent context has by then.
unfoldable pub new : Config → GoError → Scope
new c parent = record {
  config = c;
  ctx_err = parent;
  ctx_cause = parent;
  wg = 0;
  sem = 0;
  first_err = nil;
  err_once = false;
  once_over = false;
  errs = [];
  dropped_errors = 0;
  panics = [];
  total_spawned = 0;
  active_tasks = 0;
  completed = 0;
  errored_tasks = 0;
  panicked_tasks = 0;
  cancelled_tasks = 0;
  running_tasks = [];
  next_task_id = 0;
  events = [];
  root_open = true;
}

-- `context.CancelCauseFunc`: the first cancellation of a context counts, and its error is
-- `context.Canceled`. A nil cause stands for that error.
unfoldable pub cancel : GoError → Scope → Scope
cancel cause s =
    if is_nil s.ctx_err
    then record s { ctx_err = canceled; ctx_cause = if is_nil cause then canceled else cause }
    else s

-- `registerTask` returns the id under which the task is kept.
unfoldable pub register_task : ℕ → ℕ → Scope → ℕ × Scope
register_task name now s = (
  s.next_task_id,
  record s {
    next_task_id = suc s.next_task_id;
    running_tasks = record { id = s.next_task_id; name = name; started = now } ∷ s.running_tasks;
  },
)

unfoldable pub delete : ℕ → List RunningTaskEntry → List RunningTaskEntry
delete id [] = []
delete id (entry ∷ rest) =
    let kept = delete id rest in if entry.id == id then kept else entry ∷ kept

unfoldable pub unregister_task : ℕ → Scope → Scope
unfolding delete
unregister_task id s = record s { running_tasks = delete id s.running_tasks }

-- The loop of `longestActive` over the running tasks at the time `now`.
unfoldable pub longest : ℕ → List RunningTaskEntry → ℕ → ℕ
longest now [] best = best
longest now (entry ∷ rest) best =
    longest now rest (if ltb best (now - entry.started) then now - entry.started else best)

unfoldable pub longest_active : ℕ → Scope → ℕ
unfolding longest
longest_active now s = if not s.track_tasks then 0 else longest now s.running_tasks 0

-- How the function that `exec` runs ends.
pub data Outcome : Type 0 where
  returned : GoError → Outcome
  panics_with : PanicValue → Outcome

-- `s.panics = append(s.panics, pe)`
unfoldable pub keep_panic : PanicValue → Scope → Scope
keep_panic v s = record s { panics = s.panics ++ v ∷ [] }

-- `exec`, run through: the error that it returns, and the scope after it.
unfoldable pub exec : Outcome → Scope → GoError × Scope
unfolding cancel keep_panic
exec (returned e) s = (e, s)
exec (panics_with v) s =
    if s.panic_as_err then (panic_error v, s) else (nil, cancel (panic_error v) (keep_panic v s))

unfoldable pub emit_event : TaskEvent → Scope → Scope
emit_event e s = if s.on_event then record s { events = s.events ++ e ∷ [] } else s

-- The `switch` of `emitCompletionEvent`.
unfoldable pub completion_kind : GoError → Scope → EventKind
completion_kind err s =
    if is_nil err
    then done
    else (if as_panic_error err
        then panicked
        else (if not (is_nil s.ctx_err) then cancelled else errored))

count_kind : EventKind → Scope → Scope
count_kind started s = s
count_kind done s = record s { completed = suc s.completed }
count_kind errored s = record s { errored_tasks = suc s.errored_tasks }
count_kind panicked s = record s { panicked_tasks = suc s.panicked_tasks }
count_kind cancelled s = record s { cancelled_tasks = suc s.cancelled_tasks }

unfoldable pub emit_completion_event : TaskInfo → GoError → ℕ → Scope → Scope
unfolding completion_kind count_kind emit_event
emit_completion_event info err d s =
    emit_event (record { kind = completion_kind err s; task = info; err = err; duration = d })
      (count_kind (completion_kind err s) s)

-- `s.firstErr.Store(te)`, the first half of what `errOnce.Do` calls.
unfoldable pub store_first : TaskInfo → GoError → Scope → Scope
store_first info err s = record s { err_once = true; first_err = task_error info err }

-- `s.cancel(err)`, its other half, with which `errOnce.Do` returns.
unfoldable pub cancel_first : GoError → Scope → Scope
unfolding cancel
cancel_first err s = record (cancel err s) { once_over = true }

-- `recordError` by the policy of the scope, up to the `s.cancel` of `errOnce.Do`.
unfoldable pub record_by : Policy → TaskInfo → GoError → Scope → Scope
unfolding store_first
record_by fail_fast info err s = if s.err_once then s else store_first info err s
record_by collect info err s =
    if ltb 0 s.max_errors && leb s.max_errors (length s.errs)
    then record s { dropped_errors = suc s.dropped_errors }
    else record s { errs = s.errs ++ record { task = info; err = err } ∷ [] }

unfoldable pub record_error : TaskInfo → GoError → Scope → Scope
unfolding record_by
record_error info err s = record_by s.policy info err s

-- `beginTask` through a spawner with the given flag; `none` is the panic of a closed spawner.
unfoldable pub begin_task : Bool → Scope → Option Scope
begin_task false s = none
begin_task true s = some (record s {
  wg = suc s.wg;
  total_spawned = suc s.total_spawned;
  active_tasks = suc s.active_tasks;
})

unfoldable pub first_panic : List PanicValue → Option PanicValue
first_panic [] = none
first_panic (v ∷ vs) = some v

unfoldable pub joined_errs : List TaskError → GoError
joined_errs [] = nil
joined_errs errs = join (map (λ te. task_error te.task te.err) errs)

unfoldable pub policy_err : Policy → Scope → GoError
unfolding joined_errs
policy_err fail_fast s = s.first_err
policy_err collect s = joined_errs s.errs

-- What `finalize` does behind `wg.Wait`, once: the error, the panic to raise, and the scope with
-- its context cancelled.
unfoldable pub finalize : Scope → GoError × Option PanicValue × Scope
unfolding policy_err first_panic cancel
finalize s =
    let by_policy = policy_err s.policy s in
    (
      if is_nil by_policy && not (is_nil s.ctx_err) then s.ctx_err else by_policy,
      if s.panic_as_err then none else first_panic s.panics,
      cancel nil s,
    )

-- How `Run` ends: with its error, or with the panic that it raises again.
pub data Ending : Type 0 where
  returns : GoError → Ending
  raises : PanicValue → Ending

unfoldable pub raise_or_return : Option PanicValue → GoError → Ending
raise_or_return none err = returns err
raise_or_return (some v) err = raises v

-- The deferred function of `Run`, given what the user's function panicked with, if it did.
unfoldable pub run_ending : Option PanicValue → Scope → Ending
unfolding raise_or_return finalize
run_ending none s = raise_or_return (finalize s).1 (finalize s).0
run_ending (some v) s = raises v

-- `Wait`
unfoldable pub wait_ending : Scope → Ending
unfolding raise_or_return finalize
wait_ending s = raise_or_return (finalize s).1 (finalize s).0
