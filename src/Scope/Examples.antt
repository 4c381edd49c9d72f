-- ===== src/Scope/Examples.antt =====
-- The theorems on scopes at runs of a scope with one slot.
use scoped.Base.{◌⊎◌, ◌+◌, ◌≤◌, ◌≡◌, refl, true, false, List, [], ◌∷◌, arith, total}
use scoped.Errors.{
  TaskInfo, TaskError, GoError, nil, canceled, plain, value, as_panic_error, task_error, is_nil,
}
use scoped.Scope.Config.{Config, collect, default_config}
use scoped.Scope.Defs.{
  Scope, new, begin_task, returned, panics_with, exec, cancel_first, emit_completion_event,
  finalize,
}
use scoped.Scope.Tasks.{
  Pc, running, reported, storing, store_error, cancel_error, end_function, uses_once, waited,
  finished, Task, acquire, register, start, finish, close_child, report, unregister, release,
  wg_done, deactivate, track, untrack, emit_started, record_failure,
}
use scoped.Scope.System.{System, Reach, init, spawn_root, move, close_root, here, next}
use scoped.Scope.Counting.{outcomes, inside}
use scoped.Scope.Invariant.{Inv, Reach-Inv}
use scoped.Scope.Progress.{Works, can_settle}
use scoped.Scope.Safety.{Settled, structured_concurrency, executing-le-limit, executing}
use scoped.Scope.Reports.{panic_counted, spawned_accounted, unexecuted}
use scoped.Scope.Finalization.{first_failure_wins, Reach-from}

abbrev pub config : Config
config = record default_config { limit = 1 }

abbrev pub info : TaskInfo
info = record { name = 7 }

abbrev fresh : Scope
fresh = record {
  config = config;
  ctx_err = nil;
  ctx_cause = nil;
  wg = 0;
  sem = 0;
  first_err = nil;
  err_once = false;
  once_over = false;
  errs = [];
  dropped_errors = 0;
  panics = [];
  total_spawned = 0;
  active_tasks = 0;
  completed = 0;
  errored_tasks = 0;
  panicked_tasks = 0;
  cancelled_tasks = 0;
  running_tasks = [];
  next_task_id = 0;
  events = [];
  root_open = true;
}

abbrev held : Scope
held = record fresh { wg = 1; sem = 1; total_spawned = 1; active_tasks = 1 }

abbrev task : Pc → GoError → Task
task pc err = record {
  info = info;
  nested = false;
  pc = pc;
  task_id = 0;
  err = err;
  child_open = false;
  executed = true;
}

abbrev busy : System
busy = record { scope = held; tasks = task running nil ∷ [] }

-- The task failed, and its error is about to be recorded.
abbrev failing : System
failing = record { scope = record held { errored_tasks = 1 }; tasks = task reported (plain 1) ∷ [] }

-- The task is behind its `wg.Done`, and the root spawner is closed.
abbrev ended : System
ended = record {
  scope = record held {
    wg = 0;
    sem = 0;
    errored_tasks = 1;
    ctx_err = canceled;
    ctx_cause = plain 1;
    err_once = true;
    once_over = true;
    first_err = task_error info (plain 1);
    root_open = false;
  };
  tasks = task waited (plain 1) ∷ [];
}

abbrev left : System
left = record {
  scope = record ended.scope { active_tasks = 0 };
  tasks = task finished (plain 1) ∷ [];
}

busy-Reach : Reach (init config nil) busy
unfolding begin_task new track emit_started
busy-Reach =
    next
      (next
        (next (next here (spawn_root info false refl)) (move 0 refl (acquire refl (omega arith))))
        (move 0 refl (register 100 refl)))
      (move 0 refl (start refl refl))

failing-Reach : Reach (init config nil) failing
unfolding end_function emit_completion_event as_panic_error
failing-Reach =
    next
      (next (next busy-Reach (move 0 refl (finish (returned (plain 1)) refl)))
        (move 0 refl (close_child refl)))
      (move 0 refl (report 5 refl))

ended-later :
    Reach
      (record {
        scope = record_failure failing.scope (task reported (plain 1));
        tasks = task storing (plain 1) ∷ [];
      })
      ended
unfolding record_failure cancel_first untrack
ended-later =
    next
      (next
        (next (next (next here (move 0 refl (cancel_error refl))) (move 0 refl (unregister refl)))
          (move 0 refl (release refl)))
        (move 0 refl (wg_done refl)))
      close_root

pub ended-Reach : Reach (init config nil) ended
unfolding uses_once
ended-Reach = Reach-from (next failing-Reach (move 0 refl (store_error refl refl refl))) ended-later

left-later : Reach ended left
left-later = next here (move 0 refl (deactivate refl))

structured_concurrency_example : Settled ended left × (total executing left.tasks ≡ 0)
structured_concurrency_example =
    structured_concurrency config nil ended left ended-Reach refl refl left-later

can_settle_example : (n : System) × Works busy n × (n.scope.wg ≡ 0)
can_settle_example = can_settle config nil busy busy-Reach

executing-le-limit_example : 1 ≤ 1
executing-le-limit_example = executing-le-limit config nil busy busy-Reach (omega arith)

Reach-Inv_example : Inv failing
Reach-Inv_example = Reach-Inv config nil failing-Reach

first_failure_wins_example :
    ((finalize ended.scope).0 ≡ task_error info (plain 1))
    × ((is_nil canceled ≡ false) ⊎ (total inside ended.tasks ≡ 1))
first_failure_wins_example =
    first_failure_wins config nil failing ended 0 (task reported (plain 1)) failing-Reach refl refl
      refl refl refl ended-later

spawned_accounted_example : 1 ≡ outcomes ended.scope + total unexecuted ended.tasks
spawned_accounted_example = spawned_accounted config nil ended ended-Reach refl

abbrev stored_errors : List TaskError
stored_errors = record { task = info; err = plain 1 } ∷ record { task = info; err = plain 2 } ∷ []

abbrev collected : Scope
collected = record fresh { config = record config { policy = collect }; errs = stored_errors }

panic_counted_example :
    let after =
      emit_completion_event info
        (exec (panics_with (value 3)) collected).0
        4
        (exec (panics_with (value 3)) collected).1 in
    (after.panicked_tasks ≡ 0) × (after.completed ≡ 1)
panic_counted_example = panic_counted collected info (value 3) 4

abbrev two_running : Scope
two_running = record fresh {
  config = record config { track_tasks = true };
  running_tasks =
      record { id = 1; name = 5; started = 40 } ∷ record { id = 0; name = 4; started = 10 } ∷ [];
}
