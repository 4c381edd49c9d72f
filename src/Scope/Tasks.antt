-- ===== src/Scope/Tasks.antt =====
-- spawner.go: a task's goroutine, an access to shared state at a time (`Spawn` and `runTask`).
use scoped.Base.{ℕ, suc, ◌-◌, ◌<◌, ◌≡◌, Bool, true, false, not, ◌&&◌, ◌||◌, leb, if◌then◌else◌}
use scoped.Errors.{TaskInfo, PanicValue, GoError, nil, is_nil, panic_error}
use scoped.Scope.Config.{is_fail_fast}
use scoped.Scope.Defs.{
  Scope, Outcome, returned, panics_with, cancel, keep_panic, cancel_first, register_task,
  unregister_task, emit_event, emit_completion_event, record_error, started, cancelled,
}

-- Where a goroutine stands; each name says what was done last.
pub data Pc : Type 0 where
  launched : Pc  -- `beginTask` returned and the goroutine started
  admitted : Pc  -- a slot of the semaphore is held, if there is one
  tracked : Pc  -- `registerTask` returned, if tasks are tracked
  running : Pc  -- within `exec`
  panicking : PanicValue → Pc  -- within the recovery of `exec`, the panic is kept
  exited : Pc  -- `exec` returned
  closed : Pc  -- `child.close` returned (`Spawn`)
  reported : Pc  -- `emitCompletionEvent` returned
  storing : Pc  -- within `errOnce.Do`, the error is stored
  leaving : Pc  -- the body returned: the deferred calls follow, the last deferred first
  untracked : Pc  -- `unregisterTask` returned
  released : Pc  -- the slot was given back
  waited : Pc  -- `wg.Done` returned
  finished : Pc  -- `activeTasks.Add(-1)` returned

-- `nested` says whether the task was started by `Spawn`, with a child spawner of the flag
-- `child_open`. `err` is the local variable of that name. `executed` tells whether `exec` was called;
-- no step reads it.
pub record Task : Type 0 where
  pub info : TaskInfo
  pub nested : Bool
  pub pc : Pc
  pub task_id : ℕ
  pub err : GoError
  pub child_open : Bool
  pub executed : Bool

abbrev pub launch : TaskInfo → Bool → Task
launch info nested = record {
  info = info;
  nested = nested;
  pc = launched;
  task_id = 0;
  err = nil;
  child_open = false;
  executed = false;
}

-- `if s.trackTasks { taskID := s.registerTask(name); defer s.unregisterTask(taskID) }`
unfoldable pub track : ℕ → Scope → Task → Scope × Task
unfolding register_task
track now s t =
    if s.track_tasks
    then (
      (register_task t.info.name now s).1,
      record t { pc = tracked; task_id = (register_task t.info.name now s).0 },
    )
    else (s, record t { pc = tracked })

unfoldable pub untrack : Scope → Task → Scope
unfolding unregister_task
untrack s t = if s.track_tasks then unregister_task t.task_id s else s

-- `if onStart != nil || onEvent != nil { s.emitEvent(...) }`
unfoldable pub emit_started : Scope → Task → Scope
unfolding emit_event
emit_started s t =
    if s.on_start || s.on_event
    then emit_event (record { kind = started; task = t.info; err = nil; duration = 0 }) s
    else s

unfoldable pub emit_skipped : Scope → Task → Scope
unfolding emit_event
emit_skipped s t =
    emit_event (record { kind = cancelled; task = t.info; err = nil; duration = 0 }) s

-- How far a step takes the goroutine whose function ends: the point it is at, its `err`, and the
-- scope.
unfoldable pub end_function : Outcome → Scope → Pc × GoError × Scope
unfolding keep_panic
end_function (returned e) s = (exited, e, s)
end_function (panics_with v) s =
    if s.panic_as_err then (exited, panic_error v, s) else (panicking v, nil, keep_panic v s)

-- Whether the task's error is for `errOnce.Do`.
unfoldable pub uses_once : Scope → Task → Bool
uses_once s t = is_fail_fast s.policy && not (is_nil t.err)

-- `if err != nil { s.recordError(info, err) }`, up to the `s.cancel` of `errOnce.Do`
unfoldable pub record_failure : Scope → Task → Scope
unfolding record_error
record_failure s t = if is_nil t.err then s else record_error t.info t.err s

-- One step of one goroutine.
pub data Move : Scope → Task → Scope → Task → Type 0 where
  -- `select` on the semaphore, or none
  unlimited :
      {s : Scope} {t : Task}
      → t.pc ≡ launched
      → s.limit ≡ 0
      → Move s t s (record t { pc = admitted })
  acquire :
      {s : Scope} {t : Task}
      → t.pc ≡ launched
      → s.sem < s.limit
      → Move s t (record s { sem = suc s.sem }) (record t { pc = admitted })
  give_up :
      {s : Scope} {t : Task}
      → t.pc ≡ launched
      → 0 < s.limit
      → is_nil s.ctx_err ≡ false
      → Move s t s (record t { pc = released })
  register :
      {s : Scope} {t : Task} (now : ℕ)
      → t.pc ≡ admitted
      → Move s t (track now s t).0 (track now s t).1
  -- `if s.ctx.Err() != nil`
  skip :
      {s : Scope} {t : Task}
      → t.pc ≡ tracked
      → is_nil s.ctx_err ≡ false
      → Move s t (emit_skipped s t) (record t { pc = leaving })
  start :
      {s : Scope} {t : Task}
      → t.pc ≡ tracked
      → is_nil s.ctx_err ≡ true
      → Move s t
          (emit_started s t)
          (record t { pc = running; child_open = t.nested; executed = true })
  finish :
      {s : Scope} {t : Task} (o : Outcome)
      → t.pc ≡ running
      → Move s t
          (end_function o s).2
          (record t { pc = (end_function o s).0; err = (end_function o s).1 })
  cancel_panic :
      {s : Scope} {t : Task} {v : PanicValue}
      → t.pc ≡ panicking v
      → Move s t (cancel (panic_error v) s) (record t { pc = exited })
  close_child :
      {s : Scope} {t : Task}
      → t.pc ≡ exited
      → Move s t s (record t { pc = closed; child_open = false })
  report :
      {s : Scope} {t : Task} (elapsed : ℕ)
      → t.pc ≡ closed
      → Move s t (emit_completion_event t.info t.err elapsed s) (record t { pc = reported })
  keep_error :
      {s : Scope} {t : Task}
      → t.pc ≡ reported
      → uses_once s t && not s.once_over ≡ false
      → Move s t (record_failure s t) (record t { pc = leaving })
  store_error :
      {s : Scope} {t : Task}
      → t.pc ≡ reported
      → uses_once s t ≡ true
      → s.err_once ≡ false
      → Move s t (record_failure s t) (record t { pc = storing })
  cancel_error :
      {s : Scope} {t : Task}
      → t.pc ≡ storing
      → Move s t (cancel_first t.err s) (record t { pc = leaving })
  unregister :
      {s : Scope} {t : Task} → t.pc ≡ leaving → Move s t (untrack s t) (record t { pc = untracked })
  release :
      {s : Scope} {t : Task}
      → t.pc ≡ untracked
      → Move s t
          (if leb 1 s.limit then record s { sem = s.sem - 1 } else s)
          (record t { pc = released })
  wg_done :
      {s : Scope} {t : Task}
      → t.pc ≡ released
      → Move s t (record s { wg = s.wg - 1 }) (record t { pc = waited })
  deactivate :
      {s : Scope} {t : Task}
      → t.pc ≡ waited
      → Move s t (record s { active_tasks = s.active_tasks - 1 }) (record t { pc = finished })
