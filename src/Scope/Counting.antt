-- ===== src/Scope/Counting.antt =====
-- What the operations of a scope and the steps of a task do to the counters: each counter changes
-- by the change of a task's weight.
use scoped.Base.{
  ℕ, ◌+◌, ◌<◌, ◌≤◌, ◌≡◌, Bool, true, false, ◌&&◌, not, length, length-append, ◌∷◌, [], arith,
}
use scoped.Errors.{nil, is_nil}
use scoped.Scope.Config.{collect}
use scoped.Scope.Defs.{Scope, cancel, cancel_first, returned, panics_with, emit_completion_event}
use scoped.Scope.Tasks.{
  Pc, Task, Move, launched, admitted, tracked, running, exited, closed, reported, released, waited,
  finished, track, untrack, emit_started, emit_skipped, record_failure, unlimited, acquire, give_up,
  register, skip, start, finish, close_child, report, keep_error, cancel_panic, store_error,
  cancel_error, panicking, storing, end_function, uses_once, unregister, release, wg_done,
  deactivate,
}

-- Tasks that have completion counted, and the errors recorded or dropped.
abbrev pub outcomes : Scope → ℕ
outcomes s = s.completed + s.errored_tasks + s.panicked_tasks + s.cancelled_tasks

abbrev pub recorded : Scope → ℕ
recorded s = length s.errs + s.dropped_errors

-- Weights of a task: whether its `wg.Done` is still to come, whether it still counts as active,
-- whether it holds a slot, whether its completion was counted, and whether it has an
-- error that was passed to `recordError`.
abbrev unwaited_at : Pc → ℕ
unwaited_at waited = 0
unwaited_at finished = 0
unwaited_at _ = 1

abbrev unfinished_at : Pc → ℕ
unfinished_at finished = 0
unfinished_at _ = 1

abbrev holds_at : Pc → ℕ
holds_at launched = 0
holds_at released = 0
holds_at waited = 0
holds_at finished = 0
holds_at _ = 1

abbrev is_reported : Pc → Bool
is_reported launched = false
is_reported admitted = false
is_reported tracked = false
is_reported running = false
is_reported (panicking v) = false
is_reported exited = false
is_reported closed = false
is_reported _ = true

abbrev is_left : Pc → Bool
is_left reported = false
is_left pc = is_reported pc

abbrev is_early : Pc → Bool
is_early launched = true
is_early admitted = true
is_early tracked = true
is_early _ = false

abbrev is_body : Pc → Bool
is_body running = true
is_body (panicking v) = true
is_body storing = true
is_body exited = true
is_body closed = true
is_body reported = true
is_body _ = false

abbrev pub may_spawn : Pc → Bool
may_spawn running = true
may_spawn (panicking v) = true
may_spawn exited = true
may_spawn _ = false

abbrev one_if : Bool → ℕ
one_if true = 1
one_if false = 0

abbrev pub unwaited : Task → ℕ
unwaited t = unwaited_at t.pc

abbrev pub unfinished : Task → ℕ
unfinished t = unfinished_at t.pc

abbrev pub holds : Task → ℕ
holds t = holds_at t.pc

abbrev pub counted : Task → ℕ
counted t = one_if (t.executed && is_reported t.pc)

abbrev pub failed : Task → ℕ
failed t = one_if (not (is_nil t.err) && is_left t.pc)

-- Whether a task is inside `errOnce.Do`, and whether it recovers from a panic that it has kept.
abbrev inside_at : Pc → ℕ
inside_at storing = 1
inside_at _ = 0

abbrev pub inside : Task → ℕ
inside t = inside_at t.pc

abbrev recovering_at : Pc → ℕ
recovering_at (panicking v) = 1
recovering_at _ = 0

abbrev pub recovering : Task → ℕ
recovering t = recovering_at t.pc

-- The calls that are inside `errOnce.Do`.
abbrev pub once_busy : Scope → ℕ
once_busy s = one_if (s.err_once && not s.once_over)

-- What holds of a task at every point of its goroutine: its child spawner is open only while its
-- function runs or returns, and `exec` is called exactly on the way to the points behind it.
pub record IsOrdered (t : Task) : Type 0 where
  pub child : t.child_open ≡ true → may_spawn t.pc ≡ true
  pub early : is_early t.pc ≡ true → (t.executed ≡ false) × (t.err ≡ nil)
  pub body : is_body t.pc ≡ true → t.executed ≡ true

-- What a step of a task does to the scope `s`, which becomes `s'`, while the task `t` becomes `t'`.
pub record Balanced (s : Scope) (t : Task) (s' : Scope) (t' : Task) : Type 0 where
  pub config : s'.config ≡ s.config
  pub root_open : s'.root_open ≡ s.root_open
  pub total_spawned : s'.total_spawned ≡ s.total_spawned
  pub wg : s'.wg + unwaited t ≡ s.wg + unwaited t'
  pub active : s'.active_tasks + unfinished t ≡ s.active_tasks + unfinished t'
  pub slots : 0 < s.limit → s'.sem + holds t ≡ s.sem + holds t'
  pub room : 0 < s.limit → s.sem ≤ s.limit → s'.sem ≤ s.limit
  pub outcome : outcomes s' + counted t ≡ outcomes s + counted t'
  pub failure : s.policy ≡ collect → recorded s' + failed t ≡ recorded s + failed t'
  pub once : once_busy s' + inside t ≡ once_busy s + inside t'
  pub over : s'.once_over ≡ true → s'.err_once ≡ true
  pub ordered : IsOrdered t'

-- A task counts itself before it gives anything back.
pub record Funded (s : Scope) (t : Task) : Type 0 where
  pub wg : unwaited t ≤ s.wg
  pub active : unfinished t ≤ s.active_tasks
  pub slots : 0 < s.limit → holds t ≤ s.sem
  pub once : inside t ≤ once_busy s
  pub over : s.once_over ≡ true → s.err_once ≡ true
  pub ordered : IsOrdered t

report-Balanced :
    {s : Scope} {t : Task} (elapsed : ℕ)
    → t.pc ≡ closed
    → Funded s t
    → Balanced s t (emit_completion_event t.info t.err elapsed s) (record t { pc = reported })
unfolding emit_completion_event
report-Balanced elapsed h f = record {
  config = ground arith;
  root_open = ground arith;
  total_spawned = ground arith;
  wg = ground (arith, h);
  active = ground (arith, h);
  slots = λ l. ground (arith, h);
  room = λ l r. ground (arith, r);
  outcome = ground (arith, h, f.ordered);
  failure = λ q. ground (arith, h);
  once = ground (arith, h);
  over = λ o. ground (arith, f.over, o);
  ordered = ground (arith, h, f.ordered);
}

pub Move-Balanced :
    {s : Scope} {t : Task} {s' : Scope} {t' : Task}
    → Move s t s' t'
    → Funded s t
    → Balanced s t s' t'
unfolding track untrack emit_started emit_skipped record_failure end_function uses_once cancel
    cancel_first
Move-Balanced (unlimited h q) f = ground arith
Move-Balanced (acquire h q) f = ground arith
Move-Balanced (give_up h q r) f = ground arith
Move-Balanced (register now h) f = ground arith
Move-Balanced (skip h q) f = ground arith
Move-Balanced (start h q) f = ground arith
Move-Balanced (finish (returned e) h) f = ground arith
Move-Balanced (finish (panics_with v) h) f = ground arith
Move-Balanced (cancel_panic h) f = ground arith
Move-Balanced (close_child h) f = ground arith
Move-Balanced (report elapsed h) f = report-Balanced elapsed h f
Move-Balanced {s} {t = t} (keep_error h q) f =
    ground (arith, length-append s.errs (record { task = t.info; err = t.err } ∷ []))
Move-Balanced (store_error h q p) f = ground arith
Move-Balanced (cancel_error h) f = ground arith
Move-Balanced (unregister h) f = ground arith
Move-Balanced (release h) f = ground arith
Move-Balanced (wg_done h) f = ground arith
Move-Balanced (deactivate h) f = ground arith
