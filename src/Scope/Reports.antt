-- ===== src/Scope/Reports.antt =====
-- scope.go, `exec` and `emitCompletionEvent`: what the metrics of a scope say of its tasks.
use scoped.Base.{
  ℕ, suc, ◌+◌, ◌≤◌, ◌≡◌, refl, ap, ◌∙◌, Bool, true, false, if◌then◌else◌, List, [], ◌∷◌, ◌++◌,
  arith, length, total, All, inl, inr, Bool-cases,
}
use scoped.Errors.{TaskInfo, GoError, PanicValue, as_panic_error, nil, panic_error}
use scoped.Scope.Config.{Config}
use scoped.Scope.Defs.{Scope, cancel, exec, Outcome, returned, panics_with, emit_completion_event}
use scoped.Scope.Tasks.{Pc, panicking, end_function, Task}
use scoped.Scope.System.{System, Reach, init}
use scoped.Scope.Counting.{unwaited, counted, outcomes, IsOrdered}
use scoped.Scope.Invariant.{Reach-Inv}

-- What the recovery of `exec` does behind the panic that it has kept.
abbrev recover : Pc → Scope → Scope
recover (panicking v) s = cancel (panic_error v) s
recover _ s = s

-- `exec` is what the steps of a task make of it with none of another task between them.
pub exec-end_function :
    (o : Outcome) (s : Scope)
    → exec o s ≡ ((end_function o s).1, recover (end_function o s).0 (end_function o s).2)
unfolding exec end_function
exec-end_function (returned e) s = refl
exec-end_function (panics_with v) s = elim (Bool-cases s.panic_as_err) [
  | inl converts ↦ rw converts refl
  | inr keeps ↦ rw keeps refl
]

exec-converted :
    (s : Scope) (v : PanicValue)
    → s.panic_as_err ≡ true
    → exec (panics_with v) s ≡ (panic_error v, s)
unfolding exec
exec-converted s v q = ground (arith, q)

exec-kept :
    (s : Scope) (v : PanicValue)
    → s.panic_as_err ≡ false
    → exec (panics_with v) s
      ≡ (nil, cancel (panic_error v) (record s { panics = s.panics ++ v ∷ [] }))
unfolding exec
exec-kept s v q = ground (arith, q)

report_panic :
    (info : TaskInfo) (v : PanicValue) (elapsed : ℕ) (s : Scope)
    → let after = emit_completion_event info (panic_error v) elapsed s in
      (after.panicked_tasks ≡ suc s.panicked_tasks) × (after.completed ≡ s.completed)
unfolding emit_completion_event as_panic_error
report_panic info v elapsed s = ground arith

report_success :
    (info : TaskInfo) (elapsed : ℕ) (s : Scope)
    → let after = emit_completion_event info nil elapsed s in
      (after.panicked_tasks ≡ s.panicked_tasks) × (after.completed ≡ suc s.completed)
unfolding emit_completion_event
report_success info elapsed s = ground arith

cancel-same :
    (cause : GoError) (s : Scope)
    → ((cancel cause s).panicked_tasks ≡ s.panicked_tasks)
      × ((cancel cause s).completed ≡ s.completed)
unfolding cancel
cancel-same cause s = ground arith

if_true : {b : Bool} {x : ℕ} (y : ℕ) → b ≡ true → x ≡ (if b then x else y)
if_true y q = rw q refl

if_false : {b : Bool} {y : ℕ} (x : ℕ) → b ≡ false → y ≡ (if b then x else y)
if_false x q = rw q refl

-- A task that panics is counted as panicked with `WithPanicAsError`. Without that option it is
-- counted as completed, and not as panicked.
pub panic_counted :
    (s : Scope) (info : TaskInfo) (v : PanicValue) (elapsed : ℕ)
    → let after =
        emit_completion_event info (exec (panics_with v) s).0 elapsed (exec (panics_with v) s).1 in
      (after.panicked_tasks ≡ (if s.panic_as_err then suc s.panicked_tasks else s.panicked_tasks))
      × (after.completed ≡ (if s.panic_as_err then s.completed else suc s.completed))
panic_counted s info v elapsed = elim (Bool-cases s.panic_as_err) [
  | inl q ↦
      let a = report_panic info v elapsed s in
      let e = exec-converted s v q in
      (
        ap (λ r. (emit_completion_event info r.0 elapsed r.1).panicked_tasks) e ∙ a.0 ∙ if_true _ q,
        ap (λ r. (emit_completion_event info r.0 elapsed r.1).completed) e ∙ a.1 ∙ if_true _ q,
      )
  | inr q ↦
      let kept : Scope = record s { panics = s.panics ++ v ∷ [] } in
      let a = report_success info elapsed (cancel (panic_error v) kept) in
      let b = cancel-same (panic_error v) kept in
      let e = exec-kept s v q in
      (
        ap (λ r. (emit_completion_event info r.0 elapsed r.1).panicked_tasks) e
            ∙ a.0
            ∙ b.0
            ∙ if_false _ q,
        ap (λ r. (emit_completion_event info r.0 elapsed r.1).completed) e
            ∙ a.1
            ∙ ap suc b.1
            ∙ if_false _ q,
      )
]

-- Whether `exec` was not called for a task.
abbrev unexecuted_if : Bool → ℕ
unexecuted_if true = 0
unexecuted_if false = 1

abbrev pub unexecuted : Task → ℕ
unexecuted t = unexecuted_if t.executed

counted_once :
    (t : Task)
    → IsOrdered t
    → (counted t + unexecuted t ≤ 1) × (1 ≤ counted t + unexecuted t + unwaited t)
counted_once t o = ground arith

count_each :
    (ts : List Task)
    → All IsOrdered ts
    → (total counted ts + total unexecuted ts ≤ length ts)
      × (length ts ≤ total counted ts + total unexecuted ts + total unwaited ts)
count_each [] h = omega arith
count_each (t ∷ ts) h = omega (arith, counted_once t h.0, count_each ts h.1)

-- When the wait group is at 0, the spawned tasks are those counted as completed, errored, panicked
-- or cancelled, and those whose function was never called.
pub spawned_accounted :
    (c : Config) (parent : GoError) (m : System)
    → Reach (init c parent) m
    → m.scope.wg ≡ 0
    → m.scope.total_spawned ≡ outcomes m.scope + total unexecuted m.tasks
spawned_accounted c parent m r over =
    let v = Reach-Inv c parent r in
    omega (arith, over, v.wg, v.spawned, v.outcome, count_each m.tasks v.ordered)
