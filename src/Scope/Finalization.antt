-- ===== src/Scope/Finalization.antt =====
-- scope.go, `finalize`: what a scope returns, and the first failure under FailFast.
use scoped.Base.{
  ℕ, ◌<◌, ◌≡◌, refl, ◌∙◌, Bool, true, false, not, ◌⊎◌, ◌&&◌, inl, inr, Bool-cases, some, List, [],
  ◌∷◌, arith, length, total, if◌then◌else◌, get_elem?, set,
}
use scoped.Errors.{TaskError, GoError, nil, is_nil, task_error, join, all_task_errors}
use scoped.Errors.Laws.{is_nil-nil, all_task_errors-join}
use scoped.Scope.Config.{Config, collect, fail_fast}
use scoped.Scope.Defs.{
  Scope, cancel, begin_task, cancel_first, returned, panics_with, finalize, joined_errs, policy_err,
}
use scoped.Scope.Tasks.{
  Task, Move, unlimited, acquire, give_up, register, skip, start, finish, close_child, report,
  keep_error, cancel_panic, store_error, cancel_error, storing, end_function, uses_once, unregister,
  release, wg_done, deactivate, track, untrack, emit_started, emit_skipped, record_failure,
  reported,
}
use scoped.Scope.Counting.{inside}
use scoped.Scope.System.{
  System, Step, Reach, init, spawn_root, spawn_child, move, close_root, cancel_scope, end_parent,
  here, next,
}
use scoped.Scope.Aggregation.{Aggregated, Reach-Aggregated, ErrInv, Reach-ErrInv, report-SameErrors}

finalize-fast :
    (s : Scope)
    → ErrInv s
    → s.policy ≡ fail_fast
    → (finalize s).0 ≡ (if s.err_once then s.first_err else s.ctx_err)
unfolding finalize
finalize-fast s v q = elim (Bool-cases s.err_once) [
  | inl stored ↦ ground (arith, v.stored stored)
  | inr unstored ↦ ground (arith, v.unstored unstored, is_nil-nil s.ctx_err)
]

-- Under FailFast `Wait` returns the stored first error, and with none stored the context's error,
-- which is nil unless the context was cancelled.
pub finalize_fail_fast :
    (c : Config) (parent : GoError) (m : System)
    → Reach (init c parent) m
    → m.scope.policy ≡ fail_fast
    → (finalize m.scope).0 ≡ (if m.scope.err_once then m.scope.first_err else m.scope.ctx_err)
finalize_fail_fast c parent m r q = finalize-fast m.scope (Reach-ErrInv c parent r) q

joined-lists : (errs : List TaskError) → all_task_errors (joined_errs errs) ≡ errs
unfolding joined_errs all_task_errors
joined-lists [] = refl
joined-lists (te ∷ tes) = all_task_errors-join (te ∷ tes)

pub joined-nonempty : (errs : List TaskError) → 0 < length errs → is_nil (joined_errs errs) ≡ false
unfolding joined_errs join
joined-nonempty [] h = absurd (omega arith)
joined-nonempty (te ∷ tes) h = refl

joined-empty : joined_errs [] ≡ nil
unfolding joined_errs
joined-empty = refl

pub finalize-by :
    (s : Scope)
    → (finalize s).0 ≡ (
        if is_nil (policy_err s.policy s) && not (is_nil s.ctx_err)
        then s.ctx_err
        else policy_err s.policy s)
unfolding finalize
finalize-by s = refl

pub policy_err-collect :
    (s : Scope) → s.policy ≡ collect → policy_err s.policy s ≡ joined_errs s.errs
unfolding policy_err
policy_err-collect s q = ground arith

-- Under Collect, with errors stored, `Wait` returns them joined, so that `AllTaskErrors` of it lists
-- just the stored errors, in their order.
pub finalize_collect :
    (s : Scope) → s.policy ≡ collect → 0 < length s.errs → all_task_errors (finalize s).0 ≡ s.errs
finalize_collect s q h =
    rw (finalize-by s)
      (rw (policy_err-collect s q) (rw (joined-nonempty s.errs h) (joined-lists s.errs)))

record KeepsFirst (s s' : Scope) : Type 0 where
  once : s'.err_once ≡ true
  first : s'.first_err ≡ s.first_err
  policy : s'.policy ≡ s.policy

Move-KeepsFirst :
    {s : Scope} {t : Task} {s' : Scope} {t' : Task}
    → Move s t s' t'
    → s.policy ≡ fail_fast
    → s.err_once ≡ true
    → KeepsFirst s s'
unfolding track untrack emit_started emit_skipped record_failure end_function cancel cancel_first
Move-KeepsFirst (unlimited h q) f o = ground arith
Move-KeepsFirst (acquire h q) f o = ground arith
Move-KeepsFirst (give_up h q r) f o = ground arith
Move-KeepsFirst (register now h) f o = ground arith
Move-KeepsFirst (skip h q) f o = ground arith
Move-KeepsFirst (start h q) f o = ground arith
Move-KeepsFirst (finish (returned e) h) f o = ground arith
Move-KeepsFirst (finish (panics_with w) h) f o = ground arith
Move-KeepsFirst (cancel_panic h) f o = ground arith
Move-KeepsFirst (close_child h) f o = ground arith
Move-KeepsFirst {s} {t} (report elapsed h) f o =
    ground (arith, report-SameErrors t.info t.err elapsed s)
Move-KeepsFirst (keep_error h q) f o = ground arith
Move-KeepsFirst (store_error h q p) f o = ground arith
Move-KeepsFirst (cancel_error h) f o = ground arith
Move-KeepsFirst (unregister h) f o = ground arith
Move-KeepsFirst (release h) f o = ground arith
Move-KeepsFirst (wg_done h) f o = ground arith
Move-KeepsFirst (deactivate h) f o = ground arith

begin-KeepsFirst :
    (b : Bool) (s : Scope) {s' : Scope}
    → begin_task b s ≡ some s'
    → s.err_once ≡ true
    → KeepsFirst s s'
unfolding begin_task
begin-KeepsFirst false s e o = cc
begin-KeepsFirst true s e o = ground arith

Step-KeepsFirst :
    {m n : System}
    → Step m n
    → m.scope.policy ≡ fail_fast
    → m.scope.err_once ≡ true
    → KeepsFirst m.scope n.scope
unfolding cancel
Step-KeepsFirst {m} (spawn_root info nested e) f o = begin-KeepsFirst _ m.scope e o
Step-KeepsFirst {m} (spawn_child i info nested q e) f o = begin-KeepsFirst _ m.scope e o
Step-KeepsFirst (move i e mv) f o = Move-KeepsFirst mv f o
Step-KeepsFirst close_root f o = ground arith
Step-KeepsFirst (cancel_scope cause) f o = ground arith
Step-KeepsFirst (end_parent e p q) f o = ground arith

Reach-KeepsFirst :
    {m n : System}
    → Reach m n
    → m.scope.policy ≡ fail_fast
    → m.scope.err_once ≡ true
    → KeepsFirst m.scope n.scope
Reach-KeepsFirst here f o = record { once = o; first = refl; policy = refl }
Reach-KeepsFirst (next r st) f o =
    let a = Reach-KeepsFirst r f o in
    let b = Step-KeepsFirst st (a.policy ∙ f) a.once in
    record { once = b.once; first = b.first ∙ a.first; policy = b.policy ∙ a.policy }

pub Reach-from : {k m n : System} → Reach k m → Reach m n → Reach k n
Reach-from r here = r
Reach-from r (next q st) = next (Reach-from r q) st

first-stored :
    (s : Scope) (t : Task)
    → s.policy ≡ fail_fast
    → s.err_once ≡ false
    → is_nil t.err ≡ false
    → ((record_failure s t).err_once ≡ true)
      × ((record_failure s t).first_err ≡ task_error t.info t.err)
      × ((record_failure s t).policy ≡ fail_fast)
unfolding record_failure
first-stored s t f o e = ground arith

uses : (s : Scope) (t : Task) → s.policy ≡ fail_fast → is_nil t.err ≡ false → uses_once s t ≡ true
unfolding uses_once
uses s t f bad = ground (arith, f)

once-cancelled :
    (m : System)
    → Aggregated m
    → m.scope.err_once ≡ true
    → (is_nil m.scope.ctx_err ≡ false) ⊎ (total inside m.tasks ≡ 1)
once-cancelled m v o = elim (Bool-cases (is_nil m.scope.ctx_err)) [
  | inl live ↦ inr (v.first live o)
  | inr over ↦ inl over
]

-- Under FailFast the first failure to be recorded wins: when task `i` of a state with none stored
-- yet passes its error to `recordError`, then from every state that follows, in any order of steps,
-- `Wait` returns that error with that task, and the context is cancelled, unless a task is still
-- inside `errOnce.Do` and about to cancel it.
pub first_failure_wins :
    (c : Config) (parent : GoError) (m n : System) (i : ℕ) (t : Task)
    → Reach (init c parent) m
    → m.scope.policy ≡ fail_fast
    → m.scope.err_once ≡ false
    → get_elem? m.tasks i ≡ some t
    → t.pc ≡ reported
    → is_nil t.err ≡ false
    → Reach
        (record {
          scope = record_failure m.scope t;
          tasks = set m.tasks i (record t { pc = storing });
        })
        n
    → ((finalize n.scope).0 ≡ task_error t.info t.err)
      × ((is_nil n.scope.ctx_err ≡ false) ⊎ (total inside n.tasks ≡ 1))
first_failure_wins c parent m n i t r f o e at bad later =
    let (once, stored, fast) = first-stored m.scope t f o bad in
    let kept = Reach-KeepsFirst later fast once in
    let all = Reach-from (next r (move i e (store_error at (uses m.scope t f bad) o))) later in
    (
      finalize_fail_fast c parent n all (kept.policy ∙ fast) ∙ rw kept.once (kept.first ∙ stored),
      once-cancelled n (Reach-Aggregated c parent all) kept.once,
    )
