-- ===== src/Scope/Aggregation.antt =====
-- scope.go, `recordError`, `exec` and `finalize`: which errors a scope keeps, and what it returns.
use scoped.Base.{
  ℕ, ◌<◌, ◌≤◌, ◌≡◌, refl, Bool, true, false, Bool-cases, inl, inr, some, [], ◌∷◌, arith, length,
  total, total-append, total-set, ◌+◌, ◌++◌, length-append,
}
use scoped.Errors.{TaskInfo, GoError, nil, is_nil}
use scoped.Scope.Config.{Config, Policy, collect, fail_fast}
use scoped.Scope.Defs.{
  Scope, new, cancel, begin_task, record_by, record_error, cancel_first, returned, panics_with,
  emit_completion_event,
}
use scoped.Scope.Tasks.{
  Task, Move, unlimited, acquire, give_up, register, skip, start, finish, close_child, report,
  keep_error, cancel_panic, store_error, cancel_error, end_function, unregister, release, wg_done,
  deactivate, track, untrack, emit_started, emit_skipped, record_failure,
}
use scoped.Scope.Counting.{inside, recovering, once_busy}
use scoped.Scope.Invariant.{Reach-Inv}
use scoped.Scope.System.{
  System, Step, Reach, init, spawn_root, spawn_child, move, close_root, cancel_scope, end_parent,
  here, next,
}

-- How the errors of a scope hang together with its policy and its context.
pub record ErrInv (s : Scope) : Type 0 where
  pub stored : s.err_once ≡ true → is_nil s.first_err ≡ false
  pub cancelled : s.once_over ≡ true → is_nil s.ctx_err ≡ false
  pub unstored : s.err_once ≡ false → s.first_err ≡ nil
  pub capped : 0 < s.max_errors → length s.errs ≤ s.max_errors
  pub fast : s.policy ≡ fail_fast → s.errs ≡ []
  pub collecting : s.policy ≡ collect → s.err_once ≡ false
  pub converted : s.panic_as_err ≡ true → s.panics ≡ []

new-ErrInv : (c : Config) (parent : GoError) → ErrInv (new c parent)
unfolding new
new-ErrInv c parent = ground arith

-- `s'` differs from `s` in nothing that `ErrInv` reads.
pub record SameErrors (s s' : Scope) : Type 0 where
  pub config : s'.config ≡ s.config
  pub ctx_err : s'.ctx_err ≡ s.ctx_err
  pub err_once : s'.err_once ≡ s.err_once
  pub once_over : s'.once_over ≡ s.once_over
  pub first_err : s'.first_err ≡ s.first_err
  pub errs : s'.errs ≡ s.errs
  pub panics : s'.panics ≡ s.panics
  pub root_open : s'.root_open ≡ s.root_open

SameErrors-ErrInv : {s s' : Scope} → SameErrors s s' → ErrInv s → ErrInv s'
SameErrors-ErrInv q v = ground arith

pub report-SameErrors :
    (info : TaskInfo) (err : GoError) (d : ℕ) (s : Scope)
    → SameErrors s (emit_completion_event info err d s)
unfolding emit_completion_event
report-SameErrors info err d s = ground arith

record_by-ErrInv :
    (p : Policy) (info : TaskInfo) (err : GoError) (s : Scope)
    → s.policy ≡ p
    → ErrInv s
    → ErrInv (record_by p info err s)
unfolding record_by
record_by-ErrInv fail_fast info err s q v = ground arith
record_by-ErrInv collect info err s q v =
    ground (arith, length-append s.errs (record { task = info; err = err } ∷ []))

record_failure-ErrInv : (s : Scope) (t : Task) → ErrInv s → ErrInv (record_failure s t)
unfolding record_failure record_error
record_failure-ErrInv s t v = elim (Bool-cases (is_nil t.err)) [
  | inl fine ↦ rw fine v
  | inr bad ↦ rw bad (record_by-ErrInv s.policy t.info t.err s refl v)
]

Move-ErrInv :
    {s : Scope} {t : Task} {s' : Scope} {t' : Task} → Move s t s' t' → ErrInv s → ErrInv s'
unfolding track untrack emit_started emit_skipped end_function cancel cancel_first
Move-ErrInv (unlimited h q) v = v
Move-ErrInv (acquire h q) v = ground arith
Move-ErrInv (give_up h q r) v = v
Move-ErrInv (register now h) v = ground arith
Move-ErrInv (skip h q) v = ground arith
Move-ErrInv (start h q) v = ground arith
Move-ErrInv (finish (returned e) h) v = ground arith
Move-ErrInv (finish (panics_with w) h) v = ground arith
Move-ErrInv (cancel_panic h) v = ground arith
Move-ErrInv (close_child h) v = v
Move-ErrInv {s} {t} (report elapsed h) v =
    SameErrors-ErrInv (report-SameErrors t.info t.err elapsed s) v
Move-ErrInv {s} {t} (keep_error h q) v = record_failure-ErrInv s t v
Move-ErrInv {s} {t} (store_error h q p) v = record_failure-ErrInv s t v
Move-ErrInv (cancel_error h) v = ground arith
Move-ErrInv (unregister h) v = ground arith
Move-ErrInv (release h) v = ground arith
Move-ErrInv (wg_done h) v = ground arith
Move-ErrInv (deactivate h) v = ground arith

begin-ErrInv : (b : Bool) (s : Scope) {s' : Scope} → begin_task b s ≡ some s' → ErrInv s → ErrInv s'
unfolding begin_task
begin-ErrInv false s e v = cc
begin-ErrInv true s e v = ground arith

pub Step-ErrInv : {m n : System} → Step m n → ErrInv m.scope → ErrInv n.scope
unfolding cancel
Step-ErrInv {m} (spawn_root info nested e) v = begin-ErrInv _ m.scope e v
Step-ErrInv {m} (spawn_child i info nested q e) v = begin-ErrInv _ m.scope e v
Step-ErrInv (move i e mv) v = Move-ErrInv mv v
Step-ErrInv close_root v = ground arith
Step-ErrInv (cancel_scope cause) v = ground arith
Step-ErrInv (end_parent e p q) v = ground arith

pub Reach-ErrInv :
    (c : Config) (parent : GoError) {m : System} → Reach (init c parent) m → ErrInv m.scope
Reach-ErrInv c parent here = new-ErrInv c parent
Reach-ErrInv c parent (next r st) = Step-ErrInv st (Reach-ErrInv c parent r)

-- While the context lives, each kept panic is with a task that has yet to cancel it.
record Recovers (s : Scope) (t : Task) (s' : Scope) (t' : Task) : Type 0 where
  live : is_nil s'.ctx_err ≡ true → is_nil s.ctx_err ≡ true
  panics :
      is_nil s'.ctx_err ≡ true → length s'.panics + recovering t ≤ length s.panics + recovering t'

Move-Recovers :
    {s : Scope} {t : Task} {s' : Scope} {t' : Task} → Move s t s' t' → Recovers s t s' t'
unfolding track untrack emit_started emit_skipped record_failure end_function cancel cancel_first
Move-Recovers (unlimited h q) = ground arith
Move-Recovers (acquire h q) = ground arith
Move-Recovers (give_up h q r) = ground arith
Move-Recovers (register now h) = ground arith
Move-Recovers (skip h q) = ground arith
Move-Recovers (start h q) = ground arith
Move-Recovers (finish (returned e) h) = ground arith
Move-Recovers {s} (finish (panics_with w) h) = ground (arith, length-append s.panics (w ∷ []))
Move-Recovers (cancel_panic h) = ground arith
Move-Recovers (close_child h) = ground arith
Move-Recovers {s} {t} (report elapsed h) = ground (arith, report-SameErrors t.info t.err elapsed s)
Move-Recovers (keep_error h q) = ground arith
Move-Recovers (store_error h q p) = ground arith
Move-Recovers (cancel_error h) = ground arith
Move-Recovers (unregister h) = ground arith
Move-Recovers (release h) = ground arith
Move-Recovers (wg_done h) = ground arith
Move-Recovers (deactivate h) = ground arith

-- What a state reached says of its kept panics and its first error.
pub record Aggregated (m : System) : Type 0 where
  pub errors : ErrInv m.scope
  pub panics : is_nil m.scope.ctx_err ≡ true → length m.scope.panics ≤ total recovering m.tasks
  pub first : is_nil m.scope.ctx_err ≡ true → m.scope.err_once ≡ true → total inside m.tasks ≡ 1

abbrev Covered : System → Type 0
Covered m = is_nil m.scope.ctx_err ≡ true → length m.scope.panics ≤ total recovering m.tasks

begin-Covered :
    (b : Bool) (m : System) {s' : Scope} (t : Task)
    → begin_task b m.scope ≡ some s'
    → Covered m
    → Covered (record { scope = s'; tasks = m.tasks ++ t ∷ [] })
unfolding begin_task
begin-Covered false m t e v l = cc
begin-Covered true m t e v l = ground (arith, v, total-append recovering m.tasks (t ∷ []))

Step-Covered : {m n : System} → Step m n → Covered m → Covered n
unfolding cancel
Step-Covered {m} (spawn_root info nested e) v l = begin-Covered _ m _ e v l
Step-Covered {m} (spawn_child i info nested q e) v l = begin-Covered _ m _ e v l
Step-Covered {m} (move {t} {t'} i e mv) v l =
    let k = Move-Recovers mv in
    omega (arith, v (k.live l), k.panics l, total-set recovering m.tasks i t t' e)
Step-Covered close_root v l = v l
Step-Covered (cancel_scope cause) v l = ground arith
Step-Covered (end_parent e p q) v l = ground arith

Reach-Covered : (c : Config) (parent : GoError) {m : System} → Reach (init c parent) m → Covered m
unfolding new
Reach-Covered c parent here l = omega arith
Reach-Covered c parent (next r st) l = Step-Covered st (Reach-Covered c parent r) l

first-inside :
    (s : Scope) → ErrInv s → is_nil s.ctx_err ≡ true → s.err_once ≡ true → once_busy s ≡ 1
first-inside s v l o = ground (arith, v.cancelled)

pub Reach-Aggregated :
    (c : Config) (parent : GoError) {m : System} → Reach (init c parent) m → Aggregated m
Reach-Aggregated c parent r =
    let v = Reach-ErrInv c parent r in
    let inv = Reach-Inv c parent r in
    record {
      errors = v;
      panics = Reach-Covered c parent r;
      first = λ l o. omega (arith, inv.once, first-inside _ v l o);
    }
