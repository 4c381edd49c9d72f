-- ===== src/Scope/Safety.antt =====
-- scope.go and spawner.go: the tasks that are executing, and scopes that have ended.
use scoped.Base.{
  ℕ, ◌<◌, ◌≤◌, ◌≡◌, refl, ◌∙◌, Bool, true, false, some, List, arith, length, total, total-le,
  le-total, length-set, get_elem?, All-get,
}
use scoped.Errors.{GoError}
use scoped.Scope.Config.{Config}
use scoped.Scope.Defs.{Scope, cancel, begin_task}
use scoped.Scope.Tasks.{
  Pc, Task, Move, running, unlimited, acquire, give_up, register, skip, start, finish, close_child,
  report, keep_error, cancel_panic, store_error, cancel_error, unregister, release, wg_done,
  deactivate,
}
use scoped.Scope.System.{
  System, Step, Reach, init, spawn_root, spawn_child, move, close_root, cancel_scope, end_parent,
  here, next,
}
use scoped.Scope.Counting.{unwaited, holds, outcomes, IsOrdered}
use scoped.Scope.Invariant.{Inv, Step-Inv, Reach-Inv}

abbrev executing_at : Pc → ℕ
executing_at running = 1
executing_at _ = 0

-- Whether the task's function is being executed.
abbrev pub executing : Task → ℕ
executing t = executing_at t.pc

executing-le-holds : (t : Task) → executing t ≤ holds t
executing-le-holds t = ground arith

executing-le-unwaited : (t : Task) → executing t ≤ unwaited t
executing-le-unwaited t = ground arith

-- With a limit, at most that many task functions are executed at any time.
pub executing-le-limit :
    (c : Config) (parent : GoError) (m : System)
    → Reach (init c parent) m
    → 0 < m.scope.limit
    → total executing m.tasks ≤ m.scope.limit
executing-le-limit c parent m r pos =
    let v = Reach-Inv c parent r in
    omega (arith, v.slots pos, v.room pos, total-le executing holds executing-le-holds m.tasks)

-- What stays as it is once a scope has ended.
pub record Settled (m n : System) : Type 0 where
  pub tasks : length n.tasks ≡ length m.tasks
  pub wg : n.scope.wg ≡ 0
  pub root_open : n.scope.root_open ≡ false
  pub config : n.scope.config ≡ m.scope.config
  pub first_err : n.scope.first_err ≡ m.scope.first_err
  pub errs : n.scope.errs ≡ m.scope.errs
  pub dropped_errors : n.scope.dropped_errors ≡ m.scope.dropped_errors
  pub panics : n.scope.panics ≡ m.scope.panics
  pub running_tasks : n.scope.running_tasks ≡ m.scope.running_tasks
  pub sem : n.scope.sem ≡ m.scope.sem
  pub total_spawned : n.scope.total_spawned ≡ m.scope.total_spawned
  pub outcome : outcomes n.scope ≡ outcomes m.scope

record Frozen (s s' : Scope) : Type 0 where
  wg : s'.wg ≡ s.wg
  root_open : s'.root_open ≡ s.root_open
  config : s'.config ≡ s.config
  first_err : s'.first_err ≡ s.first_err
  errs : s'.errs ≡ s.errs
  dropped_errors : s'.dropped_errors ≡ s.dropped_errors
  panics : s'.panics ≡ s.panics
  running_tasks : s'.running_tasks ≡ s.running_tasks
  sem : s'.sem ≡ s.sem
  total_spawned : s'.total_spawned ≡ s.total_spawned
  outcome : outcomes s' ≡ outcomes s

-- A task behind its `wg.Done` changes only the number of active tasks.
Move-Frozen :
    {s : Scope} {t : Task} {s' : Scope} {t' : Task} → Move s t s' t' → unwaited t ≡ 0 → Frozen s s'
Move-Frozen (unlimited h q) w = ground arith
Move-Frozen (acquire h q) w = ground arith
Move-Frozen (give_up h q r) w = ground arith
Move-Frozen (register now h) w = ground arith
Move-Frozen (skip h q) w = ground arith
Move-Frozen (start h q) w = ground arith
Move-Frozen (finish o h) w = ground arith
Move-Frozen (cancel_panic h) w = ground arith
Move-Frozen (close_child h) w = ground arith
Move-Frozen (report elapsed h) w = ground arith
Move-Frozen (keep_error h q) w = ground arith
Move-Frozen (store_error h q p) w = ground arith
Move-Frozen (cancel_error h) w = ground arith
Move-Frozen (unregister h) w = ground arith
Move-Frozen (release h) w = ground arith
Move-Frozen (wg_done h) w = ground arith
Move-Frozen (deactivate h) w = ground arith

-- No child spawner is open behind its task's `wg.Done`.
child-closed : (t : Task) → IsOrdered t → unwaited t ≡ 0 → t.child_open ≡ false
child-closed t o w = ground arith

cancel-Frozen : (cause : GoError) (s : Scope) → Frozen s (cancel cause s)
unfolding cancel
cancel-Frozen cause s = ground arith

closed-begin : (b : Bool) (s : Scope) {s' : Scope} → b ≡ false → begin_task b s ≡ some s' → ⊥
unfolding begin_task
closed-begin true s h e = cc
closed-begin false s h e = cc

module _ {m : System} (v : Inv m) (closed : m.scope.root_open ≡ false) (over : m.scope.wg ≡ 0) where
  all_waited : (i : ℕ) {t : Task} → get_elem? m.tasks i ≡ some t → unwaited t ≡ 0
  all_waited i {t} e = omega (arith, v.wg, over, le-total unwaited m.tasks i t e)

  Frozen-Settled :
      {s : Scope} (ts : List Task)
      → length ts ≡ length m.tasks
      → Frozen m.scope s
      → Settled m (record { scope = s; tasks = ts })
  Frozen-Settled ts q f = record {
    tasks = q;
    wg = f.wg ∙ over;
    root_open = f.root_open ∙ closed;
    config = f.config;
    first_err = f.first_err;
    errs = f.errs;
    dropped_errors = f.dropped_errors;
    panics = f.panics;
    running_tasks = f.running_tasks;
    sem = f.sem;
    total_spawned = f.total_spawned;
    outcome = f.outcome;
  }

  Step-Settled : {n : System} → Step m n → Settled m n
  Step-Settled (spawn_root info nested e) = absurd (closed-begin _ m.scope closed e)
  Step-Settled (spawn_child {parent = parent} i info nested e b) = absurd (
      closed-begin _ m.scope
        (child-closed parent (All-get IsOrdered m.tasks i e v.ordered) (all_waited i e)) b)
  Step-Settled (move i e mv) =
      Frozen-Settled _ (length-set m.tasks i _) (Move-Frozen mv (all_waited i e))
  Step-Settled close_root = ground arith
  Step-Settled (cancel_scope cause) = Frozen-Settled m.tasks refl (cancel-Frozen cause m.scope)
  Step-Settled (end_parent e p q) = ground arith

Settled-trans : {m n k : System} → Settled m n → Settled n k → Settled m k
Settled-trans a b = record {
  tasks = b.tasks ∙ a.tasks;
  wg = b.wg;
  root_open = b.root_open;
  config = b.config ∙ a.config;
  first_err = b.first_err ∙ a.first_err;
  errs = b.errs ∙ a.errs;
  dropped_errors = b.dropped_errors ∙ a.dropped_errors;
  panics = b.panics ∙ a.panics;
  running_tasks = b.running_tasks ∙ a.running_tasks;
  sem = b.sem ∙ a.sem;
  total_spawned = b.total_spawned ∙ a.total_spawned;
  outcome = b.outcome ∙ a.outcome;
}

Reach-within : {m n : System} → Inv m → Reach m n → Inv n
Reach-within v here = v
Reach-within v (next r st) = Step-Inv st (Reach-within v r)

settled :
    {m n : System} → Inv m → m.scope.root_open ≡ false → m.scope.wg ≡ 0 → Reach m n → Settled m n
settled v closed over here = record {
  tasks = refl;
  wg = over;
  root_open = closed;
  config = refl;
  first_err = refl;
  errs = refl;
  dropped_errors = refl;
  panics = refl;
  running_tasks = refl;
  sem = refl;
  total_spawned = refl;
  outcome = refl;
}
settled v closed over (next r st) =
    let a = settled v closed over r in
    Settled-trans a (Step-Settled (Reach-within v r) a.root_open a.wg st)

-- Once the root spawner is closed and the wait group is at 0, whatever happens next: no task is
-- spawned and none executes its function, the wait group stays at 0, and what `finalize` reads of
-- the tasks (the first error, the stored and dropped errors, the panics) stays as it is, as do the
-- slots, the tracked tasks and the outcome counters.
pub structured_concurrency :
    (c : Config) (parent : GoError) (m n : System)
    → Reach (init c parent) m
    → m.scope.root_open ≡ false
    → m.scope.wg ≡ 0
    → Reach m n
    → Settled m n × (total executing n.tasks ≡ 0)
structured_concurrency c parent m n r closed over later =
    let v = Reach-Inv c parent r in
    let a = settled v closed over later in
    (
      a,
      omega (
        arith,
        a.wg,
        (Reach-within v later).wg,
        total-le executing unwaited executing-le-unwaited n.tasks,
      ),
    )
