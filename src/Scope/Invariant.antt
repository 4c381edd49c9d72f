-- ===== src/Scope/Invariant.antt =====
-- scope.go: the counters of a scope against its tasks.
use scoped.Base.{
  ℕ, ◌<◌, ◌≤◌, ◌≡◌, sym, ap, ◌∙◌, Bool, true, false, some, [], ◌∷◌, ◌++◌, arith, length, total,
  total-append, total-set, le-total, length-append, length-set, get_elem?, set, All, All-append,
  All-get, All-set,
}
use scoped.Errors.{TaskInfo, GoError}
use scoped.Scope.Config.{Config, collect}
use scoped.Scope.Defs.{Scope, new, cancel, begin_task}
use scoped.Scope.Tasks.{Task, launch}
use scoped.Scope.System.{
  System, Step, Reach, init, spawn_root, spawn_child, move, close_root, cancel_scope, end_parent,
  here, next,
}
use scoped.Scope.Counting.{
  unwaited, unfinished, holds, counted, failed, inside, once_busy, outcomes, recorded, IsOrdered,
  Balanced, Funded, Move-Balanced,
}

pub record Inv (m : System) : Type 0 where
  pub wg : m.scope.wg ≡ total unwaited m.tasks
  pub active : m.scope.active_tasks ≡ total unfinished m.tasks
  pub spawned : m.scope.total_spawned ≡ length m.tasks
  pub slots : 0 < m.scope.limit → m.scope.sem ≡ total holds m.tasks
  pub room : 0 < m.scope.limit → m.scope.sem ≤ m.scope.limit
  pub outcome : outcomes m.scope ≡ total counted m.tasks
  pub failure : m.scope.policy ≡ collect → recorded m.scope ≡ total failed m.tasks
  pub once : once_busy m.scope ≡ total inside m.tasks
  pub over : m.scope.once_over ≡ true → m.scope.err_once ≡ true
  pub ordered : All IsOrdered m.tasks

init-Inv : (c : Config) (parent : GoError) → Inv (init c parent)
unfolding new
init-Inv c parent = ground arith

launch-IsOrdered : (info : TaskInfo) (nested : Bool) → IsOrdered (launch info nested)
launch-IsOrdered info nested = ground arith

spawn-Inv :
    (m : System) (b : Bool) (s : Scope) (info : TaskInfo) (nested : Bool)
    → begin_task b m.scope ≡ some s
    → Inv m
    → Inv (record { scope = s; tasks = m.tasks ++ launch info nested ∷ [] })
unfolding begin_task
spawn-Inv m false s info nested e v = cc
spawn-Inv m true s info nested e v = record {
  wg = ground (arith, total-append unwaited m.tasks (launch info nested ∷ []), v.wg);
  active = ground (arith, total-append unfinished m.tasks (launch info nested ∷ []), v.active);
  spawned = ground (arith, length-append m.tasks (launch info nested ∷ []), v.spawned);
  slots = ground (arith, total-append holds m.tasks (launch info nested ∷ []), v.slots);
  room = ground (arith, v.room);
  outcome = ground (arith, total-append counted m.tasks (launch info nested ∷ []), v.outcome);
  failure = ground (arith, total-append failed m.tasks (launch info nested ∷ []), v.failure);
  once = ground (arith, total-append inside m.tasks (launch info nested ∷ []), v.once);
  over = ground (arith, v.over);
  ordered =
      All-append IsOrdered m.tasks (launch info nested) v.ordered (launch-IsOrdered info nested);
}

module _ (m : System) (v : Inv m) (i : ℕ) {t : Task} (e : get_elem? m.tasks i ≡ some t) where
  funded : Funded m.scope t
  funded = record {
    wg = omega (arith, v.wg, le-total unwaited m.tasks i t e);
    active = omega (arith, v.active, le-total unfinished m.tasks i t e);
    slots = λ l. omega (arith, v.slots l, le-total holds m.tasks i t e);
    once = omega (arith, v.once, le-total inside m.tasks i t e);
    over = v.over;
    ordered = All-get IsOrdered m.tasks i e v.ordered;
  }

  Balanced-Inv :
      {s : Scope} {t' : Task}
      → Balanced m.scope t s t'
      → Inv (record { scope = s; tasks = set m.tasks i t' })
  Balanced-Inv {s} {t'} b =
      let same_limit : s.limit ≡ m.scope.limit = ap (λ c. c.limit) b.config in
      let same_policy : s.policy ≡ m.scope.policy = ap (λ c. c.policy) b.config in
      record {
        wg = omega (arith, v.wg, b.wg, total-set unwaited m.tasks i t t' e);
        active = omega (arith, v.active, b.active, total-set unfinished m.tasks i t t' e);
        spawned = omega (arith, v.spawned, b.total_spawned, length-set m.tasks i t');
        slots = λ l.
            omega (
              arith,
              v.slots (omega arith),
              b.slots (omega arith),
              total-set holds m.tasks i t t' e,
            );
        room = λ l. omega (arith, b.room (omega arith) (v.room (omega arith)));
        outcome = omega (arith, v.outcome, b.outcome, total-set counted m.tasks i t t' e);
        failure = λ q.
            let q' : m.scope.policy ≡ collect = sym same_policy ∙ q in
            omega (arith, v.failure q', b.failure q', total-set failed m.tasks i t t' e);
        once = omega (arith, v.once, b.once, total-set inside m.tasks i t t' e);
        over = b.over;
        ordered = All-set IsOrdered m.tasks i t' v.ordered b.ordered;
      }

-- Every step keeps the invariant.
pub Step-Inv : {m n : System} → Step m n → Inv m → Inv n
unfolding cancel
Step-Inv {m} (spawn_root {s} info nested e) v = spawn-Inv m m.scope.root_open s info nested e v
Step-Inv {m} (spawn_child {s} {parent} i info nested q e) v =
    spawn-Inv m parent.child_open s info nested e v
Step-Inv {m} (move i e mv) v = Balanced-Inv m v i e (Move-Balanced mv (funded m v i e))
Step-Inv close_root v = ground arith
Step-Inv (cancel_scope cause) v = ground arith
Step-Inv (end_parent e p q) v = ground arith

-- In every state that a new scope reaches, by any steps in any order: `wg`, `activeTasks` and
-- `totalSpawned` count the tasks before their `wg.Done`, those not finished, and all of them. With a
-- limit the semaphore counts the tasks that hold a slot, at most as many as the limit. The outcome
-- counters together count the completed calls of `exec`, under Collect the stored and dropped errors
-- count the failed tasks, at most one task is inside `errOnce.Do`, and each task is in order.
pub Reach-Inv : (c : Config) (parent : GoError) {m : System} → Reach (init c parent) m → Inv m
Reach-Inv c parent here = init-Inv c parent
Reach-Inv c parent (next r st) = Step-Inv st (Reach-Inv c parent r)
