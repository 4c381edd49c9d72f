-- ===== src/Pool/Termination.antt =====
-- pool.go: the steps that the workers of a pool still have before them.
use scoped.Base.{
  ℕ, zero, suc, ◌+◌, ◌*◌, ◌<◌, ◌≤◌, ◌≡◌, refl, ◌∙◌, inl, inr, true, some, List, [], ◌∷◌, arith,
  length, total, total-Weighty, Nat-cases, total-set, get_elem?, set,
}
use scoped.Errors.{GoError, nil}
use scoped.Scope.{returned}
use scoped.Pool.Defs.{Pool, task_err}
use scoped.Pool.System.{
  System, Worker, idle, got, running, failed, erring, ending, completing, exited, after_task, Work,
  receive, leave, begin, finish, count_error, keep_error, leave_flight, complete, Reach, work, init,
}
use scoped.Pool.Counting.{alive}
use scoped.Pool.Invariant.{Inv, Step-Inv, reached-Inv}

-- How many steps a worker has before it at most, with an empty queue.
abbrev pub rank : Worker → ℕ
rank (got task) = 7
rank (running task) = 6
rank (failed e) = 5
rank (erring e) = 4
rank ending = 3
rank completing = 2
rank idle = 1
rank exited = 0

-- How many steps the workers have before them at most.
abbrev pub effort : System → ℕ
effort m = total rank m.workers + 7 * length m.pool.tasks

-- A number of steps of workers alone.
pub data Works : System → ℕ → System → Type 0 where
  rest : {m : System} → Works m 0 m
  step :
      {m n : System} {k : ℕ} {p : Pool} {w w' : Worker} (i : ℕ)
      → get_elem? m.workers i ≡ some w
      → Work m.pool w p w'
      → Works (record m { pool = p; workers = set m.workers i w' }) k n
      → Works m (suc k) n

after_task-rank : (err : GoError) → rank (after_task err) ≤ 5
after_task-rank err = ground arith

pub work_toil :
    {p p' : Pool} {w w' : Worker}
    → Work p w p' w'
    → rank w' + 7 * length p'.tasks < rank w + 7 * length p.tasks
work_toil (receive h) = ground arith
work_toil (leave h q) = ground arith
work_toil begin = ground arith
work_toil (finish o) = omega (arith, after_task-rank (task_err o))
work_toil count_error = ground arith
work_toil keep_error = ground arith
work_toil leave_flight = ground arith
work_toil complete = ground arith

step-effort :
    (m : System) {p : Pool} {w w' : Worker} (i : ℕ)
    → get_elem? m.workers i ≡ some w
    → Work m.pool w p w'
    → effort (record m { pool = p; workers = set m.workers i w' }) < effort m
step-effort m {p} {w} {w'} i e mv = omega (arith, work_toil mv, total-set rank m.workers i w w' e)

-- The workers of a pool take no more steps on their own than seven for each task in the queue, at
-- most seven for each task that one of them holds, and one for each that is to leave.
pub Works-le-effort : {m n : System} {k : ℕ} → Works m k n → k + effort n ≤ effort m
Works-le-effort rest = omega arith
Works-le-effort {m} (step i e mv ws) = omega (arith, step-effort m i e mv, Works-le-effort ws)

-- A step that a worker can take.
record Able (p : Pool) (w : Worker) : Type 0 where
  to_pool : Pool
  to_worker : Worker
  moved : Work p w to_pool to_worker

Able-idle : (p : Pool) (tasks : List ℕ) → p.tasks ≡ tasks → p.tasks_closed ≡ true → Able p idle
Able-idle p [] e h = record { to_pool = _; to_worker = _; moved = leave e h }
Able-idle p (task ∷ tasks) e h = record { to_pool = _; to_worker = _; moved = receive e }

able : (p : Pool) (w : Worker) → p.tasks_closed ≡ true → 0 < alive w → Able p w
able p idle h pos = Able-idle p p.tasks refl h
able p (got task) h pos = record { to_pool = _; to_worker = _; moved = begin }
able p (running task) h pos = record { to_pool = _; to_worker = _; moved = finish (returned nil) }
able p (failed e) h pos = record { to_pool = _; to_worker = _; moved = count_error }
able p (erring e) h pos = record { to_pool = _; to_worker = _; moved = keep_error }
able p ending h pos = record { to_pool = _; to_worker = _; moved = leave_flight }
able p completing h pos = record { to_pool = _; to_worker = _; moved = complete }
able p exited h pos = absurd (omega arith)

-- When the channel is closed and some worker has not left, a worker can take a step.
record Busy (m : System) : Type 0 where
  index : ℕ
  worker : Worker
  at : get_elem? m.workers index ≡ some worker
  able : Able m.pool worker

busy : (m : System) → Inv m → m.pool.tasks_closed ≡ true → 0 < m.pool.wg → Busy m
busy m v h pos =
    let r = total-Weighty alive m.workers (omega (arith, v.wg, pos)) in
    record { index = r.index; worker = r.item; at = r.at; able = able m.pool r.item h r.heavy }

record Ending (m : System) : Type 0 where
  final : System
  count : ℕ
  works : Works m count final
  over : final.pool.wg ≡ 0

work-tasks_closed :
    {p p' : Pool} {w w' : Worker} → Work p w p' w' → p'.tasks_closed ≡ p.tasks_closed
work-tasks_closed (receive h) = refl
work-tasks_closed (leave h q) = refl
work-tasks_closed begin = refl
work-tasks_closed (finish o) = refl
work-tasks_closed count_error = refl
work-tasks_closed keep_error = refl
work-tasks_closed leave_flight = refl
work-tasks_closed complete = refl

finish_work :
    (bound : ℕ) (m : System) → Inv m → m.pool.tasks_closed ≡ true → effort m ≤ bound → Ending m
finish_work zero m v h le = elim (Nat-cases m.pool.wg) [
  | inl over ↦ record { final = m; count = 0; works = rest; over = over }
  | inr pos ↦
      let b = busy m v h pos in absurd (omega (arith, le, step-effort m b.index b.at b.able.moved))
]
finish_work (suc bound) m v h le = elim (Nat-cases m.pool.wg) [
  | inl over ↦ record { final = m; count = 0; works = rest; over = over }
  | inr pos ↦
      let b = busy m v h pos in
      let a = b.able in
      let r =
        finish_work bound
          (record m { pool = a.to_pool; workers = set m.workers b.index a.to_worker })
          (Step-Inv (work b.index b.at a.moved) v) (work-tasks_closed a.moved ∙ h)
          (omega (arith, le, step-effort m b.index b.at a.moved)) in
      record {
        final = r.final;
        count = suc r.count;
        works = step b.index b.at a.moved r.works;
        over = r.over;
      }
]

-- From every state that a new pool reaches in which the channel is closed, some steps of its workers
-- alone, no more than `effort` gives, bring the wait group to 0, which is what `Close` waits for.
-- Among the steps are those in which a running task returns.
pub close_can_end :
    (n size : ℕ) (parent : GoError) (m : System)
    → Reach (init n size parent) m
    → m.pool.tasks_closed ≡ true
    → (k : ℕ) × (final : System) × Works m k final × (final.pool.wg ≡ 0) × (k ≤ effort m)
close_can_end n size parent m r h =
    let e = finish_work (effort m) m (reached-Inv n size parent r) h (omega arith) in
    (e.count, e.final, e.works, e.over, omega (arith, Works-le-effort e.works))
