-- ===== src/Pool/Counting.antt =====
-- pool.go: what a step does to the counters of a pool, by the change of a worker's or a call's
-- weight.
use scoped.Base.{
  ℕ, ◌+◌, ◌<◌, ◌≤◌, ◌≡◌, true, [], ◌∷◌, ◌++◌, arith, length, length-append, append_assoc,
}
use scoped.Errors.{GoError}
use scoped.Pool.Defs.{Pool, task_err}
use scoped.Pool.System.{
  Worker, idle, running, failed, erring, ending, exited, ClientPc, counting, Client, after_task,
  Work, receive, leave, begin, finish, count_error, keep_error, leave_flight, complete, Call,
  refuse, pass, send, recover, give_up, would_block, count,
}

-- Weights of a worker: whether it has a task whose completion is still to be counted, whether that
-- task counts as in flight, whether its error was counted and not kept yet, whether its `wg.Done` is
-- still to come, and whether it is not.
abbrev pub busy : Worker → ℕ
busy idle = 0
busy exited = 0
busy _ = 1

abbrev pub flying : Worker → ℕ
flying (running task) = 1
flying (failed e) = 1
flying (erring e) = 1
flying ending = 1
flying _ = 0

abbrev pub failing : Worker → ℕ
failing (erring e) = 1
failing _ = 0

abbrev pub alive : Worker → ℕ
alive exited = 0
alive _ = 1

abbrev pub gone : Worker → ℕ
gone exited = 1
gone _ = 0

abbrev counting_at : ClientPc → ℕ
counting_at counting = 1
counting_at _ = 0

-- Whether a call sent its task and has not counted it yet.
abbrev pub uncounted : Client → ℕ
uncounted c = counting_at c.pc

-- The fields of a pool that only calls change.
pub record SameCalls (p p' : Pool) : Type 0 where
  pub sent : p'.sent ≡ p.sent
  pub submitted : p'.submitted ≡ p.submitted
  pub closed : p'.closed ≡ p.closed
  pub tasks_closed : p'.tasks_closed ≡ p.tasks_closed
  pub capacity : p'.capacity ≡ p.capacity
  pub workers : p'.workers ≡ p.workers

pub record Worked (p : Pool) (w : Worker) (p' : Pool) (w' : Worker) : Type 0 where
  pub same : SameCalls p p'
  pub fifo : p.taken ++ p.tasks ≡ p'.taken ++ p'.tasks
  pub done : length p'.taken + p.completed + busy w ≡ length p.taken + p'.completed + busy w'
  pub flight : p'.in_flight + flying w ≡ p.in_flight + flying w'
  pub errs : p'.errored + length p.errs + failing w ≡ p.errored + length p'.errs + failing w'
  pub wg : p'.wg + alive w ≡ p.wg + alive w'
  pub room : length p'.tasks ≤ length p.tasks
  pub left : 0 < gone w' → (p.tasks_closed ≡ true) × (p.tasks ≡ [])
  pub awake : alive w ≡ 1

after_task-weights :
    (err : GoError)
    → (busy (after_task err) ≡ 1)
      × (flying (after_task err) ≡ 1)
      × (failing (after_task err) ≡ 0)
      × (alive (after_task err) ≡ 1)
      × (gone (after_task err) ≡ 0)
after_task-weights err = ground arith

pub Work-Worked :
    {p : Pool} {w : Worker} {p' : Pool} {w' : Worker}
    → Work p w p' w'
    → flying w ≤ p.in_flight
    → alive w ≤ p.wg
    → Worked p w p' w'
Work-Worked {p} (receive {task} {rest} h) f a =
    ground (arith, length-append p.taken (task ∷ []), append_assoc p.taken (task ∷ []) rest)
Work-Worked (leave h q) f a = ground arith
Work-Worked begin f a = ground arith
Work-Worked (finish o) f a = ground (arith, after_task-weights (task_err o))
Work-Worked count_error f a = ground arith
Work-Worked {p} (keep_error {e}) f a = ground (arith, length-append p.errs (e ∷ []))
Work-Worked leave_flight f a = ground arith
Work-Worked complete f a = ground arith

-- The fields of a pool that only workers and calls of `Close` change.
pub record SameWork (p p' : Pool) : Type 0 where
  pub completed : p'.completed ≡ p.completed
  pub taken : p'.taken ≡ p.taken
  pub in_flight : p'.in_flight ≡ p.in_flight
  pub errored : p'.errored ≡ p.errored
  pub errs : p'.errs ≡ p.errs
  pub wg : p'.wg ≡ p.wg
  pub closed : p'.closed ≡ p.closed
  pub tasks_closed : p'.tasks_closed ≡ p.tasks_closed
  pub capacity : p'.capacity ≡ p.capacity
  pub workers : p'.workers ≡ p.workers

pub record Called (p : Pool) (c : Client) (p' : Pool) (c' : Client) : Type 0 where
  pub same : SameWork p p'
  pub fifo : p.sent ≡ p.taken ++ p.tasks → p'.sent ≡ p'.taken ++ p'.tasks
  pub counted :
      length p'.sent + p.submitted + uncounted c ≡ length p.sent + p'.submitted + uncounted c'
  pub room : length p.tasks ≤ p.capacity → length p'.tasks ≤ p'.capacity
  pub shut : p.tasks_closed ≡ true → p.tasks ≡ p'.tasks

pub Call-Called :
    {p : Pool} {c : Client} {p' : Pool} {c' : Client} → Call p c p' c' → Called p c p' c'
Call-Called (refuse h q) = ground arith
Call-Called (pass h q) = ground arith
Call-Called {p} {c} (send h q lt) = ground (
  arith,
  length-append p.sent (c.task ∷ []),
  length-append p.tasks (c.task ∷ []),
  append_assoc p.taken p.tasks (c.task ∷ []),
)
Call-Called (recover h q) = ground arith
Call-Called (give_up h q r) = ground arith
Call-Called (would_block h q r s) = ground arith
Call-Called (count h) = ground arith
