-- ===== src/Pool/System.antt =====
-- pool.go: the workers of a pool, the calls of `Submit` and `TrySubmit`, and the calls of `Close`, an
-- access to shared state at a time, in any order.
use scoped.Base.{
  ℕ, suc, ◌-◌, ◌<◌, ◌≤◌, ◌≡◌, Bool, true, false, some, List, [], ◌∷◌, ◌++◌, length, get_elem?, set,
  replicate, if◌then◌else◌,
}
use scoped.Errors.{GoError, canceled, is_nil, join}
use scoped.Scope.{Outcome}
use scoped.Pool.Defs.{Pool, fresh_pool, task_err}

-- Where a worker stands; each name says what was done last.
pub data Worker : Type 0 where
  idle : Worker  -- at `range p.tasks`
  got : ℕ → Worker  -- a task was received
  running : ℕ → Worker  -- `inFlight.Add(1)` returned
  failed : GoError → Worker  -- the task ended with an error
  erring : GoError → Worker  -- `errored.Add(1)` returned
  ending : Worker  -- the deferred function of `runTask` is next
  completing : Worker  -- `inFlight.Add(-1)` returned
  exited : Worker  -- `wg.Done` returned

-- What a call of `Submit` returns: nil, `ErrPoolClosed` or the context's error. `TrySubmit` returns
-- whether the task was accepted, and may find the channel full.
pub data Answer : Type 0 where
  accepted pool_closed full : Answer
  cancelled : GoError → Answer

pub data ClientPc : Type 0 where
  checking sending counting : ClientPc
  answered : Answer → ClientPc

pub record Client : Type 0 where
  pub trying : Bool
  pub task : ℕ
  pub pc : ClientPc

-- A call of `Close`: before the compare-and-swap, after it succeeded, before `wg.Wait` returned,
-- before `p.cancel()`, before the errors are joined, and after.
pub data Closer : Type 0 where
  closing won waiting cancelling joining : Closer
  returned : GoError → Closer

pub record System : Type 0 where
  pub pool : Pool
  pub workers : List Worker
  pub clients : List Client
  pub closers : List Closer

abbrev pub init : ℕ → ℕ → GoError → System
init n size parent = record {
  pool = fresh_pool n size parent;
  workers = replicate n idle;
  clients = [];
  closers = [];
}

-- `if err != nil`
abbrev pub after_task : GoError → Worker
after_task err = if is_nil err then ending else failed err

-- One step of one worker.
pub data Work (p : Pool) : Worker → Pool → Worker → Type 0 where
  receive :
      {task : ℕ} {rest : List ℕ}
      → p.tasks ≡ task ∷ rest
      → Work p idle (record p { tasks = rest; taken = p.taken ++ task ∷ [] }) (got task)
  leave : p.tasks ≡ [] → p.tasks_closed ≡ true → Work p idle (record p { wg = p.wg - 1 }) exited
  begin : {task : ℕ} → Work p (got task) (record p { in_flight = suc p.in_flight }) (running task)
  finish : {task : ℕ} (o : Outcome) → Work p (running task) p (after_task (task_err o))
  count_error : {e : GoError} → Work p (failed e) (record p { errored = suc p.errored }) (erring e)
  keep_error : {e : GoError} → Work p (erring e) (record p { errs = p.errs ++ e ∷ [] }) ending
  leave_flight : Work p ending (record p { in_flight = p.in_flight - 1 }) completing
  complete : Work p completing (record p { completed = suc p.completed }) idle

-- One step of a call of `Submit` or `TrySubmit`, except for the rendezvous with a worker.
pub data Call (p : Pool) (c : Client) : Pool → Client → Type 0 where
  refuse : c.pc ≡ checking → p.closed ≡ true → Call p c p (record c { pc = answered pool_closed })
  pass : c.pc ≡ checking → p.closed ≡ false → Call p c p (record c { pc = sending })
  send :
      c.pc ≡ sending
      → p.tasks_closed ≡ false
      → length p.tasks < p.capacity
      → Call p c
          (record p { tasks = p.tasks ++ c.task ∷ []; sent = p.sent ++ c.task ∷ [] })
          (record c { pc = counting })
  -- The send on the closed channel panics, and the deferred function recovers.
  recover :
      c.pc ≡ sending → p.tasks_closed ≡ true → Call p c p (record c { pc = answered pool_closed })
  give_up :
      c.pc ≡ sending
      → c.trying ≡ false
      → is_nil p.ctx_err ≡ false
      → Call p c p (record c { pc = answered (cancelled p.ctx_err) })
  would_block :
      c.pc ≡ sending
      → c.trying ≡ true
      → p.tasks_closed ≡ false
      → p.capacity ≤ length p.tasks
      → Call p c p (record c { pc = answered full })
  count :
      c.pc ≡ counting
      → Call p c (record p { submitted = suc p.submitted }) (record c { pc = answered accepted })

-- `p.cancel()`
abbrev pub cancel : Pool → Pool
cancel p = record p { ctx_err = if is_nil p.ctx_err then canceled else p.ctx_err }

-- One step of a call of `Close`.
pub data Shut (p : Pool) : Closer → Pool → Closer → Type 0 where
  win : p.closed ≡ false → Shut p closing (record p { closed = true }) won
  lose : p.closed ≡ true → Shut p closing p waiting
  close_tasks : Shut p won (record p { tasks_closed = true }) waiting
  waited : p.wg ≡ 0 → Shut p waiting p cancelling
  cancel_ctx : Shut p cancelling (cancel p) joining
  join_errs : Shut p joining p (returned (join p.errs))

pub data Step (m : System) : System → Type 0 where
  work :
      {p : Pool} {w w' : Worker} (i : ℕ)
      → get_elem? m.workers i ≡ some w
      → Work m.pool w p w'
      → Step m (record m { pool = p; workers = set m.workers i w' })
  call :
      (trying : Bool) (task : ℕ)
      → Step m (record m {
        clients = m.clients ++ record { trying = trying; task = task; pc = checking } ∷ [];
      })
  client :
      {p : Pool} {c c' : Client} (i : ℕ)
      → get_elem? m.clients i ≡ some c
      → Call m.pool c p c'
      → Step m (record m { pool = p; clients = set m.clients i c' })
  -- A send meets a worker that waits, with nothing in the buffer.
  hand_over :
      {c : Client} (i j : ℕ)
      → get_elem? m.clients i ≡ some c
      → get_elem? m.workers j ≡ some idle
      → c.pc ≡ sending
      → m.pool.tasks_closed ≡ false
      → m.pool.tasks ≡ []
      → Step m (record {
        pool = record m.pool {
          sent = m.pool.sent ++ c.task ∷ [];
          taken = m.pool.taken ++ c.task ∷ [];
        };
        workers = set m.workers j (got c.task);
        clients = set m.clients i (record c { pc = counting });
        closers = m.closers;
      })
  close : Step m (record m { closers = m.closers ++ closing ∷ [] })
  shut :
      {p : Pool} {c c' : Closer} (i : ℕ)
      → get_elem? m.closers i ≡ some c
      → Shut m.pool c p c'
      → Step m (record m { pool = p; closers = set m.closers i c' })
  end_parent :
      (e : GoError)
      → is_nil m.pool.ctx_err ≡ true
      → is_nil e ≡ false
      → Step m (record m { pool = record m.pool { ctx_err = e } })

pub data Reach (m : System) : System → Type 0 where
  here : Reach m m
  next : {n k : System} → Reach m n → Step n k → Reach m k
