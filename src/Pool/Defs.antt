-- ===== src/Pool/Defs.antt =====
-- pool.go: the state of a pool, its options and its counters.
--
-- A task is known by a number; how its function ends is decided when it is run. Counters are
-- unbounded numbers.
use scoped.Base.{
  ℕ, zero, suc, ◌*◌, Bool, true, false, ◌&&◌, if◌then◌else◌, ltb, Option, none, some, List, [], ◌∷◌,
  length,
}
use scoped.Errors.{GoError, panic_error}
use scoped.Scope.{Outcome, returned, panics_with}

pub record PoolConfig : Type 0 where
  pub queue_size : ℕ
  pub on_metrics : Bool
  pub metrics_interval : ℕ

-- `WithQueueSize` and `WithPoolMetrics`, the hook given as whether it is non-nil.
pub data PoolOption : Type 0 where
  with_queue_size : ℕ → PoolOption
  with_pool_metrics : ℕ → Bool → PoolOption

-- The option applied, with `none` for its panic.
unfoldable pub apply_pool_option : PoolOption → PoolConfig → Option PoolConfig
apply_pool_option (with_queue_size size) c = some (record c { queue_size = size })
apply_pool_option (with_pool_metrics interval hook) c =
    if ltb 0 interval && hook
    then some (record c { on_metrics = true; metrics_interval = interval })
    else none

unfoldable pub apply_pool_options : List PoolOption → PoolConfig → Option PoolConfig
unfolding apply_pool_option
apply_pool_options [] c = some c
apply_pool_options (o ∷ os) c = elim (apply_pool_option o c) [
  | none ↦ none
  | some c' ↦ apply_pool_options os c'
]

-- `tasks` is the channel's buffer, the oldest first, `capacity` its size and `tasks_closed` whether
-- it was closed. `sent` and `taken` are no fields of the program: they keep the tasks that were sent
-- to the channel and received from it, in order. No step reads them.
pub record Pool : Type 0 where
  pub tasks : List ℕ
  pub capacity : ℕ
  pub tasks_closed : Bool
  pub wg : ℕ
  pub ctx_err : GoError
  pub closed : Bool
  pub errs : List GoError
  pub submitted : ℕ
  pub completed : ℕ
  pub errored : ℕ
  pub in_flight : ℕ
  pub workers : ℕ
  pub sent : List ℕ
  pub taken : List ℕ

abbrev pub fresh_pool : ℕ → ℕ → GoError → Pool
fresh_pool n size parent = record {
  tasks = [];
  capacity = size;
  tasks_closed = false;
  wg = n;
  ctx_err = parent;
  closed = false;
  errs = [];
  submitted = 0;
  completed = 0;
  errored = 0;
  in_flight = 0;
  workers = n;
  sent = [];
  taken = [];
}

unfoldable pub from_config : ℕ → GoError → Option PoolConfig → Option Pool
from_config n parent none = none
from_config n parent (some c) = some (fresh_pool n c.queue_size parent)

-- `NewPool`, with `none` for a panic, and with the error that the parent context has by then.
unfoldable pub new_pool : ℕ → List PoolOption → GoError → Option Pool
unfolding from_config apply_pool_options
new_pool zero opts parent = none
new_pool (suc n) opts parent = from_config (suc n) parent (
    apply_pool_options opts
      (record { queue_size = suc n * 2; on_metrics = false; metrics_interval = 0 }))

pub record PoolStats : Type 0 where
  pub submitted : ℕ
  pub completed : ℕ
  pub errored : ℕ
  pub in_flight : ℕ
  pub queue_depth : ℕ
  pub workers : ℕ

unfoldable pub stats : Pool → PoolStats
stats p = record {
  submitted = p.submitted;
  completed = p.completed;
  errored = p.errored;
  in_flight = p.in_flight;
  queue_depth = length p.tasks;
  workers = p.workers;
}

-- The error of a task in `runTask`: a panic becomes a `*PanicError`.
unfoldable pub task_err : Outcome → GoError
task_err (returned e) = e
task_err (panics_with v) = panic_error v
