-- ===== src/Result/Defs.antt =====
-- result.go: `Result`, its `resolve`, the task that `SpawnResult` spawns, and `Wait`.
use scoped.Base.{Bool, true, false, if◌then◌else◌, Option, none, some}
use scoped.Errors.{GoError, nil, PanicValue, panic_error}
use scoped.Scope.{Outcome, returned, panics_with}

-- `done` is whether the channel of that name is closed.
pub record Result {ℓ} (T : Type ℓ) : Type ℓ where
  pub done : Bool
  pub once : Bool
  pub val : T
  pub err : GoError

-- How the function given to `SpawnResult` ends.
pub data Ending {ℓ} (T : Type ℓ) : Type ℓ where
  gives : T → GoError → Ending T
  panics : PanicValue → Ending T

-- What becomes of the spawned task: the scope runs it, or it does not, since its context was done
-- before the task had its slot or before it began.
pub data Course {ℓ} (T : Type ℓ) : Type ℓ where
  ran : Ending T → Course T
  never_ran : Course T

module _ {ℓ} {T : Type ℓ} where
  unfoldable pub resolve : T → GoError → Result T → Result T
  resolve v e r = if r.once then r else record { done = true; once = true; val = v; err = e }

  abbrev pub new_result : T → Result T
  new_result zero_val = record { done = false; once = false; val = zero_val; err = nil }

  -- The task's function: it resolves the result in its deferred function, and panics again with the
  -- same value. Its `*PanicError` and the one that `exec` then makes are two, with a stack each;
  -- a `panic_error` here is the value of the panic alone.
  unfoldable pub result_task : T → Ending T → Result T → Result T × Outcome
  unfolding resolve
  result_task zero_val (gives v e) r = (resolve v e r, returned e)
  result_task zero_val (panics p) r = (resolve zero_val (panic_error p) r, panics_with p)

  -- `SpawnResult`, with the result once the task has had its course.
  unfoldable pub spawn_result : T → Course T → Result T
  unfolding result_task
  spawn_result zero_val (ran ending) = (result_task zero_val ending (new_result zero_val)).0
  spawn_result zero_val never_ran = new_result zero_val

  -- `Wait`, with `none` where it blocks.
  unfoldable pub wait : Result T → Option (T × GoError)
  wait r = if r.done then some (r.val, r.err) else none
