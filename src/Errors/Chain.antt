-- ===== src/Errors/Chain.antt =====
-- task_error.go. An error found by `errors.As` is returned with its fields.
use scoped.Base.{Bool, true, false, ◌||◌, Option, none, some, List, [], ◌∷◌, ◌++◌}
use scoped.Errors.Values.{
  TaskInfo, GoError, GoErrors, PanicValue, nil, eof, canceled, deadline_exceeded, plain, wrapped,
  panic_error, task_error, joined, value, error, no_errors, more,
}

-- The fields of a `*TaskError`.
pub record TaskError : Type 0 where
  pub task : TaskInfo
  pub err : GoError

abbrev pub or_else {ℓ} : {A : Type ℓ} → Option A → Option A → Option A
or_else (some a) o = some a
or_else none o = o

-- `errors.As(err, &te)` for `te *TaskError`: the chain is walked depth first, an error before what
-- it wraps.
unfoldable mutual
  pub as_task_error : GoError → Option TaskError
  as_task_error nil = none
  as_task_error eof = none
  as_task_error canceled = none
  as_task_error deadline_exceeded = none
  as_task_error (plain n) = none
  as_task_error (wrapped n e) = as_task_error e
  as_task_error (panic_error v) = as_task_error_value v
  as_task_error (task_error t e) = some (record { task = t; err = e })
  as_task_error (joined es) = as_task_error_list es

  pub as_task_error_value : PanicValue → Option TaskError
  as_task_error_value (value n) = none
  as_task_error_value (error e) = as_task_error e

  pub as_task_error_list : GoErrors → Option TaskError
  as_task_error_list no_errors = none
  as_task_error_list (more e es) = or_else (as_task_error e) (as_task_error_list es)

-- `errors.As(err, new(*PanicError))`, as a test.
unfoldable mutual
  pub as_panic_error : GoError → Bool
  as_panic_error nil = false
  as_panic_error eof = false
  as_panic_error canceled = false
  as_panic_error deadline_exceeded = false
  as_panic_error (plain n) = false
  as_panic_error (wrapped n e) = as_panic_error e
  as_panic_error (panic_error v) = true
  as_panic_error (task_error t e) = as_panic_error e
  as_panic_error (joined es) = as_panic_error_list es

  pub as_panic_error_list : GoErrors → Bool
  as_panic_error_list no_errors = false
  as_panic_error_list (more e es) = as_panic_error e || as_panic_error_list es

is_some {ℓ} : {A : Type ℓ} → Option A → Bool
is_some none = false
is_some (some a) = true

unfoldable pub is_task_error : GoError → Bool
unfolding is_some
is_task_error nil = false
is_task_error err = is_some (as_task_error err)

task_of_found : Option TaskError → Option TaskInfo
task_of_found none = none
task_of_found (some te) = some te.task

-- `none` is the result `(TaskInfo{}, false)`.
unfoldable pub task_of : GoError → Option TaskInfo
unfolding task_of_found
task_of nil = none
task_of err = task_of_found (as_task_error err)

cause_of_found : GoError → Option TaskError → GoError
cause_of_found err none = err
cause_of_found err (some te) = te.err

unfoldable pub cause_of : GoError → GoError
unfolding cause_of_found
cause_of nil = nil
cause_of err = cause_of_found err (as_task_error err)

-- `collectTaskErrors` with the slice behind `out` as an accumulator. A `*TaskError` is appended,
-- and what it wraps is not looked at.
unfoldable mutual
  pub collect_task_errors : GoError → List TaskError → List TaskError
  collect_task_errors nil out = out
  collect_task_errors eof out = out
  collect_task_errors canceled out = out
  collect_task_errors deadline_exceeded out = out
  collect_task_errors (plain n) out = out
  collect_task_errors (wrapped n e) out = collect_task_errors e out
  collect_task_errors (panic_error v) out = collect_task_errors_value v out
  collect_task_errors (task_error t e) out = out ++ record { task = t; err = e } ∷ []
  collect_task_errors (joined es) out = collect_task_errors_list es out

  pub collect_task_errors_value : PanicValue → List TaskError → List TaskError
  collect_task_errors_value (value n) out = out
  collect_task_errors_value (error e) out = collect_task_errors e out

  pub collect_task_errors_list : GoErrors → List TaskError → List TaskError
  collect_task_errors_list no_errors out = out
  collect_task_errors_list (more e es) out = collect_task_errors_list es (collect_task_errors e out)

unfoldable pub all_task_errors : GoError → List TaskError
all_task_errors nil = []
all_task_errors err = collect_task_errors err []

-- `errors.Is(err, context.Canceled)`
unfoldable mutual
  pub is_canceled : GoError → Bool
  is_canceled nil = false
  is_canceled eof = false
  is_canceled canceled = true
  is_canceled deadline_exceeded = false
  is_canceled (plain n) = false
  is_canceled (wrapped n e) = is_canceled e
  is_canceled (panic_error v) = is_canceled_value v
  is_canceled (task_error t e) = is_canceled e
  is_canceled (joined es) = is_canceled_list es

  pub is_canceled_value : PanicValue → Bool
  is_canceled_value (value n) = false
  is_canceled_value (error e) = is_canceled e

  pub is_canceled_list : GoErrors → Bool
  is_canceled_list no_errors = false
  is_canceled_list (more e es) = is_canceled e || is_canceled_list es
