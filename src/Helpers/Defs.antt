-- ===== src/Helpers/Defs.antt =====
-- helpers.go: the worker model of `ForEachSlice` and `MapSlice`, and the retries of `SpawnRetry`.
use scoped.Base.{ℕ, zero, suc, ◌+◌, Bool, false, ◌||◌, not, if◌then◌else◌, ◌==◌, ltb, List, [], ◌∷◌}
use scoped.Errors.{GoError, nil, is_nil}
use scoped.Scope.Config.{Config, is_fail_fast}

unfoldable pub should_use_worker_fast_path : Config → ℕ → Bool
should_use_worker_fast_path cfg item_count =
    if item_count == 0
    then false
    else (if (cfg.limit == 0) || not (is_fail_fast cfg.policy)
        then false
        else (if cfg.on_start || cfg.on_done || cfg.on_event
            then false
            else not (cfg.on_metrics || cfg.track_tasks || cfg.on_stall)))

unfoldable pub worker_count : ℕ → ℕ → ℕ
worker_count limit item_count = if (limit == 0) || ltb item_count limit then item_count else limit

-- The task of a worker, `for i := start; i < n; i += workers`, with `k` rounds of fuel: the indices
-- for which it calls the function, and the error it returns. `ctx` gives what `ctx.Err()` is in the
-- round of an index, and `fn` the error of the call for it.
unfoldable pub run_worker : (ℕ → GoError) → (ℕ → GoError) → ℕ → ℕ → ℕ → ℕ → List ℕ × GoError
run_worker ctx fn zero n workers i = ([], nil)
run_worker ctx fn (suc k) n workers i =
    let rest = run_worker ctx fn k n workers (i + workers) in
    if ltb i n
    then (if is_nil (ctx i)
        then (if is_nil (fn i) then (i ∷ rest.0, rest.1) else (i ∷ [], fn i))
        else ([], nil))
    else ([], nil)

-- `SpawnRetry` behind its first attempt, with `k` attempts left: the error, and the delays whose
-- timers were started. `fn` gives the error of an attempt, and `interrupt` the context's error when
-- the context is done before the timer of an attempt fires.
unfoldable pub retry_loop : (ℕ → GoError) → (ℕ → GoError) → ℕ → ℕ → ℕ → GoError → GoError × List ℕ
retry_loop fn interrupt zero attempt delay last = (last, [])
retry_loop fn interrupt (suc k) attempt delay last =
    let rest = retry_loop fn interrupt k (suc attempt) (delay + delay) (fn attempt) in
    if is_nil (interrupt attempt)
    then (if is_nil (fn attempt) then (nil, delay ∷ []) else (rest.0, delay ∷ rest.1))
    else (interrupt attempt, delay ∷ [])

-- `SpawnRetry` with n ≥ 0 retries.
unfoldable pub retry : (ℕ → GoError) → (ℕ → GoError) → ℕ → ℕ → GoError × List ℕ
unfolding retry_loop
retry fn interrupt n backoff =
    if is_nil (fn 0) then (nil, []) else retry_loop fn interrupt n 1 backoff (fn 0)
