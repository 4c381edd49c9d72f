-- ===== src/Lib.antt =====
-- scoped, structured concurrency for Go: scopes and their tasks, pull-based streams, task errors.
--
-- The program. A scope (`scope.go`) owns tasks, which a spawner (`spawner.go`) starts, each in a
-- goroutine of its own, under the options of `options.go`. A task's failure becomes a
-- `*TaskError` (`task_error.go`), a panic a `*PanicError` (`panic.go`), and the scope aggregates
-- them by its policy when it waits for its tasks. A stream (`stream.go`, `stream_ops.go`) is a
-- closure that gives an item or an error for each call, io.EOF at its end; combinators build
-- streams from streams, and consumers drain them. Independent of scopes but for its use of their
-- spawner, it keeps its errors with `errors.Join`. Around these stand the pool, the semaphore,
-- the typed results, the helpers and the channel package `chanx/`.
--
-- The files.
--   Base: Booleans, tests on numbers, and the lists over native numbers that all parts share.
--   Errors: Values is the data type of the errors that the package creates or meets, with
--     `errors.Join` after its documentation; Chain is `task_error.go`, with `errors.As` after its
--     documentation; Laws relates the functions of Chain.
--   Stream: Defs is the stream object with `Next` and `Stop`; Sources has `NewStream`,
--     `FromSlice`, `FromChan`, `Empty`, `Repeat` and `Generate`; Combinators has `Filter`,
--     `Take`, `Map`, `Skip`, `Peek`, `TakeWhile`, `DropWhile`, `Scan` and `Observe`; Grouping has
--     `Batch`, `Distinct`, `Zip` and `FlatMap`; Consumers has `ToSlice`, `ForEach`, `Count`,
--     `Any`, `All`, `First`, `Last` and `Reduce`. Runs says what a stream yields: the items that
--     its calls return up to the first error, that error, and the state after it. The other files
--     say of each function what it yields or returns, by functions on lists: Sourcing, Yielding,
--     Cutting, Dropping, Batching, Pairing, Draining.
--   Scope: Config is `options.go`, and Options says what options make of a configuration; Defs is
--     the `scope` struct and its operations, one function for each access under a mutex or to an
--     atomic; Tasks is the goroutine of `Spawn` and `runTask` as a relation, a step for each
--     access to shared state, where the others wait for the call that is inside `errOnce.Do`;
--     System puts a scope and its tasks together, where the steps of the tasks, of the spawners,
--     of `Cancel` and of the parent context come in any order. Counting and Invariant hold the
--     counters against the tasks; Progress, Safety, Aggregation, Finalization and Reports are
--     about what a scope promises. `Run`, `Wait` and `finalize` are read as: close the root
--     spawner, take steps until the wait group is at 0, then `finalize`, and end as `run_ending`
--     or `wait_ending` says. Handle is the exported `Scope`: the calls of `Wait` and
--     `WaitTimeout`, with the body of `doFinalize` and `finalize` an access at a time, as steps
--     next to those of System; Lasting, Stages, Waits and Returning are about what these calls
--     return. Snapshots is `Snapshot` and the check for stalled tasks.
--   Helpers: Defs is the choice of the worker model, a worker with its early returns and the
--     retries of `helpers.go`; Striping and Retrying say what comes of them. Mapping is
--     `MapSlice` with a task for each item, the branch without the workers, its steps next to
--     those of a scope; Standing and Results are about what it returns.
--   Stream.Parallel: `ParallelMap` of `stream.go`: Defs is `makeParallelNext`, the part that
--     gives out the results, with its reorder buffer, Pending is about that buffer, and Ordering
--     is about what the calls return, whatever the order in which the workers' results arrive.
--     System has the dispatcher, the workers and the consumer of the ordered mode as a transition
--     system. Indices, Weights, Counting and Invariant hold the two semaphores, the wait group
--     and the places of each result against each other; Places and Contents say which result is
--     where; Calm is about runs that neither the consumer nor a context cuts short; Delivery,
--     Turns and Progress are about what a consumer gets.
--   Pool: Defs is the state of `pool.go`, its options and counters; System is its workers and the
--     calls of `Submit`, `TrySubmit` and `Close` as a transition system, as for scopes. Counting,
--     Shutting and Invariant hold the counters and the queue against the workers and calls;
--     Options, Closing and Termination are about what a pool promises.
--   Semaphore: System is `semaphore.go` with its callers as a transition system, and Bounds is
--     about the slots in use.
--   Result: Defs is `result.go`, whose task hands its outcome to `exec` of Scope; Waiting is
--     about what `Wait` gives. The `*PanicError` of the result and the one of the scope are known
--     by the value of the panic alone.
--   Chanx: the channel package `chanx/`. A goroutine between channels is a function of a list of
--     rounds, which says what its selects chose (Rounds). Transform is `transform.go` and
--     `drain.go`, Buffer is `buffer.go`, Timed is `debounce.go`, `throttle.go` and `window.go`,
--     and Routing is `partition.go`, `tee.go` (whose loop `broadcast.go` shares), `FanOut` of
--     `merge.go` and `zip.go`. Transforming, Live, Buffering, Rates, Tumbling, Sliding, Delivery,
--     Spreading and RoundRobin say what they send, by functions on lists. Closable is
--     `closable.go` as a transition system, Merge is `Merge` of `merge.go`, and Batch is
--     `batch.go` with `Send` and `Recv` of `chanx.go`, over one channel.
--   Race: the answer of `race.go` for results in the order of their arrival.
--   Examples under each part apply the theorems to concrete data.
--
-- Bounds and fuel. A step function of a stream takes a fuel `f`, which bounds the rounds of a
-- `for` loop within one call, and a consumer takes a fuel `k` for its own loop; each returns
-- `none` when the fuel runs out. A theorem asks only that the fuel exceeds the number of items of
-- the source, and then states what is returned, so it covers every finite run. The operations of
-- a scope need no fuel: `Step` is a relation, as it is for a pool, a semaphore, the handle of a
-- scope, the parts of `ParallelMap` and `MapSlice`, a closable channel, `Merge` and the batches.
-- The other goroutines of `chanx/` recur over the list of their rounds. The indices of a worker
-- take as many rounds of fuel as the slice has items, since each round is at a later index.
--
-- What is left out. Numbers that Go keeps in int64 are unbounded here, names of tasks and
-- durations are numbers, times are readings that the caller or a clock gives, a hook is known by
-- whether it is set, and callbacks are pure functions (the mapper of `ParallelMap` does not read
-- its context). What a context answers is given as a list of answers or as a step. A stream has
-- one consumer, as its documentation asks. The panics of constructors on nil or negative
-- arguments, the stack text of a `*PanicError` and the goroutines of the metrics ticker and the
-- stall detector and of a pool's metrics are left out, as are the dispatcher of the unordered
-- mode of `ParallelMap`, `ToChanScope` and `Stats` in `stream.go`, the writes of the workers of
-- `MapSlice`, `SpawnTimeout` and `SpawnScope` in `helpers.go`, `Done` in `result.go`, a `Release`
-- without an acquire in `semaphore.go`, the goroutines of `race.go`, and `TrySend`, `TryRecv` and
-- the timeouts of `chanx.go`, `first.go` and `Drain` in `chanx/`, to which the development does
-- not extend yet. A panic of a hook outside `exec` ends the program, and is left out too.
-- `Task.executed` is no field of the program: it records that `exec` was called. Such fields of
-- other systems are named where they are declared.
pub mod Base
pub mod Errors
pub mod Stream
pub mod Scope
pub mod Helpers
pub mod Race
pub mod Pool
pub mod Chanx
pub mod Semaphore
pub mod Result
