-- ===== src/Stream/Parallel/Examples.antt =====
-- The theorems on `ParallelMap` at four items, the third of which fails, with results out of order.
use scoped.Base.{
  ℕ, true, ◌+◌, ◌≤◌, ◌≡◌, refl, if◌then◌else◌, ◌==◌, List, [], ◌∷◌, arith, map, take, length, total,
}
use scoped.Errors.{value, nil, eof, plain}
use scoped.Stream.Defs.{Ret}
use scoped.Stream.Runs.{Runs}
use scoped.Stream.Parallel.Defs.{
  StreamOptions, IndexedResult, Reorder, lookup, insert, emit, parallel_next,
}
use scoped.Stream.Parallel.Pending.{Distinct, tagged}
use scoped.Stream.Parallel.Ordering.{start, ordered_as_map}
use scoped.Stream.Parallel.System.{
  Called, gave, panicked, System, init, pull, index, gate, add, slot, launch, call_fn, send,
  take_result, give, dispatch, work, consume, stop, Reach, here, next, undisturbed, steps,
}
use scoped.Stream.Parallel.Weights.{broken}
use scoped.Stream.Parallel.Contents.{successes, mapped}
use scoped.Stream.Parallel.Calm.{effort}
use scoped.Stream.Parallel.Delivery.{in_call, Finished, emitted-prefix, undisturbed-steps}
use scoped.Stream.Parallel.Progress.{runs_to_end}

abbrev halve : ℕ → Ret ℕ
halve n = if n == 7 then record { val = 0; err = plain 9 } else record { val = n + n; err = nil }

abbrev items : List ℕ
items = 3 ∷ 4 ∷ 7 ∷ 1 ∷ []

abbrev arrived : List (IndexedResult ℕ)
arrived =
    record { idx = 2; ret = record { val = 0; err = plain 9 } }
    ∷ record { idx = 1; ret = record { val = 8; err = nil } }
    ∷ record { idx = 3; ret = record { val = 2; err = nil } }
    ∷ record { idx = 0; ret = record { val = 6; err = nil } }
    ∷ []

arrived-Distinct : Distinct arrived
unfolding lookup
arrived-Distinct = (refl, (refl, (refl, (refl, tt))))

arrived_each : (i : ℕ) → lookup i arrived ≡ lookup i (tagged 0 (map halve items))
unfolding lookup
arrived_each i = ground arith

ordered_as_map_example :
    (t : Reorder ℕ) × Runs {A = ℕ} (parallel_next 0 true) (start arrived 4) (6 ∷ 8 ∷ []) (plain 9) t
ordered_as_map_example = ordered_as_map 0 halve items arrived 4 arrived-Distinct arrived_each

-- Two items, one worker at a time and one waiting result.
abbrev narrow : StreamOptions
narrow = record { max_workers = 1; buffer_size = 0; ordered = true; max_pending = 1 }

abbrev call_halve : ℕ → Called ℕ
call_halve n = if n == 4 then panicked (value 5) else gave (halve n)

-- The first item is with a worker.
abbrev called : (m : System ℕ ℕ) × Reach 0 call_halve narrow (init (3 ∷ 4 ∷ []) eof) m
called = (
  _,
  next
      (next
        (next
          (next
            (next (next (next here (dispatch (pull refl refl))) (dispatch (index refl)))
              (dispatch (gate refl (omega arith))))
            (dispatch (add refl)))
          (dispatch (slot refl (omega arith))))
        (dispatch (launch refl)))
      (work 0 refl call_fn),
)

-- Its result was given out, and then the consumer stopped the stream.
abbrev stopped : (m : System ℕ ℕ) × Reach 0 call_halve narrow (init (3 ∷ 4 ∷ []) eof) m
unfolding lookup insert emit
stopped = (
  _,
  next
      (next
        (next (next called.1 (work 0 refl (send refl (omega arith))))
          (consume (take_result refl refl)))
        (consume (give refl refl)))
      stop,
)

emitted-prefix_example :
    (stopped.0.emitted ≡ take 1 (mapped 0 call_halve (3 ∷ 4 ∷ [])))
    × (successes stopped.0.answers ≡ successes (take 1 (mapped 0 call_halve (3 ∷ 4 ∷ []))))
    × (length stopped.0.res_ch + length stopped.0.consumer.pending ≤ 1)
    × (total in_call stopped.0.workers ≤ 1)
    × (total broken stopped.0.workers ≡ 0)
unfolding stopped
emitted-prefix_example = emitted-prefix 0 call_halve narrow (3 ∷ 4 ∷ []) eof stopped.0 stopped.1

undisturbed-steps_example : steps called.1 + effort called.0 ≡ 28
undisturbed-steps_example =
    undisturbed-steps 0 call_halve narrow (3 ∷ 4 ∷ []) eof called.0 called.1 refl

runs_to_end_example :
    (n : System ℕ ℕ) × (s : Reach 0 call_halve narrow called.0 n) × (undisturbed s ≡ true)
    × Finished 0 call_halve (3 ∷ 4 ∷ []) n
runs_to_end_example =
    runs_to_end 0 call_halve narrow (3 ∷ 4 ∷ []) eof (omega arith) (omega arith) refl called.0
      called.1 refl
