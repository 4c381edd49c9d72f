-- ===== src/Chanx/Timed.antt =====
-- chanx/debounce.go, chanx/throttle.go and chanx/window.go: the goroutines that a timer or a ticker
-- wakes.
--
-- The rounds are as those of the goroutines without a timer; a round of the timer or ticker, and the
-- end of the input, may be followed by a send too. `now` is what `time.Now` gives in a round. Times
-- and durations are unbounded numbers, and the durations positive.
use scoped.Base.{
  ℕ, zero, suc, ◌+◌, Bool, not, if◌then◌else◌, ltb, Option, none, some, List, [], ◌∷◌, ◌++◌, map,
  select,
}
use scoped.Chanx.Rounds.{Reply, sent, cancelled, Ran, waiting, finished, take_in, send_out}

pub data TimedRound {ℓ} (A : Type ℓ) : Type ℓ where
  received : A → ℕ → Reply → TimedRound A
  tick : ℕ → Reply → TimedRound A
  input_closed : ℕ → Reply → TimedRound A
  done : TimedRound A

pub record Timestamped {ℓ} (A : Type ℓ) : Type ℓ where
  pub val : A
  pub when : ℕ

module _ {ℓ} {A : Type ℓ} where
  -- The last send before the goroutine returns.
  abbrev pub send_last : {B : Type ℓ} → B → Reply → Ran A B
  send_last v sent = send_out v finished
  send_last v cancelled = finished

  -- `latest` is `none` where `hasValue` is false.
  unfoldable pub debounce_loop : Option A → List (TimedRound A) → Ran A A
  debounce_loop latest [] = waiting
  debounce_loop latest (received v now r ∷ rounds) = take_in v (debounce_loop (some v) rounds)
  debounce_loop none (tick now r ∷ rounds) = debounce_loop none rounds
  debounce_loop (some v) (tick now sent ∷ rounds) = send_out v (debounce_loop none rounds)
  debounce_loop (some v) (tick now cancelled ∷ rounds) = finished
  debounce_loop none (input_closed now r ∷ rounds) = finished
  debounce_loop (some v) (input_closed now r ∷ rounds) = send_last v r
  debounce_loop latest (done ∷ rounds) = finished

  -- With no token the input is not looked at: the goroutine waits.
  unfoldable pub throttle_loop : ℕ → ℕ → List (TimedRound A) → Ran A A
  throttle_loop n tokens [] = waiting
  throttle_loop n zero (tick now r ∷ rounds) = throttle_loop n 1 rounds
  throttle_loop n zero (done ∷ rounds) = finished
  throttle_loop n zero (received v now r ∷ rounds) = waiting
  throttle_loop n zero (input_closed now r ∷ rounds) = waiting
  throttle_loop n (suc tokens) (received v now sent ∷ rounds) =
      take_in v (send_out v (throttle_loop n tokens rounds))
  throttle_loop n (suc tokens) (received v now cancelled ∷ rounds) = take_in v finished
  throttle_loop n (suc tokens) (input_closed now r ∷ rounds) = finished
  throttle_loop n (suc tokens) (tick now r ∷ rounds) =
      let more = throttle_loop n (suc (suc tokens)) rounds in
      let same = throttle_loop n (suc tokens) rounds in if ltb (suc tokens) n then more else same
  throttle_loop n (suc tokens) (done ∷ rounds) = finished

  unfoldable pub window_tumbling : List A → List (TimedRound A) → Ran A (List A)
  window_tumbling batch [] = waiting
  window_tumbling batch (received v now r ∷ rounds) =
      take_in v (window_tumbling (batch ++ v ∷ []) rounds)
  window_tumbling [] (tick now r ∷ rounds) = window_tumbling [] rounds
  window_tumbling (x ∷ xs) (tick now sent ∷ rounds) = send_out (x ∷ xs) (window_tumbling [] rounds)
  window_tumbling (x ∷ xs) (tick now cancelled ∷ rounds) = finished
  window_tumbling [] (input_closed now r ∷ rounds) = finished
  window_tumbling (x ∷ xs) (input_closed now r ∷ rounds) = send_last (x ∷ xs) r
  window_tumbling batch (done ∷ rounds) = finished

  -- `item.when.Before(cutoff)`, with the cutoff `duration` before `now`.
  abbrev pub expired : ℕ → ℕ → Timestamped A → Bool
  expired duration now item = ltb (item.when + duration) now

  -- `items[start:]`, where `start` is behind the expired items at the head.
  unfoldable pub trim : ℕ → ℕ → List (Timestamped A) → List (Timestamped A)
  trim duration now [] = []
  trim duration now (item ∷ items) =
      let rest = trim duration now items in if expired duration now item then rest else item ∷ items

  -- The values of the items in the window.
  abbrev pub in_window : ℕ → ℕ → List (Timestamped A) → List A
  in_window duration now items = map (λ i. i.val) (select (λ i. not (expired duration now i)) items)

  -- A tick: the batch is sent unless it is empty, and the loop goes on unless the send is cancelled.
  abbrev pub on_tick : List A → Reply → Ran A (List A) → Ran A (List A)
  on_tick [] r rest = rest
  on_tick (x ∷ xs) sent rest = send_out (x ∷ xs) rest
  on_tick (x ∷ xs) cancelled rest = finished

  -- The end of the input: the batch is sent unless it is empty.
  abbrev pub on_close : List A → Reply → Ran A (List A)
  on_close [] r = finished
  on_close (x ∷ xs) r = send_last (x ∷ xs) r

  unfoldable pub window_sliding : ℕ → List (Timestamped A) → List (TimedRound A) → Ran A (List A)
  unfolding trim
  window_sliding duration items [] = waiting
  window_sliding duration items (received v now r ∷ rounds) =
      take_in v (window_sliding duration (items ++ record { val = v; when = now } ∷ []) rounds)
  window_sliding duration items (tick now r ∷ rounds) =
      let kept = trim duration now items in
      on_tick (map (λ i. i.val) kept) r (window_sliding duration kept rounds)
  window_sliding duration items (input_closed now r ∷ rounds) =
      on_close (in_window duration now items) r
  window_sliding duration items (done ∷ rounds) = finished

pub data WindowMode : Type 0 where
  tumbling sliding : WindowMode

module _ {ℓ} {A : Type ℓ} where
  -- A nil input gives a closed output at once.
  unfoldable pub debounce : Option (List (TimedRound A)) → Ran A A
  debounce none = finished
  debounce (some rounds) = debounce_loop none rounds

  unfoldable pub throttle : Option (List (TimedRound A)) → ℕ → Ran A A
  throttle none n = finished
  throttle (some rounds) n = throttle_loop n n rounds

  unfoldable pub window : Option (List (TimedRound A)) → ℕ → WindowMode → Ran A (List A)
  window none duration mode = finished
  window (some rounds) duration tumbling = window_tumbling [] rounds
  window (some rounds) duration sliding = window_sliding duration [] rounds
