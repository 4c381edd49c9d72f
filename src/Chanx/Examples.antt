-- ===== src/Chanx/Examples.antt =====
-- The theorems on `chanx/` at short runs.
use scoped.Base.{
  ℕ, suc, ◌+◌, ◌≤◌, ◌≡◌, refl, ◌||◌, leb, ltb, some, List, [], ◌∷◌, map, select, take, drop, length,
  All, arith,
}
use scoped.Chanx.Rounds.{
  sent, cancelled, Round, received, input_closed, values, closes, IsStage, IsLive,
}
use scoped.Chanx.Transform.{chan_map, chan_filter, chan_take, chan_skip, chan_scan, or_done}
use scoped.Chanx.Transforming.{running}
use scoped.Chanx.Live.{transforms-IsStage, transforms-IsLive}
use scoped.Chanx.Buffer.{BufferRound, flushed, buffer_with_reason}
use scoped.Chanx.Buffering.{IsBuffered, buffer-IsBuffered}
use scoped.Chanx.Timed.{TimedRound, tick, throttle, window, sliding}
use scoped.Chanx.Rates.{ticks, throttle-bound}
use scoped.Chanx.Sliding.{full_sliding, window-sliding}
use scoped.Chanx.Routing.{partition, SpreadRound, spread, cut, tee, fan_out, ZipRound, both}
use scoped.Chanx.Delivery.{IsParted, partition-IsParted}
use scoped.Chanx.Spreading.{GetsAll, tee-GetsAll}
use scoped.Chanx.RoundRobin.{IsFanned, fan_out-IsFanned}

abbrev rounds : List (Round ℕ)
rounds = received 4 sent ∷ received 1 sent ∷ received 7 sent ∷ input_closed ∷ []

abbrev cut_rounds : List (Round ℕ)
cut_rounds = received 4 sent ∷ received 1 sent ∷ received 7 cancelled ∷ []

transforms-IsStage_example :
    IsStage (map suc) (chan_map (some cut_rounds) suc)
    × IsStage (select (ltb 2)) (chan_filter (some cut_rounds) (ltb 2))
    × IsStage (take 2) (chan_take (some cut_rounds) 2)
    × IsStage (drop 2) (chan_skip (some cut_rounds) 2)
    × IsStage (running (λ a b. a + b) 10) (chan_scan (some cut_rounds) 10 (λ a b. a + b))
    × IsStage (λ xs. xs) (or_done (some cut_rounds))
transforms-IsStage_example = transforms-IsStage (some cut_rounds) suc (ltb 2) (λ a b. a + b) 10 2

transforms-IsLive_example :
    IsLive (map suc) (values rounds) (closes rounds) (chan_map (some rounds) suc)
    × IsLive (select (ltb 2)) (values rounds) (closes rounds) (chan_filter (some rounds) (ltb 2))
    × IsLive
        (λ xs. xs)
        (take 2 (values rounds))
        (closes rounds || leb 2 (length (values rounds)))
        (chan_take (some rounds) 2)
    × IsLive (drop 2) (values rounds) (closes rounds) (chan_skip (some rounds) 2)
    × IsLive
        (running (λ a b. a + b) 10)
        (values rounds)
        (closes rounds)
        (chan_scan (some rounds) 10 (λ a b. a + b))
    × IsLive (λ xs. xs) (values rounds) (closes rounds) (or_done (some rounds))
transforms-IsLive_example = transforms-IsLive rounds suc (ltb 2) (λ a b. a + b) 10 2 refl

abbrev buffer_rounds : List (BufferRound ℕ)
buffer_rounds =
    BufferRound.received 4 flushed
    ∷ BufferRound.received 1 flushed
    ∷ BufferRound.received 7 flushed
    ∷ BufferRound.input_closed sent
    ∷ []

buffer-IsBuffered_example : IsBuffered 2 [] (buffer_with_reason (some buffer_rounds) 2)
buffer-IsBuffered_example = buffer-IsBuffered (some buffer_rounds) 2 (omega arith)

abbrev timed_rounds : List (TimedRound ℕ)
timed_rounds =
    TimedRound.received 4 1 sent
    ∷ TimedRound.received 1 2 sent
    ∷ tick 5 sent
    ∷ TimedRound.received 7 6 sent
    ∷ tick 9 sent
    ∷ TimedRound.input_closed 12 sent
    ∷ []

throttle-bound_example :
    IsStage (λ xs. xs) (throttle (some timed_rounds) 1)
    × (length (throttle (some timed_rounds) 1).out ≤ 1 + ticks timed_rounds)
throttle-bound_example = throttle-bound timed_rounds 1

window-sliding_example : window (some timed_rounds) 4 sliding ≡ full_sliding 4 [] timed_rounds
window-sliding_example = window-sliding timed_rounds 4 refl

partition-IsParted_example : IsParted (ltb 2) (partition (some cut_rounds) (ltb 2))
partition-IsParted_example = partition-IsParted (some cut_rounds) (ltb 2)

abbrev spread_rounds : List (SpreadRound ℕ)
spread_rounds = spread 4 ∷ cut 7 1 ∷ []

tee-GetsAll_example :
    (length (tee (some spread_rounds) 2).outs ≡ 2)
    × All
        (GetsAll (tee (some spread_rounds) 2).taken (tee (some spread_rounds) 2).ended)
        (tee (some spread_rounds) 2).outs
tee-GetsAll_example = tee-GetsAll (some spread_rounds) 2

fan_out-IsFanned_example : IsFanned 2 1 (fan_out (some rounds) 2)
fan_out-IsFanned_example = fan_out-IsFanned 2 1 (omega arith) (some rounds)

abbrev zip_rounds : List (ZipRound ℕ ℕ)
zip_rounds = both 4 5 sent ∷ both 6 7 cancelled ∷ []
