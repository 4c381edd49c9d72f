-- ===== src/Chanx/Transform.antt =====
-- chanx/transform.go and chanx/drain.go: the goroutines of `Map`, `Filter`, `Take`, `Skip`, `Scan`
-- and `OrDone`. The functions they are given are non-nil, and the counts not negative.
use scoped.Base.{ℕ, suc, Bool, not, if◌then◌else◌, ltb, Option, List, [], ◌∷◌}
use scoped.Chanx.Rounds.{
  sent, cancelled, Round, received, input_closed, done, Ran, waiting, finished, take_in, send_out,
  on_input,
}

module _ {ℓ κ} {A : Type ℓ} {B : Type κ} where
  unfoldable pub map_loop : (A → B) → List (Round A) → Ran A B
  map_loop fn [] = waiting
  map_loop fn (received v sent ∷ rounds) = take_in v (send_out (fn v) (map_loop fn rounds))
  map_loop fn (received v cancelled ∷ rounds) = take_in v finished
  map_loop fn (input_closed ∷ rounds) = finished
  map_loop fn (done ∷ rounds) = finished

  unfoldable pub scan_loop : (B → A → B) → B → List (Round A) → Ran A B
  scan_loop fn acc [] = waiting
  scan_loop fn acc (received v sent ∷ rounds) =
      take_in v (send_out (fn acc v) (scan_loop fn (fn acc v) rounds))
  scan_loop fn acc (received v cancelled ∷ rounds) = take_in v finished
  scan_loop fn acc (input_closed ∷ rounds) = finished
  scan_loop fn acc (done ∷ rounds) = finished

  unfoldable pub chan_map : Option (List (Round A)) → (A → B) → Ran A B
  unfolding on_input
  chan_map input fn = on_input (map_loop fn) input

  unfoldable pub chan_scan : Option (List (Round A)) → B → (B → A → B) → Ran A B
  unfolding on_input
  chan_scan input initial fn = on_input (scan_loop fn initial) input

module _ {ℓ} {A : Type ℓ} where
  unfoldable pub filter_loop : (A → Bool) → List (Round A) → Ran A A
  filter_loop fn [] = waiting
  filter_loop fn (received v sent ∷ rounds) =
      let rest = filter_loop fn rounds in take_in v (if not (fn v) then rest else send_out v rest)
  filter_loop fn (received v cancelled ∷ rounds) =
      let rest = filter_loop fn rounds in take_in v (if not (fn v) then rest else finished)
  filter_loop fn (input_closed ∷ rounds) = finished
  filter_loop fn (done ∷ rounds) = finished

  unfoldable pub take_loop : ℕ → ℕ → List (Round A) → Ran A A
  take_loop n count [] = if ltb count n then waiting else finished
  take_loop n count (received v sent ∷ rounds) =
      let rest = take_loop n (suc count) rounds in
      if ltb count n then take_in v (send_out v rest) else finished
  take_loop n count (received v cancelled ∷ rounds) =
      if ltb count n then take_in v finished else finished
  take_loop n count (input_closed ∷ rounds) = finished
  take_loop n count (done ∷ rounds) = finished

  unfoldable pub skip_loop : ℕ → ℕ → List (Round A) → Ran A A
  skip_loop n skipped [] = waiting
  skip_loop n skipped (received v sent ∷ rounds) =
      let dropped = skip_loop n (suc skipped) rounds in
      let rest = skip_loop n skipped rounds in
      take_in v (if ltb skipped n then dropped else send_out v rest)
  skip_loop n skipped (received v cancelled ∷ rounds) =
      let dropped = skip_loop n (suc skipped) rounds in
      take_in v (if ltb skipped n then dropped else finished)
  skip_loop n skipped (input_closed ∷ rounds) = finished
  skip_loop n skipped (done ∷ rounds) = finished

  unfoldable pub or_done_loop : List (Round A) → Ran A A
  or_done_loop [] = waiting
  or_done_loop (received v sent ∷ rounds) = take_in v (send_out v (or_done_loop rounds))
  or_done_loop (received v cancelled ∷ rounds) = take_in v finished
  or_done_loop (input_closed ∷ rounds) = finished
  or_done_loop (done ∷ rounds) = finished

  unfoldable pub chan_filter : Option (List (Round A)) → (A → Bool) → Ran A A
  unfolding on_input
  chan_filter input fn = on_input (filter_loop fn) input

  unfoldable pub chan_take : Option (List (Round A)) → ℕ → Ran A A
  unfolding on_input
  chan_take input n = on_input (take_loop n 0) input

  unfoldable pub chan_skip : Option (List (Round A)) → ℕ → Ran A A
  unfolding on_input
  chan_skip input n = on_input (skip_loop n 0) input

  unfoldable pub or_done : Option (List (Round A)) → Ran A A
  unfolding on_input
  or_done input = on_input or_done_loop input
