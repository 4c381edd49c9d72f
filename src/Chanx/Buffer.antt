-- ===== src/Chanx/Buffer.antt =====
-- chanx/buffer.go: the goroutines of `Buffer` and `BufferWithReason`.
--
-- A round that may flush a batch says whether the flush's send is chosen, or `ctx.Done()`, by which
-- the goroutine returns; its deferred function then tries to send the batch again, and its select may
-- choose either. A round of the timer is chosen only while the timer runs, which is while the batch
-- has items; with an empty batch it would flush nothing. The size is positive.
use scoped.Base.{ℕ, if◌then◌else◌, leb, Option, none, some, List, [], ◌∷◌, ◌++◌, length}
use scoped.Chanx.Rounds.{Reply, sent, cancelled, Ran, waiting, finished, take_in, send_out}

pub data Flush : Type 0 where
  flushed : Flush
  given_up : Reply → Flush

pub data BufferRound {ℓ} (A : Type ℓ) : Type ℓ where
  received : A → Flush → BufferRound A
  timer : Flush → BufferRound A
  input_closed : Reply → BufferRound A
  done : Reply → BufferRound A

pub data FlushReason : Type 0 where
  flush_size flush_timeout flush_close : FlushReason

pub record BatchResult {ℓ} (A : Type ℓ) : Type ℓ where
  pub items : List A
  pub reason : FlushReason

module _ {ℓ} {A : Type ℓ} where
  -- The deferred function.
  unfoldable pub leave : List A → Reply → Ran A (List A)
  leave [] r = finished
  leave (x ∷ xs) sent = send_out (x ∷ xs) finished
  leave (x ∷ xs) cancelled = finished

  unfoldable pub buffer_loop : ℕ → List A → List (BufferRound A) → Ran A (List A)
  unfolding leave
  buffer_loop size batch [] = waiting
  buffer_loop size batch (received v flushed ∷ rounds) =
      let batch' = batch ++ v ∷ [] in
      let fresh = buffer_loop size [] rounds in
      let more = buffer_loop size batch' rounds in
      take_in v (if leb size (length batch') then send_out batch' fresh else more)
  buffer_loop size batch (received v (given_up r) ∷ rounds) =
      let batch' = batch ++ v ∷ [] in
      let more = buffer_loop size batch' rounds in
      take_in v (if leb size (length batch') then leave batch' r else more)
  buffer_loop size [] (timer f ∷ rounds) = buffer_loop size [] rounds
  buffer_loop size (x ∷ xs) (timer flushed ∷ rounds) =
      send_out (x ∷ xs) (buffer_loop size [] rounds)
  buffer_loop size (x ∷ xs) (timer (given_up r) ∷ rounds) = leave (x ∷ xs) r
  buffer_loop size batch (input_closed r ∷ rounds) = leave batch r
  buffer_loop size batch (done r ∷ rounds) = leave batch r

  unfoldable pub leave_with_reason : List A → Reply → Ran A (BatchResult A)
  leave_with_reason [] r = finished
  leave_with_reason (x ∷ xs) sent =
      send_out (record { items = x ∷ xs; reason = flush_close }) finished
  leave_with_reason (x ∷ xs) cancelled = finished

  unfoldable pub reason_loop : ℕ → List A → List (BufferRound A) → Ran A (BatchResult A)
  unfolding leave_with_reason
  reason_loop size batch [] = waiting
  reason_loop size batch (received v flushed ∷ rounds) =
      let batch' = batch ++ v ∷ [] in
      let fresh = reason_loop size [] rounds in
      let more = reason_loop size batch' rounds in
      take_in v (
        if leb size (length batch')
        then send_out (record { items = batch'; reason = flush_size }) fresh
        else more)
  reason_loop size batch (received v (given_up r) ∷ rounds) =
      let batch' = batch ++ v ∷ [] in
      let more = reason_loop size batch' rounds in
      take_in v (if leb size (length batch') then leave_with_reason batch' r else more)
  reason_loop size [] (timer f ∷ rounds) = reason_loop size [] rounds
  reason_loop size (x ∷ xs) (timer flushed ∷ rounds) =
      send_out (record { items = x ∷ xs; reason = flush_timeout }) (reason_loop size [] rounds)
  reason_loop size (x ∷ xs) (timer (given_up r) ∷ rounds) = leave_with_reason (x ∷ xs) r
  reason_loop size batch (input_closed r ∷ rounds) = leave_with_reason batch r
  reason_loop size batch (done r ∷ rounds) = leave_with_reason batch r

  -- `Buffer` and `BufferWithReason`; a nil input gives a closed output at once.
  unfoldable pub buffer : Option (List (BufferRound A)) → ℕ → Ran A (List A)
  buffer none size = finished
  buffer (some rounds) size = buffer_loop size [] rounds

  unfoldable pub buffer_with_reason : Option (List (BufferRound A)) → ℕ → Ran A (BatchResult A)
  buffer_with_reason none size = finished
  buffer_with_reason (some rounds) size = reason_loop size [] rounds
