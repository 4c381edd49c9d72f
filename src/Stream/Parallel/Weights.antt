-- ===== src/Stream/Parallel/Weights.antt =====
-- stream.go, `ParallelMap`: what the dispatcher and a worker weigh in the counts.
use scoped.Base.{ℕ, Bool, true, false}
use scoped.Stream.Parallel.System.{
  Worker, calling, sending, leaving, gone, crashed, Pc, gating, adding, slotting, launching,
  undoing, deferring, closing, ended,
}
use scoped.Stream.Parallel.Indices.{same, result_at}

abbrev pub bit : Bool → ℕ
bit true = 1
bit false = 0

module _ {ℓ κ} {A : Type ℓ} {B : Type κ} where
  -- Weights of a worker: whether its `wg.Done` is to come, whether it holds a place in `sem`,
  -- whether its item holds a token, and whether it has the item of an index.
  abbrev pub alive : Worker A B → ℕ
  alive gone = 0
  alive crashed = 0
  alive _ = 1

  abbrev pub placed : Worker A B → ℕ
  placed (calling i v) = 1
  placed (sending r) = 1
  placed leaving = 1
  placed _ = 0

  abbrev pub laden : Worker A B → ℕ
  laden (calling i v) = 1
  laden (sending r) = 1
  laden _ = 0

  abbrev pub broken : Worker A B → ℕ
  broken crashed = 1
  broken _ = 0

  abbrev pub worker_at : ℕ → Worker A B → ℕ
  worker_at i (calling j v) = same i j
  worker_at i (sending r) = result_at i r
  worker_at i _ = 0

module _ {ℓ} {A : Type ℓ} where
  -- The same for the dispatcher, and whether it is behind `wg.Wait` and behind the close.
  abbrev pub pc_wg : Pc A → ℕ
  pc_wg (slotting i v) = 1
  pc_wg (launching i v) = 1
  pc_wg undoing = 1
  pc_wg _ = 0

  abbrev pub pc_sem : Pc A → ℕ
  pc_sem (launching i v) = 1
  pc_sem _ = 0

  abbrev pub pc_token : Pc A → ℕ
  pc_token (adding i v) = 1
  pc_token (slotting i v) = 1
  pc_token (launching i v) = 1
  pc_token _ = 0

  abbrev pub pc_at : ℕ → Pc A → ℕ
  pc_at i (gating j v) = same i j
  pc_at i (adding j v) = same i j
  pc_at i (slotting j v) = same i j
  pc_at i (launching j v) = same i j
  pc_at i _ = 0

  abbrev pub pc_over : Pc A → Bool
  pc_over (deferring e) = true
  pc_over (closing e) = true
  pc_over (ended e) = true
  pc_over _ = false

  abbrev pub pc_ended : Pc A → ℕ
  pc_ended (ended e) = 1
  pc_ended _ = 0
