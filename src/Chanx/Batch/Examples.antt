-- ===== src/Chanx/Batch/Examples.antt =====
-- The theorem on batches at three values of which two are received, the second without the buffer.
use scoped.Base.{ℕ, ◌≡◌, refl, List, [], ◌∷◌, arith, take, drop}
use scoped.Chanx.Batch.System.{
  System, init, send, all_sent, recv, all_received, sender, receiver, hand_over, Reach, here, next,
}
use scoped.Chanx.Batch.Order.{batch_roundtrip}

abbrev passed : (m : System ℕ) × Reach (init 1 (5 ∷ 6 ∷ 7 ∷ []) 2) m
passed = (
  _,
  next
      (next
        (next
          (next
            (next (next here (sender (send refl refl (omega arith)))) (receiver (recv refl refl)))
            (hand_over refl refl refl refl))
          (receiver (all_received refl)))
        (sender (send refl refl (omega arith))))
      (sender (all_sent refl)),
)

abbrev taken : List ℕ
taken = 5 ∷ 6 ∷ []

batch_roundtrip_example :
    (taken ≡ take 2 (5 ∷ 6 ∷ 7 ∷ [])) × (passed.0.buf ≡ drop 2 (5 ∷ 6 ∷ 7 ∷ []))
batch_roundtrip_example = batch_roundtrip 1 2 (5 ∷ 6 ∷ 7 ∷ []) taken passed.0 passed.1 refl refl
