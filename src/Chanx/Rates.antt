-- ===== src/Chanx/Rates.antt =====
-- chanx/debounce.go and chanx/throttle.go: which values get through.
use scoped.Base.{
  ℕ, zero, suc, ◌+◌, ◌≤◌, ◌≡◌, refl, ap, ◌∙◌, Bool, true, false, if◌then◌else◌, ltb, Option, none,
  some, List, [], ◌∷◌, length, arith,
}
use scoped.Chanx.Rounds.{
  Reply, sent, cancelled, Ran, IsStage, stop-IsStage, send-IsStage, lose-IsStage,
}
use scoped.Chanx.Timed.{
  TimedRound, received, tick, input_closed, done, debounce_loop, throttle_loop, debounce, throttle,
}

module _ {ℓ} {A : Type ℓ} where
  -- How often the ticker woke the goroutine.
  abbrev pub ticks : List (TimedRound A) → ℕ
  ticks [] = 0
  ticks (tick now r ∷ rounds) = suc (ticks rounds)
  ticks (received v now r ∷ rounds) = ticks rounds
  ticks (input_closed now r ∷ rounds) = ticks rounds
  ticks (done ∷ rounds) = ticks rounds

  -- Whether no send is cancelled.
  abbrev pub unbroken : List (TimedRound A) → Bool
  unbroken [] = true
  unbroken (tick now sent ∷ rounds) = unbroken rounds
  unbroken (tick now cancelled ∷ rounds) = false
  unbroken (received v now r ∷ rounds) = unbroken rounds
  unbroken (input_closed now sent ∷ rounds) = true
  unbroken (input_closed now cancelled ∷ rounds) = false
  unbroken (done ∷ rounds) = true

  -- The values that are followed at once by the timer or by the end of the input.
  abbrev pub settled : List (TimedRound A) → List A
  settled [] = []
  settled (received v now r ∷ []) = []
  settled (received v now r ∷ tick now' r' ∷ rounds) = v ∷ settled rounds
  settled (received v now r ∷ input_closed now' r' ∷ rounds) = v ∷ []
  settled (received v now r ∷ done ∷ rounds) = []
  settled (received v now r ∷ received v' now' r' ∷ rounds) = settled (received v' now' r' ∷ rounds)
  settled (tick now r ∷ rounds) = settled rounds
  settled (input_closed now r ∷ rounds) = []
  settled (done ∷ rounds) = []

  -- With a value that waits, as if it had just been received.
  settled_from : Option A → List (TimedRound A) → List A
  settled_from none rounds = settled rounds
  settled_from (some v) rounds = settled (received v 0 sent ∷ rounds)

  settled-received :
      (v : A) (now now' : ℕ) (r r' : Reply) (rounds : List (TimedRound A))
      → settled (received v now r ∷ rounds) ≡ settled (received v now' r' ∷ rounds)
  settled-received v now now' r r' [] = refl
  settled-received v now now' r r' (received w _ _ ∷ rounds) = refl
  settled-received v now now' r r' (tick _ _ ∷ rounds) = refl
  settled-received v now now' r r' (input_closed _ _ ∷ rounds) = refl
  settled-received v now now' r r' (done ∷ rounds) = refl

  debounce_loop-settled :
      (latest : Option A) (rounds : List (TimedRound A))
      → unbroken rounds ≡ true
      → (debounce_loop latest rounds).out ≡ settled_from latest rounds
  unfolding debounce_loop settled_from
  debounce_loop-settled none [] h = refl
  debounce_loop-settled (some x) [] h = refl
  debounce_loop-settled none (received v now r ∷ rounds) h =
      debounce_loop-settled (some v) rounds h ∙ settled-received v 0 now sent r rounds
  debounce_loop-settled (some x) (received v now r ∷ rounds) h =
      debounce_loop-settled (some v) rounds h ∙ settled-received v 0 now sent r rounds
  debounce_loop-settled none (tick now sent ∷ rounds) h = debounce_loop-settled none rounds h
  debounce_loop-settled none (tick now cancelled ∷ rounds) h = cc
  debounce_loop-settled (some x) (tick now sent ∷ rounds) h =
      ap (λ l. x ∷ l) (debounce_loop-settled none rounds h)
  debounce_loop-settled (some x) (tick now cancelled ∷ rounds) h = cc
  debounce_loop-settled none (input_closed now r ∷ rounds) h = refl
  debounce_loop-settled (some x) (input_closed now sent ∷ rounds) h = refl
  debounce_loop-settled (some x) (input_closed now cancelled ∷ rounds) h = cc
  debounce_loop-settled none (done ∷ rounds) h = refl
  debounce_loop-settled (some x) (done ∷ rounds) h = refl

  -- When no send is cancelled, `Debounce` sends exactly the values that no further value follows
  -- before its timer fires or the input is closed, in order.
  pub debounce-settled :
      (rounds : List (TimedRound A))
      → unbroken rounds ≡ true
      → (debounce (some rounds)).out ≡ settled rounds
  unfolding debounce settled_from
  debounce-settled rounds h = debounce_loop-settled none rounds h

  test-out :
      (b : Bool) (x y : Ran A A) (k : ℕ)
      → (b ≡ true → length x.out ≤ k)
      → (b ≡ false → length y.out ≤ k)
      → length (if b then x else y).out ≤ k
  test-out true x y k s t = s refl
  test-out false x y k s t = t refl

  test-IsStage :
      (b : Bool) (x y : Ran A A)
      → IsStage (λ xs. xs) x
      → IsStage (λ xs. xs) y
      → IsStage (λ xs. xs) (if b then x else y)
  test-IsStage true x y s t = s
  test-IsStage false x y s t = t

  throttle_loop-IsStage :
      (n tokens : ℕ) (rounds : List (TimedRound A))
      → IsStage (λ xs. xs) (throttle_loop n tokens rounds)
  unfolding throttle_loop
  throttle_loop-IsStage n tokens [] = stop-IsStage _ false refl
  throttle_loop-IsStage n zero (tick now r ∷ rounds) = throttle_loop-IsStage n 1 rounds
  throttle_loop-IsStage n zero (done ∷ rounds) = stop-IsStage _ true refl
  throttle_loop-IsStage n zero (received v now r ∷ rounds) = stop-IsStage _ false refl
  throttle_loop-IsStage n zero (input_closed now r ∷ rounds) = stop-IsStage _ false refl
  throttle_loop-IsStage n (suc tokens) (received v now sent ∷ rounds) =
      send-IsStage _ (λ xs. xs) v v _ (λ xs. refl) (throttle_loop-IsStage n tokens rounds)
  throttle_loop-IsStage n (suc tokens) (received v now cancelled ∷ rounds) = lose-IsStage _ v v refl
  throttle_loop-IsStage n (suc tokens) (input_closed now r ∷ rounds) = stop-IsStage _ true refl
  throttle_loop-IsStage n (suc tokens) (tick now r ∷ rounds) =
      test-IsStage (ltb (suc tokens) n) _ _ (throttle_loop-IsStage n (suc (suc tokens)) rounds)
        (throttle_loop-IsStage n (suc tokens) rounds)
  throttle_loop-IsStage n (suc tokens) (done ∷ rounds) = stop-IsStage _ true refl

  throttle_loop-bound :
      (n tokens : ℕ) (rounds : List (TimedRound A))
      → length (throttle_loop n tokens rounds).out ≤ tokens + ticks rounds
  unfolding throttle_loop
  throttle_loop-bound n tokens [] = omega arith
  throttle_loop-bound n zero (tick now r ∷ rounds) = omega (arith, throttle_loop-bound n 1 rounds)
  throttle_loop-bound n zero (done ∷ rounds) = omega arith
  throttle_loop-bound n zero (received v now r ∷ rounds) = omega arith
  throttle_loop-bound n zero (input_closed now r ∷ rounds) = omega arith
  throttle_loop-bound n (suc tokens) (received v now sent ∷ rounds) =
      omega (arith, throttle_loop-bound n tokens rounds)
  throttle_loop-bound n (suc tokens) (received v now cancelled ∷ rounds) = omega arith
  throttle_loop-bound n (suc tokens) (input_closed now r ∷ rounds) = omega arith
  throttle_loop-bound n (suc tokens) (tick now r ∷ rounds) =
      test-out (ltb (suc tokens) n) _ _ _
        (λ h. omega (arith, throttle_loop-bound n (suc (suc tokens)) rounds))
        (λ h. omega (arith, throttle_loop-bound n (suc tokens) rounds))
  throttle_loop-bound n (suc tokens) (done ∷ rounds) = omega arith

  -- Whatever its selects choose, `Throttle` sends the values it receives, in order, but for the last
  -- when its send was cancelled, and no more of them than the first `n` and one for each tick.
  pub throttle-bound :
      (rounds : List (TimedRound A)) (n : ℕ)
      → IsStage (λ xs. xs) (throttle (some rounds) n)
        × (length (throttle (some rounds) n).out ≤ n + ticks rounds)
  unfolding throttle
  throttle-bound rounds n = (throttle_loop-IsStage n n rounds, throttle_loop-bound n n rounds)
