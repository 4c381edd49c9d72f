-- ===== src/Stream/Dropping.antt =====
-- stream.go, `DropWhile`: which part of the source's items it yields.
use scoped.Base.{
  ℕ, zero, suc, ◌-◌, ◌<◌, ◌≡◌, inl, inr, sym, ap, ◌∙◌, refl, Bool, true, false, ◌&&◌, if◌then◌else◌,
  Bool-cases, List, [], ◌∷◌, arith, length,
}
use scoped.Errors.{GoError, is_nil}
use scoped.Stream.Defs.{Stream, Obj, next, pull-fail, ok, fail}
use scoped.Stream.Runs.{Runs, ends, emits, Runs-first}
use scoped.Stream.Combinators.{Dropping, drop_while, drop_while_loop}

abbrev pub suffix_from {ℓ} : {A : Type ℓ} → (A → Bool) → List A → List A
suffix_from p [] = []
suffix_from p (x ∷ xs) = if p x then suffix_from p xs else x ∷ xs

module _ {ℓ κ} {S : Type ℓ} {A : Type κ} (s : Stream S A) (f : ℕ) where
  drop_while_loop-fail :
      (p : A → Bool) (k : ℕ) (b : Bool) (o : Obj S) {t : Obj S} {v : A} {e : GoError}
      → next s f o ≡ fail v e t
      → is_nil e ≡ false
      → drop_while_loop s p f (suc k) (record { src = o; dropping = b })
        ≡ fail v e (record { src = t; dropping = b })
  unfolding drop_while_loop
  drop_while_loop-fail p k b o h n = rw (h, pull-fail, n)

  drop_while_loop-keep :
      (p : A → Bool) (k : ℕ) (b : Bool) (o : Obj S) {t : Obj S} {v : A}
      → next s f o ≡ ok v t
      → (b && p v) ≡ false
      → drop_while_loop s p f (suc k) (record { src = o; dropping = b })
        ≡ ok v (record { src = t; dropping = false })
  unfolding drop_while_loop
  drop_while_loop-keep p k b o h keep = rw h (ground arith)

  drop_while_loop-skip :
      (p : A → Bool) (k : ℕ) (o : Obj S) {t : Obj S} {v : A}
      → next s f o ≡ ok v t
      → p v ≡ true
      → drop_while_loop s p f (suc k) (record { src = o; dropping = true })
        ≡ drop_while_loop s p f k (record { src = t; dropping = true })
  unfolding drop_while_loop
  drop_while_loop-skip p k o h skipped = rw h (ground arith)

  drop_while_loop-fuel :
      (p : A → Bool) {o t : Obj S} {xs : List A} {e : GoError}
      → Runs (next s f) o xs e t
      → (k j : ℕ) → length xs < k
      → length xs < j
      → drop_while_loop s p f k (record { src = o; dropping = true })
        ≡ drop_while_loop s p f j (record { src = o; dropping = true })
  drop_while_loop-fuel p r zero j lt lt' = absurd (omega arith)
  drop_while_loop-fuel p r (suc k) zero lt lt' = absurd (omega arith)
  drop_while_loop-fuel p {o = o} (ends h n) (suc k) (suc j) lt lt' =
      drop_while_loop-fail p k true o h n ∙ sym (drop_while_loop-fail p j true o h n)
  drop_while_loop-fuel p {o = o} (emits {t = o'} {v = v} h r) (suc k) (suc j) lt lt' =
      elim (Bool-cases (p v)) [
        | inl skipped ↦
            drop_while_loop-skip p k o h skipped
            ∙ drop_while_loop-fuel p {o = o'} r k j (omega arith) (omega arith)
            ∙ sym (drop_while_loop-skip p j o h skipped)
        | inr kept ↦
            drop_while_loop-keep p k true o h kept ∙ sym (drop_while_loop-keep p j true o h kept)
      ]

  one_more :
      (p : A → Bool) (c : Dropping S)
      → 0 < f
      → drop_while_loop s p f f c ≡ drop_while_loop s p f (suc (f - 1)) c
  one_more p c lt = ap (λ k. drop_while_loop s p f k c) (omega arith)

  -- Once an item was kept, `DropWhile` passes all on.
  drop_while-passing :
      (p : A → Bool) {o t : Obj S} {xs : List A} {e : GoError}
      → Runs (next s f) o xs e t
      → 0 < f
      → Runs
          ((drop_while s p).next f)
          (record { src = o; dropping = false })
          xs
          e
          (record { src = t; dropping = false })
  unfolding drop_while
  drop_while-passing p {o = o} (ends h n) lt =
      ends (one_more p _ lt ∙ drop_while_loop-fail p (f - 1) false o h n) n
  drop_while-passing p {o = o} (emits h r) lt =
      emits (one_more p _ lt ∙ drop_while_loop-keep p (f - 1) false o h refl)
        (drop_while-passing p r lt)

  -- `DropWhile` yields the source's items from the first that fails the test, and ends as its
  -- source does.
  pub drop_while-Runs :
      (p : A → Bool) {o t : Obj S} {xs : List A} {e : GoError}
      → Runs (next s f) o xs e t
      → length xs < f
      → (b : Bool) × Runs
          ((drop_while s p).next f)
          (record { src = o; dropping = true })
          (suffix_from p xs)
          e
          (record { src = t; dropping = b })
  unfolding drop_while
  drop_while-Runs p {o = o} (ends h n) lt =
      (true, ends (one_more p _ (omega arith) ∙ drop_while_loop-fail p (f - 1) true o h n) n)
  drop_while-Runs p {o = o} (emits {t = o'} {v = v} h r) lt = elim (Bool-cases (p v)) [
    | inl skipped ↦
        let (b, rest) = drop_while-Runs p r (omega arith) in
        (
          b,
          rw skipped (
              Runs-first
                (one_more p _ (omega arith)
                  ∙ drop_while_loop-skip p (f - 1) o h skipped
                  ∙ drop_while_loop-fuel p {o = o'} r (f - 1) f (omega arith) (omega arith))
                rest),
        )
    | inr kept ↦ (
      false,
      rw kept (
          emits (one_more p _ (omega arith) ∙ drop_while_loop-keep p (f - 1) true o h kept)
            (drop_while-passing p r (omega arith))),
    )
  ]
