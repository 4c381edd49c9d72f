-- ===== src/Helpers/Retrying.antt =====
-- helpers.go, `SpawnRetry`: the attempts and the delays between them.
use scoped.Base.{
  ℕ, zero, suc, ◌+◌, ◌<◌, ◌≤◌, ◌≡◌, refl, sym, ap, ◌∙◌, true, false, inl, inr, Bool-cases,
  Nat-cases, ◌-◌, ◌⊎◌, List, [], ◌∷◌, arith,
}
use scoped.Errors.Laws.{is_nil-nil}
use scoped.Errors.{GoError, is_nil}
use scoped.Helpers.Defs.{retry, retry_loop}

-- `k` delays from `d` on, each twice the one before.
abbrev pub doublings : ℕ → ℕ → List ℕ
doublings zero d = []
doublings (suc k) d = d ∷ doublings k (d + d)

module _ (fn interrupt : ℕ → GoError) where
  loop-succeeds :
      (k attempt delay : ℕ) (last : GoError)
      → is_nil (interrupt attempt) ≡ true
      → is_nil (fn attempt) ≡ true
      → retry_loop fn interrupt (suc k) attempt delay last ≡ (fn attempt, delay ∷ [])
  unfolding retry_loop
  loop-succeeds k attempt delay last q h =
      rw q (rw h (ap (λ e. (e, delay ∷ [])) (sym (is_nil-nil _ h))))

  loop-fails :
      (k attempt delay : ℕ) (last : GoError)
      → is_nil (interrupt attempt) ≡ true
      → is_nil (fn attempt) ≡ false
      → retry_loop fn interrupt (suc k) attempt delay last ≡ (
        (retry_loop fn interrupt k (suc attempt) (delay + delay) (fn attempt)).0,
        delay ∷ (retry_loop fn interrupt k (suc attempt) (delay + delay) (fn attempt)).1,
      )
  unfolding retry_loop
  loop-fails k attempt delay last q h = rw q (rw h refl)

  loop-over :
      (attempt delay : ℕ) (last : GoError)
      → retry_loop fn interrupt zero attempt delay last ≡ (last, [])
  unfolding retry_loop
  loop-over attempt delay last = refl

  loop-last :
      (k attempt delay : ℕ) (last : GoError)
      → k ≡ 0
      → is_nil (interrupt attempt) ≡ true
      → is_nil (fn attempt) ≡ false
      → retry_loop fn interrupt (suc k) attempt delay last ≡ (fn attempt, delay ∷ [])
  unfolding retry_loop
  loop-last zero attempt delay last z q h = rw q (rw h refl)
  loop-last (suc k) attempt delay last z q h = absurd (omega arith)

  retry-good : (n backoff : ℕ) → is_nil (fn 0) ≡ true → retry fn interrupt n backoff ≡ (fn 0, [])
  unfolding retry
  retry-good n backoff h = rw h (ap (λ e. (e, [])) (sym (is_nil-nil _ h)))

  retry-bad :
      (n backoff : ℕ)
      → is_nil (fn 0) ≡ false
      → retry fn interrupt n backoff ≡ retry_loop fn interrupt n 1 backoff (fn 0)
  unfolding retry
  retry-bad n backoff h = rw h refl

  module _ (n j : ℕ) (le : j ≤ n) (undone : (i : ℕ) → i ≤ j → is_nil (interrupt i) ≡ true)
      (failing : (i : ℕ) → i < j → is_nil (fn i) ≡ false)
      (final : (is_nil (fn j) ≡ true) ⊎ (j ≡ n)) where
    none_left :
        (k : ℕ)
        → j + suc k ≡ suc n
        → is_nil (fn j) ≡ false
        → (is_nil (fn j) ≡ true) ⊎ (j ≡ n)
        → k ≡ 0
    none_left k q bad (inl good) = absurd (ground (arith, good, bad))
    none_left k q bad (inr last) = omega arith

    last-attempt :
        (k delay : ℕ) (last : GoError)
        → j + suc k ≡ suc n
        → retry_loop fn interrupt (suc k) j delay last ≡ (fn j, delay ∷ [])
    last-attempt k delay last q = elim (Bool-cases (is_nil (fn j))) [
      | inl good ↦ loop-succeeds k j delay last (undone j (omega arith)) good
      | inr bad ↦ loop-last k j delay last (none_left k q bad final) (undone j (omega arith)) bad
    ]

    loop-doubles :
        (d k attempt delay : ℕ) (last : GoError)
        → attempt + d ≡ j
        → attempt + k ≡ suc n
        → retry_loop fn interrupt k attempt delay last ≡ (fn j, doublings (suc d) delay)
    loop-doubles d zero attempt delay last q r = absurd (omega arith)
    loop-doubles zero (suc k) attempt delay last q r =
        ap (λ a. retry_loop fn interrupt (suc k) a delay last) (omega arith)
        ∙ last-attempt k delay last (omega arith)
    loop-doubles (suc d) (suc k) attempt delay last q r =
        loop-fails k attempt delay last (undone attempt (omega arith))
          (failing attempt (omega arith))
        ∙ ap (λ p. (p.0, delay ∷ p.1))
            (loop-doubles d k (suc attempt) (delay + delay) (fn attempt) (omega arith)
              (omega arith))

    at_first : (backoff : ℕ) → j ≡ 0 → retry fn interrupt n backoff ≡ (fn 0, [])
    at_first backoff z = elim (Bool-cases (is_nil (fn 0))) [
      | inl good ↦ retry-good n backoff good
      | inr bad ↦
          retry-bad n backoff bad
          ∙ ap (λ k. retry_loop fn interrupt k 1 backoff (fn 0))
              (none_left n (omega (arith, z)) (ap (λ i. is_nil (fn i)) z ∙ bad) final)
          ∙ loop-over 1 backoff (fn 0)
    ]

    -- With a context that is not done before attempt `j`, which is the first to succeed or the last
    -- of all, `SpawnRetry` returns what attempt `j` gave, after `j` delays that double from the
    -- given one on.
    pub retry-doubles : (backoff : ℕ) → retry fn interrupt n backoff ≡ (fn j, doublings j backoff)
    retry-doubles backoff = elim (Nat-cases j) [
      | inl z ↦ at_first backoff z ∙ ap (λ i. (fn i, doublings i backoff)) (sym z)
      | inr later ↦
          retry-bad n backoff (failing 0 later)
          ∙ loop-doubles (j - 1) n 1 backoff (fn 0) (omega arith) (omega arith)
          ∙ ap (λ d. (fn j, doublings d backoff)) {x = suc (j - 1)} (omega arith)
    ]
