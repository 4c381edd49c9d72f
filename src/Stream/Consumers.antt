-- ===== src/Stream/Consumers.antt =====
-- stream.go:686-990: the calls that drain a stream. Each stops the stream when it returns, and
-- answers with its result, its error and the object left. The loop has `k` rounds of fuel.
use scoped.Base.{
  ℕ, zero, suc, Bool, true, false, if◌then◌else◌, Option, none, some, List, [], ◌∷◌, ◌++◌,
}
use scoped.Errors.{GoError, nil, is_nil, is_eof}
use scoped.Stream.Defs.{Stream, Obj, next, stop_now, pull}

-- `(result, error)` and the object left.
abbrev pub Result {ℓ κ} : Type ℓ → Type κ → Type (ℓ ⊔ κ)
Result R S = Option (R × GoError × Obj S)

module _ {ℓ κ} {S : Type ℓ} {A : Type κ} (s : Stream S A) (f : ℕ) where
  -- `defer s.stopNow()`
  abbrev pub deferring_stop {μ} : {R : Type μ} → Result R S → Result R S
  deferring_stop none = none
  deferring_stop (some (r, e, o)) = some (r, e, stop_now s o)

  -- `if err == io.EOF { return r, s.Err() }; if err != nil { return r, err }`
  abbrev pub at_end {μ} : {R : Type μ} → R → GoError → Obj S → Result R S
  at_end r e o = some (r, if is_eof e then o.err else e, o)

  unfoldable pub to_slice_loop : ℕ → Obj S → List A → Result (List A) S
  to_slice_loop zero o items = none
  to_slice_loop (suc k) o items =
      pull (next s f o) (λ v t. to_slice_loop k t (items ++ v ∷ [])) (λ v e t. at_end items e t)

  unfoldable pub to_slice : ℕ → Obj S → Result (List A) S
  unfolding to_slice_loop
  to_slice k o = deferring_stop (to_slice_loop k o [])

  unfoldable pub for_each_loop : (A → GoError) → ℕ → Obj S → Result (Unit {0}) S
  for_each_loop fn zero o = none
  for_each_loop fn (suc k) o =
      pull (next s f o)
        (λ v t. elim (is_nil (fn v)) [ true ↦ for_each_loop fn k t | false ↦ some (tt, fn v, t) ])
        (λ v e t. at_end tt e t)

  unfoldable pub for_each : (A → GoError) → ℕ → Obj S → Result (Unit {0}) S
  unfolding for_each_loop
  for_each fn k o = deferring_stop (for_each_loop fn k o)

  unfoldable pub count_loop : ℕ → Obj S → ℕ → Result ℕ S
  count_loop zero o n = none
  count_loop (suc k) o n = pull (next s f o) (λ v t. count_loop k t (suc n)) (λ v e t. at_end n e t)

  unfoldable pub count : ℕ → Obj S → Result ℕ S
  unfolding count_loop
  count k o = deferring_stop (count_loop k o 0)

  unfoldable pub any_loop : (A → Bool) → ℕ → Obj S → Result Bool S
  any_loop fn zero o = none
  any_loop fn (suc k) o =
      pull (next s f o)
        (λ v t. elim (fn v) [ true ↦ some (true, nil, t) | false ↦ any_loop fn k t ])
        (λ v e t. at_end false e t)

  unfoldable pub any : (A → Bool) → ℕ → Obj S → Result Bool S
  unfolding any_loop
  any fn k o = deferring_stop (any_loop fn k o)

  -- `All` answers false with an error, and true at EOF.
  unfoldable pub all_loop : (A → Bool) → ℕ → Obj S → Result Bool S
  all_loop fn zero o = none
  all_loop fn (suc k) o =
      pull (next s f o)
        (λ v t. elim (fn v) [ true ↦ all_loop fn k t | false ↦ some (false, nil, t) ])
        (λ v e t. at_end (is_eof e) e t)

  unfoldable pub all : (A → Bool) → ℕ → Obj S → Result Bool S
  unfolding all_loop
  all fn k o = deferring_stop (all_loop fn k o)

  -- `zero_value` is Go's zero value of the item type, here and below.
  unfoldable pub first : A → Obj S → Result A S
  first zero_value o = deferring_stop (
      pull (next s f o) (λ v t. some (v, nil, t))
        (λ v e t. some (if is_eof e then zero_value else v, if is_eof e then t.err else e, t)))

  -- Both branches on `found` in the source return the same.
  unfoldable pub last_loop : ℕ → Obj S → A → Result A S
  last_loop zero o last = none
  last_loop (suc k) o last = pull (next s f o) (λ v t. last_loop k t v) (λ v e t. at_end last e t)

  unfoldable pub last : A → ℕ → Obj S → Result A S
  unfolding last_loop
  last zero_value k o = deferring_stop (last_loop k o zero_value)

  unfoldable pub reduce_loop {μ} : {R : Type μ} → (R → A → R) → ℕ → Obj S → R → Result R S
  reduce_loop fn zero o acc = none
  reduce_loop fn (suc k) o acc =
      pull (next s f o) (λ v t. reduce_loop fn k t (fn acc v)) (λ v e t. at_end acc e t)

  unfoldable pub reduce {μ} : {R : Type μ} → R → (R → A → R) → ℕ → Obj S → Result R S
  unfolding reduce_loop
  reduce initial fn k o = deferring_stop (reduce_loop fn k o initial)
