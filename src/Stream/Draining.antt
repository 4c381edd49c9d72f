-- ===== src/Stream/Draining.antt =====
-- stream.go:686-990: what the consumers make of a stream that yields given items.
use scoped.Base.{
  ℕ, zero, suc, ◌+◌, ◌<◌, ◌≡◌, refl, ◌∙◌, Bool, true, false, if◌then◌else◌, ◌&&◌, ◌||◌, Option,
  none, some, List, [], ◌∷◌, ◌++◌, append_assoc, append-nil, arith, length, fold,
}
use native.Mathlib.Nat.{add-zero, zero-add, add-suc, suc-add}
use scoped.Errors.{GoError, nil, is_nil, is_eof}
use scoped.Stream.Defs.{Stream, Obj, next, stop_now, pull-fail}
use scoped.Stream.Runs.{Runs, ends, emits}
use scoped.Stream.Consumers.{
  Result, to_slice, to_slice_loop, for_each, for_each_loop, count, count_loop, any, any_loop, all,
  all_loop, last, last_loop, reduce, reduce_loop, deferring_stop,
}

-- The result and the error of a consumer.
abbrev pub outcome {ℓ κ} : {S : Type ℓ} {R : Type κ} → Result R S → Option (R × GoError)
outcome none = none
outcome (some (r, e, o)) = some (r, e)

abbrev pub holds_for_some {ℓ} : {A : Type ℓ} → (A → Bool) → List A → Bool
holds_for_some p [] = false
holds_for_some p (x ∷ xs) = p x || holds_for_some p xs

abbrev pub holds_for_all {ℓ} : {A : Type ℓ} → (A → Bool) → List A → Bool
holds_for_all p [] = true
holds_for_all p (x ∷ xs) = p x && holds_for_all p xs

abbrev pub first_error {ℓ} : {A : Type ℓ} → (A → GoError) → List A → GoError → GoError
first_error fn [] e = e
first_error fn (x ∷ xs) e = if is_nil (fn x) then first_error fn xs e else fn x

abbrev pub last_or {ℓ} : {A : Type ℓ} → A → List A → A
last_or d [] = d
last_or d (x ∷ xs) = last_or x xs

-- The error that a drain ends with: `s.Err()` at EOF.
abbrev pub end_err {ℓ} : {S : Type ℓ} → GoError → Obj S → GoError
end_err e o = if is_eof e then o.err else e

module _ {ℓ κ} {S : Type ℓ} {A : Type κ} (s : Stream S A) (f : ℕ) where
  reduce_loop-Runs {μ} :
      {R : Type μ} (fn : R → A → R) {o t : Obj S} {xs : List A} {e : GoError}
      → Runs (next s f) o xs e t
      → (k : ℕ) (acc : R) → length xs < k
      → reduce_loop s f fn k o acc ≡ some (fold fn acc xs, end_err e t, t)
  unfolding reduce_loop
  reduce_loop-Runs fn (ends h n) zero acc lt = absurd (omega arith)
  reduce_loop-Runs fn (ends h n) (suc k) acc lt = rw (h, pull-fail, n)
  reduce_loop-Runs fn (emits h r) zero acc lt = absurd (omega arith)
  reduce_loop-Runs fn (emits {v = v} h r) (suc k) acc lt =
      rw h (reduce_loop-Runs fn r k (fn acc v) (omega arith))

  -- `Reduce` folds the items from the left, stops the stream, and returns the error of the end.
  pub reduce_lem {μ} :
      {R : Type μ} (initial : R) (fn : R → A → R) {o t : Obj S} {xs : List A} {e : GoError}
      → Runs (next s f) o xs e t
      → (k : ℕ) → length xs < k
      → reduce s f initial fn k o ≡ some (fold fn initial xs, end_err e t, stop_now s t)
  unfolding reduce
  reduce_lem initial fn r k lt = rw (reduce_loop-Runs fn r k initial lt)

  to_slice_loop-Runs :
      {o t : Obj S} {xs : List A} {e : GoError}
      → Runs (next s f) o xs e t
      → (k : ℕ) (items : List A) → length xs < k
      → to_slice_loop s f k o items ≡ some (items ++ xs, end_err e t, t)
  unfolding to_slice_loop
  to_slice_loop-Runs (ends h n) zero items lt = absurd (omega arith)
  to_slice_loop-Runs (ends h n) (suc k) items lt = rw (h, pull-fail, n, append-nil)
  to_slice_loop-Runs (emits h r) zero items lt = absurd (omega arith)
  to_slice_loop-Runs (emits {v = v} {xs = xs} h r) (suc k) items lt = rw h (
      rw (append_assoc items (v ∷ []) xs) at
        (to_slice_loop-Runs r k (items ++ v ∷ []) (omega arith)))

  -- `ToSlice` returns the items before the first error, with that error, or `Err()` at EOF.
  pub to_slice_lem :
      {o t : Obj S} {xs : List A} {e : GoError}
      → Runs (next s f) o xs e t
      → (k : ℕ) → length xs < k
      → to_slice s f k o ≡ some (xs, end_err e t, stop_now s t)
  unfolding to_slice
  to_slice_lem r k lt = rw (to_slice_loop-Runs r k [] lt)

  count_loop-Runs :
      {o t : Obj S} {xs : List A} {e : GoError}
      → Runs (next s f) o xs e t
      → (k n : ℕ) → length xs < k
      → count_loop s f k o n ≡ some (n + length xs, end_err e t, t)
  unfolding count_loop
  count_loop-Runs (ends h ne) zero n lt = absurd (omega arith)
  count_loop-Runs (ends h ne) (suc k) n lt = rw (h, pull-fail, ne, add-zero)
  count_loop-Runs (emits h r) zero n lt = absurd (omega arith)
  count_loop-Runs (emits {xs = xs} h r) (suc k) n lt =
      rw h (rw (suc-add, ← add-suc) at (count_loop-Runs r k (suc n) (omega arith)))

  -- `Count` returns how many items come before the first error.
  pub count_lem :
      {o t : Obj S} {xs : List A} {e : GoError}
      → Runs (next s f) o xs e t
      → (k : ℕ) → length xs < k
      → count s f k o ≡ some (length xs, end_err e t, stop_now s t)
  unfolding count
  count_lem r k lt = rw (count_loop-Runs r k 0 lt, zero-add)

  last_loop-Runs :
      {o t : Obj S} {xs : List A} {e : GoError}
      → Runs (next s f) o xs e t
      → (k : ℕ) (d : A) → length xs < k
      → last_loop s f k o d ≡ some (last_or d xs, end_err e t, t)
  unfolding last_loop
  last_loop-Runs (ends h n) zero d lt = absurd (omega arith)
  last_loop-Runs (ends h n) (suc k) d lt = rw (h, pull-fail, n)
  last_loop-Runs (emits h r) zero d lt = absurd (omega arith)
  last_loop-Runs (emits {v = v} h r) (suc k) d lt = rw h (last_loop-Runs r k v (omega arith))

  -- `Last` returns the last item before the first error, or the zero value when there is none.
  pub last_lem :
      (zero_value : A) {o t : Obj S} {xs : List A} {e : GoError}
      → Runs (next s f) o xs e t
      → (k : ℕ) → length xs < k
      → last s f zero_value k o ≡ some (last_or zero_value xs, end_err e t, stop_now s t)
  unfolding last
  last_lem zero_value r k lt = rw (last_loop-Runs r k zero_value lt)

  any_loop-Runs :
      (p : A → Bool) {o t : Obj S} {xs : List A} {e : GoError}
      → Runs (next s f) o xs e t
      → (k : ℕ) → length xs < k
      → outcome (any_loop s f p k o)
        ≡ some (if holds_for_some p xs then (true, nil) else (false, end_err e t))
  unfolding any_loop
  any_loop-Runs p (ends h n) zero lt = absurd (omega arith)
  any_loop-Runs p (ends h n) (suc k) lt = rw (h, pull-fail, n)
  any_loop-Runs p (emits h r) zero lt = absurd (omega arith)
  any_loop-Runs p (emits {v = v} h r) (suc k) lt = rw h (ground (arith, any_loop-Runs p r k))

  outcome-stop {μ} : {R : Type μ} (r : Result R S) → outcome (deferring_stop s f r) ≡ outcome r
  outcome-stop none = refl
  outcome-stop (some (r, e, o)) = refl

  -- `Any` is true with no error when an item before the first error passes the test, and otherwise
  -- false with the error of the end.
  pub any_lem :
      (p : A → Bool) {o t : Obj S} {xs : List A} {e : GoError}
      → Runs (next s f) o xs e t
      → (k : ℕ) → length xs < k
      → outcome (any s f p k o)
        ≡ some (if holds_for_some p xs then (true, nil) else (false, end_err e t))
  unfolding any
  any_lem p r k lt = outcome-stop (any_loop s f p k _) ∙ any_loop-Runs p r k lt

  all_loop-Runs :
      (p : A → Bool) {o t : Obj S} {xs : List A} {e : GoError}
      → Runs (next s f) o xs e t
      → (k : ℕ) → length xs < k
      → outcome (all_loop s f p k o)
        ≡ some (if holds_for_all p xs then (is_eof e, end_err e t) else (false, nil))
  unfolding all_loop
  all_loop-Runs p (ends h n) zero lt = absurd (omega arith)
  all_loop-Runs p (ends h n) (suc k) lt = rw (h, pull-fail, n)
  all_loop-Runs p (emits h r) zero lt = absurd (omega arith)
  all_loop-Runs p (emits {v = v} h r) (suc k) lt = rw h (ground (arith, all_loop-Runs p r k))

  -- `All` is false with no error when an item before the first error fails the test. Otherwise it
  -- is true exactly when the end is EOF, with the error of the end.
  pub all_lem :
      (p : A → Bool) {o t : Obj S} {xs : List A} {e : GoError}
      → Runs (next s f) o xs e t
      → (k : ℕ) → length xs < k
      → outcome (all s f p k o)
        ≡ some (if holds_for_all p xs then (is_eof e, end_err e t) else (false, nil))
  unfolding all
  all_lem p r k lt = outcome-stop (all_loop s f p k _) ∙ all_loop-Runs p r k lt

  for_each_loop-Runs :
      (fn : A → GoError) {o t : Obj S} {xs : List A} {e : GoError}
      → Runs (next s f) o xs e t
      → (k : ℕ) → length xs < k
      → outcome (for_each_loop s f fn k o) ≡ some (tt, first_error fn xs (end_err e t))
  unfolding for_each_loop
  for_each_loop-Runs fn (ends h n) zero lt = absurd (omega arith)
  for_each_loop-Runs fn (ends h n) (suc k) lt = rw (h, pull-fail, n)
  for_each_loop-Runs fn (emits h r) zero lt = absurd (omega arith)
  for_each_loop-Runs fn (emits {v = v} h r) (suc k) lt =
      rw h (ground (arith, for_each_loop-Runs fn r k))

  -- `ForEach` returns the first error that the callback gives, and the error of the end when it
  -- gives none.
  pub for_each_lem :
      (fn : A → GoError) {o t : Obj S} {xs : List A} {e : GoError}
      → Runs (next s f) o xs e t
      → (k : ℕ) → length xs < k
      → outcome (for_each s f fn k o) ≡ some (tt, first_error fn xs (end_err e t))
  unfolding for_each
  for_each_lem fn r k lt = outcome-stop (for_each_loop s f fn k _) ∙ for_each_loop-Runs fn r k lt
