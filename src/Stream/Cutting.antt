-- ===== src/Stream/Cutting.antt =====
-- stream.go, `Take`, `Skip` and `TakeWhile`: which part of the source's items they yield.
use scoped.Base.{
  ℕ, zero, suc, ◌+◌, ◌-◌, ◌≤◌, ◌<◌, ◌≡◌, ◌⊎◌, inl, inr, refl, sym, ap, subst, ◌∙◌, Bool, true,
  false, ◌&&◌, if◌then◌else◌, leb, leb→le, Bool-cases, List, [], ◌∷◌, arith, length, le→leb,
  lt→leb_false,
}
use scoped.Base
use scoped.Errors.{GoError, eof, is_nil}
use scoped.Stream.Defs.{Stream, Obj, next, stop_now, pull-fail, ok, fail}
use scoped.Stream.Runs.{Runs, ends, emits, Runs-first, stop_now-stopped}
use scoped.Stream.Combinators.{
  Counting, take, take_next, skip, skip_loop, take_while, take_while_next,
}

abbrev pub prefix_while {ℓ} : {A : Type ℓ} → (A → Bool) → List A → List A
prefix_while p [] = []
prefix_while p (x ∷ xs) = if p x then x ∷ prefix_while p xs else []

abbrev pub all_pass {ℓ} : {A : Type ℓ} → (A → Bool) → List A → Bool
all_pass p [] = true
all_pass p (x ∷ xs) = if p x then all_pass p xs else false

-- The error with which `Take` ends.
abbrev taken_err {ℓ} : {A : Type ℓ} → ℕ → List A → GoError → GoError
taken_err zero xs e = eof
taken_err (suc k) [] e = e
taken_err (suc k) (x ∷ xs) e = taken_err k xs e

taken_err-leb {ℓ} :
    {A : Type ℓ} (k : ℕ) (xs : List A) (e : GoError)
    → taken_err k xs e ≡ (if leb k (length xs) then eof else e)
taken_err-leb zero xs e = ground arith
taken_err-leb (suc k) [] e = ground arith
taken_err-leb (suc k) (x ∷ xs) e = ground (arith, taken_err-leb k xs e)

module _ {ℓ κ} {S : Type ℓ} {A : Type κ} (s : Stream S A) (f : ℕ) where
  take-stop :
      (z : A) (n i : ℕ) (o : Obj S)
      → n ≤ i
      → take_next s z n f (record { src = o; idx = i })
        ≡ fail z eof (record { src = stop_now s o; idx = i })
  unfolding take_next
  take-stop z n i o le = ground arith

  take-fail :
      (z : A) (n i : ℕ) (o : Obj S) {t : Obj S} {v : A} {e : GoError}
      → i < n
      → next s f o ≡ fail v e t
      → is_nil e ≡ false
      → take_next s z n f (record { src = o; idx = i }) ≡ fail v e (record { src = t; idx = i })
  unfolding take_next
  take-fail z n i o lt h ne = rw (lt→leb_false n i lt) (rw (h, pull-fail, ne))

  take-keep :
      (z : A) (n i : ℕ) (o : Obj S) {t : Obj S} {v : A}
      → i < n
      → next s f o ≡ ok v t
      → take_next s z n f (record { src = o; idx = i }) ≡ ok v (record { src = t; idx = suc i })
  unfolding take_next
  take-keep z n i o lt h = rw (lt→leb_false n i lt) (rw h)

  take-from :
      (z : A) (n k i : ℕ)
      → i + k ≡ n
      → {o t : Obj S} {xs : List A} {e : GoError} → Runs (next s f) o xs e t
      → (c : Counting S) × Runs
          (take_next s z n f)
          (record { src = o; idx = i })
          (Base.take k xs)
          (taken_err k xs e)
          c
        × (k ≤ length xs → c.src.stopped ≡ true)
  take-from z n zero i q {o} r = (
    record { src = stop_now s o; idx = i },
    ends (take-stop z n i o (omega arith)) refl,
    λ _. stop_now-stopped s o,
  )
  take-from z n (suc k) i q {o} (ends {t = t} h ne) = (
    record { src = t; idx = i },
    ends (take-fail z n i o (omega arith) h ne) ne,
    λ lt. absurd (omega arith),
  )
  take-from z n (suc k) i q {o} (emits h r) =
      let (c, rest, stopped) = take-from z n k (suc i) (omega arith) r in
      (c, emits (take-keep z n i o (omega arith) h) rest, λ le. stopped (omega arith))

  -- `Take` of n yields the first n items. With n items there it then stops the source and ends with
  -- EOF; with fewer it ends as its source does.
  pub take-Runs :
      (zero_value : A) (n : ℕ) {o t : Obj S} {xs : List A} {e : GoError}
      → Runs (next s f) o xs e t
      → (c : Counting S) × Runs
          ((take s zero_value n).next f)
          (record { src = o; idx = 0 })
          (Base.take n xs)
          (if leb n (length xs) then eof else e)
          c
        × ((if leb n (length xs) then c.src.stopped else true) ≡ true)
  unfolding take
  take-Runs z n {o = o} {xs = xs} {e = e} r =
      let (c, rest, stopped) = take-from z n n 0 (omega arith) r in
      (
        c,
        subst (λ d. Runs (take_next s z n f) (record { src = o; idx = 0 }) (Base.take n xs) d c)
            (taken_err-leb n xs e) rest,
        elim (Bool-cases (leb n (length xs))) [
          | inl enough ↦ rw enough (stopped (leb→le n (length xs) enough))
          | inr short ↦ rw short refl
        ],
      )

  skip-drop :
      (z : A) (j k i : ℕ) (o : Obj S) {t : Obj S} {v : A}
      → j ≡ suc k
      → next s f o ≡ ok v t
      → skip_loop s z f j (record { src = o; idx = i })
        ≡ skip_loop s z f k (record { src = t; idx = suc i })
  unfolding skip_loop
  skip-drop z j k i o q h = rw q (rw h)

  skip-fail :
      (z : A) (j i : ℕ) (o : Obj S) {t : Obj S} {v : A} {e : GoError}
      → next s f o ≡ fail v e t
      → is_nil e ≡ false
      → (w : A) × (skip_loop s z f j (record { src = o; idx = i })
          ≡ fail w e (record { src = t; idx = i }))
  unfolding skip_loop
  skip-fail z zero i o {v = v} h ne = (v, rw (h, pull-fail, ne))
  skip-fail z (suc j) i o h ne = (z, rw (h, pull-fail, ne))

  skip-pass :
      (z : A) (j i : ℕ) (o : Obj S) {t : Obj S} {v : A}
      → j ≡ 0
      → next s f o ≡ ok v t
      → skip_loop s z f j (record { src = o; idx = i }) ≡ ok v (record { src = t; idx = i })
  unfolding skip_loop
  skip-pass z j i o q h = rw q (rw h)

  drop-empty : (k : ℕ) → Base.drop {A = A} k [] ≡ []
  drop-empty zero = refl
  drop-empty (suc k) = refl

  skip-from :
      (z : A) (n k i : ℕ)
      → n ≡ i + k ⊎ (n ≤ i) × (k ≡ 0)
      → {o t : Obj S} {xs : List A} {e : GoError} → Runs (next s f) o xs e t
      → (c : Counting S) × Runs
          ((skip s z n).next f)
          (record { src = o; idx = i })
          (Base.drop k xs)
          e
          c
        × (c.src ≡ t)
  unfolding skip
  skip-from z n k i q {o} {t} (ends h ne) =
      let (w, stopped) = skip-fail z (n - i) i o h ne in
      (record { src = t; idx = i }, rw (drop-empty k) (ends stopped ne), refl)
  skip-from z n zero i q {o} (emits h r) =
      let (c, rest, same) = skip-from z n zero i q r in
      (c, emits (skip-pass z (n - i) i o (omega arith) h) rest, same)
  skip-from z n (suc k) i q {o} (emits h r) =
      let (c, rest, same) = skip-from z n k (suc i) (inl (omega arith)) r in
      (c, Runs-first (skip-drop z (n - i) (n - suc i) i o (omega arith) h) rest, same)

  -- `Skip` of n yields what follows the first n items, and ends as its source does.
  pub skip-Runs :
      (zero_value : A) (n : ℕ) {o t : Obj S} {xs : List A} {e : GoError}
      → Runs (next s f) o xs e t
      → (c : Counting S) × Runs
          ((skip s zero_value n).next f)
          (record { src = o; idx = 0 })
          (Base.drop n xs)
          e
          c
        × (c.src ≡ t)
  skip-Runs z n r = skip-from z n n 0 (inl (omega arith)) r

  -- `TakeWhile` yields the items before the first that fails the test, and ends with EOF there; if
  -- none fails it ends as its source does.
  pub take_while-Runs :
      (zero_value : A) (p : A → Bool) {o t : Obj S} {xs : List A} {e : GoError}
      → Runs (next s f) o xs e t
      → (u : Obj S) × Runs
          ((take_while s zero_value p).next f)
          o
          (prefix_while p xs)
          (if all_pass p xs then e else eof)
          u
        × (u.stopped ≡ (if all_pass p xs then t.stopped else true))
  unfolding take_while take_while_next
  take_while-Runs zero_value p {t = t} (ends {v = v} h n) =
      (t, ends {v = v} (rw (h, pull-fail, n)) n, refl)
  take_while-Runs zero_value p (emits {t = o'} {v = v} h r) = elim (Bool-cases (p v)) [
    | inl kept ↦
        let (u, rest, stopped) = take_while-Runs zero_value p r in
        (u, rw kept (emits (rw h (ground arith)) rest), rw kept stopped)
    | inr dropped ↦ (
      stop_now s o',
      rw dropped (ends {v = zero_value} (rw h (ground arith)) refl),
      rw dropped (stop_now-stopped s o'),
    )
  ]
