-- ===== src/Stream/Yielding.antt =====
-- What the streams of Stream/Combinators.antt yield, for a source that yields given items and ends
-- with a given error.
use scoped.Base.{
  ℕ, zero, suc, ◌-◌, ◌<◌, ◌≡◌, inl, inr, sym, ap, ◌∙◌, Bool, true, false, if◌then◌else◌, Bool-cases,
  List, [], ◌∷◌, ◌++◌, append_assoc, append-nil, arith, length, select, fold,
}
use scoped.Errors.Laws.{is_nil-nil}
use scoped.Errors.{GoError, is_nil}
use scoped.Stream.Defs.{Ret, Stream, Obj, next, pull-fail, ok, fail}
use scoped.Stream.Runs.{Runs, ends, emits, Runs-first}
use scoped.Stream.Combinators.{filter, filter_loop, map, map_next, peek, peek_next, scan, scan_next}

-- The items that a mapper turns the source's into, up to its first error, and the error it ends with.
abbrev pub mapped {ℓ κ} : {A : Type ℓ} {B : Type κ} → (A → Ret B) → List A → List B
mapped fn [] = []
mapped fn (x ∷ xs) = if is_nil (fn x).err then (fn x).val ∷ mapped fn xs else []

abbrev pub mapped_err {ℓ κ} : {A : Type ℓ} {B : Type κ} → (A → Ret B) → List A → GoError → GoError
mapped_err fn [] e = e
mapped_err fn (x ∷ xs) e = if is_nil (fn x).err then mapped_err fn xs e else (fn x).err

-- The running values of a fold.
abbrev pub scanned {ℓ κ} : {A : Type ℓ} {R : Type κ} → (R → A → R) → R → List A → List R
scanned fn acc [] = []
scanned fn acc (x ∷ xs) = fn acc x ∷ scanned fn (fn acc x) xs

module _ {ℓ κ} {S : Type ℓ} {A : Type κ} (s : Stream S A) (f : ℕ) where
  filter_loop-fail :
      (p : A → Bool) (k : ℕ) (o : Obj S) {t : Obj S} {v : A} {e : GoError}
      → next s f o ≡ fail v e t
      → is_nil e ≡ false
      → filter_loop s p f (suc k) o ≡ fail v e t
  unfolding filter_loop
  filter_loop-fail p k o h n = rw (h, pull-fail, n)

  filter_loop-keep :
      (p : A → Bool) (k : ℕ) (o : Obj S) {t : Obj S} {v : A}
      → next s f o ≡ ok v t
      → p v ≡ true
      → filter_loop s p f (suc k) o ≡ ok v t
  unfolding filter_loop
  filter_loop-keep p k o h keep = rw h (ground arith)

  filter_loop-skip :
      (p : A → Bool) (k : ℕ) (o : Obj S) {t : Obj S} {v : A}
      → next s f o ≡ ok v t
      → p v ≡ false
      → filter_loop s p f (suc k) o ≡ filter_loop s p f k t
  unfolding filter_loop
  filter_loop-skip p k o h skipped = rw h (ground arith)

  -- A call of `Filter` gives the same for any fuel above the items left.
  filter_loop-fuel :
      (p : A → Bool) {o t : Obj S} {xs : List A} {e : GoError}
      → Runs (next s f) o xs e t
      → (k j : ℕ) → length xs < k
      → length xs < j
      → filter_loop s p f k o ≡ filter_loop s p f j o
  filter_loop-fuel p r zero j lt lt' = absurd (omega arith)
  filter_loop-fuel p r (suc k) zero lt lt' = absurd (omega arith)
  filter_loop-fuel p {o = o} (ends h n) (suc k) (suc j) lt lt' =
      filter_loop-fail p k o h n ∙ sym (filter_loop-fail p j o h n)
  filter_loop-fuel p {o = o} (emits {t = o'} {v = v} h r) (suc k) (suc j) lt lt' =
      elim (Bool-cases (p v)) [
        | inl kept ↦ filter_loop-keep p k o h kept ∙ sym (filter_loop-keep p j o h kept)
        | inr skipped ↦
            filter_loop-skip p k o h skipped
            ∙ filter_loop-fuel p {o = o'} r k j (omega arith) (omega arith)
            ∙ sym (filter_loop-skip p j o h skipped)
      ]

  one_more :
      (p : A → Bool) (o : Obj S) → 0 < f → filter_loop s p f f o ≡ filter_loop s p f (suc (f - 1)) o
  one_more p o lt = ap (λ k. filter_loop s p f k o) (omega arith)

  -- `Filter` yields the items that pass the test, in order, and ends as its source does.
  pub filter-Runs :
      (p : A → Bool) {o t : Obj S} {xs : List A} {e : GoError}
      → Runs (next s f) o xs e t
      → length xs < f
      → Runs ((filter s p).next f) o (select p xs) e t
  unfolding filter
  filter-Runs p {o = o} (ends h n) lt =
      ends (one_more p o (omega arith) ∙ filter_loop-fail p (f - 1) o h n) n
  filter-Runs p {o = o} (emits {v = v} h r) lt = elim (Bool-cases (p v)) [
    | inl kept ↦ rw kept (
        emits (one_more p o (omega arith) ∙ filter_loop-keep p (f - 1) o h kept)
          (filter-Runs p r (omega arith)))
    | inr skipped ↦ rw skipped (
        Runs-first
          (one_more p o (omega arith)
            ∙ filter_loop-skip p (f - 1) o h skipped
            ∙ filter_loop-fuel p r (f - 1) f (omega arith) (omega arith))
          (filter-Runs p r (omega arith)))
  ]

  -- `Map` yields the mapper's results up to its first error, and ends with that error, or as its
  -- source does when the mapper gives none.
  pub map-Runs {μ} :
      {B : Type μ} (zero_value : B) (fn : A → Ret B) {o t : Obj S} {xs : List A} {e : GoError}
      → Runs (next s f) o xs e t
      → (u : Obj S) × Runs ((map s zero_value fn).next f) o (mapped fn xs) (mapped_err fn xs e) u
  unfolding map map_next
  map-Runs zero_value fn {t = t} (ends h n) = (t, ends {v = zero_value} (rw (h, pull-fail, n)) n)
  map-Runs zero_value fn (emits {t = o'} {v = v} h r) = elim (Bool-cases (is_nil (fn v).err)) [
    | inl fine ↦
        let (u, rest) = map-Runs zero_value fn r in
        (u, rw fine (emits (rw h (ground (arith, is_nil-nil (fn v).err))) rest))
    | inr failed ↦ (o', rw failed (ends {v = (fn v).val} (rw h) failed))
  ]

  -- `Scan` yields the running values of the fold, and ends as its source does.
  pub scan-Runs {μ} :
      {R : Type μ} (zero_value : R) (fn : R → A → R) (acc : R)
      → {o t : Obj S} {xs : List A} {e : GoError} → Runs (next s f) o xs e t
      → Runs
          ((scan s zero_value fn).next f)
          (record { src = o; acc = acc })
          (scanned fn acc xs)
          e
          (record { src = t; acc = fold fn acc xs })
  unfolding scan scan_next
  scan-Runs zero_value fn acc (ends h n) = ends {v = zero_value} (rw (h, pull-fail, n)) n
  scan-Runs zero_value fn acc (emits {v = v} h r) =
      emits (rw h) (scan-Runs zero_value fn (fn acc v) r)

  -- `Peek` yields what its source does, and its callback has seen each item once, in order.
  pub peek-Runs :
      (seen : List A) {o t : Obj S} {xs : List A} {e : GoError}
      → Runs (next s f) o xs e t
      → Runs
          ((peek s).next f)
          (record { src = o; calls = seen })
          xs
          e
          (record { src = t; calls = seen ++ xs })
  unfolding peek peek_next
  peek-Runs seen (ends {v = v} h n) = rw (append-nil seen) (ends {v = v} (rw (h, pull-fail, n)) n)
  peek-Runs seen (emits {v = v} {xs = xs} h r) =
      emits (rw h) (rw (append_assoc seen (v ∷ []) xs) at (peek-Runs (seen ++ v ∷ []) r))
