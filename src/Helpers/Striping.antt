-- ===== src/Helpers/Striping.antt =====
-- helpers.go, `ForEachSlice` and `MapSlice`: the workers share the indices of the slice out.
use scoped.Base.{
  ℕ, zero, suc, ◌+◌, ◌<◌, ◌≤◌, ◌≡◌, refl, ap, ◌∙◌, sym, true, inl, inr, Bool-cases, leb, leb→le,
  leb_false→lt, ◌⊎◌, ◌==◌, if◌then◌else◌, List, [], ◌∷◌, ltb, arith, total,
}
use scoped.Errors.{GoError, is_nil}
use scoped.Helpers.Defs.{worker_count, run_worker}

-- The indices of `for i := start; i < n; i += workers`, with `k` rounds of fuel.
unfoldable stripe : ℕ → ℕ → ℕ → ℕ → List ℕ
stripe zero n workers i = []
stripe (suc k) n workers i =
    let rest = stripe k n workers (i + workers) in if ltb i n then i ∷ rest else []

abbrev same : ℕ → ℕ → ℕ
same i j = if j == i then 1 else 0

-- How often `i` is in a list.
abbrev pub occurrences : ℕ → List ℕ → ℕ
occurrences i xs = total (same i) xs

-- The sum of `f` over `m` numbers from `a` on.
abbrev pub across : ℕ → ℕ → (ℕ → ℕ) → ℕ
across a zero f = 0
across a (suc m) f = f a + across (suc a) m f

at_sum : (f : ℕ → ℕ) (a m b : ℕ) → a + m ≡ b → f (a + m) ≡ f b
at_sum f a m b q = ap f q

across-shift : (m a : ℕ) (f : ℕ → ℕ) → across a m f + f (a + m) ≡ f a + across (suc a) m f
across-shift zero a f = omega (arith, at_sum f a 0 a (omega arith))
across-shift (suc m) a f =
    omega (arith, across-shift m (suc a) f, at_sum f (suc a) m (a + suc m) (omega arith))

across-zero : (m a i : ℕ) (f : ℕ → ℕ) → ((s : ℕ) → i < s → f s ≡ 0) → i < a → across a m f ≡ 0
across-zero zero a i f h lt = refl
across-zero (suc m) a i f h lt = omega (arith, h a lt, across-zero m (suc a) i f h (omega arith))

-- Enough rounds of fuel are as good as any more.
stripe-fuel : (k j n w s : ℕ) → 0 < w → n ≤ s + k → n ≤ s + j → stripe k n w s ≡ stripe j n w s
unfolding stripe
stripe-fuel zero zero n w s pos le le' = refl
stripe-fuel zero (suc j) n w s pos le le' = ground arith
stripe-fuel (suc k) zero n w s pos le le' = ground arith
stripe-fuel (suc k) (suc j) n w s pos le le' =
    rw (stripe-fuel k j n w (s + w) pos (omega arith) (omega arith)) refl

worker_count-bounds :
    (limit n : ℕ) → 0 < n → (0 < worker_count limit n) × (worker_count limit n ≤ n)
unfolding worker_count
worker_count-bounds limit n pos = ground arith

same-eq : (i a : ℕ) → a ≡ i → same i a ≡ 1
same-eq i a q = ground (arith, q)

same-before : (i a : ℕ) → a < i → same i a ≡ 0
same-before i a lt = ground arith

leb-cases : (n s : ℕ) → (n ≤ s) ⊎ (s < n)
leb-cases n s = elim (Bool-cases (leb n s)) [
  | inl le ↦ inl (leb→le n s le)
  | inr gt ↦ inr (leb_false→lt n s gt)
]

module _ (n w i : ℕ) (pos : 0 < w) (inside : i < n) where
  abbrev handled : ℕ → ℕ
  handled s = occurrences i (stripe n n w s)

  stripe-beyond : (k s : ℕ) → i < s → occurrences i (stripe k n w s) ≡ 0
  unfolding stripe
  stripe-beyond zero s lt = refl
  stripe-beyond (suc k) s lt = ground (arith, stripe-beyond k (s + w) (omega arith))

  stripe-step :
      (k s : ℕ)
      → s < n
      → occurrences i (stripe (suc k) n w s) ≡ same i s + occurrences i (stripe k n w (s + w))
  unfolding stripe
  stripe-step k s lt = ground arith

  same-beyond : (s : ℕ) → i < s → same i s ≡ 0
  same-beyond s lt = ground arith

  -- What the stripe from `s` has over the one that starts a round later.
  handled-first : (s : ℕ) → handled s ≡ same i s + handled (s + w)
  handled-first s = elim (leb-cases n s) [
    | inl le ↦ omega (
      arith,
      same-beyond s (omega arith),
      stripe-beyond n s (omega arith),
      stripe-beyond n (s + w) (omega arith),
    )
    | inr lt ↦
        ap (occurrences i) (stripe-fuel n (suc n) n w s pos (omega arith) (omega arith))
        ∙ stripe-step n s lt
  ]

  window-step : (a : ℕ) → across a w handled ≡ same i a + across (suc a) w handled
  window-step a = omega (arith, across-shift w a handled, handled-first a)

  window-beyond : (a : ℕ) → i < a → across a w handled ≡ 0
  window-beyond a lt = across-zero w a i handled (λ s l. stripe-beyond n s l) lt

  window-within : (d a : ℕ) → a + d ≡ i → across a w handled ≡ 1
  window-within zero a q =
      omega (arith, window-step a, window-beyond (suc a) (omega arith), same-eq i a (omega arith))
  window-within (suc d) a q =
      omega
        (arith, window-step a, window-within d (suc a) (omega arith), same-before i a (omega arith))

  -- With `workers > 0` the stripes of the workers 0, …, workers - 1 together have each index once.
  striped : across 0 w handled ≡ 1
  striped = window-within i 0 (omega arith)

-- More fuel than there are indices makes no difference to a worker.
pub run_worker-fuel :
    (ctx fn : ℕ → GoError) (k j n w s : ℕ)
    → 0 < w
    → n ≤ s + k
    → n ≤ s + j
    → run_worker ctx fn k n w s ≡ run_worker ctx fn j n w s
unfolding run_worker
run_worker-fuel ctx fn zero zero n w s pos le le' = refl
run_worker-fuel ctx fn zero (suc j) n w s pos le le' = ground arith
run_worker-fuel ctx fn (suc k) zero n w s pos le le' = ground arith
run_worker-fuel ctx fn (suc k) (suc j) n w s pos le le' =
    rw (run_worker-fuel ctx fn k j n w (s + w) pos (omega arith) (omega arith)) refl

module _ (ctx fn : ℕ → GoError) (n w i : ℕ) where
  abbrev called : ℕ → ℕ → ℕ
  called k s = occurrences i (run_worker ctx fn k n w s).0

  -- Returning early, a worker leaves indices out, and calls none twice.
  called-le : (k s : ℕ) → called k s ≤ occurrences i (stripe k n w s)
  unfolding stripe run_worker
  called-le zero s = omega arith
  called-le (suc k) s = ground (arith, called-le k (s + w))

  module _ (pos : 0 < w) (inside : i < n) (live : (j : ℕ) → j ≤ i → is_nil (ctx j) ≡ true)
      (fine : (j : ℕ) → j < i → is_nil (fn j) ≡ true) where
    called-at : (k s : ℕ) → s ≡ i → called (suc k) s ≡ 1
    unfolding run_worker
    called-at k s q = ground (
      arith,
      live s (omega (arith, q)),
      same-eq i s q,
      called-le k (s + w),
      stripe-beyond n w i pos inside k (s + w) (omega (arith, q)),
    )

    called-before : (k s : ℕ) → s < i → called (suc k) s ≡ called k (s + w)
    unfolding run_worker
    called-before k s lt =
        ground (arith, live s (omega arith), fine s (omega arith), same-before i s (omega arith))

    stripe-one : (k s : ℕ) → s ≡ i → occurrences i (stripe (suc k) n w s) ≡ 1
    stripe-one k s q = omega (
      arith,
      stripe-step n w i pos inside k s (omega (arith, q)),
      same-eq i s q,
      stripe-beyond n w i pos inside k (s + w) (omega (arith, q)),
    )

    stripe-later :
        (k s : ℕ)
        → s < i
        → occurrences i (stripe (suc k) n w s) ≡ occurrences i (stripe k n w (s + w))
    stripe-later k s lt =
        omega (arith, stripe-step n w i pos inside k s (omega arith), same-before i s lt)

    called-stripe : (k s : ℕ) → called k s ≡ occurrences i (stripe k n w s)
    unfolding run_worker stripe
    called-stripe zero s = refl
    called-stripe (suc k) s = elim (leb-cases (suc i) s) [
      | inl beyond ↦
          omega (arith, called-le (suc k) s, stripe-beyond n w i pos inside (suc k) s (omega arith))
      | inr lt ↦ elim (leb-cases i s) [
        | inl le ↦ called-at k s (omega arith) ∙ sym (stripe-one k s (omega arith))
        | inr before ↦
            called-before k s before ∙ called-stripe k (s + w) ∙ sym (stripe-later k s before)
      ]
    ]

across-eq : (m a : ℕ) (f g : ℕ → ℕ) → ((s : ℕ) → f s ≡ g s) → across a m f ≡ across a m g
across-eq zero a f g h = refl
across-eq (suc m) a f g h = omega (arith, h a, across-eq m (suc a) f g h)

across-le : (m a : ℕ) (f g : ℕ → ℕ) → ((s : ℕ) → f s ≤ g s) → across a m f ≤ across a m g
across-le zero a f g h = omega arith
across-le (suc m) a f g h = omega (arith, h a, across-le m (suc a) f g h)

-- Whatever the limit, and whatever the context and the function do, the workers together call the
-- function at most once for each index of the slice, and there is a worker for a slice that has
-- items, and no more workers than items.
pub each_index_at_most_once :
    (ctx fn : ℕ → GoError) (limit n i : ℕ)
    → i < n
    → (across 0
          (worker_count limit n)
          (λ start. occurrences i (run_worker ctx fn n n (worker_count limit n) start).0)
        ≤ 1)
      × (0 < worker_count limit n)
      × (worker_count limit n ≤ n)
each_index_at_most_once ctx fn limit n i lt =
    let workers = worker_count limit n in
    let (pos, few) = worker_count-bounds limit n (omega arith) in
    (
      omega (
        arith,
        striped n workers i pos lt,
        across-le workers 0 (called ctx fn n workers i n)
            (λ s. occurrences i (stripe n n workers s)) (called-le ctx fn n workers i n),
      ),
      pos,
      few,
    )

-- When the context has not ended in the rounds of the indices up to `i`, and the function has
-- failed for none before `i`, the workers together call it exactly once for the index `i`.
pub each_index_once :
    (ctx fn : ℕ → GoError) (limit n i : ℕ)
    → i < n
    → ((j : ℕ) → j ≤ i → is_nil (ctx j) ≡ true)
    → ((j : ℕ) → j < i → is_nil (fn j) ≡ true)
    → across 0
        (worker_count limit n)
        (λ start. occurrences i (run_worker ctx fn n n (worker_count limit n) start).0)
      ≡ 1
each_index_once ctx fn limit n i lt live fine =
    let workers = worker_count limit n in
    let (pos, few) = worker_count-bounds limit n (omega arith) in
    across-eq workers 0 (called ctx fn n workers i n) (λ s. occurrences i (stripe n n workers s))
      (called-stripe ctx fn n workers i pos lt live fine n)
    ∙ striped n workers i pos lt
