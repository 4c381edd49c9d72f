-- ===== src/Stream/Parallel/Indices.antt =====
-- stream.go, `ParallelMap`: where the result of each index is.
use scoped.Base.{
  ℕ, suc, ◌+◌, ◌<◌, ◌≡◌, refl, if◌then◌else◌, ◌==◌, ltb, none, some, List, [], ◌∷◌, arith, length,
  total,
}
use scoped.Stream.Defs.{Ret}
use scoped.Stream.Parallel.Defs.{IndexedResult, lookup, delete, insert}

-- 1 where two indices are the same, and 1 where an index is below a bound.
abbrev pub same : ℕ → ℕ → ℕ
same i j = if j == i then 1 else 0

abbrev pub below : ℕ → ℕ → ℕ
below n i = if ltb i n then 1 else 0

module _ {ℓ} {B : Type ℓ} where
  abbrev pub result_at : ℕ → IndexedResult B → ℕ
  result_at i r = same i r.idx

  pub delete-count :
      (i j : ℕ) (p : List (IndexedResult B))
      → total (result_at i) (delete j p) ≡ (if j == i then 0 else total (result_at i) p)
  unfolding delete
  delete-count i j [] = ground arith
  delete-count i j (r ∷ p) = ground (arith, delete-count i j p)

  pub length-delete :
      (j : ℕ) (p : List (IndexedResult B)) → length (delete j p) + total (result_at j) p ≡ length p
  unfolding delete
  length-delete j [] = refl
  length-delete j (r ∷ p) = ground (arith, length-delete j p)

  pub insert-count :
      (i : ℕ) (r : IndexedResult B) (p : List (IndexedResult B))
      → total (result_at r.idx) p ≡ 0
      → total (result_at i) (insert r p) ≡ result_at i r + total (result_at i) p
  unfolding insert
  insert-count i r p h = ground (arith, delete-count i r.idx p)

  pub length-insert :
      (r : IndexedResult B) (p : List (IndexedResult B))
      → total (result_at r.idx) p ≡ 0
      → length (insert r p) ≡ suc (length p)
  unfolding insert
  length-insert r p h = omega (arith, length-delete r.idx p)

  pub lookup-count :
      (i : ℕ) (p : List (IndexedResult B)) (x : Ret B)
      → lookup i p ≡ some x
      → 0 < total (result_at i) p
  unfolding lookup
  lookup-count i [] x h = cc
  lookup-count i (r ∷ p) x h = ground (arith, lookup-count i p x)

  pub count-lookup :
      (i : ℕ) (p : List (IndexedResult B)) → lookup i p ≡ none → total (result_at i) p ≡ 0
  unfolding lookup
  count-lookup i [] h = refl
  count-lookup i (r ∷ p) h = ground (arith, count-lookup i p)
