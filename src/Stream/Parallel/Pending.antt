-- ===== src/Stream/Parallel/Pending.antt =====
-- stream.go, `makeParallelNext`: the map of pending results against the results that are still due.
use scoped.Base.{
  ℕ, suc, ◌<◌, ◌≡◌, ◌⊎◌, inl, inr, refl, sym, ap, ◌∙◌, true, false, if◌then◌else◌, ◌==◌, none, some,
  List, [], ◌∷◌, arith, Bool-cases, pick_true, pick_false,
}
use scoped.Errors.{or_else}
use scoped.Stream.Defs.{Ret}
use scoped.Stream.Parallel.Defs.{IndexedResult, lookup, delete, insert}

eqb-cases : (i k : ℕ) → (i ≡ k) ⊎ (((i == k) ≡ false) × ((k == i) ≡ false))
eqb-cases i k = elim (Bool-cases (i == k)) [
  | inl same ↦ inl (ground arith)
  | inr ne ↦ inr (ne, ground arith)
]

eqb-same : (i k : ℕ) → i ≡ k → (i == k) ≡ true
eqb-same i k e = ground arith

module _ {ℓ} {B : Type ℓ} where
  -- No two results have the same index.
  abbrev pub Distinct : List (IndexedResult B) → Type ℓ
  Distinct [] = Unit
  Distinct (res ∷ rest) = (lookup res.idx rest ≡ none) × Distinct rest

  lookup-delete :
      (i j : ℕ) (p : List (IndexedResult B))
      → lookup i (delete j p) ≡ (if i == j then none else lookup i p)
  unfolding lookup delete
  lookup-delete i j [] = ground arith
  lookup-delete i j (res ∷ p) = ground (arith, lookup-delete i j p)

  lookup-insert :
      (i : ℕ) (res : IndexedResult B) (p : List (IndexedResult B))
      → lookup i (insert res p) ≡ (if res.idx == i then some res.ret else lookup i p)
  unfolding lookup insert
  lookup-insert i res p = ground (arith, lookup-delete i res.idx p)

  -- The results `rs` with the indices from `k` on.
  abbrev pub tagged : ℕ → List (Ret B) → List (IndexedResult B)
  tagged k [] = []
  tagged k (r ∷ rs) = record { idx = k; ret = r } ∷ tagged (suc k) rs

  tagged-below : (i k : ℕ) (rs : List (Ret B)) → i < k → lookup i (tagged k rs) ≡ none
  unfolding lookup
  tagged-below i k [] lt = refl
  tagged-below i k (r ∷ rs) lt = ground (arith, tagged-below i (suc k) rs)

  tagged-first : (k : ℕ) (r : Ret B) (rs : List (Ret B)) → lookup k (tagged k (r ∷ rs)) ≡ some r
  unfolding lookup
  tagged-first k r rs = ground arith

  lookup_self :
      (res : IndexedResult B) (p : List (IndexedResult B)) → lookup res.idx (res ∷ p) ≡ some res.ret
  unfolding lookup
  lookup_self res p = ground arith

  lookup-cons :
      (i : ℕ) (res : IndexedResult B) (p : List (IndexedResult B))
      → lookup i (res ∷ p) ≡ (if res.idx == i then some res.ret else lookup i p)
  unfolding lookup
  lookup-cons i res p = refl

  -- Of the results `rs` from index `k` on, those in `p` have arrived and those in `q` are to come.
  pub record Due (k : ℕ) (rs : List (Ret B)) (p q : List (IndexedResult B)) : Type ℓ where
    pub content : (i : ℕ) → or_else (lookup i p) (lookup i q) ≡ lookup i (tagged k rs)
    pub disjoint : (i : ℕ) → (lookup i p ≡ none) ⊎ (lookup i q ≡ none)
    pub distinct : Distinct q

  pub arrive :
      (k : ℕ) (rs : List (Ret B)) (p q : List (IndexedResult B)) (res : IndexedResult B)
      → Due k rs p (res ∷ q)
      → Due k rs (insert res p) q
  arrive k rs p q res d = record {
    content = λ i.
        ground (
          arith,
          d.content i,
          d.disjoint i,
          d.distinct,
          lookup-insert i res p,
          lookup-cons i res q,
        );
    disjoint =
        λ i. ground (arith, d.disjoint i, d.distinct, lookup-insert i res p, lookup-cons i res q);
    distinct = d.distinct.1;
  }

  tagged-none : (i k : ℕ) (rs : List (Ret B)) → i ≡ k → none ≡ lookup i (tagged (suc k) rs)
  tagged-none i k rs same = sym (tagged-below i (suc k) rs (omega arith))

  content-given :
      (i k : ℕ) (r : Ret B) (rs : List (Ret B)) (p q : List (IndexedResult B))
      → i ≡ k
      → lookup k p ≡ some r
      → Due k (r ∷ rs) p q
      → or_else (lookup i (delete k p)) (lookup i q) ≡ lookup i (tagged (suc k) rs)
  content-given i k r rs p q same at d =
      let there : lookup i p ≡ some r = ap (λ j. lookup j p) same ∙ at in
      let gone : lookup i (delete k p) ≡ none =
        lookup-delete i k p ∙ pick_true _ _ (eqb-same i k same) in
      elim (d.disjoint i) [
        | inl empty ↦ cc
        | inr none_left ↦
            ap (λ o. or_else o (lookup i q)) gone ∙ none_left ∙ tagged-none i k rs same
      ]

  pub give :
      (k : ℕ) (r : Ret B) (rs : List (Ret B)) (p q : List (IndexedResult B))
      → lookup k p ≡ some r
      → Due k (r ∷ rs) p q
      → Due (suc k) rs (delete k p) q
  give k r rs p q at d = record {
    content = λ i. elim (eqb-cases i k) [
      | inl same ↦ content-given i k r rs p q same at d
      | inr (ne, ne') ↦
          ap (λ o. or_else o (lookup i q)) (lookup-delete i k p ∙ pick_false _ _ ne)
          ∙ d.content i
          ∙ lookup-cons i (record { idx = k; ret = r }) (tagged (suc k) rs)
          ∙ pick_false _ _ ne'
    ];
    disjoint = λ i. ground (arith, d.disjoint i, lookup-delete i k p);
    distinct = d.distinct;
  }

  pub Due-first :
      (k : ℕ) (r x : Ret B) (rs : List (Ret B)) (p q : List (IndexedResult B))
      → Due k (r ∷ rs) p q
      → lookup k p ≡ some x
      → x ≡ r
  Due-first k r x rs p q d h = ground (arith, d.content k, tagged-first k r rs)

  pub Due-empty :
      (k : ℕ) (r : Ret B) (rs : List (Ret B)) (p : List (IndexedResult B))
      → Due k (r ∷ rs) p []
      → lookup k p ≡ none
      → ⊥
  unfolding lookup
  Due-empty k r rs p d h = ground (arith, d.content k, tagged-first k r rs)

  pub Due-over : (k : ℕ) (p q : List (IndexedResult B)) → Due k [] p q → (p ≡ []) × (q ≡ [])
  unfolding lookup
  Due-over k [] [] d = (refl, refl)
  Due-over k [] (res ∷ q) d = absurd (ground (arith, d.content res.idx, lookup_self res q))
  Due-over k (res ∷ p) q d = absurd (ground (arith, d.content res.idx, lookup_self res p))
