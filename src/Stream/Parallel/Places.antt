-- ===== src/Stream/Parallel/Places.antt =====
-- stream.go, `ParallelMap`: an item by its index, and a result by the index that it carries.
use scoped.Base.{
  ℕ, zero, suc, ◌≡◌, ◌∙◌, sym, ap, subst, true, ◌==◌, Bool-cases, pick_true, pick_false, inl, inr,
  some, List, [], ◌∷◌, ◌++◌, arith, take, drop, All, get_elem?,
}
use scoped.Stream.Defs.{Ret}
use scoped.Stream.Parallel.Defs.{IndexedResult, lookup, delete}
use scoped.Stream.Parallel.System.{Pc, indexing, gating, adding, slotting, launching}

module _ {ℓ} {A : Type ℓ} where
  pub drop-head :
      (xs : List A) (i : ℕ) (y : A) (ys : List A)
      → drop i xs ≡ y ∷ ys
      → (get_elem? xs i ≡ some y) × (drop (suc i) xs ≡ ys)
  drop-head [] zero y ys h = cc
  drop-head [] (suc i) y ys h = cc
  drop-head (x ∷ xs) zero y ys h = (ground arith, ground arith)
  drop-head (x ∷ xs) (suc i) y ys h = drop-head xs i y ys h

  pub take-snoc :
      (xs : List A) (i : ℕ) (x : A)
      → get_elem? xs i ≡ some x
      → take (suc i) xs ≡ take i xs ++ x ∷ []
  take-snoc [] i x h = cc
  take-snoc (y ∷ xs) zero x h = ground arith
  take-snoc (y ∷ xs) (suc i) x h = ap (λ l. y ∷ l) (take-snoc xs i x h)

  -- The item that the source gave and that has no index yet.
  abbrev pub pc_items : Pc A → List A
  pc_items (indexing v) = v ∷ []
  pc_items _ = []

  abbrev pub PcHas : List A → Pc A → Type ℓ
  PcHas items (gating i v) = get_elem? items i ≡ some v
  PcHas items (adding i v) = get_elem? items i ≡ some v
  PcHas items (slotting i v) = get_elem? items i ≡ some v
  PcHas items (launching i v) = get_elem? items i ≡ some v
  PcHas items _ = Unit

same_idx : (j i : ℕ) → (j == i) ≡ true → j ≡ i
same_idx j i e = ground arith

module _ {ℓ} {B : Type ℓ} where
  -- A result is the one of its index.
  abbrev pub IsAt : List (Ret B) → IndexedResult B → Type ℓ
  IsAt rs r = get_elem? rs r.idx ≡ some r.ret

  pub delete-IsAt :
      (rs : List (Ret B)) (j : ℕ) (p : List (IndexedResult B))
      → All (IsAt rs) p
      → All (IsAt rs) (delete j p)
  unfolding delete
  delete-IsAt rs j [] a = tt
  delete-IsAt rs j (r ∷ p) a = elim (Bool-cases (r.idx == j)) [
    | inl h ↦ subst (All (IsAt rs)) (sym (pick_true _ _ h)) (delete-IsAt rs j p a.1)
    | inr h ↦ subst (All (IsAt rs)) (sym (pick_false _ _ h)) (a.0, delete-IsAt rs j p a.1)
  ]

  pub lookup-IsAt :
      (rs : List (Ret B)) (i : ℕ) (p : List (IndexedResult B)) (x : Ret B)
      → All (IsAt rs) p
      → lookup i p ≡ some x
      → get_elem? rs i ≡ some x
  unfolding lookup
  lookup-IsAt rs i [] x a h = cc
  lookup-IsAt rs i (r ∷ p) x a h = elim (Bool-cases (r.idx == i)) [
    | inl e ↦
        subst (λ j. get_elem? rs j ≡ some x) (same_idx r.idx i e) (a.0 ∙ sym (pick_true _ _ e) ∙ h)
    | inr e ↦ lookup-IsAt rs i p x a.1 (sym (pick_false _ _ e) ∙ h)
  ]
