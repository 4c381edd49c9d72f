-- ===== src/Base/Lists.antt =====
-- Lists measured and indexed by native numbers, filtered by Boolean tests, and summed by a weight.
use Prim.Native.Nat.{ℕ, zero, suc, ◌+◌, ◌≤◌, ◌<◌}
use mathlib.Core.Path.{◌≡◌, refl, ap, subst}
use mathlib.Core.Logic.{inl, inr}
use mathlib.Core.Bool.{Bool}
use mathlib.Core.List.{List, [], ◌∷◌, ◌++◌}
use mathlib.Core.Option.{Option, none, some}
use native.Mathlib.Omega.{arith}
use scoped.Base.Tests.{if◌then◌else◌, Nat-cases}

module _ {ℓ} {A : Type ℓ} where
  abbrev pub length : List A → ℕ
  length [] = 0
  length (x ∷ xs) = suc (length xs)

  abbrev pub get_elem? : List A → ℕ → Option A
  get_elem? [] i = none
  get_elem? (x ∷ xs) zero = some x
  get_elem? (x ∷ xs) (suc i) = get_elem? xs i

  -- A write out of bounds changes nothing.
  abbrev pub set : List A → ℕ → A → List A
  set [] i v = []
  set (x ∷ xs) zero v = v ∷ xs
  set (x ∷ xs) (suc i) v = x ∷ set xs i v

  abbrev pub get_or : List A → ℕ → A → A
  get_or [] i d = d
  get_or (x ∷ xs) zero d = x
  get_or (x ∷ xs) (suc i) d = get_or xs i d

  abbrev pub take : ℕ → List A → List A
  take zero xs = []
  take (suc n) [] = []
  take (suc n) (x ∷ xs) = x ∷ take n xs

  abbrev pub drop : ℕ → List A → List A
  drop zero xs = xs
  drop (suc n) [] = []
  drop (suc n) (x ∷ xs) = drop n xs

  abbrev pub replicate : ℕ → A → List A
  replicate zero a = []
  replicate (suc n) a = a ∷ replicate n a

  -- The items that pass a test of the program's own, a Go `func(T) bool`.
  abbrev pub select : (A → Bool) → List A → List A
  select p [] = []
  select p (x ∷ xs) = if p x then x ∷ select p xs else select p xs

  -- The sum of a weight over a list.
  abbrev pub total : (A → ℕ) → List A → ℕ
  total w [] = 0
  total w (x ∷ xs) = w x + total w xs

  pub length-append : (xs ys : List A) → length (xs ++ ys) ≡ length xs + length ys
  length-append [] ys = omega arith
  length-append (x ∷ xs) ys = omega (arith, length-append xs ys)

  pub total-append : (w : A → ℕ) (xs ys : List A) → total w (xs ++ ys) ≡ total w xs + total w ys
  total-append w [] ys = omega arith
  total-append w (x ∷ xs) ys = omega (arith, total-append w xs ys)

  pub length-set : (xs : List A) (i : ℕ) (v : A) → length (set xs i v) ≡ length xs
  length-set [] i v = refl
  length-set (x ∷ xs) zero v = refl
  length-set (x ∷ xs) (suc i) v = ap suc (length-set xs i v)

  pub total-set :
      (w : A → ℕ) (xs : List A) (i : ℕ) (x v : A)
      → get_elem? xs i ≡ some x
      → total w (set xs i v) + w x ≡ total w xs + w v
  total-set w [] i x v h = ground arith
  total-set w (y ∷ xs) zero x v h = ground arith
  total-set w (y ∷ xs) (suc i) x v h = omega (arith, total-set w xs i x v h)

  pub total-le : (w w' : A → ℕ) → ((x : A) → w x ≤ w' x) → (xs : List A) → total w xs ≤ total w' xs
  total-le w w' le [] = omega arith
  total-le w w' le (x ∷ xs) = omega (arith, le x, total-le w w' le xs)

  pub le-total :
      (w : A → ℕ) (xs : List A) (i : ℕ) (x : A) → get_elem? xs i ≡ some x → w x ≤ total w xs
  le-total w [] i x h = ground arith
  le-total w (y ∷ xs) zero x h = ground arith
  le-total w (y ∷ xs) (suc i) x h = omega (arith, le-total w xs i x h)

  pub take-append-drop : (n : ℕ) (xs : List A) → take n xs ++ drop n xs ≡ xs
  take-append-drop zero xs = refl
  take-append-drop (suc n) [] = refl
  take-append-drop (suc n) (x ∷ xs) = rw (take-append-drop n xs)

  pub length-take : (n : ℕ) (xs : List A) → n ≤ length xs → length (take n xs) ≡ n
  length-take zero xs le = refl
  length-take (suc n) [] le = absurd (omega arith)
  length-take (suc n) (x ∷ xs) le = omega (arith, length-take n xs)

  pub length-drop : (n : ℕ) (xs : List A) → n ≤ length xs → length (drop n xs) + n ≡ length xs
  length-drop zero xs le = omega arith
  length-drop (suc n) [] le = absurd (omega arith)
  length-drop (suc n) (x ∷ xs) le = omega (arith, length-drop n xs)

  -- What is left after `drop i` tells whether `i` is in bounds, and what stands there.
  pub drop-nil : (xs : List A) (i : ℕ) → drop i xs ≡ [] → length xs ≤ i
  drop-nil [] i h = omega arith
  drop-nil (x ∷ xs) zero h = cc
  drop-nil (x ∷ xs) (suc i) h = omega (arith, drop-nil xs i h)

  pub drop-cons :
      (xs : List A) (i : ℕ) {y : A} {ys : List A} (d : A)
      → drop i xs ≡ y ∷ ys
      → (i < length xs) × (get_or xs i d ≡ y) × (drop (suc i) xs ≡ ys)
  drop-cons [] zero d h = cc
  drop-cons [] (suc i) d h = cc
  drop-cons (x ∷ xs) zero d h = (omega arith, ground arith, ground arith)
  drop-cons (x ∷ xs) (suc i) d h =
      let (lt, here, rest) = drop-cons xs i d h in (omega arith, here, rest)

  pub length-select : (p : A → Bool) (xs : List A) → length (select p xs) ≤ length xs
  length-select p [] = omega arith
  length-select p (x ∷ xs) = ground (arith, length-select p xs)

abbrev pub fold {ℓ κ} : {A : Type ℓ} {R : Type κ} → (R → A → R) → R → List A → R
fold fn acc [] = acc
fold fn acc (x ∷ xs) = fold fn (fn acc x) xs

abbrev pub All {ℓ κ} : {A : Type ℓ} → (A → Type κ) → List A → Type κ
All P [] = Unit
All P (x ∷ xs) = P x × All P xs

module _ {ℓ κ} {A : Type ℓ} (P : A → Type κ) where
  pub All-append : (xs : List A) (y : A) → All P xs → P y → All P (xs ++ y ∷ [])
  All-append [] y h p = (p, tt)
  All-append (x ∷ xs) y h p = (h.0, All-append xs y h.1 p)

  pub All-get : (xs : List A) (i : ℕ) {x : A} → get_elem? xs i ≡ some x → All P xs → P x
  All-get [] i e h = cc
  All-get (x ∷ xs) zero e h = subst P (cc) h.0
  All-get (x ∷ xs) (suc i) e h = All-get xs i e h.1

  pub All-set : (xs : List A) (i : ℕ) (y : A) → All P xs → P y → All P (set xs i y)
  All-set [] i y h p = tt
  All-set (x ∷ xs) zero y h p = (p, h.1)
  All-set (x ∷ xs) (suc i) y h p = (h.0, All-set xs i y h.1 p)

-- An item of positive weight, and where it stands.
pub record Weighty {ℓ} {A : Type ℓ} (w : A → ℕ) (xs : List A) : Type ℓ where
  pub index : ℕ
  pub item : A
  pub at : get_elem? xs index ≡ some item
  pub heavy : 0 < w item

pub total-Weighty {ℓ} : {A : Type ℓ} (w : A → ℕ) (xs : List A) → 0 < total w xs → Weighty w xs
total-Weighty w [] pos = absurd (omega arith)
total-Weighty w (x ∷ xs) pos = elim (Nat-cases (w x)) [
  | inl light ↦
      let r = total-Weighty w xs (omega (arith, light, pos)) in
      record { index = suc r.index; item = r.item; at = r.at; heavy = r.heavy }
  | inr heavy ↦ record { index = 0; item = x; at = refl; heavy = heavy }
]
