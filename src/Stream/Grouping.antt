-- ===== src/Stream/Grouping.antt =====
-- stream.go:403-434, 992-1066 and stream_ops.go:5-79: `Batch`, `FlatMap`, `Distinct` and `Zip`.
use scoped.Base.{
  ℕ, zero, suc, Bool, true, false, if◌then◌else◌, ◌||◌, ◌&&◌, not, Option, none, some, List, [],
  ◌∷◌, ◌++◌,
}
use scoped.Errors.{GoError, is_eof}
use scoped.Stream.Defs.{Ret, Step, Stream, Obj, next, stop_now, pull, ok, fail}

pub record Pair {ℓ κ} (A : Type ℓ) (B : Type κ) : Type (ℓ ⊔ κ) where
  pub first : A
  pub second : B

pub record Zipping {ℓ κ} (S : Type ℓ) (T : Type κ) : Type (ℓ ⊔ κ) where
  pub a : Obj S
  pub b : Obj T

-- `seen` is the map of `Distinct`, as the list of its keys.
pub record Distinguishing {ℓ κ} (S : Type ℓ) (A : Type κ) : Type (ℓ ⊔ κ) where
  pub src : Obj S
  pub seen : List A

-- A sub-stream of `FlatMap`: its closures and its object.
pub record Sub {ℓ κ} (T : Type ℓ) (B : Type κ) : Type (ℓ ⊔ κ) where
  pub stream : Stream T B
  pub obj : Obj T

pub record Flattening {ℓ κ μ} (S : Type ℓ) (T : Type κ) (B : Type μ) : Type (ℓ ⊔ κ ⊔ μ) where
  pub src : Obj S
  pub current : Option (Sub T B)

abbrev pub is_empty {ℓ} : {A : Type ℓ} → List A → Bool
is_empty [] = true
is_empty (x ∷ xs) = false

-- Whether `v` is a key of the map, under `==` of a comparable type.
unfoldable pub contains {ℓ} : {A : Type ℓ} → (A → A → Bool) → List A → A → Bool
contains eq [] v = false
contains eq (x ∷ xs) v = eq x v || contains eq xs v

stop_current {ℓ κ} : {T : Type ℓ} {B : Type κ} → Option (Sub T B) → Option (Sub T B)
stop_current none = none
stop_current (some sub) = some (record sub { obj = stop_now sub.stream sub.obj })

module _ {ℓ κ} {S : Type ℓ} {A : Type κ} (s : Stream S A) where
  -- On an error with items in the batch: the batch alone at EOF, and otherwise with the error.
  batch_end : List A → GoError → Obj S → Option (Ret (List A) × Obj S)
  batch_end batch e o = if is_eof e && not (is_empty batch) then ok batch o else fail batch e o

  -- `for range n`, with `k` rounds left.
  unfoldable pub batch_loop : ℕ → ℕ → List A → Obj S → Option (Ret (List A) × Obj S)
  unfolding batch_end
  batch_loop f zero batch o = ok batch o
  batch_loop f (suc k) batch o =
      pull (next s f o) (λ v t. batch_loop f k (batch ++ v ∷ []) t) (λ v e t. batch_end batch e t)

  unfoldable pub batch : ℕ → Stream (Obj S) (List A)
  unfolding batch_loop
  batch n = record { next = λ f. batch_loop f n []; stop = some (stop_now s); clock = s.clock }

  unfoldable pub distinct_loop : (A → A → Bool) → ℕ → ℕ → Step (Distinguishing S A) A
  unfolding contains
  distinct_loop eq f zero c = none
  distinct_loop eq f (suc k) c =
      pull (next s f c.src)
        (λ v t. elim (contains eq c.seen v) [
          | true ↦ distinct_loop eq f k (record c { src = t })
          | false ↦ ok v (record { src = t; seen = v ∷ c.seen })
        ])
        (λ v e t. fail v e (record c { src = t }))

  unfoldable pub distinct : (A → A → Bool) → Stream (Distinguishing S A) A
  unfolding distinct_loop
  distinct eq = record {
    next = λ f. distinct_loop eq f f;
    stop = some (λ c. record c { src = stop_now s c.src });
    clock = s.clock;
  }

module _ {ℓ κ μ ν} {S : Type ℓ} {A : Type κ} {T : Type μ} {B : Type ν} where
  unfoldable pub zip_next : Stream S A → Stream T B → Pair A B → ℕ → Step (Zipping S T) (Pair A B)
  zip_next a b zero_value f c =
      pull (next a f c.a)
        (λ va ta.
          pull (next b f c.b)
            (λ vb tb. ok (record { first = va; second = vb }) (record { a = ta; b = tb }))
            (λ vb e tb. fail zero_value e (record { a = stop_now a ta; b = tb })))
        (λ va e ta. fail zero_value e (record { a = ta; b = stop_now b c.b }))

  unfoldable pub zip : Stream S A → Stream T B → Pair A B → Stream (Zipping S T) (Pair A B)
  unfolding zip_next
  zip a b zero_value = record {
    next = zip_next a b zero_value;
    stop = some (λ c. record { a = stop_now a c.a; b = stop_now b c.b });
    clock = a.clock;
  }

  -- A nil sub-stream (`none`) is skipped; one that is at EOF is stopped and dropped.
  unfoldable pub flat_map_loop :
      Stream S A → (A → Option (Sub T B)) → B → ℕ → ℕ → Step (Flattening S T B) B
  flat_map_loop s fn zero_value f zero c = none
  flat_map_loop s fn zero_value f (suc k) c = elim c.current [
    | none ↦
        pull (next s f c.src)
          (λ v t. flat_map_loop s fn zero_value f k (record { src = t; current = fn v }))
          (λ v e t. fail zero_value e (record { src = t; current = none }))
    | some sub ↦
        pull (next sub.stream f sub.obj)
          (λ v t. ok v (record c { current = some (record sub { obj = t }) }))
          (λ v e t. elim (is_eof e) [
            | true ↦ flat_map_loop s fn zero_value f k (record c { current = none })
            | false ↦ fail v e (record c { current = some (record sub { obj = t }) })
          ])
  ]

  unfoldable pub flat_map : Stream S A → (A → Option (Sub T B)) → B → Stream (Flattening S T B) B
  unfolding flat_map_loop stop_current
  flat_map s fn zero_value = record {
    next = λ f. flat_map_loop s fn zero_value f f;
    stop = some (λ c. record { src = stop_now s c.src; current = stop_current c.current });
    clock = s.clock;
  }
