-- ===== src/Stream/Combinators.antt =====
-- stream.go:179-225, 380-401, 771-881 and stream_ops.go:12-40: the streams made from one stream,
-- an item at a time. `f` is the fuel of a call: a `for` loop with no bound makes at most `f` rounds.
use scoped.Base.{
  ℕ, zero, suc, ◌-◌, Bool, true, false, if◌then◌else◌, ◌&&◌, leb, Option, none, some, List, [], ◌∷◌,
  ◌++◌,
}
use scoped.Errors.{GoError, nil, eof, is_eof}
use scoped.Stream.Defs.{Ret, Step, Stream, Obj, next, stop_now, pull, ok, fail}

-- A source stream with a counter (`Take`, `Skip`), a flag (`DropWhile`), an accumulator (`Scan`), or
-- the calls made of a callback (`Peek`, `Observe`), the oldest first.
pub record Counting {ℓ} (S : Type ℓ) : Type ℓ where
  pub src : Obj S
  pub idx : ℕ

pub record Dropping {ℓ} (S : Type ℓ) : Type ℓ where
  pub src : Obj S
  pub dropping : Bool

pub record Scanning {ℓ κ} (S : Type ℓ) (R : Type κ) : Type (ℓ ⊔ κ) where
  pub src : Obj S
  pub acc : R

pub record Peeking {ℓ κ} (S : Type ℓ) (A : Type κ) : Type (ℓ ⊔ κ) where
  pub src : Obj S
  pub calls : List A

pub record StreamEvent {ℓ} (A : Type ℓ) : Type ℓ where
  pub item : A
  pub err : GoError
  pub duration : ℕ
  pub at_eof : Bool
  pub seq : ℕ

pub record Observing {ℓ κ} (S : Type ℓ) (A : Type κ) : Type (ℓ ⊔ κ) where
  pub src : Obj S
  pub seq : ℕ
  pub events : List (StreamEvent A)

module _ {ℓ κ} {S : Type ℓ} {A : Type κ} (s : Stream S A) where
  unfoldable pub filter_loop : (A → Bool) → ℕ → ℕ → Step (Obj S) A
  filter_loop fn f zero o = none
  filter_loop fn f (suc k) o =
      pull (next s f o) (λ v t. elim (fn v) [ true ↦ ok v t | false ↦ filter_loop fn f k t ])
        (λ v e t. fail v e t)

  unfoldable pub filter : (A → Bool) → Stream (Obj S) A
  unfolding filter_loop
  filter fn = record { next = λ f. filter_loop fn f f; stop = some (stop_now s); clock = s.clock }

  unfoldable pub take_next : A → ℕ → ℕ → Step (Counting S) A
  take_next zero_value n f c =
      if leb n c.idx
      then fail zero_value eof (record c { src = stop_now s c.src })
      else pull (next s f c.src) (λ v t. ok v (record { src = t; idx = suc c.idx }))
          (λ v e t. fail v e (record c { src = t }))

  unfoldable pub take : A → ℕ → Stream (Counting S) A
  unfolding take_next
  take zero_value n = record {
    next = take_next zero_value n;
    stop = some (λ c. record c { src = stop_now s c.src });
    clock = s.clock;
  }

  -- The mapper returns `(B, error)`, also an item with an error.
  unfoldable pub map_next {μ} : {B : Type μ} → B → (A → Ret B) → ℕ → Step (Obj S) B
  map_next zero_value fn f o =
      pull (next s f o) (λ v t. some (fn v, t)) (λ v e t. fail zero_value e t)

  unfoldable pub map {μ} : {B : Type μ} → B → (A → Ret B) → Stream (Obj S) B
  unfolding map_next
  map zero_value fn = record {
    next = map_next zero_value fn;
    stop = some (stop_now s);
    clock = s.clock;
  }

  -- `for skipped < n`, with `k` rounds left.
  unfoldable pub skip_loop : A → ℕ → ℕ → Step (Counting S) A
  skip_loop zero_value f zero c =
      pull (next s f c.src) (λ v t. ok v (record c { src = t }))
        (λ v e t. fail v e (record c { src = t }))
  skip_loop zero_value f (suc k) c =
      pull (next s f c.src) (λ v t. skip_loop zero_value f k (record { src = t; idx = suc c.idx }))
        (λ v e t. fail zero_value e (record c { src = t }))

  unfoldable pub skip : A → ℕ → Stream (Counting S) A
  unfolding skip_loop
  skip zero_value n = record {
    next = λ f c. skip_loop zero_value f (n - c.idx) c;
    stop = some (λ c. record c { src = stop_now s c.src });
    clock = s.clock;
  }

  unfoldable pub peek_next : ℕ → Step (Peeking S A) A
  peek_next f c =
      pull (next s f c.src) (λ v t. ok v (record { src = t; calls = c.calls ++ v ∷ [] }))
        (λ v e t. fail v e (record c { src = t }))

  unfoldable pub peek : Stream (Peeking S A) A
  unfolding peek_next
  peek = record {
    next = peek_next;
    stop = some (λ c. record c { src = stop_now s c.src });
    clock = s.clock;
  }

  unfoldable pub take_while_next : A → (A → Bool) → ℕ → Step (Obj S) A
  take_while_next zero_value fn f o =
      pull (next s f o)
        (λ v t. elim (fn v) [ true ↦ ok v t | false ↦ fail zero_value eof (stop_now s t) ])
        (λ v e t. fail v e t)

  unfoldable pub take_while : A → (A → Bool) → Stream (Obj S) A
  unfolding take_while_next
  take_while zero_value fn = record {
    next = take_while_next zero_value fn;
    stop = some (stop_now s);
    clock = s.clock;
  }

  unfoldable pub drop_while_loop : (A → Bool) → ℕ → ℕ → Step (Dropping S) A
  drop_while_loop fn f zero c = none
  drop_while_loop fn f (suc k) c =
      pull (next s f c.src)
        (λ v t. elim (c.dropping && fn v) [
          | true ↦ drop_while_loop fn f k (record c { src = t })
          | false ↦ ok v (record { src = t; dropping = false })
        ])
        (λ v e t. fail v e (record c { src = t }))

  unfoldable pub drop_while : (A → Bool) → Stream (Dropping S) A
  unfolding drop_while_loop
  drop_while fn = record {
    next = λ f. drop_while_loop fn f f;
    stop = some (λ c. record c { src = stop_now s c.src });
    clock = s.clock;
  }

  unfoldable pub scan_next {μ} : {R : Type μ} → R → (R → A → R) → ℕ → Step (Scanning S R) R
  scan_next zero_value fn f c =
      pull (next s f c.src) (λ v t. ok (fn c.acc v) (record { src = t; acc = fn c.acc v }))
        (λ v e t. fail zero_value e (record c { src = t }))

  unfoldable pub scan {μ} : {R : Type μ} → R → (R → A → R) → Stream (Scanning S R) R
  unfolding scan_next
  scan zero_value fn = record {
    next = scan_next zero_value fn;
    stop = some (λ c. record c { src = stop_now s c.src });
    clock = s.clock;
  }

  -- The event of a call that returned `r`; `duration` is how long the call took.
  event : (ℕ → ℕ) → ℕ → Ret A → StreamEvent A
  event duration n r = record {
    item = r.val;
    err = if is_eof r.err then nil else r.err;
    duration = duration n;
    at_eof = is_eof r.err;
    seq = n;
  }

  observe_ret : (ℕ → ℕ) → Observing S A → Option (Ret A × Obj S) → Option (Ret A × Observing S A)
  unfolding event
  observe_ret duration c none = none
  observe_ret duration c (some (r, t)) =
      some
        (r, record { src = t; seq = suc c.seq; events = c.events ++ event duration c.seq r ∷ [] })

  unfoldable pub observe_next : (ℕ → ℕ) → ℕ → Step (Observing S A) A
  unfolding observe_ret
  observe_next duration f c = observe_ret duration c (next s f c.src)

  unfoldable pub observe : (ℕ → ℕ) → Stream (Observing S A) A
  unfolding observe_next
  observe duration = record {
    next = observe_next duration;
    stop = some (λ c. record c { src = stop_now s c.src });
    clock = s.clock;
  }
