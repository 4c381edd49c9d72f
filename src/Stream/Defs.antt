-- ===== src/Stream/Defs.antt =====
-- stream.go:23-97: the `Stream` object, `Next`, `Err` and `Stop`.
--
-- A `*Stream` is its closures (`Stream`) and its mutable fields (`Obj`), which hold the state that
-- `next` captures. A call that would loop longer than its fuel returns `none`.
use scoped.Base.{
  ℕ, suc, ◌≡◌, Bool, true, false, ◌||◌, ◌&&◌, not, if◌then◌else◌, ◌==◌, Option, none, some, [], ◌∷◌,
}
use scoped.Errors.{GoError, nil, is_nil, is_eof, join}

-- A Go result `(T, error)`.
pub record Ret {ℓ} (A : Type ℓ) : Type ℓ where
  pub val : A
  pub err : GoError

-- What the step function of a stream may return: nothing when the fuel runs out.
abbrev pub Step {ℓ κ} : Type ℓ → Type κ → Type (ℓ ⊔ κ)
Step S A = S → Option (Ret A × S)

-- The closures of a stream: `next` (for a fuel), `stop` when it is set, and the clock that the
-- stream reads, as the readings that it will give.
pub record Stream {ℓ κ} (S : Type ℓ) (A : Type κ) : Type (ℓ ⊔ κ) where
  pub next : ℕ → Step S A
  pub stop : Option (S → S)
  pub clock : ℕ → ℕ

-- The fields that change. `inner` is what `next` and `stop` capture, `stopped` is `stopOnce`,
-- `readings` counts the clock's readings.
pub record Obj {ℓ} (S : Type ℓ) : Type ℓ where
  pub inner : S
  pub err : GoError
  pub stopped : Bool
  pub items_read : ℕ
  pub err_count : ℕ
  pub start_nano : ℕ
  pub last_read : ℕ
  pub readings : ℕ

-- `&Stream[T]{...}`: all fields but the closures are zero.
abbrev pub new {ℓ} : {S : Type ℓ} → S → Obj S
new s = record {
  inner = s;
  err = nil;
  stopped = false;
  items_read = 0;
  err_count = 0;
  start_nano = 0;
  last_read = 0;
  readings = 0;
}

unfoldable pub set_error {ℓ} : {S : Type ℓ} → Obj S → GoError → Obj S
set_error o err = if is_nil err || is_eof err then o else record o { err = join (o.err ∷ err ∷ []) }

module _ {ℓ κ} {S : Type ℓ} {A : Type κ} where
  -- `s.startNano.CompareAndSwap(0, time.Now().UnixNano())`
  unfoldable pub record_start : Stream S A → Obj S → Obj S
  record_start s o = record o {
    start_nano = if o.start_nano == 0 then s.clock o.readings else o.start_nano;
    readings = suc o.readings;
  }

  -- `if err != nil && err != io.EOF`
  record_err : Ret A → Obj S → Obj S
  unfolding set_error
  record_err r o =
      if not (is_nil r.err) && not (is_eof r.err)
      then set_error (record o { err_count = suc o.err_count }) r.err
      else o

  -- `if err == nil`
  record_item : Stream S A → Ret A → Obj S → Obj S
  record_item s r o =
      if is_nil r.err
      then record o {
        items_read = suc o.items_read;
        last_read = s.clock o.readings;
        readings = suc o.readings;
      }
      else o

  after_next : Stream S A → Obj S → Option (Ret A × S) → Option (Ret A × Obj S)
  unfolding record_err record_item
  after_next s o none = none
  after_next s o (some (r, i)) = some (r, record_item s r (record_err r (record o { inner = i })))

  -- `Next`, called by one consumer at a time.
  unfoldable pub next : Stream S A → ℕ → Step (Obj S) A
  unfolding after_next record_start
  next s fuel o = after_next s (record_start s o) (s.next fuel (record_start s o).inner)

  unfoldable pub stop_now : Stream S A → Obj S → Obj S
  stop_now s o = if o.stopped then o else (elim s.stop [
    | none ↦ record o { stopped = true }
    | some f ↦ record o { stopped = true; inner = f o.inner }
  ])

-- `val, err := s.Next(ctx)`, then what the caller does with an item, and on `err != nil`.
abbrev pub pull {ℓ κ μ} :
    {S : Type ℓ} {A : Type κ} {R : Type μ}
    → Option (Ret A × S)
    → (A → S → Option R)
    → (A → GoError → S → Option R)
    → Option R
pull none item fail = none
pull (some (r, s)) item fail = elim (is_nil r.err) [
  | true ↦ item r.val s
  | false ↦ fail r.val r.err s
]

abbrev pub ok {ℓ κ} : {S : Type ℓ} {A : Type κ} → A → S → Option (Ret A × S)
ok v s = some (record { val = v; err = nil }, s)

abbrev pub fail {ℓ κ} : {S : Type ℓ} {A : Type κ} → A → GoError → S → Option (Ret A × S)
fail v e s = some (record { val = v; err = e }, s)

-- On an error `pull` takes its last branch.
pub pull-fail {ℓ κ μ} :
    {S : Type ℓ} {A : Type κ} {R : Type μ} (item : A → S → Option R)
    (g : A → GoError → S → Option R) (v : A) (e : GoError) (t : S)
    → is_nil e ≡ false
    → pull (fail v e t) item g ≡ g v e t
pull-fail item g v e t n = rw (n, pull)
