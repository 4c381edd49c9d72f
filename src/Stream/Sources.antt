-- ===== src/Stream/Sources.antt =====
-- stream.go:238-378: the streams that are made from something else than a stream.
--
-- What a context answers is the environment's: `polls` lists the values of `ctx.Err()` at the next
-- checks, `nil` at every check after them.
use scoped.Base.{
  ℕ, suc, Bool, false, if◌then◌else◌, leb, Option, none, some, List, [], ◌∷◌, length, get_or,
}
use scoped.Errors.{GoError, nil, eof, is_nil}
use scoped.Stream.Defs.{Step, Stream, ok, fail}

abbrev pub ctx_err : List GoError → GoError
ctx_err [] = nil
ctx_err (e ∷ polls) = e

abbrev pub later : List GoError → List GoError
later [] = []
later (e ∷ polls) = polls

-- `NewStream`: no stop function.
abbrev pub new_stream {ℓ κ} : {S : Type ℓ} {A : Type κ} → (ℕ → ℕ) → Step S A → Stream S A
new_stream clock step = record { next = λ _. step; stop = none; clock = clock }

-- What the closure of `FromSlice` captures.
pub record Cursor {ℓ} (A : Type ℓ) : Type ℓ where
  pub items : List A
  pub idx : ℕ
  pub polls : List GoError

-- `Repeat`: a negative count is `none`.
pub record Repeater : Type 0 where
  pub count : ℕ
  pub polls : List GoError

pub record Generator {ℓ} (A : Type ℓ) : Type ℓ where
  pub cur : A
  pub first : Bool
  pub polls : List GoError

-- What a `select` on the context and a channel receives next.
pub data Arrival {ℓ} (A : Type ℓ) : Type ℓ where
  value : A → Arrival A
  closed : Arrival A
  done : GoError → Arrival A

module _ {ℓ} {A : Type ℓ} (zero_value : A) where
  unfoldable pub from_slice_next : Step (Cursor A) A
  from_slice_next c =
      if is_nil (ctx_err c.polls)
      then (if leb (length c.items) c.idx
          then fail zero_value eof (record c { polls = later c.polls })
          else ok (get_or c.items c.idx zero_value)
              (record c { idx = suc c.idx; polls = later c.polls }))
      else fail zero_value (ctx_err c.polls) (record c { polls = later c.polls })

  -- `FromSlice`, whose copy of the slice nobody writes to.
  unfoldable pub from_slice : (ℕ → ℕ) → Stream (Cursor A) A
  unfolding from_slice_next
  from_slice clock = new_stream clock from_slice_next

  -- `FromSliceRef` and `FromSliceUnsafe` share the caller's slice, which is to stay unchanged.
  unfoldable pub from_slice_ref : (ℕ → ℕ) → Stream (Cursor A) A
  unfolding from_slice_next
  from_slice_ref clock = new_stream clock from_slice_next

  unfoldable pub empty_next : Step (Unit {0}) A
  empty_next u = fail zero_value eof u

  unfoldable pub empty : (ℕ → ℕ) → Stream (Unit {0}) A
  unfolding empty_next
  empty clock = new_stream clock empty_next

  -- `n >= 0 && count >= n`
  exhausted : Option ℕ → ℕ → Bool
  exhausted none count = false
  exhausted (some n) count = leb n count

  unfoldable pub repeat_next : A → Option ℕ → Step Repeater A
  unfolding exhausted
  repeat_next val n c =
      if is_nil (ctx_err c.polls)
      then (if exhausted n c.count
          then fail zero_value eof (record c { polls = later c.polls })
          else ok val (record { count = suc c.count; polls = later c.polls }))
      else fail zero_value (ctx_err c.polls) (record c { polls = later c.polls })

  unfoldable pub repeat : (ℕ → ℕ) → A → Option ℕ → Stream Repeater A
  unfolding repeat_next
  repeat clock val n = new_stream clock (repeat_next val n)

  unfoldable pub generate_next : (A → A) → Step (Generator A) A
  generate_next fn c =
      if is_nil (ctx_err c.polls)
      then (if c.first
          then ok c.cur (record c { first = false; polls = later c.polls })
          else ok (fn c.cur) (record c { cur = fn c.cur; polls = later c.polls }))
      else fail zero_value (ctx_err c.polls) (record c { polls = later c.polls })

  unfoldable pub generate : (ℕ → ℕ) → (A → A) → Stream (Generator A) A
  unfolding generate_next
  generate clock fn = new_stream clock (generate_next fn)

  -- A nil channel (`none`) is at its end; otherwise the `select` takes the next arrival, and blocks
  -- when there is none. A closed channel stays closed.
  unfoldable pub from_chan_next : Step (Option (List (Arrival A))) A
  from_chan_next none = fail zero_value eof none
  from_chan_next (some []) = none
  from_chan_next (some (value v ∷ rest)) = ok v (some rest)
  from_chan_next (some (closed ∷ rest)) = fail zero_value eof (some (closed ∷ rest))
  from_chan_next (some (done e ∷ rest)) = fail zero_value e (some rest)

  unfoldable pub from_chan : (ℕ → ℕ) → Stream (Option (List (Arrival A))) A
  unfolding from_chan_next
  from_chan clock = new_stream clock from_chan_next
