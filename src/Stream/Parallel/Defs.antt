-- ===== src/Stream/Parallel/Defs.antt =====
-- stream.go:596-684, `makeParallelNext`, and the options of `ParallelMap`.
--
-- What the `select` of a call receives next is an `Arrival`: a result of a worker, the closed
-- channel, or the end of the context. The map `pending` is an association list; where the source
-- ranges over it, the list's order is the order of that range.
use scoped.Base.{
  ℕ, suc, ◌*◌, ◌-◌, Bool, true, false, not, ◌&&◌, if◌then◌else◌, ◌==◌, Option, none, some, List, [],
  ◌∷◌, ◌++◌,
}
use scoped.Errors.{GoError, eof, plain, is_nil, is_eof}
use scoped.Stream.Defs.{Ret, Step, fail}
use scoped.Stream.Sources.{Arrival, value, closed, done}

-- `ErrStreamGap`
abbrev pub err_stream_gap : GoError
err_stream_gap = plain 0

-- `MaxWorkers` with the number of CPUs in place of 0, and `MaxPending`, both as `ParallelMap` sets
-- them. No pending limit is 0.
pub record StreamOptions : Type 0 where
  pub max_workers : ℕ
  pub buffer_size : ℕ
  pub ordered : Bool
  pub max_pending : ℕ

unfoldable pub effective_options : ℕ → StreamOptions → StreamOptions
effective_options num_cpu opts =
    let workers = if opts.max_workers == 0 then num_cpu else opts.max_workers in
    record opts {
      max_workers = workers;
      max_pending =
          if opts.ordered
          then (if opts.max_pending == 0 then workers * 2 else opts.max_pending)
          else 0;
    }

pub record IndexedResult {ℓ} (B : Type ℓ) : Type ℓ where
  pub idx : ℕ
  pub ret : Ret B

-- What the closure captures: `slots` is the number of tokens in `pendingSem`, and `set_errors` are
-- the errors passed to `out.setError`, the oldest first.
pub record Reorder {ℓ} (B : Type ℓ) : Type ℓ where
  pub next_idx : ℕ
  pub pending : List (IndexedResult B)
  pub arrivals : List (Arrival (IndexedResult B))
  pub slots : ℕ
  pub set_errors : List GoError

-- `if err != nil && err != io.EOF { out.setError(err) }`
unfoldable pub note_error : GoError → List GoError → List GoError
note_error err noted = if not (is_nil err) && not (is_eof err) then noted ++ err ∷ [] else noted

module _ {ℓ} {B : Type ℓ} where
  unfoldable pub lookup : ℕ → List (IndexedResult B) → Option (Ret B)
  lookup i [] = none
  lookup i (res ∷ pending) = if res.idx == i then some res.ret else lookup i pending

  unfoldable pub delete : ℕ → List (IndexedResult B) → List (IndexedResult B)
  delete i [] = []
  delete i (res ∷ pending) =
      let rest = delete i pending in if res.idx == i then rest else res ∷ rest

  -- `pending[res.idx] = res`
  unfoldable pub insert : IndexedResult B → List (IndexedResult B) → List (IndexedResult B)
  unfolding delete
  insert res pending = res ∷ delete res.idx pending

  -- `delete(pending, nextIdx); nextIdx++; releasePending(); ...; return res.val, res.err`
  unfoldable pub emit : Ret B → Reorder B → Option (Ret B × Reorder B)
  unfolding delete note_error
  emit r s = some (
    r,
    record s {
      next_idx = suc s.next_idx;
      pending = delete s.next_idx s.pending;
      slots = s.slots - 1;
      set_errors = note_error r.err s.set_errors;
    },
  )

  unfoldable pub first_error : List (IndexedResult B) → Option (Ret B)
  first_error [] = none
  first_error (res ∷ pending) =
      let rest = first_error pending in if is_nil res.ret.err then rest else some res.ret

  -- Items remain, but not the next one.
  unfoldable pub at_gap : B → Option (Ret B) → Reorder B → Option (Ret B × Reorder B)
  at_gap zero_value (some r) s = some (r, record s { set_errors = s.set_errors ++ r.err ∷ [] })
  at_gap zero_value none s =
      fail zero_value err_stream_gap (record s { set_errors = s.set_errors ++ err_stream_gap ∷ [] })

  -- The channel is closed; the state's arrivals begin with that.
  unfoldable pub at_close : B → List (IndexedResult B) → Reorder B → Option (Ret B × Reorder B)
  unfolding at_gap first_error
  at_close zero_value [] s = fail zero_value eof s
  at_close zero_value (res ∷ pending) s = at_gap zero_value (first_error (res ∷ pending)) s

  -- The loop of an ordered call over what arrives.
  unfoldable pub ordered_loop : B → List (Arrival (IndexedResult B)) → Step (Reorder B) B
  unfolding lookup emit insert at_close
  ordered_loop zero_value [] s = elim (lookup s.next_idx s.pending) [
    | some r ↦ emit r (record s { arrivals = [] })
    | none ↦ none
  ]
  ordered_loop zero_value (value res ∷ rest) s = elim (lookup s.next_idx s.pending) [
    | some r ↦ emit r (record s { arrivals = value res ∷ rest })
    | none ↦ ordered_loop zero_value rest (record s { pending = insert res s.pending })
  ]
  ordered_loop zero_value (closed ∷ rest) s = elim (lookup s.next_idx s.pending) [
    | some r ↦ emit r (record s { arrivals = closed ∷ rest })
    | none ↦ at_close zero_value s.pending (record s { arrivals = closed ∷ rest })
  ]
  ordered_loop zero_value (done e ∷ rest) s = elim (lookup s.next_idx s.pending) [
    | some r ↦ emit r (record s { arrivals = done e ∷ rest })
    | none ↦ fail zero_value e (record s { arrivals = rest })
  ]

  unordered_step : B → List (Arrival (IndexedResult B)) → Step (Reorder B) B
  unfolding note_error
  unordered_step zero_value [] s = none
  unordered_step zero_value (value res ∷ rest) s =
      some (res.ret, record s { arrivals = rest; set_errors = note_error res.ret.err s.set_errors })
  unordered_step zero_value (closed ∷ rest) s = fail zero_value eof s
  unordered_step zero_value (done e ∷ rest) s = fail zero_value e (record s { arrivals = rest })

  unfoldable pub parallel_next : B → Bool → Step (Reorder B) B
  unfolding ordered_loop unordered_step
  parallel_next zero_value ordered s = elim ordered [
    | true ↦ ordered_loop zero_value s.arrivals s
    | false ↦ unordered_step zero_value s.arrivals s
  ]
