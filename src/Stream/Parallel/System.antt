-- ===== src/Stream/Parallel/System.antt =====
-- stream.go, `ParallelMap`: the dispatcher, its workers and the consumer in ordered mode, an
-- access to shared state at a time, in any order.
--
-- The mapper is a function of the item; how a call that panics ends is one of its results. The
-- consumer is the loop of `makeParallelNext`, called again and again, whose reorder buffer is
-- `Reorder`: its `slots` are the tokens in `pendingSem`, and its `set_errors` the errors passed to
-- `out.setError` by the consumer and by the dispatcher. The order in which a call
-- ranges over the buffer at the closed channel is any.
use scoped.Base.{
  ℕ, suc, ◌+◌, ◌-◌, ◌<◌, ◌≡◌, Bool, true, false, not, ◌&&◌, ◌||◌, if◌then◌else◌, none, some, List,
  [], ◌∷◌, ◌++◌, length, get_elem?, set,
}
use mathlib.Core.List.{Perm}
use scoped.Errors.{GoError, PanicValue, nil, canceled, panic_error, is_nil, is_eof, is_canceled}
use scoped.Stream.Defs.{Ret}
use scoped.Stream.Parallel.Defs.{
  StreamOptions, IndexedResult, Reorder, lookup, insert, emit, at_close,
}

-- How a call of the mapper ends.
pub data Called {ℓ} (B : Type ℓ) : Type ℓ where
  gave : Ret B → Called B
  panicked : PanicValue → Called B

-- `res, fnErr` behind the call and its recovery.
abbrev pub call_result {ℓ} : {B : Type ℓ} → B → Called B → Ret B
call_result zero_value (gave r) = r
call_result zero_value (panicked v) = record { val = zero_value; err = panic_error v }

-- Where a worker stands.
pub data Worker {ℓ κ} (A : Type ℓ) (B : Type κ) : Type (ℓ ⊔ κ) where
  calling : ℕ → A → Worker A B
  sending : IndexedResult B → Worker A B
  leaving : Worker A B  -- its select was passed
  released : Worker A B  -- `<-sem` returned
  gone : Worker A B  -- `wg.Done` returned
  crashed : Worker A B  -- it sent on the closed channel

-- Where the dispatcher stands.
pub data Pc {ℓ} (A : Type ℓ) : Type ℓ where
  pulling : Pc A  -- before `src.Next`
  indexing : A → Pc A
  gating : ℕ → A → Pc A  -- before the send to `pendingSem`
  adding : ℕ → A → Pc A  -- before `wg.Add`
  slotting : ℕ → A → Pc A  -- before the send to `sem`
  launching : ℕ → A → Pc A  -- before the worker is started
  undoing : Pc A  -- the context was done at the send to `sem`
  waiting : Bool → Pc A  -- before `wg.Wait`, and whether the context decides what is returned
  deferring : GoError → Pc A  -- before `runCancel`
  closing : GoError → Pc A  -- before `close(resCh)`
  ended : GoError → Pc A

-- `source` are the items that the source still has, and `source_end` the error behind them.
-- `run_err`, `map_err` and `ctx_err` are what the contexts of these names answer. `emitted`,
-- `answers` and `lost` are no fields of the program: they keep the results given out by their index,
-- what all calls have answered, and the indices whose result was given up when the context was done.
-- No step reads them.
pub record System {ℓ κ} (A : Type ℓ) (B : Type κ) : Type (ℓ ⊔ κ) where
  pub source : List A
  pub source_end : GoError
  pub pc : Pc A
  pub input_idx : ℕ
  pub sem : ℕ
  pub wg : ℕ
  pub workers : List (Worker A B)
  pub res_ch : List (IndexedResult B)
  pub res_closed : Bool
  pub run_err : GoError
  pub map_err : GoError
  pub ctx_err : GoError
  pub consumer : Reorder B
  pub emitted : List (Ret B)
  pub answers : List (Ret B)
  pub lost : List ℕ

abbrev pub fresh_reorder {ℓ} : {B : Type ℓ} → Reorder B
fresh_reorder = record { next_idx = 0; pending = []; arrivals = []; slots = 0; set_errors = [] }

abbrev pub init {ℓ κ} : {A : Type ℓ} {B : Type κ} → List A → GoError → System A B
init items source_end = record {
  source = items;
  source_end = source_end;
  pc = pulling;
  input_idx = 0;
  sem = 0;
  wg = 0;
  workers = [];
  res_ch = [];
  res_closed = false;
  run_err = nil;
  map_err = nil;
  ctx_err = nil;
  consumer = fresh_reorder;
  emitted = [];
  answers = [];
  lost = [];
}

-- `runCancel`, and what the end of `mapCtx` does to `runCtx`.
abbrev pub cancel_run : GoError → GoError
cancel_run err = if is_nil err then canceled else err

-- `resChanSize`
abbrev pub res_chan_size : StreamOptions → ℕ
res_chan_size opts = opts.buffer_size + opts.max_workers

module _ {ℓ κ} {A : Type ℓ} {B : Type κ} where
  -- What an error of `src.Next` adds to the errors of the stream.
  abbrev pub source_errors : GoError → System A B → List GoError
  source_errors e m =
      if is_eof e || (not (is_nil m.map_err) && is_nil m.ctx_err && is_canceled e)
      then m.consumer.set_errors
      else m.consumer.set_errors ++ e ∷ []

  abbrev pub end_source : GoError → System A B → System A B
  end_source e m = record m {
    pc = waiting false;
    consumer = record m.consumer { set_errors = source_errors e m };
  }

  -- One step of the dispatcher. With its context done the source may give any error.
  pub data Dispatch (opts : StreamOptions) (m : System A B) : System A B → Type (ℓ ⊔ κ) where
    pull :
        {v : A} {rest : List A}
        → m.pc ≡ pulling
        → m.source ≡ v ∷ rest
        → Dispatch opts m (record m { source = rest; pc = indexing v })
    pull_end :
        m.pc ≡ pulling
        → m.source ≡ []
        → is_nil m.source_end ≡ false
        → Dispatch opts m (end_source m.source_end m)
    pull_done :
        (e : GoError)
        → m.pc ≡ pulling
        → is_nil m.run_err ≡ false
        → is_nil e ≡ false
        → Dispatch opts m (end_source e m)
    index :
        {v : A}
        → m.pc ≡ indexing v
        → Dispatch opts m (record m { input_idx = suc m.input_idx; pc = gating m.input_idx v })
    gate :
        {i : ℕ} {v : A}
        → m.pc ≡ gating i v
        → m.consumer.slots < opts.max_pending
        → Dispatch opts m (record m {
          consumer = record m.consumer { slots = suc m.consumer.slots };
          pc = adding i v;
        })
    gate_done :
        {i : ℕ} {v : A}
        → m.pc ≡ gating i v
        → is_nil m.run_err ≡ false
        → Dispatch opts m (record m { pc = waiting true; lost = i ∷ m.lost })
    add :
        {i : ℕ} {v : A}
        → m.pc ≡ adding i v
        → Dispatch opts m (record m { wg = suc m.wg; pc = slotting i v })
    slot :
        {i : ℕ} {v : A}
        → m.pc ≡ slotting i v
        → m.sem < opts.max_workers
        → Dispatch opts m (record m { sem = suc m.sem; pc = launching i v })
    slot_done :
        {i : ℕ} {v : A}
        → m.pc ≡ slotting i v
        → is_nil m.run_err ≡ false
        → Dispatch opts m (record m { pc = undoing; lost = i ∷ m.lost })
    undo : m.pc ≡ undoing → Dispatch opts m (record m { wg = m.wg - 1; pc = waiting true })
    launch :
        {i : ℕ} {v : A}
        → m.pc ≡ launching i v
        → Dispatch opts m (record m { workers = m.workers ++ calling i v ∷ []; pc = pulling })
    wait :
        {by_ctx : Bool}
        → m.pc ≡ waiting by_ctx
        → m.wg ≡ 0
        → Dispatch opts m (record m {
          pc = deferring (if by_ctx && not (is_nil m.ctx_err) then m.run_err else nil);
        })
    stop_run :
        {e : GoError}
        → m.pc ≡ deferring e
        → Dispatch opts m (record m { run_err = cancel_run m.run_err; pc = closing e })
    close_results :
        {e : GoError}
        → m.pc ≡ closing e
        → Dispatch opts m (record m { res_closed = true; pc = ended e })

  -- One step of a worker.
  pub data Work (zero_value : B) (fn : A → Called B) (opts : StreamOptions) (m : System A B)
      : Worker A B → System A B → Worker A B → Type (ℓ ⊔ κ) where
    call_fn :
        {i : ℕ} {v : A}
        → Work zero_value fn opts m
            (calling i v)
            m
            (sending (record { idx = i; ret = call_result zero_value (fn v) }))
    send :
        {r : IndexedResult B}
        → m.res_closed ≡ false
        → length m.res_ch < res_chan_size opts
        → Work zero_value fn opts m (sending r) (record m { res_ch = m.res_ch ++ r ∷ [] }) leaving
    crash :
        {r : IndexedResult B}
        → m.res_closed ≡ true
        → Work zero_value fn opts m (sending r) m crashed
    give_up :
        {r : IndexedResult B}
        → is_nil m.run_err ≡ false
        → Work zero_value fn opts m (sending r) (record m { lost = r.idx ∷ m.lost }) leaving
    free : Work zero_value fn opts m leaving (record m { sem = m.sem - 1 }) released
    finish : Work zero_value fn opts m released (record m { wg = m.wg - 1 }) gone

  -- One round of the consumer's loop: a result comes, the next one is given out, or the call ends with
  -- what it finds at the closed channel or with the error of its own context.
  pub data Consume (zero_value : B) (m : System A B) : System A B → Type (ℓ ⊔ κ) where
    take_result :
        {r : IndexedResult B} {rest : List (IndexedResult B)}
        → lookup m.consumer.next_idx m.consumer.pending ≡ none
        → m.res_ch ≡ r ∷ rest
        → Consume zero_value m (record m {
          res_ch = rest;
          consumer = record m.consumer { pending = insert r m.consumer.pending };
        })
    give :
        {r r' : Ret B} {c : Reorder B}
        → lookup m.consumer.next_idx m.consumer.pending ≡ some r
        → emit r m.consumer ≡ some (r', c)
        → Consume zero_value m (record m {
          consumer = c;
          emitted = m.emitted ++ r' ∷ [];
          answers = m.answers ++ r' ∷ [];
        })
    give_close :
        {r : Ret B} {noted : List GoError} (order : List (IndexedResult B))
        → Perm order m.consumer.pending
        → lookup m.consumer.next_idx m.consumer.pending ≡ none
        → m.res_ch ≡ []
        → m.res_closed ≡ true
        → at_close zero_value order m.consumer ≡ some (r, record m.consumer { set_errors = noted })
        → Consume zero_value m (record m {
          consumer = record m.consumer { set_errors = noted };
          answers = m.answers ++ r ∷ [];
        })
    give_done :
        (e : GoError)
        → lookup m.consumer.next_idx m.consumer.pending ≡ none
        → is_nil e ≡ false
        → Consume zero_value m
            (record m { answers = m.answers ++ record { val = zero_value; err = e } ∷ [] })

  pub data Step (zero_value : B) (fn : A → Called B) (opts : StreamOptions) (m : System A B)
      : System A B → Type (ℓ ⊔ κ) where
    dispatch : {n : System A B} → Dispatch opts m n → Step zero_value fn opts m n
    work :
        {n : System A B} {w w' : Worker A B} (i : ℕ)
        → get_elem? m.workers i ≡ some w
        → Work zero_value fn opts m w n w'
        → Step zero_value fn opts m (record n { workers = set m.workers i w' })
    consume : {n : System A B} → Consume zero_value m n → Step zero_value fn opts m n
    -- The consumer stops the stream, the stream's context or the task's context ends, and the
    -- goroutine that carries the end of the first two over.
    stop : Step zero_value fn opts m (record m { map_err = cancel_run m.map_err })
    end_ctx :
        (e : GoError)
        → is_nil m.ctx_err ≡ true
        → is_nil e ≡ false
        → Step zero_value fn opts m
            (record m { ctx_err = e; map_err = if is_nil m.map_err then e else m.map_err })
    end_task :
        (e : GoError)
        → is_nil m.run_err ≡ true
        → is_nil e ≡ false
        → Step zero_value fn opts m (record m { run_err = e })
    bridge :
        is_nil m.map_err ≡ false
        → Step zero_value fn opts m (record m { run_err = cancel_run m.run_err })

  pub data Reach (zero_value : B) (fn : A → Called B) (opts : StreamOptions) (m : System A B)
      : System A B → Type (ℓ ⊔ κ) where
    here : Reach zero_value fn opts m m
    next :
        {n k : System A B}
        → Reach zero_value fn opts m n
        → Step zero_value fn opts n k
        → Reach zero_value fn opts m k

  -- Whether the round takes a result on.
  abbrev pub gives_result : {zero_value : B} {m n : System A B} → Consume zero_value m n → Bool
  gives_result (take_result p q) = true
  gives_result (give p q) = true
  gives_result (give_close order pm p q c e) = false
  gives_result (give_done e p q) = false

  -- Whether the consumer does not stop the stream, no call of it ends without a result, and no
  -- context ends from outside.
  abbrev pub quiet :
      {zero_value : B} {fn : A → Called B} {opts : StreamOptions} {m n : System A B}
      → Step zero_value fn opts m n
      → Bool
  quiet (dispatch d) = true
  quiet (work i e w) = true
  quiet (consume c) = gives_result c
  quiet stop = false
  quiet (end_ctx e p q) = false
  quiet (end_task e p q) = false
  quiet (bridge p) = false

  abbrev pub undisturbed :
      {zero_value : B} {fn : A → Called B} {opts : StreamOptions} {m n : System A B}
      → Reach zero_value fn opts m n
      → Bool
  undisturbed here = true
  undisturbed (next r st) = undisturbed r && quiet st

  abbrev pub steps :
      {zero_value : B} {fn : A → Called B} {opts : StreamOptions} {m n : System A B}
      → Reach zero_value fn opts m n
      → ℕ
  steps here = 0
  steps (next r st) = suc (steps r)
