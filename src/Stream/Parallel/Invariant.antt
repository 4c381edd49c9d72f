-- ===== src/Stream/Parallel/Invariant.antt =====
-- stream.go, `ParallelMap`: the counts in every state that the dispatcher, the workers and the
-- consumer reach.
use scoped.Base.{ℕ, suc, ◌-◌, ◌≤◌, ◌≡◌, ap, some, List, ◌∷◌, arith, length, total}
use scoped.Errors.{GoError}
use scoped.Stream.Defs.{Ret}
use scoped.Stream.Parallel.Defs.{StreamOptions, IndexedResult, Reorder, lookup, delete, emit}
use scoped.Stream.Parallel.System.{
  Called, System, init, Consume, take_result, give, give_close, give_done, Step, dispatch, work,
  consume, stop, end_ctx, end_task, bridge, Reach, here, next,
}
use scoped.Stream.Parallel.Indices.{
  same, below, result_at, insert-count, length-insert, length-delete, delete-count, lookup-count,
}
use scoped.Stream.Parallel.Counting.{
  Counts, Once, init-Counts, Dispatch-Counts, Dispatch-Once, work-Counts, work-Once,
}

below-le : (n i : ℕ) → below n i ≤ 1
below-le n i = ground arith

same_self : (i : ℕ) → same i i ≡ 1
same_self i = ground arith

-- What giving out a result does to the reorder buffer.
pub record Emitted {ℓ} {B : Type ℓ} (r : Ret B) (c : Reorder B) (r' : Ret B) (c' : Reorder B)
    : Type ℓ where
  pub ret : r' ≡ r
  pub next_idx : c'.next_idx ≡ suc c.next_idx
  pub pending : c'.pending ≡ delete c.next_idx c.pending
  pub slots : c'.slots ≡ c.slots - 1

module _ {ℓ} {B : Type ℓ} where
  pub emit-Emitted :
      (r : Ret B) (c : Reorder B) (r' : Ret B) (c' : Reorder B)
      → emit r c ≡ some (r', c')
      → Emitted r c r' c'
  unfolding emit
  emit-Emitted r c r' c' h = ground (arith, h)

module _ {ℓ κ} {A : Type ℓ} {B : Type κ} (zero_value : B) (fn : A → Called B)
    (opts : StreamOptions) where
  -- A result that arrives is not in the reorder buffer yet.
  pub arriving :
      (m : System A B) (r : IndexedResult B) (rest : List (IndexedResult B))
      → Once r.idx m
      → m.res_ch ≡ r ∷ rest
      → total (result_at r.idx) m.consumer.pending ≡ 0
  arriving m r rest o h =
      omega (arith, o, below-le m.input_idx r.idx, same_self r.idx, ap (total (result_at r.idx)) h)

  -- A result that is given out was in the reorder buffer once.
  given_once :
      (m : System A B)
      → Once m.consumer.next_idx m
      → (r : Ret B) → lookup m.consumer.next_idx m.consumer.pending ≡ some r
      → total (result_at m.consumer.next_idx) m.consumer.pending ≡ 1
  given_once m o r h = omega (
    arith,
    o,
    lookup-count m.consumer.next_idx m.consumer.pending r h,
    below-le m.input_idx m.consumer.next_idx,
  )

  pub given :
      (m : System A B)
      → Once m.consumer.next_idx m
      → (r : Ret B) → lookup m.consumer.next_idx m.consumer.pending ≡ some r
      → length m.consumer.pending ≡ suc (length (delete m.consumer.next_idx m.consumer.pending))
  given m o r h =
      omega (arith, given_once m o r h, length-delete m.consumer.next_idx m.consumer.pending)

  Consume-Counts :
      (m n : System A B)
      → Consume zero_value m n
      → ((i : ℕ) → Once i m)
      → Counts opts m
      → Counts opts n
  Consume-Counts m n (take_result {r} {rest} none_there h) o v =
      let fresh = arriving m r rest (o r.idx) h in
      let longer = length-insert r m.consumer.pending fresh in
      record {
        wg = v.wg;
        sem = v.sem;
        sem_bound = v.sem_bound;
        tokens = omega (arith, v.tokens, longer, ap length h);
        tokens_lost = omega (arith, v.tokens_lost, longer, ap length h);
        token_bound = v.token_bound;
        room = omega (arith, v.room, ap length h);
        over = v.over;
        closed = v.closed;
        quiet = v.quiet;
      }
  Consume-Counts m n (give {r} {r'} {c} there h) o v =
      let e = emit-Emitted r m.consumer r' c h in
      let shorter = given m (o m.consumer.next_idx) r there in
      let pending = ap length e.pending in
      record {
        wg = v.wg;
        sem = v.sem;
        sem_bound = v.sem_bound;
        tokens = omega (arith, v.tokens, shorter, pending, e.slots);
        tokens_lost = omega (arith, v.tokens_lost, shorter, pending, e.slots);
        token_bound = omega (arith, v.token_bound, e.slots);
        room = v.room;
        over = v.over;
        closed = v.closed;
        quiet = v.quiet;
      }
  Consume-Counts m n (give_close {r} {noted} order pm p q c e) o v = ground arith
  Consume-Counts m n (give_done e p q) o v = ground arith

  Consume-Once :
      (i : ℕ) (m n : System A B) → Consume zero_value m n → ((i : ℕ) → Once i m) → Once i n
  Consume-Once i m n (take_result {r} {rest} none_there h) o = omega (
    arith,
    o i,
    insert-count i r m.consumer.pending (arriving m r rest (o r.idx) h),
    ap (total (result_at i)) h,
  )
  Consume-Once i m n (give {r} {r'} {c} there h) o =
      let e = emit-Emitted r m.consumer r' c h in
      let once = given_once m (o m.consumer.next_idx) r there in
      ground (
        arith,
        o i,
        once,
        e.next_idx,
        ap (total (result_at i)) e.pending,
        delete-count i m.consumer.next_idx m.consumer.pending,
      )
  Consume-Once i m n (give_close order pm p q c e) o = o i
  Consume-Once i m n (give_done e p q) o = o i

  Step-Counts :
      (m n : System A B)
      → Step zero_value fn opts m n
      → ((i : ℕ) → Once i m)
      → Counts opts m
      → Counts opts n
  Step-Counts m n (dispatch d) o v = Dispatch-Counts opts m n d v
  Step-Counts m n (work {n = k} {w} {w'} i e mv) o v =
      work-Counts zero_value fn opts m k i w w' v e mv
  Step-Counts m n (consume c) o v = Consume-Counts m n c o v
  Step-Counts m n stop o v = ground arith
  Step-Counts m n (end_ctx e p q) o v = ground arith
  Step-Counts m n (end_task e p q) o v = ground arith
  Step-Counts m n (bridge p) o v = ground arith

  Step-Once :
      (i : ℕ) (m n : System A B)
      → Step zero_value fn opts m n
      → Counts opts m
      → ((j : ℕ) → Once j m)
      → Once i n
  Step-Once i m n (dispatch d) v o = Dispatch-Once opts i m n d (o i)
  Step-Once i m n (work {n = k} {w} {w'} j e mv) v o =
      work-Once zero_value fn opts i m k j w w' v e mv (o i)
  Step-Once i m n (consume c) v o = Consume-Once i m n c o
  Step-Once i m n stop v o = o i
  Step-Once i m n (end_ctx e p q) v o = o i
  Step-Once i m n (end_task e p q) v o = o i
  Step-Once i m n (bridge p) v o = o i

  pub reached :
      (items : List A) (source_end : GoError) (m : System A B)
      → Reach zero_value fn opts (init items source_end) m
      → Counts opts m × ((i : ℕ) → Once i m)
  reached items source_end m here = (init-Counts opts items source_end, λ i. ground arith)
  reached items source_end m (next {n} r st) =
      let (v, o) = reached items source_end n r in
      (Step-Counts n m st o v, λ i. Step-Once i n m st v o)
