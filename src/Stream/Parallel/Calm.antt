-- ===== src/Stream/Parallel/Calm.antt =====
-- stream.go, `ParallelMap`: what holds while the consumer does not stop the stream, no call of it
-- ends without a result, and no context ends from outside, and how many steps are left then.
use scoped.Base.{
  ℕ, suc, ◌+◌, ◌*◌, ◌≡◌, refl, ap, Bool, true, false, not, ◌&&◌, if◌then◌else◌, some, List, [], ◌∷◌,
  arith, length, length-append, total, total-append, total-set, le-total, get_elem?, set,
}
use scoped.Errors.{GoError, is_nil}
use scoped.Stream.Parallel.Defs.{StreamOptions}
use scoped.Stream.Parallel.System.{
  Called, Worker, calling, sending, leaving, released, gone, crashed, Pc, pulling, indexing, gating,
  adding, slotting, launching, undoing, waiting, deferring, closing, ended, System, init, Dispatch,
  pull, pull_end, pull_done, index, gate, gate_done, add, slot, slot_done, undo, launch, wait,
  stop_run, close_results, Work, call_fn, send, crash, give_up, free, finish, Consume, take_result,
  give_close, give_done, give, Step, dispatch, work, consume, stop, end_ctx, end_task, bridge,
  Reach, here, next, quiet, gives_result, undisturbed, steps,
}
use scoped.Stream.Parallel.Indices.{length-insert}
use scoped.Stream.Parallel.Weights.{bit, alive}
use scoped.Stream.Parallel.Counting.{Counts, Once}
use scoped.Stream.Parallel.Invariant.{emit-Emitted, arriving, given, reached}

module _ {ℓ} {A : Type ℓ} where
  -- Whether the dispatcher is behind `runCancel`, whether it is behind the end of the source, and
  -- whether it took the way of an ended context.
  abbrev pub pc_stopped : Pc A → Bool
  pc_stopped (closing e) = true
  pc_stopped (ended e) = true
  pc_stopped _ = false

  abbrev pub pc_drained : Pc A → Bool
  pc_drained (waiting b) = true
  pc_drained (deferring e) = true
  pc_drained (closing e) = true
  pc_drained (ended e) = true
  pc_drained _ = false

  abbrev pub pc_astray : Pc A → ℕ
  pc_astray undoing = 1
  pc_astray (waiting b) = bit b
  pc_astray (deferring e) = if is_nil e then 0 else 1
  pc_astray (closing e) = if is_nil e then 0 else 1
  pc_astray (ended e) = if is_nil e then 0 else 1
  pc_astray _ = 0

  -- The index that the next item gets, where an item has one.
  abbrev pub pc_behind : ℕ → Pc A → ℕ
  pc_behind k (gating i v) = suc i
  pc_behind k (adding i v) = suc i
  pc_behind k (slotting i v) = suc i
  pc_behind k (launching i v) = suc i
  pc_behind k _ = k

  -- The steps that the dispatcher, a worker and a result have before them, the item's own included.
  abbrev pub pc_left : Pc A → ℕ
  pc_left pulling = 4
  pc_left (indexing v) = 15
  pc_left (gating i v) = 14
  pc_left (adding i v) = 13
  pc_left (slotting i v) = 12
  pc_left (launching i v) = 11
  pc_left undoing = 4
  pc_left (waiting b) = 3
  pc_left (deferring e) = 2
  pc_left (closing e) = 1
  pc_left (ended e) = 0

module _ {ℓ κ} {A : Type ℓ} {B : Type κ} where
  abbrev pub worker_left : Worker A B → ℕ
  worker_left (calling i v) = 6
  worker_left (sending r) = 5
  worker_left leaving = 2
  worker_left released = 1
  worker_left gone = 0
  worker_left crashed = 0

  abbrev pub effort : System A B → ℕ
  effort m =
      12 * length m.source
      + pc_left m.pc
      + total worker_left m.workers
      + 2 * length m.res_ch
      + length m.consumer.pending

  pub record Calm (m : System A B) : Type 0 where
    pub lost : length m.lost ≡ 0
    pub run : is_nil m.run_err ≡ not (pc_stopped m.pc)
    pub drained : (if pc_drained m.pc then length m.source else 0) ≡ 0
    pub straight : pc_astray m.pc ≡ 0
    pub behind : pc_behind m.input_idx m.pc ≡ m.input_idx

  -- A step that keeps the calm, and takes one off the steps that are left.
  pub record Advance (m n : System A B) : Type 0 where
    pub calm : Calm n
    pub effort : suc (effort n) ≡ effort m

  Dispatch-Advance :
      (opts : StreamOptions) (m n : System A B) → Dispatch opts m n → Calm m → Advance m n
  Dispatch-Advance opts m n (pull h q) v = ground arith
  Dispatch-Advance opts m n (pull_end h q p) v = ground arith
  Dispatch-Advance opts m n (pull_done e h q p) v = ground arith
  Dispatch-Advance opts m n (index h) v = ground arith
  Dispatch-Advance opts m n (gate h lt) v = ground arith
  Dispatch-Advance opts m n (gate_done h q) v = ground arith
  Dispatch-Advance opts m n (add h) v = ground arith
  Dispatch-Advance opts m n (slot h lt) v = ground arith
  Dispatch-Advance opts m n (slot_done h q) v = ground arith
  Dispatch-Advance opts m n (undo h) v = ground arith
  Dispatch-Advance opts m n (launch {i} {v = x} h) v =
      ground (arith, total-append worker_left m.workers (calling i x ∷ []))
  Dispatch-Advance opts m n (wait h z) v = ground arith
  Dispatch-Advance opts m n (stop_run h) v = ground arith
  Dispatch-Advance opts m n (close_results h) v = ground arith

  module _ (zero_value : B) (fn : A → Called B) (opts : StreamOptions) where
    work-Advance :
        (m n : System A B) (i : ℕ) (w w' : Worker A B)
        → get_elem? m.workers i ≡ some w
        → Work zero_value fn opts m w n w'
        → Counts opts m
        → Calm m
        → Advance m (record n { workers = set m.workers i w' })
    work-Advance m n i w w' e call_fn c v = ground (arith, total-set worker_left m.workers i w w' e)
    work-Advance m n i w w' e (send {r} p q) c v =
        ground (arith, total-set worker_left m.workers i w w' e, length-append m.res_ch (r ∷ []))
    work-Advance m n i w w' e (crash p) c v =
        ground (arith, c.closed, c.over, le-total alive m.workers i w e)
    work-Advance m n i w w' e (give_up p) c v =
        ground (arith, c.over, v.run, le-total alive m.workers i w e)
    work-Advance m n i w w' e free c v = ground (arith, total-set worker_left m.workers i w w' e)
    work-Advance m n i w w' e finish c v = ground (arith, total-set worker_left m.workers i w w' e)

    Consume-Advance :
        (m n : System A B) (d : Consume zero_value m n)
        → gives_result d ≡ true
        → ((i : ℕ) → Once i m)
        → Calm m
        → Advance m n
    Consume-Advance m n (take_result {r} {rest} none_there h) own o v = record {
      calm = record {
        lost = v.lost;
        run = v.run;
        drained = v.drained;
        straight = v.straight;
        behind = v.behind;
      };
      effort = omega (
        arith,
        length-insert r m.consumer.pending (arriving zero_value fn opts m r rest (o r.idx) h),
        ap length h,
      );
    }
    Consume-Advance m n (give {r} {r'} {c} there h) own o v =
        let e = emit-Emitted r m.consumer r' c h in
        record {
          calm = record {
            lost = v.lost;
            run = v.run;
            drained = v.drained;
            straight = v.straight;
            behind = v.behind;
          };
          effort = omega (
            arith,
            given zero_value fn opts m (o m.consumer.next_idx) r there,
            ap length e.pending,
          );
        }
    Consume-Advance m n (give_close order pm p q c e) own o v = absurd (ground (arith, own))
    Consume-Advance m n (give_done e p q) own o v = absurd (ground (arith, own))

    pub step-Advance :
        (m n : System A B) (st : Step zero_value fn opts m n)
        → quiet st ≡ true
        → Counts opts m
        → ((i : ℕ) → Once i m)
        → Calm m
        → Advance m n
    step-Advance m n (dispatch d) q c o v = Dispatch-Advance opts m n d v
    step-Advance m n (work {n = k} {w} {w'} i e mv) q c o v = work-Advance m k i w w' e mv c v
    step-Advance m n (consume d) q c o v = Consume-Advance m n d q o v
    step-Advance m n stop q c o v = cc
    step-Advance m n (end_ctx e p r) q c o v = cc
    step-Advance m n (end_task e p r) q c o v = cc
    step-Advance m n (bridge p) q c o v = cc

    both : (a b : Bool) → (a && b) ≡ true → (a ≡ true) × (b ≡ true)
    both a b h = (ground arith, ground arith)

    pub calm :
        (items : List A) (source_end : GoError) (m : System A B)
        → (r : Reach zero_value fn opts (init items source_end) m) → undisturbed r ≡ true
        → Calm m × (steps r + effort m ≡ 12 * length items + 4)
    calm items source_end m here u = (
      record { lost = refl; run = refl; drained = refl; straight = refl; behind = refl },
      omega arith,
    )
    calm items source_end m (next {n} r st) u =
        let (before, now) = both (undisturbed r) (quiet st) u in
        let (v, e) = calm items source_end n r before in
        let (c, o) = reached zero_value fn opts items source_end n r in
        let a = step-Advance n m st now c o v in (a.calm, omega (arith, e, a.effort))
