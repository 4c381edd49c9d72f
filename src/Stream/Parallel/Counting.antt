-- ===== src/Stream/Parallel/Counting.antt =====
-- stream.go, `ParallelMap`: the counters of the dispatcher against its workers and results.
use scoped.Base.{
  ℕ, ◌+◌, ◌≤◌, ◌≡◌, refl, ◌∙◌, sym, ap, if◌then◌else◌, some, List, [], ◌∷◌, arith, length,
  length-append, total, total-append, total-set, le-total, get_elem?, set,
}
use scoped.Errors.{GoError}
use scoped.Stream.Parallel.Defs.{StreamOptions}
use scoped.Stream.Parallel.System.{
  Called, Worker, calling, System, init, Dispatch, pull, pull_end, pull_done, index, gate,
  gate_done, add, slot, slot_done, undo, launch, wait, stop_run, close_results, Work, call_fn, send,
  crash, give_up, free, finish, res_chan_size,
}
use scoped.Stream.Parallel.Indices.{same, below, result_at}
use scoped.Stream.Parallel.Weights.{
  bit, alive, placed, laden, broken, worker_at, pc_wg, pc_sem, pc_token, pc_at, pc_over, pc_ended,
}

-- What a step of the dispatcher does to the counts, with its own share in them.
module _ {ℓ κ} {A : Type ℓ} {B : Type κ} where
  -- The tokens that items hold: the dispatcher's, the workers' and the results' that were not
  -- given out.
  abbrev pub held : System A B → ℕ
  held m = pc_token m.pc + total laden m.workers + length m.res_ch + length m.consumer.pending

  -- How often the result of an index is somewhere: with the dispatcher, with a worker, in the
  -- channel, in the reorder buffer, or lost.
  abbrev pub found : ℕ → System A B → ℕ
  found i m =
      pc_at i m.pc
      + total (worker_at i) m.workers
      + total (result_at i) m.res_ch
      + total (result_at i) m.consumer.pending
      + total (same i) m.lost

  pub record Counts (opts : StreamOptions) (m : System A B) : Type 0 where
    pub wg : m.wg ≡ pc_wg m.pc + total alive m.workers
    pub sem : m.sem ≡ pc_sem m.pc + total placed m.workers
    pub sem_bound : m.sem ≤ opts.max_workers
    pub tokens : held m ≤ m.consumer.slots
    pub tokens_lost : m.consumer.slots ≤ held m + length m.lost
    pub token_bound : m.consumer.slots ≤ opts.max_pending
    pub room : length m.res_ch ≤ res_chan_size opts
    pub over : (if pc_over m.pc then total alive m.workers else 0) ≡ 0
    pub closed : bit m.res_closed ≡ pc_ended m.pc
    pub quiet : total broken m.workers ≡ 0

  abbrev pub Once : ℕ → System A B → Type 0
  Once i m = found i m + below m.consumer.next_idx i ≡ below m.input_idx i

  pub init-Counts :
      (opts : StreamOptions) (items : List A) (e : GoError) → Counts opts (init items e)
  init-Counts opts items e = record {
    wg = refl;
    sem = refl;
    sem_bound = omega arith;
    tokens = omega arith;
    tokens_lost = omega arith;
    token_bound = omega arith;
    room = omega arith;
    over = refl;
    closed = refl;
    quiet = refl;
  }

  pub Dispatch-Counts :
      (opts : StreamOptions) (m n : System A B) → Dispatch opts m n → Counts opts m → Counts opts n
  Dispatch-Counts opts m n (pull h q) v = ground arith
  Dispatch-Counts opts m n (pull_end h q p) v = ground arith
  Dispatch-Counts opts m n (pull_done e h q p) v = ground arith
  Dispatch-Counts opts m n (index h) v = ground arith
  Dispatch-Counts opts m n (gate h lt) v = ground arith
  Dispatch-Counts opts m n (gate_done h q) v = ground arith
  Dispatch-Counts opts m n (add h) v = ground arith
  Dispatch-Counts opts m n (slot h lt) v = ground arith
  Dispatch-Counts opts m n (slot_done h q) v = ground arith
  Dispatch-Counts opts m n (undo h) v = ground arith
  Dispatch-Counts opts m n (launch {i} {v = x} h) v = ground (
    arith,
    total-append alive m.workers (calling i x ∷ []),
    total-append placed m.workers (calling i x ∷ []),
    total-append laden m.workers (calling i x ∷ []),
    total-append broken m.workers (calling i x ∷ []),
  )
  Dispatch-Counts opts m n (wait h z) v = ground arith
  Dispatch-Counts opts m n (stop_run h) v = ground arith
  Dispatch-Counts opts m n (close_results h) v = ground arith

  pub Dispatch-Once :
      (opts : StreamOptions) (i : ℕ) (m n : System A B) → Dispatch opts m n → Once i m → Once i n
  Dispatch-Once opts i m n (pull h q) o = ground arith
  Dispatch-Once opts i m n (pull_end h q p) o = ground arith
  Dispatch-Once opts i m n (pull_done e h q p) o = ground arith
  Dispatch-Once opts i m n (index h) o = ground arith
  Dispatch-Once opts i m n (gate h lt) o = ground arith
  Dispatch-Once opts i m n (gate_done h q) o = ground arith
  Dispatch-Once opts i m n (add h) o = ground arith
  Dispatch-Once opts i m n (slot h lt) o = ground arith
  Dispatch-Once opts i m n (slot_done h q) o = ground arith
  Dispatch-Once opts i m n (undo h) o = ground arith
  Dispatch-Once opts i m n (launch {i = j} {v = x} h) o =
      ground (arith, total-append (worker_at i) m.workers (calling j x ∷ []))
  Dispatch-Once opts i m n (wait h z) o = ground arith
  Dispatch-Once opts i m n (stop_run h) o = ground arith
  Dispatch-Once opts i m n (close_results h) o = ground arith

  module _ (zero_value : B) (fn : A → Called B) (opts : StreamOptions) where
    -- What a step of a worker does to the counts, by its own share in them.
    record Worked (m : System A B) (w : Worker A B) (n : System A B) (w' : Worker A B)
        : Type (ℓ ⊔ κ) where
      pc : n.pc ≡ m.pc
      consumer : n.consumer ≡ m.consumer
      res_closed : n.res_closed ≡ m.res_closed
      wg : n.wg + alive w ≡ m.wg + alive w'
      sem : n.sem + placed w ≡ m.sem + placed w'
      tokens :
          length n.res_ch + laden w' + length n.lost ≡ length m.res_ch + laden w + length m.lost
      lost : length m.lost ≤ length n.lost
      room : length m.res_ch ≤ res_chan_size opts → length n.res_ch ≤ res_chan_size opts
      quiet : broken w' ≡ broken w
      grows : alive w' ≤ alive w
      frees : n.sem ≤ m.sem

    Work-Worked :
        (m : System A B) {n : System A B} {w w' : Worker A B}
        → Work zero_value fn opts m w n w'
        → alive w ≤ m.wg
        → placed w ≤ m.sem
        → alive w + bit m.res_closed ≤ 1
        → Worked m w n w'
    Work-Worked m call_fn a p c = ground arith
    Work-Worked m (send {r} h lt) a p c = ground (arith, length-append m.res_ch (r ∷ []))
    Work-Worked m (crash h) a p c = ground arith
    Work-Worked m (give_up h) a p c = ground arith
    Work-Worked m free a p c = ground arith
    Work-Worked m finish a p c = ground arith

    Work-found :
        (i : ℕ) (m : System A B) {n : System A B} {w w' : Worker A B}
        → Work zero_value fn opts m w n w'
        → alive w + bit m.res_closed ≤ 1
        → (total (result_at i) n.res_ch + total (same i) n.lost + worker_at i w'
            ≡ total (result_at i) m.res_ch + total (same i) m.lost + worker_at i w)
          × (n.input_idx ≡ m.input_idx)
    Work-found i m call_fn c = (ground arith, refl)
    Work-found i m (send {r} h lt) c =
        (ground (arith, total-append (result_at i) m.res_ch (r ∷ [])), refl)
    Work-found i m (crash h) c = (ground arith, refl)
    Work-found i m (give_up h) c = (ground arith, refl)
    Work-found i m free c = (ground arith, refl)
    Work-found i m finish c = (ground arith, refl)

    alive_open :
        (m : System A B) (i : ℕ) (w : Worker A B)
        → Counts opts m
        → get_elem? m.workers i ≡ some w
        → alive w + bit m.res_closed ≤ 1
    alive_open m i w v e = ground (arith, v.over, v.closed, le-total alive m.workers i w e)

    pub work-Counts :
        (m n : System A B) (i : ℕ) (w w' : Worker A B)
        → Counts opts m
        → get_elem? m.workers i ≡ some w
        → Work zero_value fn opts m w n w'
        → Counts opts (record n { workers = set m.workers i w' })
    work-Counts m n i w w' v e mv =
        let b =
          Work-Worked m mv (omega (arith, v.wg, le-total alive m.workers i w e))
            (omega (arith, v.sem, le-total placed m.workers i w e)) (alive_open m i w v e) in
        record {
          wg = omega (arith, v.wg, b.wg, ap pc_wg b.pc, total-set alive m.workers i w w' e);
          sem = omega (arith, v.sem, b.sem, ap pc_sem b.pc, total-set placed m.workers i w w' e);
          sem_bound = omega (arith, v.sem_bound, b.frees);
          tokens = omega (
            arith,
            v.tokens,
            b.tokens,
            b.lost,
            ap pc_token b.pc,
            ap (λ c. c.slots) b.consumer,
            ap (λ c. length c.pending) b.consumer,
            total-set laden m.workers i w w' e,
          );
          tokens_lost = omega (
            arith,
            v.tokens_lost,
            b.tokens,
            ap pc_token b.pc,
            ap (λ c. c.slots) b.consumer,
            ap (λ c. length c.pending) b.consumer,
            total-set laden m.workers i w w' e,
          );
          token_bound = omega (arith, v.token_bound, ap (λ c. c.slots) b.consumer);
          room = b.room v.room;
          over = ground (
            arith,
            v.over,
            ap pc_over b.pc,
            b.grows,
            total-set alive m.workers i w w' e,
            le-total alive m.workers i w e,
          );
          closed = ap bit b.res_closed ∙ v.closed ∙ sym (ap pc_ended b.pc);
          quiet = omega (arith, v.quiet, b.quiet, total-set broken m.workers i w w' e);
        }

    pub work-Once :
        (j : ℕ) (m n : System A B) (i : ℕ) (w w' : Worker A B)
        → Counts opts m
        → get_elem? m.workers i ≡ some w
        → Work zero_value fn opts m w n w'
        → Once j m
        → Once j (record n { workers = set m.workers i w' })
    work-Once j m n i w w' v e mv o =
        let open_ = alive_open m i w v e in
        let b =
          Work-Worked m mv (omega (arith, v.wg, le-total alive m.workers i w e))
            (omega (arith, v.sem, le-total placed m.workers i w e)) open_ in
        let (f, k) = Work-found j m mv open_ in
        omega (
          arith,
          o,
          f,
          ap (pc_at j) b.pc,
          ap (λ c. below c.next_idx j) b.consumer,
          ap (λ c. total (result_at j) c.pending) b.consumer,
          ap (λ x. below x j) k,
          total-set (worker_at j) m.workers i w w' e,
        )
