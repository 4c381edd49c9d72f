-- ===== src/Stream/Parallel/Progress.antt =====
-- stream.go, `ParallelMap`: the limits on workers, on results in the channel and on waiting results
-- together.
use scoped.Base.{
  ℕ, zero, suc, ◌≤◌, ◌<◌, ◌≡◌, refl, ◌∙◌, ap, true, false, none, List, [], ◌∷◌, arith, length,
  total, total-le, inl, inr, ◌⊎◌, Nat-cases, Option-cases,
}
use scoped.Errors.{GoError, is_nil}
use scoped.Stream.Parallel.Defs.{StreamOptions, lookup}
use scoped.Stream.Parallel.System.{
  Called, Worker, Pc, pulling, indexing, gating, adding, slotting, launching, undoing, waiting,
  deferring, closing, ended, System, init, Dispatch, pull, pull_end, pull_done, index, gate,
  gate_done, add, slot, slot_done, undo, launch, wait, stop_run, close_results, Work, call_fn, send,
  crash, give_up, free, finish, take_result, give, give_close, give_done, Step, dispatch, work,
  consume, stop, end_ctx, end_task, bridge, Reach, here, next, quiet, undisturbed,
}
use scoped.Stream.Parallel.Weights.{alive, placed, pc_wg, pc_sem}
use scoped.Stream.Parallel.Counting.{Counts, Once}
use scoped.Stream.Parallel.Invariant.{reached}
use scoped.Stream.Parallel.Calm.{pc_astray, Calm, calm, effort, step-Advance}
use scoped.Stream.Parallel.Delivery.{Finished, idle-Finished, no_items}
use scoped.Stream.Parallel.Turns.{
  Goes, and_true, prepend, gives, takes, some_alive, dispatches, gate_turn, placed-le,
}

module _ {ℓ κ} {A : Type ℓ} {B : Type κ} (zero_value : B) (fn : A → Called B)
    (opts : StreamOptions) where
  Dispatch-end : {m n : System A B} → Dispatch opts m n → n.source_end ≡ m.source_end
  Dispatch-end (pull h q) = refl
  Dispatch-end (pull_end h q p) = refl
  Dispatch-end (pull_done e h q p) = refl
  Dispatch-end (index h) = refl
  Dispatch-end (gate h lt) = refl
  Dispatch-end (gate_done h q) = refl
  Dispatch-end (add h) = refl
  Dispatch-end (slot h lt) = refl
  Dispatch-end (slot_done h q) = refl
  Dispatch-end (undo h) = refl
  Dispatch-end (launch h) = refl
  Dispatch-end (wait h z) = refl
  Dispatch-end (stop_run h) = refl
  Dispatch-end (close_results h) = refl

  Work-end :
      {m n : System A B} {w w' : Worker A B}
      → Work zero_value fn opts m w n w'
      → n.source_end ≡ m.source_end
  Work-end call_fn = refl
  Work-end (send h lt) = refl
  Work-end (crash h) = refl
  Work-end (give_up h) = refl
  Work-end free = refl
  Work-end finish = refl

  Step-end : {m n : System A B} → Step zero_value fn opts m n → n.source_end ≡ m.source_end
  Step-end (dispatch d) = Dispatch-end d
  Step-end (work i e mv) = Work-end mv
  Step-end (consume (take_result none_there h)) = refl
  Step-end (consume (give there h)) = refl
  Step-end (consume (give_close order pm p q c e)) = refl
  Step-end (consume (give_done e p q)) = refl
  Step-end stop = refl
  Step-end (end_ctx e p q) = refl
  Step-end (end_task e p q) = refl
  Step-end (bridge p) = refl

  same_end :
      (items : List A) (source_end : GoError) (m : System A B)
      → Reach zero_value fn opts (init items source_end) m
      → m.source_end ≡ source_end
  same_end items source_end m here = refl
  same_end items source_end m (next {n} r st) = Step-end st ∙ same_end items source_end n r

  module _ (items : List A) (source_end : GoError) (some_workers : 0 < opts.max_workers)
      (some_pending : 0 < opts.max_pending) (ends : is_nil source_end ≡ false) where
    -- What a state offers: it is finished, or a step of the program's own.
    abbrev Turn : System A B → Type (ℓ ⊔ κ)
    Turn m = Finished zero_value fn items m ⊎ Goes zero_value fn opts m

    -- A worker, the channel or the next result goes before what needs all of them idle.
    unless_idle :
        (m : System A B)
        → Counts opts m
        → (total alive m.workers ≡ 0
            → m.res_ch ≡ []
            → lookup m.consumer.next_idx m.consumer.pending ≡ none
            → Turn m)
        → Turn m
    unless_idle m c otherwise = elim (Nat-cases (total alive m.workers)) [
      | inr busy ↦ inr (some_alive zero_value fn opts m some_workers c busy)
      | inl idle ↦ elim (Nat-cases (length m.res_ch)) [
        | inr full ↦ inr (takes zero_value fn opts m m.res_ch refl full)
        | inl empty ↦ elim (Option-cases (lookup m.consumer.next_idx m.consumer.pending)) [
          | inr found ↦ inr (gives zero_value fn opts m found.0 found.1)
          | inl none_there ↦ otherwise idle (no_items m.res_ch empty) none_there
        ]
      ]
    ]

    source_turn :
        (m : System A B) (rest : List A)
        → m.source ≡ rest
        → m.source_end ≡ source_end
        → m.pc ≡ pulling
        → Goes zero_value fn opts m
    source_turn m [] h e p = dispatches zero_value fn opts (pull_end p h (ap is_nil e ∙ ends))
    source_turn m (v ∷ rest) h e p = dispatches zero_value fn opts (pull p h)

    turn :
        (m : System A B) (r : Reach zero_value fn opts (init items source_end) m)
        → undisturbed r ≡ true
        → Counts opts m
        → ((j : ℕ) → Once j m)
        → Calm m
        → (pc : Pc A) → m.pc ≡ pc
        → Turn m
    turn m r u c o q pulling h = inr (source_turn m m.source refl (same_end items source_end m r) h)
    turn m r u c o q (indexing v) h = inr (dispatches zero_value fn opts (index h))
    turn m r u c o q (gating i v) h = unless_idle m c (λ idle empty none_there. inr (
        dispatches zero_value fn opts
          (gate h (gate_turn zero_value fn opts m i v some_pending c o q h idle empty none_there))))
    turn m r u c o q (adding i v) h = inr (dispatches zero_value fn opts (add h))
    turn m r u c o q (slotting i v) h = unless_idle m c (λ idle empty none_there. inr (
        dispatches zero_value fn opts (
          slot h (
            omega (
              arith,
              c.sem,
              ap pc_sem h,
              idle,
              total-le placed alive (placed-le zero_value fn opts) m.workers,
              some_workers,
            )))))
    turn m r u c o q (launching i v) h = inr (dispatches zero_value fn opts (launch h))
    turn m r u c o q undoing h = absurd (omega (arith, q.straight, ap pc_astray h))
    turn m r u c o q (waiting b) h = unless_idle m c (λ idle empty none_there.
        inr (dispatches zero_value fn opts (wait h (omega (arith, c.wg, ap pc_wg h, idle)))))
    turn m r u c o q (deferring e) h = inr (dispatches zero_value fn opts (stop_run h))
    turn m r u c o q (closing e) h = inr (dispatches zero_value fn opts (close_results h))
    turn m r u c o q (ended e) h = unless_idle m c (λ idle empty none_there.
        inl (idle-Finished zero_value fn opts items source_end m r u e h empty none_there))

    record Ending (m : System A B) : Type (ℓ ⊔ κ) where
      final : System A B
      run : Reach zero_value fn opts m final
      own : undisturbed run ≡ true
      over : Finished zero_value fn items final

    offer :
        (m : System A B) (r : Reach zero_value fn opts (init items source_end) m)
        → undisturbed r ≡ true
        → Turn m
    offer m r u =
        let (c, o) = reached zero_value fn opts items source_end m r in
        turn m r u c o (calm zero_value fn opts items source_end m r u).0 m.pc refl

    nearer :
        (m n : System A B) (r : Reach zero_value fn opts (init items source_end) m)
        → undisturbed r ≡ true
        → (st : Step zero_value fn opts m n) → quiet st ≡ true
        → suc (effort n) ≡ effort m
    nearer m n r u st h =
        let (c, o) = reached zero_value fn opts items source_end m r in
        (step-Advance zero_value fn opts m n st h c o
          (calm zero_value fn opts items source_end m r u).0).effort

    run_on :
        (k : ℕ) (m : System A B) (r : Reach zero_value fn opts (init items source_end) m)
        → undisturbed r ≡ true
        → effort m ≤ k
        → Ending m
    run_on zero m r u le = elim (offer m r u) [
      | inl over ↦ record { final = m; run = here; own = refl; over = over }
      | inr g ↦ absurd (omega (arith, nearer m g.to r u g.step g.own))
    ]
    run_on (suc k) m r u le = elim (offer m r u) [
      | inl over ↦ record { final = m; run = here; own = refl; over = over }
      | inr g ↦
          let e =
            run_on k g.to (next r g.step) (and_true (undisturbed r) (quiet g.step) u g.own)
              (omega (arith, nearer m g.to r u g.step g.own)) in
          let (s, own) = prepend zero_value fn opts g.step g.own e.run e.own in
          record { final = e.final; run = s; own = own; over = e.over }
    ]

    -- From every state of a run that nobody disturbs, steps of the dispatcher, of its workers and
    -- of the consumer alone lead to a state where the dispatcher has returned nil and the results
    -- of all items were given out in their order: with one worker and one waiting result allowed
    -- at least, the limits never block each other.
    pub runs_to_end :
        (m : System A B) (r : Reach zero_value fn opts (init items source_end) m)
        → undisturbed r ≡ true
        → (n : System A B) × (s : Reach zero_value fn opts m n) × (undisturbed s ≡ true)
          × Finished zero_value fn items n
    runs_to_end m r u =
        let e = run_on (effort m) m r u (omega arith) in (e.final, e.run, e.own, e.over)
