-- ===== src/Pool/Closing.antt =====
-- pool.go: a pool whose workers have all left.
use scoped.Base.{
  ℕ, ◌+◌, ◌<◌, ◌≤◌, ◌≡◌, refl, sym, ap, ◌∙◌, true, some, List, [], ◌∷◌, ◌++◌, arith, append-nil,
  length, total, le-total, get_elem?, All-get,
}
use scoped.Errors.{GoError, join}
use scoped.Pool.Defs.{Pool}
use scoped.Pool.System.{
  System, Worker, Client, Closer, returned, Work, Call, Shut, Step, work, call, client, hand_over,
  close, shut, end_parent, Reach, here, next, init, receive, leave, begin, finish, count_error,
  keep_error, leave_flight, complete, refuse, pass, send, recover, give_up, would_block, count, win,
  lose, close_tasks, waited, cancel_ctx, join_errs,
}
use scoped.Pool.Counting.{Call-Called, busy, flying, failing, alive, gone}
use scoped.Pool.Shutting.{Answers}
use scoped.Pool.Invariant.{Inv, Step-Inv, reached-Inv}

-- Every task that was sent was taken, in the order of the sends, and its end was counted; its error
-- too, if it had one, and was kept.
pub record Drained (m : System) : Type 0 where
  pub shut : m.pool.tasks_closed ≡ true
  pub tasks : m.pool.tasks ≡ []
  pub taken : m.pool.taken ≡ m.pool.sent
  pub completed : m.pool.completed ≡ length m.pool.sent
  pub in_flight : m.pool.in_flight ≡ 0
  pub errored : m.pool.errored ≡ length m.pool.errs

alive-gone : (ws : List Worker) → total alive ws + total gone ws ≡ length ws
alive-gone [] = refl
alive-gone (w ∷ ws) = ground (arith, alive-gone ws)

weight-le-alive : (w : Worker) → (busy w ≤ alive w) × (flying w ≤ alive w) × (failing w ≤ alive w)
weight-le-alive w = ground arith

weights-le-alive :
    (ws : List Worker)
    → (total busy ws ≤ total alive ws)
      × (total flying ws ≤ total alive ws)
      × (total failing ws ≤ total alive ws)
weights-le-alive [] = (omega arith, omega arith, omega arith)
weights-le-alive (w ∷ ws) =
    let (b, f, e) = weight-le-alive w in
    let (b', f', e') = weights-le-alive ws in
    (omega (arith, b, b'), omega (arith, f, f'), omega (arith, e, e'))

pub all_left : {m : System} → Inv m → 0 < m.pool.workers → m.pool.wg ≡ 0 → Drained m
all_left {m} v pos h =
    let (b, f, e) = weights-le-alive m.workers in
    let (unopen, empty) = v.left (omega (arith, alive-gone m.workers, v.size, v.wg)) in
    let taken = sym (v.fifo ∙ (ap (λ l. m.pool.taken ++ l) empty ∙ append-nil m.pool.taken)) in
    record {
      shut = unopen;
      tasks = empty;
      taken = taken;
      completed = omega (arith, v.done, v.wg, b, ap length taken);
      in_flight = omega (arith, v.flight, v.wg, f);
      errored = omega (arith, v.errs, v.wg, e);
    }

-- What stays as it is once all workers have left.
record SameResult (p p' : Pool) : Type 0 where
  errs : p'.errs ≡ p.errs
  sent : p'.sent ≡ p.sent
  wg : p'.wg ≡ p.wg
  workers : p'.workers ≡ p.workers

work-SameResult :
    {p p' : Pool} {w w' : Worker} → Work p w p' w' → alive w ≤ p.wg → p.wg ≡ 0 → SameResult p p'
work-SameResult (receive h) le z = absurd (omega arith)
work-SameResult (leave h q) le z = absurd (omega arith)
work-SameResult begin le z = absurd (omega arith)
work-SameResult (finish o) le z = absurd (omega arith)
work-SameResult count_error le z = absurd (omega arith)
work-SameResult keep_error le z = absurd (omega arith)
work-SameResult leave_flight le z = absurd (omega arith)
work-SameResult complete le z = absurd (omega arith)

call-SameResult :
    {p p' : Pool} {c c' : Client} → Call p c p' c' → p.tasks_closed ≡ true → SameResult p p'
call-SameResult (refuse h q) z = ground arith
call-SameResult (pass h q) z = ground arith
call-SameResult (send h q lt) z = cc
call-SameResult (recover h q) z = ground arith
call-SameResult (give_up h q r) z = ground arith
call-SameResult (would_block h q r s) z = ground arith
call-SameResult (count h) z = ground arith

shut-SameResult : {p p' : Pool} {c c' : Closer} → Shut p c p' c' → SameResult p p'
shut-SameResult (win h) = ground arith
shut-SameResult (lose h) = ground arith
shut-SameResult close_tasks = ground arith
shut-SameResult (waited h) = ground arith
shut-SameResult cancel_ctx = ground arith
shut-SameResult join_errs = ground arith

step-SameResult :
    {m n : System}
    → Step m n
    → Inv m
    → 0 < m.pool.workers
    → m.pool.wg ≡ 0
    → SameResult m.pool n.pool
step-SameResult {m} (work {w = w} i e mv) v pos z =
    work-SameResult mv (omega (arith, v.wg, le-total alive m.workers i w e)) z
step-SameResult (call trying task) v pos z = ground arith
step-SameResult (client i e mv) v pos z = call-SameResult mv (all_left v pos z).shut
step-SameResult (hand_over i j e e' at unshut empty) v pos z = let d = (all_left v pos z).shut in cc
step-SameResult close v pos z = ground arith
step-SameResult (shut i e mv) v pos z = shut-SameResult mv
step-SameResult (end_parent e p q) v pos z = ground arith

reach-SameResult :
    {m n : System}
    → Reach m n
    → Inv m
    → 0 < m.pool.workers
    → m.pool.wg ≡ 0
    → SameResult m.pool n.pool × Inv n
reach-SameResult here v pos z = (ground arith, v)
reach-SameResult (next r st) v pos z =
    let (same, v') = reach-SameResult r v pos z in
    let same' =
      step-SameResult st v' (omega (arith, same.workers, pos)) (omega (arith, same.wg, z)) in
    (
      record {
        errs = same'.errs ∙ same.errs;
        sent = same'.sent ∙ same.sent;
        wg = same'.wg ∙ same.wg;
        workers = same'.workers ∙ same.workers;
      },
      Step-Inv st v',
    )

work-workers : {p p' : Pool} {w w' : Worker} → Work p w p' w' → p'.workers ≡ p.workers
work-workers (receive h) = refl
work-workers (leave h q) = refl
work-workers begin = refl
work-workers (finish o) = refl
work-workers count_error = refl
work-workers keep_error = refl
work-workers leave_flight = refl
work-workers complete = refl

step-workers : {m n : System} → Step m n → n.pool.workers ≡ m.pool.workers
step-workers (work i e mv) = work-workers mv
step-workers (call trying task) = refl
step-workers (client i e mv) = (Call-Called mv).same.workers
step-workers (hand_over i j e e' at unshut empty) = refl
step-workers close = refl
step-workers (shut i e mv) = (shut-SameResult mv).workers
step-workers (end_parent e p q) = refl

pub init-workers :
    (n size : ℕ) (parent : GoError) {m : System} → Reach (init n size parent) m → m.pool.workers ≡ n
init-workers n size parent here = refl
init-workers n size parent (next r st) = step-workers st ∙ init-workers n size parent r

module _ (n size : ℕ) (parent : GoError) (pos : 0 < n) (m : System)
    (r : Reach (init n size parent) m) (i : ℕ) (e : GoError)
    (at : get_elem? m.closers i ≡ some (returned e)) (k : System) (later : Reach m k) where
  some_worker : 0 < m.pool.workers
  some_worker = rw (init-workers n size parent r) pos

  answer : (m.pool.wg ≡ 0) × (e ≡ join m.pool.errs)
  answer =
      All-get (Answers m.pool.wg m.pool.errs) m.closers i at (reached-Inv n size parent r).answers

  -- When a call of `Close` on a pool with a positive number of workers has returned, then from there
  -- on, whatever calls follow, every task that any call sent to the channel was received by a worker
  -- exactly once and in the order of the sends, the completed tasks number those sent, none is in
  -- flight or in the queue, the errored tasks number the errors kept, no further task is sent, and
  -- the call's result is the kept errors joined.
  pub close_drains : Drained k × (k.pool.sent ≡ m.pool.sent) × (e ≡ join k.pool.errs)
  close_drains =
      let (same, v) = reach-SameResult later (reached-Inv n size parent r) some_worker answer.0 in
      (
        all_left v (omega (arith, same.workers, some_worker)) (omega (arith, same.wg, answer.0)),
        same.sent,
        answer.1 ∙ sym (ap join same.errs),
      )

  -- Every call of `Close` on a pool with a positive number of workers that returns after another one
  -- did returns the same result.
  pub closes_agree : (j : ℕ) (e' : GoError) → get_elem? k.closers j ≡ some (returned e') → e' ≡ e
  closes_agree j e' at' =
      let v = (reach-SameResult later (reached-Inv n size parent r) some_worker answer.0).1 in
      (All-get (Answers k.pool.wg k.pool.errs) k.closers j at' v.answers).1 ∙ sym close_drains.2
