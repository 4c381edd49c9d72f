-- ===== src/Pool/Invariant.antt =====
-- pool.go: the counters and the queue of a pool against its workers and calls.
use scoped.Base.{
  ℕ, zero, suc, ◌+◌, ◌<◌, ◌≤◌, ◌≡◌, refl, sym, ap, ◌∙◌, true, false, some, List, [], ◌∷◌, ◌++◌,
  arith, length, length-append, length-set, append-nil, total, total-append, total-set, le-total,
  get_elem?, set, replicate, All, All-append, All-get, All-set, Nat-cases, inl, inr,
}
use scoped.Errors.{GoError}
use scoped.Pool.Defs.{Pool}
use scoped.Pool.System.{
  System, Worker, idle, got, Client, checking, sending, counting, Closer, closing, Step, work, call,
  client, hand_over, close, shut, end_parent, Reach, here, next, init,
}
use scoped.Pool.Counting.{
  busy, flying, failing, alive, gone, uncounted, Worked, Work-Worked, Called, Call-Called,
}
use scoped.Pool.Shutting.{bit, winning, Answers, All-awake, Shutting, Shut-Shutting}

pub record Inv (m : System) : Type 0 where
  pub fifo : m.pool.sent ≡ m.pool.taken ++ m.pool.tasks
  pub done : length m.pool.taken ≡ m.pool.completed + total busy m.workers
  pub flight : m.pool.in_flight ≡ total flying m.workers
  pub errs : m.pool.errored ≡ length m.pool.errs + total failing m.workers
  pub wg : m.pool.wg ≡ total alive m.workers
  pub counted : length m.pool.sent ≡ m.pool.submitted + total uncounted m.clients
  pub room : length m.pool.tasks ≤ m.pool.capacity
  pub size : length m.workers ≡ m.pool.workers
  pub left : 0 < total gone m.workers → (m.pool.tasks_closed ≡ true) × (m.pool.tasks ≡ [])
  pub once : total winning m.closers + bit m.pool.tasks_closed ≡ bit m.pool.closed
  pub answers : All (Answers m.pool.wg m.pool.errs) m.closers

handed-fifo :
    (sent taken tasks : List ℕ) (task : ℕ)
    → sent ≡ taken ++ tasks
    → tasks ≡ []
    → sent ++ task ∷ [] ≡ (taken ++ task ∷ []) ++ tasks
handed-fifo sent taken tasks task h empty =
    ground (arith, append-nil taken, append-nil (taken ++ task ∷ []))

length-zero : (l : List ℕ) → length l ≤ 0 → l ≡ []
length-zero [] h = refl
length-zero (x ∷ l) h = absurd (omega arith)

module _ {m : System} (v : Inv m) where
  gone_before :
      {p : Pool} {w w' : Worker} (i : ℕ)
      → get_elem? m.workers i ≡ some w
      → Worked m.pool w p w'
      → 0 < total gone (set m.workers i w')
      → (m.pool.tasks_closed ≡ true) × (m.pool.tasks ≡ [])
  gone_before {p} {w} {w'} i e b l = elim (Nat-cases (gone w')) [
    | inl stays ↦ v.left (omega (arith, total-set gone m.workers i w w' e, stays, l))
    | inr leaves ↦ b.left leaves
  ]

  work-Inv :
      {p : Pool} {w w' : Worker} (i : ℕ)
      → get_elem? m.workers i ≡ some w
      → Worked m.pool w p w'
      → Inv (record m { pool = p; workers = set m.workers i w' })
  work-Inv {p} {w} {w'} i e b = record {
    fifo = b.same.sent ∙ v.fifo ∙ b.fifo;
    done = omega (arith, v.done, b.done, total-set busy m.workers i w w' e);
    flight = omega (arith, v.flight, b.flight, total-set flying m.workers i w w' e);
    errs = omega (arith, v.errs, b.errs, total-set failing m.workers i w w' e);
    wg = omega (arith, v.wg, b.wg, total-set alive m.workers i w w' e);
    counted = ground (arith, v.counted, b.same.sent, b.same.submitted);
    room = omega (arith, v.room, b.room, b.same.capacity);
    size = omega (arith, v.size, b.same.workers, length-set m.workers i w');
    left = λ l.
        let (unopen, empty) = gone_before i e b l in
        (
          b.same.tasks_closed ∙ unopen,
          length-zero p.tasks (omega (arith, b.room, ap length empty)),
        );
    once = ground (arith, v.once, b.same.closed, b.same.tasks_closed);
    answers =
        All-awake m.pool.wg p.wg m.pool.errs p.errs m.closers
          (omega (arith, v.wg, b.awake, le-total alive m.workers i w e)) v.answers;
  }

  client-Inv :
      {p : Pool} {c c' : Client} (i : ℕ)
      → get_elem? m.clients i ≡ some c
      → Called m.pool c p c'
      → Inv (record m { pool = p; clients = set m.clients i c' })
  client-Inv {p} {c} {c'} i e b = record {
    fifo = b.fifo v.fifo;
    done = ground (arith, v.done, b.same.taken, b.same.completed);
    flight = b.same.in_flight ∙ v.flight;
    errs = ground (arith, v.errs, b.same.errored, b.same.errs);
    wg = b.same.wg ∙ v.wg;
    counted = omega (arith, v.counted, b.counted, total-set uncounted m.clients i c c' e);
    room = b.room v.room;
    size = v.size ∙ sym b.same.workers;
    left = λ l. (b.same.tasks_closed ∙ (v.left l).0, sym (b.shut (v.left l).0) ∙ (v.left l).1);
    once = ground (arith, v.once, b.same.closed, b.same.tasks_closed);
    answers = rw (b.same.wg, b.same.errs) v.answers;
  }

  hand_over-Inv :
      {c : Client} (i j : ℕ)
      → get_elem? m.clients i ≡ some c
      → get_elem? m.workers j ≡ some idle
      → c.pc ≡ sending
      → m.pool.tasks_closed ≡ false
      → m.pool.tasks ≡ []
      → Inv (record {
        pool = record m.pool {
          sent = m.pool.sent ++ c.task ∷ [];
          taken = m.pool.taken ++ c.task ∷ [];
        };
        workers = set m.workers j (got c.task);
        clients = set m.clients i (record c { pc = counting });
        closers = m.closers;
      })
  hand_over-Inv {c} i j e e' at unshut empty = record {
    fifo = handed-fifo m.pool.sent m.pool.taken m.pool.tasks c.task v.fifo empty;
    done = omega (
      arith,
      v.done,
      length-append m.pool.taken (c.task ∷ []),
      total-set busy m.workers j idle (got c.task) e',
    );
    flight = omega (arith, v.flight, total-set flying m.workers j idle (got c.task) e');
    errs = omega (arith, v.errs, total-set failing m.workers j idle (got c.task) e');
    wg = omega (arith, v.wg, total-set alive m.workers j idle (got c.task) e');
    counted = ground (
      arith,
      at,
      v.counted,
      length-append m.pool.sent (c.task ∷ []),
      total-set uncounted m.clients i c (record c { pc = counting }) e,
    );
    room = v.room;
    size = omega (arith, v.size, length-set m.workers j (got c.task));
    left = λ l. v.left (omega (arith, l, total-set gone m.workers j idle (got c.task) e'));
    once = v.once;
    answers = v.answers;
  }

  shut-Inv :
      {p : Pool} {c c' : Closer} (i : ℕ)
      → get_elem? m.closers i ≡ some c
      → Shutting m.pool c p c'
      → Inv (record m { pool = p; closers = set m.closers i c' })
  shut-Inv {p} {c} {c'} i e b = record {
    fifo = b.same.sent ∙ v.fifo ∙ ground (arith, b.same.taken, b.same.tasks);
    done = ground (arith, v.done, b.same.taken, b.same.completed);
    flight = b.same.in_flight ∙ v.flight;
    errs = ground (arith, v.errs, b.same.errored, b.same.errs);
    wg = b.same.wg ∙ v.wg;
    counted = ground (arith, v.counted, b.same.sent, b.same.submitted);
    room = ground (arith, v.room, b.same.tasks, b.same.capacity);
    size = v.size ∙ sym b.same.workers;
    left = λ l. (b.stays (v.left l).0, b.same.tasks ∙ (v.left l).1);
    once = omega (arith, v.once, b.once, total-set winning m.closers i c c' e);
    answers =
        rw (b.same.wg, b.same.errs)
          (All-set (Answers m.pool.wg m.pool.errs) m.closers i c' v.answers
            (b.answer (All-get (Answers m.pool.wg m.pool.errs) m.closers i e v.answers)));
  }

  won_first :
      {c : Closer} (i : ℕ)
      → get_elem? m.closers i ≡ some c
      → winning c + bit m.pool.tasks_closed ≤ bit m.pool.closed
  won_first {c} i e = omega (arith, v.once, le-total winning m.closers i c e)

-- Every step keeps the invariant.
pub Step-Inv : {m n : System} → Step m n → Inv m → Inv n
Step-Inv {m} (work {w = w} i e mv) v = work-Inv v i e (
    Work-Worked mv (omega (arith, v.flight, le-total flying m.workers i w e))
      (omega (arith, v.wg, le-total alive m.workers i w e)))
Step-Inv {m} (call trying task) v = record {
  fifo = v.fifo;
  done = v.done;
  flight = v.flight;
  errs = v.errs;
  wg = v.wg;
  counted = ground (
    arith,
    v.counted,
    total-append uncounted m.clients (record { trying = trying; task = task; pc = checking } ∷ []),
  );
  room = v.room;
  size = v.size;
  left = v.left;
  once = v.once;
  answers = v.answers;
}
Step-Inv (client i e mv) v = client-Inv v i e (Call-Called mv)
Step-Inv (hand_over i j e e' at unshut empty) v = hand_over-Inv v i j e e' at unshut empty
Step-Inv {m} close v = record {
  fifo = v.fifo;
  done = v.done;
  flight = v.flight;
  errs = v.errs;
  wg = v.wg;
  counted = v.counted;
  room = v.room;
  size = v.size;
  left = v.left;
  once = omega (arith, v.once, total-append winning m.closers (closing ∷ []));
  answers = All-append (Answers m.pool.wg m.pool.errs) m.closers closing v.answers tt;
}
Step-Inv (shut i e mv) v = shut-Inv v i e (Shut-Shutting mv (won_first v i e))
Step-Inv (end_parent e p q) v = record {
  fifo = v.fifo;
  done = v.done;
  flight = v.flight;
  errs = v.errs;
  wg = v.wg;
  counted = v.counted;
  room = v.room;
  size = v.size;
  left = v.left;
  once = v.once;
  answers = v.answers;
}

replicate_weight : (n : ℕ) (w : Worker → ℕ) → w idle ≡ 0 → total w (replicate n idle) ≡ 0
replicate_weight zero w h = refl
replicate_weight (suc n) w h = omega (arith, h, replicate_weight n w h)

replicate-alive : (n : ℕ) → total alive (replicate n idle) ≡ n
replicate-alive zero = refl
replicate-alive (suc n) = omega (arith, replicate-alive n)

length-replicate : (n : ℕ) → length (replicate n idle) ≡ n
length-replicate zero = refl
length-replicate (suc n) = omega (arith, length-replicate n)

init-Inv : (n size : ℕ) (parent : GoError) → Inv (init n size parent)
init-Inv n size parent = record {
  fifo = refl;
  done = omega (arith, replicate_weight n busy refl);
  flight = omega (arith, replicate_weight n flying refl);
  errs = omega (arith, replicate_weight n failing refl);
  wg = omega (arith, replicate-alive n);
  counted = omega arith;
  room = omega arith;
  size = length-replicate n;
  left = λ l. absurd (omega (arith, replicate_weight n gone refl));
  once = omega arith;
  answers = tt;
}

-- In every state that a new pool reaches, by the steps of its workers and of any calls of `Submit`,
-- `TrySubmit` and `Close`, in any order: the tasks sent to the channel are those received and then
-- those in the buffer, in order, and the buffer is within its capacity; the counters count the
-- workers and calls; the channel is closed at most once; and a call of `Close` that is behind
-- `wg.Wait` finds the wait group at 0 and returns the kept errors joined.
pub reached-Inv :
    (n size : ℕ) (parent : GoError) {m : System} → Reach (init n size parent) m → Inv m
reached-Inv n size parent here = init-Inv n size parent
reached-Inv n size parent (next r st) = Step-Inv st (reached-Inv n size parent r)
