-- ===== src/Scope/Progress.antt =====
-- spawner.go: the steps that the tasks of a scope still have before them.
use scoped.Base.{
  ℕ, zero, suc, ◌<◌, ◌≤◌, ◌≡◌, refl, inl, inr, Bool-cases, true, some, arith, total, total-le,
  Nat-cases, total-Weighty, le-total, total-set, get_elem?, set,
}
use scoped.Errors.{GoError, nil, is_nil}
use scoped.Scope.Config.{Config}
use scoped.Scope.Defs.{Scope, returned}
use scoped.Scope.Tasks.{
  Pc, Task, Move, launched, admitted, tracked, running, exited, closed, reported, leaving,
  untracked, released, waited, finished, track, unlimited, acquire, register, skip, start, finish,
  close_child, report, keep_error, cancel_panic, store_error, cancel_error, end_function, panicking,
  storing, uses_once, unregister, release, wg_done,
}
use scoped.Scope.System.{System, Reach, init, move}
use scoped.Scope.Counting.{unwaited, holds, inside, once_busy}
use scoped.Scope.Invariant.{Inv, Step-Inv, Reach-Inv}

-- How many steps a goroutine has before it at most.
abbrev rank_at : Pc → ℕ
rank_at launched = 13
rank_at admitted = 12
rank_at tracked = 11
rank_at running = 10
rank_at (panicking v) = 9
rank_at exited = 8
rank_at closed = 7
rank_at reported = 6
rank_at storing = 5
rank_at leaving = 4
rank_at untracked = 3
rank_at released = 2
rank_at waited = 1
rank_at finished = 0

abbrev rank : Task → ℕ
rank t = rank_at t.pc

abbrev ready_at : Pc → ℕ
ready_at launched = 0
ready_at waited = 0
ready_at finished = 0
ready_at _ = 1

-- Whether a task is past the wait for its slot, and before its `wg.Done`.
abbrev ready : Task → ℕ
ready t = ready_at t.pc

-- Steps of tasks alone.
pub data Works : System → System → Type 0 where
  rest : {m : System} → Works m m
  work :
      {m n : System} {s : Scope} {t t' : Task} (i : ℕ)
      → get_elem? m.tasks i ≡ some t
      → Move m.scope t s t'
      → Works (record { scope = s; tasks = set m.tasks i t' }) n
      → Works m n

-- A step of a task that brings it nearer to its end.
record Advance (s : Scope) (t : Task) : Type 0 where
  to_scope : Scope
  to_task : Task
  moved : Move s t to_scope to_task
  nearer : rank to_task < rank t

tracked-rank : (now : ℕ) (s : Scope) (t : Task) → rank (track now s t).1 ≡ 11
unfolding track
tracked-rank now s t = ground arith

exited-rank :
    (s : Scope) (t : Task)
    → rank (record t {
      pc = (end_function (returned nil) s).0;
      err = (end_function (returned nil) s).1;
    })
      ≡ 8
unfolding end_function
exited-rank s t = refl

leave_once : (s : Scope) (t : Task) → t.pc ≡ storing → Advance s t
leave_once s t h = record {
  to_scope = _;
  to_task = _;
  moved = cancel_error h;
  nearer = ground (arith, h);
}

-- A failed task that no call inside `errOnce.Do` holds up.
approach_reported :
    (s : Scope) (t : Task)
    → t.pc ≡ reported
    → (s.err_once ≡ true → s.once_over ≡ true)
    → Advance s t
approach_reported s t h free = elim (Bool-cases (uses_once s t)) [
  | inl uses ↦ elim (Bool-cases s.err_once) [
    | inl taken ↦ record {
      to_scope = _;
      to_task = _;
      moved = keep_error h (ground (arith, free taken));
      nearer = ground (arith, h);
    }
    | inr unused_yet ↦ record {
      to_scope = _;
      to_task = _;
      moved = store_error h uses unused_yet;
      nearer = ground (arith, h);
    }
  ]
  | inr unused ↦ record {
    to_scope = _;
    to_task = _;
    moved = keep_error h (ground (arith, unused));
    nearer = ground (arith, h);
  }
]

approach_at :
    (p : Pc) (s : Scope) (t : Task)
    → t.pc ≡ p
    → (s.err_once ≡ true → s.once_over ≡ true)
    → 0 < ready_at p
    → Advance s t
approach_at launched s t h free pos = absurd (omega arith)
approach_at admitted s t h free pos = record {
  to_scope = _;
  to_task = _;
  moved = register 0 h;
  nearer = ground (arith, h, tracked-rank 0 s t);
}
approach_at tracked s t h free pos = elim (Bool-cases (is_nil s.ctx_err)) [
  | inl live ↦ record {
    to_scope = _;
    to_task = _;
    moved = start h live;
    nearer = ground (arith, h);
  }
  | inr over ↦ record { to_scope = _; to_task = _; moved = skip h over; nearer = ground (arith, h) }
]
approach_at running s t h free pos = record {
  to_scope = _;
  to_task = _;
  moved = finish (returned nil) h;
  nearer = ground (arith, h, exited-rank s t);
}
approach_at (panicking v) s t h free pos = record {
  to_scope = _;
  to_task = _;
  moved = cancel_panic h;
  nearer = ground (arith, h);
}
approach_at exited s t h free pos = record {
  to_scope = _;
  to_task = _;
  moved = close_child h;
  nearer = ground (arith, h);
}
approach_at closed s t h free pos = record {
  to_scope = _;
  to_task = _;
  moved = report 0 h;
  nearer = ground (arith, h);
}
approach_at reported s t h free pos = approach_reported s t h free
approach_at storing s t h free pos = leave_once s t h
approach_at leaving s t h free pos = record {
  to_scope = _;
  to_task = _;
  moved = unregister h;
  nearer = ground (arith, h);
}
approach_at untracked s t h free pos = record {
  to_scope = _;
  to_task = _;
  moved = release h;
  nearer = ground (arith, h);
}
approach_at released s t h free pos = record {
  to_scope = _;
  to_task = _;
  moved = wg_done h;
  nearer = ground (arith, h);
}
approach_at waited s t h free pos = absurd (omega arith)
approach_at finished s t h free pos = absurd (omega arith)

advance :
    (s : Scope) (t : Task) → (s.err_once ≡ true → s.once_over ≡ true) → 0 < ready t → Advance s t
advance s t free pos = approach_at t.pc s t refl free pos

-- A task that waits for its slot can have it when none is in use.
enter : (s : Scope) (t : Task) → t.pc ≡ launched → (0 < s.limit → s.sem ≡ 0) → Advance s t
enter s t h free = elim (Nat-cases s.limit) [
  | inl none_set ↦ record {
    to_scope = _;
    to_task = _;
    moved = unlimited h none_set;
    nearer = ground (arith, h);
  }
  | inr pos ↦ record {
    to_scope = _;
    to_task = _;
    moved = acquire h (omega (arith, free pos, pos));
    nearer = ground (arith, h);
  }
]

launched-unready : (t : Task) → 0 < unwaited t → ready t ≡ 0 → t.pc ≡ launched
launched-unready t = at t.pc refl
  where
    at : (p : Pc) → t.pc ≡ p → 0 < unwaited t → ready t ≡ 0 → t.pc ≡ launched
    at launched h pos un = h
    at p h pos un = absurd (ground (arith, h))

holds-le-ready : (t : Task) → holds t ≤ ready t
holds-le-ready t = ground arith

-- Some task can come nearer to its end.
record Progress (m : System) : Type 0 where
  index : ℕ
  task : Task
  at : get_elem? m.tasks index ≡ some task
  advance : Advance m.scope task

inside-storing : (t : Task) → 0 < inside t → t.pc ≡ storing
inside-storing t = at t.pc refl
  where
    at : (p : Pc) → t.pc ≡ p → 0 < inside t → t.pc ≡ storing
    at storing h pos = h
    at p h pos = absurd (ground (arith, h))

once-free : (s : Scope) → once_busy s ≡ 0 → s.err_once ≡ true → s.once_over ≡ true
once-free s h o = ground arith

-- With no call inside `errOnce.Do`.
unhindered :
    (m : System) → Inv m → total inside m.tasks ≡ 0 → 0 < total unwaited m.tasks → Progress m
unhindered m v clear pos = elim (Nat-cases (total ready m.tasks)) [
  | inl unready ↦
      let r = total-Weighty unwaited m.tasks pos in
      record {
        index = r.index;
        task = r.item;
        at = r.at;
        advance =
            enter m.scope r.item
              (launched-unready r.item r.heavy
                (omega (arith, unready, le-total ready m.tasks r.index r.item r.at)))
              (λ l. omega (arith, v.slots l, unready, total-le holds ready holds-le-ready m.tasks));
      }
  | inr some_ready ↦
      let r = total-Weighty ready m.tasks some_ready in
      record {
        index = r.index;
        task = r.item;
        at = r.at;
        advance = advance m.scope r.item (once-free m.scope (omega (arith, v.once, clear))) r.heavy;
      }
]

progress : (m : System) → Inv m → 0 < total unwaited m.tasks → Progress m
progress m v pos = elim (Nat-cases (total inside m.tasks)) [
  | inl clear ↦ unhindered m v clear pos
  | inr busy ↦
      let r = total-Weighty inside m.tasks busy in
      record {
        index = r.index;
        task = r.item;
        at = r.at;
        advance = leave_once m.scope r.item (inside-storing r.item r.heavy);
      }
]

record Settling (m : System) : Type 0 where
  final : System
  works : Works m final
  over : final.scope.wg ≡ 0

unwaited-le-rank : (t : Task) → unwaited t ≤ rank t
unwaited-le-rank t = ground arith

-- By as many steps as the tasks have before them.
settle : (k : ℕ) (m : System) → Inv m → total rank m.tasks ≤ k → Settling m
settle zero m v le = record {
  final = m;
  works = rest;
  over = omega (arith, v.wg, total-le unwaited rank unwaited-le-rank m.tasks);
}
settle (suc k) m v le = elim (Nat-cases (total unwaited m.tasks)) [
  | inl done ↦ record { final = m; works = rest; over = omega (arith, v.wg, done) }
  | inr pos ↦
      let p = progress m v pos in
      let a = p.advance in
      let r =
        settle k (record { scope = a.to_scope; tasks = set m.tasks p.index a.to_task })
          (Step-Inv (move p.index p.at a.moved) v)
          (omega (arith, total-set rank m.tasks p.index p.task a.to_task p.at, a.nearer)) in
      record { final = r.final; works = work p.index p.at a.moved r.works; over = r.over }
]

-- From every state that a new scope reaches, with any limit, some steps of its tasks alone lead to a
-- state where the wait group is at 0. Among the steps are those in which a running function returns.
pub can_settle :
    (c : Config) (parent : GoError) (m : System)
    → Reach (init c parent) m
    → (n : System) × Works m n × (n.scope.wg ≡ 0)
can_settle c parent m r =
    let s = settle (total rank m.tasks) m (Reach-Inv c parent r) (omega arith) in
    (s.final, s.works, s.over)
