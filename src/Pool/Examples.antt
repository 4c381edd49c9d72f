-- ===== src/Pool/Examples.antt =====
-- The theorems on pools at a pool with one worker and one place in its queue.
use scoped.Base.{ℕ, ◌+◌, ◌≤◌, ◌≡◌, refl, true, false, [], ◌∷◌, arith}
use scoped.Errors.{nil, canceled, plain, join}
use scoped.Scope.{returned}
use scoped.Pool.Defs.{task_err}
use scoped.Pool.System.{
  System, idle, exited, answered, accepted, Closer, waiting, work, call, client, close, shut, Reach,
  here, next, init, receive, leave, begin, finish, count_error, keep_error, leave_flight, complete,
  pass, send, count, win, lose, close_tasks, waited, cancel_ctx, join_errs,
}
use scoped.Pool.Closing.{Drained, close_drains}
use scoped.Pool.Termination.{Works, rest, step, effort, Works-le-effort, close_can_end}

abbrev start : System
start = init 1 1 nil

-- A task was sent, and is counted.
abbrev sent : System
sent = record {
  pool = record start.pool { tasks = 5 ∷ []; sent = 5 ∷ []; submitted = 1 };
  workers = idle ∷ [];
  clients = record { trying = false; task = 5; pc = answered accepted } ∷ [];
  closers = [];
}

sent-Reach : Reach start sent
sent-Reach =
    next
      (next (next (next here (call false 5)) (client 0 refl (pass refl refl)))
        (client 0 refl (send refl refl (omega arith))))
      (client 0 refl (count refl))

-- `Close` closed the channel, with the task still in it.
abbrev shutting : System
shutting = record {
  pool = record sent.pool { closed = true; tasks_closed = true };
  workers = sent.workers;
  clients = sent.clients;
  closers = waiting ∷ [];
}

shutting-Reach : Reach start shutting
shutting-Reach =
    next (next (next sent-Reach close) (shut 0 refl (win refl))) (shut 0 refl close_tasks)

-- The task failed, and its worker left.
abbrev over : System
over = record {
  pool = record shutting.pool {
    tasks = [];
    taken = 5 ∷ [];
    wg = 0;
    errs = plain 1 ∷ [];
    errored = 1;
    completed = 1;
  };
  workers = exited ∷ [];
  clients = shutting.clients;
  closers = waiting ∷ [];
}

over-Works : Works shutting 8 over
unfolding task_err
over-Works = step 0 refl (receive refl) (
    step 0 refl begin (
      step 0 refl (finish (returned (plain 1))) (
        step 0 refl count_error (
          step 0 refl keep_error (
            step 0 refl leave_flight
              (step 0 refl complete (step 0 refl (leave refl refl) rest)))))))

over-Reach : Reach start over
unfolding task_err
over-Reach =
    next
      (next
        (next
          (next
            (next
              (next (next (next shutting-Reach (work 0 refl (receive refl))) (work 0 refl begin))
                (work 0 refl (finish (returned (plain 1)))))
              (work 0 refl count_error))
            (work 0 refl keep_error))
          (work 0 refl leave_flight))
        (work 0 refl complete))
      (work 0 refl (leave refl refl))

-- The call of `Close` returned.
abbrev ended : System
ended = record {
  pool = record over.pool { ctx_err = canceled };
  workers = over.workers;
  clients = over.clients;
  closers = Closer.returned (join (plain 1 ∷ [])) ∷ [];
}

ended-Reach : Reach start ended
ended-Reach =
    next (next (next over-Reach (shut 0 refl (waited refl))) (shut 0 refl cancel_ctx))
      (shut 0 refl join_errs)

-- A second call of `Close` returned.
abbrev again : System
again = record {
  pool = ended.pool;
  workers = ended.workers;
  clients = ended.clients;
  closers = Closer.returned (join (plain 1 ∷ [])) ∷ Closer.returned (join (plain 1 ∷ [])) ∷ [];
}

again-later : Reach ended again
again-later =
    next
      (next (next (next (next here close) (shut 1 refl (lose refl))) (shut 1 refl (waited refl)))
        (shut 1 refl cancel_ctx))
      (shut 1 refl join_errs)

close_drains_example :
    Drained again
    × (again.pool.sent ≡ ended.pool.sent)
    × (join (plain 1 ∷ []) ≡ join again.pool.errs)
close_drains_example =
    close_drains 1 1 nil (omega arith) ended ended-Reach 0 (join (plain 1 ∷ [])) refl again
      again-later

Works-le-effort_example : 8 + effort over ≤ effort shutting
Works-le-effort_example = Works-le-effort over-Works

close_can_end_example :
    (k : ℕ) × (final : System) × Works shutting k final
    × (final.pool.wg ≡ 0)
    × (k ≤ effort shutting)
close_can_end_example = close_can_end 1 1 nil shutting shutting-Reach refl
