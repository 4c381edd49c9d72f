-- ===== src/Scope/WaitExamples.antt =====
-- The theorems on `Wait` with two calls, on a scope whose only task has failed.
use scoped.Base.{◌≡◌, refl, false, set}
use scoped.Errors.{nil, plain, task_error}
use scoped.Scope.Defs.{
  Ending, returns, raise_or_return, wait_ending, cancel, policy_err, first_panic,
}
use scoped.Scope.System.{System, init}
use scoped.Scope.System
use scoped.Scope.Handle.{
  Handle, ended, fresh, Reach, next, close, await, check, cancel_ctx, read_panic, read_errs,
  surface, store, signal, enter_spawned, enter_later, leave, expire, answer, finalizes, call_wait,
  call_wait_timeout, start, turn,
}
use scoped.Scope.Waits.{wait_answers}
use scoped.Scope.Returning.{Alone, running, wait_can_return}
use scoped.Scope.Examples.{config, info}
use scoped.Scope.Examples

-- A call of `WaitTimeout` whose time passes, and one of `Wait` behind it.
abbrev asked : (l : Handle) × Reach (fresh config nil) l
asked = (
  _,
  next
      (next
        (next
          (next (next (running (fresh config nil) Examples.ended-Reach) call_wait_timeout)
            (start 0 refl))
          (turn 1 refl (enter_spawned refl)))
        (turn 0 refl expire))
      call_wait,
)

abbrev body : (l : Handle) × Reach (fresh config nil) l
unfolding cancel policy_err first_panic
body = (
  _,
  next
      (next
        (next
          (next
            (next
              (next
                (next
                  (next
                    (next (next asked.1 (turn 2 refl (enter_later refl))) (finalizes (close refl)))
                    (finalizes (await refl refl)))
                  (finalizes (check refl)))
                (finalizes (cancel_ctx refl)))
              (finalizes (read_panic refl)))
            (finalizes (read_errs refl)))
          (finalizes (surface refl)))
        (finalizes (store refl)))
      (finalizes (signal refl)),
)

abbrev answered : (l : Handle) × Reach (fresh config nil) l
unfolding body
answered = (_, next (next body.1 (turn 2 refl (leave refl))) (turn 2 refl answer))

abbrev failure : Ending
failure = returns (task_error info (plain 1))

wait_answers_example :
    System.Reach (init config nil) answered.0.checked
    × (answered.0.checked.scope.root_open ≡ false)
    × (answered.0.checked.scope.wg ≡ 0)
    × System.Reach answered.0.checked answered.0.system
    × (failure ≡ wait_ending answered.0.checked.scope)
unfolding body answered raise_or_return
wait_answers_example = wait_answers config nil answered.0 2 failure answered.1 refl

wait_can_return_example :
    (n : Handle) × Alone 2 asked.0 n × (e : Ending) × (n.calls ≡ set asked.0.calls 2 (ended e))
wait_can_return_example = wait_can_return config nil asked.0 2 asked.1 refl
