-- ===== src/Pool/Shutting.antt =====
-- pool.go: the calls of `Close`, by what each has behind it.
use scoped.Base.{ℕ, ◌+◌, ◌<◌, ◌≤◌, ◌≡◌, Bool, true, false, List, [], ◌∷◌, arith, All}
use scoped.Errors.{GoError, join}
use scoped.Pool.Defs.{Pool}
use scoped.Pool.System.{
  Closer, closing, won, waiting, cancelling, joining, returned, Shut, win, lose, close_tasks,
  waited, cancel_ctx, join_errs,
}

abbrev pub bit : Bool → ℕ
bit true = 1
bit false = 0

-- Whether a call of `Close` is about to close the channel.
abbrev pub winning : Closer → ℕ
winning won = 1
winning _ = 0

-- Behind `wg.Wait` the wait group is at 0, and a call that returned gave the errors joined.
abbrev pub Answers : ℕ → List GoError → Closer → Type 0
Answers wg errs closing = Unit
Answers wg errs won = Unit
Answers wg errs waiting = Unit
Answers wg errs cancelling = wg ≡ 0
Answers wg errs joining = wg ≡ 0
Answers wg errs (returned e) = (wg ≡ 0) × (e ≡ join errs)

-- Before the wait group is at 0 no call of `Close` is behind `wg.Wait`.
Answers-awake :
    (wg wg' : ℕ) (errs errs' : List GoError) (c : Closer)
    → 0 < wg
    → Answers wg errs c
    → Answers wg' errs' c
Answers-awake wg wg' errs errs' closing pos a = tt
Answers-awake wg wg' errs errs' won pos a = tt
Answers-awake wg wg' errs errs' waiting pos a = tt
Answers-awake wg wg' errs errs' cancelling pos a = absurd (omega arith)
Answers-awake wg wg' errs errs' joining pos a = absurd (omega arith)
Answers-awake wg wg' errs errs' (returned e) pos a = absurd (omega (arith, a.0))

pub All-awake :
    (wg wg' : ℕ) (errs errs' : List GoError) (cs : List Closer)
    → 0 < wg
    → All (Answers wg errs) cs
    → All (Answers wg' errs') cs
All-awake wg wg' errs errs' [] pos a = tt
All-awake wg wg' errs errs' (c ∷ cs) pos a =
    (Answers-awake wg wg' errs errs' c pos a.0, All-awake wg wg' errs errs' cs pos a.1)

-- What a step of a call of `Close` leaves as it is, and what it does to the flags.
pub record SameRest (p p' : Pool) : Type 0 where
  pub sent : p'.sent ≡ p.sent
  pub taken : p'.taken ≡ p.taken
  pub tasks : p'.tasks ≡ p.tasks
  pub completed : p'.completed ≡ p.completed
  pub in_flight : p'.in_flight ≡ p.in_flight
  pub errored : p'.errored ≡ p.errored
  pub errs : p'.errs ≡ p.errs
  pub wg : p'.wg ≡ p.wg
  pub submitted : p'.submitted ≡ p.submitted
  pub capacity : p'.capacity ≡ p.capacity
  pub workers : p'.workers ≡ p.workers

pub record Shutting (p : Pool) (c : Closer) (p' : Pool) (c' : Closer) : Type 0 where
  pub same : SameRest p p'
  pub once :
      winning c' + bit p'.tasks_closed + bit p.closed
      ≡ winning c + bit p.tasks_closed + bit p'.closed
  pub stays : p.tasks_closed ≡ true → p'.tasks_closed ≡ true
  pub answer : Answers p.wg p.errs c → Answers p.wg p.errs c'

pub Shut-Shutting :
    {p : Pool} {c : Closer} {p' : Pool} {c' : Closer}
    → Shut p c p' c'
    → winning c + bit p.tasks_closed ≤ bit p.closed
    → Shutting p c p' c'
Shut-Shutting (win h) le = ground arith
Shut-Shutting (lose h) le = ground arith
Shut-Shutting close_tasks le = ground arith
Shut-Shutting (waited h) le = ground arith
Shut-Shutting cancel_ctx le = ground arith
Shut-Shutting join_errs le = ground arith
