-- ===== src/Result/Waiting.antt =====
-- result.go: what `Wait` returns, against what the scope is told.
use scoped.Base.{◌≡◌, refl, Bool, true, false, Option, none, some}
use scoped.Errors.{GoError}
use scoped.Scope.{Scope, exec}
use scoped.Result.Defs.{
  Ending, gives, panics, Course, ran, never_ran, resolve, new_result, result_task, spawn_result,
  wait,
}

-- The value of an ending.
abbrev pub ending_value {ℓ} : {T : Type ℓ} → T → Ending T → T
ending_value zero_val (gives v e) = v
ending_value zero_val (panics p) = zero_val

-- Whether the task ran.
abbrev pub has_run {ℓ} : {T : Type ℓ} → Course T → Bool
has_run (ran ending) = true
has_run never_ran = false

-- Whether `Wait` returns.
abbrev pub returns {ℓ} : {T : Type ℓ} → Option (T × GoError) → Bool
returns none = false
returns (some r) = true

module _ {ℓ} {T : Type ℓ} where
  -- When the scope turns panics into errors and the task ran, `Wait` returns the function's value,
  -- the zero value if it panicked, with the error that `exec` gives the scope for the task, or with
  -- a `*PanicError` of its own of the same panic; and a later `resolve` does not change that.
  pub wait-exec :
      (zero_val : T) (ending : Ending T) (s : Scope) (v : T) (e : GoError)
      → s.panic_as_err ≡ true
      → (wait (spawn_result zero_val (ran ending))
          ≡ some (
            ending_value zero_val ending,
            (exec (result_task zero_val ending (new_result zero_val)).1 s).0,
          ))
        × (wait (resolve v e (spawn_result zero_val (ran ending)))
            ≡ wait (spawn_result zero_val (ran ending)))
  unfolding wait spawn_result result_task resolve exec
  wait-exec zero_val (gives w f) s v e h = (refl, refl)
  wait-exec zero_val (panics p) s v e h = (rw h refl, refl)

  -- `Wait` blocks for good exactly when the task never ran, which is so when the scope's context was
  -- done before the task began.
  pub wait-blocks :
      (zero_val : T) (course : Course T)
      → returns (wait (spawn_result zero_val course)) ≡ has_run course
  unfolding wait spawn_result result_task resolve
  wait-blocks zero_val (ran (gives v e)) = refl
  wait-blocks zero_val (ran (panics p)) = refl
  wait-blocks zero_val never_ran = refl
