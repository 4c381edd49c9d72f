-- ===== src/Helpers/Examples.antt =====
-- The theorems on helpers at seven items with a limit of three.
use scoped.Base.{ℕ, ◌+◌, ◌<◌, ◌≤◌, ◌≡◌, refl, true, if◌then◌else◌, ◌==◌, List, [], ◌∷◌, arith, All}
use scoped.Errors.{GoError, is_nil, nil, plain}
use scoped.Scope.Config.{Config, collect, default_config}
use scoped.Scope.{new, begin_task, emit_completion_event, finalize}
use scoped.Scope.Tasks.{
  end_function, uses_once, unlimited, register, start, close_child, report, keep_error, unregister,
  release, wg_done, track, emit_started, record_failure, untrack,
}
use scoped.Helpers.Defs.{should_use_worker_fast_path, worker_count, run_worker}
use scoped.Helpers.Striping.{across, occurrences, each_index_once, each_index_at_most_once}
use scoped.Helpers.Mapping.{
  ItemCall, gave, ItemResult, Mapping, init, spawn_item, run, move_task, close_spawner, Reach, here,
  next, answer,
}
use scoped.Helpers.Standing.{is_fine}
use scoped.Helpers.Results.{map_slice_results}

-- The function fails for the last index.
abbrev fails_last : ℕ → GoError
fails_last j = if j == 6 then plain 1 else nil

abbrev live : ℕ → GoError
live j = nil

fails_last-before : (j : ℕ) → j < 5 → is_nil (fails_last j) ≡ true
fails_last-before j lt = ground arith

each_index_once_example :
    across 0 3 (λ start. occurrences 5 (run_worker live fails_last 7 7 3 start).0) ≡ 1
unfolding worker_count
each_index_once_example =
    each_index_once live fails_last 3 7 5 (omega arith) (λ j le. refl) fails_last-before

each_index_at_most_once_example :
    (across 0 3 (λ start. occurrences 6 (run_worker live fails_last 7 7 3 start).0) ≤ 1)
    × (0 < 3)
    × (3 ≤ 7)
unfolding worker_count
each_index_at_most_once_example = each_index_at_most_once live fails_last 3 7 6 (omega arith)

-- `MapSlice` over two items under Collect, the second of which fails; its task is the first to run.
abbrev collecting : Config
collecting = record default_config { policy = collect }

abbrev tried : ℕ → ItemCall ℕ
tried n = if n == 4 then gave 0 (plain 8) else gave (n + n) nil

abbrev mapped :
    (m : Mapping ℕ) × Reach tried (3 ∷ 4 ∷ []) (init {T = ℕ} 0 (3 ∷ 4 ∷ []) collecting nil) m
unfolding should_use_worker_fast_path begin_task new track emit_started end_function uses_once
    emit_completion_event record_failure untrack
mapped = (
  _,
  next
      (next
        (next
          (next
            (next
              (next
                (next
                  (next
                    (next
                      (next
                        (next
                          (next
                            (next
                              (next
                                (next
                                  (next
                                    (next
                                      (next
                                        (next
                                          (next
                                            (next
                                              (next (next here (spawn_item refl refl refl))
                                                (spawn_item refl refl refl))
                                              (move_task 1 refl refl (unlimited refl refl)))
                                            (move_task 1 refl refl (register 5 refl)))
                                          (move_task 1 refl refl (start refl refl)))
                                        (run 1 refl refl refl refl))
                                      (move_task 1 refl refl (close_child refl)))
                                    (move_task 1 refl refl (report 2 refl)))
                                  (move_task 1 refl refl (keep_error refl refl)))
                                (move_task 1 refl refl (unregister refl)))
                              (move_task 1 refl refl (release refl)))
                            (move_task 1 refl refl (wg_done refl)))
                          (close_spawner refl))
                        (move_task 0 refl refl (unlimited refl refl)))
                      (move_task 0 refl refl (register 5 refl)))
                    (move_task 0 refl refl (start refl refl)))
                  (run 0 refl refl refl refl))
                (move_task 0 refl refl (close_child refl)))
              (move_task 0 refl refl (report 2 refl)))
            (move_task 0 refl refl (keep_error refl refl)))
          (move_task 0 refl refl (unregister refl)))
        (move_task 0 refl refl (release refl)))
      (move_task 0 refl refl (wg_done refl)),
)

abbrev mapped_results : List (ItemResult ℕ)
mapped_results = record { value = 6; err = nil } ∷ record { value = 0; err = plain 8 } ∷ []

map_slice_results_example :
    (answer collect (finalize mapped.0.system.scope).0 mapped.0.results ≡ (mapped_results, nil))
    × All (λ v. is_fine collect (tried v) ≡ true) (3 ∷ 4 ∷ [])
unfolding mapped finalize should_use_worker_fast_path
map_slice_results_example =
    map_slice_results 0 tried (3 ∷ 4 ∷ []) collecting nil mapped.0 refl mapped.1 refl refl refl
