-- ===== src/Pool/Options.antt =====
-- pool.go: what `NewPool` makes of its options.
use scoped.Base.{
  ℕ, zero, suc, ◌*◌, ◌≡◌, refl, Bool, true, false, ◌&&◌, if◌then◌else◌, ltb, none, some, List, [],
  ◌∷◌, arith,
}
use scoped.Errors.{GoError}
use scoped.Pool.Defs.{
  PoolConfig, PoolOption, with_queue_size, with_pool_metrics, apply_pool_option, apply_pool_options,
  fresh_pool, new_pool, from_config,
}

-- Whether no option panics.
abbrev pub all_sound : List PoolOption → Bool
all_sound [] = true
all_sound (with_queue_size size ∷ os) = all_sound os
all_sound (with_pool_metrics interval hook ∷ os) = ltb 0 interval && hook && all_sound os

-- The size that the last queue option names.
abbrev pub last_size : ℕ → List PoolOption → ℕ
last_size d [] = d
last_size d (with_queue_size size ∷ os) = last_size size os
last_size d (with_pool_metrics interval hook ∷ os) = last_size d os

from_config-options :
    (n : ℕ) (parent : GoError) (os : List PoolOption) (c : PoolConfig)
    → from_config n parent (apply_pool_options os c)
      ≡ (if all_sound os then some (fresh_pool n (last_size c.queue_size os) parent) else none)
unfolding apply_pool_options apply_pool_option from_config
from_config-options n parent [] c = refl
from_config-options n parent (with_queue_size size ∷ os) c =
    from_config-options n parent os (record c { queue_size = size })
from_config-options n parent (with_pool_metrics interval hook ∷ os) c =
    at_test (ltb 0 interval) hook (
      from_config-options n parent os (record c { on_metrics = true; metrics_interval = interval }))
  where
    at_test :
        (positive given : Bool)
        → from_config n parent
            (apply_pool_options os (record c { on_metrics = true; metrics_interval = interval }))
          ≡ (if all_sound os then some (fresh_pool n (last_size c.queue_size os) parent) else none)
        → from_config n parent
            (elim (if positive && given
              then some (record c { on_metrics = true; metrics_interval = interval })
              else none) [ none ↦ none | some c' ↦ apply_pool_options os c' ])
          ≡ (if positive && given && all_sound os
              then some (fresh_pool n (last_size c.queue_size os) parent)
              else none)
    at_test true true ih = ih
    at_test true false ih = refl
    at_test false given ih = refl

ltb-suc : (n : ℕ) → ltb 0 (suc n) ≡ true
ltb-suc n = ground arith

-- `NewPool` with a positive number of workers and options of which none panics makes an empty pool
-- with that many workers, whose queue has the size that the last `WithQueueSize` names, or twice the
-- number of workers when there is none.
pub new_pool-fresh :
    (n : ℕ) (opts : List PoolOption) (parent : GoError)
    → new_pool n opts parent ≡ (
        if ltb 0 n && all_sound opts
        then some (fresh_pool n (last_size (n * 2) opts) parent)
        else none)
unfolding new_pool
new_pool-fresh zero opts parent = refl
new_pool-fresh (suc n) opts parent = rw (ltb-suc n) (from_config-options (suc n) parent opts _)
