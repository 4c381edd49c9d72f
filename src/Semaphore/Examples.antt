-- ===== src/Semaphore/Examples.antt =====
-- The theorems on semaphores at a semaphore with one slot.
use scoped.Base.{◌+◌, ◌≤◌, ◌≡◌, refl, [], ◌∷◌, arith, total}
use scoped.Semaphore.System.{
  holding, refused, available, enter, try_refuse, count, System, init, call, try_call, move, Reach,
  here, next,
}
use scoped.Semaphore.Bounds.{in_channel, holds, panics, holders-le-cap}

abbrev held : System
held = record {
  semaphore = record { slots = 1; cap = 1; acquired = 1 };
  callers = holding ∷ refused ∷ [];
}

held-Reach : Reach (init 1) held
held-Reach =
    next
      (next (next (next (next here call) (move 0 refl (enter (omega arith)))) (move 0 refl count))
        try_call)
      (move 1 refl (try_refuse (omega arith)))

holders-le-cap_example :
    (total holds held.callers ≤ 1)
    × (held.semaphore.acquired ≡ total holds held.callers)
    × (available held.semaphore + total in_channel held.callers ≡ 1)
    × (total panics held.callers ≡ 0)
holders-le-cap_example = holders-le-cap 1 held held-Reach
