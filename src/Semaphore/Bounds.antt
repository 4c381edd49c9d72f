-- ===== src/Semaphore/Bounds.antt =====
-- semaphore.go: the counters of a semaphore against its callers.
use scoped.Base.{
  ℕ, ◌+◌, ◌<◌, ◌≤◌, ◌≡◌, refl, some, [], ◌∷◌, arith, total, total-set, total-append, total-le,
  le-total, get_elem?,
}
use scoped.Semaphore.System.{
  Semaphore, Caller, acquiring, trying, counting, holding, draining, panicked, available, Use,
  enter, cancel, try_enter, try_refuse, count, release, overdraw, drain, System, init, Step, call,
  try_call, move, Reach, here, next,
}

-- Whether a caller has an item in the channel, holds a slot, or panicked.
abbrev pub in_channel : Caller → ℕ
in_channel counting = 1
in_channel holding = 1
in_channel draining = 1
in_channel _ = 0

abbrev pub holds : Caller → ℕ
holds holding = 1
holds _ = 0

abbrev pub panics : Caller → ℕ
panics panicked = 1
panics _ = 0

pub record Inv (n : ℕ) (m : System) : Type 0 where
  pub cap : m.semaphore.cap ≡ n
  pub slots : m.semaphore.slots ≡ total in_channel m.callers
  pub acquired : m.semaphore.acquired ≡ total holds m.callers
  pub bound : m.semaphore.slots ≤ n
  pub quiet : total panics m.callers ≡ 0

record Used (s : Semaphore) (c : Caller) (s' : Semaphore) (c' : Caller) : Type 0 where
  cap : s'.cap ≡ s.cap
  slots : s'.slots + in_channel c ≡ s.slots + in_channel c'
  acquired : s'.acquired + holds c ≡ s.acquired + holds c'
  bound : s.slots ≤ s.cap → s'.slots ≤ s'.cap
  quiet : panics c' ≡ panics c

Use-Used :
    {s s' : Semaphore} {c c' : Caller}
    → Use s c s' c'
    → in_channel c ≤ s.slots
    → holds c ≤ s.acquired
    → Used s c s' c'
Use-Used (enter lt) le le' = ground arith
Use-Used cancel le le' = ground arith
Use-Used (try_enter lt) le le' = ground arith
Use-Used (try_refuse full) le le' = ground arith
Use-Used count le le' = ground arith
Use-Used (release pos) le le' = ground arith
Use-Used (overdraw z) le le' = absurd (omega arith)
Use-Used (drain pos) le le' = ground arith

step-Inv : {n : ℕ} {m k : System} → Step m k → Inv n m → Inv n k
step-Inv {n} {m} call v = record {
  cap = v.cap;
  slots = omega (arith, v.slots, total-append in_channel m.callers (acquiring ∷ []));
  acquired = omega (arith, v.acquired, total-append holds m.callers (acquiring ∷ []));
  bound = v.bound;
  quiet = omega (arith, v.quiet, total-append panics m.callers (acquiring ∷ []));
}
step-Inv {n} {m} try_call v = record {
  cap = v.cap;
  slots = omega (arith, v.slots, total-append in_channel m.callers (trying ∷ []));
  acquired = omega (arith, v.acquired, total-append holds m.callers (trying ∷ []));
  bound = v.bound;
  quiet = omega (arith, v.quiet, total-append panics m.callers (trying ∷ []));
}
step-Inv {n} {m} (move {s} {c} {c'} i e u) v =
    let b =
      Use-Used u (omega (arith, v.slots, le-total in_channel m.callers i c e))
        (omega (arith, v.acquired, le-total holds m.callers i c e)) in
    record {
      cap = omega (arith, b.cap, v.cap);
      slots = omega (arith, v.slots, b.slots, total-set in_channel m.callers i c c' e);
      acquired = omega (arith, v.acquired, b.acquired, total-set holds m.callers i c c' e);
      bound = omega (arith, v.bound, v.cap, b.cap, b.bound);
      quiet = omega (arith, v.quiet, b.quiet, total-set panics m.callers i c c' e);
    }

reach-Inv : (n : ℕ) {m : System} → Reach (init n) m → Inv n m
reach-Inv n here = record {
  cap = refl;
  slots = refl;
  acquired = refl;
  bound = omega arith;
  quiet = refl;
}
reach-Inv n (next r st) = step-Inv st (reach-Inv n r)

holds-le : (c : Caller) → holds c ≤ in_channel c
holds-le c = ground arith

-- When every caller acquires before it releases, in any interleaving: no more callers than the
-- capacity hold a slot, the counter is their number, `Available` is the capacity less the items in
-- the channel, which are at least the callers that hold, and no `Release` panics.
pub holders-le-cap :
    (n : ℕ) (m : System)
    → Reach (init n) m
    → (total holds m.callers ≤ n)
      × (m.semaphore.acquired ≡ total holds m.callers)
      × (available m.semaphore + total in_channel m.callers ≡ n)
      × (total panics m.callers ≡ 0)
unfolding available
holders-le-cap n m r =
    let v = reach-Inv n r in
    let le = total-le holds in_channel holds-le m.callers in
    (
      omega (arith, v.slots, v.bound, le),
      v.acquired,
      omega (arith, v.cap, v.bound, v.slots),
      v.quiet,
    )

-- The receive of `Release` never waits: a caller that is about to take its item out of the channel
-- finds one there.
pub release-ready :
    (n : ℕ) (m : System) (i : ℕ)
    → Reach (init n) m
    → get_elem? m.callers i ≡ some draining
    → 0 < m.semaphore.slots
release-ready n m i r e =
    omega (arith, (reach-Inv n r).slots, le-total in_channel m.callers i draining e)
