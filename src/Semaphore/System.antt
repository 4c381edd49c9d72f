-- ===== src/Semaphore/System.antt =====
-- semaphore.go: the state of a semaphore and the callers of `Acquire`, `TryAcquire` and `Release`, an
-- access to shared state at a time, in any order.
--
-- Each caller makes one call to acquire a slot and, if that succeeds, one call of `Release`; a
-- `Release` with no acquire before it is not modelled, so the counter is a natural number.
use scoped.Base.{
  ℕ, zero, suc, ◌-◌, ◌<◌, ◌≤◌, ◌≡◌, Option, none, some, List, [], ◌∷◌, ◌++◌, get_elem?, set,
}

-- `slots` is the number of items in the channel.
pub record Semaphore : Type 0 where
  pub slots : ℕ
  pub cap : ℕ
  pub acquired : ℕ

-- Where a caller stands; each name says what was done last.
pub data Caller : Type 0 where
  acquiring trying : Caller
  counting : Caller  -- the send to the channel went through
  holding : Caller  -- the call to acquire returned
  draining : Caller  -- `Release` took 1 from the counter
  finished refused panicked : Caller

-- `NewSemaphore`, with `none` for its panic.
unfoldable pub new_semaphore : ℕ → Option Semaphore
new_semaphore zero = none
new_semaphore (suc n) = some (record { slots = 0; cap = suc n; acquired = 0 })

unfoldable pub available : Semaphore → ℕ
available s = s.cap - s.slots

pub data Use (s : Semaphore) : Caller → Semaphore → Caller → Type 0 where
  enter : s.slots < s.cap → Use s acquiring (record s { slots = suc s.slots }) counting
  -- `ctx.Done()` is chosen.
  cancel : Use s acquiring s refused
  try_enter : s.slots < s.cap → Use s trying (record s { slots = suc s.slots }) counting
  try_refuse : s.cap ≤ s.slots → Use s trying s refused
  count : Use s counting (record s { acquired = suc s.acquired }) holding
  release : 0 < s.acquired → Use s holding (record s { acquired = s.acquired - 1 }) draining
  -- The counter goes below 0, 1 is added again, and `Release` panics.
  overdraw : s.acquired ≡ 0 → Use s holding s panicked
  drain : 0 < s.slots → Use s draining (record s { slots = s.slots - 1 }) finished

pub record System : Type 0 where
  pub semaphore : Semaphore
  pub callers : List Caller

abbrev pub init : ℕ → System
init n = record { semaphore = record { slots = 0; cap = n; acquired = 0 }; callers = [] }

pub data Step (m : System) : System → Type 0 where
  call : Step m (record m { callers = m.callers ++ acquiring ∷ [] })
  try_call : Step m (record m { callers = m.callers ++ trying ∷ [] })
  move :
      {s : Semaphore} {c c' : Caller} (i : ℕ)
      → get_elem? m.callers i ≡ some c
      → Use m.semaphore c s c'
      → Step m (record { semaphore = s; callers = set m.callers i c' })

pub data Reach (m : System) : System → Type 0 where
  here : Reach m m
  next : {n k : System} → Reach m n → Step n k → Reach m k
