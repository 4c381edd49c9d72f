-- ===== src/Scope/Snapshots.antt =====
-- scope.go and options.go: what a scope shows of itself, `Snapshot` and the check for stalled tasks.
use scoped.Base.{
  ℕ, suc, ◌-◌, ◌≤◌, ◌≡◌, refl, Bool, true, false, if◌then◌else◌, ltb, leb, some, List, [], ◌∷◌, map,
  arith, inl, inr, ◌⊎◌, get_elem?, All, Bool-cases, ◌∙◌,
}
use scoped.Scope.Defs.{Scope, RunningTaskEntry, longest_active, longest}

pub record Metrics : Type 0 where
  pub total_spawned : ℕ
  pub active_tasks : ℕ
  pub completed : ℕ
  pub errored : ℕ
  pub panicked : ℕ
  pub cancelled : ℕ
  pub longest_active : ℕ

pub record RunningTask : Type 0 where
  pub name : ℕ
  pub started : ℕ
  pub elapsed : ℕ

pub record ScopeSnapshot : Type 0 where
  pub metrics : Metrics
  pub running_tasks : List RunningTask
  pub longest_active : ℕ

abbrev running_task : ℕ → RunningTaskEntry → RunningTask
running_task now entry = record {
  name = entry.name;
  started = entry.started;
  elapsed = now - entry.started;
}

unfoldable pub metrics : ℕ → Scope → Metrics
unfolding longest_active
metrics now s = record {
  total_spawned = s.total_spawned;
  active_tasks = s.active_tasks;
  completed = s.completed;
  errored = s.errored_tasks;
  panicked = s.panicked_tasks;
  cancelled = s.cancelled_tasks;
  longest_active = longest_active now s;
}

-- `Snapshot`, which reads the clock twice; nil running tasks are an empty list.
unfoldable pub snapshot : ℕ → ℕ → Scope → ScopeSnapshot
unfolding metrics longest
snapshot first_now now s = record {
  metrics = metrics first_now s;
  running_tasks = if s.track_tasks then map (running_task now) s.running_tasks else [];
  longest_active = if s.track_tasks then longest now s.running_tasks 0 else 0;
}

-- One check of the stall detector: the tasks that it passes to `onStall`.
unfoldable pub stalled : ℕ → ℕ → List RunningTaskEntry → List RunningTask
stalled threshold now [] = []
stalled threshold now (entry ∷ rest) =
    let found = stalled threshold now rest in
    if leb threshold (now - entry.started) then running_task now entry ∷ found else found

longest-grows : (now : ℕ) (es : List RunningTaskEntry) (best : ℕ) → best ≤ longest now es best
unfolding longest
longest-grows now [] best = omega arith
longest-grows now (e ∷ es) best =
    ground
      (arith, longest-grows now es (if ltb best (now - e.started) then now - e.started else best))

abbrev pub IsWithin : ℕ → RunningTask → Type 0
IsWithin l rt = rt.elapsed ≤ l

longest-bounds :
    (now : ℕ) (es : List RunningTaskEntry) (best l : ℕ)
    → longest now es best ≤ l
    → All (IsWithin l) (map (running_task now) es)
unfolding longest
longest-bounds now [] best l le = tt
longest-bounds now (e ∷ es) best l le =
    let best' = if ltb best (now - e.started) then now - e.started else best in
    (ground (arith, longest-grows now es best', le), longest-bounds now es best' l le)

-- `l` is 0 or the elapsed time of one of the tasks.
abbrev pub IsAttained : ℕ → List RunningTask → Type 0
IsAttained l rts =
    (l ≡ 0) ⊎ ((i : ℕ) × (rt : RunningTask) × (get_elem? rts i ≡ some rt) × (l ≡ rt.elapsed))

longer_if : (b : Bool) (x y : ℕ) → b ≡ true → (if b then x else y) ≡ x
longer_if true x y q = refl
longer_if false x y q = cc

shorter_if : (b : Bool) (x y : ℕ) → b ≡ false → (if b then x else y) ≡ y
shorter_if true x y q = cc
shorter_if false x y q = refl

attained :
    (now : ℕ) (es : List RunningTaskEntry) (best : ℕ)
    → (longest now es best ≡ best)
      ⊎ ((i : ℕ) × (rt : RunningTask) × (get_elem? (map (running_task now) es) i ≡ some rt)
          × (longest now es best ≡ rt.elapsed))
unfolding longest
attained now [] best = inl refl
attained now (e ∷ es) best =
    let longer = ltb best (now - e.started) in
    elim (attained now es (if longer then now - e.started else best)) [
      | inl q ↦ elim (Bool-cases longer) [
        | inl is ↦ inr (0, running_task now e, refl, q ∙ longer_if longer _ _ is)
        | inr isnt ↦ inl (q ∙ shorter_if longer _ _ isnt)
      ]
      | inr (i, rt, at, q) ↦ inr (suc i, rt, at, q)
    ]

view :
    (tracked : Bool) (now : ℕ) (es : List RunningTaskEntry)
    → All
        (IsWithin (if tracked then longest now es 0 else 0))
        (if tracked then map (running_task now) es else [])
      × IsAttained
          (if tracked then longest now es 0 else 0)
          (if tracked then map (running_task now) es else [])
view true now es = (longest-bounds now es 0 _ (omega arith), attained now es 0)
view false now es = (tt, inl refl)

-- Of a snapshot, `LongestActive` is the longest elapsed time of its running tasks: none is longer,
-- and it is 0 or the elapsed time of one of them.
pub snapshot_longest :
    (first_now now : ℕ) (s : Scope)
    → let shot = snapshot first_now now s in
      All (IsWithin shot.longest_active) shot.running_tasks
      × IsAttained shot.longest_active shot.running_tasks
unfolding snapshot
snapshot_longest first_now now s = view s.track_tasks now s.running_tasks
