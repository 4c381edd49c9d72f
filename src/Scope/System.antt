-- ===== src/Scope/System.antt =====
-- spawner.go and scope.go: a scope with its tasks, and what may happen in it, in any order.
use scoped.Base.{ℕ, ◌≡◌, Bool, true, false, some, List, [], ◌∷◌, ◌++◌, get_elem?, set}
use scoped.Errors.{TaskInfo, GoError, is_nil}
use scoped.Scope.Config.{Config}
use scoped.Scope.Defs.{Scope, new, cancel, begin_task}
use scoped.Scope.Tasks.{Task, Move, launch}

pub record System : Type 0 where
  pub scope : Scope
  pub tasks : List Task

abbrev pub init : Config → GoError → System
init c parent = record { scope = new c parent; tasks = [] }

-- `Go` or `Spawn` on the root spawner or on a child spawner that its task still holds open, a step
-- of a task, the close of the root spawner (`Run`, `doFinalize`), `Scope.Cancel`, and the end of the
-- parent context.
pub data Step (m : System) : System → Type 0 where
  spawn_root :
      {s : Scope} (info : TaskInfo) (nested : Bool)
      → begin_task m.scope.root_open m.scope ≡ some s
      → Step m (record { scope = s; tasks = m.tasks ++ launch info nested ∷ [] })
  spawn_child :
      {s : Scope} {parent : Task} (i : ℕ) (info : TaskInfo) (nested : Bool)
      → get_elem? m.tasks i ≡ some parent
      → begin_task parent.child_open m.scope ≡ some s
      → Step m (record { scope = s; tasks = m.tasks ++ launch info nested ∷ [] })
  move :
      {s : Scope} {t t' : Task} (i : ℕ)
      → get_elem? m.tasks i ≡ some t
      → Move m.scope t s t'
      → Step m (record { scope = s; tasks = set m.tasks i t' })
  close_root : Step m (record m { scope = record m.scope { root_open = false } })
  cancel_scope : (cause : GoError) → Step m (record m { scope = cancel cause m.scope })
  end_parent :
      (e : GoError)
      → is_nil m.scope.ctx_err ≡ true
      → is_nil e ≡ false
      → Step m (record m { scope = record m.scope { ctx_err = e; ctx_cause = e } })

pub data Reach (m : System) : System → Type 0 where
  here : Reach m m
  next : {n k : System} → Reach m n → Step n k → Reach m k
