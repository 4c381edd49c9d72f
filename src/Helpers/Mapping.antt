-- ===== src/Helpers/Mapping.antt =====
-- helpers.go, `MapSlice`: its tasks, one for each item, and the results that they write, as steps
-- next to those of its scope. This is the branch for a scope that `shouldUseWorkerFastPath` does
-- not send to the workers.
use scoped.Base.{
  ℕ, ◌≡◌, Bool, true, false, if◌then◌else◌, some, List, [], ◌∷◌, ◌++◌, length, get_elem?, set,
}
use scoped.Helpers.Defs.{should_use_worker_fast_path}
use scoped.Errors.{GoError, PanicValue, TaskInfo, nil, is_nil}
use scoped.Scope.Config.{Config, Policy, fail_fast, collect}
use scoped.Scope.{Scope, Outcome, returned, panics_with, begin_task}
use scoped.Scope.Tasks.{Pc, running, end_function, Task, Move, launch}
use scoped.Scope.System.{System}
use scoped.Scope.System

-- How a call of the function for an item ends.
pub data ItemCall {ℓ} (R : Type ℓ) : Type ℓ where
  gave : R → GoError → ItemCall R
  panicked : PanicValue → ItemCall R

pub record ItemResult {ℓ} (R : Type ℓ) : Type ℓ where
  pub value : R
  pub err : GoError

-- What the task of an item leaves in its place of `results`.
abbrev pub write_result {ℓ} : {R : Type ℓ} → ItemCall R → ItemResult R → ItemResult R
write_result (gave r e) res = if is_nil e then record res { value = r } else record res { err = e }
write_result (panicked v) res = res

abbrev pub outcome_err : Policy → GoError → GoError
outcome_err fail_fast e = e
outcome_err collect e = nil

-- How the function of the task ends.
abbrev pub task_outcome {ℓ} : {R : Type ℓ} → Policy → ItemCall R → Outcome
task_outcome policy (gave r e) = returned (if is_nil e then nil else outcome_err policy e)
task_outcome policy (panicked v) = panics_with v

abbrev pub zero_result {ℓ} : {R : Type ℓ} → R → ItemResult R
zero_result zero_value = record { value = zero_value; err = nil }

-- `make([]ItemResult[R], len(items))`
abbrev pub make_results {ℓ κ} : {T : Type ℓ} {R : Type κ} → R → List T → List (ItemResult R)
make_results zero_value [] = []
make_results zero_value (v ∷ items) = zero_result zero_value ∷ make_results zero_value items

pub record Mapping {κ} (R : Type κ) : Type κ where
  pub system : System
  pub results : List (ItemResult R)

abbrev pub init {ℓ κ} : {T : Type ℓ} {R : Type κ} → R → List T → Config → GoError → Mapping R
init zero_value items c parent = record {
  system = System.init c parent;
  results = make_results zero_value items;
}

abbrev pub no_name : TaskInfo
no_name = record { name = 0 }

abbrev pub is_running : Pc → Bool
is_running running = true
is_running _ = false

-- The task of the item `v` at its function.
abbrev pub run_item {ℓ} : {R : Type ℓ} → ItemCall R → Scope → Pc × GoError × Scope
run_item called s = end_function (task_outcome s.policy called) s

module _ {ℓ κ} {T : Type ℓ} {R : Type κ} where
  -- The next item is spawned; a task runs its function; a task takes another step; `Wait` closes the
  -- spawner behind the loop; the parent context ends.
  pub data Step (fn : T → ItemCall R) (items : List T) (m : Mapping R)
      : Mapping R → Type (ℓ ⊔ κ) where
    spawn_item :
        {s : Scope} {v : T}
        → should_use_worker_fast_path m.system.scope.config (length items) ≡ false
        → get_elem? items (length m.system.tasks) ≡ some v
        → begin_task m.system.scope.root_open m.system.scope ≡ some s
        → Step fn items m (record m {
          system = record { scope = s; tasks = m.system.tasks ++ launch no_name false ∷ [] };
        })
    run :
        {t : Task} {v : T} {res : ItemResult R} (i : ℕ)
        → get_elem? m.system.tasks i ≡ some t
        → get_elem? items i ≡ some v
        → get_elem? m.results i ≡ some res
        → t.pc ≡ running
        → Step fn items m (record {
          system = record {
            scope = (run_item (fn v) m.system.scope).2;
            tasks = set m.system.tasks i (record t {
              pc = (run_item (fn v) m.system.scope).0;
              err = (run_item (fn v) m.system.scope).1;
            });
          };
          results = set m.results i (write_result (fn v) res);
        })
    move_task :
        {s : Scope} {t t' : Task} (i : ℕ)
        → get_elem? m.system.tasks i ≡ some t
        → is_running t.pc ≡ false
        → Move m.system.scope t s t'
        → Step fn items m
            (record m { system = record { scope = s; tasks = set m.system.tasks i t' } })
    close_spawner :
        length m.system.tasks ≡ length items
        → Step fn items m (record m {
          system = record m.system { scope = record m.system.scope { root_open = false } };
        })
    end_parent :
        (e : GoError)
        → is_nil m.system.scope.ctx_err ≡ true
        → is_nil e ≡ false
        → Step fn items m (record m {
          system = record m.system { scope = record m.system.scope { ctx_err = e; ctx_cause = e } };
        })

  pub data Reach (fn : T → ItemCall R) (items : List T) (m : Mapping R)
      : Mapping R → Type (ℓ ⊔ κ) where
    here : Reach fn items m m
    next : {n k : Mapping R} → Reach fn items m n → Step fn items n k → Reach fn items m k

-- What is returned behind `Wait`; nil results are an empty list.
unfoldable pub answer {ℓ} :
    {R : Type ℓ} → Policy → GoError → List (ItemResult R) → List (ItemResult R) × GoError
answer fail_fast err results = if is_nil err then (results, nil) else ([], err)
answer collect err results = if is_nil err then (results, nil) else (results, err)
