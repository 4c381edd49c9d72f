-- ===== src/Scope/Config.antt =====
-- options.go: the configuration of a scope and its options. A hook is known by whether it is set.
use scoped.Base.{ℕ, Bool, true, false, ◌&&◌, Option, none, some, List, [], ◌∷◌, if◌then◌else◌, ltb}

pub data Policy : Type 0 where
  fail_fast collect : Policy

abbrev pub is_fail_fast : Policy → Bool
is_fail_fast fail_fast = true
is_fail_fast collect = false

pub record Config : Type 0 where
  pub policy : Policy
  pub limit : ℕ
  pub max_errors : ℕ
  pub panic_as_err : Bool
  pub on_start : Bool
  pub on_done : Bool
  pub on_event : Bool
  pub on_metrics : Bool
  pub metrics_interval : ℕ
  pub track_tasks : Bool
  pub stall_threshold : ℕ
  pub on_stall : Bool

-- `defaultConfig`
abbrev pub default_config : Config
default_config = record {
  policy = fail_fast;
  limit = 0;
  max_errors = 0;
  panic_as_err = false;
  on_start = false;
  on_done = false;
  on_event = false;
  on_metrics = false;
  metrics_interval = 0;
  track_tasks = false;
  stall_threshold = 0;
  on_stall = false;
}

-- An option as it is called: the arguments of `WithPolicy` and so on. A hook is given as whether it
-- is non-nil.
pub data ScopeOption : Type 0 where
  with_policy : Policy → ScopeOption
  with_limit with_max_errors : ℕ → ScopeOption
  with_panic_as_error with_task_tracking : ScopeOption
  with_on_start with_on_done with_on_event : Bool → ScopeOption
  with_on_metrics with_stall_detector : ℕ → Bool → ScopeOption

-- The option applied to the configuration, with `none` for its panic.
unfoldable pub apply_option : ScopeOption → Config → Option Config
apply_option (with_policy p) c = some (record c { policy = p })
apply_option (with_limit n) c = some (record c { limit = n })
apply_option (with_max_errors n) c = some (record c { max_errors = n })
apply_option with_panic_as_error c = some (record c { panic_as_err = true })
apply_option with_task_tracking c = some (record c { track_tasks = true })
apply_option (with_on_start hook) c = some (record c { on_start = hook })
apply_option (with_on_done hook) c = some (record c { on_done = hook })
apply_option (with_on_event hook) c = some (record c { on_event = hook })
apply_option (with_on_metrics interval hook) c =
    if ltb 0 interval && hook
    then some (record c { on_metrics = true; metrics_interval = interval })
    else none
apply_option (with_stall_detector threshold hook) c =
    if ltb 0 threshold && hook
    then some (record c { stall_threshold = threshold; on_stall = true; track_tasks = true })
    else none

-- The loop of `New` over the options.
unfoldable pub configure : List ScopeOption → Config → Option Config
unfolding apply_option
configure [] c = some c
configure (o ∷ os) c = elim (apply_option o c) [ none ↦ none | some c' ↦ configure os c' ]
