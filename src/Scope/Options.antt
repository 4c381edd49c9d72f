-- ===== src/Scope/Options.antt =====
-- options.go: what the options make of a configuration.
use scoped.Base.{
  ◌<◌, ◌≡◌, true, none, some, List, [], ◌∷◌, arith, sym, ◌∙◌, inl, inr, Option-cases, refl,
}
use scoped.Scope.Config.{
  Config, ScopeOption, apply_option, configure, default_config, with_policy, with_limit,
  with_max_errors, with_panic_as_error, with_task_tracking, with_on_start, with_on_done,
  with_on_event, with_on_metrics, with_stall_detector,
}

-- A configuration whose monitors can run: a hook of a monitor comes with a positive interval, and
-- the stall detector with task tracking.
pub record IsSound (c : Config) : Type 0 where
  pub metrics : c.on_metrics ≡ true → 0 < c.metrics_interval
  pub stall : c.on_stall ≡ true → 0 < c.stall_threshold
  pub tracking : c.on_stall ≡ true → c.track_tasks ≡ true

apply_option-IsSound :
    (o : ScopeOption) (c : Config) {c' : Config}
    → apply_option o c ≡ some c'
    → IsSound c
    → IsSound c'
unfolding apply_option
apply_option-IsSound (with_policy p) c e v = ground arith
apply_option-IsSound (with_limit n) c e v = ground arith
apply_option-IsSound (with_max_errors n) c e v = ground arith
apply_option-IsSound with_panic_as_error c e v = ground arith
apply_option-IsSound with_task_tracking c e v = ground arith
apply_option-IsSound (with_on_start hook) c e v = ground arith
apply_option-IsSound (with_on_done hook) c e v = ground arith
apply_option-IsSound (with_on_event hook) c e v = ground arith
apply_option-IsSound (with_on_metrics interval hook) c e v = ground arith
apply_option-IsSound (with_stall_detector threshold hook) c e v = ground arith

step_to :
    (o : ScopeOption) (os : List ScopeOption) (c c' : Config)
    → apply_option o c ≡ some c'
    → configure (o ∷ os) c ≡ configure os c'
unfolding configure
step_to o os c c1 e = cc

step_out :
    (o : ScopeOption) (os : List ScopeOption) (c : Config)
    → apply_option o c ≡ none
    → configure (o ∷ os) c ≡ none
unfolding configure
step_out o os c e = cc

configure-base : (c : Config) → configure [] c ≡ some c
unfolding configure
configure-base c = refl

configured-IsSound :
    (os : List ScopeOption) (c : Config) {c' : Config}
    → configure os c ≡ some c'
    → IsSound c
    → IsSound c'
configured-IsSound [] c e v = ground (arith, configure-base c)
configured-IsSound (o ∷ os) c {c'} e v = elim (Option-cases (apply_option o c)) [
  | inl gone ↦ cc (step_out o os c gone)
  | inr (c1, kept) ↦
      configured-IsSound os c1 (sym (step_to o os c c1 kept) ∙ e) (apply_option-IsSound o c kept v)
]

default-IsSound : IsSound default_config
default-IsSound = ground arith

-- A configuration that `New` makes of its options is sound: a metrics hook comes with a positive
-- interval, a stall hook with a positive threshold and with task tracking, whatever the other
-- options and their order.
pub configure-IsSound :
    (os : List ScopeOption) (c : Config) → configure os default_config ≡ some c → IsSound c
configure-IsSound os c e = configured-IsSound os default_config e default-IsSound
