-- ===== src/Scope/Lasting.antt =====
-- spawner.go and scope.go: what no step of a scope undoes.
use scoped.Base.{◌≡◌, refl, ◌∙◌, sym, ap, Bool, true, false, if◌then◌else◌, pick_false, some, arith}
use scoped.Errors.{GoError, is_nil}
use scoped.Scope.Config.{Config}
use scoped.Scope.Defs.{Scope, new, cancel, begin_task, cancel_first, returned, panics_with}
use scoped.Scope.Tasks.{
  Task, Move, unlimited, acquire, give_up, register, skip, start, finish, close_child, report,
  keep_error, cancel_panic, store_error, cancel_error, end_function, unregister, release, wg_done,
  deactivate, track, untrack, emit_started, emit_skipped, record_failure,
}
use scoped.Scope.System.{
  System, init, spawn_root, spawn_child, move, close_root, cancel_scope, end_parent,
}
use scoped.Scope.System
use scoped.Scope.Aggregation.{report-SameErrors}

-- What no step of a scope undoes: its configuration, a closed root spawner, and the error of its
-- context.
record Keeps (s s' : Scope) : Type 0 where
  config : s'.config ≡ s.config
  root : (if s.root_open then false else s'.root_open) ≡ false
  ctx : (if is_nil s.ctx_err then s'.ctx_err else s.ctx_err) ≡ s'.ctx_err

Move-Keeps : {s : Scope} {t : Task} {s' : Scope} {t' : Task} → Move s t s' t' → Keeps s s'
unfolding track untrack emit_started emit_skipped record_failure end_function cancel cancel_first
Move-Keeps (unlimited h q) = ground arith
Move-Keeps (acquire h q) = ground arith
Move-Keeps (give_up h q r) = ground arith
Move-Keeps (register now h) = ground arith
Move-Keeps (skip h q) = ground arith
Move-Keeps (start h q) = ground arith
Move-Keeps (finish (returned e) h) = ground arith
Move-Keeps (finish (panics_with w) h) = ground arith
Move-Keeps (cancel_panic h) = ground arith
Move-Keeps (close_child h) = ground arith
Move-Keeps {s} {t} (report elapsed h) = ground (arith, report-SameErrors t.info t.err elapsed s)
Move-Keeps (keep_error h q) = ground arith
Move-Keeps (store_error h q p) = ground arith
Move-Keeps (cancel_error h) = ground arith
Move-Keeps (unregister h) = ground arith
Move-Keeps (release h) = ground arith
Move-Keeps (wg_done h) = ground arith
Move-Keeps (deactivate h) = ground arith

begin-Keeps : (b : Bool) (s : Scope) {s' : Scope} → begin_task b s ≡ some s' → Keeps s s'
unfolding begin_task
begin-Keeps false s e = cc
begin-Keeps true s e = ground arith

Step-Keeps : {m n : System} → System.Step m n → Keeps m.scope n.scope
unfolding cancel
Step-Keeps {m} (spawn_root info nested e) = begin-Keeps _ m.scope e
Step-Keeps {m} (spawn_child i info nested q e) = begin-Keeps _ m.scope e
Step-Keeps (move i e mv) = Move-Keeps mv
Step-Keeps close_root = ground arith
Step-Keeps (cancel_scope cause) = ground arith
Step-Keeps (end_parent e p q) = ground arith

pub still_closed :
    {m n : System} → System.Step m n → m.scope.root_open ≡ false → n.scope.root_open ≡ false
still_closed {m} {n} st h = sym (pick_false _ _ h) ∙ (Step-Keeps st).root

-- A context that was cancelled keeps its error.
pub still_cancelled :
    {m n : System}
    → System.Reach m n
    → is_nil m.scope.ctx_err ≡ false
    → n.scope.ctx_err ≡ m.scope.ctx_err
still_cancelled System.here h = refl
still_cancelled {m} (System.next {n} r st) h =
    let before = still_cancelled r h in
    sym (Step-Keeps st).ctx ∙ pick_false _ _ (ap is_nil before ∙ h) ∙ before

-- The configuration of a scope is the one that it was made with.
pub same_config :
    (c : Config) (parent : GoError) {m : System}
    → System.Reach (init c parent) m
    → m.scope.config ≡ c
unfolding new
same_config c parent System.here = refl
same_config c parent (System.next r st) = (Step-Keeps st).config ∙ same_config c parent r
