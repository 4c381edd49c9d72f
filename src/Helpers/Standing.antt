-- ===== src/Helpers/Standing.antt =====
-- helpers.go, `MapSlice`: what the task of an item has written, in a scope without trouble.
use scoped.Base.{
  ℕ, ltb, ◌≡◌, ap, subst, sym, Bool, true, false, not, ◌||◌, some, List, [], ◌∷◌, arith, length,
  length-append, inl, inr, Bool-cases,
}
use scoped.Errors.{GoError, nil, is_nil, panic_error}
use scoped.Scope.Config.{Policy, fail_fast, collect}
use scoped.Scope.{Scope, returned, panics_with, begin_task, cancel, cancel_first}
use scoped.Scope.Tasks.{
  Pc, launched, admitted, tracked, running, exited, closed, reported, Task, Move, unlimited,
  acquire, give_up, register, skip, start, finish, close_child, report, keep_error, cancel_panic,
  store_error, cancel_error, end_function, uses_once, unregister, release, wg_done, deactivate,
  track, untrack, emit_started, emit_skipped, record_failure,
}
use scoped.Scope.System.{System}
use scoped.Scope.System
use scoped.Scope.Aggregation.{report-SameErrors}
use scoped.Helpers.Mapping.{
  ItemCall, gave, panicked, ItemResult, write_result, zero_result, is_running, run_item,
}

-- Whether the context has ended, or an error or a panic is stored.
abbrev pub troubled : Scope → Bool
troubled s =
    not (is_nil s.ctx_err) || s.err_once || ltb 0 (length s.errs) || ltb 0 (length s.panics)

-- Whether the task of an item ends without an error.
abbrev pub is_fine {ℓ} : {R : Type ℓ} → Policy → ItemCall R → Bool
is_fine fail_fast (gave r e) = is_nil e
is_fine collect (gave r e) = true
is_fine p (panicked v) = false

module _ {ℓ κ} {T : Type ℓ} {R : Type κ} (zero_value : R) (fn : T → ItemCall R) (p : Policy) where
  -- Where the task of an item stands in a scope without trouble, and what it has written.
  abbrev pub Stand : T → Pc → GoError → ItemResult R → Type κ
  Stand v launched e res = (e ≡ nil) × (res ≡ zero_result zero_value)
  Stand v admitted e res = (e ≡ nil) × (res ≡ zero_result zero_value)
  Stand v tracked e res = (e ≡ nil) × (res ≡ zero_result zero_value)
  Stand v running e res = (e ≡ nil) × (res ≡ zero_result zero_value)
  Stand v exited e res =
      (is_nil e ≡ is_fine p (fn v)) × (res ≡ write_result (fn v) (zero_result zero_value))
  Stand v closed e res =
      (is_nil e ≡ is_fine p (fn v)) × (res ≡ write_result (fn v) (zero_result zero_value))
  Stand v reported e res =
      (is_nil e ≡ is_fine p (fn v)) × (res ≡ write_result (fn v) (zero_result zero_value))
  Stand v _ e res = (is_fine p (fn v) ≡ true) × (res ≡ write_result (fn v) (zero_result zero_value))

  -- The same for all tasks, and nothing is written for an item without one.
  abbrev pub Stands : List T → List Task → List (ItemResult R) → Type κ
  Stands [] [] rs = rs ≡ []
  Stands [] (t ∷ ts) rs = zero_result zero_value ∷ rs ≡ []
  Stands (v ∷ vs) [] [] = zero_result zero_value ∷ [] ≡ []
  Stands (v ∷ vs) (t ∷ ts) [] = zero_result zero_value ∷ [] ≡ []
  Stands (v ∷ vs) [] (r ∷ rs) = (r ≡ zero_result zero_value) × Stands vs [] rs
  Stands (v ∷ vs) (t ∷ ts) (r ∷ rs) = Stand v t.pc t.err r × Stands vs ts rs

-- No step of a scope takes trouble away.
pub Move-troubled :
    {s : Scope} {t : Task} {s' : Scope} {t' : Task}
    → Move s t s' t'
    → troubled s' ≡ false
    → troubled s ≡ false
unfolding track untrack emit_started emit_skipped record_failure end_function cancel cancel_first
Move-troubled (unlimited h q) c = c
Move-troubled (acquire h q) c = c
Move-troubled (give_up h q r) c = c
Move-troubled (register now h) c = ground arith
Move-troubled (skip h q) c = ground arith
Move-troubled (start h q) c = ground arith
Move-troubled (finish (returned e) h) c = c
Move-troubled {s} (finish (panics_with w) h) c = ground (arith, length-append s.panics (w ∷ []))
Move-troubled (cancel_panic h) c = ground arith
Move-troubled (close_child h) c = c
Move-troubled {s} {t} (report elapsed h) c =
    ground (arith, report-SameErrors t.info t.err elapsed s)
Move-troubled {s} {t} (keep_error h q) c =
    ground (arith, length-append s.errs (record { task = t.info; err = t.err } ∷ []))
Move-troubled {s} {t} (store_error h q p) c =
    ground (arith, length-append s.errs (record { task = t.info; err = t.err } ∷ []))
Move-troubled (cancel_error h) c = ground arith
Move-troubled (unregister h) c = ground arith
Move-troubled (release h) c = ground arith
Move-troubled (wg_done h) c = c
Move-troubled (deactivate h) c = c

pub begin-troubled :
    (b : Bool) (s : Scope) {s' : Scope}
    → begin_task b s ≡ some s'
    → troubled s' ≡ false
    → troubled s ≡ false
unfolding begin_task
begin-troubled false s e c = cc
begin-troubled true s e c = ground arith

pub Step-troubled :
    {m n : System} → System.Step m n → troubled n.scope ≡ false → troubled m.scope ≡ false
unfolding cancel
Step-troubled {m} (System.spawn_root info nested e) c = begin-troubled _ m.scope e c
Step-troubled {m} (System.spawn_child i info nested q e) c = begin-troubled _ m.scope e c
Step-troubled (System.move i e mv) c = Move-troubled mv c
Step-troubled System.close_root c = c
Step-troubled (System.cancel_scope cause) c = ground arith
Step-troubled (System.end_parent e p q) c = ground arith

-- A recorded error is trouble.
pub failure-troubled :
    (s : Scope) (t : Task) → is_nil t.err ≡ false → troubled (record_failure s t) ≡ true
unfolding record_failure
failure-troubled s t h =
    ground (arith, length-append s.errs (record { task = t.info; err = t.err } ∷ []))

cancel-ends : (cause : GoError) (s : Scope) → is_nil (cancel cause s).ctx_err ≡ false
unfolding cancel
cancel-ends cause s = ground arith

first-ends : (cause : GoError) (s : Scope) → is_nil (cancel_first cause s).ctx_err ≡ false
unfolding cancel_first cancel
first-ends cause s = ground arith

uses-failed : (s : Scope) (t : Task) → uses_once s t ≡ true → is_nil t.err ≡ false
unfolding uses_once
uses-failed s t h = ground arith

module _ {ℓ κ} {T : Type ℓ} {R : Type κ} (zero_value : R) (fn : T → ItemCall R) (p : Policy) where
  at_place :
      (v : T) (t : Task) (res : ItemResult R) {pc : Pc}
      → t.pc ≡ pc
      → Stand zero_value fn p v t.pc t.err res
      → Stand zero_value fn p v pc t.err res
  at_place v t res h s = subst (λ pc. Stand zero_value fn p v pc t.err res) h s

  track-Stand :
      (v : T) (s : Scope) (t : Task) (now : ℕ) (res : ItemResult R)
      → Stand zero_value fn p v tracked t.err res
      → Stand zero_value fn p v (track now s t).1.pc (track now s t).1.err res
  unfolding track
  track-Stand v s t now res st = elim (Bool-cases s.track_tasks) [
    | inl yes_tracked ↦ rw yes_tracked st
    | inr untracked_ ↦ rw untracked_ st
  ]

  -- A step that does not call the item's function leaves the task where it stands, or further.
  pub Move-Stand :
      (v : T) (res : ItemResult R) {s : Scope} {t : Task} {s' : Scope} {t' : Task}
      → Move s t s' t'
      → is_running t.pc ≡ false
      → troubled s' ≡ false
      → Stand zero_value fn p v t.pc t.err res
      → Stand zero_value fn p v t'.pc t'.err res
  Move-Stand v res {t} (unlimited h q) f c a = at_place v t res h a
  Move-Stand v res {t} (acquire h q) f c a = at_place v t res h a
  Move-Stand v res {t} (give_up h q r) f c a = absurd (ground (arith, c, r))
  Move-Stand v res {s} {t} (register now h) f c a = track-Stand v s t now res (at_place v t res h a)
  Move-Stand v res {s} {t} (skip h q) f c a =
      absurd (ground (arith, Move-troubled (skip {s = s} {t = t} h q) c, q))
  Move-Stand v res {t} (start h q) f c a = at_place v t res h a
  Move-Stand v res {t} (finish o h) f c a = absurd (ground (arith, f, h))
  Move-Stand v res {s} {t} (cancel_panic {v = w} h) f c a =
      absurd (ground (arith, c, cancel-ends (panic_error w) s))
  Move-Stand v res {t} (close_child h) f c a = at_place v t res h a
  Move-Stand v res {t} (report elapsed h) f c a = at_place v t res h a
  Move-Stand v res {s} {t} (keep_error h q) f c a =
      let (e, w) = at_place v t res h a in (ground (arith, e, c, failure-troubled s t), w)
  Move-Stand v res {s} {t} (store_error h q p) f c a =
      absurd (ground (arith, c, failure-troubled s t, uses-failed s t q))
  Move-Stand v res {s} {t} (cancel_error h) f c a = absurd (ground (arith, c, first-ends t.err s))
  Move-Stand v res {t} (unregister h) f c a = at_place v t res h a
  Move-Stand v res {t} (release h) f c a = at_place v t res h a
  Move-Stand v res {t} (wg_done h) f c a = at_place v t res h a
  Move-Stand v res {t} (deactivate h) f c a = at_place v t res h a

  run-err :
      (called : ItemCall R) (s : Scope)
      → s.policy ≡ p
      → troubled (run_item called s).2 ≡ false
      → (is_nil (run_item called s).1 ≡ is_fine p called) × ((run_item called s).0 ≡ exited)
  unfolding end_function
  run-err (gave r e) s q c = ground arith
  run-err (panicked w) s q c = ground (arith, length-append s.panics (w ∷ []))

  -- The step in which the task calls the item's function.
  pub run-Stand :
      (v : T) (res : ItemResult R) (s : Scope) (t : Task)
      → s.policy ≡ p
      → troubled (run_item (fn v) s).2 ≡ false
      → t.pc ≡ running
      → Stand zero_value fn p v t.pc t.err res
      → Stand zero_value fn p v
          (run_item (fn v) s).0
          (run_item (fn v) s).1
          (write_result (fn v) res)
  run-Stand v res s t q c h a =
      let (fresh, w) = at_place v t res h a in
      let (fine, at_exit) = run-err (fn v) s q c in
      subst (λ pc. Stand zero_value fn p v pc (run_item (fn v) s).1 (write_result (fn v) res))
        (sym at_exit) (fine, ap (write_result (fn v)) w)
