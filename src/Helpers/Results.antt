-- ===== src/Helpers/Results.antt =====
-- helpers.go, `MapSlice`: what its results are when its scope has found nothing wrong.
use scoped.Base.{
  ℕ, zero, suc, ◌≡◌, refl, ◌∙◌, sym, ap, subst, true, false, if◌then◌else◌, some, List, [], ◌∷◌,
  ◌++◌, arith, length, map, get_elem?, set, total, total-le, ◌≤◌, inl, inr, Bool-cases, All,
}
use scoped.Helpers.Defs.{should_use_worker_fast_path}
use scoped.Errors.{GoError, nil, is_nil}
use scoped.Errors.Laws.{is_nil-nil}
use scoped.Scope.Config.{Config, Policy, fail_fast, collect}
use scoped.Scope.{Scope, finalize, policy_err}
use scoped.Scope.Tasks.{
  Pc, launched, admitted, tracked, running, panicking, storing, exited, closed, reported, leaving,
  untracked, released, waited, finished, Task, launch, finish,
}
use scoped.Scope.System.{System}
use scoped.Scope.System
use scoped.Scope.Aggregation.{ErrInv, Reach-Aggregated}
use scoped.Helpers.Mapping.{
  ItemCall, gave, panicked, ItemResult, write_result, task_outcome, zero_result, make_results,
  Mapping, init, no_name, Step, spawn_item, run, move_task, close_spawner, end_parent, Reach, here,
  next, answer,
}
use scoped.Scope.Finalization.{joined-nonempty, finalize-by, policy_err-collect}
use scoped.Scope.Lasting.{same_config}
use scoped.Scope.Counting.{unwaited, recovering}
use scoped.Scope.Invariant.{Reach-Inv}
use scoped.Helpers.Standing.{troubled, is_fine, Stand, Stands, Step-troubled, Move-Stand, run-Stand}

-- The result of an item: its value, or its error with no value.
abbrev pub result_of {ℓ} : {R : Type ℓ} → R → ItemCall R → ItemResult R
result_of zero_value (gave r e) = record { value = if is_nil e then r else zero_value; err = e }
result_of zero_value (panicked v) = record { value = zero_value; err = nil }

write-result_of {ℓ} :
    {R : Type ℓ} (zero_value : R) (called : ItemCall R)
    → write_result called (zero_result zero_value) ≡ result_of zero_value called
write-result_of zero_value (gave r e) = elim (Bool-cases (is_nil e)) [
  | inl fine ↦ ground (arith, fine, is_nil-nil e fine)
  | inr bad ↦ ground (arith, bad)
]
write-result_of zero_value (panicked v) = refl

the_head {ℓ} : {A : Type ℓ} (x y : A) (xs : List A) → get_elem? (x ∷ xs) 0 ≡ some y → x ≡ y
the_head x y xs h = cc

module _ {ℓ κ} {T : Type ℓ} {R : Type κ} (zero_value : R) (fn : T → ItemCall R) (p : Policy) where
  make-Stands : (items : List T) → Stands zero_value fn p items [] (make_results zero_value items)
  make-Stands [] = refl
  make-Stands (v ∷ items) = (refl, make-Stands items)

  launch-Stands :
      (vs : List T) (ts : List Task) (rs : List (ItemResult R)) (v : T)
      → get_elem? vs (length ts) ≡ some v
      → Stands zero_value fn p vs ts rs
      → Stands zero_value fn p vs (ts ++ launch no_name false ∷ []) rs
  launch-Stands [] [] rs v h a = cc
  launch-Stands [] (t ∷ ts) rs v h a = a
  launch-Stands (w ∷ vs) [] [] v h a = a
  launch-Stands (w ∷ vs) [] (r ∷ rs) v h a = ((refl, a.0), a.1)
  launch-Stands (w ∷ vs) (t ∷ ts) [] v h a = a
  launch-Stands (w ∷ vs) (t ∷ ts) (r ∷ rs) v h a = (a.0, launch-Stands vs ts rs v h a.1)

  -- One task stands elsewhere.
  moved-Stands :
      (vs : List T) (ts : List Task) (rs : List (ItemResult R)) (i : ℕ) (t t' : Task)
      → get_elem? ts i ≡ some t
      → ((v : T) (res : ItemResult R)
          → Stand zero_value fn p v t.pc t.err res
          → Stand zero_value fn p v t'.pc t'.err res)
      → Stands zero_value fn p vs ts rs
      → Stands zero_value fn p vs (set ts i t') rs
  moved-Stands [] [] rs i t t' h f a = a
  moved-Stands [] (u ∷ ts) rs zero t t' h f a = a
  moved-Stands [] (u ∷ ts) rs (suc i) t t' h f a = a
  moved-Stands (v ∷ vs) [] [] i t t' h f a = a
  moved-Stands (v ∷ vs) [] (r ∷ rs) i t t' h f a = a
  moved-Stands (v ∷ vs) (u ∷ ts) [] zero t t' h f a = a
  moved-Stands (v ∷ vs) (u ∷ ts) [] (suc i) t t' h f a = a
  moved-Stands (v ∷ vs) (u ∷ ts) (r ∷ rs) zero t t' h f a =
      (f v r (subst (λ x. Stand zero_value fn p v x.pc x.err r) (the_head u t ts h) a.0), a.1)
  moved-Stands (v ∷ vs) (u ∷ ts) (r ∷ rs) (suc i) t t' h f a =
      (a.0, moved-Stands vs ts rs i t t' h f a.1)

  -- The same, with its result written.
  written-Stands :
      (vs : List T) (ts : List Task) (rs : List (ItemResult R)) (i : ℕ) (t t' : Task) (v : T)
      (res res' : ItemResult R)
      → get_elem? ts i ≡ some t
      → get_elem? vs i ≡ some v
      → get_elem? rs i ≡ some res
      → (Stand zero_value fn p v t.pc t.err res → Stand zero_value fn p v t'.pc t'.err res')
      → Stands zero_value fn p vs ts rs
      → Stands zero_value fn p vs (set ts i t') (set rs i res')
  written-Stands [] ts rs i t t' v res res' h hv hr f a = cc
  written-Stands (w ∷ vs) [] rs i t t' v res res' h hv hr f a = cc
  written-Stands (w ∷ vs) (u ∷ ts) [] i t t' v res res' h hv hr f a = cc
  written-Stands (w ∷ vs) (u ∷ ts) (r ∷ rs) zero t t' v res res' h hv hr f a =
      let at_t = subst (λ x. Stand zero_value fn p w x.pc x.err r) (the_head u t ts h) a.0 in
      let at_v = subst (λ x. Stand zero_value fn p x t.pc t.err r) (the_head w v vs hv) at_t in
      let at_r = subst (λ x. Stand zero_value fn p v t.pc t.err x) (the_head r res rs hr) at_v in
      (
        subst (λ x. Stand zero_value fn p x t'.pc t'.err res') (sym (the_head w v vs hv)) (f at_r),
        a.1,
      )
  written-Stands (w ∷ vs) (u ∷ ts) (r ∷ rs) (suc i) t t' v res res' h hv hr f a =
      (a.0, written-Stands vs ts rs i t t' v res res' h hv hr f a.1)

  place_done :
      (v : T) (t : Task) (pc : Pc) (e : GoError) (res : ItemResult R)
      → unwaited (record t { pc = pc }) ≡ 0
      → Stand zero_value fn p v pc e res
      → (res ≡ result_of zero_value (fn v)) × (is_fine p (fn v) ≡ true)
  place_done v t waited e res h a = (a.1 ∙ write-result_of zero_value (fn v), a.0)
  place_done v t finished e res h a = (a.1 ∙ write-result_of zero_value (fn v), a.0)
  place_done v t launched e res h a = absurd (omega (arith, h))
  place_done v t admitted e res h a = absurd (omega (arith, h))
  place_done v t tracked e res h a = absurd (omega (arith, h))
  place_done v t running e res h a = absurd (omega (arith, h))
  place_done v t (panicking w) e res h a = absurd (omega (arith, h))
  place_done v t storing e res h a = absurd (omega (arith, h))
  place_done v t exited e res h a = absurd (omega (arith, h))
  place_done v t closed e res h a = absurd (omega (arith, h))
  place_done v t reported e res h a = absurd (omega (arith, h))
  place_done v t leaving e res h a = absurd (omega (arith, h))
  place_done v t untracked e res h a = absurd (omega (arith, h))
  place_done v t released e res h a = absurd (omega (arith, h))

  results_done :
      (vs : List T) (ts : List Task) (rs : List (ItemResult R))
      → length ts ≡ length vs
      → total unwaited ts ≡ 0
      → Stands zero_value fn p vs ts rs
      → (rs ≡ map (λ v. result_of zero_value (fn v)) vs) × All (λ v. is_fine p (fn v) ≡ true) vs
  results_done [] [] rs q h a = (a, tt)
  results_done [] (t ∷ ts) rs q h a = absurd (omega (arith, q))
  results_done (v ∷ vs) [] rs q h a = absurd (omega (arith, q))
  results_done (v ∷ vs) (t ∷ ts) [] q h a = cc
  results_done (v ∷ vs) (t ∷ ts) (r ∷ rs) q h a =
      let (res, fine) = place_done v t t.pc t.err r (omega (arith, h)) a.0 in
      let (rest, fines) = results_done vs ts rs (omega (arith, q)) (omega (arith, h)) a.1 in
      (cc, (fine, fines))

recovering-le : (t : Task) → recovering t ≤ unwaited t
recovering-le t = ground arith

finalize-ctx : (s : Scope) → (finalize s).0 ≡ nil → is_nil s.ctx_err ≡ true
finalize-ctx s h = ground (arith, h, finalize-by s)

finalize-untroubled :
    (s : Scope) → ErrInv s → length s.panics ≡ 0 → (finalize s).0 ≡ nil → troubled s ≡ false
unfolding policy_err
finalize-untroubled s v none_kept h =
    ground (arith, h, finalize-by s, v.fast, policy_err-collect s, joined-nonempty s.errs)

module _ {ℓ κ} {T : Type ℓ} {R : Type κ} (zero_value : R) (fn : T → ItemCall R) (items : List T)
    (c : Config) (parent : GoError) where
  to-scope : (m n : Mapping R) → Step fn items m n → System.Step m.system n.system
  to-scope m n (spawn_item slow h e) = System.spawn_root no_name false e
  to-scope m n (run {v} i h hv hr q) =
      System.move i h (finish (task_outcome m.system.scope.policy (fn v)) q)
  to-scope m n (move_task i h f mv) = System.move i h mv
  to-scope m n (close_spawner h) = System.close_root
  to-scope m n (end_parent e h q) = System.end_parent e h q

  scope_reached :
      (m : Mapping R)
      → Reach fn items (init zero_value items c parent) m
      → System.Reach (System.init c parent) m.system
  scope_reached m here = System.here
  scope_reached m (next {n} r st) = System.next (scope_reached n r) (to-scope n m st)

  Step-Stands :
      (m n : Mapping R) (st : Step fn items m n)
      → System.Reach (System.init c parent) m.system
      → troubled n.system.scope ≡ false
      → Stands zero_value fn c.policy items m.system.tasks m.results
      → Stands zero_value fn c.policy items n.system.tasks n.results
  Step-Stands m n (spawn_item {v} slow h e) r q a =
      launch-Stands zero_value fn c.policy items m.system.tasks m.results v h a
  Step-Stands m n (run {t} {v} {res} i h hv hr at) r q a =
      written-Stands zero_value fn c.policy items m.system.tasks m.results i t _ v res _ h hv hr
        (run-Stand zero_value fn c.policy v res m.system.scope t
          (ap (λ k. k.policy) (same_config c parent r)) q at)
        a
  Step-Stands m n (move_task {t} {t'} i h f mv) r q a =
      moved-Stands zero_value fn c.policy items m.system.tasks m.results i t t' h
        (λ v res. Move-Stand zero_value fn c.policy v res mv f q) a
  Step-Stands m n (close_spawner h) r q a = a
  Step-Stands m n (end_parent e h k) r q a = a

  all-Stands :
      (m : Mapping R)
      → Reach fn items (init zero_value items c parent) m
      → troubled m.system.scope ≡ false
      → Stands zero_value fn c.policy items m.system.tasks m.results
  all-Stands m here q = make-Stands zero_value fn c.policy items
  all-Stands m (next {n} r st) q =
      Step-Stands n m st (scope_reached n r) q (all-Stands n r (Step-troubled (to-scope n m st) q))

  answer-nil :
      (p : Policy) (e : GoError) (rs : List (ItemResult R)) → e ≡ nil → answer p e rs ≡ (rs, nil)
  unfolding answer
  answer-nil fail_fast e rs h = ground arith
  answer-nil collect e rs h = ground arith

  -- When the workers are not used, the tasks of all items have been waited for, and `finalize`
  -- gives no error, `MapSlice` returns nil and the result of each item in the item's place: the value that the function gave
  -- for it, or under Collect the error; under FailFast every call gave a nil error, and no call
  -- has panicked.
  pub map_slice_results :
      (m : Mapping R)
      → should_use_worker_fast_path c (length items) ≡ false
      → Reach fn items (init zero_value items c parent) m
      → length m.system.tasks ≡ length items
      → m.system.scope.wg ≡ 0
      → (finalize m.system.scope).0 ≡ nil
      → (answer c.policy (finalize m.system.scope).0 m.results
          ≡ (map (λ v. result_of zero_value (fn v)) items, nil))
        × All (λ v. is_fine c.policy (fn v) ≡ true) items
  map_slice_results m slow r all over no_err =
      let scope = scope_reached m r in
      let v = Reach-Inv c parent scope in
      let kept = Reach-Aggregated c parent scope in
      let calm =
        finalize-untroubled m.system.scope kept.errors
          (omega (
            arith,
            kept.panics (finalize-ctx m.system.scope no_err),
            total-le recovering unwaited recovering-le m.system.tasks,
            v.wg,
            over,
          ))
          no_err in
      let (results, fine) =
        results_done zero_value fn c.policy items m.system.tasks m.results all
          (omega (arith, v.wg, over)) (all-Stands m r calm) in
      (answer-nil c.policy _ m.results no_err ∙ ap (λ rs. (rs, nil)) results, fine)
