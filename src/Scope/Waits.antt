-- ===== src/Scope/Waits.antt =====
-- scope.go, `Wait` and `WaitTimeout`: what the calls return.
use scoped.Base.{
  ℕ, ◌≡◌, refl, ◌∙◌, ap, Bool, true, false, not, ◌&&◌, if◌then◌else◌, inl, inr, Bool-cases, Option,
  some, List, [], ◌∷◌, arith, get_elem?, set, All, All-append, All-get, All-set,
}
use scoped.Errors.{GoError, PanicValue, nil, is_nil}
use scoped.Scope.Config.{Config}
use scoped.Scope.Defs.{Ending, raise_or_return, wait_ending}
use scoped.Scope.System.{System, init}
use scoped.Scope.System
use scoped.Scope.Lasting.{still_cancelled}
use scoped.Scope.Handle.{
  Handle, Fin, idle, closing, awaiting, checking, cancelling, reading_panic, reading_errs,
  surfacing, storing, signalling, done, Call, entering, inside, timing, selecting, spawned,
  spawned_inside, spawned_over, reading, ended, timed_out, fresh, Finalize, close, await, check,
  cancel_ctx, read_panic, read_errs, surface, store, signal, Turn, enter, enter_later, leave,
  enter_spawned, enter_spawned_later, leave_spawned, receive, expire, answer, Step, run_scope,
  finalizes, call_wait, call_wait_timeout, start, turn, Reach, here, next,
}
use scoped.Scope.Stages.{
  panic_of, err_of, seen, surfaced, ending-of, err_of-Settled, panic_of-Settled, Checked,
  Checked-Settled, Stage, IsAnswered, is_done, Inv, at_fin, Checked-next, scope-Stage,
}

All-weaken {ℓ κ} :
    {A : Type ℓ} (P Q : A → Type κ) → ((x : A) → P x → Q x) → (xs : List A) → All P xs → All Q xs
All-weaken P Q f [] h = tt
All-weaken P Q f (x ∷ xs) h = (f x h.0, All-weaken P Q f xs h.1)

surface_same :
    (b : Bool) (e e' x y : GoError)
    → b ≡ not (is_nil y)
    → (is_nil y ≡ false → x ≡ y)
    → e ≡ e'
    → (if is_nil e && b then x else e) ≡ (if is_nil e' && not (is_nil y) then y else e')
surface_same b e e' x y hb same he = elim (Bool-cases (is_nil y)) [
  | inl fine ↦ ground arith
  | inr bad ↦ ground (arith, same bad)
]

module _ (c : Config) (parent : GoError) where
  -- Before the body is done no call has an answer.
  unanswered :
      (fin fin' : Fin) (m m' : System)
      → is_done c parent fin ≡ false
      → (x : Call) → IsAnswered c parent fin m x
      → IsAnswered c parent fin' m' x
  unanswered fin fin' m m' h reading a = absurd (ground (arith, h, a))
  unanswered fin fin' m m' h (ended e) a = absurd (ground (arith, h, a.0))
  unanswered fin fin' m m' h entering a = tt
  unanswered fin fin' m m' h inside a = tt
  unanswered fin fin' m m' h timing a = tt
  unanswered fin fin' m m' h selecting a = tt
  unanswered fin fin' m m' h spawned a = tt
  unanswered fin fin' m m' h spawned_inside a = tt
  unanswered fin fin' m m' h spawned_over a = tt
  unanswered fin fin' m m' h timed_out a = tt

  module _ (l : Handle) (v : Inv c parent l) where
    -- A step of the body with the state it leaves.
    stepped :
        (n : System) (fin fin' : Fin) (done' : Bool) (e : GoError) (p : Option PanicValue)
        (m : System)
        → l.fin ≡ fin
        → is_done c parent fin ≡ false
        → done' ≡ is_done c parent fin'
        → System.Reach (init c parent) n
        → Stage c parent
            (record l {
              system = n;
              fin = fin';
              fin_done = done';
              result = e;
              panic_val = p;
              checked = m;
            })
            fin'
        → Inv c parent (record l {
          system = n;
          fin = fin';
          fin_done = done';
          result = e;
          panic_val = p;
          checked = m;
        })
    stepped n fin fin' done' e p m h not_yet d r s = record {
      reach = r;
      stage = s;
      signal = d;
      calls =
          All-weaken _ _ (unanswered l.fin fin' l.checked m (ap (is_done c parent) h ∙ not_yet))
            l.calls v.calls;
    }

    not_signalled : {fin : Fin} → l.fin ≡ fin → is_done c parent fin ≡ false → l.fin_done ≡ false
    not_signalled h not_yet = v.signal ∙ ap (is_done c parent) h ∙ not_yet

    surfaced_now :
        (b : Bool) (e : GoError)
        → Checked c parent l.checked l.system
        → b ≡ seen l.checked.scope
        → e ≡ err_of l.checked.scope
        → (if is_nil e && b then l.system.scope.ctx_err else e) ≡ surfaced l.checked.scope
    surfaced_now b e k hb he =
        surface_same b e (err_of l.checked.scope) l.system.scope.ctx_err l.checked.scope.ctx_err hb
          (still_cancelled k.later) he

    Finalize-Inv : (k : Handle) → Finalize l k → Inv c parent k
    Finalize-Inv k (close h) =
        stepped _ closing awaiting l.fin_done l.result l.panic_val l.checked h refl
          (not_signalled h refl) (System.next v.reach System.close_root) refl
    Finalize-Inv k (await h z) =
        stepped l.system awaiting checking l.fin_done l.result l.panic_val l.checked h refl
          (not_signalled h refl) v.reach (at_fin c parent l h v.stage, z)
    Finalize-Inv k (check h) =
        let s = at_fin c parent l h v.stage in
        stepped l.system checking (cancelling (seen l.system.scope)) l.fin_done l.result l.panic_val
          l.system h refl (not_signalled h refl) v.reach
          (record { reach = v.reach; closed = s.0; over = s.1; later = System.here }, refl)
    Finalize-Inv k (cancel_ctx {b} h) =
        let s = at_fin c parent l h v.stage in
        stepped _ (cancelling b) (reading_panic b) l.fin_done l.result l.panic_val l.checked h refl
          (not_signalled h refl) (System.next v.reach (System.cancel_scope nil))
          (Checked-next c parent _ _ _ s.0 (System.cancel_scope nil), s.1)
    Finalize-Inv k (read_panic {b} h) =
        let s = at_fin c parent l h v.stage in
        stepped l.system (reading_panic b) (reading_errs b (panic_of l.system.scope)) l.fin_done
          l.result l.panic_val l.checked h refl (not_signalled h refl) v.reach
          (s.0, s.1, panic_of-Settled l.checked l.system (Checked-Settled c parent _ _ s.0))
    Finalize-Inv k (read_errs {b} {p} h) =
        let s = at_fin c parent l h v.stage in
        stepped l.system (reading_errs b p) (surfacing b p (err_of l.system.scope)) l.fin_done
          l.result l.panic_val l.checked h refl (not_signalled h refl) v.reach
          (s.0, s.1, s.2, err_of-Settled l.checked l.system (Checked-Settled c parent _ _ s.0))
    Finalize-Inv k (surface {b} {p} {e} h) =
        let s = at_fin c parent l h v.stage in
        stepped l.system (surfacing b p e)
          (storing p (if is_nil e && b then l.system.scope.ctx_err else e)) l.fin_done l.result
          l.panic_val l.checked h refl (not_signalled h refl) v.reach
          (s.0, s.2, surfaced_now b e s.0 s.1 s.3)
    Finalize-Inv k (store {p} {e} h) =
        let s = at_fin c parent l h v.stage in
        stepped l.system (storing p e) signalling l.fin_done e p l.checked h refl
          (not_signalled h refl) v.reach s
    Finalize-Inv k (signal h) =
        let s = at_fin c parent l h v.stage in
        stepped l.system signalling done true l.result l.panic_val l.checked h refl refl v.reach s

    -- A change of the calls alone.
    called :
        (xs : List Call)
        → All (IsAnswered c parent l.fin l.checked) xs
        → Inv c parent (record l { calls = xs })
    called xs a = record { reach = v.reach; stage = v.stage; signal = v.signal; calls = a }

    begun :
        (i : ℕ) (x : Call)
        → l.fin ≡ idle
        → IsAnswered c parent closing l.checked x
        → Inv c parent (record l { fin = closing; calls = set l.calls i x })
    begun i x h a =
        let w =
          stepped l.system idle closing l.fin_done l.result l.panic_val l.checked h refl
            (not_signalled h refl) v.reach tt in
        record {
          reach = w.reach;
          stage = tt;
          signal = w.signal;
          calls = All-set _ l.calls i x w.calls a;
        }

    signalled : l.fin_done ≡ true → l.fin ≡ done
    signalled h = ground (arith, h, v.signal)

    answered : l.fin ≡ done → raise_or_return l.panic_val l.result ≡ wait_ending l.checked.scope
    answered h =
        let s = at_fin c parent l h v.stage in
        ap (λ p. raise_or_return p l.result) s.1
        ∙ ap (raise_or_return (panic_of l.checked.scope)) s.2
        ∙ ending-of l.checked.scope

    Turn-Inv :
        (k : Handle) (i : ℕ) (x y : Call)
        → get_elem? l.calls i ≡ some x
        → Turn l x k y
        → Inv c parent (record k { calls = set l.calls i y })
    Turn-Inv k i x y at (enter h) = begun i inside h tt
    Turn-Inv k i x y at (enter_later h) = called _ (All-set _ l.calls i inside v.calls tt)
    Turn-Inv k i x y at (leave h) = called _ (All-set _ l.calls i reading v.calls h)
    Turn-Inv k i x y at (enter_spawned h) = begun i spawned_inside h tt
    Turn-Inv k i x y at (enter_spawned_later h) =
        called _ (All-set _ l.calls i spawned_inside v.calls tt)
    Turn-Inv k i x y at (leave_spawned h) = called _ (All-set _ l.calls i spawned_over v.calls tt)
    Turn-Inv k i x y at (receive h) = called _ (All-set _ l.calls i reading v.calls (signalled h))
    Turn-Inv k i x y at expire = called _ (All-set _ l.calls i timed_out v.calls tt)
    Turn-Inv k i x y at answer =
        let h = All-get _ l.calls i at v.calls in
        called _ (All-set _ l.calls i _ v.calls (h, answered h))

    Step-Inv : (k : Handle) → Step l k → Inv c parent k
    Step-Inv k (run_scope {n} st) = record {
      reach = System.next v.reach st;
      stage = scope-Stage c parent l n v.reach st l.fin v.stage;
      signal = v.signal;
      calls = v.calls;
    }
    Step-Inv k (finalizes f) = Finalize-Inv k f
    Step-Inv k call_wait = called _ (All-append _ l.calls entering v.calls tt)
    Step-Inv k call_wait_timeout = called _ (All-append _ l.calls timing v.calls tt)
    Step-Inv k (start i at) = called _ (
        All-append _ (set l.calls i selecting) spawned (All-set _ l.calls i selecting v.calls tt)
          tt)
    Step-Inv k (turn {k = j} {c = x} {c' = y} i at t) = Turn-Inv j i x y at t

  pub Reach-Inv : (l : Handle) → Reach (fresh c parent) l → Inv c parent l
  Reach-Inv l here = record { reach = System.here; stage = tt; signal = refl; calls = tt }
  Reach-Inv l (next {k} r st) = Step-Inv k (Reach-Inv k r) l st

  answer-lem :
      (l : Handle) (i : ℕ) (e : Ending)
      → Reach (fresh c parent) l
      → get_elem? l.calls i ≡ some (ended e)
      → Checked c parent l.checked l.system × (e ≡ wait_ending l.checked.scope)
  answer-lem l i e r at =
      let v = Reach-Inv l r in
      let (h, q) = All-get _ l.calls i at v.calls in ((at_fin c parent l h v.stage).0, q)

  -- What any call of `Wait` or `WaitTimeout` returns or raises, unless it returns because its time
  -- has passed, is what `finalize` makes of one state of the scope, the same for all calls: one in
  -- which the root spawner was closed and the wait group was at 0. So all calls answer the same.
  pub wait_answers :
      (l : Handle) (i : ℕ) (e : Ending)
      → Reach (fresh c parent) l
      → get_elem? l.calls i ≡ some (ended e)
      → System.Reach (init c parent) l.checked
        × (l.checked.scope.root_open ≡ false)
        × (l.checked.scope.wg ≡ 0)
        × System.Reach l.checked l.system
        × (e ≡ wait_ending l.checked.scope)
  wait_answers l i e r at =
      let (k, q) = answer-lem l i e r at in (k.reach, k.closed, k.over, k.later, q)
