-- ===== src/Scope/Returning.antt =====
-- scope.go, `Wait`: how a call comes to return.
use scoped.Base.{
  ℕ, zero, suc, ◌≡◌, refl, ◌∙◌, ap, inl, inr, Bool-cases, Bool, true, false, Option, some, List, [],
  ◌∷◌, arith, get_elem?, set,
}
use scoped.Errors.{GoError, PanicValue}
use scoped.Scope.Config.{Config}
use scoped.Scope.Defs.{Ending, raise_or_return}
use scoped.Scope.System.{System, init}
use scoped.Scope.System
use scoped.Scope.Progress.{Works, can_settle}
use scoped.Scope.Handle.{
  Handle, Call, Fin, idle, closing, awaiting, checking, cancelling, reading_panic, reading_errs,
  surfacing, storing, signalling, done, is_idle, entering, inside, reading, ended, fresh, Finalize,
  close, await, check, cancel_ctx, read_panic, read_errs, surface, store, signal, enter,
  enter_later, leave, answer, run_scope, Turn, Reach, here, next,
}
use scoped.Scope.Waits.{Reach-Inv}

-- Steps of the tasks, of the body of `finalize` and of the call `i`, and no others.
pub data Alone (i : ℕ) (l : Handle) : Handle → Type 0 where
  nothing : Alone i l l
  tasks_work :
      {k : Handle} {n : System}
      → Alone i l k
      → Works k.system n
      → Alone i l (record k { system = n })
  body : {k n : Handle} → Alone i l k → Finalize k n → Alone i l n
  own_turn :
      {k n : Handle} {c c' : Call}
      → Alone i l k
      → get_elem? k.calls i ≡ some c
      → Turn k c n c'
      → Alone i l (record n { calls = set k.calls i c' })

joined : {i : ℕ} {l k n : Handle} → Alone i l k → Alone i k n → Alone i l n
joined r nothing = r
joined r (tasks_work s w) = tasks_work (joined r s) w
joined r (body s f) = body (joined r s) f
joined r (own_turn s at t) = own_turn (joined r s) at t

-- The body of `finalize` has ended, and the calls are where they were.
record Over (i : ℕ) (l : Handle) : Type 0 where
  to : Handle
  run : Alone i l to
  fin : to.fin ≡ done
  calls : to.calls ≡ l.calls

after : {i : ℕ} {l k : Handle} → Alone i l k → k.calls ≡ l.calls → Over i k → Over i l
after r q o = record { to = o.to; run = joined r o.run; fin = o.fin; calls = o.calls ∙ q }

by : {i : ℕ} {l k : Handle} → Finalize l k → Alone i l k
by f = body nothing f

from_signalling : {i : ℕ} (l : Handle) → l.fin ≡ signalling → Over i l
from_signalling l h = record { to = _; run = by (signal h); fin = refl; calls = refl }

from_storing :
    {i : ℕ} (l : Handle) (p : Option PanicValue) (e : GoError) → l.fin ≡ storing p e → Over i l
from_storing l p e h = after (by (store h)) refl (from_signalling _ refl)

from_surfacing :
    {i : ℕ} (l : Handle) (b : Bool) (p : Option PanicValue) (e : GoError)
    → l.fin ≡ surfacing b p e
    → Over i l
from_surfacing l b p e h = after (by (surface h)) refl (from_storing _ _ _ refl)

from_reading_errs :
    {i : ℕ} (l : Handle) (b : Bool) (p : Option PanicValue) → l.fin ≡ reading_errs b p → Over i l
from_reading_errs l b p h = after (by (read_errs h)) refl (from_surfacing _ _ _ _ refl)

from_reading_panic : {i : ℕ} (l : Handle) (b : Bool) → l.fin ≡ reading_panic b → Over i l
from_reading_panic l b h = after (by (read_panic h)) refl (from_reading_errs _ _ _ refl)

from_cancelling : {i : ℕ} (l : Handle) (b : Bool) → l.fin ≡ cancelling b → Over i l
from_cancelling l b h = after (by (cancel_ctx h)) refl (from_reading_panic _ _ refl)

from_checking : {i : ℕ} (l : Handle) → l.fin ≡ checking → Over i l
from_checking l h = after (by (check h)) refl (from_cancelling _ _ refl)

-- The steps of a scope, as steps of its handle.
pub running :
    (l : Handle) {n : System} → System.Reach l.system n → Reach l (record l { system = n })
running l System.here = here
running l (System.next r st) = next (running l r) (run_scope st)

set-set {ℓ} : {A : Type ℓ} (xs : List A) (i : ℕ) (x y : A) → set (set xs i x) i y ≡ set xs i y
set-set [] i x y = refl
set-set (z ∷ xs) zero x y = refl
set-set (z ∷ xs) (suc i) x y = ap (λ l. z ∷ l) (set-set xs i x y)

get-set {ℓ} :
    {A : Type ℓ} (xs : List A) (i : ℕ) (w x : A)
    → get_elem? xs i ≡ some w
    → get_elem? (set xs i x) i ≡ some x
get-set [] i w x h = cc
get-set (z ∷ xs) zero w x h = refl
get-set (z ∷ xs) (suc i) w x h = get-set xs i w x h

is-idle : (fin : Fin) → is_idle fin ≡ true → fin ≡ idle
is-idle fin h = ground arith

module _ (c : Config) (parent : GoError) where
  from_awaiting :
      {i : ℕ} (l : Handle) → System.Reach (init c parent) l.system → l.fin ≡ awaiting → Over i l
  from_awaiting l r h =
      let (n, w, over) = can_settle c parent l.system r in
      after (body (tasks_work nothing w) (await h over)) refl (from_checking _ refl)

  from_closing :
      {i : ℕ} (l : Handle) → System.Reach (init c parent) l.system → l.fin ≡ closing → Over i l
  from_closing l r h =
      after (by (close h)) refl (from_awaiting _ (System.next r System.close_root) refl)

  body_ends :
      {i : ℕ} (l : Handle)
      → System.Reach (init c parent) l.system
      → (fin : Fin) → l.fin ≡ fin
      → is_idle fin ≡ false
      → Over i l
  body_ends l r idle h q = cc
  body_ends l r closing h q = from_closing l r h
  body_ends l r awaiting h q = from_awaiting l r h
  body_ends l r checking h q = from_checking l h
  body_ends l r (cancelling b) h q = from_cancelling l b h
  body_ends l r (reading_panic b) h q = from_reading_panic l b h
  body_ends l r (reading_errs b p) h q = from_reading_errs l b p h
  body_ends l r (surfacing b p e) h q = from_surfacing l b p e h
  body_ends l r (storing p e) h q = from_storing l p e h
  body_ends l r signalling h q = from_signalling l h
  body_ends l r done h q = record { to = l; run = nothing; fin = h; calls = refl }

  returns_from_inside :
      (l : Handle) (i : ℕ)
      → System.Reach (init c parent) l.system
      → is_idle l.fin ≡ false
      → get_elem? l.calls i ≡ some inside
      → (n : Handle) × Alone i l n × (e : Ending) × (n.calls ≡ set l.calls i (ended e))
  returns_from_inside l i r q at =
      let o = body_ends l r l.fin refl q in
      let e = raise_or_return o.to.panic_val o.to.result in
      let back = own_turn o.run (ap (λ xs. get_elem? xs i) o.calls ∙ at) (leave o.fin) in
      let at_reading =
        get-set o.to.calls i inside reading (ap (λ xs. get_elem? xs i) o.calls ∙ at) in
      let out = own_turn back at_reading answer in
      (_, out, e, set-set o.to.calls i reading (ended e) ∙ ap (λ xs. set xs i (ended e)) o.calls)

  -- From every state in which a call stands before `sc.once`, steps of the tasks, of the body of
  -- `finalize` and of that call alone lead to a state where the call has returned or raised what
  -- it found, the other calls being where they were.
  pub wait_can_return :
      (l : Handle) (i : ℕ)
      → Reach (fresh c parent) l
      → get_elem? l.calls i ≡ some entering
      → (n : Handle) × Alone i l n × (e : Ending) × (n.calls ≡ set l.calls i (ended e))
  wait_can_return l i r at = elim (Bool-cases (is_idle l.fin)) [
    | inl first ↦
        let (n, s, e, q) =
          returns_from_inside (record l { fin = closing; calls = set l.calls i inside }) i
            (Reach-Inv c parent l r).reach refl (get-set l.calls i entering inside at) in
        (
          n,
          joined (own_turn nothing at (enter (is-idle l.fin first))) s,
          e,
          q ∙ set-set l.calls i inside _,
        )
    | inr later ↦
        let (n, s, e, q) =
          returns_from_inside (record l { calls = set l.calls i inside }) i
            (Reach-Inv c parent l r).reach later (get-set l.calls i entering inside at) in
        (n, joined (own_turn nothing at (enter_later later)) s, e, q ∙ set-set l.calls i inside _)
  ]
