-- ===== src/Scope/Stages.antt =====
-- scope.go, `doFinalize` and `finalize`: what holds at each place of their body.
use scoped.Base.{
  ◌≡◌, refl, ◌∙◌, ap, subst, Bool, true, false, not, ◌&&◌, if◌then◌else◌, Option, none, All,
}
use scoped.Errors.{GoError, PanicValue, is_nil}
use scoped.Scope.Config.{Config, Policy, fail_fast, collect}
use scoped.Scope.Defs.{Scope, raise_or_return, wait_ending, policy_err, first_panic, finalize}
use scoped.Scope.System.{System, init}
use scoped.Scope.System
use scoped.Scope.Safety.{Settled, structured_concurrency}
use scoped.Scope.Lasting.{still_closed}
use scoped.Scope.Handle.{
  Handle, Fin, idle, closing, awaiting, checking, cancelling, reading_panic, reading_errs,
  surfacing, storing, signalling, done, Call, reading, ended,
}

-- What `finalize` has read is what it would read of the scope as it was checked.
abbrev pub panic_of : Scope → Option PanicValue
panic_of s = if s.panic_as_err then none else first_panic s.panics

abbrev pub err_of : Scope → GoError
err_of s = policy_err s.policy s

abbrev pub seen : Scope → Bool
seen s = not (is_nil s.ctx_err)

abbrev pub surfaced : Scope → GoError
surfaced s = if is_nil (err_of s) && seen s then s.ctx_err else err_of s

pub ending-of : (s : Scope) → raise_or_return (panic_of s) (surfaced s) ≡ wait_ending s
unfolding wait_ending finalize
ending-of s = refl

policy_err-same :
    (p : Policy) (s s' : Scope)
    → s'.first_err ≡ s.first_err
    → s'.errs ≡ s.errs
    → policy_err p s' ≡ policy_err p s
unfolding policy_err
policy_err-same fail_fast s s' f e = f
policy_err-same collect s s' f e = cc

pub err_of-Settled : (m n : System) → Settled m n → err_of n.scope ≡ err_of m.scope
err_of-Settled m n v =
    policy_err-same n.scope.policy m.scope n.scope v.first_err v.errs
    ∙ ap (λ c. policy_err c.policy m.scope) v.config

pub panic_of-Settled : (m n : System) → Settled m n → panic_of n.scope ≡ panic_of m.scope
panic_of-Settled m n v =
    ap (λ c. if c.panic_as_err then none else first_panic n.scope.panics) v.config
    ∙ ap (λ ps. if m.scope.panic_as_err then none else first_panic ps) v.panics

module _ (c : Config) (parent : GoError) where
  -- The scope when `finalize` looked at its context, and now.
  pub record Checked (m n : System) : Type 0 where
    pub reach : System.Reach (init c parent) m
    pub closed : m.scope.root_open ≡ false
    pub over : m.scope.wg ≡ 0
    pub later : System.Reach m n

  pub Checked-Settled : (m n : System) → Checked m n → Settled m n
  Checked-Settled m n v = (structured_concurrency c parent m n v.reach v.closed v.over v.later).0

  abbrev pub Stage : Handle → Fin → Type 0
  Stage l idle = Unit
  Stage l closing = Unit
  Stage l awaiting = l.system.scope.root_open ≡ false
  Stage l checking = (l.system.scope.root_open ≡ false) × (l.system.scope.wg ≡ 0)
  Stage l (cancelling b) = Checked l.checked l.system × (b ≡ seen l.checked.scope)
  Stage l (reading_panic b) = Checked l.checked l.system × (b ≡ seen l.checked.scope)
  Stage l (reading_errs b p) =
      Checked l.checked l.system × (b ≡ seen l.checked.scope) × (p ≡ panic_of l.checked.scope)
  Stage l (surfacing b p e) =
      Checked l.checked l.system
      × (b ≡ seen l.checked.scope)
      × (p ≡ panic_of l.checked.scope)
      × (e ≡ err_of l.checked.scope)
  Stage l (storing p e) =
      Checked l.checked l.system × (p ≡ panic_of l.checked.scope) × (e ≡ surfaced l.checked.scope)
  Stage l signalling =
      Checked l.checked l.system
      × (l.panic_val ≡ panic_of l.checked.scope)
      × (l.result ≡ surfaced l.checked.scope)
  Stage l done =
      Checked l.checked l.system
      × (l.panic_val ≡ panic_of l.checked.scope)
      × (l.result ≡ surfaced l.checked.scope)

  abbrev pub IsAnswered : Fin → System → Call → Type 0
  IsAnswered fin m reading = fin ≡ done
  IsAnswered fin m (ended e) = (fin ≡ done) × (e ≡ wait_ending m.scope)
  IsAnswered fin m _ = Unit

  abbrev pub is_done : Fin → Bool
  is_done done = true
  is_done _ = false

  pub record Inv (l : Handle) : Type 0 where
    pub reach : System.Reach (init c parent) l.system
    pub stage : Stage l l.fin
    pub signal : l.fin_done ≡ is_done l.fin
    pub calls : All (IsAnswered l.fin l.checked) l.calls

  pub at_fin : (l : Handle) {fin : Fin} → l.fin ≡ fin → Stage l l.fin → Stage l fin
  at_fin l h s = subst (Stage l) h s

  pub Checked-next : (m n k : System) → Checked m n → System.Step n k → Checked m k
  Checked-next m n k v st = record {
    reach = v.reach;
    closed = v.closed;
    over = v.over;
    later = System.next v.later st;
  }

  pub scope-Stage :
      (l : Handle) (n : System)
      → System.Reach (init c parent) l.system
      → System.Step l.system n
      → (fin : Fin) → Stage l fin
      → Stage (record l { system = n }) fin
  scope-Stage l n r st idle s = tt
  scope-Stage l n r st closing s = tt
  scope-Stage l n r st awaiting s = still_closed st s
  scope-Stage l n r st checking s =
      let (v, rest) =
        structured_concurrency c parent l.system n r s.0 s.1 (System.next System.here st) in
      (v.root_open, v.wg)
  scope-Stage l n r st (cancelling b) s = (Checked-next _ _ n s.0 st, s.1)
  scope-Stage l n r st (reading_panic b) s = (Checked-next _ _ n s.0 st, s.1)
  scope-Stage l n r st (reading_errs b p) s = (Checked-next _ _ n s.0 st, s.1, s.2)
  scope-Stage l n r st (surfacing b p e) s = (Checked-next _ _ n s.0 st, s.1, s.2, s.3)
  scope-Stage l n r st (storing p e) s = (Checked-next _ _ n s.0 st, s.1, s.2)
  scope-Stage l n r st signalling s = (Checked-next _ _ n s.0 st, s.1, s.2)
  scope-Stage l n r st done s = (Checked-next _ _ n s.0 st, s.1, s.2)
