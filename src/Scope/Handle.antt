-- ===== src/Scope/Handle.antt =====
-- scope.go: the `Scope` that `New` returns, with calls of `Wait` and `WaitTimeout` next to its
-- tasks, and the body of `finalize` one access to shared state at a time.
use scoped.Base.{
  ℕ, ◌≡◌, Bool, true, false, not, ◌&&◌, if◌then◌else◌, Option, none, some, List, [], ◌∷◌, ◌++◌,
  get_elem?, set,
}
use scoped.Errors.{GoError, PanicValue, nil, is_nil}
use scoped.Scope.Config.{Config}
use scoped.Scope.Defs.{Scope, Ending, raise_or_return, cancel, policy_err, first_panic}
use scoped.Scope.System.{System, init}
use scoped.Scope.System

-- How far the body that `sc.once` runs has come; what it has read so far stands with it.
pub data Fin : Type 0 where
  idle : Fin
  closing : Fin
  awaiting : Fin
  checking : Fin
  cancelling : Bool → Fin
  reading_panic : Bool → Fin
  reading_errs : Bool → Option PanicValue → Fin
  surfacing : Bool → Option PanicValue → GoError → Fin
  storing : Option PanicValue → GoError → Fin
  signalling : Fin
  done : Fin

abbrev pub is_idle : Fin → Bool
is_idle idle = true
is_idle _ = false

-- A call of `Wait` or `WaitTimeout`, or a goroutine that `WaitTimeout` starts for `doFinalize`.
pub data Call : Type 0 where
  entering : Call  -- before `sc.once.Do`, in `Wait`
  inside : Call
  timing : Call  -- `WaitTimeout`, before its goroutine is started
  selecting : Call
  spawned : Call  -- the goroutine, before `sc.once.Do`
  spawned_inside : Call
  spawned_over : Call
  reading : Call  -- before `sc.panicVal` and `sc.result` are read
  ended : Ending → Call
  timed_out : Call  -- `context.DeadlineExceeded` was returned

-- `checked` is no field of the program: it is the state of the scope when `finalize` looked at the
-- context. No step reads it.
pub record Handle : Type 0 where
  pub system : System
  pub fin : Fin
  pub fin_done : Bool
  pub result : GoError
  pub panic_val : Option PanicValue
  pub calls : List Call
  pub checked : System

abbrev pub fresh : Config → GoError → Handle
fresh c parent = record {
  system = init c parent;
  fin = idle;
  fin_done = false;
  result = nil;
  panic_val = none;
  calls = [];
  checked = init c parent;
}

abbrev pub on_scope : (Scope → Scope) → System → System
on_scope f m = record m { scope = f m.scope }

-- The body of `doFinalize` and of `finalize`.
pub data Finalize (l : Handle) : Handle → Type 0 where
  close :
      l.fin ≡ closing
      → Finalize l (record l {
        system = on_scope (λ s. record s { root_open = false }) l.system;
        fin = awaiting;
      })
  await : l.fin ≡ awaiting → l.system.scope.wg ≡ 0 → Finalize l (record l { fin = checking })
  check :
      l.fin ≡ checking
      → Finalize l
          (record l { fin = cancelling (not (is_nil l.system.scope.ctx_err)); checked = l.system })
  cancel_ctx :
      {b : Bool}
      → l.fin ≡ cancelling b
      → Finalize l (record l { system = on_scope (cancel nil) l.system; fin = reading_panic b })
  read_panic :
      {b : Bool}
      → l.fin ≡ reading_panic b
      → Finalize l (record l {
        fin =
            reading_errs b
              (if l.system.scope.panic_as_err then none else first_panic l.system.scope.panics);
      })
  read_errs :
      {b : Bool} {p : Option PanicValue}
      → l.fin ≡ reading_errs b p
      → Finalize l
          (record l { fin = surfacing b p (policy_err l.system.scope.policy l.system.scope) })
  surface :
      {b : Bool} {p : Option PanicValue} {e : GoError}
      → l.fin ≡ surfacing b p e
      → Finalize l
          (record l { fin = storing p (if is_nil e && b then l.system.scope.ctx_err else e) })
  store :
      {p : Option PanicValue} {e : GoError}
      → l.fin ≡ storing p e
      → Finalize l (record l { result = e; panic_val = p; fin = signalling })
  signal : l.fin ≡ signalling → Finalize l (record l { fin_done = true; fin = done })

-- A step of a call.
pub data Turn (l : Handle) : Call → Handle → Call → Type 0 where
  enter : l.fin ≡ idle → Turn l entering (record l { fin = closing }) inside
  enter_later : is_idle l.fin ≡ false → Turn l entering l inside
  leave : l.fin ≡ done → Turn l inside l reading
  enter_spawned : l.fin ≡ idle → Turn l spawned (record l { fin = closing }) spawned_inside
  enter_spawned_later : is_idle l.fin ≡ false → Turn l spawned l spawned_inside
  leave_spawned : l.fin ≡ done → Turn l spawned_inside l spawned_over
  receive : l.fin_done ≡ true → Turn l selecting l reading
  expire : Turn l selecting l timed_out
  answer : Turn l reading l (ended (raise_or_return l.panic_val l.result))

pub data Step (l : Handle) : Handle → Type 0 where
  run_scope : {n : System} → System.Step l.system n → Step l (record l { system = n })
  finalizes : {k : Handle} → Finalize l k → Step l k
  call_wait : Step l (record l { calls = l.calls ++ entering ∷ [] })
  call_wait_timeout : Step l (record l { calls = l.calls ++ timing ∷ [] })
  start :
      (i : ℕ)
      → get_elem? l.calls i ≡ some timing
      → Step l (record l { calls = set l.calls i selecting ++ spawned ∷ [] })
  turn :
      {k : Handle} {c c' : Call} (i : ℕ)
      → get_elem? l.calls i ≡ some c
      → Turn l c k c'
      → Step l (record k { calls = set l.calls i c' })

pub data Reach (l : Handle) : Handle → Type 0 where
  here : Reach l l
  next : {k n : Handle} → Reach l k → Step k n → Reach l n
