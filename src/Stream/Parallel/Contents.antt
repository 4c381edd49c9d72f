-- ===== src/Stream/Parallel/Contents.antt =====
-- stream.go, `ParallelMap`: which results are where, and which are given out.
use scoped.Base.{
  select, Bool-cases, pick_false, append-nil, inl, inr, Bool, false, ℕ, zero, suc, ◌≡◌, refl, ◌∙◌,
  sym, ap, subst, Option, some, none, List, [], ◌∷◌, ◌++◌, arith, map, take, drop, All, All-append,
  All-get, All-set, get_elem?, set,
}
use scoped.Errors.{GoError}
use scoped.Errors.{is_nil}
use scoped.Stream.Defs.{Ret}
use scoped.Stream.Parallel.Defs.{
  Reorder, at_close, at_gap, first_error, StreamOptions, IndexedResult, insert,
}
use scoped.Stream.Parallel.System.{
  Called, call_result, Worker, calling, sending, Pc, System, init, Dispatch, pull, pull_end,
  pull_done, index, gate, gate_done, add, slot, slot_done, undo, launch, wait, stop_run,
  close_results, Work, call_fn, send, crash, give_up, free, finish, Consume, take_result, give,
  give_close, give_done, Step, dispatch, work, consume, stop, end_ctx, end_task, bridge, Reach,
  here, next,
}
use scoped.Stream.Parallel.Invariant.{emit-Emitted}
use scoped.Stream.Parallel.Places.{
  drop-head, take-snoc, pc_items, PcHas, IsAt, delete-IsAt, lookup-IsAt,
}

-- The answers that carry no error.
abbrev pub successes {ℓ} : {B : Type ℓ} → List (Ret B) → List (Ret B)
successes answers = select (λ r. is_nil r.err) answers

select-append {ℓ} :
    {A : Type ℓ} (p : A → Bool) (xs ys : List A) → select p (xs ++ ys) ≡ select p xs ++ select p ys
select-append p [] ys = refl
select-append p (x ∷ xs) ys = elim (Bool-cases (p x)) [
  | inl taken ↦ rw taken (ap (λ l. x ∷ l) (select-append p xs ys))
  | inr left ↦ rw left (select-append p xs ys)
]

successes-append {ℓ} :
    {B : Type ℓ} (all given : List (Ret B)) (r : Ret B)
    → successes all ≡ successes given
    → successes (all ++ r ∷ []) ≡ successes (given ++ r ∷ [])
successes-append all given r h =
    select-append _ all (r ∷ [])
    ∙ ap (λ l. l ++ successes (r ∷ [])) h
    ∙ sym (select-append _ given (r ∷ []))

successes-bad {ℓ} :
    {B : Type ℓ} (all : List (Ret B)) (r : Ret B)
    → is_nil r.err ≡ false
    → successes (all ++ r ∷ []) ≡ successes all
successes-bad all r bad =
    select-append _ all (r ∷ [])
    ∙ ap (λ l. successes all ++ l) (pick_false _ _ bad)
    ∙ append-nil (successes all)

-- What a call finds at the closed channel carries an error.
first_error-bad {ℓ} :
    {B : Type ℓ} (p : List (IndexedResult B)) (r : Ret B)
    → first_error p ≡ some r
    → is_nil r.err ≡ false
unfolding first_error
first_error-bad [] r h = cc
first_error-bad (x ∷ p) r h = ground (arith, first_error-bad p r)

at_gap-bad {ℓ} :
    {B : Type ℓ} (z : B) (o : Option (Ret B)) (s : Reorder B) (r : Ret B) (c : Reorder B)
    → ((x : Ret B) → o ≡ some x → is_nil x.err ≡ false)
    → at_gap z o s ≡ some (r, c)
    → is_nil r.err ≡ false
unfolding at_gap
at_gap-bad z none s r c bad h = ground (arith, h)
at_gap-bad z (some x) s r c bad h = ground (arith, h, bad x refl)

at_close-bad {ℓ} :
    {B : Type ℓ} (z : B) (p : List (IndexedResult B)) (s : Reorder B) (r : Ret B) (c : Reorder B)
    → at_close z p s ≡ some (r, c)
    → is_nil r.err ≡ false
unfolding at_close
at_close-bad z [] s r c h = ground (arith, h)
at_close-bad z (x ∷ p) s r c h =
    at_gap-bad z (first_error (x ∷ p)) s r c (λ y. first_error-bad (x ∷ p) y) h

-- The results of the items, in their order.
abbrev pub mapped {ℓ κ} : {A : Type ℓ} {B : Type κ} → B → (A → Called B) → List A → List (Ret B)
mapped zero_value fn items = map (λ v. call_result zero_value (fn v)) items

module _ {ℓ κ} {A : Type ℓ} {B : Type κ} (zero_value : B) (fn : A → Called B) (opts : StreamOptions)
    (items : List A) where
  abbrev results : List (Ret B)
  results = mapped zero_value fn items

  abbrev WorkerHas : Worker A B → Type (ℓ ⊔ κ)
  WorkerHas (calling i v) = (get_elem? items i ≡ some v) × Unit {κ}
  WorkerHas (sending r) = Unit {ℓ} × IsAt results r
  WorkerHas _ = Unit

  -- The dispatcher's own item and the items that are left for it.
  abbrev Ahead : ℕ → Pc A → List A → Type ℓ
  Ahead k pc source = (drop k items ≡ pc_items pc ++ source) × PcHas items pc

  pub record Carried (ws : List (Worker A B)) (rs p : List (IndexedResult B)) (k : ℕ)
      (given all : List (Ret B)) : Type (ℓ ⊔ κ) where
    pub workers : All WorkerHas ws
    pub res_ch : All (IsAt results) rs
    pub pending : All (IsAt results) p
    pub emitted : given ≡ take k results
    pub answers : successes all ≡ successes given

  pub record Contents (m : System A B) : Type (ℓ ⊔ κ) where
    pub ahead : Ahead m.input_idx m.pc m.source
    pub carried :
        Carried m.workers m.res_ch m.consumer.pending m.consumer.next_idx m.emitted m.answers

  at_pc :
      (m : System A B) {pc : Pc A}
      → m.pc ≡ pc
      → Ahead m.input_idx m.pc m.source
      → Ahead m.input_idx pc m.source
  at_pc m h a = subst (λ pc. Ahead m.input_idx pc m.source) h a

  Dispatch-Ahead :
      (m n : System A B)
      → Dispatch opts m n
      → Ahead m.input_idx m.pc m.source
      → Ahead n.input_idx n.pc n.source
  Dispatch-Ahead m n (pull h q) a = ((at_pc m h a).0 ∙ q, tt)
  Dispatch-Ahead m n (pull_end h q p) a = at_pc m h a
  Dispatch-Ahead m n (pull_done e h q p) a = at_pc m h a
  Dispatch-Ahead m n (index {v} h) a =
      let (at, rest) = drop-head items m.input_idx v m.source (at_pc m h a).0 in (rest, at)
  Dispatch-Ahead m n (gate h lt) a = at_pc m h a
  Dispatch-Ahead m n (gate_done h q) a = ((at_pc m h a).0, tt)
  Dispatch-Ahead m n (add h) a = at_pc m h a
  Dispatch-Ahead m n (slot h lt) a = at_pc m h a
  Dispatch-Ahead m n (slot_done h q) a = ((at_pc m h a).0, tt)
  Dispatch-Ahead m n (undo h) a = at_pc m h a
  Dispatch-Ahead m n (launch h) a = ((at_pc m h a).0, tt)
  Dispatch-Ahead m n (wait h z) a = at_pc m h a
  Dispatch-Ahead m n (stop_run h) a = at_pc m h a
  Dispatch-Ahead m n (close_results h) a = at_pc m h a

  launched :
      (m : System A B) (i : ℕ) (v : A)
      → get_elem? items i ≡ some v
      → Carried m.workers m.res_ch m.consumer.pending m.consumer.next_idx m.emitted m.answers
      → Carried
          (m.workers ++ calling i v ∷ [])
          m.res_ch
          m.consumer.pending
          m.consumer.next_idx
          m.emitted
          m.answers
  launched m i v h c = record {
    workers = All-append _ m.workers (calling i v) c.workers (h, tt);
    res_ch = c.res_ch;
    pending = c.pending;
    emitted = c.emitted;
    answers = c.answers;
  }

  Dispatch-Carried :
      (m n : System A B)
      → Dispatch opts m n
      → Ahead m.input_idx m.pc m.source
      → Carried m.workers m.res_ch m.consumer.pending m.consumer.next_idx m.emitted m.answers
      → Carried n.workers n.res_ch n.consumer.pending n.consumer.next_idx n.emitted n.answers
  Dispatch-Carried m n (launch {i} {v} h) a c = launched m i v (at_pc m h a).1 c
  Dispatch-Carried m n (pull_end h q p) a c = c
  Dispatch-Carried m n (pull_done e h q p) a c = c
  Dispatch-Carried m n (gate h lt) a c = c
  Dispatch-Carried m n (pull h q) a c = c
  Dispatch-Carried m n (index h) a c = c
  Dispatch-Carried m n (gate_done h q) a c = c
  Dispatch-Carried m n (add h) a c = c
  Dispatch-Carried m n (slot h lt) a c = c
  Dispatch-Carried m n (slot_done h q) a c = c
  Dispatch-Carried m n (undo h) a c = c
  Dispatch-Carried m n (wait h z) a c = c
  Dispatch-Carried m n (stop_run h) a c = c
  Dispatch-Carried m n (close_results h) a c = c

  get_result :
      (xs : List A) (i : ℕ) (v : A)
      → get_elem? xs i ≡ some v
      → get_elem? (map (λ v. call_result zero_value (fn v)) xs) i
        ≡ some (call_result zero_value (fn v))
  get_result [] i v h = cc
  get_result (x ∷ xs) zero v h = ground arith
  get_result (x ∷ xs) (suc i) v h = get_result xs i v h

  -- A worker in its new state, with the channel it leaves.
  replaced :
      (m : System A B) (rs : List (IndexedResult B)) (i : ℕ) (w' : Worker A B)
      → Contents m
      → All (IsAt results) rs
      → WorkerHas w'
      → Carried (set m.workers i w') rs m.consumer.pending m.consumer.next_idx m.emitted m.answers
  replaced m rs i w' c a h = record {
    workers = All-set WorkerHas m.workers i w' c.carried.workers h;
    res_ch = a;
    pending = c.carried.pending;
    emitted = c.carried.emitted;
    answers = c.carried.answers;
  }

  Work-Contents :
      (m n : System A B) (i : ℕ) (w w' : Worker A B)
      → get_elem? m.workers i ≡ some w
      → Work zero_value fn opts m w n w'
      → Contents m
      → Contents (record n { workers = set m.workers i w' })
  Work-Contents m n i w w' e (call_fn {i = j} {v}) c =
      let h = All-get WorkerHas m.workers i e c.carried.workers in
      record {
        ahead = c.ahead;
        carried = replaced m m.res_ch i w' c c.carried.res_ch (tt, get_result items j v h.0);
      }
  Work-Contents m n i w w' e (send {r} p q) c =
      let h = All-get WorkerHas m.workers i e c.carried.workers in
      record {
        ahead = c.ahead;
        carried =
            replaced m (m.res_ch ++ r ∷ []) i w' c (All-append _ m.res_ch r c.carried.res_ch h.1)
              tt;
      }
  Work-Contents m n i w w' e (crash p) c = record {
    ahead = c.ahead;
    carried = replaced m m.res_ch i w' c c.carried.res_ch tt;
  }
  Work-Contents m n i w w' e (give_up p) c = record {
    ahead = c.ahead;
    carried = replaced m m.res_ch i w' c c.carried.res_ch tt;
  }
  Work-Contents m n i w w' e free c = record {
    ahead = c.ahead;
    carried = replaced m m.res_ch i w' c c.carried.res_ch tt;
  }
  Work-Contents m n i w w' e finish c = record {
    ahead = c.ahead;
    carried = replaced m m.res_ch i w' c c.carried.res_ch tt;
  }

  given_error :
      (m : System A B) (r : Ret B)
      → Carried m.workers m.res_ch m.consumer.pending m.consumer.next_idx m.emitted m.answers
      → is_nil r.err ≡ false
      → Carried m.workers m.res_ch m.consumer.pending m.consumer.next_idx m.emitted
          (m.answers ++ r ∷ [])
  given_error m r c bad = record {
    workers = c.workers;
    res_ch = c.res_ch;
    pending = c.pending;
    emitted = c.emitted;
    answers = successes-bad m.answers r bad ∙ c.answers;
  }

  Consume-Contents : (m n : System A B) → Consume zero_value m n → Contents m → Contents n
  unfolding insert
  Consume-Contents m n (take_result {r} {rest} none_there h) c =
      let a = subst (All (IsAt results)) h c.carried.res_ch in
      record {
        ahead = c.ahead;
        carried = record {
          workers = c.carried.workers;
          res_ch = a.1;
          pending = (a.0, delete-IsAt results r.idx m.consumer.pending c.carried.pending);
          emitted = c.carried.emitted;
          answers = c.carried.answers;
        };
      }
  Consume-Contents m n (give {r} {r'} {c = c'} there h) c =
      let e = emit-Emitted r m.consumer r' c' h in
      let at =
        lookup-IsAt results m.consumer.next_idx m.consumer.pending r c.carried.pending there in
      record {
        ahead = c.ahead;
        carried = record {
          workers = c.carried.workers;
          res_ch = c.carried.res_ch;
          pending =
              subst (All (IsAt results)) (sym e.pending)
                (delete-IsAt results m.consumer.next_idx m.consumer.pending c.carried.pending);
          emitted =
              ap (λ l. l ++ r' ∷ []) c.carried.emitted
              ∙ ap (λ x. take m.consumer.next_idx results ++ x ∷ []) e.ret
              ∙ sym (take-snoc results m.consumer.next_idx r at)
              ∙ ap (λ k. take k results) (sym e.next_idx);
          answers = successes-append m.answers m.emitted r' c.carried.answers;
        };
      }
  Consume-Contents m n (give_close {r} order pm p q cl e) c = record {
    ahead = c.ahead;
    carried = given_error m r c.carried (at_close-bad zero_value order m.consumer r _ e);
  }
  Consume-Contents m n (give_done e p q) c = record {
    ahead = c.ahead;
    carried = given_error m (record { val = zero_value; err = e }) c.carried q;
  }

  Step-Contents : (m n : System A B) → Step zero_value fn opts m n → Contents m → Contents n
  Step-Contents m n (dispatch {n = k} d) c = record {
    ahead = Dispatch-Ahead m k d c.ahead;
    carried = Dispatch-Carried m k d c.ahead c.carried;
  }
  Step-Contents m n (work {n = k} {w} {w'} i e mv) c = Work-Contents m k i w w' e mv c
  Step-Contents m n (consume {n = k} d) c = Consume-Contents m k d c
  Step-Contents m n stop c = record { ahead = c.ahead; carried = c.carried }
  Step-Contents m n (end_ctx e p q) c = record { ahead = c.ahead; carried = c.carried }
  Step-Contents m n (end_task e p q) c = record { ahead = c.ahead; carried = c.carried }
  Step-Contents m n (bridge p) c = record { ahead = c.ahead; carried = c.carried }

  pub contents :
      (source_end : GoError) (m : System A B)
      → Reach zero_value fn opts (init items source_end) m
      → Contents m
  contents source_end m here = record {
    ahead = (refl, tt);
    carried = record { workers = tt; res_ch = tt; pending = tt; emitted = refl; answers = refl };
  }
  contents source_end m (next {n} r st) = Step-Contents n m st (contents source_end n r)
