-- ===== src/Chanx/Closable/Refusal.antt =====
-- chanx/closable.go: the sends that are called after a call of `Close` has returned.
use scoped.Base.{
  ℕ, zero, suc, ◌<◌, ◌≤◌, ◌≡◌, refl, sym, ap, ◌∙◌, subst, Bool, true, some, List, [], ◌∷◌, ◌++◌,
  arith, length, total, le-total, get_elem?, set, inl, inr, ◌⊎◌,
}
use scoped.Chanx.Closable.System.{
  Closable, err_closed, SenderPc, checking, answered, Sender, returned, System, init, Act, refuse,
  pass, put, see_closed, see_done, give_up, recheck, Step, call, act, hand_over, receive, close,
  shut, Reach, here, next,
}
use scoped.Chanx.Closable.Answers.{
  bit, went, back, Inv, Act-Acted, shut-Shutting, step-Inv, reach-Inv,
}

-- In every state that a new closable channel reaches: the values sent are those received and then
-- those in the buffer, in order, the buffer is within its capacity, and as many values were sent as
-- calls answered nil, so that a call with another answer sent nothing.
pub sent-went :
    (capacity : ℕ) (m : System)
    → Reach (init capacity) m
    → (m.closable.sent ≡ m.closable.received ++ m.closable.ch)
      × (length m.closable.sent ≡ total went m.senders)
      × (length m.closable.ch ≤ m.closable.capacity)
sent-went capacity m r = let v = reach-Inv capacity r in (v.fifo, v.counted, v.room)

module _ {ℓ} {A : Type ℓ} where
  get-set :
      (xs : List A) (i j : ℕ) (v x : A)
      → get_elem? (set xs i v) j ≡ some x
      → ((i ≡ j) × (x ≡ v)) ⊎ (get_elem? xs j ≡ some x)
  get-set [] i j v x h = inr h
  get-set (y ∷ xs) zero zero v x h = inl (refl, cc)
  get-set (y ∷ xs) zero (suc j) v x h = inr h
  get-set (y ∷ xs) (suc i) zero v x h = inr h
  get-set (y ∷ xs) (suc i) (suc j) v x h = elim (get-set xs i j v x h) [
    | inl e ↦ inl (ap suc e.0, e.1)
    | inr e ↦ inr e
  ]

  get-append :
      (xs : List A) (j : ℕ) (y x : A)
      → get_elem? (xs ++ y ∷ []) j ≡ some x
      → (x ≡ y) ⊎ (get_elem? xs j ≡ some x)
  get-append [] zero y x h = inl cc
  get-append [] (suc j) y x h = inr h
  get-append (z ∷ xs) zero y x h = inr h
  get-append (z ∷ xs) (suc j) y x h = get-append xs j y x h

  get-length : (xs : List A) (j : ℕ) (x : A) → get_elem? xs j ≡ some x → length xs ≤ j → ⊥
  get-length [] j x h le = cc
  get-length (y ∷ xs) zero x h le = omega arith
  get-length (y ∷ xs) (suc j) x h le = get-length xs j x h (omega (arith, le))

-- A call that has not looked yet, or that was refused.
abbrev pub IsRefused : SenderPc → Type 0
IsRefused pc = (pc ≡ checking) ⊎ (pc ≡ answered err_closed)

Act-IsRefused :
    {s s' : Closable} {c c' : Sender}
    → Act s c s' c'
    → s.is_closed ≡ true
    → IsRefused c.pc
    → IsRefused c'.pc
Act-IsRefused (refuse h q) t f = inr refl
Act-IsRefused (pass h q) t f = cc
Act-IsRefused (put h lt) t f = elim f [ inl e ↦ cc | inr e ↦ cc ]
Act-IsRefused (see_closed h q k) t f = inr refl
Act-IsRefused (see_done h k) t f = elim f [ inl e ↦ cc | inr e ↦ cc ]
Act-IsRefused (give_up h k le) t f = elim f [ inl e ↦ cc | inr e ↦ cc ]
Act-IsRefused (recheck h) t f = elim f [ inl e ↦ cc | inr e ↦ cc ]

-- From a position on, every sender is refused.
record IsShut (first : ℕ) (m : System) : Type 0 where
  inv : Inv m
  flag : m.closable.is_closed ≡ true
  refused : (j : ℕ) (c : Sender) → first ≤ j → get_elem? m.senders j ≡ some c → IsRefused c.pc

step-IsShut : {first : ℕ} {m k : System} → Step m k → IsShut first m → IsShut first k
step-IsShut {first} {m} (call kind value) s = record {
  inv = step-Inv (call kind value) s.inv;
  flag = s.flag;
  refused = λ j c le e. elim (get-append m.senders j _ c e) [
    | inl h ↦ inl (ap (λ d. d.pc) h)
    | inr h ↦ s.refused j c le h
  ];
}
step-IsShut {first} {m} (act {c = d} {c' = d'} i e mv) s = record {
  inv = step-Inv (act i e mv) s.inv;
  flag = (Act-Acted mv).is_closed ∙ s.flag;
  refused = λ j c le e'. elim (get-set m.senders i j d' c e') [
    | inl h ↦
        subst (λ x. IsRefused x.pc) (sym h.1)
          (Act-IsRefused mv s.flag (s.refused i d (omega (arith, le, h.0)) e))
    | inr h ↦ s.refused j c le h
  ];
}
step-IsShut {first} {m} (hand_over {c = d} i e h empty) s = record {
  inv = step-Inv (hand_over i e h empty) s.inv;
  flag = s.flag;
  refused = λ j c le e'. elim (get-set m.senders i j _ c e') [
    | inl q ↦ elim (s.refused i d (omega (arith, le, q.0)) e) [ inl f ↦ cc | inr f ↦ cc ]
    | inr q ↦ s.refused j c le q
  ];
}
step-IsShut (receive h) s = record {
  inv = step-Inv (receive h) s.inv;
  flag = s.flag;
  refused = s.refused;
}
step-IsShut close s = record { inv = step-Inv close s.inv; flag = s.flag; refused = s.refused }
step-IsShut (shut i e mv) s = record {
  inv = step-Inv (shut i e mv) s.inv;
  flag = (shut-Shutting s.inv i e mv).stays s.flag;
  refused = s.refused;
}

reach-IsShut : {first : ℕ} {m k : System} → Reach m k → IsShut first m → IsShut first k
reach-IsShut here s = s
reach-IsShut (next r st) s = step-IsShut st (reach-IsShut r s)

bit-true : (b : Bool) → 0 < bit b → b ≡ true
bit-true b h = ground arith

-- When a call of `Close` has returned, then whatever follows, every call of `Send`, `TrySend` or
-- `SendContext` that is made from there on answers `ErrClosed`, if it has answered, and the channel
-- stays closed.
pub closed_refuses :
    (capacity : ℕ) (m k : System) (i j : ℕ) (c : Sender)
    → Reach (init capacity) m
    → get_elem? m.closers i ≡ some returned
    → Reach m k
    → length m.senders ≤ j
    → get_elem? k.senders j ≡ some c
    → IsRefused c.pc × (k.closable.is_closed ≡ true)
closed_refuses capacity m k i j c r at later le e =
    let v = reach-Inv capacity r in
    let s = reach-IsShut later (record {
      inv = v;
      flag =
          bit-true m.closable.is_closed
            (omega (arith, v.flag, v.after (le-total back m.closers i returned at)));
      refused = λ j' c' le' e'. absurd (get-length m.senders j' c' e' le');
    }) in
    (s.refused j c le e, s.flag)
