-- ===== src/Chanx/Closable/Answers.antt =====
-- chanx/closable.go: what the calls of `Send`, `TrySend`, `SendContext` and `Close` answer.
use scoped.Base.{
  ℕ, ◌+◌, ◌<◌, ◌≤◌, ◌≡◌, refl, sym, ap, ◌∙◌, Bool, true, false, some, List, [], ◌∷◌, ◌++◌, arith,
  length, length-append, append_assoc, append-nil, total, total-set, total-append, le-total,
  get_elem?, set, inl, inr, Nat-cases,
}
use scoped.Chanx.Closable.System.{
  Once, fresh, busy, over, Closable, ok, SenderPc, checking, selecting, answered, Sender, Closer,
  entering, storing, closing, returned, System, init, Act, refuse, pass, put, see_closed, see_done,
  give_up, recheck, Shut, first, store, close_done, again, Step, call, act, hand_over, receive,
  close, shut, Reach, here, next,
}

abbrev pub bit : Bool → ℕ
bit true = 1
bit false = 0

-- Which part of `once` runs or has run.
abbrev begun : Once → ℕ
begun fresh = 0
begun busy = 1
begun over = 1

abbrev ended : Once → ℕ
ended over = 1
ended _ = 0

-- A call that is in the function of `once`, is behind its store, or has returned.
abbrev inside : Closer → ℕ
inside storing = 1
inside closing = 1
inside _ = 0

abbrev behind : Closer → ℕ
behind closing = 1
behind _ = 0

abbrev pub back : Closer → ℕ
back returned = 1
back _ = 0

abbrev is_ok : SenderPc → ℕ
is_ok (answered ok) = 1
is_ok _ = 0

abbrev pub went : Sender → ℕ
went c = is_ok c.pc

pub record Inv (m : System) : Type 0 where
  pub fifo : m.closable.sent ≡ m.closable.received ++ m.closable.ch
  pub counted : length m.closable.sent ≡ total went m.senders
  pub room : length m.closable.ch ≤ m.closable.capacity
  pub one : total inside m.closers + ended m.closable.once ≡ begun m.closable.once
  pub flag : bit m.closable.is_closed ≡ total behind m.closers + ended m.closable.once
  pub done : bit m.closable.closed ≡ ended m.closable.once
  pub after : 0 < total back m.closers → ended m.closable.once ≡ 1

handed :
    (sent received ch : List ℕ) (v : ℕ)
    → sent ≡ received ++ ch
    → ch ≡ []
    → sent ++ v ∷ [] ≡ (received ++ v ∷ []) ++ ch
handed sent received ch v h empty =
    ground (arith, append-nil received, append-nil (received ++ v ∷ []))

-- What a step of a sender leaves as it is, and what it does to the values.
pub record Acted (s : Closable) (c : Sender) (s' : Closable) (c' : Sender) : Type 0 where
  once : s'.once ≡ s.once
  closed : s'.closed ≡ s.closed
  pub is_closed : s'.is_closed ≡ s.is_closed
  fifo : s.sent ≡ s.received ++ s.ch → s'.sent ≡ s'.received ++ s'.ch
  counted : length s'.sent + went c ≡ length s.sent + went c'
  room : length s.ch ≤ s.capacity → length s'.ch ≤ s'.capacity

pub Act-Acted : {s s' : Closable} {c c' : Sender} → Act s c s' c' → Acted s c s' c'
Act-Acted (refuse h q) = ground arith
Act-Acted (pass h q) = ground arith
Act-Acted {s} {c = c} (put h lt) = ground (
  arith,
  length-append s.sent (c.value ∷ []),
  length-append s.ch (c.value ∷ []),
  append_assoc s.received s.ch (c.value ∷ []),
)
Act-Acted (see_closed h q k) = ground arith
Act-Acted (see_done h k) = ground arith
Act-Acted (give_up h k le) = ground arith
Act-Acted (recheck h) = ground arith

pub record Shutting (s : Closable) (c : Closer) (s' : Closable) (c' : Closer) : Type 0 where
  same_sent : s'.sent ≡ s.sent
  same_received : s'.received ≡ s.received
  same_ch : s'.ch ≡ s.ch
  same_capacity : s'.capacity ≡ s.capacity
  one : inside c' + ended s'.once + begun s.once ≡ inside c + ended s.once + begun s'.once
  flag : bit s'.is_closed + behind c + ended s.once ≡ bit s.is_closed + behind c' + ended s'.once
  done : bit s'.closed + ended s.once ≡ bit s.closed + ended s'.once
  grows : ended s.once ≤ ended s'.once
  pub stays : s.is_closed ≡ true → s'.is_closed ≡ true
  after : back c' ≤ back c + ended s'.once

Shut-Shutting :
    {s s' : Closable} {c c' : Closer}
    → Shut s c s' c'
    → inside c + ended s.once ≤ begun s.once
    → bit s.is_closed + inside c ≤ behind c + begun s.once
    → bit s.closed ≡ ended s.once
    → Shutting s c s' c'
Shut-Shutting (first h) le f d = ground arith
Shut-Shutting store le f d = ground arith
Shut-Shutting close_done le f d = ground arith
Shut-Shutting (again h) le f d = ground arith

abbrev at_store : Closer → ℕ
at_store storing = 1
at_store _ = 0

inside-parts : (cs : List Closer) → total inside cs ≡ total at_store cs + total behind cs
inside-parts [] = refl
inside-parts (c ∷ cs) = ground (arith, inside-parts cs)

begun-le : (o : Once) → begun o ≤ 1
begun-le o = ground arith

ended-le : (o : Once) → ended o ≤ 1
ended-le o = ground arith

module _ {m : System} (v : Inv m) where
  act-Inv :
      {s : Closable} {c c' : Sender} (i : ℕ)
      → get_elem? m.senders i ≡ some c
      → Acted m.closable c s c'
      → Inv (record m { closable = s; senders = set m.senders i c' })
  act-Inv {s} {c} {c'} i e b = record {
    fifo = b.fifo v.fifo;
    counted = omega (arith, v.counted, b.counted, total-set went m.senders i c c' e);
    room = b.room v.room;
    one = rw b.once v.one;
    flag = rw (b.once, b.is_closed) v.flag;
    done = rw (b.once, b.closed) v.done;
    after = λ l. rw b.once (v.after l);
  }

  shut-Inv :
      {s : Closable} {c c' : Closer} (i : ℕ)
      → get_elem? m.closers i ≡ some c
      → Shutting m.closable c s c'
      → Inv (record m { closable = s; closers = set m.closers i c' })
  shut-Inv {s} {c} {c'} i e b = record {
    fifo = b.same_sent ∙ v.fifo ∙ ground (arith, b.same_received, b.same_ch);
    counted = ground (arith, v.counted, b.same_sent);
    room = ground (arith, v.room, b.same_ch, b.same_capacity);
    one = omega (arith, v.one, b.one, total-set inside m.closers i c c' e);
    flag = omega (arith, v.flag, b.flag, total-set behind m.closers i c c' e);
    done = omega (arith, v.done, b.done);
    after = λ l. elim (Nat-cases (total back m.closers)) [
      | inl none_back ↦ omega (
        arith,
        l,
        none_back,
        b.after,
        ended-le s.once,
        le-total back m.closers i c e,
        total-set back m.closers i c c' e,
      )
      | inr some_back ↦ omega (arith, v.after some_back, b.grows, ended-le s.once)
    ];
  }

  -- What a step of a call of `Close` needs to know.
  pub shut-Shutting :
      {s : Closable} {c c' : Closer} (i : ℕ)
      → get_elem? m.closers i ≡ some c
      → Shut m.closable c s c'
      → Shutting m.closable c s c'
  shut-Shutting {s} {c} {c'} i e mv =
      Shut-Shutting mv (omega (arith, v.one, le-total inside m.closers i c e))
        (omega (
          arith,
          v.one,
          v.flag,
          inside-parts m.closers,
          inside-parts (c ∷ []),
          le-total at_store m.closers i c e,
        ))
        v.done

  hand_over-Inv :
      {c : Sender} (i : ℕ)
      → get_elem? m.senders i ≡ some c
      → c.pc ≡ selecting
      → m.closable.ch ≡ []
      → Inv (record m {
        closable = record m.closable {
          sent = m.closable.sent ++ c.value ∷ [];
          received = m.closable.received ++ c.value ∷ [];
        };
        senders = set m.senders i (record c { pc = answered ok });
      })
  hand_over-Inv {c} i e h empty = record {
    fifo = handed m.closable.sent m.closable.received m.closable.ch c.value v.fifo empty;
    counted = ground (
      arith,
      h,
      v.counted,
      length-append m.closable.sent (c.value ∷ []),
      total-set went m.senders i c (record c { pc = answered ok }) e,
    );
    room = v.room;
    one = v.one;
    flag = v.flag;
    done = v.done;
    after = v.after;
  }

pub step-Inv : {m k : System} → Step m k → Inv m → Inv k
step-Inv {m} (call kind value) v = record {
  fifo = v.fifo;
  counted = ground (
    arith,
    v.counted,
    total-append went m.senders (record { kind = kind; value = value; pc = checking } ∷ []),
  );
  room = v.room;
  one = v.one;
  flag = v.flag;
  done = v.done;
  after = v.after;
}
step-Inv (act i e mv) v = act-Inv v i e (Act-Acted mv)
step-Inv (hand_over i e h empty) v = hand_over-Inv v i e h empty
step-Inv {m} (receive {v = x} {rest} h) v = record {
  fifo =
      v.fifo
      ∙ ap (λ l. m.closable.received ++ l) h
      ∙ sym (append_assoc m.closable.received (x ∷ []) rest);
  counted = v.counted;
  room = ground (arith, v.room);
  one = v.one;
  flag = v.flag;
  done = v.done;
  after = v.after;
}
step-Inv {m} close v = record {
  fifo = v.fifo;
  counted = v.counted;
  room = v.room;
  one = omega (arith, v.one, total-append inside m.closers (entering ∷ []));
  flag = omega (arith, v.flag, total-append behind m.closers (entering ∷ []));
  done = v.done;
  after = λ l. v.after (omega (arith, l, total-append back m.closers (entering ∷ [])));
}
step-Inv (shut i e mv) v = shut-Inv v i e (shut-Shutting v i e mv)

pub reach-Inv : (capacity : ℕ) {m : System} → Reach (init capacity) m → Inv m
reach-Inv capacity here = record {
  fifo = refl;
  counted = refl;
  room = omega arith;
  one = refl;
  flag = refl;
  done = refl;
  after = λ l. absurd (omega arith);
}
reach-Inv capacity (next r st) = step-Inv st (reach-Inv capacity r)
