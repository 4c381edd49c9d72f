-- ===== src/Chanx/Closable/Examples.antt =====
-- The theorems on closable channels at a channel with one place.
use scoped.Base.{◌≤◌, ◌≡◌, refl, true, [], ◌∷◌, ◌++◌, length, total, arith}
use scoped.Chanx.Closable.System.{
  send, try_send, err_closed, ok, answered, returned, System, init, over, refuse, pass, put, first,
  store, close_done, call, act, receive, close, shut, Reach, here, next,
}
use scoped.Chanx.Closable.Answers.{went}
use scoped.Chanx.Closable.Refusal.{IsRefused, sent-went, closed_refuses}

-- A value was sent, and a call of `Close` returned.
abbrev stopped : System
stopped = record {
  closable = record {
    ch = 5 ∷ [];
    capacity = 1;
    once = over;
    closed = true;
    is_closed = true;
    sent = 5 ∷ [];
    received = [];
  };
  senders = record { kind = send; value = 5; pc = answered ok } ∷ [];
  closers = returned ∷ [];
}

stopped-Reach : Reach (init 1) stopped
stopped-Reach =
    next
      (next
        (next
          (next
            (next (next (next here (call send 5)) (act 0 refl (pass refl refl)))
              (act 0 refl (put refl (omega arith))))
            close)
          (shut 0 refl (first refl)))
        (shut 0 refl store))
      (shut 0 refl close_done)

-- A call after it, and a receive.
abbrev later : System
later = record {
  closable = record stopped.closable { ch = []; received = 5 ∷ [] };
  senders =
      record { kind = send; value = 5; pc = answered ok }
      ∷ record { kind = try_send; value = 6; pc = answered err_closed }
      ∷ [];
  closers = stopped.closers;
}

later-Reach : Reach stopped later
later-Reach =
    next (next (next here (call try_send 6)) (act 1 refl (refuse refl refl))) (receive refl)

sent-went_example :
    (stopped.closable.sent ≡ stopped.closable.received ++ stopped.closable.ch)
    × (length stopped.closable.sent ≡ total went stopped.senders)
    × (length stopped.closable.ch ≤ stopped.closable.capacity)
sent-went_example = sent-went 1 stopped stopped-Reach

closed_refuses_example : IsRefused (answered err_closed) × (later.closable.is_closed ≡ true)
closed_refuses_example =
    closed_refuses 1 stopped later 0 1
      (record { kind = try_send; value = 6; pc = answered err_closed }) stopped-Reach refl
      later-Reach (omega arith) refl
