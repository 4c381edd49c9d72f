-- ===== src/Chanx/Closable/System.antt =====
-- chanx/closable.go: the state of a closable channel, its senders, its receivers and the calls of
-- `Close`, an access to shared state at a time, in any order.
use scoped.Base.{
  ℕ, ◌<◌, ◌≤◌, ◌≡◌, ◌≢◌, Bool, true, false, if◌then◌else◌, some, List, [], ◌∷◌, ◌++◌, length,
  get_elem?, set,
}

-- Where the `sync.Once` stands.
pub data Once : Type 0 where
  fresh busy over : Once

-- `ch` is the buffer, the oldest first, and `closed` whether the channel of that name was closed;
-- `sent` and `received` are no fields of the program: no step reads them.
pub record Closable : Type 0 where
  pub ch : List ℕ
  pub capacity : ℕ
  pub once : Once
  pub closed : Bool
  pub is_closed : Bool
  pub sent : List ℕ
  pub received : List ℕ

abbrev pub new_closable : ℕ → Closable
new_closable capacity = record {
  ch = [];
  capacity = capacity;
  once = fresh;
  closed = false;
  is_closed = false;
  sent = [];
  received = [];
}

unfoldable pub len : Closable → ℕ
len s = if s.is_closed then 0 else length s.ch

-- `Send`, `TrySend` and `SendContext`.
pub data Kind : Type 0 where
  send try_send send_context : Kind

pub data SendAnswer : Type 0 where
  ok err_closed err_buff_full ctx_err : SendAnswer

-- `rechecking` is behind the `default` of `TrySend`.
pub data SenderPc : Type 0 where
  checking selecting rechecking : SenderPc
  answered : SendAnswer → SenderPc

pub record Sender : Type 0 where
  pub kind : Kind
  pub value : ℕ
  pub pc : SenderPc

-- A call of `Close`: `storing` runs the function of `once`, and `closing` is behind its store.
pub data Closer : Type 0 where
  entering storing closing returned : Closer

pub record System : Type 0 where
  pub closable : Closable
  pub senders : List Sender
  pub closers : List Closer

abbrev pub init : ℕ → System
init capacity = record { closable = new_closable capacity; senders = []; closers = [] }

-- One step of a sender, except for the rendezvous with a receiver.
pub data Act (s : Closable) (c : Sender) : Closable → Sender → Type 0 where
  refuse : c.pc ≡ checking → s.is_closed ≡ true → Act s c s (record c { pc = answered err_closed })
  pass : c.pc ≡ checking → s.is_closed ≡ false → Act s c s (record c { pc = selecting })
  put :
      c.pc ≡ selecting
      → length s.ch < s.capacity
      → Act s c
          (record s { ch = s.ch ++ c.value ∷ []; sent = s.sent ++ c.value ∷ [] })
          (record c { pc = answered ok })
  see_closed :
      c.pc ≡ selecting
      → s.closed ≡ true
      → c.kind ≢ try_send
      → Act s c s (record c { pc = answered err_closed })
  see_done :
      c.pc ≡ selecting → c.kind ≡ send_context → Act s c s (record c { pc = answered ctx_err })
  give_up :
      c.pc ≡ selecting
      → c.kind ≡ try_send
      → s.capacity ≤ length s.ch
      → Act s c s (record c { pc = rechecking })
  recheck :
      c.pc ≡ rechecking
      → Act s c s (record c { pc = answered (if s.is_closed then err_closed else err_buff_full) })

-- One step of a call of `Close`. A call that finds the function of `once` running waits for its end.
pub data Shut (s : Closable) : Closer → Closable → Closer → Type 0 where
  first : s.once ≡ fresh → Shut s entering (record s { once = busy }) storing
  store : Shut s storing (record s { is_closed = true }) closing
  close_done : Shut s closing (record s { closed = true; once = over }) returned
  again : s.once ≡ over → Shut s entering s returned

pub data Step (m : System) : System → Type 0 where
  call :
      (kind : Kind) (value : ℕ)
      → Step m (record m {
        senders = m.senders ++ record { kind = kind; value = value; pc = checking } ∷ [];
      })
  act :
      {s : Closable} {c c' : Sender} (i : ℕ)
      → get_elem? m.senders i ≡ some c
      → Act m.closable c s c'
      → Step m (record m { closable = s; senders = set m.senders i c' })
  -- A send meets a receiver, with nothing in the buffer.
  hand_over :
      {c : Sender} (i : ℕ)
      → get_elem? m.senders i ≡ some c
      → c.pc ≡ selecting
      → m.closable.ch ≡ []
      → Step m (record m {
        closable = record m.closable {
          sent = m.closable.sent ++ c.value ∷ [];
          received = m.closable.received ++ c.value ∷ [];
        };
        senders = set m.senders i (record c { pc = answered ok });
      })
  receive :
      {v : ℕ} {rest : List ℕ}
      → m.closable.ch ≡ v ∷ rest
      → Step m (record m {
        closable = record m.closable { ch = rest; received = m.closable.received ++ v ∷ [] };
      })
  close : Step m (record m { closers = m.closers ++ entering ∷ [] })
  shut :
      {s : Closable} {c c' : Closer} (i : ℕ)
      → get_elem? m.closers i ≡ some c
      → Shut m.closable c s c'
      → Step m (record m { closable = s; closers = set m.closers i c' })

pub data Reach (m : System) : System → Type 0 where
  here : Reach m m
  next : {n k : System} → Reach m n → Step n k → Reach m k
