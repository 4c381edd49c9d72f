-- ===== src/Chanx/Batch/System.antt =====
-- chanx/batch.go and chanx/chanx.go: one call of `SendBatch` and one of `RecvBatch` over the same
-- channel, an operation of the channel at a time, in any order.
--
-- The contexts are those of the two calls. A channel without a buffer, or with an empty one, hands a
-- value over when both calls are at it.
use scoped.Base.{ℕ, suc, ◌<◌, ◌≡◌, Bool, true, false, List, [], ◌∷◌, ◌++◌, length}
use scoped.Errors.{GoError, nil, is_nil}

-- Where `SendBatch` stands: the values that are left for its loop.
pub data Sender {ℓ} (T : Type ℓ) : Type ℓ where
  sending : List T → Sender T
  sent_batch : GoError → Sender T

-- Where `RecvBatch` stands: the rounds that are left for its loop, and `result`.
pub data Receiver {ℓ} (T : Type ℓ) : Type ℓ where
  receiving : ℕ → List T → Receiver T
  got_batch : List T → GoError → Receiver T

pub record System {ℓ} (T : Type ℓ) : Type ℓ where
  pub cap : ℕ
  pub buf : List T
  pub is_closed : Bool
  pub sender : Sender T
  pub receiver : Receiver T

abbrev pub init {ℓ} : {T : Type ℓ} → ℕ → List T → ℕ → System T
init cap values n = record {
  cap = cap;
  buf = [];
  is_closed = false;
  sender = sending values;
  receiver = receiving n [];
}

module _ {ℓ} {T : Type ℓ} where
  -- `Send` and the loop around it. A send on a closed channel would panic: the caller closes it
  -- behind the call.
  pub data Sends (m : System T) : System T → Type ℓ where
    send :
        {v : T} {rest : List T}
        → m.sender ≡ sending (v ∷ rest)
        → m.is_closed ≡ false
        → length m.buf < m.cap
        → Sends m (record m { buf = m.buf ++ v ∷ []; sender = sending rest })
    send_done :
        {v : T} {rest : List T} (e : GoError)
        → m.sender ≡ sending (v ∷ rest)
        → is_nil e ≡ false
        → Sends m (record m { sender = sent_batch e })
    all_sent : m.sender ≡ sending [] → Sends m (record m { sender = sent_batch nil })
    close :
        {e : GoError}
        → m.sender ≡ sent_batch e
        → m.is_closed ≡ false
        → Sends m (record m { is_closed = true })

  -- `Recv` and the loop around it.
  pub data Receives (m : System T) : System T → Type ℓ where
    recv :
        {k : ℕ} {result : List T} {v : T} {rest : List T}
        → m.receiver ≡ receiving (suc k) result
        → m.buf ≡ v ∷ rest
        → Receives m (record m { buf = rest; receiver = receiving k (result ++ v ∷ []) })
    recv_closed :
        {k : ℕ} {result : List T}
        → m.receiver ≡ receiving (suc k) result
        → m.buf ≡ []
        → m.is_closed ≡ true
        → Receives m (record m { receiver = got_batch result nil })
    recv_done :
        {k : ℕ} {result : List T} (e : GoError)
        → m.receiver ≡ receiving (suc k) result
        → is_nil e ≡ false
        → Receives m (record m { receiver = got_batch result e })
    all_received :
        {result : List T}
        → m.receiver ≡ receiving 0 result
        → Receives m (record m { receiver = got_batch result nil })

  pub data Step (m : System T) : System T → Type ℓ where
    sender : {n : System T} → Sends m n → Step m n
    receiver : {n : System T} → Receives m n → Step m n
    hand_over :
        {v : T} {rest : List T} {k : ℕ} {result : List T}
        → m.sender ≡ sending (v ∷ rest)
        → m.receiver ≡ receiving (suc k) result
        → m.buf ≡ []
        → m.is_closed ≡ false
        → Step m (record m { sender = sending rest; receiver = receiving k (result ++ v ∷ []) })

  pub data Reach (m : System T) : System T → Type ℓ where
    here : Reach m m
    next : {n k : System T} → Reach m n → Step n k → Reach m k
