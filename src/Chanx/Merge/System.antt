-- ===== src/Chanx/Merge/System.antt =====
-- chanx/merge.go, `Merge`: a goroutine for each input that is not nil, and the one that closes the
-- output, an operation of a channel at a time, in any order.
--
-- An input is the list of the values that are still to come from it; it is closed behind them when
-- `ends` says so. A consumer takes each value that is sent.
use scoped.Base.{
  ℕ, ◌≡◌, ◌-◌, Bool, true, false, Option, none, some, List, [], ◌∷◌, ◌++◌, length, get_elem?, set,
}
use scoped.Errors.{GoError, nil, is_nil}

-- Where a goroutine stands.
pub data Pc {ℓ} (T : Type ℓ) : Type ℓ where
  selecting : Pc T
  sending : T → Pc T
  returned : Pc T
  gave_up : T → Pc T  -- it returned without the send

pub record Input {ℓ} (T : Type ℓ) : Type ℓ where
  pub coming : List T
  pub ends : Bool

-- `forwarded` is no field of the program: it keeps the values that the goroutine sent. No step
-- reads it.
pub record Forwarder {ℓ} (T : Type ℓ) : Type ℓ where
  pub input : Input T
  pub pc : Pc T
  pub forwarded : List T

pub record System {ℓ} (T : Type ℓ) : Type ℓ where
  pub forwarders : List (Forwarder T)
  pub wg : ℕ
  pub out : List T
  pub out_closed : Bool
  pub panicked : Bool
  pub ctx_err : GoError

abbrev pub forwarder {ℓ} : {T : Type ℓ} → Input T → Forwarder T
forwarder input = record { input = input; pc = selecting; forwarded = [] }

-- Nil inputs are skipped.
unfoldable pub forwarders_of {ℓ} : {T : Type ℓ} → List (Option (Input T)) → List (Forwarder T)
forwarders_of [] = []
forwarders_of (none ∷ chs) = forwarders_of chs
forwarders_of (some input ∷ chs) = forwarder input ∷ forwarders_of chs

abbrev pub init {ℓ} : {T : Type ℓ} → List (Option (Input T)) → System T
init chs = record {
  forwarders = forwarders_of chs;
  wg = length (forwarders_of chs);
  out = [];
  out_closed = false;
  panicked = false;
  ctx_err = nil;
}

module _ {ℓ} {T : Type ℓ} where
  -- A step of a goroutine.
  pub data Forward (m : System T) : Forwarder T → System T → Forwarder T → Type ℓ where
    recv :
        {f : Forwarder T} {v : T} {rest : List T}
        → f.pc ≡ selecting
        → f.input.coming ≡ v ∷ rest
        → Forward m f m (record f { input = record f.input { coming = rest }; pc = sending v })
    recv_closed :
        {f : Forwarder T}
        → f.pc ≡ selecting
        → f.input.coming ≡ []
        → f.input.ends ≡ true
        → Forward m f (record m { wg = m.wg - 1 }) (record f { pc = returned })
    done_receiving :
        {f : Forwarder T}
        → f.pc ≡ selecting
        → is_nil m.ctx_err ≡ false
        → Forward m f (record m { wg = m.wg - 1 }) (record f { pc = returned })
    send :
        {f : Forwarder T} {v : T}
        → f.pc ≡ sending v
        → m.out_closed ≡ false
        → Forward m f
            (record m { out = m.out ++ v ∷ [] })
            (record f { pc = selecting; forwarded = f.forwarded ++ v ∷ [] })
    send_closed :
        {f : Forwarder T} {v : T}
        → f.pc ≡ sending v
        → m.out_closed ≡ true
        → Forward m f (record m { panicked = true }) f
    done_sending :
        {f : Forwarder T} {v : T}
        → f.pc ≡ sending v
        → is_nil m.ctx_err ≡ false
        → Forward m f (record m { wg = m.wg - 1 }) (record f { pc = gave_up v })

  pub data Step (m : System T) : System T → Type ℓ where
    forward :
        {n : System T} {f f' : Forwarder T} (i : ℕ)
        → get_elem? m.forwarders i ≡ some f
        → Forward m f n f'
        → Step m (record n { forwarders = set m.forwarders i f' })
    -- `wg.Wait(); close(out)`
    close_out : m.wg ≡ 0 → m.out_closed ≡ false → Step m (record m { out_closed = true })
    end_ctx : (e : GoError) → is_nil e ≡ false → Step m (record m { ctx_err = e })

  pub data Reach (m : System T) : System T → Type ℓ where
    here : Reach m m
    next : {n k : System T} → Reach m n → Step n k → Reach m k
