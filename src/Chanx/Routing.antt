-- ===== src/Chanx/Routing.antt =====
-- chanx/partition.go, chanx/tee.go, chanx/broadcast.go, chanx/merge.go, chanx/zip.go and
-- chanx/first.go: the goroutines with several outputs or inputs. The counts of outputs are
-- positive, and the functions non-nil.
use scoped.Base.{
  ℕ, zero, suc, ◌%◌, Bool, true, false, if◌then◌else◌, Option, none, some, List, [], ◌∷◌, ◌++◌, set,
  get_or, replicate,
}
use scoped.Chanx.Rounds.{Reply, sent, cancelled, Round, received, input_closed, done}

-- What came of a goroutine with several outputs: what each was sent, the oldest first.
pub record Routed {ℓ} (A : Type ℓ) : Type ℓ where
  pub taken : List A
  pub outs : List (List A)
  pub ended : Bool

-- What came of `Partition`.
pub record Parted {ℓ} (A : Type ℓ) : Type ℓ where
  pub taken : List A
  pub match : List A
  pub rest : List A
  pub ended : Bool

module _ {ℓ} {A : Type ℓ} where
  abbrev pub parted : Bool → Parted A
  parted ended = record { taken = []; match = []; rest = []; ended = ended }

  -- A round in which the value went to one of the two channels, or was received and not sent.
  abbrev pub to_match : A → Parted A → Parted A
  to_match v p = record p { taken = v ∷ p.taken; match = v ∷ p.match }

  abbrev pub to_rest : A → Parted A → Parted A
  to_rest v p = record p { taken = v ∷ p.taken; rest = v ∷ p.rest }

  unfoldable pub partition_loop : (A → Bool) → List (Round A) → Parted A
  partition_loop fn [] = parted false
  partition_loop fn (received v sent ∷ rounds) =
      let p = partition_loop fn rounds in if fn v then to_match v p else to_rest v p
  partition_loop fn (received v cancelled ∷ rounds) = record (parted true) { taken = v ∷ [] }
  partition_loop fn (input_closed ∷ rounds) = parted true
  partition_loop fn (done ∷ rounds) = parted true

  unfoldable pub partition : Option (List (Round A)) → (A → Bool) → Parted A
  partition none fn = parted true
  partition (some rounds) fn = partition_loop fn rounds

  -- `outs[i] <- v`
  abbrev pub send_at : List (List A) → ℕ → A → List (List A)
  send_at outs i v = set outs i (get_or outs i [] ++ v ∷ [])

  -- `FanOut`, at `idx`, with what the outputs were sent so far.
  unfoldable pub fan_out_loop : ℕ → ℕ → List A → List (List A) → List (Round A) → Routed A
  fan_out_loop n idx taken outs [] = record { taken = taken; outs = outs; ended = false }
  fan_out_loop n idx taken outs (received v sent ∷ rounds) =
      fan_out_loop n (suc idx) (taken ++ v ∷ []) (send_at outs (idx % n) v) rounds
  fan_out_loop n idx taken outs (received v cancelled ∷ rounds) = record {
    taken = taken ++ v ∷ [];
    outs = outs;
    ended = true;
  }
  fan_out_loop n idx taken outs (input_closed ∷ rounds) = record {
    taken = taken;
    outs = outs;
    ended = true;
  }
  fan_out_loop n idx taken outs (done ∷ rounds) = record {
    taken = taken;
    outs = outs;
    ended = true;
  }

  unfoldable pub fan_out : Option (List (Round A)) → ℕ → Routed A
  fan_out none n = record { taken = []; outs = replicate n []; ended = true }
  fan_out (some rounds) n = fan_out_loop n 0 [] (replicate n []) rounds

-- A round of `Tee` or `Broadcast`: a value, and to how many of the outputs it was sent before
-- `ctx.Done()` was chosen, if it was.
pub data SpreadRound {ℓ} (A : Type ℓ) : Type ℓ where
  spread : A → SpreadRound A
  cut : A → ℕ → SpreadRound A
  spread_closed : SpreadRound A
  spread_done : SpreadRound A

module _ {ℓ} {A : Type ℓ} where
  -- The sends of one value, to all outputs or to the first ones.
  abbrev pub send_all : A → List (List A) → List (List A)
  send_all v [] = []
  send_all v (o ∷ outs) = (o ++ v ∷ []) ∷ send_all v outs

  abbrev pub send_some : ℕ → A → List (List A) → List (List A)
  send_some zero v outs = outs
  send_some (suc k) v [] = []
  send_some (suc k) v (o ∷ outs) = (o ++ v ∷ []) ∷ send_some k v outs

  -- The loop of `Tee`, which is that of `Broadcast` too. `Done` is chosen before the last send.
  unfoldable pub tee_loop : List A → List (List A) → List (SpreadRound A) → Routed A
  tee_loop taken outs [] = record { taken = taken; outs = outs; ended = false }
  tee_loop taken outs (spread v ∷ rounds) = tee_loop (taken ++ v ∷ []) (send_all v outs) rounds
  tee_loop taken outs (cut v k ∷ rounds) = record {
    taken = taken ++ v ∷ [];
    outs = send_some k v outs;
    ended = true;
  }
  tee_loop taken outs (spread_closed ∷ rounds) = record { taken = taken; outs = outs; ended = true }
  tee_loop taken outs (spread_done ∷ rounds) = record { taken = taken; outs = outs; ended = true }

  unfoldable pub tee : Option (List (SpreadRound A)) → ℕ → Routed A
  tee none n = record { taken = []; outs = replicate n []; ended = true }
  tee (some rounds) n = tee_loop [] (replicate n []) rounds

pub record Pair {ℓ κ} (A : Type ℓ) (B : Type κ) : Type (ℓ ⊔ κ) where
  pub first : A
  pub second : B

-- A round of `Zip`: both values were received, or one input was closed or the context done at one of
-- the two receives.
pub data ZipRound {ℓ κ} (A : Type ℓ) (B : Type κ) : Type (ℓ ⊔ κ) where
  both : A → B → Reply → ZipRound A B
  stop_first : ZipRound A B
  stop_second : A → ZipRound A B

pub record Zipped {ℓ κ} (A : Type ℓ) (B : Type κ) : Type (ℓ ⊔ κ) where
  pub taken_a : List A
  pub taken_b : List B
  pub out : List (Pair A B)
  pub ended : Bool

module _ {ℓ κ} {A : Type ℓ} {B : Type κ} where
  abbrev pub zipped : Bool → Zipped A B
  zipped ended = record { taken_a = []; taken_b = []; out = []; ended = ended }

  unfoldable pub zip_loop : List (ZipRound A B) → Zipped A B
  zip_loop [] = zipped false
  zip_loop (both a b sent ∷ rounds) =
      let z = zip_loop rounds in
      record z {
        taken_a = a ∷ z.taken_a;
        taken_b = b ∷ z.taken_b;
        out = record { first = a; second = b } ∷ z.out;
      }
  zip_loop (both a b cancelled ∷ rounds) = record (zipped true) {
    taken_a = a ∷ [];
    taken_b = b ∷ [];
  }
  zip_loop (stop_first ∷ rounds) = zipped true
  zip_loop (stop_second a ∷ rounds) = record (zipped true) { taken_a = a ∷ [] }

  -- `Zip`; a nil input gives a closed output at once.
  unfoldable pub zip : Option (List (ZipRound A B)) → Zipped A B
  zip none = zipped true
  zip (some rounds) = zip_loop rounds
