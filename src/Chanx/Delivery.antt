-- ===== src/Chanx/Delivery.antt =====
-- chanx/partition.go and chanx/zip.go: which values are sent where.
use scoped.Base.{
  ◌+◌, ◌≤◌, ◌≡◌, refl, ap, Bool, true, false, not, if◌then◌else◌, Option, none, some, List, [], ◌∷◌,
  ◌++◌, select, length, arith,
}
use scoped.Chanx.Rounds.{sent, cancelled, Round, received, input_closed, done}
use scoped.Chanx.Routing.{
  Parted, partition, partition_loop, parted, to_match, to_rest, Pair, ZipRound, both, stop_first,
  stop_second, Zipped, zip, zip_loop,
}

-- The values received are those sent, by the test to one of the two channels, and the last one when
-- its send was cancelled.
pub record IsParted {ℓ} {A : Type ℓ} (fn : A → Bool) (p : Parted A) : Type ℓ where
  pub sent_on : List A
  pub lost : List A
  pub upto : p.taken ≡ sent_on ++ lost
  pub few : length lost ≤ (if p.ended then 1 else 0)
  pub match : p.match ≡ select fn sent_on
  pub rest : p.rest ≡ select (λ x. not (fn x)) sent_on

module _ {ℓ} {A : Type ℓ} where
  stop-IsParted : (fn : A → Bool) (b : Bool) → IsParted fn (parted b)
  stop-IsParted fn b = record {
    sent_on = [];
    lost = [];
    upto = refl;
    few = ground arith;
    match = refl;
    rest = refl;
  }

  sent-IsParted :
      (fn : A → Bool) (v : A) (p : Parted A) (b : Bool)
      → fn v ≡ b
      → IsParted fn p
      → IsParted fn (if b then to_match v p else to_rest v p)
  sent-IsParted fn v p true h s = record {
    sent_on = v ∷ s.sent_on;
    lost = s.lost;
    upto = ap (λ l. v ∷ l) s.upto;
    few = s.few;
    match = rw (h, s.match) refl;
    rest = rw (h, s.rest) refl;
  }
  sent-IsParted fn v p false h s = record {
    sent_on = v ∷ s.sent_on;
    lost = s.lost;
    upto = ap (λ l. v ∷ l) s.upto;
    few = s.few;
    match = rw (h, s.match) refl;
    rest = rw (h, s.rest) refl;
  }

  partition_loop-IsParted :
      (fn : A → Bool) (rounds : List (Round A)) → IsParted fn (partition_loop fn rounds)
  unfolding partition_loop
  partition_loop-IsParted fn [] = stop-IsParted fn false
  partition_loop-IsParted fn (received v sent ∷ rounds) =
      sent-IsParted fn v _ (fn v) refl (partition_loop-IsParted fn rounds)
  partition_loop-IsParted fn (received v cancelled ∷ rounds) = record {
    sent_on = [];
    lost = v ∷ [];
    upto = refl;
    few = omega arith;
    match = refl;
    rest = refl;
  }
  partition_loop-IsParted fn (input_closed ∷ rounds) = stop-IsParted fn true
  partition_loop-IsParted fn (done ∷ rounds) = stop-IsParted fn true

  -- `Partition`, whatever its selects choose: of the values it received, all but a last one whose
  -- send was cancelled went, in order, those that pass the test to the first channel and the
  -- others to the second.
  pub partition-IsParted :
      (input : Option (List (Round A))) (fn : A → Bool) → IsParted fn (partition input fn)
  unfolding partition
  partition-IsParted none fn = stop-IsParted fn true
  partition-IsParted (some rounds) fn = partition_loop-IsParted fn rounds

abbrev pub pairs {ℓ κ} : {A : Type ℓ} {B : Type κ} → List A → List B → List (Pair A B)
pairs [] bs = []
pairs (a ∷ others) [] = []
pairs (a ∷ others) (b ∷ bs) = record { first = a; second = b } ∷ pairs others bs

-- What was sent are the values of the two inputs paired, but for a last pair whose send was
-- cancelled, and at most one value of the first input is without its pair.
pub record IsZipped {ℓ κ} {A : Type ℓ} {B : Type κ} (z : Zipped A B) : Type (ℓ ⊔ κ) where
  pub lost : List (Pair A B)
  pub upto : z.out ++ lost ≡ pairs z.taken_a z.taken_b
  pub few : length lost ≤ (if z.ended then 1 else 0)
  pub first_ahead : length z.taken_b ≤ length z.taken_a
  pub by_one : length z.taken_a ≤ length z.taken_b + (if z.ended then 1 else 0)

module _ {ℓ κ} {A : Type ℓ} {B : Type κ} where
  zip_loop-IsZipped : (rounds : List (ZipRound A B)) → IsZipped (zip_loop rounds)
  unfolding zip_loop
  zip_loop-IsZipped [] = record {
    lost = [];
    upto = refl;
    few = omega arith;
    first_ahead = omega arith;
    by_one = omega arith;
  }
  zip_loop-IsZipped (both a b sent ∷ rounds) =
      let s = zip_loop-IsZipped rounds in
      record {
        lost = s.lost;
        upto = ap (λ l. record { first = a; second = b } ∷ l) s.upto;
        few = s.few;
        first_ahead = omega (arith, s.first_ahead);
        by_one = omega (arith, s.by_one);
      }
  zip_loop-IsZipped (both a b cancelled ∷ rounds) = record {
    lost = record { first = a; second = b } ∷ [];
    upto = refl;
    few = omega arith;
    first_ahead = omega arith;
    by_one = omega arith;
  }
  zip_loop-IsZipped (stop_first ∷ rounds) = record {
    lost = [];
    upto = refl;
    few = omega arith;
    first_ahead = omega arith;
    by_one = omega arith;
  }
  zip_loop-IsZipped (stop_second a ∷ rounds) = record {
    lost = [];
    upto = refl;
    few = omega arith;
    first_ahead = omega arith;
    by_one = omega arith;
  }

  -- `Zip`, whatever its selects choose: it sent the values of the two inputs paired by position, but
  -- for a last pair whose send was cancelled, and it received at most one value of the first input
  -- more than of the second.
  pub zip-IsZipped : (rounds : List (ZipRound A B)) → IsZipped (zip (some rounds))
  unfolding zip
  zip-IsZipped rounds = zip_loop-IsZipped rounds
