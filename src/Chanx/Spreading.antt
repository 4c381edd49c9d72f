-- ===== src/Chanx/Spreading.antt =====
-- chanx/tee.go and chanx/broadcast.go: which output gets which values.
use scoped.Base.{
  ℕ, zero, suc, ◌≤◌, ◌≡◌, refl, sym, ap, subst, ◌∙◌, Bool, true, false, if◌then◌else◌, Option, none,
  some, List, [], ◌∷◌, ◌++◌, append-nil, replicate, length, All, arith,
}
use scoped.Chanx.Routing.{
  SpreadRound, spread, cut, spread_closed, spread_done, send_all, send_some, tee, tee_loop,
}

replicate-nil {ℓ} :
    (A : Type ℓ) (n : ℕ)
    → (length (replicate {A = List A} n []) ≡ n) × All (λ o. o ≡ []) (replicate {A = List A} n [])
replicate-nil A zero = (refl, tt)
replicate-nil A (suc n) = let (l, a) = replicate-nil A n in (omega (arith, l), (refl, a))

-- An output that was sent the values received, but for the last one if the goroutine was cut short.
pub record GetsAll {ℓ} {A : Type ℓ} (taken : List A) (ended : Bool) (out : List A) : Type ℓ where
  pub lost : List A
  pub upto : out ++ lost ≡ taken
  pub few : length lost ≤ (if ended then 1 else 0)

module _ {ℓ} {A : Type ℓ} where
  gets_all : (taken : List A) (b : Bool) → GetsAll taken b taken
  gets_all taken b = record { lost = []; upto = append-nil taken; few = ground arith }

  same-GetsAll :
      (taken : List A) (b : Bool) (outs : List (List A))
      → All (λ o. o ≡ taken) outs
      → All (GetsAll taken b) outs
  same-GetsAll taken b [] a = tt
  same-GetsAll taken b (o ∷ outs) a =
      (subst (GetsAll taken b) (sym a.0) (gets_all taken b), same-GetsAll taken b outs a.1)

  send_all-same :
      (v : A) (taken : List A) (outs : List (List A))
      → All (λ o. o ≡ taken) outs
      → All (λ o. o ≡ taken ++ v ∷ []) (send_all v outs)
  send_all-same v taken [] a = tt
  send_all-same v taken (o ∷ outs) a = (ap (λ l. l ++ v ∷ []) a.0, send_all-same v taken outs a.1)

  missed-GetsAll :
      (v : A) (taken : List A) (outs : List (List A))
      → All (λ o. o ≡ taken) outs
      → All (GetsAll (taken ++ v ∷ []) true) outs
  missed-GetsAll v taken [] a = tt
  missed-GetsAll v taken (o ∷ outs) a = (
    record { lost = v ∷ []; upto = ap (λ l. l ++ v ∷ []) a.0; few = omega arith },
    missed-GetsAll v taken outs a.1,
  )

  send_some-GetsAll :
      (k : ℕ) (v : A) (taken : List A) (outs : List (List A))
      → All (λ o. o ≡ taken) outs
      → All (GetsAll (taken ++ v ∷ []) true) (send_some k v outs)
  send_some-GetsAll zero v taken outs a = missed-GetsAll v taken outs a
  send_some-GetsAll (suc k) v taken [] a = tt
  send_some-GetsAll (suc k) v taken (o ∷ outs) a = (
    subst (GetsAll (taken ++ v ∷ []) true) (ap (λ l. l ++ v ∷ []) (sym a.0))
        (gets_all (taken ++ v ∷ []) true),
    send_some-GetsAll k v taken outs a.1,
  )

  length-send_all : (v : A) (outs : List (List A)) → length (send_all v outs) ≡ length outs
  length-send_all v [] = refl
  length-send_all v (o ∷ outs) = omega (arith, length-send_all v outs)

  length-send_some :
      (k : ℕ) (v : A) (outs : List (List A)) → length (send_some k v outs) ≡ length outs
  length-send_some zero v outs = refl
  length-send_some (suc k) v [] = refl
  length-send_some (suc k) v (o ∷ outs) = omega (arith, length-send_some k v outs)

  tee_loop-GetsAll :
      (taken : List A) (outs : List (List A)) (rounds : List (SpreadRound A))
      → All (λ o. o ≡ taken) outs
      → (length (tee_loop taken outs rounds).outs ≡ length outs)
        × All
            (GetsAll (tee_loop taken outs rounds).taken (tee_loop taken outs rounds).ended)
            (tee_loop taken outs rounds).outs
  unfolding tee_loop
  tee_loop-GetsAll taken outs [] a = (refl, same-GetsAll taken false outs a)
  tee_loop-GetsAll taken outs (spread v ∷ rounds) a =
      let (l, g) =
        tee_loop-GetsAll (taken ++ v ∷ []) (send_all v outs) rounds
          (send_all-same v taken outs a) in
      (l ∙ length-send_all v outs, g)
  tee_loop-GetsAll taken outs (cut v k ∷ rounds) a =
      (length-send_some k v outs, send_some-GetsAll k v taken outs a)
  tee_loop-GetsAll taken outs (spread_closed ∷ rounds) a = (refl, same-GetsAll taken true outs a)
  tee_loop-GetsAll taken outs (spread_done ∷ rounds) a = (refl, same-GetsAll taken true outs a)

  -- `Tee` and `Broadcast`, whatever their selects choose: there are `n` outputs, and each was sent
  -- all the values received, in order, but for the last one when the goroutine ended in the middle
  -- of its sends.
  pub tee-GetsAll :
      (input : Option (List (SpreadRound A))) (n : ℕ)
      → (length (tee input n).outs ≡ n)
        × All (GetsAll (tee input n).taken (tee input n).ended) (tee input n).outs
  unfolding tee
  tee-GetsAll none n =
      let (l, a) = replicate-nil A n in (l, same-GetsAll [] true (replicate n []) a)
  tee-GetsAll (some rounds) n =
      let (l, a) = replicate-nil A n in
      let (l', g) = tee_loop-GetsAll [] (replicate n []) rounds a in (l' ∙ l, g)
