-- ===== src/Chanx/RoundRobin.antt =====
-- chanx/merge.go: which output of `FanOut` gets which values.
use scoped.Base.{
  ℕ, zero, suc, ◌+◌, ◌%◌, ◌≤◌, ◌<◌, ◌≡◌, ◌≢◌, refl, sym, ap, subst, ◌∙◌, Bool, true, false,
  if◌then◌else◌, ◌==◌, Bool-cases, inl, inr, pick_true, pick_false, Option, none, some, List, [],
  ◌∷◌, ◌++◌, append-nil, get_or, set, replicate, length, length-set, length-append, arith,
}
use scoped.Chanx.Rounds.{sent, cancelled, Round, received, input_closed, done}
use scoped.Chanx.Routing.{Routed, fan_out, fan_out_loop, send_at}

module _ {ℓ} {A : Type ℓ} where
  -- The values whose position, counted from `i`, has the remainder `j`.
  abbrev pub turns : ℕ → ℕ → ℕ → List A → List A
  turns n j i [] = []
  turns n j i (x ∷ xs) = if i % n == j then x ∷ turns n j (suc i) xs else turns n j (suc i) xs

  turns-append :
      (n j i k : ℕ) (xs : List A) (v : A)
      → i + length xs ≡ k
      → turns n j i (xs ++ v ∷ []) ≡ turns n j i xs ++ (if k % n == j then v ∷ [] else [])
  turns-append n j i k [] v e = ap (λ m. if m % n == j then v ∷ [] else []) (omega (arith, e))
  turns-append n j i k (x ∷ xs) v e =
      let ih = turns-append n j (suc i) k xs v (omega (arith, e)) in
      elim (Bool-cases (i % n == j)) [
        | inl h ↦
            pick_true _ _ h
            ∙ ap (λ l. x ∷ l) ih
            ∙ ap (λ l. l ++ (if k % n == j then v ∷ [] else [])) (sym (pick_true _ _ h))
        | inr h ↦
            pick_false _ _ h
            ∙ ih
            ∙ ap (λ l. l ++ (if k % n == j then v ∷ [] else [])) (sym (pick_false _ _ h))
      ]

  get_or-set : (xs : List A) (i : ℕ) (v d : A) → i < length xs → get_or (set xs i v) i d ≡ v
  get_or-set [] i v d lt = absurd (omega arith)
  get_or-set (x ∷ xs) zero v d lt = refl
  get_or-set (x ∷ xs) (suc i) v d lt = get_or-set xs i v d (omega (arith, lt))

  get_or-set_other :
      (xs : List A) (i j : ℕ) (v d : A) → i ≢ j → get_or (set xs i v) j d ≡ get_or xs j d
  get_or-set_other [] i j v d ne = refl
  get_or-set_other (x ∷ xs) zero zero v d ne = absurd (ne refl)
  get_or-set_other (x ∷ xs) zero (suc j) v d ne = refl
  get_or-set_other (x ∷ xs) (suc i) zero v d ne = refl
  get_or-set_other (x ∷ xs) (suc i) (suc j) v d ne =
      get_or-set_other xs i j v d (λ e. ne (ap suc e))

  get_or-nil : (n j : ℕ) → get_or (replicate {A = List A} n []) j [] ≡ []
  get_or-nil zero j = refl
  get_or-nil (suc n) zero = refl
  get_or-nil (suc n) (suc j) = get_or-nil n j

eqb_true : (a b : ℕ) → (a == b) ≡ true → a ≡ b
eqb_true a b h = ground arith

eqb_false : (a b : ℕ) → (a == b) ≡ false → a ≢ b
eqb_false a b h = ground arith

-- The output at `j` was sent, in order, the values received at the positions of remainder `j`, but
-- for a last value whose send was cancelled.
pub record IsFanned {ℓ} {A : Type ℓ} (n j : ℕ) (r : Routed A) : Type ℓ where
  pub sent_on : List A
  pub lost : List A
  pub upto : r.taken ≡ sent_on ++ lost
  pub few : length lost ≤ (if r.ended then 1 else 0)
  pub count : length r.outs ≡ n
  pub dealt : get_or r.outs j [] ≡ turns n j 0 sent_on

length-nil {ℓ} : (A : Type ℓ) (n : ℕ) → length (replicate {A = List A} n []) ≡ n
length-nil A zero = refl
length-nil A (suc n) = omega (arith, length-nil A n)

module _ {ℓ} {A : Type ℓ} (n j : ℕ) (lt : j < n) where
  send_at-turns :
      (sent_on : List A) (outs : List (List A)) (v : A)
      → length outs ≡ n
      → get_or outs j [] ≡ turns n j 0 sent_on
      → get_or (send_at outs (length sent_on % n) v) j [] ≡ turns n j 0 (sent_on ++ v ∷ [])
  send_at-turns sent_on outs v l d =
      let i = length sent_on % n in
      let added = turns-append n j 0 (length sent_on) sent_on v (omega arith) in
      elim (Bool-cases (i == j)) [
        | inl h ↦
            ap (λ m. get_or (send_at outs m v) j []) (eqb_true i j h)
            ∙ get_or-set outs j _ [] (omega (arith, l, lt))
            ∙ ap (λ o. o ++ v ∷ []) d
            ∙ ap (λ o. turns n j 0 sent_on ++ o) (sym (pick_true (v ∷ []) [] h))
            ∙ sym added
        | inr h ↦
            get_or-set_other outs i j _ [] (eqb_false i j h)
            ∙ d
            ∙ sym (append-nil _)
            ∙ ap (λ o. turns n j 0 sent_on ++ o) (sym (pick_false (v ∷ []) [] h))
            ∙ sym added
      ]

  stop-IsFanned :
      (b : Bool) (taken : List A) (outs : List (List A))
      → length outs ≡ n
      → get_or outs j [] ≡ turns n j 0 taken
      → IsFanned n j (record { taken = taken; outs = outs; ended = b })
  stop-IsFanned b taken outs l d = record {
    sent_on = taken;
    lost = [];
    upto = sym (append-nil taken);
    few = ground arith;
    count = l;
    dealt = d;
  }

  fan_out_loop-IsFanned :
      (idx : ℕ) (taken : List A) (outs : List (List A)) (rounds : List (Round A))
      → length taken ≡ idx
      → length outs ≡ n
      → get_or outs j [] ≡ turns n j 0 taken
      → IsFanned n j (fan_out_loop n idx taken outs rounds)
  unfolding fan_out_loop
  fan_out_loop-IsFanned idx taken outs [] e l d = stop-IsFanned false taken outs l d
  fan_out_loop-IsFanned idx taken outs (received v sent ∷ rounds) e l d =
      fan_out_loop-IsFanned (suc idx) (taken ++ v ∷ []) (send_at outs (idx % n) v) rounds
        (omega (arith, e, length-append taken (v ∷ []))) (length-set outs (idx % n) _ ∙ l)
        (subst (λ m. get_or (send_at outs (m % n) v) j [] ≡ turns n j 0 (taken ++ v ∷ [])) e
          (send_at-turns taken outs v l d))
  fan_out_loop-IsFanned idx taken outs (received v cancelled ∷ rounds) e l d = record {
    sent_on = taken;
    lost = v ∷ [];
    upto = refl;
    few = omega arith;
    count = l;
    dealt = d;
  }
  fan_out_loop-IsFanned idx taken outs (input_closed ∷ rounds) e l d =
      stop-IsFanned true taken outs l d
  fan_out_loop-IsFanned idx taken outs (done ∷ rounds) e l d = stop-IsFanned true taken outs l d

  -- `FanOut` over `n` outputs, whatever its selects choose: the output at `j` was sent, in order,
  -- those of the values received whose position has the remainder `j` by `n`, but for a last value
  -- whose send was cancelled.
  pub fan_out-IsFanned : (input : Option (List (Round A))) → IsFanned n j (fan_out input n)
  unfolding fan_out
  fan_out-IsFanned none = stop-IsFanned true [] (replicate n []) (length-nil A n) (get_or-nil n j)
  fan_out-IsFanned (some rounds) =
      fan_out_loop-IsFanned 0 [] (replicate n []) rounds refl (length-nil A n) (get_or-nil n j)
