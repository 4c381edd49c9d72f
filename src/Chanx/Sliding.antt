-- ===== src/Chanx/Sliding.antt =====
-- chanx/window.go: which values a sliding window holds.
use scoped.Base.{
  ℕ, ◌≤◌, ◌≡◌, refl, sym, ap, ◌∙◌, Bool, true, false, not, leb, ◌&&◌, Bool-cases, inl, inr,
  pick_true, pick_false, subst, some, List, [], ◌∷◌, ◌++◌, map, select, All, All-append, arith,
}
use scoped.Chanx.Rounds.{Ran, waiting, finished, take_in}
use scoped.Chanx.Timed.{
  TimedRound, received, tick, input_closed, done, Timestamped, window_sliding, window, sliding,
  expired, trim, in_window, on_tick, on_close,
}

module _ {ℓ} {A : Type ℓ} where
  select-append : (p : A → Bool) (xs ys : List A) → select p (xs ++ ys) ≡ select p xs ++ select p ys
  select-append p [] ys = refl
  select-append p (x ∷ xs) ys = elim (Bool-cases (p x)) [
    | inl h ↦ rw (h, select-append p xs ys) refl
    | inr h ↦ rw (h, select-append p xs ys) refl
  ]

  select-All : (p : A → Bool) (xs : List A) → All (λ x. p x ≡ true) xs → select p xs ≡ xs
  select-All p [] a = refl
  select-All p (x ∷ xs) a = rw (a.0, select-All p xs a.1) refl

  -- A test that implies another one is not changed by it.
  select-select :
      (p q : A → Bool) (xs : List A)
      → ((x : A) → q x ≡ true → p x ≡ true)
      → select q (select p xs) ≡ select q xs
  select-select p q [] h = refl
  select-select p q (x ∷ xs) h = elim (Bool-cases (p x)) [
    | inl e ↦ rw (e, select-select p q xs h) refl
    | inr e ↦ elim (Bool-cases (q x)) [
      | inl f ↦ let g = h x f in cc
      | inr f ↦ rw (e, f) (select-select p q xs h)
    ]
  ]

not-true : {b : Bool} → b ≡ true → not b ≡ false
not-true h = rw h refl

not-false : {b : Bool} → b ≡ false → not b ≡ true
not-false h = rw h refl

in_order_head : (t now : ℕ) (b : Bool) → (leb t now && b) ≡ true → t ≤ now
in_order_head t now b h = ground arith

in_order_tail : (t now : ℕ) (b : Bool) → (leb t now && b) ≡ true → b ≡ true
in_order_tail t now b h = ground arith

module _ {ℓ} {A : Type ℓ} where
  -- Sliding windows that drop nothing: each window is taken from all the values received before it.
  abbrev pub full_sliding : ℕ → List (Timestamped A) → List (TimedRound A) → Ran A (List A)
  full_sliding duration items [] = waiting
  full_sliding duration items (received v now r ∷ rounds) =
      take_in v (full_sliding duration (items ++ record { val = v; when = now } ∷ []) rounds)
  full_sliding duration items (tick now r ∷ rounds) =
      on_tick (in_window duration now items) r (full_sliding duration items rounds)
  full_sliding duration items (input_closed now r ∷ rounds) =
      on_close (in_window duration now items) r
  full_sliding duration items (done ∷ rounds) = finished

  -- Whether the clock never goes back, from a time on.
  abbrev pub in_order : ℕ → List (TimedRound A) → Bool
  in_order t [] = true
  in_order t (received v now r ∷ rounds) = leb t now && in_order now rounds
  in_order t (tick now r ∷ rounds) = leb t now && in_order now rounds
  in_order t (input_closed now r ∷ rounds) = leb t now && in_order now rounds
  in_order t (done ∷ rounds) = in_order t rounds

  -- Timestamps that do not go down, up to a time.
  abbrev IsSorted : ℕ → List (Timestamped A) → Type 0
  IsSorted t [] = Unit
  IsSorted t (i ∷ items) = (i.when ≤ t) × All (λ j. i.when ≤ j.when) items × IsSorted t items

  -- The items that are not expired.
  abbrev fresh : ℕ → ℕ → List (Timestamped A) → List (Timestamped A)
  fresh duration now items = select (λ i. not (expired duration now i)) items

  not-expired_before :
      (duration now later : ℕ) (i : Timestamped A)
      → now ≤ later
      → not (expired duration later i) ≡ true
      → not (expired duration now i) ≡ true
  not-expired_before duration now later i le h = ground arith

  not-expired_after :
      (duration now : ℕ) (i j : Timestamped A)
      → i.when ≤ j.when
      → expired duration now i ≡ false
      → not (expired duration now j) ≡ true
  not-expired_after duration now i j le h = ground arith

  after-All :
      (duration now : ℕ) (i : Timestamped A) (items : List (Timestamped A))
      → expired duration now i ≡ false
      → All (λ j. i.when ≤ j.when) items
      → All (λ j. not (expired duration now j) ≡ true) items
  after-All duration now i [] h a = tt
  after-All duration now i (j ∷ items) h a =
      (not-expired_after duration now i j a.0 h, after-All duration now i items h a.1)

  trim-fresh :
      (duration now t : ℕ) (items : List (Timestamped A))
      → IsSorted t items
      → trim duration now items ≡ fresh duration now items
  unfolding trim
  trim-fresh duration now t [] s = refl
  trim-fresh duration now t (i ∷ items) s = elim (Bool-cases (expired duration now i)) [
    | inl h ↦
        pick_true _ _ h ∙ trim-fresh duration now t items s.2 ∙ sym (pick_false _ _ (not-true h))
    | inr h ↦
        pick_false _ _ h
        ∙ sym (
            pick_true _ _ (not-false h)
            ∙ ap (λ l. i ∷ l) (select-All _ items (after-All duration now i items h s.1)))
  ]

  trim-IsSorted :
      (duration now t : ℕ) (items : List (Timestamped A))
      → IsSorted t items
      → IsSorted t (trim duration now items)
  unfolding trim
  trim-IsSorted duration now t [] s = tt
  trim-IsSorted duration now t (i ∷ items) s = elim (Bool-cases (expired duration now i)) [
    | inl h ↦ subst (IsSorted t) (sym (pick_true _ _ h)) (trim-IsSorted duration now t items s.2)
    | inr h ↦ subst (IsSorted t) (sym (pick_false _ _ h)) s
  ]

  raise-IsSorted :
      (t u : ℕ) (items : List (Timestamped A)) → t ≤ u → IsSorted t items → IsSorted u items
  raise-IsSorted t u [] le s = tt
  raise-IsSorted t u (i ∷ items) le s = (omega (arith, s.0), s.1, raise-IsSorted t u items le s.2)

  append-IsSorted :
      (t now : ℕ) (items : List (Timestamped A)) (v : A)
      → t ≤ now
      → IsSorted t items
      → IsSorted now (items ++ record { val = v; when = now } ∷ [])
  append-IsSorted t now [] v le s = (omega arith, tt, tt)
  append-IsSorted t now (i ∷ items) v le s = (
    omega (arith, s.0),
    All-append _ items _ s.1 (omega (arith, s.0)),
    append-IsSorted t now items v le s.2,
  )

  sliding-full :
      (duration t : ℕ) (items history : List (Timestamped A)) (rounds : List (TimedRound A))
      → IsSorted t items
      → ((now : ℕ) → t ≤ now → fresh duration now items ≡ fresh duration now history)
      → in_order t rounds ≡ true
      → window_sliding duration items rounds ≡ full_sliding duration history rounds
  unfolding window_sliding
  sliding-full duration t items history [] s e o = refl
  sliding-full duration t items history (received v now r ∷ rounds) s e o =
      let le = in_order_head t now (in_order now rounds) o in
      ap (take_in v) (
        sliding-full duration now (items ++ record { val = v; when = now } ∷ [])
          (history ++ record { val = v; when = now } ∷ []) rounds
          (append-IsSorted t now items v le s)
          (λ later le'.
            select-append _ items _
            ∙ ap (λ l. l ++ fresh duration later (record { val = v; when = now } ∷ []))
                (e later (omega (arith, le, le')))
            ∙ sym (select-append _ history _))
          (in_order_tail t now (in_order now rounds) o))
  sliding-full duration t items history (tick now r ∷ rounds) s e o =
      let le = in_order_head t now (in_order now rounds) o in
      let kept = trim duration now items in
      let full = full_sliding duration history rounds in
      ap (on_tick (map (λ i. i.val) kept) r) (
        sliding-full duration now kept history rounds
          (raise-IsSorted t now kept le (trim-IsSorted duration now t items s))
          (λ later le'.
            ap (fresh duration later) (trim-fresh duration now t items s)
            ∙ select-select _ _ items (λ i. not-expired_before duration now later i le')
            ∙ e later (omega (arith, le, le')))
          (in_order_tail t now (in_order now rounds) o))
      ∙ ap (λ l. on_tick (map (λ i. i.val) l) r full) (trim-fresh duration now t items s ∙ e now le)
  sliding-full duration t items history (input_closed now r ∷ rounds) s e o =
      ap (λ l. on_close (map (λ i. i.val) l) r)
        (e now (in_order_head t now (in_order now rounds) o))
  sliding-full duration t items history (done ∷ rounds) s e o = refl

  -- Sliding windows, when the clock never goes back: whatever the selects choose, each window sent
  -- holds exactly the values of all those received that are not older than the duration, in order,
  -- though the goroutine drops old items at each tick.
  pub window-sliding :
      (rounds : List (TimedRound A)) (duration : ℕ)
      → in_order 0 rounds ≡ true
      → window (some rounds) duration sliding ≡ full_sliding duration [] rounds
  unfolding window
  window-sliding rounds duration o = sliding-full duration 0 [] [] rounds tt (λ now le. refl) o
