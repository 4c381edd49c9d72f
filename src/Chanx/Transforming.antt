-- ===== src/Chanx/Transforming.antt =====
-- chanx/transform.go and chanx/drain.go: what the goroutines send, against lists.
use scoped.Base.{
  ℕ, zero, suc, ◌-◌, ◌≡◌, refl, ap, ◌∙◌, Bool, true, false, not, if◌then◌else◌, ltb, List, [], ◌∷◌,
  map, select, take, drop, arith,
}
use scoped.Chanx.Rounds.{
  sent, cancelled, Round, received, input_closed, done, Ran, take_in, IsStage, stop-IsStage,
  send-IsStage, drop-IsStage, lose-IsStage,
}
use scoped.Chanx.Transform.{map_loop, scan_loop, filter_loop, take_loop, skip_loop, or_done_loop}

pub one_less : (n count : ℕ) → ltb count n ≡ true → n - count ≡ suc (n - suc count)
one_less n count h = ground arith

pub none_left : (n count : ℕ) → ltb count n ≡ false → n - count ≡ 0
none_left n count h = ground arith

-- The accumulations from the first item on.
abbrev pub running {ℓ κ} : {A : Type ℓ} {B : Type κ} → (B → A → B) → B → List A → List B
running fn acc [] = []
running fn acc (x ∷ xs) = fn acc x ∷ running fn (fn acc x) xs

module _ {ℓ κ} {A : Type ℓ} {B : Type κ} where
  pub map_loop-IsStage :
      (fn : A → B) (rounds : List (Round A)) → IsStage (map fn) (map_loop fn rounds)
  unfolding map_loop
  map_loop-IsStage fn [] = stop-IsStage _ false refl
  map_loop-IsStage fn (received v sent ∷ rounds) =
      send-IsStage _ _ v (fn v) _ (λ xs. refl) (map_loop-IsStage fn rounds)
  map_loop-IsStage fn (received v cancelled ∷ rounds) = lose-IsStage _ v (fn v) refl
  map_loop-IsStage fn (input_closed ∷ rounds) = stop-IsStage _ true refl
  map_loop-IsStage fn (done ∷ rounds) = stop-IsStage _ true refl

  pub scan_loop-IsStage :
      (fn : B → A → B) (acc : B) (rounds : List (Round A))
      → IsStage (running fn acc) (scan_loop fn acc rounds)
  unfolding scan_loop
  scan_loop-IsStage fn acc [] = stop-IsStage _ false refl
  scan_loop-IsStage fn acc (received v sent ∷ rounds) =
      send-IsStage _ _ v (fn acc v) _ (λ xs. refl) (scan_loop-IsStage fn (fn acc v) rounds)
  scan_loop-IsStage fn acc (received v cancelled ∷ rounds) = lose-IsStage _ v (fn acc v) refl
  scan_loop-IsStage fn acc (input_closed ∷ rounds) = stop-IsStage _ true refl
  scan_loop-IsStage fn acc (done ∷ rounds) = stop-IsStage _ true refl

module _ {ℓ} {A : Type ℓ} where
  pub or_done_loop-IsStage : (rounds : List (Round A)) → IsStage (λ xs. xs) (or_done_loop rounds)
  unfolding or_done_loop
  or_done_loop-IsStage [] = stop-IsStage _ false refl
  or_done_loop-IsStage (received v sent ∷ rounds) =
      send-IsStage _ (λ xs. xs) v v _ (λ xs. refl) (or_done_loop-IsStage rounds)
  or_done_loop-IsStage (received v cancelled ∷ rounds) = lose-IsStage _ v v refl
  or_done_loop-IsStage (input_closed ∷ rounds) = stop-IsStage _ true refl
  or_done_loop-IsStage (done ∷ rounds) = stop-IsStage _ true refl

  pub take-nil : (n : ℕ) → take {A = A} n [] ≡ []
  take-nil zero = refl
  take-nil (suc n) = refl

  branch-IsStage :
      (f : List A → List A) (v : A) (b : Bool) (x y : Ran A A)
      → (b ≡ true → IsStage f (take_in v x))
      → (b ≡ false → IsStage f (take_in v y))
      → IsStage f (take_in v (if b then x else y))
  branch-IsStage f v true x y s t = s refl
  branch-IsStage f v false x y s t = t refl

  guard-IsStage :
      (f : List A → List A) (b : Bool) (x y : Ran A A)
      → (b ≡ true → IsStage f x)
      → (b ≡ false → IsStage f y)
      → IsStage f (if b then x else y)
  guard-IsStage f true x y s t = s refl
  guard-IsStage f false x y s t = t refl

  pub select-rejected :
      (fn : A → Bool) (v : A) (xs : List A) → not (fn v) ≡ true → select fn (v ∷ xs) ≡ select fn xs
  select-rejected fn v xs h = ground arith

  pub select-passed :
      (fn : A → Bool) (v : A) (xs : List A)
      → not (fn v) ≡ false
      → select fn (v ∷ xs) ≡ v ∷ select fn xs
  select-passed fn v xs h = ground arith

  pub filter_loop-IsStage :
      (fn : A → Bool) (rounds : List (Round A)) → IsStage (select fn) (filter_loop fn rounds)
  unfolding filter_loop
  filter_loop-IsStage fn [] = stop-IsStage _ false refl
  filter_loop-IsStage fn (received v sent ∷ rounds) =
      let s = filter_loop-IsStage fn rounds in
      branch-IsStage _ v (not (fn v)) _ _
        (λ h. drop-IsStage _ (select fn) v _ (λ xs. select-rejected fn v xs h) s)
        (λ h. send-IsStage _ (select fn) v v _ (λ xs. select-passed fn v xs h) s)
  filter_loop-IsStage fn (received v cancelled ∷ rounds) =
      branch-IsStage _ v (not (fn v)) _ _
        (λ h.
          drop-IsStage _ (select fn) v _ (λ xs. select-rejected fn v xs h)
            (filter_loop-IsStage fn rounds))
        (λ h. lose-IsStage _ v v (select-passed fn v [] h))
  filter_loop-IsStage fn (input_closed ∷ rounds) = stop-IsStage _ true refl
  filter_loop-IsStage fn (done ∷ rounds) = stop-IsStage _ true refl

  pub take-more :
      (n count : ℕ) (v : A) (xs : List A)
      → ltb count n ≡ true
      → take (n - count) (v ∷ xs) ≡ v ∷ take (n - suc count) xs
  take-more n count v xs h = rw (one_less n count h) refl

  pub take-none : (n count : ℕ) (xs : List A) → ltb count n ≡ false → take (n - count) xs ≡ []
  take-none n count xs h = rw (none_left n count h) refl

  pub drop-more :
      (n skipped : ℕ) (v : A) (xs : List A)
      → ltb skipped n ≡ true
      → drop (n - skipped) (v ∷ xs) ≡ drop (n - suc skipped) xs
  drop-more n skipped v xs h = rw (one_less n skipped h) refl

  pub drop-none :
      (n skipped : ℕ) (v : A) (xs : List A)
      → ltb skipped n ≡ false
      → drop (n - skipped) (v ∷ xs) ≡ v ∷ drop (n - skipped) xs
  drop-none n skipped v xs h = rw (none_left n skipped h) refl

  pub drop-nil_list : (n : ℕ) → drop {A = A} n [] ≡ []
  drop-nil_list zero = refl
  drop-nil_list (suc n) = refl

  pub take_loop-IsStage :
      (n count : ℕ) (rounds : List (Round A))
      → IsStage (take (n - count)) (take_loop n count rounds)
  unfolding take_loop
  take_loop-IsStage n count [] =
      guard-IsStage _ (ltb count n) _ _ (λ h. stop-IsStage _ false (take-nil (n - count)))
        (λ h. stop-IsStage _ true (take-nil (n - count)))
  take_loop-IsStage n count (received v sent ∷ rounds) =
      guard-IsStage _ (ltb count n) _ _
        (λ h.
          send-IsStage _ (take (n - suc count)) v v _ (λ xs. take-more n count v xs h)
            (take_loop-IsStage n (suc count) rounds))
        (λ h. stop-IsStage _ true (take-nil (n - count)))
  take_loop-IsStage n count (received v cancelled ∷ rounds) =
      guard-IsStage _ (ltb count n) _ _
        (λ h.
          lose-IsStage _ v v
            (take-more n count v [] h ∙ ap (λ l. v ∷ l) (take-nil (n - suc count))))
        (λ h. stop-IsStage _ true (take-nil (n - count)))
  take_loop-IsStage n count (input_closed ∷ rounds) = stop-IsStage _ true (take-nil (n - count))
  take_loop-IsStage n count (done ∷ rounds) = stop-IsStage _ true (take-nil (n - count))

  pub skip_loop-IsStage :
      (n skipped : ℕ) (rounds : List (Round A))
      → IsStage (drop (n - skipped)) (skip_loop n skipped rounds)
  unfolding skip_loop
  skip_loop-IsStage n skipped [] = stop-IsStage _ false (drop-nil_list (n - skipped))
  skip_loop-IsStage n skipped (received v sent ∷ rounds) =
      branch-IsStage _ v (ltb skipped n) _ _
        (λ h.
          drop-IsStage _ (drop (n - suc skipped)) v _ (λ xs. drop-more n skipped v xs h)
            (skip_loop-IsStage n (suc skipped) rounds))
        (λ h.
          send-IsStage _ (drop (n - skipped)) v v _ (λ xs. drop-none n skipped v xs h)
            (skip_loop-IsStage n skipped rounds))
  skip_loop-IsStage n skipped (received v cancelled ∷ rounds) =
      branch-IsStage _ v (ltb skipped n) _ _
        (λ h.
          drop-IsStage _ (drop (n - suc skipped)) v _ (λ xs. drop-more n skipped v xs h)
            (skip_loop-IsStage n (suc skipped) rounds))
        (λ h.
          lose-IsStage _ v v
            (drop-none n skipped v [] h ∙ ap (λ l. v ∷ l) (drop-nil_list (n - skipped))))
  skip_loop-IsStage n skipped (input_closed ∷ rounds) =
      stop-IsStage _ true (drop-nil_list (n - skipped))
  skip_loop-IsStage n skipped (done ∷ rounds) = stop-IsStage _ true (drop-nil_list (n - skipped))
