-- ===== src/Chanx/Live.antt =====
-- chanx/transform.go and chanx/drain.go: what the goroutines send, when no send of theirs is
-- cancelled.
use scoped.Base.{
  ℕ, suc, ◌-◌, ◌≡◌, refl, sym, ap, subst, ◌∙◌, Bool, true, false, ◌||◌, not, if◌then◌else◌, ltb,
  leb, Option, none, some, List, [], ◌∷◌, map, select, take, drop, length, arith,
}
use scoped.Chanx.Rounds.{
  sent, cancelled, Round, received, input_closed, done, Ran, take_in, on_input, values, closes,
  uncancelled, IsStage, stop-IsStage, IsLive, stop-IsLive, send-IsLive, drop-IsLive,
}
use scoped.Chanx.Transform.{
  map_loop, scan_loop, filter_loop, take_loop, skip_loop, or_done_loop, chan_map, chan_scan,
  chan_filter, chan_take, chan_skip, or_done,
}
use scoped.Chanx.Transforming.{
  map_loop-IsStage, filter_loop-IsStage, take_loop-IsStage, skip_loop-IsStage, scan_loop-IsStage,
  or_done_loop-IsStage, running, select-rejected, select-passed, take-nil, take-more, take-none,
  drop-more, drop-none, drop-nil_list,
}

minus_zero : (n : ℕ) → n - 0 ≡ n
minus_zero n = omega arith

some_left : (n count : ℕ) → ltb count n ≡ true → false ≡ (false || leb (n - count) 0)
some_left n count h = ground arith

all_sent : (n count m : ℕ) (b : Bool) → ltb count n ≡ false → true ≡ (b || leb (n - count) m)
all_sent n count m true h = refl
all_sent n count m false h = ground arith

one_sent :
    (n count m : ℕ) (b : Bool)
    → ltb count n ≡ true
    → (b || leb (n - suc count) m) ≡ (b || leb (n - count) (suc m))
one_sent n count m true h = refl
one_sent n count m false h = ground arith

module _ {ℓ κ} {A : Type ℓ} {B : Type κ} where
  map_loop-IsLive :
      (fn : A → B) (rounds : List (Round A))
      → uncancelled rounds ≡ true
      → IsLive (map fn) (values rounds) (closes rounds) (map_loop fn rounds)
  unfolding map_loop
  map_loop-IsLive fn [] h = stop-IsLive _ _ refl
  map_loop-IsLive fn (received v sent ∷ rounds) h =
      send-IsLive _ _ _ v (fn v) _ _ refl (map_loop-IsLive fn rounds h)
  map_loop-IsLive fn (received v cancelled ∷ rounds) h = cc
  map_loop-IsLive fn (input_closed ∷ rounds) h = stop-IsLive _ _ refl
  map_loop-IsLive fn (done ∷ rounds) h = stop-IsLive _ _ refl

  scan_loop-IsLive :
      (fn : B → A → B) (acc : B) (rounds : List (Round A))
      → uncancelled rounds ≡ true
      → IsLive (running fn acc) (values rounds) (closes rounds) (scan_loop fn acc rounds)
  unfolding scan_loop
  scan_loop-IsLive fn acc [] h = stop-IsLive _ _ refl
  scan_loop-IsLive fn acc (received v sent ∷ rounds) h =
      send-IsLive _ _ _ v (fn acc v) _ _ refl (scan_loop-IsLive fn (fn acc v) rounds h)
  scan_loop-IsLive fn acc (received v cancelled ∷ rounds) h = cc
  scan_loop-IsLive fn acc (input_closed ∷ rounds) h = stop-IsLive _ _ refl
  scan_loop-IsLive fn acc (done ∷ rounds) h = stop-IsLive _ _ refl

module _ {ℓ} {A : Type ℓ} where
  branch-IsLive :
      (f : List A → List A) (v : A) (xs : List A) (c b : Bool) (x y : Ran A A)
      → (b ≡ true → IsLive f xs c (take_in v x))
      → (b ≡ false → IsLive f xs c (take_in v y))
      → IsLive f xs c (take_in v (if b then x else y))
  branch-IsLive f v xs c true x y s t = s refl
  branch-IsLive f v xs c false x y s t = t refl

  guard-IsLive :
      (f : List A → List A) (xs : List A) (c b : Bool) (x y : Ran A A)
      → (b ≡ true → IsLive f xs c x)
      → (b ≡ false → IsLive f xs c y)
      → IsLive f xs c (if b then x else y)
  guard-IsLive f xs c true x y s t = s refl
  guard-IsLive f xs c false x y s t = t refl

  or_done_loop-IsLive :
      (rounds : List (Round A))
      → uncancelled rounds ≡ true
      → IsLive (λ xs. xs) (values rounds) (closes rounds) (or_done_loop rounds)
  unfolding or_done_loop
  or_done_loop-IsLive [] h = stop-IsLive _ _ refl
  or_done_loop-IsLive (received v sent ∷ rounds) h =
      send-IsLive _ _ (λ xs. xs) v v _ _ refl (or_done_loop-IsLive rounds h)
  or_done_loop-IsLive (received v cancelled ∷ rounds) h = cc
  or_done_loop-IsLive (input_closed ∷ rounds) h = stop-IsLive _ _ refl
  or_done_loop-IsLive (done ∷ rounds) h = stop-IsLive _ _ refl

  filter_loop-IsLive :
      (fn : A → Bool) (rounds : List (Round A))
      → uncancelled rounds ≡ true
      → IsLive (select fn) (values rounds) (closes rounds) (filter_loop fn rounds)
  unfolding filter_loop
  filter_loop-IsLive fn [] h = stop-IsLive _ _ refl
  filter_loop-IsLive fn (received v sent ∷ rounds) h =
      let s = filter_loop-IsLive fn rounds h in
      branch-IsLive _ v _ _ (not (fn v)) _ _
        (λ e. drop-IsLive _ _ (select fn) v _ _ (select-rejected fn v (values rounds) e) s)
        (λ e. send-IsLive _ _ (select fn) v v _ _ (select-passed fn v (values rounds) e) s)
  filter_loop-IsLive fn (received v cancelled ∷ rounds) h = cc
  filter_loop-IsLive fn (input_closed ∷ rounds) h = stop-IsLive _ _ refl
  filter_loop-IsLive fn (done ∷ rounds) h = stop-IsLive _ _ refl

  skip_loop-IsLive :
      (n skipped : ℕ) (rounds : List (Round A))
      → uncancelled rounds ≡ true
      → IsLive (drop (n - skipped)) (values rounds) (closes rounds) (skip_loop n skipped rounds)
  unfolding skip_loop
  skip_loop-IsLive n skipped [] h = stop-IsLive _ _ (drop-nil_list (n - skipped))
  skip_loop-IsLive n skipped (received v sent ∷ rounds) h =
      branch-IsLive _ v _ _ (ltb skipped n) _ _
        (λ e.
          drop-IsLive _ _ (drop (n - suc skipped)) v _ _ (drop-more n skipped v (values rounds) e)
            (skip_loop-IsLive n (suc skipped) rounds h))
        (λ e.
          send-IsLive _ _ (drop (n - skipped)) v v _ _ (drop-none n skipped v (values rounds) e)
            (skip_loop-IsLive n skipped rounds h))
  skip_loop-IsLive n skipped (received v cancelled ∷ rounds) h = cc
  skip_loop-IsLive n skipped (input_closed ∷ rounds) h =
      stop-IsLive _ _ (drop-nil_list (n - skipped))
  skip_loop-IsLive n skipped (done ∷ rounds) h = stop-IsLive _ _ (drop-nil_list (n - skipped))

  rewrite-IsLive :
      {xs xs' : List A} {b b' : Bool} {r : Ran A A} (f : List A → List A)
      → xs ≡ xs'
      → b ≡ b'
      → IsLive f xs b r
      → IsLive f xs' b' r
  rewrite-IsLive f e e' s = record {
    taken = s.taken ∙ e;
    out = s.out ∙ ap f e;
    ended = s.ended ∙ e';
  }

  -- `Take` ends also where it has sent its last item, and receives none behind it.
  take_loop-IsLive :
      (n count : ℕ) (rounds : List (Round A))
      → uncancelled rounds ≡ true
      → IsLive
          (λ xs. xs)
          (take (n - count) (values rounds))
          (closes rounds || leb (n - count) (length (values rounds)))
          (take_loop n count rounds)
  unfolding take_loop
  take_loop-IsLive n count [] h =
      guard-IsLive _ _ _ (ltb count n) _ _
        (λ e.
          rewrite-IsLive (λ xs. xs) (sym (take-nil (n - count))) (some_left n count e)
            (stop-IsLive _ false refl))
        (λ e.
          rewrite-IsLive (λ xs. xs) (sym (take-nil (n - count))) (all_sent n count 0 false e)
            (stop-IsLive _ true refl))
  take_loop-IsLive n count (received v sent ∷ rounds) h =
      guard-IsLive _ _ _ (ltb count n) _ _
        (λ e.
          rewrite-IsLive (λ xs. xs) (sym (take-more n count v (values rounds) e))
            (one_sent n count (length (values rounds)) (closes rounds) e)
            (send-IsLive _ _ (λ xs. xs) v v _ _ refl (take_loop-IsLive n (suc count) rounds h)))
        (λ e.
          rewrite-IsLive (λ xs. xs) (sym (take-none n count (v ∷ values rounds) e))
            (all_sent n count (suc (length (values rounds))) (closes rounds) e)
            (stop-IsLive _ true refl))
  take_loop-IsLive n count (received v cancelled ∷ rounds) h = cc
  take_loop-IsLive n count (input_closed ∷ rounds) h =
      rewrite-IsLive (λ xs. xs) (sym (take-nil (n - count))) refl (stop-IsLive _ true refl)
  take_loop-IsLive n count (done ∷ rounds) h =
      rewrite-IsLive (λ xs. xs) (sym (take-nil (n - count))) refl (stop-IsLive _ true refl)

-- Whatever its selects choose, each goroutine has sent what the list function of its name makes of
-- the values that it received, but for the last of it when that send was cancelled, by which the
-- goroutine ended.
pub transforms-IsStage {ℓ κ} :
    {A : Type ℓ} {B : Type κ} (input : Option (List (Round A))) (fn : A → B) (pred : A → Bool)
    (acc_fn : B → A → B) (initial : B) (n : ℕ)
    → IsStage (map fn) (chan_map input fn)
      × IsStage (select pred) (chan_filter input pred)
      × IsStage (take n) (chan_take input n)
      × IsStage (drop n) (chan_skip input n)
      × IsStage (running acc_fn initial) (chan_scan input initial acc_fn)
      × IsStage (λ xs. xs) (or_done input)
unfolding chan_map chan_filter chan_take chan_skip chan_scan or_done on_input
transforms-IsStage none fn pred acc_fn initial n = (
  stop-IsStage _ true refl,
  stop-IsStage _ true refl,
  stop-IsStage _ true (take-nil n),
  stop-IsStage _ true (drop-nil_list n),
  stop-IsStage _ true refl,
  stop-IsStage _ true refl,
)
transforms-IsStage (some rounds) fn pred acc_fn initial n = (
  map_loop-IsStage fn rounds,
  filter_loop-IsStage pred rounds,
  subst (λ k. IsStage (take k) (take_loop n 0 rounds)) (minus_zero n)
      (take_loop-IsStage n 0 rounds),
  subst (λ k. IsStage (drop k) (skip_loop n 0 rounds)) (minus_zero n)
      (skip_loop-IsStage n 0 rounds),
  scan_loop-IsStage acc_fn initial rounds,
  or_done_loop-IsStage rounds,
)

-- When none of the sends is cancelled, each goroutine receives every value before the input is closed
-- or the context done, `Take` the first `n` of them at most, has sent what the list function of its
-- name makes of them, and has ended if the input was closed or the context done, `Take` also if it
-- received its `n` values.
pub transforms-IsLive {ℓ κ} :
    {A : Type ℓ} {B : Type κ} (rounds : List (Round A)) (fn : A → B) (pred : A → Bool)
    (acc_fn : B → A → B) (initial : B) (n : ℕ)
    → uncancelled rounds ≡ true
    → IsLive (map fn) (values rounds) (closes rounds) (chan_map (some rounds) fn)
      × IsLive (select pred) (values rounds) (closes rounds) (chan_filter (some rounds) pred)
      × IsLive
          (λ xs. xs)
          (take n (values rounds))
          (closes rounds || leb n (length (values rounds)))
          (chan_take (some rounds) n)
      × IsLive (drop n) (values rounds) (closes rounds) (chan_skip (some rounds) n)
      × IsLive
          (running acc_fn initial)
          (values rounds)
          (closes rounds)
          (chan_scan (some rounds) initial acc_fn)
      × IsLive (λ xs. xs) (values rounds) (closes rounds) (or_done (some rounds))
unfolding chan_map chan_filter chan_take chan_skip chan_scan or_done on_input
transforms-IsLive rounds fn pred acc_fn initial n h = (
  map_loop-IsLive fn rounds h,
  filter_loop-IsLive pred rounds h,
  subst
      (λ k.
        IsLive (λ xs. xs) (take k (values rounds)) (closes rounds || leb k (length (values rounds)))
          (take_loop n 0 rounds))
      (minus_zero n) (take_loop-IsLive n 0 rounds h),
  subst (λ k. IsLive (drop k) (values rounds) (closes rounds) (skip_loop n 0 rounds)) (minus_zero n)
      (skip_loop-IsLive n 0 rounds h),
  scan_loop-IsLive acc_fn initial rounds h,
  or_done_loop-IsLive rounds h,
)
