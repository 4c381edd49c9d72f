-- ===== src/Chanx/Buffering.antt =====
-- chanx/buffer.go: what is sent in batches.
use scoped.Base.{
  ℕ, ◌+◌, ◌≤◌, ◌<◌, ◌≡◌, refl, sym, ap, ◌∙◌, Bool, true, false, if◌then◌else◌, leb, leb→le,
  leb_false→lt, Option, none, some, List, [], ◌∷◌, ◌++◌, map, append_assoc, append-nil, length,
  length-append, All, arith,
}
use scoped.Chanx.Rounds.{Reply, sent, cancelled, Ran, take_in, send_out}
use scoped.Chanx.Buffer.{
  flushed, given_up, BufferRound, received, timer, input_closed, done, flush_size, flush_timeout,
  flush_close, BatchResult, leave, buffer_loop, leave_with_reason, reason_loop, buffer,
  buffer_with_reason,
}

abbrev pub concat {ℓ} : {A : Type ℓ} → List (List A) → List A
concat [] = []
concat (xs ∷ xss) = xs ++ concat xss

-- Whether a batch has the size that its reason tells.
abbrev pub HasSize {ℓ} : {A : Type ℓ} → ℕ → BatchResult A → Type 0
HasSize size b = elim b.reason as (λ r. Type 0) [
  | flush_size ↦ length b.items ≡ size
  | flush_timeout ↦ (0 < length b.items) × (length b.items < size)
  | flush_close ↦ (0 < length b.items) × (length b.items ≤ size)
]

-- The batches sent hold the values received, in order, but for the items of one batch at most; each
-- has a size that its reason allows.
pub record IsBuffered {ℓ} {A : Type ℓ} (size : ℕ) (batch : List A) (r : Ran A (BatchResult A))
    : Type ℓ where
  pub left : List A
  pub upto : concat (map (λ b. b.items) r.out) ++ left ≡ batch ++ r.taken
  pub few : length left + (if r.ended then 0 else 1) ≤ size
  pub sizes : All (HasSize size) r.out

module _ {ℓ} {A : Type ℓ} where
  leave-IsBuffered :
      (size : ℕ) (batch : List A) (r : Reply)
      → length batch ≤ size
      → IsBuffered size batch (leave_with_reason batch r)
  unfolding leave_with_reason
  leave-IsBuffered size [] r le = record { left = []; upto = refl; few = omega arith; sizes = tt }
  leave-IsBuffered size (x ∷ xs) sent le = record {
    left = [];
    upto = append-nil _;
    few = omega arith;
    sizes = ((omega arith, le), tt);
  }
  leave-IsBuffered size (x ∷ xs) cancelled le = record {
    left = x ∷ xs;
    upto = sym (append-nil (x ∷ xs));
    few = omega (arith, le);
    sizes = tt;
  }

  keep-IsBuffered :
      (size : ℕ) (batch : List A) (v : A) (r : Ran A (BatchResult A))
      → IsBuffered size (batch ++ v ∷ []) r
      → IsBuffered size batch (take_in v r)
  keep-IsBuffered size batch v r s = record {
    left = s.left;
    upto = s.upto ∙ append_assoc batch (v ∷ []) r.taken;
    few = s.few;
    sizes = s.sizes;
  }

  flush-IsBuffered :
      (size : ℕ) (b : BatchResult A) (r : Ran A (BatchResult A))
      → HasSize size b
      → IsBuffered size [] r
      → IsBuffered size b.items (send_out b r)
  flush-IsBuffered size b r h s = record {
    left = s.left;
    upto = append_assoc b.items _ s.left ∙ ap (λ l. b.items ++ l) s.upto;
    few = s.few;
    sizes = (h, s.sizes);
  }

  test-IsBuffered :
      (size : ℕ) (batch : List A) (b : Bool) (x y : Ran A (BatchResult A))
      → (b ≡ true → IsBuffered size batch x)
      → (b ≡ false → IsBuffered size batch y)
      → IsBuffered size batch (if b then x else y)
  test-IsBuffered size batch true x y s t = s refl
  test-IsBuffered size batch false x y s t = t refl

  one_more :
      (size : ℕ) (batch : List A) (v : A) → length batch < size → length (batch ++ v ∷ []) ≤ size
  one_more size batch v lt = omega (arith, length-append batch (v ∷ []))

  full :
      (size : ℕ) (batch : List A) (v : A)
      → length batch < size
      → leb size (length (batch ++ v ∷ [])) ≡ true
      → length (batch ++ v ∷ []) ≡ size
  full size batch v lt h = omega (arith, one_more size batch v lt, leb→le size _ h)

  reason_loop-IsBuffered :
      (size : ℕ) (batch : List A) (rounds : List (BufferRound A))
      → length batch < size
      → IsBuffered size batch (reason_loop size batch rounds)
  unfolding reason_loop
  reason_loop-IsBuffered size batch [] lt = record {
    left = batch;
    upto = sym (append-nil batch);
    few = omega arith;
    sizes = tt;
  }
  reason_loop-IsBuffered size batch (received v flushed ∷ rounds) lt =
      keep-IsBuffered size batch v _ (
        test-IsBuffered size _ (leb size (length (batch ++ v ∷ []))) _ _
          (λ h.
            flush-IsBuffered size (record { items = batch ++ v ∷ []; reason = flush_size }) _
              (full size batch v lt h) (reason_loop-IsBuffered size [] rounds (omega arith)))
          (λ h.
            reason_loop-IsBuffered size (batch ++ v ∷ []) rounds
              (leb_false→lt size (length (batch ++ v ∷ [])) h)))
  reason_loop-IsBuffered size batch (received v (given_up r) ∷ rounds) lt =
      keep-IsBuffered size batch v _ (
        test-IsBuffered size _ (leb size (length (batch ++ v ∷ []))) _ _
          (λ h. leave-IsBuffered size (batch ++ v ∷ []) r (one_more size batch v lt))
          (λ h.
            reason_loop-IsBuffered size (batch ++ v ∷ []) rounds
              (leb_false→lt size (length (batch ++ v ∷ [])) h)))
  reason_loop-IsBuffered size [] (timer f ∷ rounds) lt = reason_loop-IsBuffered size [] rounds lt
  reason_loop-IsBuffered size (x ∷ xs) (timer flushed ∷ rounds) lt =
      flush-IsBuffered size (record { items = x ∷ xs; reason = flush_timeout }) _ (omega arith, lt)
        (reason_loop-IsBuffered size [] rounds (omega arith))
  reason_loop-IsBuffered size (x ∷ xs) (timer (given_up r) ∷ rounds) lt =
      leave-IsBuffered size (x ∷ xs) r (omega arith)
  reason_loop-IsBuffered size batch (input_closed r ∷ rounds) lt =
      leave-IsBuffered size batch r (omega arith)
  reason_loop-IsBuffered size batch (done r ∷ rounds) lt =
      leave-IsBuffered size batch r (omega arith)

  -- What `Buffer` sends where `BufferWithReason` gives reasons.
  abbrev pub erase : Ran A (BatchResult A) → Ran A (List A)
  erase r = record { taken = r.taken; out = map (λ b. b.items) r.out; ended = r.ended }

  erase-test :
      (b : Bool) (x y : Ran A (List A)) (x' y' : Ran A (BatchResult A))
      → x ≡ erase x'
      → y ≡ erase y'
      → (if b then x else y) ≡ erase (if b then x' else y')
  erase-test true x y x' y' h q = h
  erase-test false x y x' y' h q = q

  leave-erase : (batch : List A) (r : Reply) → leave batch r ≡ erase (leave_with_reason batch r)
  unfolding leave leave_with_reason
  leave-erase [] r = refl
  leave-erase (x ∷ xs) sent = refl
  leave-erase (x ∷ xs) cancelled = refl

  buffer_loop-erase :
      (size : ℕ) (batch : List A) (rounds : List (BufferRound A))
      → buffer_loop size batch rounds ≡ erase (reason_loop size batch rounds)
  unfolding buffer_loop reason_loop
  buffer_loop-erase size batch [] = refl
  buffer_loop-erase size batch (received v flushed ∷ rounds) = ap (take_in v) (
      erase-test (leb size (length (batch ++ v ∷ []))) _ _ _ _
        (ap (send_out (batch ++ v ∷ [])) (buffer_loop-erase size [] rounds))
        (buffer_loop-erase size (batch ++ v ∷ []) rounds))
  buffer_loop-erase size batch (received v (given_up r) ∷ rounds) = ap (take_in v) (
      erase-test (leb size (length (batch ++ v ∷ []))) _ _ _ _ (leave-erase (batch ++ v ∷ []) r)
        (buffer_loop-erase size (batch ++ v ∷ []) rounds))
  buffer_loop-erase size [] (timer f ∷ rounds) = buffer_loop-erase size [] rounds
  buffer_loop-erase size (x ∷ xs) (timer flushed ∷ rounds) =
      ap (send_out (x ∷ xs)) (buffer_loop-erase size [] rounds)
  buffer_loop-erase size (x ∷ xs) (timer (given_up r) ∷ rounds) = leave-erase (x ∷ xs) r
  buffer_loop-erase size batch (input_closed r ∷ rounds) = leave-erase batch r
  buffer_loop-erase size batch (done r ∷ rounds) = leave-erase batch r

  -- Whether no send is given up and some round ends the loop, and the values before that round.
  abbrev pub completes : List (BufferRound A) → Bool
  completes [] = false
  completes (received v flushed ∷ rounds) = completes rounds
  completes (received v (given_up r) ∷ rounds) = false
  completes (timer flushed ∷ rounds) = completes rounds
  completes (timer (given_up r) ∷ rounds) = false
  completes (input_closed sent ∷ rounds) = true
  completes (input_closed cancelled ∷ rounds) = false
  completes (done sent ∷ rounds) = true
  completes (done cancelled ∷ rounds) = false

  abbrev pub buffer_values : List (BufferRound A) → List A
  buffer_values [] = []
  buffer_values (received v f ∷ rounds) = v ∷ buffer_values rounds
  buffer_values (timer f ∷ rounds) = buffer_values rounds
  buffer_values (input_closed r ∷ rounds) = []
  buffer_values (done r ∷ rounds) = []

  leave-concat : (batch : List A) → concat (leave batch sent).out ≡ batch ++ []
  unfolding leave
  leave-concat [] = refl
  leave-concat (x ∷ xs) = refl

  test-concat :
      (b : Bool) (v : A) (xs ys : List A) (x y : Ran A (List A))
      → concat x.out ≡ xs ++ ys
      → concat y.out ≡ xs ++ ys
      → concat (take_in v (if b then x else y)).out ≡ xs ++ ys
  test-concat true v xs ys x y h q = h
  test-concat false v xs ys x y h q = q

  buffer_loop-concat :
      (size : ℕ) (batch : List A) (rounds : List (BufferRound A))
      → completes rounds ≡ true
      → concat (buffer_loop size batch rounds).out ≡ batch ++ buffer_values rounds
  unfolding buffer_loop
  buffer_loop-concat size batch [] h = cc
  buffer_loop-concat size batch (received v flushed ∷ rounds) h =
      test-concat (leb size (length (batch ++ v ∷ []))) v (batch ++ v ∷ []) (buffer_values rounds) _
        _ (ap (λ l. (batch ++ v ∷ []) ++ l) (buffer_loop-concat size [] rounds h))
        (buffer_loop-concat size (batch ++ v ∷ []) rounds h)
      ∙ append_assoc batch (v ∷ []) (buffer_values rounds)
  buffer_loop-concat size batch (received v (given_up r) ∷ rounds) h = cc
  buffer_loop-concat size [] (timer flushed ∷ rounds) h = buffer_loop-concat size [] rounds h
  buffer_loop-concat size [] (timer (given_up r) ∷ rounds) h = cc
  buffer_loop-concat size (x ∷ xs) (timer flushed ∷ rounds) h =
      ap (λ l. (x ∷ xs) ++ l) (buffer_loop-concat size [] rounds h)
  buffer_loop-concat size (x ∷ xs) (timer (given_up r) ∷ rounds) h = cc
  buffer_loop-concat size batch (input_closed sent ∷ rounds) h = leave-concat batch
  buffer_loop-concat size batch (input_closed cancelled ∷ rounds) h = cc
  buffer_loop-concat size batch (done sent ∷ rounds) h = leave-concat batch
  buffer_loop-concat size batch (done cancelled ∷ rounds) h = cc

  -- `BufferWithReason` of a positive size, whatever its selects choose: the items of the batches it
  -- sent are the values it received, in order, but for at most `size` of them, fewer while it runs; a
  -- batch has `size` items if its reason is the size, at least one and fewer than `size` if it is the
  -- timeout, and at least one and at most `size` if it is the close.
  pub buffer-IsBuffered :
      (input : Option (List (BufferRound A))) (size : ℕ)
      → 0 < size
      → IsBuffered size [] (buffer_with_reason input size)
  unfolding buffer_with_reason
  buffer-IsBuffered none size pos = record { left = []; upto = refl; few = omega arith; sizes = tt }
  buffer-IsBuffered (some rounds) size pos = reason_loop-IsBuffered size [] rounds pos

  -- `Buffer` does as `BufferWithReason` does, without the reasons.
  pub buffer-erase :
      (input : Option (List (BufferRound A))) (size : ℕ)
      → buffer input size ≡ erase (buffer_with_reason input size)
  unfolding buffer buffer_with_reason
  buffer-erase none size = refl
  buffer-erase (some rounds) size = buffer_loop-erase size [] rounds

  -- When no send of `Buffer` is given up and the input is closed or the context done, the batches
  -- sent hold all the values before that, in order.
  pub buffer-concat :
      (rounds : List (BufferRound A)) (size : ℕ)
      → completes rounds ≡ true
      → concat (buffer (some rounds) size).out ≡ buffer_values rounds
  unfolding buffer
  buffer-concat rounds size h = buffer_loop-concat size [] rounds h
