-- ===== src/Chanx/Batch/Order.antt =====
-- chanx/batch.go: what `RecvBatch` receives of what `SendBatch` sends.
use scoped.Base.{
  append_assoc, append-nil, if◌then◌else◌, ℕ, zero, suc, ◌+◌, ◌≤◌, ◌≡◌, refl, ◌∙◌, sym, ap, subst,
  Bool, true, false, List, [], ◌∷◌, ◌++◌, arith, length, length-append, take, drop, inl, inr, ◌⊎◌,
}
use scoped.Errors.{nil, is_nil}
use scoped.Chanx.Batch.System.{
  Sender, sending, sent_batch, Receiver, receiving, got_batch, System, init, Sends, send, send_done,
  all_sent, close, Receives, recv, recv_closed, recv_done, all_received, Step, sender, receiver,
  hand_over, Reach, here, next,
}

still_full :
    (a n b b' : ℕ) (c c' : Bool)
    → c ≡ false
    → (a ≡ n) ⊎ ((b ≡ 0) × (c ≡ true))
    → (a ≡ n) ⊎ ((b' ≡ 0) × (c' ≡ true))
still_full a n b b' c c' h (inl full) = inl full
still_full a n b b' c c' h (inr over) = cc

module _ {ℓ} {T : Type ℓ} where
  take-append : (xs ys : List T) → take (length xs) (xs ++ ys) ≡ xs
  take-append [] ys = refl
  take-append (x ∷ xs) ys = ap (λ l. x ∷ l) (take-append xs ys)

  drop-append : (xs ys : List T) → drop (length xs) (xs ++ ys) ≡ ys
  drop-append [] ys = refl
  drop-append (x ∷ xs) ys = drop-append xs ys

  -- What the receiver has.
  abbrev pub got : Receiver T → List T
  got (receiving k result) = result
  got (got_batch result e) = result

  -- Of the sender: what it has not sent.
  abbrev SenderHas : List T → Sender T → Type ℓ
  SenderHas unsent (sending rest) = unsent ≡ rest
  SenderHas unsent (sent_batch e) = is_nil e ≡ true → unsent ≡ []

  abbrev is_over : Sender T → Bool
  is_over (sending rest) = false
  is_over (sent_batch e) = true

  abbrev ReceiverHas : ℕ → System T → Receiver T → Type 0
  ReceiverHas n m (receiving k result) = k + length result ≡ n
  ReceiverHas n m (got_batch result e) =
      (length result ≤ n)
      × (is_nil e ≡ true → (length result ≡ n) ⊎ ((length m.buf ≡ 0) × (m.is_closed ≡ true)))

  record Inv (values : List T) (n : ℕ) (m : System T) : Type ℓ where
    unsent : List T
    order : got m.receiver ++ (m.buf ++ unsent) ≡ values
    sender : SenderHas unsent m.sender
    receiver : ReceiverHas n m m.receiver
    closed : (if m.is_closed then is_over m.sender else true) ≡ true

  -- A step of the sender leaves what the receiver found.
  while_open :
      (n : ℕ) (m k : System T) (r : Receiver T)
      → m.is_closed ≡ false
      → ReceiverHas n m r
      → ReceiverHas n k r
  while_open n m k (receiving j result) h v = v
  while_open n m k (got_batch result e) h v = (
    v.0,
    λ fine.
        still_full (length result) n (length m.buf) (length k.buf) m.is_closed k.is_closed h
          (v.1 fine),
  )

  at_sender :
      (values : List T) (n : ℕ) (m : System T) (v : Inv values n m) {s : Sender T}
      → m.sender ≡ s
      → SenderHas v.unsent s
  at_sender values n m v h = subst (SenderHas v.unsent) h v.sender

  at_receiver :
      (values : List T) (n : ℕ) (m : System T) (v : Inv values n m) {r : Receiver T}
      → m.receiver ≡ r
      → (got r ++ (m.buf ++ v.unsent) ≡ values) × ReceiverHas n m r
  at_receiver values n m v h = (
    ap (λ r. got r ++ (m.buf ++ v.unsent)) (sym h) ∙ v.order,
    subst (ReceiverHas n m) h v.receiver,
  )

  shifted : (xs ys zs : List T) (x : T) → (xs ++ x ∷ []) ++ (ys ++ zs) ≡ xs ++ ((x ∷ ys) ++ zs)
  shifted xs ys zs x = append_assoc xs (x ∷ []) (ys ++ zs)

  Sends-Inv :
      (values : List T) (n : ℕ) (m k : System T) → Sends m k → Inv values n m → Inv values n k
  Sends-Inv values n m k (send {v = x} {rest} h o lt) v = record {
    unsent = rest;
    order =
        ap (λ l. got m.receiver ++ l) (append_assoc m.buf (x ∷ []) rest)
        ∙ ap (λ l. got m.receiver ++ (m.buf ++ l)) (sym (at_sender values n m v h))
        ∙ v.order;
    sender = refl;
    receiver = while_open n m k m.receiver o v.receiver;
    closed = ground arith;
  }
  Sends-Inv values n m k (send_done e h bad) v = record {
    unsent = v.unsent;
    order = v.order;
    sender = λ fine. absurd (ground (arith, fine, bad));
    receiver = v.receiver;
    closed = ground arith;
  }
  Sends-Inv values n m k (all_sent h) v = record {
    unsent = v.unsent;
    order = v.order;
    sender = λ fine. at_sender values n m v h;
    receiver = v.receiver;
    closed = ground arith;
  }
  Sends-Inv values n m k (close {e} h o) v = record {
    unsent = v.unsent;
    order = v.order;
    sender = v.sender;
    receiver = while_open n m k m.receiver o v.receiver;
    closed = ap is_over h;
  }

  Receives-Inv :
      (values : List T) (n : ℕ) (m k : System T) → Receives m k → Inv values n m → Inv values n k
  Receives-Inv values n m k (recv {k = j} {result} {v = x} {rest} h b) v =
      let (order, left) = at_receiver values n m v h in
      record {
        unsent = v.unsent;
        order =
            shifted result rest v.unsent x ∙ ap (λ l. result ++ (l ++ v.unsent)) (sym b) ∙ order;
        sender = v.sender;
        receiver = omega (arith, left, length-append result (x ∷ []));
        closed = v.closed;
      }
  Receives-Inv values n m k (recv_closed {result} h b c) v =
      let (order, left) = at_receiver values n m v h in
      record {
        unsent = v.unsent;
        order = order;
        sender = v.sender;
        receiver = (omega (arith, left), λ fine. inr (ap length b, c));
        closed = v.closed;
      }
  Receives-Inv values n m k (recv_done {result} e h bad) v =
      let (order, left) = at_receiver values n m v h in
      record {
        unsent = v.unsent;
        order = order;
        sender = v.sender;
        receiver = (omega (arith, left), λ fine. absurd (ground (arith, fine, bad)));
        closed = v.closed;
      }
  Receives-Inv values n m k (all_received {result} h) v =
      let (order, left) = at_receiver values n m v h in
      record {
        unsent = v.unsent;
        order = order;
        sender = v.sender;
        receiver = (omega (arith, left), λ fine. inl (omega (arith, left)));
        closed = v.closed;
      }

  Step-Inv : (values : List T) (n : ℕ) (m k : System T) → Step m k → Inv values n m → Inv values n k
  Step-Inv values n m k (sender s) v = Sends-Inv values n m k s v
  Step-Inv values n m k (receiver r) v = Receives-Inv values n m k r v
  Step-Inv values n m k (hand_over {v = x} {rest} {k = j} {result} hs hr b o) v =
      let (order, left) = at_receiver values n m v hr in
      record {
        unsent = rest;
        order =
            ap (λ l. (result ++ x ∷ []) ++ (l ++ rest)) b
            ∙ append_assoc result (x ∷ []) rest
            ∙ ap (λ l. result ++ l) (sym (at_sender values n m v hs))
            ∙ ap (λ l. result ++ (l ++ v.unsent)) (sym b)
            ∙ order;
        sender = refl;
        receiver = omega (arith, left, length-append result (x ∷ []));
        closed = ground arith;
      }

  Reach-Inv :
      (size n : ℕ) (values : List T) (m : System T) → Reach (init size values n) m → Inv values n m
  Reach-Inv size n values m here = record {
    unsent = values;
    order = refl;
    sender = refl;
    receiver = omega arith;
    closed = refl;
  }
  Reach-Inv size n values m (next {n = k} r st) =
      Step-Inv values n k m st (Reach-Inv size n values k r)

  cut_at :
      (xs ys zs : List T) (n : ℕ)
      → xs ++ ys ≡ zs
      → length xs ≡ n
      → (xs ≡ take n zs) × (ys ≡ drop n zs)
  cut_at xs ys zs n h q = (
    sym (take-append xs ys) ∙ ap (take (length xs)) h ∙ ap (λ k. take k zs) q,
    sym (drop-append xs ys) ∙ ap (drop (length xs)) h ∙ ap (λ k. drop k zs) q,
  )

  cut_whole : (xs : List T) (n : ℕ) → length xs ≤ n → (xs ≡ take n xs) × ([] ≡ drop n xs)
  cut_whole [] zero h = (refl, refl)
  cut_whole [] (suc n) h = (refl, refl)
  cut_whole (x ∷ xs) zero h = absurd (omega (arith, h))
  cut_whole (x ∷ xs) (suc n) h =
      let (a, b) = cut_whole xs n (omega (arith, h)) in (ap (λ l. x ∷ l) a, b)

  no_values : (xs : List T) → length xs ≡ 0 → xs ≡ []
  no_values [] h = refl
  no_values (x ∷ xs) h = absurd (omega (arith, h))

  -- Over a channel of any size, in whatever order the two calls and the close behind `SendBatch`
  -- take their steps: when `SendBatch` has returned nil and `RecvBatch` of n has returned a nil
  -- error, the values received are the first n of those sent, in their order, or all of them when
  -- they are fewer, and the channel holds the others.
  pub batch_roundtrip :
      (size n : ℕ) (values result : List T) (m : System T)
      → Reach (init size values n) m
      → m.sender ≡ sent_batch nil
      → m.receiver ≡ got_batch result nil
      → (result ≡ take n values) × (m.buf ≡ drop n values)
  batch_roundtrip size n values result m r hs hr =
      let v = Reach-Inv size n values m r in
      let (order, found) = at_receiver values n m v hr in
      let none_left = at_sender values n m v hs refl in
      let all = ap (λ l. result ++ (m.buf ++ l)) (sym none_left) ∙ order in
      let whole = ap (λ l. result ++ l) (sym (append-nil m.buf)) ∙ all in
      elim (found.1 refl) [
        | inl full ↦ cut_at result m.buf values n whole full
        | inr over ↦
            let empty = no_values m.buf over.0 in
            let same = sym (append-nil result) ∙ ap (λ l. result ++ l) (sym empty) ∙ whole in
            let (a, b) = cut_whole result n found.0 in
            (a ∙ ap (take n) same, empty ∙ b ∙ ap (drop n) same)
      ]
