-- ===== src/Stream/Parallel/Ordering.antt =====
-- stream.go, `makeParallelNext`: the order in which results are given out.
use scoped.Base.{
  ℕ, ◌≡◌, inl, inr, refl, ap, ◌∙◌, true, false, if◌then◌else◌, none, some, List, [], ◌∷◌,
  Bool-cases, Option-cases, map,
}
use scoped.Errors.Laws.{is_nil-nil}
use scoped.Errors.{GoError, eof, is_nil}
use scoped.Stream.Defs.{Ret, Step, fail}
use scoped.Stream.Sources.{Arrival, value, closed, done}
use scoped.Stream.Runs.{Runs, ends, emits}
use scoped.Stream.Yielding.{mapped, mapped_err}
use scoped.Stream.Parallel.Pending.{
  Distinct, tagged, Due, arrive, give, Due-first, Due-empty, Due-over,
}
use scoped.Stream.Parallel.Defs.{
  IndexedResult, Reorder, lookup, insert, note_error, emit, at_close, ordered_loop, parallel_next,
}

-- A call that returned an item and no error, and one that returned an error, at the head of a run.
module _ {ℓ κ} {S : Type ℓ} {B : Type κ} {step : Step S B} {s t : S} where
  after_item :
      {u : S} {xs : List B} {e : GoError} (r : Ret B)
      → is_nil r.err ≡ true
      → step s ≡ some (r, t)
      → Runs step t xs e u
      → Runs step s (if is_nil r.err then r.val ∷ xs else []) (if is_nil r.err then e else r.err) u
  after_item r fine h more = rw fine (
      emits (h ∙ ap (λ err. some (record { val = r.val; err = err }, t)) (is_nil-nil r.err fine))
        more)

  after_error :
      (xs : List B) (e : GoError) (r : Ret B)
      → is_nil r.err ≡ false
      → step s ≡ some (r, t)
      → Runs step s (if is_nil r.err then r.val ∷ xs else []) (if is_nil r.err then e else r.err) t
  after_error xs e r bad h = rw bad (ends {v = r.val} h bad)

module _ {ℓ} {B : Type ℓ} where
  -- What the `select`s of the calls receive: the results in the order given, and the closed channel.
  abbrev pub delivered : List (IndexedResult B) → List (Arrival (IndexedResult B))
  delivered [] = closed ∷ []
  delivered (res ∷ q) = value res ∷ delivered q

  -- The calls that wait for the next result: what a call does on each arrival.
  module _ (z : B) where
    loop-give :
        (arrived : List (Arrival (IndexedResult B))) (s : Reorder B) {r : Ret B}
        → lookup s.next_idx s.pending ≡ some r
        → ordered_loop z arrived s ≡ emit r (record s { arrivals = arrived })
    unfolding ordered_loop
    loop-give [] s h = cc
    loop-give (value res ∷ rest) s h = cc
    loop-give (closed ∷ rest) s h = cc
    loop-give (done e ∷ rest) s h = cc

    loop-take :
        (res : IndexedResult B) (rest : List (Arrival (IndexedResult B))) (s : Reorder B)
        → lookup s.next_idx s.pending ≡ none
        → ordered_loop z (value res ∷ rest) s
          ≡ ordered_loop z rest (record s { pending = insert res s.pending })
    unfolding ordered_loop
    loop-take res rest s h = cc

    loop-close :
        (rest : List (Arrival (IndexedResult B))) (s : Reorder B)
        → lookup s.next_idx s.pending ≡ none
        → ordered_loop z (closed ∷ rest) s
          ≡ at_close z s.pending (record s { arrivals = closed ∷ rest })
    unfolding ordered_loop
    loop-close rest s h = cc

    -- A call gave `r`, and `rs` are due from then on.
    abbrev Gave : List (IndexedResult B) → Reorder B → Ret B → List (Ret B) → Type ℓ
    Gave q s r rs =
        (s' : Reorder B) × (q' : List (IndexedResult B)) × (ordered_loop z (delivered q) s
          ≡ some (r, s'))
        × (s'.arrivals ≡ delivered q')
        × Due s'.next_idx rs s'.pending q'

    call-here :
        (q : List (IndexedResult B)) (s : Reorder B) (r x : Ret B) (rs : List (Ret B))
        → Due s.next_idx (r ∷ rs) s.pending q
        → lookup s.next_idx s.pending ≡ some x
        → Gave q s r rs
    unfolding emit
    call-here q s r x rs d here =
        let same = Due-first s.next_idx r x rs s.pending q d here in
        (
          _,
          q,
          loop-give (delivered q) s here
              ∙ ap (λ y. emit y (record s { arrivals = delivered q })) same,
          refl,
          give s.next_idx r rs s.pending q (here ∙ ap some same) d,
        )

    -- A call while results are due gives the next one.
    call :
        (q : List (IndexedResult B)) (s : Reorder B) (r : Ret B) (rs : List (Ret B))
        → Due s.next_idx (r ∷ rs) s.pending q
        → Gave q s r rs
    call [] s r rs d = elim (Option-cases (lookup s.next_idx s.pending)) [
      | inr (x, here) ↦ call-here [] s r x rs d here
      | inl missing ↦ absurd (Due-empty s.next_idx r rs s.pending d missing)
    ]
    call (res ∷ q) s r rs d = elim (Option-cases (lookup s.next_idx s.pending)) [
      | inr (x, here) ↦ call-here (res ∷ q) s r x rs d here
      | inl missing ↦
          let (s', q', gave, left, due) =
            call q (record s { pending = insert res s.pending }) r rs
              (arrive s.next_idx (r ∷ rs) s.pending q res d) in
          (s', q', loop-take res (delivered q) s missing ∙ gave, left, due)
    ]

    close-empty : (s : Reorder B) → s.pending ≡ [] → at_close z s.pending s ≡ fail z eof s
    unfolding at_close
    close-empty s h = cc

    lookup-empty : (i : ℕ) (p : List (IndexedResult B)) → p ≡ [] → lookup i p ≡ none
    unfolding lookup
    lookup-empty i p h = rw h refl

    last_call :
        (q : List (IndexedResult B)) (s : Reorder B)
        → Due s.next_idx [] s.pending q
        → (t : Reorder B) × (ordered_loop z (delivered q) s ≡ fail z eof t)
    last_call q s d =
        let (no_pending, none_left) = Due-over s.next_idx s.pending q d in
        let t : Reorder B = record s { arrivals = closed ∷ [] } in
        (
          t,
          ap (λ l. ordered_loop z (delivered l) s) none_left
              ∙ loop-close [] s (lookup-empty s.next_idx s.pending no_pending)
              ∙ close-empty t no_pending,
        )

    next-ordered : (s : Reorder B) → parallel_next z true s ≡ ordered_loop z s.arrivals s
    unfolding parallel_next
    next-ordered s = refl

    ordered-Runs :
        (rs : List (Ret B)) (q : List (IndexedResult B)) (s : Reorder B)
        → s.arrivals ≡ delivered q
        → Due s.next_idx rs s.pending q
        → (t : Reorder B) × Runs
            (parallel_next z true)
            s
            (mapped (λ r. r) rs)
            (mapped_err (λ r. r) rs eof)
            t
    ordered-Runs [] q s a d =
        let (t, over) = last_call q s d in
        (t, ends (next-ordered s ∙ ap (λ l. ordered_loop z l s) a ∙ over) refl)
    ordered-Runs (r ∷ rs) q s a d =
        let (s', q', gave, left, due) = call q s r rs d in
        let step = next-ordered s ∙ ap (λ l. ordered_loop z l s) a ∙ gave in
        elim (Bool-cases (is_nil r.err)) [
          | inl fine ↦
              let (t, more) = ordered-Runs rs q' s' left due in (t, after_item r fine step more)
          | inr failed ↦ (s', after_error _ _ r failed step)
        ]

    unordered-take :
        (res : IndexedResult B) (rest : List (Arrival (IndexedResult B))) (s : Reorder B)
        → s.arrivals ≡ value res ∷ rest
        → parallel_next z false s
          ≡ some (
            res.ret,
            record s { arrivals = rest; set_errors = note_error res.ret.err s.set_errors },
          )
    unfolding parallel_next
    unordered-take res rest s a = rw a refl

    -- Unordered `ParallelMap` yields the results as they arrive, up to the first error, and ends with
    -- that error, or with EOF when the channel is closed.
    pub unordered-Runs :
        (q : List (IndexedResult B)) (s : Reorder B)
        → s.arrivals ≡ delivered q
        → (t : Reorder B) × Runs
            (parallel_next z false)
            s
            (mapped (λ res. res.ret) q)
            (mapped_err (λ res. res.ret) q eof)
            t
    unfolding parallel_next
    unordered-Runs [] s a = (s, ends {v = z} (rw a refl) refl)
    unordered-Runs (res ∷ q) s a = elim (Bool-cases (is_nil res.ret.err)) [
      | inl fine ↦
          let s' : Reorder B = record s {
            arrivals = delivered q;
            set_errors = note_error res.ret.err s.set_errors;
          } in
          let (t, more) = unordered-Runs q s' refl in
          (t, after_item res.ret fine (unordered-take res (delivered q) s a) more)
      | inr failed ↦ (_, after_error _ _ res.ret failed (unordered-take res (delivered q) s a))
    ]

  -- A stream that `ParallelMap` has just made, with what its calls will receive.
  abbrev pub start : List (IndexedResult B) → ℕ → Reorder B
  start q slots = record {
    next_idx = 0;
    pending = [];
    arrivals = delivered q;
    slots = slots;
    set_errors = [];
  }

module _ {ℓ κ} {A : Type ℓ} {B : Type κ} (z : B) (fn : A → Ret B) where
  mapped-map : (xs : List A) → mapped (λ r. r) (map fn xs) ≡ mapped fn xs
  mapped-map [] = refl
  mapped-map (x ∷ xs) = rw (mapped-map xs) refl

  mapped_err-map :
      (xs : List A) (e : GoError) → mapped_err (λ r. r) (map fn xs) e ≡ mapped_err fn xs e
  mapped_err-map [] e = refl
  mapped_err-map (x ∷ xs) e = rw (mapped_err-map xs e) refl

  -- Ordered `ParallelMap` over items that were all dispatched and whose results all arrive, each once
  -- and in any order, before the channel is closed: it yields what `Map` of the same mapper yields
  -- over the items, in their order up to the mapper's first error, and ends as `Map` does at EOF.
  pub ordered_as_map :
      (xs : List A) (q : List (IndexedResult B)) (slots : ℕ)
      → Distinct q
      → ((i : ℕ) → lookup i q ≡ lookup i (tagged 0 (map fn xs)))
      → (t : Reorder B) × Runs
          (parallel_next z true)
          (start q slots)
          (mapped fn xs)
          (mapped_err fn xs eof)
          t
  unfolding lookup
  ordered_as_map xs q slots once each =
      let (t, runs) =
        ordered-Runs z (map fn xs) q (start q slots) refl
          (record { content = each; disjoint = λ i. inl refl; distinct = once }) in
      (t, rw (mapped-map xs, mapped_err-map xs eof) at runs)
