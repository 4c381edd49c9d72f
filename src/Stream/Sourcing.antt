-- ===== src/Stream/Sourcing.antt =====
-- What the streams of Stream/Sources.antt yield.
use scoped.Base.{
  ℕ, zero, suc, ◌+◌, ◌<◌, ◌≤◌, ◌≡◌, inl, inr, refl, ◌∙◌, true, false, if◌then◌else◌, Bool-cases,
  le→leb, lt→leb_false, Option, some, List, [], ◌∷◌, arith, length, drop, drop-nil, drop-cons,
  get_or, replicate, map, ◌++◌,
}
use scoped.Errors.{GoError, nil, eof, is_nil}
use scoped.Stream.Defs.{ok, fail}
use scoped.Stream.Runs.{Runs, ends, emits}
use scoped.Stream.Sources.{
  Cursor, Repeater, Generator, Arrival, value, closed, done, ctx_err, later, from_slice_next,
  repeat_next, generate_next, from_chan_next,
}

-- How a run over given items goes when the context is checked before each: the items before the
-- first check that finds it done, and the error there, or EOF.
abbrev pub survivors {ℓ} : {A : Type ℓ} → List GoError → List A → List A
survivors polls [] = []
survivors polls (x ∷ xs) = if is_nil (ctx_err polls) then x ∷ survivors (later polls) xs else []

abbrev pub ending {ℓ} : {A : Type ℓ} → List GoError → List A → GoError
ending polls [] = if is_nil (ctx_err polls) then eof else ctx_err polls
ending polls (x ∷ xs) = if is_nil (ctx_err polls) then ending (later polls) xs else ctx_err polls

module _ {ℓ} {A : Type ℓ} (z : A) where
  slice_end :
      (c : Cursor A)
      → is_nil (ctx_err c.polls) ≡ true
      → length c.items ≤ c.idx
      → from_slice_next z c ≡ fail z eof (record c { polls = later c.polls })
  unfolding from_slice_next
  slice_end c live out = rw live (rw (le→leb _ _ out))

  slice_item :
      (c : Cursor A)
      → is_nil (ctx_err c.polls) ≡ true
      → c.idx < length c.items
      → from_slice_next z c
        ≡ ok (get_or c.items c.idx z) (record c { idx = suc c.idx; polls = later c.polls })
  unfolding from_slice_next
  slice_item c live lt = rw live (rw (lt→leb_false _ _ lt))

  slice_done :
      (c : Cursor A)
      → is_nil (ctx_err c.polls) ≡ false
      → from_slice_next z c ≡ fail z (ctx_err c.polls) (record c { polls = later c.polls })
  unfolding from_slice_next
  slice_done c over = rw over

  -- `FromSlice` yields the items not read yet, in order, up to the first check that finds the
  -- context done. It ends with the context's error there, and otherwise with EOF.
  pub from_slice-Runs :
      (items : List A) (idx : ℕ) (polls : List GoError) (rest : List A)
      → drop idx items ≡ rest
      → (t : Cursor A) × Runs
          (from_slice_next z)
          (record { items = items; idx = idx; polls = polls })
          (survivors polls rest)
          (ending polls rest)
          t
  from_slice-Runs items idx polls [] q = elim (Bool-cases (is_nil (ctx_err polls))) [
    | inl live ↦ (
      record { items = items; idx = idx; polls = later polls },
      rw live (ends (slice_end _ live (drop-nil items idx q)) refl),
    )
    | inr over ↦ (
      record { items = items; idx = idx; polls = later polls },
      rw over (ends (slice_done _ over) over),
    )
  ]
  from_slice-Runs items idx polls (x ∷ rest) q = elim (Bool-cases (is_nil (ctx_err polls))) [
    | inl live ↦
        let (lt, here, later_on) = drop-cons items idx z q in
        let (t, more) = from_slice-Runs items (suc idx) (later polls) rest later_on in
        (t, rw live (emits (slice_item _ live lt ∙ rw here) more))
    | inr over ↦ (
      record { items = items; idx = idx; polls = later polls },
      rw over (ends (slice_done _ over) over),
    )
  ]

  -- With no cancellation the whole slice comes, then EOF, and EOF again after it.
  pub from_slice_whole :
      (items : List A) (idx : ℕ) (rest : List A)
      → drop idx items ≡ rest
      → (t : Cursor A) × Runs
          (from_slice_next z)
          (record { items = items; idx = idx; polls = [] })
          rest
          eof
          t
        × Runs (from_slice_next z) t [] eof t
  from_slice_whole items idx [] q =
      let over = ends (slice_end _ refl (drop-nil items idx q)) refl in
      (record { items = items; idx = idx; polls = [] }, over, over)
  from_slice_whole items idx (x ∷ rest) q =
      let (lt, here, later_on) = drop-cons items idx z q in
      let (t, more, again) = from_slice_whole items (suc idx) rest later_on in
      (t, emits (slice_item _ refl lt ∙ rw here) more, again)

  repeat_end :
      (val : A) (n : ℕ) (c : Repeater)
      → is_nil (ctx_err c.polls) ≡ true
      → n ≤ c.count
      → repeat_next z val (some n) c ≡ fail z eof (record c { polls = later c.polls })
  unfolding repeat_next
  repeat_end val n c live out = rw live (rw (le→leb _ _ out))

  repeat_item :
      (val : A) (n : ℕ) (c : Repeater)
      → is_nil (ctx_err c.polls) ≡ true
      → c.count < n
      → repeat_next z val (some n) c
        ≡ ok val (record { count = suc c.count; polls = later c.polls })
  unfolding repeat_next
  repeat_item val n c live lt = rw live (rw (lt→leb_false _ _ lt))

  repeat_done :
      (val : A) (n : Option ℕ) (c : Repeater)
      → is_nil (ctx_err c.polls) ≡ false
      → repeat_next z val n c ≡ fail z (ctx_err c.polls) (record c { polls = later c.polls })
  unfolding repeat_next
  repeat_done val n c over = rw over

  repeat-from :
      (val : A) (n k i : ℕ) (polls : List GoError)
      → i + k ≡ n
      → (t : Repeater) × Runs
          (repeat_next z val (some n))
          (record { count = i; polls = polls })
          (survivors polls (replicate k val))
          (ending polls (replicate k val))
          t
  repeat-from val n zero i polls q = elim (Bool-cases (is_nil (ctx_err polls))) [
    | inl live ↦ (
      record { count = i; polls = later polls },
      rw live (ends (repeat_end val n _ live (omega arith)) refl),
    )
    | inr over ↦ (
      record { count = i; polls = later polls },
      rw over (ends (repeat_done val (some n) _ over) over),
    )
  ]
  repeat-from val n (suc k) i polls q = elim (Bool-cases (is_nil (ctx_err polls))) [
    | inl live ↦
        let (t, more) = repeat-from val n k (suc i) (later polls) (omega arith) in
        (t, rw live (emits (repeat_item val n _ live (omega arith)) more))
    | inr over ↦ (
      record { count = i; polls = later polls },
      rw over (ends (repeat_done val (some n) _ over) over),
    )
  ]

  -- `Repeat` of n ≥ 0 yields its value n times and ends with EOF, or stops at the first check that
  -- finds the context done.
  pub repeat-Runs :
      (val : A) (n : ℕ) (polls : List GoError)
      → (t : Repeater) × Runs
          (repeat_next z val (some n))
          (record { count = 0; polls = polls })
          (survivors polls (replicate n val))
          (ending polls (replicate n val))
          t
  repeat-Runs val n polls = repeat-from val n n 0 polls (omega arith)

abbrev pub iterates {ℓ} : {A : Type ℓ} → (A → A) → A → ℕ → List A
iterates fn x zero = []
iterates fn x (suc k) = x ∷ iterates fn (fn x) k

-- `k` checks find the context live, and the next finds it done with `e`.
abbrev pub live_for : ℕ → GoError → List GoError
live_for zero e = e ∷ []
live_for (suc k) e = nil ∷ live_for k e

module _ {ℓ} {A : Type ℓ} (z : A) where
  generate-rest :
      (fn : A → A) (cur : A) (k : ℕ) (e : GoError)
      → is_nil e ≡ false
      → (t : Generator A) × Runs
          (generate_next z fn)
          (record { cur = cur; first = false; polls = live_for k e })
          (iterates fn (fn cur) k)
          e
          t
  unfolding generate_next
  generate-rest fn cur zero e ne =
      (record { cur = cur; first = false; polls = [] }, ends {v = z} (rw ne) ne)
  generate-rest fn cur (suc k) e ne =
      let (t, more) = generate-rest fn (fn cur) k e ne in (t, emits refl more)

  -- `Generate` yields the seed and then each value's successor, one for each check that finds the
  -- context live, and ends with the context's error.
  pub generate-Runs :
      (fn : A → A) (seed : A) (k : ℕ) (e : GoError)
      → is_nil e ≡ false
      → (t : Generator A) × Runs
          (generate_next z fn)
          (record { cur = seed; first = true; polls = live_for k e })
          (iterates fn seed k)
          e
          t
  unfolding generate_next
  generate-Runs fn seed zero e ne =
      (record { cur = seed; first = true; polls = [] }, ends {v = z} (rw ne) ne)
  generate-Runs fn seed (suc k) e ne =
      let (t, more) = generate-rest fn seed k e ne in (t, emits refl more)

  -- `FromChan` yields what the channel delivers before it is closed or the context is done.
  pub from_chan-Runs :
      (xs : List A) (e : GoError) (rest : List (Arrival A))
      → is_nil e ≡ false
      → (t u : Option (List (Arrival A))) × Runs
          (from_chan_next z)
          (some (map value xs ++ closed ∷ rest))
          xs
          eof
          t
        × Runs (from_chan_next z) (some (map value xs ++ done e ∷ rest)) xs e u
  unfolding from_chan_next
  from_chan-Runs [] e rest ne =
      (some (closed ∷ rest), some rest, ends {v = z} refl refl, ends {v = z} refl ne)
  from_chan-Runs (x ∷ xs) e rest ne =
      let (t, u, at_close, at_done) = from_chan-Runs xs e rest ne in
      (t, u, emits refl at_close, emits refl at_done)
