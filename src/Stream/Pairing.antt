-- ===== src/Stream/Pairing.antt =====
-- stream.go, `Distinct`, and stream_ops.go, `Zip`: what they yield.
use scoped.Base.{
  ℕ, zero, suc, ◌-◌, ◌<◌, ◌≤◌, ◌≡◌, inl, inr, refl, ap, subst, sym, ◌∙◌, Bool, true, false, leb,
  leb→le, leb_false→lt, if◌then◌else◌, Bool-cases, List, [], ◌∷◌, arith, length,
}
use scoped.Errors.{GoError, is_nil}
use scoped.Stream.Defs.{Stream, Obj, next, stop_now, ok, fail, pull-fail}
use scoped.Stream.Runs.{Runs, ends, emits, Runs-first, stop_now-stopped}
use scoped.Stream.Grouping.{
  Pair, Zipping, Distinguishing, zip, zip_next, distinct, distinct_loop, contains,
}

abbrev pub zipped {ℓ κ} : {A : Type ℓ} {B : Type κ} → List A → List B → List (Pair A B)
zipped [] ys = []
zipped (x ∷ xs) [] = []
zipped (x ∷ xs) (y ∷ ys) = record { first = x; second = y } ∷ zipped xs ys

zipped_err {ℓ κ} : {A : Type ℓ} {B : Type κ} → List A → List B → GoError → GoError → GoError
zipped_err [] ys e e' = e
zipped_err (x ∷ xs) [] e e' = e'
zipped_err (x ∷ xs) (y ∷ ys) e e' = zipped_err xs ys e e'

zipped_err-leb {ℓ κ} :
    {A : Type ℓ} {B : Type κ} (xs : List A) (ys : List B) (e e' : GoError)
    → zipped_err xs ys e e' ≡ (if leb (length xs) (length ys) then e else e')
unfolding zipped_err
zipped_err-leb [] ys e e' = ground arith
zipped_err-leb (x ∷ xs) [] e e' = ground arith
zipped_err-leb (x ∷ xs) (y ∷ ys) e e' = ground (arith, zipped_err-leb xs ys e e')

module _ {ℓ κ μ ν} {S : Type ℓ} {A : Type κ} {T : Type μ} {B : Type ν} (a : Stream S A)
    (b : Stream T B) (z : Pair A B) (f : ℕ) where
  zip-first :
      (o : Obj S) (p : Obj T) {o' : Obj S} {v : A} {e : GoError}
      → next a f o ≡ fail v e o'
      → is_nil e ≡ false
      → zip_next a b z f (record { a = o; b = p }) ≡ fail z e (record { a = o'; b = stop_now b p })
  unfolding zip_next
  zip-first o p h ne = rw (h, pull-fail, ne)

  zip-second :
      (o : Obj S) (p : Obj T) {o' : Obj S} {p' : Obj T} {v : A} {w : B} {e : GoError}
      → next a f o ≡ ok v o'
      → next b f p ≡ fail w e p'
      → is_nil e ≡ false
      → zip_next a b z f (record { a = o; b = p }) ≡ fail z e (record { a = stop_now a o'; b = p' })
  unfolding zip_next
  zip-second o p h h' ne = rw h (rw (h', pull-fail, ne))

  zip-both :
      (o : Obj S) (p : Obj T) {o' : Obj S} {p' : Obj T} {v : A} {w : B}
      → next a f o ≡ ok v o'
      → next b f p ≡ ok w p'
      → zip_next a b z f (record { a = o; b = p })
        ≡ ok (record { first = v; second = w }) (record { a = o'; b = p' })
  unfolding zip_next
  zip-both o p h h' = rw h (rw h')

  zip-within :
      (o : Obj S) (p : Obj T) {t : Obj S} {u : Obj T} {xs : List A} {ys : List B} {e e' : GoError}
      → Runs (next a f) o xs e t
      → Runs (next b f) p ys e' u
      → (c : Zipping S T) × Runs
          (zip_next a b z f)
          (record { a = o; b = p })
          (zipped xs ys)
          (zipped_err xs ys e e')
          c
        × (length xs ≤ length ys → c.b.stopped ≡ true)
        × (length ys < length xs → c.a.stopped ≡ true)
  unfolding zipped_err
  zip-within o p {t = t} (ends {t = o'} h ne) r = (
    record { a = o'; b = stop_now b p },
    ends (zip-first o p h ne) ne,
    λ _. stop_now-stopped b p,
    λ lt. absurd (omega arith),
  )
  zip-within o p (emits {t = o'} h r) (ends {t = p'} h' ne) = (
    record { a = stop_now a o'; b = p' },
    ends (zip-second o p h h' ne) ne,
    λ le. absurd (omega arith),
    λ _. stop_now-stopped a o',
  )
  zip-within o p (emits {t = o'} h r) (emits {t = p'} h' r') =
      let (c, rest, first, second) = zip-within o' p' r r' in
      (c, emits (zip-both o p h h') rest, λ le. first (omega arith), λ lt. second (omega arith))

  -- `Zip` yields the pairs of items at equal positions. If the first source has no more items than
  -- the second, it ends as the first does and the second is stopped; otherwise it ends as the
  -- second does and the first is stopped.
  pub zip-Runs :
      (o : Obj S) (p : Obj T) {t : Obj S} {u : Obj T} {xs : List A} {ys : List B} {e e' : GoError}
      → Runs (next a f) o xs e t
      → Runs (next b f) p ys e' u
      → (c : Zipping S T) × Runs
          ((zip a b z).next f)
          (record { a = o; b = p })
          (zipped xs ys)
          (if leb (length xs) (length ys) then e else e')
          c
        × ((if leb (length xs) (length ys) then c.b.stopped else c.a.stopped) ≡ true)
  unfolding zip
  zip-Runs o p {xs = xs} {ys = ys} {e = e} {e' = e'} r r' =
      let (c, rest, first, second) = zip-within o p r r' in
      (
        c,
        subst (λ d. Runs (zip_next a b z f) (record { a = o; b = p }) (zipped xs ys) d c)
            (zipped_err-leb xs ys e e') rest,
        elim (Bool-cases (leb (length xs) (length ys))) [
          | inl le ↦ rw le (first (leb→le (length xs) (length ys) le))
          | inr gt ↦ rw gt (second (leb_false→lt (length xs) (length ys) gt))
        ],
      )

-- The items that are not in `seen` nor, by then, yielded before.
abbrev pub unseen {ℓ} : {A : Type ℓ} → (A → A → Bool) → List A → List A → List A
unseen eq seen [] = []
unseen eq seen (x ∷ xs) =
    if contains eq seen x then unseen eq seen xs else x ∷ unseen eq (x ∷ seen) xs

module _ {ℓ κ} {S : Type ℓ} {A : Type κ} (s : Stream S A) (eq : A → A → Bool) (f : ℕ) where
  abbrev at_state : Obj S → List A → Distinguishing S A
  at_state o seen = record { src = o; seen = seen }

  distinct-fail :
      (k : ℕ) (seen : List A) (o : Obj S) {t : Obj S} {v : A} {e : GoError}
      → next s f o ≡ fail v e t
      → is_nil e ≡ false
      → distinct_loop s eq f (suc k) (at_state o seen) ≡ fail v e (at_state t seen)
  unfolding distinct_loop
  distinct-fail k seen o h n = rw (h, pull-fail, n)

  distinct-new :
      (k : ℕ) (seen : List A) (o : Obj S) {t : Obj S} {v : A}
      → next s f o ≡ ok v t
      → contains eq seen v ≡ false
      → distinct_loop s eq f (suc k) (at_state o seen) ≡ ok v (at_state t (v ∷ seen))
  unfolding distinct_loop
  distinct-new k seen o h new = rw h (ground arith)

  distinct-old :
      (k : ℕ) (seen : List A) (o : Obj S) {t : Obj S} {v : A}
      → next s f o ≡ ok v t
      → contains eq seen v ≡ true
      → distinct_loop s eq f (suc k) (at_state o seen) ≡ distinct_loop s eq f k (at_state t seen)
  unfolding distinct_loop
  distinct-old k seen o h old = rw h (ground arith)

  distinct-fuel :
      (seen : List A) {o t : Obj S} {xs : List A} {e : GoError}
      → Runs (next s f) o xs e t
      → (k j : ℕ) → length xs < k
      → length xs < j
      → distinct_loop s eq f k (at_state o seen) ≡ distinct_loop s eq f j (at_state o seen)
  distinct-fuel seen r zero j lt lt' = absurd (omega arith)
  distinct-fuel seen r (suc k) zero lt lt' = absurd (omega arith)
  distinct-fuel seen {o = o} (ends h n) (suc k) (suc j) lt lt' =
      distinct-fail k seen o h n ∙ sym (distinct-fail j seen o h n)
  distinct-fuel seen {o = o} (emits {t = o'} {v = v} h r) (suc k) (suc j) lt lt' =
      elim (Bool-cases (contains eq seen v)) [
        | inl old ↦
            distinct-old k seen o h old
            ∙ distinct-fuel seen {o = o'} r k j (omega arith) (omega arith)
            ∙ sym (distinct-old j seen o h old)
        | inr new ↦ distinct-new k seen o h new ∙ sym (distinct-new j seen o h new)
      ]

  one_more :
      (c : Distinguishing S A)
      → 0 < f
      → distinct_loop s eq f f c ≡ distinct_loop s eq f (suc (f - 1)) c
  one_more c lt = ap (λ k. distinct_loop s eq f k c) (omega arith)

  -- `Distinct` yields the source's items but those that equal one seen before, in order, and ends as
  -- its source does.
  pub distinct-Runs :
      (seen : List A) {o t : Obj S} {xs : List A} {e : GoError}
      → Runs (next s f) o xs e t
      → length xs < f
      → (c : Distinguishing S A) × Runs
          ((distinct s eq).next f)
          (record { src = o; seen = seen })
          (unseen eq seen xs)
          e
          c
        × (c.src ≡ t)
  unfolding distinct
  distinct-Runs seen {o = o} {t = t} (ends h n) lt =
      (at_state t seen, ends (one_more _ (omega arith) ∙ distinct-fail (f - 1) seen o h n) n, refl)
  distinct-Runs seen {o = o} (emits {t = o'} {v = v} h r) lt =
      elim (Bool-cases (contains eq seen v)) [
        | inl old ↦
            let (c, rest, same) = distinct-Runs seen r (omega arith) in
            (
              c,
              rw old (
                  Runs-first
                    (one_more _ (omega arith)
                      ∙ distinct-old (f - 1) seen o h old
                      ∙ distinct-fuel seen {o = o'} r (f - 1) f (omega arith) (omega arith))
                    rest),
              same,
            )
        | inr new ↦
            let (c, rest, same) = distinct-Runs (v ∷ seen) r (omega arith) in
            (
              c,
              rw new (emits (one_more _ (omega arith) ∙ distinct-new (f - 1) seen o h new) rest),
              same,
            )
      ]
