-- ===== src/Stream/Batching.antt =====
-- stream.go, `Batch`: the batches that it makes of the items of its source.
use scoped.Base.{
  ℕ, zero, suc, ◌<◌, ◌≤◌, ◌≡◌, inl, inr, refl, ap, leb, Bool-cases, leb→le, leb_false→lt, List, [],
  ◌∷◌, ◌++◌, append-nil, append_assoc, arith, length, length-append, take, drop, take-append-drop,
  length-take, length-drop,
}
use mathlib.Core.List.{flatten}
use scoped.Errors.{GoError, eof}
use scoped.Stream.Defs.{Stream, Obj, next, ok, fail}
use scoped.Stream.Runs.{Runs, ends, emits}
use scoped.Stream.Grouping.{batch, batch_loop}

-- All batches have `n` items but the last, which has from 1 to `n`.
abbrev pub AreFull {ℓ} : {A : Type ℓ} → ℕ → List (List A) → Type 0
AreFull n [] = Unit
AreFull n (b ∷ []) = (0 < length b) × (length b ≤ n)
AreFull n (b ∷ c ∷ bs) = (length b ≡ n) × AreFull n (c ∷ bs)

AreFull-cons {ℓ} :
    {A : Type ℓ} (n : ℕ) (b : List A) (bs : List (List A))
    → 0 < n
    → length b ≡ n
    → AreFull n bs
    → AreFull n (b ∷ bs)
AreFull-cons n b [] pos q h = (omega arith, omega arith)
AreFull-cons n b (c ∷ bs) pos q h = (q, h)

module _ {ℓ κ} {S : Type ℓ} {A : Type κ} (s : Stream S A) (f : ℕ) where
  -- With room for no more than the source has, a call fills the batch.
  batch_loop-full :
      (k : ℕ) (acc : List A) {o t : Obj S} {xs : List A} {e : GoError}
      → Runs (next s f) o xs e t
      → k ≤ length xs
      → (o' : Obj S) × (batch_loop s f k acc o ≡ ok (acc ++ take k xs) o')
        × Runs (next s f) o' (drop k xs) e t
  unfolding batch_loop
  batch_loop-full zero acc {o = o} r le = (o, rw append-nil, r)
  batch_loop-full (suc k) acc (ends h ne) le = absurd (omega arith)
  batch_loop-full (suc k) acc (emits {v = v} {xs = xs} h r) le =
      let (o', filled, rest) = batch_loop-full k (acc ++ v ∷ []) r (omega arith) in
      (o', rw h (rw (append_assoc acc (v ∷ []) (take k xs)) at filled), rest)

  -- With more room than the source has items before EOF, a call takes them all.
  batch_loop-short :
      (k : ℕ) (acc : List A) {o t : Obj S} {xs : List A}
      → Runs (next s f) o xs eof t
      → length xs < k
      → 0 < length (acc ++ xs)
      → batch_loop s f k acc o ≡ ok (acc ++ xs) t
  unfolding batch_loop
  batch_loop-short zero acc r lt pos = absurd (omega arith)
  batch_loop-short (suc k) acc (ends h ne) lt pos =
      rw h (ground (arith, ap length (append-nil acc), append-nil acc))
  batch_loop-short (suc k) acc (emits {v = v} {xs = xs} h r) lt pos = rw h (
      rw (append_assoc acc (v ∷ []) xs) at (
        batch_loop-short k (acc ++ v ∷ []) r (omega arith)
          (omega (arith, length-append (acc ++ v ∷ []) xs, length-append acc (v ∷ [])))))

  batch_loop-empty :
      (k : ℕ) {o t : Obj S}
      → Runs (next s f) o [] eof t
      → 0 < k
      → batch_loop s f k [] o ≡ fail [] eof t
  unfolding batch_loop
  batch_loop-empty zero r pos = absurd (omega arith)
  batch_loop-empty (suc k) (ends h ne) pos = rw h

  -- What `Batch` of n makes of the items `xs`.
  pub record Batched (n : ℕ) (o : Obj S) (xs : List A) : Type (ℓ ⊔ κ) where
    pub batches : List (List A)
    pub final : Obj S
    pub runs : Runs ((batch s n).next f) o batches eof final
    pub whole : flatten batches ≡ xs
    pub full : AreFull n batches

  batch-within :
      (m n : ℕ)
      → 0 < n
      → {o t u : Obj S} (xs : List A) → Runs (next s f) o xs eof t
      → Runs (next s f) t [] eof u
      → length xs ≤ m
      → Batched n o xs
  unfolding batch flatten
  batch-within m n pos {t = t} [] r again le = record {
    batches = [];
    final = t;
    runs = ends (batch_loop-empty n r pos) refl;
    whole = refl;
    full = tt;
  }
  batch-within zero n pos (x ∷ xs) r again le = absurd (omega arith)
  batch-within (suc m) n pos {u = u} (x ∷ xs) r again le =
      elim (Bool-cases (leb n (length (x ∷ xs)))) [
        | inl enough ↦
            let fits : n ≤ length (x ∷ xs) = leb→le n (length (x ∷ xs)) enough in
            let (o', filled, rest) = batch_loop-full n [] r fits in
            let b =
              batch-within m n pos (drop n (x ∷ xs)) rest again
                (omega (arith, length-drop n (x ∷ xs) fits)) in
            record {
              batches = take n (x ∷ xs) ∷ b.batches;
              final = b.final;
              runs = emits filled b.runs;
              whole = rw b.whole (take-append-drop n (x ∷ xs));
              full =
                  AreFull-cons n (take n (x ∷ xs)) b.batches pos (length-take n (x ∷ xs) fits)
                    b.full;
            }
        | inr short ↦
            let lt : length (x ∷ xs) < n = leb_false→lt n (length (x ∷ xs)) short in
            record {
              batches = (x ∷ xs) ∷ [];
              final = u;
              runs =
                  emits (batch_loop-short n [] r lt (omega arith))
                    (ends (batch_loop-empty n again pos) refl);
              whole = append-nil (x ∷ xs);
              full = (omega arith, omega arith);
            }
      ]

  -- `Batch` of n > 0, over a source that ends with EOF and is at EOF again when asked once more,
  -- yields batches that are the source's items in order, each of n items but the last, which has
  -- from 1 to n, and ends with EOF.
  pub batch-Runs :
      (n : ℕ)
      → 0 < n
      → {o t u : Obj S} {xs : List A} → Runs (next s f) o xs eof t
      → Runs (next s f) t [] eof u
      → Batched n o xs
  batch-Runs n pos {xs = xs} r again = batch-within (length xs) n pos xs r again (omega arith)
