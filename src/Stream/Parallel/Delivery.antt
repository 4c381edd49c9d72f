-- ===== src/Stream/Parallel/Delivery.antt =====
-- stream.go, `ParallelMap`: what a consumer of the ordered mode has received.
use scoped.Base.{
  ℕ, zero, suc, ◌+◌, ◌*◌, ◌≤◌, ◌≡◌, refl, ◌∙◌, sym, ap, true, if◌then◌else◌, none, List, [], ◌∷◌,
  ◌++◌, arith, length, map, take, drop, total, total-le,
}
use scoped.Errors.{GoError, nil, is_nil}
use scoped.Errors.Laws.{is_nil-nil}
use scoped.Stream.Parallel.Defs.{StreamOptions, IndexedResult, lookup}
use scoped.Stream.Parallel.System.{
  Called, call_result, Worker, calling, Pc, ended, System, init, Reach, undisturbed, steps,
}
use scoped.Stream.Parallel.Indices.{same, below, result_at, count-lookup}
use scoped.Stream.Parallel.Weights.{alive, placed, broken, worker_at, pc_over, pc_at}
use scoped.Stream.Parallel.Invariant.{reached}
use scoped.Stream.Parallel.Places.{pc_items}
use scoped.Stream.Parallel.Contents.{successes, mapped, contents}
use scoped.Stream.Parallel.Calm.{pc_drained, pc_astray, calm, effort}

-- Whether a worker is inside the mapper.
abbrev pub in_call {ℓ κ} : {A : Type ℓ} {B : Type κ} → Worker A B → ℕ
in_call (calling i v) = 1
in_call _ = 0

in_call-le {ℓ κ} : {A : Type ℓ} {B : Type κ} (w : Worker A B) → in_call w ≤ placed w
in_call-le w = ground arith

pub worker_at-le {ℓ κ} :
    {A : Type ℓ} {B : Type κ} (i : ℕ) (w : Worker A B) → worker_at i w ≤ alive w
worker_at-le i w = ground arith

take-map {ℓ κ} :
    {A : Type ℓ} {B : Type κ} (f : A → B) (k : ℕ) (xs : List A)
    → drop k xs ≡ []
    → take k (map f xs) ≡ map f xs
take-map f zero xs h = ap (map f) (sym h)
take-map f (suc k) [] h = refl
take-map f (suc k) (x ∷ xs) h = ap (λ l. f x ∷ l) (take-map f k xs h)

pub no_items {ℓ} : {A : Type ℓ} (xs : List A) → length xs ≡ 0 → xs ≡ []
no_items [] h = refl
no_items (x ∷ xs) h = absurd (omega (arith, h))

pub total-none {ℓ} : {A : Type ℓ} (w : A → ℕ) (xs : List A) → length xs ≡ 0 → total w xs ≡ 0
total-none w [] h = refl
total-none w (x ∷ xs) h = absurd (omega (arith, h))

pick_over {ℓ} :
    {A : Type ℓ} (pc : Pc A) (e : GoError) (n : ℕ)
    → pc ≡ ended e
    → (if pc_over pc then n else 0) ≡ 0
    → n ≡ 0
pick_over pc e n h z = ground arith

-- What the calm says of a dispatcher that has ended.
calm_end {ℓ} :
    {A : Type ℓ} (pc : Pc A) (e : GoError) (n : ℕ)
    → pc ≡ ended e
    → (if pc_drained pc then n else 0) ≡ 0
    → pc_astray pc ≡ 0
    → (n ≡ 0) × (is_nil e ≡ true)
calm_end pc e n h z s = (ground arith, ground arith)

empty-pending {ℓ} :
    {B : Type ℓ} (p : List (IndexedResult B)) → ((i : ℕ) → total (result_at i) p ≡ 0) → p ≡ []
empty-pending [] h = refl
empty-pending (r ∷ p) h = absurd (ground (arith, h r.idx))

module _ {ℓ κ} {A : Type ℓ} {B : Type κ} where
  -- The dispatcher is done, and every result was given out.
  pub record Finished (zero_value : B) (fn : A → Called B) (items : List A) (m : System A B)
      : Type (ℓ ⊔ κ) where
    pub pc : m.pc ≡ ended nil
    pub emitted : m.emitted ≡ mapped zero_value fn items
    pub pending : m.consumer.pending ≡ []
    pub res_ch : m.res_ch ≡ []

module _ {ℓ κ} {A : Type ℓ} {B : Type κ} (zero_value : B) (fn : A → Called B) (opts : StreamOptions)
    (items : List A) (source_end : GoError) (m : System A B) where
  -- In every state that is reached, whoever ends whichever context, the results given out by their
  -- index are those of the first items, in their order; the answers of the calls that carry no
  -- error, those at the closed channel and at the ended context included, are the ones among these
  -- results that carry none; no more than `max_pending` results wait, no more than `max_workers`
  -- calls run, and no worker has sent on the closed channel.
  pub emitted-prefix :
      Reach zero_value fn opts (init items source_end) m
      → (m.emitted ≡ take m.consumer.next_idx (mapped zero_value fn items))
        × (successes m.answers ≡ successes (take m.consumer.next_idx (mapped zero_value fn items)))
        × (length m.res_ch + length m.consumer.pending ≤ opts.max_pending)
        × (total in_call m.workers ≤ opts.max_workers)
        × (total broken m.workers ≡ 0)
  emitted-prefix r =
      let (c, o) = reached zero_value fn opts items source_end m r in
      let d = contents zero_value fn opts items source_end m r in
      (
        d.carried.emitted,
        d.carried.answers ∙ ap successes d.carried.emitted,
        omega (arith, c.tokens, c.token_bound),
        omega (arith, c.sem, c.sem_bound, total-le in_call placed in_call-le m.workers),
        c.quiet,
      )

  -- In a run that nobody disturbs, by a stop, the end of a context from outside or a call that ends
  -- without a result, no step is lost: each of the steps brings one of twelve for an
  -- item or one of four for the end, so a run has no more than twelve steps for an item and four.
  pub undisturbed-steps :
      (r : Reach zero_value fn opts (init items source_end) m)
      → undisturbed r ≡ true
      → steps r + effort m ≡ 12 * length items + 4
  undisturbed-steps r u = (calm zero_value fn opts items source_end m r u).1

  -- With the workers gone and nothing in the channel, the reorder buffer has the rest.
  rest_pending :
      (r : Reach zero_value fn opts (init items source_end) m)
      → undisturbed r ≡ true
      → (e : GoError) → m.pc ≡ ended e
      → m.res_ch ≡ []
      → (i : ℕ)
      → total (result_at i) m.consumer.pending + below m.consumer.next_idx i ≡ below m.input_idx i
  rest_pending r u e h empty i =
      let (c, o) = reached zero_value fn opts items source_end m r in
      let v = (calm zero_value fn opts items source_end m r u).0 in
      omega (
        arith,
        o i,
        total-le (worker_at i) alive (worker_at-le i) m.workers,
        pick_over m.pc e (total alive m.workers) h c.over,
        ap (pc_at i) h,
        ap (total (result_at i)) empty,
        total-none (same i) m.lost v.lost,
      )

  caught_up :
      (r : Reach zero_value fn opts (init items source_end) m)
      → undisturbed r ≡ true
      → (e : GoError) → m.pc ≡ ended e
      → m.res_ch ≡ []
      → lookup m.consumer.next_idx m.consumer.pending ≡ none
      → m.consumer.next_idx ≡ m.input_idx
  caught_up r u e h empty none_there = ground (
    arith,
    rest_pending r u e h empty m.consumer.next_idx,
    rest_pending r u e h empty m.input_idx,
    count-lookup m.consumer.next_idx m.consumer.pending none_there,
  )

  pub idle-Finished :
      (r : Reach zero_value fn opts (init items source_end) m)
      → undisturbed r ≡ true
      → (e : GoError) → m.pc ≡ ended e
      → m.res_ch ≡ []
      → lookup m.consumer.next_idx m.consumer.pending ≡ none
      → Finished zero_value fn items m
  idle-Finished r u e h empty none_there =
      let v = (calm zero_value fn opts items source_end m r u).0 in
      let d = contents zero_value fn opts items source_end m r in
      let (drained, fine) = calm_end m.pc e (length m.source) h v.drained v.straight in
      let over = d.ahead.0 ∙ ap (λ p. pc_items p ++ m.source) h ∙ no_items m.source drained in
      let same_place = caught_up r u e h empty none_there in
      record {
        pc = h ∙ ap ended (is_nil-nil e fine);
        emitted =
            d.carried.emitted
            ∙ ap (λ k. take k (mapped zero_value fn items)) same_place
            ∙ take-map (λ x. call_result zero_value (fn x)) m.input_idx items over;
        pending =
            empty-pending m.consumer.pending
              (λ i. omega (arith, rest_pending r u e h empty i, ap (λ k. below k i) same_place));
        res_ch = empty;
      }
