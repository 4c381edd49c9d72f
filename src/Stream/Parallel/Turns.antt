-- ===== src/Stream/Parallel/Turns.antt =====
-- stream.go, `ParallelMap`: whose turn it is, by what is free.
use scoped.Base.{
  ℕ, suc, ◌+◌, ◌≤◌, ◌<◌, ◌≡◌, refl, ◌∙◌, sym, ap, Bool, true, false, ◌&&◌, ltb, none, some, List,
  [], ◌∷◌, arith, length, total, total-le, get_elem?, inl, inr, total-Weighty, Bool-cases,
  Option-cases,
}
use scoped.Stream.Defs.{Ret}
use scoped.Stream.Parallel.Defs.{StreamOptions, IndexedResult, lookup, emit}
use scoped.Stream.Parallel.System.{
  Called, Worker, calling, sending, leaving, released, gone, crashed, gating, System, Dispatch,
  Work, call_fn, send, free, finish, take_result, give, Step, dispatch, work, consume, Reach, here,
  next, quiet, undisturbed, res_chan_size,
}
use scoped.Stream.Parallel.Indices.{same, below, result_at, count-lookup}
use scoped.Stream.Parallel.Weights.{alive, placed, laden, worker_at, pc_at, pc_token}
use scoped.Stream.Parallel.Counting.{Counts, Once}
use scoped.Stream.Parallel.Calm.{pc_behind, Calm}
use scoped.Stream.Parallel.Delivery.{worker_at-le, total-none}

and_parts : (a b : Bool) → (a && b) ≡ true → (a ≡ true) × (b ≡ true)
and_parts a b h = (ground arith, ground arith)

pub and_true : (a b : Bool) → a ≡ true → b ≡ true → (a && b) ≡ true
and_true a b h k = ground arith

nothing_waits {ℓ} :
    {B : Type ℓ} (k input i : ℕ) (p : List (IndexedResult B))
    → ((j : ℕ) → same j i + total (result_at j) p + below k j ≡ below input j)
    → suc i ≡ input
    → total (result_at k) p ≡ 0
    → length p ≡ 0
nothing_waits k input i [] each h z = refl
nothing_waits k input i (r ∷ p) each h z = absurd (ground (arith, each k, each r.idx))

module _ {ℓ κ} {A : Type ℓ} {B : Type κ} (zero_value : B) (fn : A → Called B)
    (opts : StreamOptions) where
  -- A step of the program's own.
  pub record Goes (m : System A B) : Type (ℓ ⊔ κ) where
    pub to : System A B
    pub step : Step zero_value fn opts m to
    pub own : quiet step ≡ true

  pub dispatches : {m n : System A B} → Dispatch opts m n → Goes m
  dispatches {m} {n} d = record { to = n; step = dispatch d; own = refl }

  pub gives :
      (m : System A B) (r : Ret B) → lookup m.consumer.next_idx m.consumer.pending ≡ some r → Goes m
  unfolding emit
  gives m r h = record { to = _; step = consume (give h refl); own = refl }

  pub takes :
      (m : System A B) (rs : List (IndexedResult B)) → m.res_ch ≡ rs → 0 < length rs → Goes m
  takes m [] h pos = absurd (omega arith)
  takes m (r ∷ rs) h pos = elim (Option-cases (lookup m.consumer.next_idx m.consumer.pending)) [
    | inl none_there ↦ record { to = _; step = consume (take_result none_there h); own = refl }
    | inr found ↦ gives m found.0 found.1
  ]

  works :
      (m n : System A B) (i : ℕ) (w w' : Worker A B)
      → get_elem? m.workers i ≡ some w
      → Work zero_value fn opts m w n w'
      → Goes m
  works m n i w w' e mv = record { to = _; step = work i e mv; own = refl }

  worker_turn :
      (m : System A B) (i : ℕ) (w : Worker A B)
      → 0 < opts.max_workers
      → get_elem? m.workers i ≡ some w
      → m.res_closed ≡ false
      → 0 < alive w
      → Goes m
  worker_turn m i (calling j v) some_workers e o a = works m m i _ _ e call_fn
  worker_turn m i (sending r) some_workers e o a =
      elim (Bool-cases (ltb (length m.res_ch) (res_chan_size opts))) [
        | inl lt ↦ works m _ i _ _ e (send o (ground (arith, lt)))
        | inr full ↦ takes m m.res_ch refl (ground (arith, full))
      ]
  worker_turn m i leaving some_workers e o a = works m _ i _ _ e free
  worker_turn m i released some_workers e o a = works m _ i _ _ e finish
  worker_turn m i gone some_workers e o a = absurd (omega (arith, a))
  worker_turn m i crashed some_workers e o a = absurd (omega (arith, a))

  pub some_alive :
      (m : System A B) → 0 < opts.max_workers → Counts opts m → 0 < total alive m.workers → Goes m
  some_alive m some_workers c pos =
      let w = total-Weighty alive m.workers pos in
      worker_turn m w.index w.item some_workers w.at (ground (arith, c.over, c.closed, pos)) w.heavy

  pub placed-le : (w : Worker A B) → placed w ≤ alive w
  placed-le w = ground arith

  laden-le : (w : Worker A B) → laden w ≤ alive w
  laden-le w = ground arith

  -- With no worker left and nothing in the channel, what waits is the next result, or nothing.
  no_hole :
      (m : System A B) (i : ℕ) (v : A)
      → ((j : ℕ) → Once j m)
      → Calm m
      → m.pc ≡ gating i v
      → total alive m.workers ≡ 0
      → m.res_ch ≡ []
      → (j : ℕ)
      → same j i + total (result_at j) m.consumer.pending + below m.consumer.next_idx j
        ≡ below m.input_idx j
  no_hole m i v o q h idle empty j = omega (
    arith,
    o j,
    ap (pc_at j) h,
    total-le (worker_at j) alive (worker_at-le j) m.workers,
    idle,
    ap (total (result_at j)) empty,
    total-none (same j) m.lost q.lost,
  )

  pub gate_turn :
      (m : System A B) (i : ℕ) (v : A)
      → 0 < opts.max_pending
      → Counts opts m
      → ((j : ℕ) → Once j m)
      → Calm m
      → m.pc ≡ gating i v
      → total alive m.workers ≡ 0
      → m.res_ch ≡ []
      → lookup m.consumer.next_idx m.consumer.pending ≡ none
      → m.consumer.slots < opts.max_pending
  gate_turn m i v some_pending c o q h idle empty none_there =
      let none_waits =
        nothing_waits m.consumer.next_idx m.input_idx i m.consumer.pending
          (no_hole m i v o q h idle empty) (sym (ap (pc_behind m.input_idx) h) ∙ q.behind)
          (count-lookup m.consumer.next_idx m.consumer.pending none_there) in
      omega (
        arith,
        c.tokens_lost,
        q.lost,
        idle,
        none_waits,
        some_pending,
        total-le laden alive laden-le m.workers,
        ap pc_token h,
        ap length empty,
      )

  pub prepend :
      {m n k : System A B} (st : Step zero_value fn opts m n)
      → quiet st ≡ true
      → (r : Reach zero_value fn opts n k) → undisturbed r ≡ true
      → (s : Reach zero_value fn opts m k) × (undisturbed s ≡ true)
  prepend st h here u = (next here st, h)
  prepend st h (next r s) u =
      let both = and_parts (undisturbed r) (quiet s) u in
      let p = prepend st h r both.0 in (next p.0 s, and_true (undisturbed p.0) (quiet s) p.1 both.1)
