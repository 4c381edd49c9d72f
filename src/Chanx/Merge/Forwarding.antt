-- ===== src/Chanx/Merge/Forwarding.antt =====
-- chanx/merge.go, `Merge`: what a step of a goroutine does.
use scoped.Base.{
  append_assoc, if◌then◌else◌, ◌==◌, ℕ, zero, suc, ◌+◌, ◌≤◌, ◌≡◌, refl, ◌∙◌, sym, ap, true, some,
  List, [], ◌∷◌, ◌++◌, arith, length, map, get_elem?, set,
}
use scoped.Errors.{is_nil}
use scoped.Chanx.Merge.System.{
  Pc, sending, returned, gave_up, Forwarder, System, Forward, recv, recv_closed, done_receiving,
  send, send_closed, done_sending,
}

module _ {ℓ κ} {A : Type ℓ} {B : Type κ} (g : A → B) where
  pub map-set : (xs : List A) (i : ℕ) (y : A) → map g (set xs i y) ≡ set (map g xs) i (g y)
  map-set [] i y = refl
  map-set (x ∷ xs) zero y = refl
  map-set (x ∷ xs) (suc i) y = ap (λ l. g x ∷ l) (map-set xs i y)

  pub get-map :
      (xs : List A) (i : ℕ) (x : A) → get_elem? xs i ≡ some x → get_elem? (map g xs) i ≡ some (g x)
  get-map [] i x h = cc
  get-map (y ∷ xs) zero x h = cc
  get-map (y ∷ xs) (suc i) x h = get-map xs i x h

  pub map-set_same :
      (xs : List A) (i : ℕ) (x y : A)
      → get_elem? xs i ≡ some x
      → g y ≡ g x
      → map g (set xs i y) ≡ map g xs
  map-set_same [] i x y h q = refl
  map-set_same (z ∷ xs) zero x y h q = cc
  map-set_same (z ∷ xs) (suc i) x y h q = ap (λ l. g z ∷ l) (map-set_same xs i x y h q)

module _ {ℓ} {T : Type ℓ} where
  abbrev pub pc_items : Pc T → List T
  pc_items (sending v) = v ∷ []
  pc_items (gave_up v) = v ∷ []
  pc_items _ = []

  -- Every value that an input has or had.
  abbrev pub whole : Forwarder T → List T
  whole f = f.forwarded ++ (pc_items f.pc ++ f.input.coming)

  abbrev pub alive_at : Pc T → ℕ
  alive_at returned = 0
  alive_at (gave_up v) = 0
  alive_at _ = 1

  abbrev pub lossy_at : Pc T → ℕ
  lossy_at (gave_up v) = 1
  lossy_at _ = 0

  abbrev pub alive : Forwarder T → ℕ
  alive f = alive_at f.pc

  -- Without the end of the context nothing is given up, and no goroutine returns before its input
  -- is closed.
  abbrev pub IsThrough : Forwarder T → Type 0
  IsThrough f = (lossy_at f.pc ≡ 0) × ((if alive f == 0 then length f.input.coming else 0) ≡ 0)

  -- What a goroutine's step does to its counts and to the output.
  pub record Forwarded (m : System T) (f : Forwarder T) (n : System T) (f' : Forwarder T)
      : Type ℓ where
    pub wg : n.wg + alive f ≡ m.wg + alive f'
    pub fewer : alive f' ≤ alive f
    pub closed : n.out_closed ≡ m.out_closed
    pub safe : n.panicked ≡ m.panicked
    pub whole : whole f' ≡ whole f
    pub through : is_nil m.ctx_err ≡ true → IsThrough f → IsThrough f'

  pub Forward-Forwarded :
      (m n : System T) (f f' : Forwarder T)
      → Forward m f n f'
      → alive f ≤ m.wg
      → (if m.out_closed then m.wg else 0) ≡ 0
      → Forwarded m f n f'
  Forward-Forwarded m n f f' (recv h q) le c = record {
    wg = ground arith;
    fewer = ground arith;
    closed = refl;
    safe = refl;
    whole = ap (λ l. f.forwarded ++ l) (sym q ∙ ap (λ x. pc_items x ++ f.input.coming) (sym h));
    through = λ calm t. (refl, ground arith);
  }
  Forward-Forwarded m n f f' (recv_closed h q e) le c = record {
    wg = ground arith;
    fewer = ground arith;
    closed = refl;
    safe = refl;
    whole = ap (λ x. f.forwarded ++ (pc_items x ++ f.input.coming)) (sym h);
    through = λ calm t. (refl, ground (arith, q));
  }
  Forward-Forwarded m n f f' (done_receiving h q) le c = record {
    wg = ground arith;
    fewer = ground arith;
    closed = refl;
    safe = refl;
    whole = ap (λ x. f.forwarded ++ (pc_items x ++ f.input.coming)) (sym h);
    through = λ calm t. absurd (ground (arith, calm, q));
  }
  Forward-Forwarded m n f f' (send {v} h q) le c = record {
    wg = ground arith;
    fewer = ground arith;
    closed = refl;
    safe = refl;
    whole =
        append_assoc f.forwarded (v ∷ []) f.input.coming
        ∙ ap (λ x. f.forwarded ++ (pc_items x ++ f.input.coming)) (sym h);
    through = λ calm t. (refl, ground arith);
  }
  Forward-Forwarded m n f f' (send_closed h q) le c = absurd (ground (arith, c, le, h, q))
  Forward-Forwarded m n f f' (done_sending h q) le c = record {
    wg = ground arith;
    fewer = ground arith;
    closed = refl;
    safe = refl;
    whole = ap (λ x. f.forwarded ++ (pc_items x ++ f.input.coming)) (sym h);
    through = λ calm t. absurd (ground (arith, calm, q));
  }
