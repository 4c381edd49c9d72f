-- ===== src/Stream/Runs.antt =====
-- What a stream yields: the items that its calls return up to the first error, and that error.
-- `Runs` is said of the closure of a stream and of `Next` alike; `lift` leads from one to the other.
use scoped.Base.{
  ℕ, suc, ◌+◌, ◌≡◌, inl, inr, refl, ap, ◌∙◌, true, false, ◌==◌, Bool-cases, List, [], ◌∷◌,
  if◌then◌else◌, arith, length,
}
use scoped.Errors.{GoError, is_nil, is_eof, join}
use scoped.Stream.Defs.{Step, Stream, Obj, next, ok, fail, set_error, stop_now}

pub data Runs {ℓ κ} {S : Type ℓ} {A : Type κ} (step : Step S A)
    : S → List A → GoError → S → Type (ℓ ⊔ κ) where
  ends :
      {s t : S} {v : A} {e : GoError} → step s ≡ fail v e t → is_nil e ≡ false → Runs step s [] e t
  emits :
      {s t u : S} {v : A} {xs : List A} {e : GoError}
      → step s ≡ ok v t
      → Runs step t xs e u
      → Runs step s (v ∷ xs) e u

module _ {ℓ κ} {S : Type ℓ} {A : Type κ} {step : Step S A} where
  -- A run is unchanged from a state whose first call gives the same.
  pub Runs-first :
      {s s' : S} {xs : List A} {e : GoError} {t : S}
      → step s' ≡ step s
      → Runs step s xs e t
      → Runs step s' xs e t
  Runs-first q (ends h n) = ends (q ∙ h) n
  Runs-first q (emits h r) = emits (q ∙ h) r

  pub Runs-fails : {s t : S} {xs : List A} {e : GoError} → Runs step s xs e t → is_nil e ≡ false
  Runs-fails (ends h n) = n
  Runs-fails (emits h r) = Runs-fails r

-- The errors that an object holds after its last call failed with `e`.
abbrev pub final_err : GoError → GoError → GoError
final_err old e = if is_eof e then old else join (old ∷ e ∷ [])

-- A run of `Next` on the object `o`, and the fields of the object that it leaves.
pub record Drained {ℓ κ} {S : Type ℓ} {A : Type κ} (s : Stream S A) (f : ℕ) (o : Obj S)
    (xs : List A) (e : GoError) (i : S) : Type (ℓ ⊔ κ) where
  pub final : Obj S
  pub runs : Runs (next s f) o xs e final
  pub inner : final.inner ≡ i
  pub kept : final.err ≡ final_err o.err e
  pub counted : final.items_read ≡ o.items_read + length xs
  pub errors : final.err_count ≡ (if is_eof e then o.err_count else suc o.err_count)
  pub unstopped : final.stopped ≡ o.stopped

module _ {ℓ κ} {S : Type ℓ} {A : Type κ} (s : Stream S A) (f : ℕ) where
  abbrev started : Obj S → ℕ
  started o = if o.start_nano == 0 then s.clock o.readings else o.start_nano

  -- The object after a call that failed with `e`, and after one that gave an item.
  abbrev failed : Obj S → GoError → S → Obj S
  failed o e t = record o {
    inner = t;
    err = final_err o.err e;
    err_count = if is_eof e then o.err_count else suc o.err_count;
    start_nano = started o;
    readings = suc o.readings;
  }

  abbrev passed : Obj S → S → Obj S
  passed o t = record o {
    inner = t;
    items_read = suc o.items_read;
    start_nano = started o;
    last_read = s.clock (suc o.readings);
    readings = suc (suc o.readings);
  }

  next_fails :
      {t : S} {v : A} {e : GoError} (o : Obj S)
      → s.next f o.inner ≡ fail v e t
      → is_nil e ≡ false
      → next s f o ≡ fail v e (failed o e t)
  unfolding next set_error
  next_fails {e = e} o h n = elim (Bool-cases (is_eof e)) [
    | inl is ↦ rw (h, next) (rw n (rw is refl))
    | inr isnt ↦ rw (h, next) (rw n (rw isnt refl))
  ]

  next_gives :
      {t : S} {v : A} (o : Obj S) → s.next f o.inner ≡ ok v t → next s f o ≡ ok v (passed o t)
  unfolding next
  next_gives o h = rw (h, next)

  -- `Next` on any object whose closure runs: the same items and error, with the counters and the
  -- kept error brought up to date.
  pub lift :
      {i t : S} {xs : List A} {e : GoError} (o : Obj S)
      → o.inner ≡ i
      → Runs (s.next f) i xs e t
      → Drained s f o xs e t
  lift {t = t} {e = e} o q (ends h n) = record {
    final = failed o e t;
    runs = ends (next_fails o (ap (s.next f) q ∙ h) n) n;
    inner = refl;
    kept = refl;
    counted = omega arith;
    errors = refl;
    unstopped = refl;
  }
  lift o q (emits {t = t} h r) =
      let d = lift (passed o t) refl r in
      record {
        final = d.final;
        runs = emits (next_gives o (ap (s.next f) q ∙ h)) d.runs;
        inner = d.inner;
        kept = d.kept;
        counted = omega (arith, d.counted);
        errors = d.errors;
        unstopped = d.unstopped;
      }

-- After `Stop` the object is stopped, whatever its stop function does.
pub stop_now-stopped {ℓ κ} :
    {S : Type ℓ} {A : Type κ} (s : Stream S A) (o : Obj S) → (stop_now s o).stopped ≡ true
unfolding stop_now
stop_now-stopped s o = ground arith
