-- ===== src/Chanx/Tumbling.antt =====
-- chanx/window.go: which values a tumbling window holds.
use scoped.Base.{
  ℕ, ◌<◌, ◌≡◌, refl, sym, ap, ◌∙◌, Bool, true, false, some, List, [], ◌∷◌, ◌++◌, append_assoc,
  append-nil, All, length, arith,
}
use scoped.Chanx.Rounds.{sent, cancelled, Ran}
use scoped.Chanx.Timed.{
  TimedRound, received, tick, input_closed, done, window_tumbling, window, tumbling,
}
use scoped.Chanx.Buffering.{concat}

-- The windows sent hold the values received, in order and each once, none is empty, and what is left
-- of the values is what was not sent yet, or not any more.
pub record IsTumbled {ℓ} {A : Type ℓ} (batch : List A) (r : Ran A (List A)) : Type ℓ where
  pub left : List A
  pub upto : concat r.out ++ left ≡ batch ++ r.taken
  pub sizes : All (λ w. 0 < length w) r.out

module _ {ℓ} {A : Type ℓ} where
  window_tumbling-IsTumbled :
      (batch : List A) (rounds : List (TimedRound A))
      → IsTumbled batch (window_tumbling batch rounds)
  unfolding window_tumbling
  window_tumbling-IsTumbled batch [] = record {
    left = batch;
    upto = sym (append-nil batch);
    sizes = tt;
  }
  window_tumbling-IsTumbled batch (received v now r ∷ rounds) =
      let s = window_tumbling-IsTumbled (batch ++ v ∷ []) rounds in
      record { left = s.left; upto = s.upto ∙ append_assoc batch (v ∷ []) _; sizes = s.sizes }
  window_tumbling-IsTumbled [] (tick now r ∷ rounds) = window_tumbling-IsTumbled [] rounds
  window_tumbling-IsTumbled (x ∷ xs) (tick now sent ∷ rounds) =
      let s = window_tumbling-IsTumbled [] rounds in
      record {
        left = s.left;
        upto = append_assoc (x ∷ xs) _ s.left ∙ ap (λ l. (x ∷ xs) ++ l) s.upto;
        sizes = (omega arith, s.sizes);
      }
  window_tumbling-IsTumbled (x ∷ xs) (tick now cancelled ∷ rounds) = record {
    left = x ∷ xs;
    upto = sym (append-nil (x ∷ xs));
    sizes = tt;
  }
  window_tumbling-IsTumbled [] (input_closed now r ∷ rounds) = record {
    left = [];
    upto = refl;
    sizes = tt;
  }
  window_tumbling-IsTumbled (x ∷ xs) (input_closed now sent ∷ rounds) = record {
    left = [];
    upto = append-nil _;
    sizes = (omega arith, tt);
  }
  window_tumbling-IsTumbled (x ∷ xs) (input_closed now cancelled ∷ rounds) = record {
    left = x ∷ xs;
    upto = sym (append-nil (x ∷ xs));
    sizes = tt;
  }
  window_tumbling-IsTumbled batch (done ∷ rounds) = record {
    left = batch;
    upto = sym (append-nil batch);
    sizes = tt;
  }

  -- Tumbling windows, whatever the selects choose: the windows sent, one after the other, are the
  -- values received but for those of the last window, and none is empty.
  pub window-IsTumbled :
      (rounds : List (TimedRound A)) (duration : ℕ)
      → IsTumbled [] (window (some rounds) duration tumbling)
  unfolding window
  window-IsTumbled rounds duration = window_tumbling-IsTumbled [] rounds

  -- Whether the input is closed, with no cancelled send and the context not done before.
  abbrev pub drained : List (TimedRound A) → Bool
  drained [] = false
  drained (received v now r ∷ rounds) = drained rounds
  drained (tick now sent ∷ rounds) = drained rounds
  drained (tick now cancelled ∷ rounds) = false
  drained (input_closed now sent ∷ rounds) = true
  drained (input_closed now cancelled ∷ rounds) = false
  drained (done ∷ rounds) = false

  -- The values before the end of the input.
  abbrev pub timed_values : List (TimedRound A) → List A
  timed_values [] = []
  timed_values (received v now r ∷ rounds) = v ∷ timed_values rounds
  timed_values (tick now r ∷ rounds) = timed_values rounds
  timed_values (input_closed now r ∷ rounds) = []
  timed_values (done ∷ rounds) = []

  tumbling-concat :
      (batch : List A) (rounds : List (TimedRound A))
      → drained rounds ≡ true
      → concat (window_tumbling batch rounds).out ≡ batch ++ timed_values rounds
  unfolding window_tumbling
  tumbling-concat batch [] h = cc
  tumbling-concat batch (received v now r ∷ rounds) h =
      tumbling-concat (batch ++ v ∷ []) rounds h ∙ append_assoc batch (v ∷ []) (timed_values rounds)
  tumbling-concat [] (tick now sent ∷ rounds) h = tumbling-concat [] rounds h
  tumbling-concat [] (tick now cancelled ∷ rounds) h = cc
  tumbling-concat (x ∷ xs) (tick now sent ∷ rounds) h =
      ap (λ l. (x ∷ xs) ++ l) (tumbling-concat [] rounds h)
  tumbling-concat (x ∷ xs) (tick now cancelled ∷ rounds) h = cc
  tumbling-concat [] (input_closed now sent ∷ rounds) h = refl
  tumbling-concat [] (input_closed now cancelled ∷ rounds) h = refl
  tumbling-concat (x ∷ xs) (input_closed now sent ∷ rounds) h = refl
  tumbling-concat (x ∷ xs) (input_closed now cancelled ∷ rounds) h = cc
  tumbling-concat batch (done ∷ rounds) h = cc

  -- Tumbling windows when no send is cancelled and the input is closed before the context is done:
  -- the windows sent, one after the other, are all the values, each in one window, and none is
  -- empty.
  pub window-concat :
      (rounds : List (TimedRound A)) (duration : ℕ)
      → drained rounds ≡ true
      → (concat (window (some rounds) duration tumbling).out ≡ timed_values rounds)
        × All (λ w. 0 < length w) (window (some rounds) duration tumbling).out
  unfolding window
  window-concat rounds duration h =
      (tumbling-concat [] rounds h, (window_tumbling-IsTumbled [] rounds).sizes)
