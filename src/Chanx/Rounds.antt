-- ===== src/Chanx/Rounds.antt =====
-- chanx: a goroutine between an input and an output channel, by what its selects chose.
--
-- A list of rounds gives, for each round of the goroutine's loop that came to its end, which case of
-- the outer select was taken and, where a send follows, whether the send or `ctx.Done()` was chosen.
-- The reply is not looked at in a round that sends nothing. Behind the last round the goroutine
-- waits.
use scoped.Base.{
  ◌≤◌, ◌≡◌, Bool, true, false, Option, none, some, List, [], ◌∷◌, ◌++◌, length, refl, sym, ap, ◌∙◌,
  if◌then◌else◌, arith,
}

pub data Reply : Type 0 where
  sent cancelled : Reply

pub data Round {ℓ} (A : Type ℓ) : Type ℓ where
  received : A → Reply → Round A
  input_closed : Round A
  done : Round A

-- What came of it: the values received from the input, those sent to the output, and whether the
-- goroutine returned, by which it closes the output.
pub record Ran {ℓ κ} (A : Type ℓ) (B : Type κ) : Type (ℓ ⊔ κ) where
  pub taken : List A
  pub out : List B
  pub ended : Bool

module _ {ℓ κ} {A : Type ℓ} {B : Type κ} where
  abbrev pub waiting : Ran A B
  waiting = record { taken = []; out = []; ended = false }

  abbrev pub finished : Ran A B
  finished = record { taken = []; out = []; ended = true }

  abbrev pub take_in : A → Ran A B → Ran A B
  take_in v r = record r { taken = v ∷ r.taken }

  abbrev pub send_out : B → Ran A B → Ran A B
  send_out u r = record r { out = u ∷ r.out }

  -- A nil input gives a closed output at once.
  unfoldable pub on_input : (List (Round A) → Ran A B) → Option (List (Round A)) → Ran A B
  on_input loop none = finished
  on_input loop (some rounds) = loop rounds

module _ {ℓ} {A : Type ℓ} where
  -- The values before the first round in which the loop ends, when no send is cancelled.
  abbrev pub values : List (Round A) → List A
  values [] = []
  values (received v r ∷ rounds) = v ∷ values rounds
  values (input_closed ∷ rounds) = []
  values (done ∷ rounds) = []

  -- Whether some round ends the loop.
  abbrev pub closes : List (Round A) → Bool
  closes [] = false
  closes (received v r ∷ rounds) = closes rounds
  closes (input_closed ∷ rounds) = true
  closes (done ∷ rounds) = true

  -- Whether every send is chosen.
  abbrev pub uncancelled : List (Round A) → Bool
  uncancelled [] = true
  uncancelled (received v sent ∷ rounds) = uncancelled rounds
  uncancelled (received v cancelled ∷ rounds) = false
  uncancelled (input_closed ∷ rounds) = true
  uncancelled (done ∷ rounds) = true

-- What was sent is what the specification makes of the values received, but for the last of it when
-- its send was cancelled, by which the loop ended.
pub record IsStage {ℓ κ} {A : Type ℓ} {B : Type κ} (f : List A → List B) (r : Ran A B)
    : Type κ where
  pub lost : List B
  pub upto : r.out ++ lost ≡ f r.taken
  pub few : length lost ≤ (if r.ended then 1 else 0)

module _ {ℓ κ} {A : Type ℓ} {B : Type κ} (f : List A → List B) where
  pub stop-IsStage : (b : Bool) → f [] ≡ [] → IsStage f (record { taken = []; out = []; ended = b })
  stop-IsStage b h = record { lost = []; upto = sym h; few = ground arith }

  pub send-IsStage :
      (g : List A → List B) (v : A) (u : B) (r : Ran A B)
      → ((xs : List A) → f (v ∷ xs) ≡ u ∷ g xs)
      → IsStage g r
      → IsStage f (take_in v (send_out u r))
  send-IsStage g v u r h s = record {
    lost = s.lost;
    upto = ap (λ l. u ∷ l) s.upto ∙ sym (h r.taken);
    few = s.few;
  }

  pub drop-IsStage :
      (g : List A → List B) (v : A) (r : Ran A B)
      → ((xs : List A) → f (v ∷ xs) ≡ g xs)
      → IsStage g r
      → IsStage f (take_in v r)
  drop-IsStage g v r h s = record { lost = s.lost; upto = s.upto ∙ sym (h r.taken); few = s.few }

  pub lose-IsStage : (v : A) (u : B) → f (v ∷ []) ≡ u ∷ [] → IsStage f (take_in v finished)
  lose-IsStage v u h = record { lost = u ∷ []; upto = sym h; few = omega arith }

-- A loop that received all values of the rounds and sent what the specification makes of them.
pub record IsLive {ℓ κ} {A : Type ℓ} {B : Type κ} (f : List A → List B) (xs : List A) (b : Bool)
    (r : Ran A B) : Type (ℓ ⊔ κ) where
  pub taken : r.taken ≡ xs
  pub out : r.out ≡ f xs
  pub ended : r.ended ≡ b

module _ {ℓ κ} {A : Type ℓ} {B : Type κ} (f : List A → List B) (b : Bool) where
  pub stop-IsLive : f [] ≡ [] → IsLive f [] b (record { taken = []; out = []; ended = b })
  stop-IsLive h = record { taken = refl; out = sym h; ended = refl }

  pub send-IsLive :
      (g : List A → List B) (v : A) (u : B) (xs : List A) (r : Ran A B)
      → f (v ∷ xs) ≡ u ∷ g xs
      → IsLive g xs b r
      → IsLive f (v ∷ xs) b (take_in v (send_out u r))
  send-IsLive g v u xs r h s = record {
    taken = ap (λ l. v ∷ l) s.taken;
    out = ap (λ l. u ∷ l) s.out ∙ sym h;
    ended = s.ended;
  }

  pub drop-IsLive :
      (g : List A → List B) (v : A) (xs : List A) (r : Ran A B)
      → f (v ∷ xs) ≡ g xs
      → IsLive g xs b r
      → IsLive f (v ∷ xs) b (take_in v r)
  drop-IsLive g v xs r h s = record {
    taken = ap (λ l. v ∷ l) s.taken;
    out = s.out ∙ sym h;
    ended = s.ended;
  }
