-- ===== src/Race.antt =====
-- race.go: the answer of `Race`, for the results in the order in which they arrive.
mod Examples
use scoped.Base.{
  ◌≡◌, refl, Bool, true, false, inl, inr, Bool-cases, not, if◌then◌else◌, List, [], ◌∷◌,
}
use scoped.Errors.{GoError, nil, is_nil}
use scoped.Stream.{Ret}

-- The loop over `ch`. `last_err` is the error seen last, `ctx_err` what `ctx.Err()` gives behind it.
unfoldable pub race_loop {ℓ} : {A : Type ℓ} → A → GoError → List (Ret A) → GoError → Ret A
race_loop zero_value ctx_err [] last_err =
    if not (is_nil ctx_err)
    then record { val = zero_value; err = ctx_err }
    else record { val = zero_value; err = last_err }
race_loop zero_value ctx_err (res ∷ rest) last_err =
    let next = race_loop zero_value ctx_err rest res.err in
    if is_nil res.err then record { val = res.val; err = nil } else next

-- `Race` of the tasks whose results arrive in the given order; with no tasks it does not ask for
-- `ctx.Err()`.
unfoldable pub race {ℓ} : {A : Type ℓ} → A → GoError → List (Ret A) → Ret A
unfolding race_loop
race zero_value ctx_err [] = record { val = zero_value; err = nil }
race zero_value ctx_err (res ∷ rest) = race_loop zero_value ctx_err (res ∷ rest) nil

abbrev pub all_failed {ℓ} : {A : Type ℓ} → List (Ret A) → Bool
all_failed [] = true
all_failed (res ∷ rest) = if is_nil res.err then false else all_failed rest

abbrev pub last_error {ℓ} : {A : Type ℓ} → List (Ret A) → GoError → GoError
last_error [] e = e
last_error (res ∷ rest) e = last_error rest res.err

abbrev pub first_value {ℓ} : {A : Type ℓ} → A → List (Ret A) → A
first_value z [] = z
first_value z (res ∷ rest) = if is_nil res.err then res.val else first_value z rest

loop-result {ℓ} :
    {A : Type ℓ} (z : A) (ctx_err : GoError) (arrivals : List (Ret A)) (last_err : GoError)
    → race_loop z ctx_err arrivals last_err ≡ (
        if all_failed arrivals
        then record {
          val = z;
          err = if is_nil ctx_err then last_error arrivals last_err else ctx_err;
        }
        else record { val = first_value z arrivals; err = nil })
unfolding race_loop
loop-result z ctx_err [] last_err = elim (Bool-cases (is_nil ctx_err)) [
  | inl live ↦ rw live refl
  | inr over ↦ rw over refl
]
loop-result z ctx_err (res ∷ rest) last_err = elim (Bool-cases (is_nil res.err)) [
  | inl good ↦ rw good refl
  | inr bad ↦ rw bad (loop-result z ctx_err rest res.err)
]

-- With tasks, in whatever order their results arrive: if any succeeded, `Race` returns the value of
-- the first success to arrive and no error, also when the context is done. If all failed it returns the zero value with the
-- context's error, or with the error that arrived last when the context has none.
pub race_lem {ℓ} :
    {A : Type ℓ} (z : A) (ctx_err : GoError) (res : Ret A) (rest : List (Ret A))
    → race z ctx_err (res ∷ rest) ≡ (
        if all_failed (res ∷ rest)
        then record {
          val = z;
          err = if is_nil ctx_err then last_error (res ∷ rest) nil else ctx_err;
        }
        else record { val = first_value z (res ∷ rest); err = nil })
unfolding race
race_lem z ctx_err res rest = loop-result z ctx_err (res ∷ rest) nil
