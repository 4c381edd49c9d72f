-- ===== src/Race/Examples.antt =====
-- The theorem on `Race` at three results, the second of which is a success.
use scoped.Base.{ℕ, ◌≡◌, [], ◌∷◌}
use scoped.Errors.{nil, plain, canceled}
use scoped.Stream.{Ret}
use scoped.Race.{race, race_lem}

abbrev lost : Ret ℕ
lost = record { val = 0; err = plain 4 }

abbrev won : Ret ℕ
won = record { val = 7; err = nil }

race_lem_example : race 0 canceled (lost ∷ won ∷ lost ∷ []) ≡ record { val = 7; err = nil }
race_lem_example = race_lem 0 canceled lost (won ∷ lost ∷ [])
