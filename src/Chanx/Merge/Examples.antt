-- ===== src/Chanx/Merge/Examples.antt =====
-- The theorems on `Merge` at two inputs and a nil one between them.
use scoped.Base.{ℕ, ◌≡◌, refl, true, false, Option, none, some, List, [], ◌∷◌, map}
use scoped.Chanx.Merge.System.{
  Input, System, init, forwarders_of, recv, recv_closed, send, forward, close_out, Reach, here,
  next,
}
use scoped.Chanx.Merge.Forwarding.{whole}
use scoped.Chanx.Merge.Interleaving.{IsInterleaved, sent_of, merge-IsInterleaved, merge_complete}

abbrev inputs : List (Option (Input ℕ))
inputs =
    some (record { coming = 1 ∷ 2 ∷ []; ends = true })
    ∷ none
    ∷ some (record { coming = 9 ∷ []; ends = true })
    ∷ []

abbrev merging : (m : System ℕ) × Reach (init inputs) m
unfolding forwarders_of
merging = (
  _,
  next
      (next (next (next here (forward 0 refl (recv refl refl))) (forward 1 refl (recv refl refl)))
        (forward 1 refl (send refl refl)))
      (forward 0 refl (send refl refl)),
)

abbrev merged : (m : System ℕ) × Reach (init inputs) m
unfolding forwarders_of merging
merged = (
  _,
  next
      (next
        (next
          (next (next merging.1 (forward 0 refl (recv refl refl)))
            (forward 0 refl (send refl refl)))
          (forward 0 refl (recv_closed refl refl refl)))
        (forward 1 refl (recv_closed refl refl refl)))
      (close_out refl refl),
)

merge-IsInterleaved_example :
    (merging.0.panicked ≡ false)
    × IsInterleaved (map sent_of merging.0.forwarders) merging.0.out
    × (map whole merging.0.forwarders ≡ (1 ∷ 2 ∷ []) ∷ (9 ∷ []) ∷ [])
merge-IsInterleaved_example = merge-IsInterleaved inputs merging.0 merging.1

merge_complete_example : IsInterleaved {T = ℕ} ((1 ∷ 2 ∷ []) ∷ (9 ∷ []) ∷ []) (9 ∷ 1 ∷ 2 ∷ [])
unfolding merging merged
merge_complete_example = merge_complete inputs merged.0 merged.1 refl refl
