-- ===== src/Stream/Examples.antt =====
-- The stream theorems at a slice of five numbers and its combinators.
use scoped.Base.{ℕ, ◌+◌, ◌≡◌, refl, Bool, ltb, ◌==◌, List, [], ◌∷◌, arith, some, if◌then◌else◌}
use scoped.Errors.{GoError, nil, eof, plain}
use scoped.Stream.Defs.{Ret, Stream, Obj, new, stop_now}
use scoped.Stream.Runs.{Runs, Drained, lift}
use scoped.Stream.Sources.{Cursor, from_slice, from_slice_next}
use scoped.Stream.Sourcing.{from_slice_whole}
use scoped.Stream.Consumers.{to_slice}
use scoped.Stream.Draining.{to_slice_lem, end_err}
use scoped.Stream.Combinators.{filter}
use scoped.Stream.Yielding.{filter-Runs}
use scoped.Stream.Grouping.{Pair}
use scoped.Stream.Batching.{Batched, batch-Runs}

abbrev clock : ℕ → ℕ
clock n = n

abbrev items : List ℕ
items = 3 ∷ 1 ∷ 4 ∷ 1 ∷ 5 ∷ []

abbrev numbers : Stream (Cursor ℕ) ℕ
numbers = from_slice 0 clock

abbrev fuel : ℕ
fuel = 9

abbrev cursor : Cursor ℕ
cursor = record { items = items; idx = 0; polls = [] }

abbrev source : Obj (Cursor ℕ)
source = new cursor

abbrev above_one : ℕ → Bool
above_one n = ltb 1 n

closure-Runs : Runs (numbers.next fuel) cursor items eof (from_slice_whole 0 items 0 items refl).0
unfolding from_slice
closure-Runs = (from_slice_whole 0 items 0 items refl).1

abbrev drained : Drained numbers fuel source items eof (from_slice_whole 0 items 0 items refl).0
drained = lift numbers fuel source refl closure-Runs

to_slice_lem_example :
    to_slice numbers fuel 6 source
    ≡ some (items, end_err eof drained.final, stop_now numbers drained.final)
to_slice_lem_example = to_slice_lem numbers fuel drained.runs 6 (omega arith)

abbrev refuse_four : ℕ → GoError
refuse_four n = if n == 4 then plain 7 else nil

filter-Runs_example :
    Runs ((filter numbers above_one).next fuel) source (3 ∷ 4 ∷ 5 ∷ []) eof drained.final
filter-Runs_example = filter-Runs numbers fuel above_one drained.runs (omega arith)

abbrev halve_to_four : ℕ → Ret ℕ
halve_to_four n =
    if n == 4 then record { val = 0; err = plain 7 } else record { val = n + n; err = nil }

abbrev no_pair : Pair ℕ ℕ
no_pair = record { first = 0; second = 0 }

abbrev final_cursor : Cursor ℕ
final_cursor = (from_slice_whole 0 items 0 items refl).0

again-Runs : Runs (numbers.next fuel) final_cursor [] eof final_cursor
unfolding from_slice
again-Runs = (from_slice_whole 0 items 0 items refl).2

abbrev drained_again : Drained numbers fuel drained.final [] eof final_cursor
drained_again = lift numbers fuel drained.final drained.inner again-Runs

batch-Runs_example : Batched numbers fuel 2 source items
batch-Runs_example = batch-Runs numbers fuel 2 (omega arith) drained.runs drained_again.runs

from_slice_whole_example :
    (t : Cursor ℕ) × Runs (from_slice_next 0) cursor items eof t
    × Runs (from_slice_next 0) t [] eof t
from_slice_whole_example = from_slice_whole 0 items 0 items refl
