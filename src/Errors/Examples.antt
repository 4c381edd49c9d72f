-- ===== src/Errors/Examples.antt =====
-- The theorems on error chains at a join of two task errors, one of which wraps another.
use scoped.Base.{List, [], ◌∷◌, map, ◌≡◌}
use scoped.Errors.Values.{TaskInfo, GoError, plain, wrapped, task_error, join}
use scoped.Errors.Chain.{TaskError, all_task_errors}
use scoped.Errors.Laws.{all_task_errors-join, all_task_errors_outermost, to_error}

abbrev info : TaskInfo
info = record { name = 1 }

abbrev other : TaskInfo
other = record { name = 2 }

abbrev nested : GoError
nested = task_error info (wrapped 5 (task_error other (plain 3)))

abbrev two : GoError
two = wrapped 4 (join (plain 9 ∷ nested ∷ task_error other (plain 6) ∷ []))

abbrev two_errors : List TaskError
two_errors = record { task = info; err = plain 1 } ∷ record { task = other; err = nested } ∷ []

all_task_errors-join_example : all_task_errors (join (map to_error two_errors)) ≡ two_errors
all_task_errors-join_example = all_task_errors-join two_errors

all_task_errors_outermost_example :
    all_task_errors (join (nested ∷ map to_error two_errors))
    ≡ record { task = info; err = wrapped 5 (task_error other (plain 3)) } ∷ two_errors
all_task_errors_outermost_example =
    all_task_errors_outermost info (wrapped 5 (task_error other (plain 3))) two_errors
