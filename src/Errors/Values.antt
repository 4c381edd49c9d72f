-- ===== src/Errors/Values.antt =====
-- Go's `error` interface over the error types that the package creates or meets.
use scoped.Base.{ℕ, Bool, true, false, List, [], ◌∷◌}

-- options.go, `TaskInfo`. A name is a number.
pub record TaskInfo : Type 0 where
  pub name : ℕ

-- `nil` is the nil interface. `plain` has no `Unwrap`, `wrapped` has `Unwrap() error`, and `joined`
-- (of `errors.Join`) has `Unwrap() []error`. A `*PanicError` holds any value, its stack left out.
mutual
  pub data GoError : Type 0 where
    nil : GoError
    eof : GoError
    canceled : GoError
    deadline_exceeded : GoError
    plain : ℕ → GoError
    wrapped : ℕ → GoError → GoError
    panic_error : PanicValue → GoError
    task_error : TaskInfo → GoError → GoError
    joined : GoErrors → GoError

  -- The argument of `panic`: an error, or any other value.
  pub data PanicValue : Type 0 where
    value : ℕ → PanicValue
    error : GoError → PanicValue

  pub data GoErrors : Type 0 where
    no_errors : GoErrors
    more : GoError → GoErrors → GoErrors

-- `err == nil`
abbrev pub is_nil : GoError → Bool
is_nil nil = true
is_nil _ = false

-- `err == io.EOF`
abbrev pub is_eof : GoError → Bool
is_eof eof = true
is_eof _ = false

abbrev pub from_list : List GoError → GoErrors
from_list [] = no_errors
from_list (e ∷ es) = more e (from_list es)

-- `(*PanicError).Unwrap`
unfoldable pub unwrap_panic : PanicValue → GoError
unwrap_panic (value n) = nil
unwrap_panic (error e) = e

abbrev pub drop_nils : List GoError → List GoError
drop_nils [] = []
drop_nils (nil ∷ es) = drop_nils es
drop_nils (e ∷ es) = e ∷ drop_nils es

abbrev join_all : List GoError → GoError
join_all [] = nil
join_all es = joined (from_list es)

-- `errors.Join`: nil errors are discarded, and with none left the result is nil.
unfoldable pub join : List GoError → GoError
join es = join_all (drop_nils es)
