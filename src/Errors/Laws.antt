-- ===== src/Errors/Laws.antt =====
-- task_error.go: how `TaskOf`, `CauseOf`, `IsTaskError` and `AllTaskErrors` agree.
use mathlib.Core.Option
use scoped.Base.{
  true, false, ◌≡◌, refl, sym, ap, ◌∙◌, ◌↔◌, Option, none, some, List, [], ◌∷◌, ◌++◌, map,
  append-nil, append_assoc, arith,
}
use scoped.Errors.Values.{
  is_nil, TaskInfo, GoError, GoErrors, PanicValue, nil, eof, canceled, deadline_exceeded, plain,
  wrapped, panic_error, task_error, joined, value, error, no_errors, more, join, from_list,
  drop_nils,
}
use scoped.Errors.Chain.{
  TaskError, as_task_error, as_task_error_value, as_task_error_list, is_task_error, task_of,
  cause_of, collect_task_errors, collect_task_errors_value, collect_task_errors_list,
  all_task_errors, or_else,
}

pub is_nil-nil : (e : GoError) → is_nil e ≡ true → e ≡ nil
is_nil-nil nil h = refl
is_nil-nil e h = cc

abbrev pub first {ℓ} : {A : Type ℓ} → List A → Option A
first [] = none
first (x ∷ xs) = some x

or_else_assoc {ℓ} :
    {A : Type ℓ} (a b c : Option A) → or_else (or_else a b) c ≡ or_else a (or_else b c)
or_else_assoc none b c = refl
or_else_assoc (some x) b c = refl

or_else-none {ℓ} : {A : Type ℓ} (a : Option A) → or_else a none ≡ a
or_else-none none = refl
or_else-none (some x) = refl

first-append {ℓ} :
    {A : Type ℓ} (xs : List A) (x : A) → first (xs ++ x ∷ []) ≡ or_else (first xs) (some x)
first-append [] x = refl
first-append (y ∷ xs) x = refl

-- The walk appends to `out`, so its first element is `out`'s, or else what `errors.As` finds.
mutual
  unfolding collect_task_errors as_task_error

  first-collect :
      (e : GoError) (out : List TaskError)
      → first (collect_task_errors e out) ≡ or_else (first out) (as_task_error e)
  first-collect nil out = sym (or_else-none _)
  first-collect eof out = sym (or_else-none _)
  first-collect canceled out = sym (or_else-none _)
  first-collect deadline_exceeded out = sym (or_else-none _)
  first-collect (plain n) out = sym (or_else-none _)
  first-collect (wrapped n e) out = first-collect e out
  first-collect (panic_error v) out = first-collect_value v out
  first-collect (task_error t e) out = first-append out _
  first-collect (joined es) out = first-collect_list es out

  first-collect_value :
      (v : PanicValue) (out : List TaskError)
      → first (collect_task_errors_value v out) ≡ or_else (first out) (as_task_error_value v)
  first-collect_value (value n) out = sym (or_else-none _)
  first-collect_value (error e) out = first-collect e out

  first-collect_list :
      (es : GoErrors) (out : List TaskError)
      → first (collect_task_errors_list es out) ≡ or_else (first out) (as_task_error_list es)
  first-collect_list no_errors out = sym (or_else-none _)
  first-collect_list (more e es) out =
      first-collect_list es (collect_task_errors e out)
      ∙ ap (λ o. or_else o (as_task_error_list es)) (first-collect e out)
      ∙ or_else_assoc (first out) (as_task_error e) (as_task_error_list es)

first-all : (e : GoError) → first (all_task_errors e) ≡ as_task_error e
unfolding all_task_errors as_task_error
first-all nil = refl
first-all e = first-collect e []

task_of-as : (e : GoError) → task_of e ≡ Option.map (λ te. te.task) (as_task_error e)
unfolding task_of as_task_error
task_of-as nil = refl
task_of-as e = ground arith

-- `TaskOf` answers with the task of the first error that `AllTaskErrors` lists, and with none when
-- the list is empty.
pub task_of-first :
    (e : GoError) → task_of e ≡ Option.map (λ te. te.task) (first (all_task_errors e))
task_of-first e = rw (first-all e) (task_of-as e)

is_task_error-as : (e : GoError) → is_task_error e ≡ false ↔ as_task_error e ≡ none
unfolding is_task_error as_task_error
is_task_error-as nil = (λ _. refl, λ _. refl)
is_task_error-as e = (λ h. ground arith, λ h. ground arith)

first-none : (xs : List TaskError) → first xs ≡ none → xs ≡ []
first-none [] h = refl
first-none (x ∷ xs) h = cc

-- `IsTaskError` is false exactly when `AllTaskErrors` lists nothing.
pub is_task_error-false : (e : GoError) → (is_task_error e ≡ false) ↔ (all_task_errors e ≡ [])
is_task_error-false e = (
  λ h. first-none _ (first-all e ∙ (is_task_error-as e).0 h),
  λ h. (is_task_error-as e).1 (sym (first-all e) ∙ ap first h),
)

cause_of-as :
    (e : GoError) → cause_of e ≡ Option.get_or (Option.map (λ te. te.err) (as_task_error e)) e
unfolding cause_of as_task_error
cause_of-as nil = refl
cause_of-as e = ground arith

-- `CauseOf` is the error wrapped by the first listed `*TaskError`, or the error itself when none
-- is listed.
pub cause_of-first :
    (e : GoError)
    → cause_of e ≡ Option.get_or (Option.map (λ te. te.err) (first (all_task_errors e))) e
cause_of-first e = rw (first-all e) (cause_of-as e)

abbrev pub to_error : TaskError → GoError
to_error te = task_error te.task te.err

drop_nils-task : (tes : List TaskError) → drop_nils (map to_error tes) ≡ map to_error tes
drop_nils-task [] = refl
drop_nils-task (te ∷ tes) = ap (◌∷◌ (to_error te)) (drop_nils-task tes)

collect-from_list :
    (tes out : List TaskError)
    → collect_task_errors_list (from_list (map to_error tes)) out ≡ out ++ tes
unfolding collect_task_errors
collect-from_list [] out = sym (append-nil out)
collect-from_list (te ∷ tes) out =
    collect-from_list tes (out ++ te ∷ []) ∙ append_assoc out (te ∷ []) tes

-- Joining task errors with `errors.Join` and listing them again gives them back, in order.
pub all_task_errors-join : (tes : List TaskError) → all_task_errors (join (map to_error tes)) ≡ tes
unfolding all_task_errors join collect_task_errors
all_task_errors-join [] = refl
all_task_errors-join (te ∷ tes) = rw (drop_nils-task tes) (collect-from_list tes (te ∷ []))

-- Whatever a `*TaskError` wraps, `AllTaskErrors` lists the `*TaskError` alone, also inside a join.
pub all_task_errors_outermost :
    (t : TaskInfo) (e : GoError) (tes : List TaskError)
    → all_task_errors (join (task_error t e ∷ map to_error tes))
      ≡ record { task = t; err = e } ∷ tes
all_task_errors_outermost t e tes = all_task_errors-join (record { task = t; err = e } ∷ tes)
