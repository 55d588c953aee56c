-- ===== src/Errors.antt =====
-- Go's error values: the typed errors of internal/sentinel/errors.go, those of the package
-- `context`, and the trees that fmt.Errorf with %w and errors.Join build from them.
use redis_admin.Base.{Bool, true, false, ◌||◌, Option, none, some, List, [], ◌∷◌, Str}

-- what errors.Is is asked for
pub data Cause : Type 0 where
  no_master quorum_not_met node_unreachable flapping deadline_exceeded canceled : Cause

abbrev pub same_cause : Cause → Cause → Bool
same_cause no_master no_master = true
same_cause quorum_not_met quorum_not_met = true
same_cause node_unreachable node_unreachable = true
same_cause flapping flapping = true
same_cause deadline_exceeded deadline_exceeded = true
same_cause canceled canceled = true
same_cause _ _ = false

mutual
  pub data Err : Type 0 where
    typed : Cause → Err
    other : Str → Err
    wrap : Str → Err → Err
    join : Errs → Err

  pub data Errs : Type 0 where
    nil : Errs
    cons : Err → Errs → Errs

-- errors.Is(err, cause)
unfoldable mutual
  pub is : Cause → Err → Bool
  is c (typed d) = same_cause c d
  is c (other s) = false
  is c (wrap s e) = is c e
  is c (join es) = is_any c es

  pub is_any : Cause → Errs → Bool
  is_any c nil = false
  is_any c (cons e es) = is c e || is_any c es

abbrev pub to_errs : List Err → Errs
to_errs [] = nil
to_errs (e ∷ es) = cons e (to_errs es)

-- errors.Join(errs...), which is nil for no error
abbrev pub join_errors : List Err → Option Err
join_errors [] = none
join_errors (e ∷ es) = some (join (cons e (to_errs es)))

-- a value or an error
pub data Result {ℓ} (A : Type ℓ) : Type ℓ where
  ok : A → Result A
  err : Err → Result A

-- `v, _ := f()`: the zero value where there is an error
abbrev pub value_or {ℓ} : {A : Type ℓ} → A → Result A → A
value_or z (ok a) = a
value_or z (err e) = z

abbrev pub is_ok {ℓ} : {A : Type ℓ} → Result A → Bool
is_ok (ok a) = true
is_ok (err e) = false
