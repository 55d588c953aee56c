-- ===== src/Fanout.antt =====
-- The loop that the services share: every node is asked in turn, a node that fails is logged and
-- its error is collected, and the results of the others come back with errors.Join of the errors.
use redis_admin.Base.{
  ◌+◌, ◌≡◌, refl, ◌↔◌, Bool, false, ◌||◌, Option, none, List, [], ◌∷◌, arith, length,
}
use redis_admin.Errors.{Cause, Err, is, is_any, to_errs, join_errors, Result, ok, err}

abbrev pub cons_result :
    {A : Type 0} → Result A → (Err → Err) → List A × List Err → List A × List Err
cons_result (ok a) label (as', es) = (a ∷ as', es)
cons_result (err e) label (as', es) = (as', label e ∷ es)

-- the errors of the nodes that failed, as errors.Is sees them
abbrev pub fails_with : {N A : Type 0} → Cause → (N → Result A) → List N → Bool
fails_with c fetch [] = false
fails_with c fetch (n ∷ ns) =
    elim (fetch n) [ ok a ↦ false | err e ↦ is c e ] || fails_with c fetch ns

module _ {N A : Type 0} where
  unfoldable pub gather : (N → Err → Err) → (N → Result A) → List N → List A × List Err
  gather label fetch [] = ([], [])
  gather label fetch (n ∷ ns) = cons_result (fetch n) (label n) (gather label fetch ns)

  -- what the callers return: the results and the joined errors
  unfoldable pub fan_out : (N → Err → Err) → (N → Result A) → List N → List A × Option Err
  unfolding gather
  fan_out label fetch ns = let (as', es) = gather label fetch ns in (as', join_errors es)

  -- the results of the nodes that answered, in order
  abbrev pub answered : (N → Result A) → List N → List A
  answered fetch [] = []
  answered fetch (n ∷ ns) = elim (fetch n) [
    | ok a ↦ a ∷ answered fetch ns
    | err e ↦ answered fetch ns
  ]

  pub gather-answered :
      (label : N → Err → Err) (fetch : N → Result A) (ns : List N)
      → (gather label fetch ns).0 ≡ answered fetch ns
  unfolding gather
  gather-answered label fetch [] = refl
  gather-answered label fetch (n ∷ ns) = ground (arith, gather-answered label fetch ns)

  -- No node is lost: each one gives a result or an error.
  pub gather-length :
      (label : N → Err → Err) (fetch : N → Result A) (ns : List N)
      → length (gather label fetch ns).0 + length (gather label fetch ns).1 ≡ length ns
  unfolding gather
  gather-length label fetch [] = omega arith
  gather-length label fetch (n ∷ ns) = ground (arith, gather-length label fetch ns)

  -- There is no error exactly when every node answered.
  pub fan_out_complete :
      (label : N → Err → Err) (fetch : N → Result A) (ns : List N)
      → ((fan_out label fetch ns).1 ≡ none) ↔ (length (answered fetch ns) ≡ length ns)
  unfolding fan_out
  fan_out_complete label fetch ns = (
    λ h. ground (arith, gather-length label fetch ns, gather-answered label fetch ns),
    λ h. ground (arith, gather-length label fetch ns, gather-answered label fetch ns),
  )

module _ {N A : Type 0} (label : N → Err → Err) (fetch : N → Result A) where
  gather_cause :
      (c : Cause)
      → ((n : N) (e : Err) → is c (label n e) ≡ is c e)
      → (ns : List N) → is_any c (to_errs (gather label fetch ns).1) ≡ fails_with c fetch ns
  unfolding gather is
  gather_cause c same [] = refl
  gather_cause c same (n ∷ ns) =
      elim (fetch n)
        as (λ r.
          is_any c (to_errs (cons_result r (label n) (gather label fetch ns)).1)
          ≡ elim r [ ok a ↦ false | err e ↦ is c e ] || fails_with c fetch ns) [
            | ok a ↦ gather_cause c same ns
            | err e ↦ cc (same n e, gather_cause c same ns)
          ]
