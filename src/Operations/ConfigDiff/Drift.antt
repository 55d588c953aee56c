-- ===== src/Operations/ConfigDiff/Drift.antt =====
-- When a key is reported as drifted.
use redis_admin.Base.{
  ◌≡◌, refl, ap, ◌∙◌, ◌↔◌, Bool, true, false, not, ◌||◌, ◌&&◌, none, some, List, [], ◌∷◌, arith,
  Str, is_empty, eq_str, eq_str_iff, All,
}
use redis_admin.Operations.ConfigDiff.{NodeConfigValue, drift_from, drifts, diff_of}

all_equal : Str → List NodeConfigValue → Bool
all_equal x [] = true
all_equal x (v ∷ vs) = eq_str v.value x && all_equal x vs

drift_from-all_equal :
    (x : Str) (drift : Bool) (vs : List NodeConfigValue)
    → is_empty x ≡ false
    → drift_from x drift vs ≡ (drift || not (all_equal x vs))
unfolding drift_from all_equal
drift_from-all_equal x drift [] h = ground arith
drift_from-all_equal x drift (v ∷ vs) h =
    rw h (drift_from-all_equal x (drift || not (eq_str v.value x)) vs h ∙ ground arith)

-- every two entries have the same value
abbrev pub Uniform : List NodeConfigValue → Type 0
Uniform vs = All (λ v. All (λ w. v.value ≡ w.value) vs) vs

abbrev pub NonEmpty : NodeConfigValue → Type 0
NonEmpty v = is_empty v.value ≡ false

all_equal-All :
    (x : Str) (vs : List NodeConfigValue) → all_equal x vs ≡ true → All (λ w. w.value ≡ x) vs
unfolding all_equal
all_equal-All x [] h = tt
all_equal-All x (v ∷ vs) h =
    (ground (arith, eq_str_iff v.value x), all_equal-All x vs (ground arith))

All-all_equal :
    (x : Str) (vs : List NodeConfigValue) → All (λ w. x ≡ w.value) vs → all_equal x vs ≡ true
unfolding all_equal
All-all_equal x [] h = refl
All-all_equal x (v ∷ vs) h = ground (arith, eq_str_iff v.value x, All-all_equal x vs h.1)

All-transport :
    (x y : Str) (vs : List NodeConfigValue)
    → y ≡ x
    → All (λ w. w.value ≡ x) vs
    → All (λ w. y ≡ w.value) vs
All-transport x y [] e h = tt
All-transport x y (v ∷ vs) e h = (cc (e, h.0), All-transport x y vs e h.1)

All-pairs :
    (x : Str) (us vs : List NodeConfigValue)
    → All (λ w. w.value ≡ x) us
    → All (λ w. w.value ≡ x) vs
    → All (λ v. All (λ w. v.value ≡ w.value) vs) us
All-pairs x [] vs h k = tt
All-pairs x (u ∷ us) vs h k = (All-transport x u.value vs h.0 k, All-pairs x us vs h.1 k)

drifts-all_equal :
    (v : NodeConfigValue) (vs : List NodeConfigValue)
    → NonEmpty v
    → drifts (v ∷ vs) ≡ not (all_equal v.value vs)
unfolding drifts
drifts-all_equal v vs h = drift_from-all_equal v.value false vs h

-- Where no node has the empty value, the loop finds drift exactly when two nodes disagree, in
-- whatever order it meets them.
pub drifts-Uniform :
    (vs : List NodeConfigValue) → All NonEmpty vs → (drifts vs ≡ false) ↔ Uniform vs
drifts-Uniform [] h = (λ e. tt, λ u. unfold drifts in refl)
drifts-Uniform (v ∷ vs) h = (
  λ e.
      let same = all_equal-All v.value vs (ground (arith, drifts-all_equal v vs h.0)) in
      All-pairs v.value (v ∷ vs) (v ∷ vs) (refl, same) (refl, same),
  λ u. drifts-all_equal v vs h.0 ∙ ap not (All-all_equal v.value vs u.0.1),
)

-- A key that is empty on one of two nodes and not on the other is reported or left out by the order
-- in which Go happens to iterate over the two: an empty value that is met first is forgotten.
pub diff_of_empty :
    (key x : Str) (a b : Str)
    → is_empty x ≡ false
    → let unset : NodeConfigValue = record { node_addr = a; value = [] } in
      let set : NodeConfigValue = record { node_addr = b; value = x } in
      (diff_of key (unset ∷ set ∷ []) ≡ none)
      × (diff_of key (set ∷ unset ∷ [])
          ≡ some (record { key = key; values = set ∷ unset ∷ []; is_drift = true }))
unfolding diff_of
diff_of_empty key [] a b h = absurd (cc)
diff_of_empty key (c ∷ x) a b h = (refl, refl)
