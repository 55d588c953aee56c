-- ===== src/Keys/Scanner/Sums.antt =====
-- The sums of a namespace against a description by all of its keys.
use mathlib.Core.Path.{subst}
use redis_admin.Base.{
  append-nil, append_assoc, ◌≡◌, refl, ap, sym, ◌∙◌, ◌⊎◌, inl, inr, Option, none, some, List, [],
  ◌∷◌, ◌++◌, arith, Str, ℤ, pos, lt_int, add64, length, length-append, All, All-append, Bool-cases,
}
use redis_admin.Order.{◌≤ℤ◌, ≤ℤ_trans}
use redis_admin.Tally.{entry_with}
use redis_admin.Keys.Scanner.{KeyReport, NamespaceStat, with_key, higher}

-- the sizes added one after the other, as int64
abbrev pub sum_from : ℤ → List KeyReport → ℤ
sum_from total [] = total
sum_from total (k ∷ ks) = sum_from (add64 total k.size_bytes) ks

-- some key has this size
abbrev pub Attained : ℤ → List KeyReport → Type 0
Attained n [] = ⊥
Attained n (k ∷ ks) = (k.size_bytes ≡ n) ⊎ Attained n ks

-- What the sums of the namespace `ns` say of its keys `ks`: there is no entry where there is no key, and
-- otherwise the number of the keys, the sum of their sizes and the highest of them, not below 0.
pub data Sums (ns : Str) (ks : List KeyReport) (o : Option NamespaceStat) : Type 0 where
  no_key : ks ≡ [] → o ≡ none → Sums ns ks o
  some_keys :
      (st : NamespaceStat)
      → o ≡ some st
      → st.namespace ≡ ns
      → st.key_count ≡ length ks
      → st.total_bytes ≡ sum_from (pos 0) ks
      → All (λ k. ◌≤ℤ◌ k.size_bytes st.max_bytes) ks
      → (st.max_bytes ≡ pos 0) ⊎ Attained st.max_bytes ks
      → Sums ns ks o

sum_from-append :
    (total : ℤ) (ks : List KeyReport) (k : KeyReport)
    → sum_from total (ks ++ k ∷ []) ≡ add64 (sum_from total ks) k.size_bytes
sum_from-append total [] k = refl
sum_from-append total (x ∷ ks) k = sum_from-append (add64 total x.size_bytes) ks k

Attained-append :
    (n : ℤ) (ks : List KeyReport) (k : KeyReport)
    → Attained n ks ⊎ (k.size_bytes ≡ n)
    → Attained n (ks ++ k ∷ [])
Attained-append n [] k (inl h) = elim h [ ]
Attained-append n [] k (inr h) = inl h
Attained-append n (x ∷ ks) k (inl (inl h)) = inl h
Attained-append n (x ∷ ks) k (inl (inr h)) = inr (Attained-append n ks k (inl h))
Attained-append n (x ∷ ks) k (inr h) = inr (Attained-append n ks k (inr h))

-- the higher of two sizes is not below either, and is one of them
higher_lem :
    (new old : ℤ)
    → ◌≤ℤ◌ new (higher new old)
      × ◌≤ℤ◌ old (higher new old)
      × ((higher new old ≡ new) ⊎ (higher new old ≡ old))
higher_lem new old = elim (Bool-cases (lt_int old new)) [
  | inl h ↦ rw h (ground arith, ground arith, inl refl)
  | inr h ↦ rw h (ground arith, ground arith, inr refl)
]

first-Sums :
    (ns : Str) (k : KeyReport) → k.namespace ≡ ns → Sums ns (k ∷ []) (some (with_key k none))
unfolding with_key
first-Sums ns k named_so =
    let (above, _, one_of) = higher_lem k.size_bytes (pos 0) in
    some_keys (with_key k none) refl named_so refl refl (above, tt)
      (elim one_of [ inl e ↦ inr (inl (sym e)) | inr e ↦ inl e ])

All-higher :
    (a b : ℤ) (ks : List KeyReport)
    → ◌≤ℤ◌ a b
    → All (λ k. ◌≤ℤ◌ k.size_bytes a) ks
    → All (λ k. ◌≤ℤ◌ k.size_bytes b) ks
All-higher a b [] le h = tt
All-higher a b (k ∷ ks) le h = (≤ℤ_trans k.size_bytes a b h.0 le, All-higher a b ks le h.1)

next-Sums :
    (ns : Str) (ks : List KeyReport) (st : NamespaceStat) (k : KeyReport)
    → st.namespace ≡ ns
    → st.key_count ≡ length ks
    → st.total_bytes ≡ sum_from (pos 0) ks
    → All (λ k. ◌≤ℤ◌ k.size_bytes st.max_bytes) ks
    → (st.max_bytes ≡ pos 0) ⊎ Attained st.max_bytes ks
    → Sums ns (ks ++ k ∷ []) (some (with_key k (some st)))
unfolding with_key
next-Sums ns ks st k named_so count total below one_of =
    let (above, kept, which) = higher_lem k.size_bytes st.max_bytes in
    some_keys (with_key k (some st)) refl named_so (omega (arith, count, length-append ks (k ∷ [])))
      (ap (λ t. add64 t k.size_bytes) total ∙ sym (sum_from-append (pos 0) ks k))
      (All-append (λ x. ◌≤ℤ◌ x.size_bytes (higher k.size_bytes st.max_bytes)) ks (k ∷ [])
        (All-higher st.max_bytes (higher k.size_bytes st.max_bytes) ks kept below) (above, tt))
      (attained which)
  where
    attained :
        (higher k.size_bytes st.max_bytes ≡ k.size_bytes)
          ⊎ (higher k.size_bytes st.max_bytes ≡ st.max_bytes)
        → (higher k.size_bytes st.max_bytes ≡ pos 0)
          ⊎ Attained (higher k.size_bytes st.max_bytes) (ks ++ k ∷ [])
    attained (inl e) = inr (Attained-append _ ks k (inr (sym e)))
    attained (inr e) = elim one_of [
      | inl z ↦ inl (e ∙ z)
      | inr a ↦ inr (Attained-append _ ks k (inl (subst (λ n. Attained n ks) (sym e) a)))
    ]

with_key-Sums :
    (ns : Str) (ks : List KeyReport) (o : Option NamespaceStat) (k : KeyReport)
    → Sums ns ks o
    → k.namespace ≡ ns
    → Sums ns (ks ++ k ∷ []) (some (with_key k o))
with_key-Sums ns ks o k (no_key empty new) named_so =
    subst (λ l. Sums ns (l ++ k ∷ []) (some (with_key k o))) (sym empty)
      (subst (λ q. Sums ns (k ∷ []) (some (with_key k q))) (sym new) (first-Sums ns k named_so))
with_key-Sums ns ks o k (some_keys st is n c t b m) named_so =
    subst (λ q. Sums ns (ks ++ k ∷ []) (some (with_key k q))) (sym is)
      (next-Sums ns ks st k n c t b m)

-- The entry that the loop makes of the keys of a namespace.
pub entry_with-Sums :
    (ns : Str) (past xs : List KeyReport) (o : Option NamespaceStat)
    → Sums ns past o
    → All (λ k. k.namespace ≡ ns) xs
    → Sums ns (past ++ xs) (entry_with (λ k. k.namespace) with_key o xs)
unfolding entry_with
entry_with-Sums ns past [] o h all = rw append-nil h
entry_with-Sums ns past (k ∷ xs) o h all =
    subst (λ l. Sums ns l (entry_with (λ k. k.namespace) with_key (some (with_key k o)) xs))
      (append_assoc past (k ∷ []) xs)
      (entry_with-Sums ns (past ++ k ∷ []) xs (some (with_key k o))
        (with_key-Sums ns past o k h all.0) all.1)
