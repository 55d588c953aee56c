-- ===== src/Keys/Hotkey/Heap.antt =====
-- What the bounded heap of internal/keys/hotkey.go keeps of the keys that are offered to it.
use mathlib.Core.Path.{subst}
use mathlib.Core.List.{Perm, perm_middle}
use mathlib.Core.List.Perm
use redis_admin.Base.{
  ℕ, suc, ◌+◌, ◌≤◌, ◌≡◌, refl, ap, sym, ◌∙◌, inl, inr, ◌⊎◌, ltb→lt, ltb→le, true, List, [], ◌∷◌,
  ◌++◌, arith, length, ltb, All, Bool-cases, lt_int,
}
use redis_admin.Order.{◌≤ℤ◌, ≤ℤ_trans}
use redis_admin.Keys.Hotkey.{HotKeyReport, push_hot, replace_lowest, offer_hot}

-- no element has a higher frequency than one after it
abbrev pub Ascending : List HotKeyReport → Type 0
Ascending [] = Unit
Ascending (x ∷ xs) = All (λ y. ◌≤ℤ◌ x.frequency y.frequency) xs × Ascending xs

-- none of the list has a higher frequency than the element
abbrev pub Tops : List HotKeyReport → HotKeyReport → Type 0
Tops ds k = All (λ d. ◌≤ℤ◌ d.frequency k.frequency) ds

All-push_hot :
    (P : HotKeyReport → Type 0) (e : HotKeyReport) (h : List HotKeyReport)
    → P e
    → All P h
    → All P (push_hot e h)
unfolding push_hot
All-push_hot P e [] p q = (p, tt)
All-push_hot P e (m ∷ h) p q = elim (Bool-cases (lt_int m.frequency e.frequency)) [
  | inl c ↦ rw c ((q.0, All-push_hot P e h p q.1))
  | inr c ↦ rw c ((p, q))
]

push_hot-perm : (e : HotKeyReport) (h : List HotKeyReport) → Perm (push_hot e h) (e ∷ h)
unfolding push_hot
push_hot-perm e [] = Perm.refl (e ∷ [])
push_hot-perm e (m ∷ h) = elim (Bool-cases (lt_int m.frequency e.frequency)) [
  | inl c ↦ rw c (Perm.trans (Perm.cons m (push_hot-perm e h)) (Perm.swap e m h))
  | inr c ↦ rw c (Perm.refl (e ∷ m ∷ h))
]

length-push_hot :
    (e : HotKeyReport) (h : List HotKeyReport) → length (push_hot e h) ≡ suc (length h)
unfolding push_hot
length-push_hot e [] = refl
length-push_hot e (m ∷ h) = ground (arith, length-push_hot e h)

-- everything that is not below the head is not below what the head is not below
above :
    (e m : HotKeyReport) (h : List HotKeyReport)
    → ◌≤ℤ◌ e.frequency m.frequency
    → All (λ y. ◌≤ℤ◌ m.frequency y.frequency) h
    → All (λ y. ◌≤ℤ◌ e.frequency y.frequency) h
above e m [] p q = tt
above e m (y ∷ h) p q = (≤ℤ_trans e.frequency m.frequency y.frequency p q.0, above e m h p q.1)

push_hot-Ascending :
    (e : HotKeyReport) (h : List HotKeyReport) → Ascending h → Ascending (push_hot e h)
unfolding push_hot
push_hot-Ascending e [] a = (tt, tt)
push_hot-Ascending e (m ∷ h) a = elim (Bool-cases (lt_int m.frequency e.frequency)) [
  | inl c ↦ rw c (
      (
        All-push_hot (λ y. ◌≤ℤ◌ m.frequency y.frequency) e h (ground arith) a.0,
        push_hot-Ascending e h a.1,
      ))
  | inr c ↦
      rw c (let le : ◌≤ℤ◌ e.frequency m.frequency = ground arith in ((le, above e m h le a.0), a))
]

-- The heap has as many of the keys as there are, up to its size, in ascending order, and none of the
-- others has a higher frequency than one of them.
pub record TopOf (n : ℕ) (offered kept : List HotKeyReport) : Type 0 where
  pub in_order : Ascending kept
  pub dropped : List HotKeyReport
  pub same_keys : Perm (dropped ++ kept) offered
  pub highest : All (Tops dropped) kept
  pub within : length kept ≤ n
  pub total : length dropped + length kept ≡ length offered
  pub full : (dropped ≡ []) ⊎ (length kept ≡ n)

below :
    (e m : HotKeyReport) (ds : List HotKeyReport)
    → ◌≤ℤ◌ m.frequency e.frequency
    → Tops ds m
    → Tops ds e
below e m [] le a = tt
below e m (d ∷ ds) le a = (≤ℤ_trans d.frequency m.frequency e.frequency a.0 le, below e m ds le a.1)

nothing_above : (h : List HotKeyReport) → All (Tops []) h
nothing_above [] = tt
nothing_above (k ∷ h) = (tt, nothing_above h)

with_above :
    (e : HotKeyReport) (ds h : List HotKeyReport)
    → All (λ k. ◌≤ℤ◌ e.frequency k.frequency) h
    → All (Tops ds) h
    → All (Tops (e ∷ ds)) h
with_above e ds [] low a = tt
with_above e ds (k ∷ h) low a = ((low.0, a.0), with_above e ds h low.1 a.1)

replaced-perm :
    (e m : HotKeyReport) (ds rest : List HotKeyReport) {xs : List HotKeyReport}
    → Perm (ds ++ m ∷ rest) xs
    → Perm (m ∷ ds ++ push_hot e rest) (e ∷ xs)
replaced-perm e m ds rest p =
    Perm.trans (Perm.cons m (Perm.append (Perm.refl ds) (push_hot-perm e rest))) (
      Perm.trans (Perm.cons m (perm_middle ds rest)) (
        Perm.trans (Perm.swap e m (ds ++ rest))
          (Perm.cons e (Perm.trans (Perm.symm (perm_middle ds rest)) p))))

module _ (n : ℕ) (e : HotKeyReport) (xs h : List HotKeyReport) (t : TopOf n xs h) where
  pushed : ltb (length h) n ≡ true → TopOf n (e ∷ xs) (push_hot e h)
  pushed room =
      let empty : t.dropped ≡ [] = elim t.full [ inl d ↦ d | inr f ↦ absurd (ground arith) ] in
      record {
        in_order = push_hot-Ascending e h t.in_order;
        dropped = [];
        same_keys =
            Perm.trans (push_hot-perm e h)
              (Perm.cons e (subst (λ d. Perm (d ++ h) xs) empty t.same_keys));
        highest = All-push_hot (Tops []) e h tt (nothing_above h);
        within = omega (arith, length-push_hot e h, ltb→lt (length h) n room);
        total = omega (arith, length-push_hot e h, t.total, ap length empty);
        full = inl refl;
      }

  refused : (length h ≡ n) → All (λ k. ◌≤ℤ◌ e.frequency k.frequency) h → TopOf n (e ∷ xs) h
  refused f low = record {
    in_order = t.in_order;
    dropped = e ∷ t.dropped;
    same_keys = Perm.cons e t.same_keys;
    highest = with_above e t.dropped h low t.highest;
    within = t.within;
    total = omega (arith, t.total);
    full = inr f;
  }

  -- the lowest key gives way to a higher one
  replaced :
      (m : HotKeyReport) (rest : List HotKeyReport)
      → h ≡ m ∷ rest
      → length h ≡ n
      → ◌≤ℤ◌ m.frequency e.frequency
      → TopOf n (e ∷ xs) (push_hot e rest)
  replaced m rest q f le =
      let asc : Ascending (m ∷ rest) = subst Ascending q t.in_order in
      let hi : All (Tops t.dropped) (m ∷ rest) = subst (All (Tops t.dropped)) q t.highest in
      let len : length (m ∷ rest) ≡ n = ap length (sym q) ∙ f in
      record {
        in_order = push_hot-Ascending e rest asc.1;
        dropped = m ∷ t.dropped;
        same_keys =
            replaced-perm e m t.dropped rest (subst (λ k. Perm (t.dropped ++ k) xs) q t.same_keys);
        highest =
            All-push_hot (Tops (m ∷ t.dropped)) e rest (le, below e m t.dropped le hi.0)
              (with_above m t.dropped rest asc.0 hi.1);
        within = omega (arith, length-push_hot e rest, len);
        total = omega (arith, length-push_hot e rest, len, f, t.total);
        full = inr (omega (arith, length-push_hot e rest, len));
      }

pub offer_hot-TopOf :
    (n : ℕ) (e : HotKeyReport) (xs h : List HotKeyReport)
    → TopOf n xs h
    → TopOf n (e ∷ xs) (offer_hot n e h)
unfolding offer_hot
offer_hot-TopOf n e xs h t = elim (Bool-cases (ltb (length h) n)) [
  | inl room ↦ rw room (pushed n e xs h t room)
  | inr no_room ↦
      rw no_room (at_limit h refl (omega (arith, t.within, ltb→le (length h) n no_room)))
]
  where
    at_limit :
        (k : List HotKeyReport) → h ≡ k → length h ≡ n → TopOf n (e ∷ xs) (replace_lowest e k)
    at_limit [] q f =
        subst (TopOf n (e ∷ xs)) q
          (refused n e xs h t f (subst (All (λ k. ◌≤ℤ◌ e.frequency k.frequency)) (sym q) tt))
    at_limit (m ∷ rest) q f = elim (Bool-cases (lt_int m.frequency e.frequency)) [
      | inl c ↦ rw c (replaced n e xs h t m rest q f (ground arith))
      | inr c ↦ rw c (
          let le : ◌≤ℤ◌ e.frequency m.frequency = ground arith in
          let asc : Ascending (m ∷ rest) = subst Ascending q t.in_order in
          subst (TopOf n (e ∷ xs)) q (
            refused n e xs h t f (
              subst (All (λ k. ◌≤ℤ◌ e.frequency k.frequency)) (sym q)
                ((le, above e m rest le asc.0)))))
    ]
