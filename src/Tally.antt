-- ===== src/Tally.antt =====
-- The loops that keep one record per name in a map: the entry of an item's name, or a new one, is
-- replaced by what it becomes with the item.
use redis_admin.Base.{
  ◌≡◌, refl, ap, ◌∙◌, Bool, true, false, Option, some, List, [], ◌∷◌, Str, eq_str, eq_str_iff, Dict,
  lookup, insert, lookup-insert, if◌then◌else◌,
}

module _ {A V : Type 0} (name : A → Str) (with_item : A → Option V → V) where
  unfoldable pub tally : Dict V → List A → Dict V
  unfolding insert lookup
  tally m [] = m
  tally m (x ∷ xs) = tally (insert (name x) (with_item x (lookup (name x) m)) m) xs

  -- the items of one name
  unfoldable pub named : Str → List A → List A
  unfolding eq_str
  named k [] = []
  named k (x ∷ xs) = let rest = named k xs in if eq_str (name x) k then x ∷ rest else rest

  -- one entry through the items
  unfoldable pub entry_with : Option V → List A → Option V
  entry_with o [] = o
  entry_with o (x ∷ xs) = entry_with (some (with_item x o)) xs

  -- the entry of a name depends on the items of that name alone
  pub lookup-tally :
      (k : Str) (m : Dict V) (xs : List A)
      → lookup k (tally m xs) ≡ entry_with (lookup k m) (named k xs)
  unfolding tally named entry_with
  lookup-tally k m [] = refl
  lookup-tally k m (x ∷ xs) =
      lookup-tally k (insert (name x) (with_item x (lookup (name x) m)) m) xs
      ∙ ap (λ o. entry_with o (named k xs))
          (lookup-insert (name x) k (with_item x (lookup (name x) m)) m)
      ∙ go (eq_str (name x) k) refl
    where
      go :
          (t : Bool)
          → eq_str (name x) k ≡ t
          → entry_with
              (if t then some (with_item x (lookup (name x) m)) else lookup k m)
              (named k xs)
            ≡ entry_with (lookup k m) (if t then x ∷ named k xs else named k xs)
      go true e =
          ap (λ j. entry_with (some (with_item x (lookup j m))) (named k xs))
            ((eq_str_iff (name x) k).0 e)
      go false e = refl
