-- ===== src/Keys/Walk.antt =====
-- The loop over SCAN of internal/keys/scanner.go (scanNode) and internal/keys/ttl.go
-- (collectTTLStats): page after page from the cursor 0, until the cursor that comes back is 0. The
-- context is asked before each page and each key: `ctx n` is its error at the check `n`.
use mathlib.Core.Path.{subst}
use redis_admin.Base.{
  ℕ, zero, suc, ◌≤◌, ◌≡◌, refl, ap, ◌∙◌, inl, inr, false, Option, none, some, List, [], ◌∷◌, ◌++◌,
  arith, ◌==◌, if◌then◌else◌, Bool-cases, sym, Str,
}
use redis_admin.Errors.{Err, Result, ok, err}

module _ {S : Type 0} (ctx : ℕ → Option Err) (scan : ℕ → Result (List Str × ℕ))
    (step : Str → S → S) where
  abbrev key_check : Option Err → ℕ → S → Option Err × ℕ × S → Option Err × ℕ × S
  key_check (some e) i s rest = (some e, suc i, s)
  key_check none i s rest = rest

  -- the keys of one page: the error, the number of the next check, and the state
  unfoldable pub walk_keys : ℕ → List Str → S → Option Err × ℕ × S
  walk_keys i [] s = (none, i, s)
  walk_keys i (k ∷ ks) s = let rest = walk_keys (suc i) ks (step k s) in key_check (ctx i) i s rest

  -- what follows a page: its error ends the loop, and so does the cursor 0
  abbrev after_page :
      Option Err × ℕ × S → ℕ → (ℕ → S → Option (Option Err × ℕ × S)) → Option (Option Err × ℕ × S)
  after_page (some e, i, s) next more = some (some e, i, s)
  after_page (none, i, s) next more = if next == 0 then some (none, i, s) else more i s

  abbrev page :
      ℕ
      → S
      → (ℕ → ℕ → S → Option (Option Err × ℕ × S))
      → Result (List Str × ℕ)
      → Option (Option Err × ℕ × S)
  page i s more (err e) = some (some e, i, s)
  page i s more (ok (keys, next)) = after_page (walk_keys i keys s) next (more next)

  abbrev page_check : Option Err → ℕ → S → Option (Option Err × ℕ × S) → Option (Option Err × ℕ × S)
  page_check (some e) i s rest = some (some e, suc i, s)
  page_check none i s rest = rest

  -- the loop, from a cursor and a check on: the error, the next check and the state, and `none`
  -- where the fuel runs out
  unfoldable pub walk : ℕ → ℕ → ℕ → S → Option (Option Err × ℕ × S)
  unfolding walk_keys
  walk zero cursor i s = none
  walk (suc fuel) cursor i s =
      let next_page = page (suc i) s (λ next j t. walk fuel next j t) (scan cursor) in
      page_check (ctx i) i s next_page

  abbrev pub visit : List Str → S → S
  visit [] s = s
  visit (k ∷ ks) s = visit ks (step k s)

  -- The pages from a cursor on end, after so many, and have these keys in this order.
  pub data Pages : ℕ → ℕ → List Str → Type 0 where
    last_page : {cursor : ℕ} {keys : List Str} → scan cursor ≡ ok (keys, 0) → Pages cursor 1 keys
    more_pages :
        {cursor next n : ℕ} {keys rest : List Str}
        → scan cursor ≡ ok (keys, next)
        → (next == 0) ≡ false
        → Pages next n rest
        → Pages cursor (suc n) (keys ++ rest)

  visit-append : (ks ls : List Str) (s : S) → visit (ks ++ ls) s ≡ visit ls (visit ks s)
  visit-append [] ls s = refl
  visit-append (k ∷ ks) ls s = visit-append ks ls (step k s)

  -- a page in a context that is not cancelled
  walk_keys-visit :
      ((n : ℕ) → ctx n ≡ none)
      → (i : ℕ) (ks : List Str) (s : S) → (j : ℕ) × (walk_keys i ks s ≡ (none, j, visit ks s))
  unfolding walk_keys
  walk_keys-visit running i [] s = (i, refl)
  walk_keys-visit running i (k ∷ ks) s =
      let (j, e) = walk_keys-visit running (suc i) ks (step k s) in
      (j, ap (λ c. key_check c i s (walk_keys (suc i) ks (step k s))) (running i) ∙ e)

  walk_page :
      ((n : ℕ) → ctx n ≡ none)
      → (fuel cursor i : ℕ) (s : S) {keys : List Str} {next : ℕ} → scan cursor ≡ ok (keys, next)
      → walk (suc fuel) cursor i s
        ≡ after_page (walk_keys (suc i) keys s) next (λ j t. walk fuel next j t)
  unfolding walk
  walk_page running fuel cursor i s p =
      ap (λ c. page_check c i s (page (suc i) s (λ next j t. walk fuel next j t) (scan cursor)))
        (running i)
      ∙ ap (page (suc i) s (λ next j t. walk fuel next j t)) p

  -- where the context is not cancelled, fuel for the pages is enough, and every key is visited
  pub walk-visit :
      ((n : ℕ) → ctx n ≡ none)
      → (fuel cursor n i : ℕ) (ks : List Str) (s : S) → Pages cursor n ks
      → n ≤ fuel
      → (j : ℕ) × (walk fuel cursor i s ≡ some (none, j, visit ks s))
  unfolding walk
  walk-visit running zero cursor n i ks s (last_page p) h = absurd (omega arith)
  walk-visit running zero cursor n i ks s (more_pages p q ps) h = absurd (omega arith)
  walk-visit running (suc fuel) cursor n i ks s (last_page p) h =
      let (j, e) = walk_keys-visit running (suc i) ks s in
      (j, walk_page running fuel cursor i s p ∙ ap (λ o. after_page o 0 (λ l t. walk fuel 0 l t)) e)
  walk-visit running (suc fuel) cursor n i ks s (more_pages {next} {n = m} {keys} {rest} p q ps) h =
      let (j, e) = walk_keys-visit running (suc i) keys s in
      let (l, d) = walk-visit running fuel next m j rest (visit keys s) ps (omega arith) in
      (
        l,
        walk_page running fuel cursor i s p
            ∙ ap (λ o. after_page o next (λ x t. walk fuel next x t)) e
            ∙ rw q (d ∙ ap (λ t. some (none, l, t)) (sym (visit-append keys rest s))),
      )

-- What every key keeps, the loop keeps, however it ends.
module _ {S : Type 0} (ctx : ℕ → Option Err) (scan : ℕ → Result (List Str × ℕ)) (step : Str → S → S)
    (P : S → Type 0) (kept : (k : Str) (s : S) → P s → P (step k s)) where
  abbrev Holds : Option (Option Err × ℕ × S) → Type 0
  Holds none = Unit
  Holds (some p) = P p.2

  walk_keys_kept : (i : ℕ) (ks : List Str) (s : S) → P s → P (walk_keys ctx scan step i ks s).2
  unfolding walk_keys
  walk_keys_kept i [] s h = h
  walk_keys_kept i (k ∷ ks) s h = go (ctx i) (walk_keys_kept (suc i) ks (step k s) (kept k s h))
    where
      go :
          (c : Option Err)
          → P (walk_keys ctx scan step (suc i) ks (step k s)).2
          → P (key_check ctx scan step c i s (walk_keys ctx scan step (suc i) ks (step k s))).2
      go (some e) q = h
      go none q = q

  after_page_kept :
      (o : Option Err × ℕ × S) (next : ℕ) (more : ℕ → S → Option (Option Err × ℕ × S))
      → P o.2
      → ((j : ℕ) (t : S) → P t → Holds (more j t))
      → Holds (after_page ctx scan step o next more)
  after_page_kept (some e, i, s) next more h m = h
  after_page_kept (none, i, s) next more h m = elim (Bool-cases (next == 0)) [
    | inl e ↦ rw e h
    | inr e ↦ rw e (m i s h)
  ]

  walk-Holds : (fuel cursor i : ℕ) (s : S) → P s → Holds (walk ctx scan step fuel cursor i s)
  unfolding walk
  walk-Holds zero cursor i s h = tt
  walk-Holds (suc fuel) cursor i s h = checked (ctx i) _ (paged (scan cursor) (walk-Holds fuel))
    where
      paged :
          (p : Result (List Str × ℕ))
          → ((c j : ℕ) (t : S) → P t → Holds (walk ctx scan step fuel c j t))
          → Holds (page ctx scan step (suc i) s (λ next j t. walk ctx scan step fuel next j t) p)
      paged (err e) ih = h
      paged (ok (keys, next)) ih =
          after_page_kept (walk_keys ctx scan step (suc i) keys s) next _
            (walk_keys_kept (suc i) keys s h) (ih next)

      checked :
          (c : Option Err) (o : Option (Option Err × ℕ × S))
          → Holds o
          → Holds (page_check ctx scan step c i s o)
      checked (some e) o q = h
      checked none o q = q

  pub walk_kept :
      (fuel cursor i : ℕ) (s : S) (p : Option Err × ℕ × S)
      → walk ctx scan step fuel cursor i s ≡ some p
      → P s
      → P p.2
  walk_kept fuel cursor i s p e h = subst Holds e (walk-Holds fuel cursor i s h)
