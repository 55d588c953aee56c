-- ===== src/Chaos/Flush.antt =====
-- internal/chaos/seeder.go: Flush, which deletes the keys of a pattern page by page. DEL is `delete`,
-- the number of the keys that were deleted and the error, by the page.
pub mod Complete
use redis_admin.Base.{
  ℕ, zero, suc, Option, none, some, List, [], ◌∷◌, ◌++◌, Str, str, is_empty, ℤ, pos, add64, ◌==◌,
  if◌then◌else◌,
}
use redis_admin.Errors.{Err, wrap, Result, ok, err}

-- the keys that each DEL was called with, and the sum of the numbers that came back
pub record Flushed : Type 0 where
  pub calls : List (List Str)
  pub deleted : ℤ

module _ (ctx : ℕ → Option Err) (scan : ℕ → Result (List Str × ℕ))
    (delete : List Str → ℤ × Option Err) where
  -- the deletion of one page, which goes on where DEL fails
  unfoldable pub delete_page : Flushed → List Str → Flushed
  unfolding add64
  delete_page f [] = f
  delete_page f (k ∷ ks) = record {
    calls = f.calls ++ (k ∷ ks) ∷ [];
    deleted = add64 f.deleted (delete (k ∷ ks)).0;
  }

  abbrev flush_page :
      Flushed
      → (ℕ → Flushed → Option (Option Err × Flushed))
      → Result (List Str × ℕ)
      → Option (Option Err × Flushed)
  flush_page f more (err e) = some (some (wrap (str "SCAN") e), f)
  flush_page f more (ok (keys, next)) =
      let after = delete_page f keys in
      let rest = more next after in if next == 0 then some (none, after) else rest

  abbrev flush_check :
      Option Err → Flushed → Option (Option Err × Flushed) → Option (Option Err × Flushed)
  flush_check (some e) f rest = some (none, f)
  flush_check none f rest = rest

  -- the loop from a cursor and a check of the context on: its error and what it deleted, and `none`
  -- where the fuel runs out
  unfoldable pub flush_from : ℕ → ℕ → ℕ → Flushed → Option (Option Err × Flushed)
  unfolding delete_page
  flush_from zero cursor i f = none
  flush_from (suc fuel) cursor i f =
      let rest = flush_page f (λ next g. flush_from fuel next (suc i) g) (scan cursor) in
      flush_check (ctx i) f rest

pub record FlushResult : Type 0 where
  pub keys_deleted : ℤ
  pub pattern : Str
  pub elapsed_ms : ℕ

-- `if pattern == "" { pattern = "test:*" }`
abbrev pub pattern_of : Str → Str
pattern_of pattern = if is_empty pattern then str "test:*" else pattern

abbrev flushed :
    Str → ℕ → Option (Option Err × Flushed) → Option (Result FlushResult × List (List Str))
flushed pattern elapsed none = none
flushed pattern elapsed (some (some e, f)) = some (err e, f.calls)
flushed pattern elapsed (some (none, f)) =
    some
      (ok (record { keys_deleted = f.deleted; pattern = pattern; elapsed_ms = elapsed }), f.calls)

-- Flush, with the scan of the master by pattern: the result, and the keys of each DEL
unfoldable pub flush :
    (ℕ → Option Err)
    → (Str → ℕ → Result (List Str × ℕ))
    → (List Str → ℤ × Option Err)
    → ℕ
    → ℕ
    → Str
    → Option (Result FlushResult × List (List Str))
unfolding flush_from
flush ctx scan delete fuel elapsed pattern = flushed (pattern_of pattern) elapsed (
    flush_from ctx (scan (pattern_of pattern)) delete fuel 0 0
      (record { calls = []; deleted = pos 0 }))
