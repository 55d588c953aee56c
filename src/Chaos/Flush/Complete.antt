-- ===== src/Chaos/Flush/Complete.antt =====
-- What Flush deletes.
use redis_admin.Base.{
  ℕ, zero, suc, ◌≤◌, ◌≡◌, ap, sym, ◌∙◌, Option, none, some, List, [], ◌∷◌, ◌++◌, arith, Str, ℤ, pos,
  add64, length, append_assoc, append-nil,
}
use redis_admin.Errors.{Err, Result, ok}
use redis_admin.Keys.Pages.{PageRun, last_page, one_more}
use redis_admin.Chaos.Flush.{
  Flushed, delete_page, flush_page, flush_check, flush_from, flushed, pattern_of, flush,
}

-- the pages that have a key
abbrev pub filled : List (List Str) → List (List Str)
filled [] = []
filled ([] ∷ ps) = filled ps
filled ((k ∷ ks) ∷ ps) = (k ∷ ks) ∷ filled ps

module _ (ctx : ℕ → Option Err) (scan : ℕ → Result (List Str × ℕ))
    (delete : List Str → ℤ × Option Err) where
  -- the numbers that DEL gives back, summed up as int64
  abbrev pub sum_deleted : ℤ → List (List Str) → ℤ
  sum_deleted n [] = n
  sum_deleted n (p ∷ ps) = sum_deleted (add64 n (delete p).0) ps

  abbrev after_pages : Flushed → List (List Str) → Flushed
  after_pages f [] = f
  after_pages f (p ∷ ps) = after_pages (delete_page ctx scan delete f p) ps

  after_pages_lem :
      (f : Flushed) (ps : List (List Str))
      → after_pages f ps
        ≡ record { calls = f.calls ++ filled ps; deleted = sum_deleted f.deleted (filled ps) }
  unfolding delete_page
  after_pages_lem f [] =
      ap (λ c. record { calls = c; deleted = f.deleted }) (sym (append-nil f.calls))
  after_pages_lem f ([] ∷ ps) = after_pages_lem f ps
  after_pages_lem f ((k ∷ ks) ∷ ps) =
      after_pages_lem (delete_page ctx scan delete f (k ∷ ks)) ps
      ∙ ap
          (λ c. record {
            calls = c;
            deleted = sum_deleted (add64 f.deleted (delete (k ∷ ks)).0) (filled ps);
          })
          (append_assoc f.calls ((k ∷ ks) ∷ []) (filled ps))

  module _ (running : (n : ℕ) → ctx n ≡ none) where
    one_round :
        (fuel cursor i : ℕ) (f : Flushed) {keys : List Str} {next : ℕ}
        → scan cursor ≡ ok (keys, next)
        → flush_from ctx scan delete (suc fuel) cursor i f
          ≡ flush_page ctx scan delete f
              (λ n g. flush_from ctx scan delete fuel n (suc i) g)
              (ok (keys, next))
    unfolding flush_from
    one_round fuel cursor i f p =
        ap
          (λ c. flush_check ctx scan delete c f (
            flush_page ctx scan delete f (λ n g. flush_from ctx scan delete fuel n (suc i) g)
              (scan cursor)))
          (running i)
        ∙ ap (flush_page ctx scan delete f (λ n g. flush_from ctx scan delete fuel n (suc i) g)) p

    flush_from-after_pages :
        (fuel cursor i : ℕ) (f : Flushed) (ps : List (List Str))
        → PageRun scan cursor ps
        → length ps ≤ fuel
        → flush_from ctx scan delete fuel cursor i f ≡ some (none, after_pages f ps)
    flush_from-after_pages zero cursor i f ps (last_page p) h = absurd (omega arith)
    flush_from-after_pages zero cursor i f ps (one_more p q run) h = absurd (omega arith)
    flush_from-after_pages (suc fuel) cursor i f ps (last_page p) h = one_round fuel cursor i f p
    flush_from-after_pages (suc fuel) cursor i f ps (one_more {keys} {next} {rest} p q run) h =
        one_round fuel cursor i f p
        ∙ rw q (
            flush_from-after_pages fuel next (suc i) (delete_page ctx scan delete f keys) rest run
              (omega arith))

-- Where the context is not cancelled and the pages of the pattern come to an end, fuel for the pages is
-- enough: Flush calls DEL once for each page that has a key, with the keys of the page, in their order,
-- and for nothing else, whatever DEL replies, and it returns the sum of the numbers that came back.
pub flush-Complete :
    (ctx : ℕ → Option Err) (scan : Str → ℕ → Result (List Str × ℕ))
    (delete : List Str → ℤ × Option Err) (fuel elapsed : ℕ) (pattern : Str) (ps : List (List Str))
    → ((n : ℕ) → ctx n ≡ none)
    → PageRun (scan (pattern_of pattern)) 0 ps
    → length ps ≤ fuel
    → flush ctx scan delete fuel elapsed pattern
      ≡ some (
        ok (record {
          keys_deleted = sum_deleted ctx (scan (pattern_of pattern)) delete (pos 0) (filled ps);
          pattern = pattern_of pattern;
          elapsed_ms = elapsed;
        }),
        filled ps,
      )
unfolding flush
flush-Complete ctx scan delete fuel elapsed pattern ps running run enough =
    let start : Flushed = record { calls = []; deleted = pos 0 } in
    let s = scan (pattern_of pattern) in
    ap (flushed (pattern_of pattern) elapsed) (
      flush_from-after_pages ctx s delete running fuel 0 0 start ps run enough
      ∙ ap (λ f. some (none, f)) (after_pages_lem ctx s delete start ps))
