-- ===== src/Api/FlushData.antt =====
-- What the endpoint that flushes keys deletes.
use redis_admin.Base.{
  ℕ, ◌≤◌, ◌≡◌, refl, ap, Bool, true, false, Option, none, some, List, [], Str, ℤ, pos, length,
  if◌then◌else◌,
}
use redis_admin.Errors.{Err, Result}
use redis_admin.Keys.Pages.{PageRun}
use redis_admin.Chaos.Flush.{pattern_of}
use redis_admin.Chaos.Flush.Complete.{filled, sum_deleted, flush-Complete}
use redis_admin.Api.{ok_response, err_response, confirm_required, flush_done, flush_data}

-- Where the context is not cancelled and the pages of the pattern come to an end, with fuel for the pages a
-- request that confirms calls DEL once for each page that has a key, with the keys of the page, in
-- their order and for nothing else, whatever DEL replies, and answers with 200 and the sum of the
-- numbers that came back; a request that does not confirm is refused and deletes nothing.
pub flush_data-Complete :
    (ctx : ℕ → Option Err) (scan : Str → ℕ → Result (List Str × ℕ))
    (delete : List Str → ℤ × Option Err) (fuel elapsed : ℕ) (pattern : Str) (confirm : Bool)
    (ps : List (List Str))
    → ((n : ℕ) → ctx n ≡ none)
    → PageRun (scan (pattern_of pattern)) 0 ps
    → length ps ≤ fuel
    → flush_data ctx scan delete fuel elapsed pattern confirm
      ≡ some (
          if confirm
          then (
            ok_response (record {
              keys_deleted = sum_deleted ctx (scan (pattern_of pattern)) delete (pos 0) (filled ps);
              pattern = pattern_of pattern;
              elapsed_ms = elapsed;
            }),
            filled ps,
          )
          else (err_response 400 confirm_required, []))
unfolding flush_data
flush_data-Complete ctx scan delete fuel elapsed pattern false ps running run enough = refl
flush_data-Complete ctx scan delete fuel elapsed pattern true ps running run enough =
    ap flush_done (flush-Complete ctx scan delete fuel elapsed pattern ps running run enough)
