-- ===== src/Api/Query.antt =====
-- The parameters of the queries in internal/api/handlers: slowlog.go, keys.go and operations.go. A
-- parameter that is not given is the empty text.
use redis_admin.Base.{
  ℕ, ◌^◌, Bool, true, false, not, ◌&&◌, ◌||◌, Option, none, some, Str, is_empty, str, ℤ, pos,
  pos_part, lt_int, NumErr, parse_int, if◌then◌else◌,
}

abbrev pub is_none : Option NumErr → Bool
is_none none = true
is_none (some e) = false

-- the parameter `limit` of GetSlowlog; `none` where the handler refuses it
unfoldable pub slowlog_limit : Str → Option ℕ
unfolding parse_int
slowlog_limit v =
    let p = parse_int v in
    if is_empty v
    then some 50
    else if not (is_none p.1) || not (lt_int (pos 0) p.0) || lt_int (pos 200) p.0
    then none
    else some (pos_part p.0)

-- the parameter `top` of GetHotkeys, where a value that is not accepted counts as not given
unfoldable pub top_param : Str → ℕ
unfolding parse_int
top_param v =
    let p = parse_int v in
    if is_empty v
    then 20
    else if is_none p.1 && lt_int (pos 0) p.0 && not (lt_int (pos 500) p.0)
    then pos_part p.0
    else 20

-- the parameter `threshold_bytes` of StreamBigkeys
unfoldable pub threshold_bytes : Str → ℤ
unfolding parse_int
threshold_bytes v =
    let p = parse_int v in
    if is_empty v
    then pos (2 ^ 20)
    else if is_none p.1 && lt_int (pos 0) p.0
    then p.0
    else pos (2 ^ 20)

-- the parameters `pattern` and `stale_threshold` of GetStaleLocks
abbrev pub lock_pattern : Str → Str
lock_pattern v = if is_empty v then str "lock:*" else v

unfoldable pub stale_threshold : Str → ℤ
unfolding parse_int
stale_threshold v =
    let p = parse_int v in
    if is_empty v then pos 300 else if is_none p.1 && not (lt_int p.0 (pos 0)) then p.0 else pos 300
