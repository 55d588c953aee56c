-- ===== src/Sentinel/Quorum.antt =====
-- internal/sentinel/quorum.go: SENTINEL CKQUORUM, asked of one sentinel after the other.
use redis_admin.Base.{Bool, true, false, List, [], ◌∷◌, Str, str, has_prefix}
use redis_admin.Errors.{Result, ok, err}
use redis_admin.Config.{Config}
use redis_admin.Redis.{Redis}

-- no error, and a reply that begins with OK
unfoldable pub says_ok : Result Str → Bool
unfolding has_prefix
says_ok (ok reply) = has_prefix reply (str "OK")
says_ok (err e) = false

unfoldable pub check_addrs : Redis → Str → List Str → Bool
unfolding says_ok
check_addrs r master [] = false
check_addrs r master (addr ∷ addrs) = elim (says_ok (r.ck_quorum addr master)) [
  | true ↦ true
  | false ↦ check_addrs r master addrs
]

-- QuorumChecker.Check
unfoldable pub check : Redis → Config → Bool
unfolding check_addrs
check r cfg = check_addrs r cfg.master_name cfg.sentinel_addrs
