-- ===== src/Keys/Hotkey/Top.antt =====
-- What collectHotkeys of internal/keys/hotkey.go keeps of the keys of a node.
use mathlib.Core.List.{Perm}
use mathlib.Core.List.Perm
use redis_admin.Base.{List, [], ◌∷◌, Str}
use redis_admin.Errors.{ok, err, value_or}
use redis_admin.Redis.{Redis}
use redis_admin.Keys.Hotkey.{key_namespace, HotKeyReport}

-- the keys of a node whose frequency is known, as they are reported
abbrev pub hot_reports : Redis → Str → List Str → List HotKeyReport
hot_reports r addr [] = []
hot_reports r addr (k ∷ ks) = elim (r.object_freq addr k) [
  | err e ↦ hot_reports r addr ks
  | ok freq ↦
      record {
        key = k;
        type_name = value_or [] (r.type_of addr k);
        frequency = freq;
        node_addr = addr;
        namespace = key_namespace k;
      }
      ∷ hot_reports r addr ks
]
