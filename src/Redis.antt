-- ===== src/Redis.antt =====
-- The Redis and Sentinel nodes as the client library go-redis shows them, which is not part of the
-- repository: what each command replies, by address and arguments, while one request is served.
use redis_admin.Base.{ℕ, Option, List, Str, Dict, ℤ}
use redis_admin.Errors.{Err, Result, err}

pub record SlowlogReply : Type 0 where
  pub id : ℤ
  pub time : ℕ
  pub duration_ns : ℤ
  pub args : List Str
  pub client_addr : Str
  pub client_name : Str

pub record Redis : Type 0 where
  -- PING
  pub ping : Str → Option Err
  -- PING of the failover client, which asks the sentinels for the master
  pub ping_master : Option Err
  -- SENTINEL CKQUORUM, GET-MASTER-ADDR-BY-NAME, REPLICAS, SENTINELS, FAILOVER: address, master name
  pub ck_quorum : Str → Str → Result Str
  pub get_master_addr : Str → Str → Result (List Str)
  pub replicas : Str → Str → Result (List (Dict Str))
  pub sentinels : Str → Str → Result (List (Dict Str))
  pub sentinel_failover : Str → Str → Option Err
  -- INFO with its sections, CLIENT LIST, SLOWLOG GET with its count
  pub info : Str → List Str → Result Str
  pub client_list : Str → Result Str
  pub slowlog_get : Str → ℕ → Result (List SlowlogReply)
  -- CONFIG GET with its pattern, CONFIG SET with key and value
  pub config_get : Str → Str → Result (Dict Str)
  pub config_set : Str → Str → Str → Option Err
  -- SCAN with its pattern and cursor: the keys and the next cursor
  pub scan : Str → Str → ℕ → Result (List Str × ℕ)
  -- TTL as a time.Duration in nanoseconds, TYPE, MEMORY USAGE, OBJECT FREQ
  pub ttl : Str → Str → Result ℤ
  pub type_of : Str → Str → Result Str
  pub memory_usage : Str → Str → Result ℤ
  pub object_freq : Str → Str → Result ℤ

-- nothing answers
abbrev pub unreachable : Err → Redis
unreachable e = record {
  ping = λ a. Option.some e;
  ping_master = Option.some e;
  ck_quorum = λ a m. err e;
  get_master_addr = λ a m. err e;
  replicas = λ a m. err e;
  sentinels = λ a m. err e;
  sentinel_failover = λ a m. Option.some e;
  info = λ a s. err e;
  client_list = λ a. err e;
  slowlog_get = λ a n. err e;
  config_get = λ a p. err e;
  config_set = λ a k v. Option.some e;
  scan = λ a p c. err e;
  ttl = λ a k. err e;
  type_of = λ a k. err e;
  memory_usage = λ a k. err e;
  object_freq = λ a k. err e;
}
