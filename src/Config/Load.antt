-- ===== src/Config/Load.antt =====
-- internal/config/config.go: Load. What viper finds of the file and what it unmarshals from the file,
-- the environment and the defaults are parameters.
use redis_admin.Base.{◌≡◌, ◌↔◌, refl, ap, sym, ◌∙◌, Option, none, some, [], ◌∷◌, str, pos}
use redis_admin.Errors.{Err, wrap, Result, ok, err}
use redis_admin.Config.{Config, validate, IsUsable, validate_iff}

-- what ReadInConfig returns
pub data ReadConfig : Type 0 where
  read : ReadConfig
  not_found : ReadConfig
  failed : Err → ReadConfig

-- the defaults
abbrev pub default_config : Config
default_config = record {
  sentinel_addrs = str "localhost:26379" ∷ [];
  master_name = str "mymaster";
  sentinel_password = [];
  redis_password = [];
  k8s_namespace = str "default";
  log_level = str "info";
  http_port = pos 8080;
  metrics_port = pos 9090;
  poll_interval = pos 5000000000;
  slowlog_interval = pos 10000000000;
  webhook_url = [];
}

abbrev validated : Config → Option Err → Result Config
validated c none = ok c
validated c (some e) = err (wrap (str "invalid config") e)

abbrev unmarshalled : Result Config → Result Config
unmarshalled (err e) = err (wrap (str "unmarshal config") e)
unmarshalled (ok c) = validated c (validate c)

-- Load
unfoldable pub load : ReadConfig → Result Config → Result Config
unfolding validate
load (failed e) c = err e
load read c = unmarshalled c
load not_found c = unmarshalled c

-- a file that is missing is no failure
abbrev pub Readable : ReadConfig → Type 0
Readable (failed e) = ⊥
Readable read = Unit
Readable not_found = Unit

validated_iff :
    (u : Result Config) (c : Config) → (unmarshalled u ≡ ok c) ↔ ((u ≡ ok c) × IsUsable c)
validated_iff (err e) c = (λ h. absurd (cc), λ h. absurd (cc (h.0)))
validated_iff (ok d) c = (
  λ h. go (validate d) refl h,
  λ h. let e : d ≡ c = cc (h.0) in ap (validated d) (ap validate e ∙ (validate_iff c).1 h.1) ∙ h.0,
)
  where
    go :
        (v : Option Err)
        → validate d ≡ v
        → validated d v ≡ ok c
        → (◌≡◌ {A = Result Config} (ok d) (ok c)) × IsUsable c
    go none e h = let q : d ≡ c = cc in (h, (validate_iff c).0 (ap validate (sym q) ∙ e))
    go (some x) e h = absurd (cc)

-- Load returns a configuration exactly when the file can be read or is missing, viper unmarshals it,
-- and it has a sentinel address, a master name and an HTTP port from 1 to 65535; and it returns the one
-- that viper unmarshals.
pub load_iff :
    (f : ReadConfig) (u : Result Config) (c : Config)
    → (load f u ≡ ok c) ↔ (Readable f × (u ≡ ok c) × IsUsable c)
unfolding load
load_iff (failed e) u c = (λ h. absurd (cc), λ h. absurd (h.0))
load_iff read u c =
    let v = validated_iff u c in (λ h. (tt, (v.0 h).0, (v.0 h).1), λ h. v.1 (h.1, h.2))
load_iff not_found u c =
    let v = validated_iff u c in (λ h. (tt, (v.0 h).0, (v.0 h).1), λ h. v.1 (h.1, h.2))

-- the defaults alone are a configuration that Load accepts
defaults_load : load not_found (ok default_config) ≡ ok default_config
unfolding load
defaults_load = refl
