-- ===== src/Config.antt =====
-- internal/config/config.go: the configuration and its validation. The intervals are in nanoseconds.
pub mod Load
use redis_admin.Base.{
  ◌≡◌, ◌≢◌, ◌↔◌, ◌≤◌, refl, arith, negsuc, ℕ, Bool, true, false, ◌||◌, Option, none, some, List, [],
  ◌∷◌, Str, str, is_empty, ℤ, pos, lt_int, not, if◌then◌else◌,
}
use redis_admin.Errors.{Err, other}

pub record Config : Type 0 where
  pub sentinel_addrs : List Str
  pub master_name : Str
  pub sentinel_password : Str
  pub redis_password : Str
  pub k8s_namespace : Str
  pub log_level : Str
  pub http_port : ℤ
  pub metrics_port : ℤ
  pub poll_interval : ℤ
  pub slowlog_interval : ℤ
  pub webhook_url : Str

abbrev no_addrs : List Str → Bool
no_addrs [] = true
no_addrs (a ∷ as') = false

unfoldable pub validate : Config → Option Err
validate c =
    if no_addrs c.sentinel_addrs
    then some (other (str "sentinel_addrs must not be empty"))
    else if is_empty c.master_name
    then some (other (str "master_name must not be empty"))
    else if not (lt_int (pos 0) c.http_port) || lt_int (pos 65535) c.http_port
    then some (other (str "http_port is out of range"))
    else none

-- what the service needs of a configuration
pub record IsUsable (c : Config) : Type 0 where
  pub addrs : c.sentinel_addrs ≢ []
  pub named : c.master_name ≢ []
  pub port : ℕ
  pub port_at : c.http_port ≡ pos port
  pub port_from : 1 ≤ port
  pub port_to : port ≤ 65535

refuses :
    (b : Bool) (e : Err) (rest : Option Err)
    → (if b then some e else rest) ≡ none
    → (b ≡ false) × (rest ≡ none)
refuses true e rest h = absurd (cc)
refuses false e rest h = (refl, h)

no_addrs_iff : (as' : List Str) → no_addrs as' ≡ false → as' ≢ []
no_addrs_iff [] h = absurd (cc)
no_addrs_iff (a ∷ as') h = λ e. cc e

port_of :
    (p : ℤ)
    → (not (lt_int (pos 0) p) || lt_int (pos 65535) p) ≡ false
    → (n : ℕ) × (p ≡ pos n) × (1 ≤ n) × (n ≤ 65535)
port_of (pos n) h = (n, refl, ground arith, ground arith)
port_of (negsuc n) h = absurd (ground arith)

not_empty : (s : Str) → is_empty s ≡ false → s ≢ []
not_empty [] h = absurd (cc)
not_empty (c ∷ s) h = λ e. cc e

validate-IsUsable : (c : Config) → validate c ≡ none → IsUsable c
unfolding validate
validate-IsUsable c h =
    let (a, h1) = refuses (no_addrs c.sentinel_addrs) _ _ h in
    let (m, h2) = refuses (is_empty c.master_name) _ _ h1 in
    let (p, h3) =
      refuses (not (lt_int (pos 0) c.http_port) || lt_int (pos 65535) c.http_port) _ _ h2 in
    let q = port_of c.http_port p in
    record {
      addrs = no_addrs_iff c.sentinel_addrs a;
      named = not_empty c.master_name m;
      port = q.0;
      port_at = q.1;
      port_from = q.2;
      port_to = q.3;
    }

some_addr : (as' : List Str) → as' ≢ [] → no_addrs as' ≡ false
some_addr [] h = absurd (h refl)
some_addr (a ∷ as') h = refl

some_name : (s : Str) → s ≢ [] → is_empty s ≡ false
some_name [] h = absurd (h refl)
some_name (c ∷ s) h = refl

in_range :
    (p : ℤ) (n : ℕ)
    → p ≡ pos n
    → 1 ≤ n
    → n ≤ 65535
    → (not (lt_int (pos 0) p) || lt_int (pos 65535) p) ≡ false
in_range p n e h k = rw e (ground arith)

-- The validation accepts a configuration exactly when it has a sentinel address and a master name,
-- and its HTTP port is from 1 to 65535.
pub validate_iff : (c : Config) → (validate c ≡ none) ↔ IsUsable c
unfolding validate
validate_iff c = (
  validate-IsUsable c,
  λ u.
      simp
        (
          some_addr c.sentinel_addrs u.addrs,
          some_name c.master_name u.named,
          in_range c.http_port u.port u.port_at u.port_from u.port_to,
        )
        refl,
)
