-- ===== src/Api/BigkeyStream.antt =====
-- internal/api/handlers/keys.go: StreamBigkeys, which sends each big key as an event and ends with the
-- sums, or with the error.
use mathlib.Core.Path.{ap₂}
use redis_admin.Base.{
  ◌≤◌, ltb, arith, ap, ◌∙◌, Bool-cases, inl, inr, ℕ, ◌≡◌, refl, Bool, true, false, Option, none,
  some, List, [], ◌∷◌, ◌++◌, Str, ℤ, pos, lt_int, map, lookup, Dict, All, All-append, ◌&&◌, ◌^◌,
  parse_int, if◌then◌else◌,
}
use redis_admin.Errors.{Err, Result, ok, err}
use redis_admin.Config.{Config}
use redis_admin.Redis.{Redis}
use redis_admin.Float.{Float64}
use redis_admin.Keys.Scanner.{
  KeyReport, NamespaceStat, NamespaceAverage, Found, report_of, with_average, add_report,
  inspect_key, scan_big_keys,
}
use redis_admin.Keys.Scanner.Kept.{scan_big_keys_kept}
use redis_admin.Keys.Scanner.Sums.{Sums}
use redis_admin.Keys.Scanner.Stats.{keys_of, scan_big_keys-Sums}
use redis_admin.Api.Query.{is_none, threshold_bytes}

module _ (F : Type 0) where
  pub data SseEvent : Type 0 where
    key_found : KeyReport → SseEvent
    failed : Err → SseEvent
    summary : List (NamespaceAverage F) → SseEvent
    done : SseEvent

abbrev keys_found : {F : Type 0} → List KeyReport → List (SseEvent F)
keys_found [] = []
keys_found (k ∷ ks) = key_found k ∷ keys_found ks

module _ {F : Type 0} (fl : Float64 F) where
  abbrev averages : Dict NamespaceStat → List (NamespaceAverage F)
  averages ns = map (λ e. with_average fl e.1) ns

  abbrev events : Option (Result Found) → Option (List (SseEvent F))
  events none = none
  events (some (err e)) = some (failed e ∷ [])
  events (some (ok f)) = some (keys_found f.reports ++ summary (averages f.stats) ∷ done ∷ [])

  -- StreamBigkeys by the parameter `threshold_bytes`; a scan has the fuel that is given
  unfoldable pub stream_bigkeys :
      Redis → Config → (ℕ → Option Err) → ℕ → Str → Option (List (SseEvent F))
  unfolding scan_big_keys threshold_bytes with_average
  stream_bigkeys r cfg ctx fuel v = events (scan_big_keys r cfg ctx fuel (threshold_bytes v))

-- the threshold is positive, whatever the parameter is
threshold_bytes_positive : (v : Str) → lt_int (pos 0) (threshold_bytes v) ≡ true
unfolding threshold_bytes
threshold_bytes_positive [] = refl
threshold_bytes_positive (c ∷ v) =
    go (is_none (parse_int (c ∷ v)).1) (lt_int (pos 0) (parse_int (c ∷ v)).0) refl
  where
    go :
        (a b : Bool)
        → lt_int (pos 0) (parse_int (c ∷ v)).0 ≡ b
        → lt_int (pos 0) (if a && b then (parse_int (c ∷ v)).0 else pos (2 ^ 20)) ≡ true
    go true true e = e
    go true false e = refl
    go false b e = refl

-- a key is at least as large as the threshold
abbrev pub IsBig : ℤ → KeyReport → Type 0
IsBig t k = lt_int k.size_bytes t ≡ false

AllBig : ℤ → Found → Type 0
AllBig t f = All (IsBig t) f.reports

inspect_key-AllBig :
    (r : Redis) (t : ℤ) (addr key : Str) (f : Found)
    → AllBig t f
    → AllBig t (inspect_key r addr t key f)
unfolding inspect_key AllBig report_of
inspect_key-AllBig r t addr key f h = go (r.memory_usage addr key)
  where
    at_least :
        (b : Bool) (size : ℤ)
        → lt_int size t ≡ b
        → AllBig t (if b then f else add_report f (report_of r addr key size))
    at_least true size e = h
    at_least false size e =
        All-append (IsBig t) f.reports (report_of r addr key size ∷ []) h (e, tt)

    go :
        (m : Result ℤ)
        → AllBig t (elim m [
          | err e ↦ f
          | ok size ↦ if lt_int size t then f else add_report f (report_of r addr key size)
        ])
    go (err e) = h
    go (ok size) = at_least (lt_int size t) size refl

-- the sum over the number of the keys, where there is a key
pub data IsAverage {F : Type 0} (fl : Float64 F) (a : NamespaceAverage F) : Type 0 where
  of_none : a.stat.key_count ≡ 0 → a.avg_bytes ≡ fl.of_int (pos 0) → IsAverage fl a
  of_some :
      1 ≤ a.stat.key_count
      → a.avg_bytes ≡ fl.div (fl.of_int a.stat.total_bytes) (fl.of_int (pos a.stat.key_count))
      → IsAverage fl a

with_average-IsAverage :
    {F : Type 0} (fl : Float64 F) (st : NamespaceStat) → IsAverage fl (with_average fl st)
unfolding with_average
with_average-IsAverage fl st = elim (Bool-cases (ltb 0 st.key_count)) [
  | inl h ↦ of_some (ground arith) (rw h refl)
  | inr h ↦ of_none (ground arith) (rw h refl)
]

averages_lem :
    {F : Type 0} (fl : Float64 F) (m : Dict NamespaceStat)
    → (map (λ a. a.stat) (averages fl m) ≡ map (λ e. e.1) m) × All (IsAverage fl) (averages fl m)
averages_lem fl [] = (refl, tt)
averages_lem fl ((ns, st) ∷ m) =
    let rest = averages_lem fl m in
    let same : (with_average fl st).stat ≡ st = unfold with_average in refl in
    (ap₂ (λ x l. x ∷ l) same rest.0, (with_average-IsAverage fl st, rest.1))

map-keys_found :
    {F : Type 0} (ks : List KeyReport)
    → ◌≡◌ {A = List (SseEvent F)} (keys_found ks) (map key_found ks)
map-keys_found [] = refl
map-keys_found (k ∷ ks) = ap (λ l. key_found k ∷ l) (map-keys_found ks)

-- What a stream that ends consists of.
pub data Framed {F : Type 0} (fl : Float64 F) (t : ℤ) (evs : List (SseEvent F)) : Type 0 where
  refused : (e : Err) → evs ≡ failed e ∷ [] → Framed fl t evs
  complete :
      (f : Found) (avgs : List (NamespaceAverage F))
      → evs ≡ map key_found f.reports ++ summary avgs ∷ done ∷ []
      → All (IsBig t) f.reports
      → map (λ a. a.stat) avgs ≡ map (λ e. e.1) f.stats
      → All (IsAverage fl) avgs
      → ((ns : Str) → Sums ns (keys_of ns f.reports) (lookup ns f.stats))
      → Framed fl t evs

-- Whatever the parameter and the nodes reply, and wherever a scan is cut off, a stream that ends is
-- one error alone, or keys that reach the threshold, which is positive, then one summary, in which each
-- namespace with a key in the stream, and no other, has the number of its keys, the sum of their sizes,
-- the highest and their average, then the event that says that it is complete.
pub stream_bigkeys-Framed :
    {F : Type 0} (fl : Float64 F) (r : Redis) (cfg : Config) (ctx : ℕ → Option Err) (fuel : ℕ)
    (v : Str) (evs : List (SseEvent F))
    → stream_bigkeys fl r cfg ctx fuel v ≡ some evs
    → (lt_int (pos 0) (threshold_bytes v) ≡ true) × Framed fl (threshold_bytes v) evs
unfolding stream_bigkeys AllBig
stream_bigkeys-Framed fl r cfg ctx fuel v evs h =
    (threshold_bytes_positive v, go (scan_big_keys r cfg ctx fuel (threshold_bytes v)) refl h)
  where
    streamed :
        (f : Found)
        → events fl (some (ok f)) ≡ some evs
        → evs ≡ map key_found f.reports ++ summary (averages fl f.stats) ∷ done ∷ []
    streamed f k =
        let e : evs ≡ keys_found f.reports ++ summary (averages fl f.stats) ∷ done ∷ [] = cc k in
        e ∙ ap (λ l. l ++ summary (averages fl f.stats) ∷ done ∷ []) (map-keys_found f.reports)

    go :
        (o : Option (Result Found))
        → scan_big_keys r cfg ctx fuel (threshold_bytes v) ≡ o
        → events fl o ≡ some evs
        → Framed fl (threshold_bytes v) evs
    go none e k = absurd (cc)
    go (some (err x)) e k = refused x (cc)
    go (some (ok f)) e k =
        complete f (averages fl f.stats) (streamed f k)
          (scan_big_keys_kept r (threshold_bytes v) (AllBig (threshold_bytes v))
            (inspect_key-AllBig r (threshold_bytes v)) ctx fuel cfg f e tt)
          (averages_lem fl f.stats).0 (averages_lem fl f.stats).1
          (scan_big_keys-Sums r cfg ctx fuel (threshold_bytes v) f e)
