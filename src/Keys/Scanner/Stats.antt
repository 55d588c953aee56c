-- ===== src/Keys/Scanner/Stats.antt =====
-- The sums by namespace against the keys that are streamed.
use mathlib.Core.Path.{subst}
use redis_admin.Keys.Scanner.Sums.{Sums, no_key, entry_with-Sums}
use redis_admin.Base.{
  All, eq_str, eq_str_iff, Bool-cases, inl, inr, ℕ, ◌≤◌, ◌≡◌, refl, ap, sym, ◌∙◌, Bool, true, false,
  Option, none, some, List, [], ◌∷◌, ◌++◌, Str, str, ℤ, lt_int, Dict, lookup, insert, if◌then◌else◌,
  append_assoc, append-nil,
}
use redis_admin.Errors.{Err, Result, ok, err}
use redis_admin.Redis.{Redis}
use redis_admin.Tally.{tally, named, entry_with, lookup-tally}
use redis_admin.Keys.Walk.{visit, Pages, walk-visit}
use redis_admin.Keys.Scanner.{
  KeyReport, Found, report_of, with_key, add_report, inspect_key, scan_node, scan_big_keys,
}
use redis_admin.Keys.Scanner.Kept.{scan_big_keys_kept}
use redis_admin.Config.{Config}

-- the sums are those of the reports so far
pub record Agrees (f : Found) : Type 0 where
  pub tallied : f.stats ≡ tally (λ k. k.namespace) with_key [] f.reports

tally-append :
    {A V : Type 0} (name : A → Str) (w : A → Option V → V) (m : Dict V) (xs : List A) (x : A)
    → tally name w m (xs ++ x ∷ [])
      ≡ insert (name x) (w x (lookup (name x) (tally name w m xs))) (tally name w m xs)
unfolding tally
tally-append name w m [] x = refl
tally-append name w m (y ∷ xs) x =
    tally-append name w (insert (name y) (w y (lookup (name y) m)) m) xs x

start : Agrees (record { reports = []; stats = [] })
unfolding tally
start = record { tallied = refl }

add_report-Agrees : (f : Found) (k : KeyReport) → Agrees f → Agrees (add_report f k)
add_report-Agrees f k a = record {
  tallied =
      ap (λ m. insert k.namespace (with_key k (lookup k.namespace m)) m) a.tallied
      ∙ sym (tally-append (λ x. x.namespace) with_key [] f.reports k);
}

inspect_key-Agrees :
    (r : Redis) (addr key : Str) (t : ℤ) (f : Found)
    → Agrees f
    → Agrees (inspect_key r addr t key f)
unfolding inspect_key
inspect_key-Agrees r addr key t f a = go (r.memory_usage addr key)
  where
    at_least :
        (b : Bool) (size : ℤ) → Agrees (if b then f else add_report f (report_of r addr key size))
    at_least true size = a
    at_least false size = add_report-Agrees f (report_of r addr key size) a

    go :
        (m : Result ℤ)
        → Agrees (elim m [
          | err e ↦ f
          | ok size ↦ if lt_int size t then f else add_report f (report_of r addr key size)
        ])
    go (err e) = a
    go (ok size) = at_least (lt_int size t) size

-- the keys of a namespace among those that are streamed
abbrev pub keys_of : Str → List KeyReport → List KeyReport
keys_of ns [] = []
keys_of ns (k ∷ ks) = if eq_str k.namespace ns then k ∷ keys_of ns ks else keys_of ns ks

named-keys_of :
    (ns : Str) (ks : List KeyReport) → named (λ k. k.namespace) with_key ns ks ≡ keys_of ns ks
unfolding named
named-keys_of ns [] = refl
named-keys_of ns (k ∷ ks) =
    ap (λ l. if eq_str k.namespace ns then k ∷ l else l) (named-keys_of ns ks)

keys_of-All : (ns : Str) (ks : List KeyReport) → All (λ k. k.namespace ≡ ns) (keys_of ns ks)
keys_of-All ns [] = tt
keys_of-All ns (k ∷ ks) = elim (Bool-cases (eq_str k.namespace ns)) [
  | inl e ↦ rw e (((eq_str_iff k.namespace ns).0 e, keys_of-All ns ks))
  | inr e ↦ rw e (keys_of-All ns ks)
]

-- Whatever the scans of the nodes meet, and wherever they are cut off, the sums that ScanBigKeys
-- returns for a namespace are those of the keys of that namespace that it has streamed.
pub scan_big_keys-Sums :
    (r : Redis) (cfg : Config) (ctx : ℕ → Option Err) (fuel : ℕ) (t : ℤ) (f : Found)
    → scan_big_keys r cfg ctx fuel t ≡ some (ok f)
    → (ns : Str) → Sums ns (keys_of ns f.reports) (lookup ns f.stats)
unfolding lookup
scan_big_keys-Sums r cfg ctx fuel t f h ns =
    let a =
      scan_big_keys_kept r t Agrees (λ addr k g a. inspect_key-Agrees r addr k t g a) ctx fuel cfg f
        h start in
    let e =
      ap (lookup ns) a.tallied
      ∙ lookup-tally (λ k. k.namespace) with_key ns [] f.reports
      ∙ ap (entry_with (λ k. k.namespace) with_key none) (named-keys_of ns f.reports) in
    subst (Sums ns (keys_of ns f.reports)) (sym e) (
      entry_with-Sums ns [] (keys_of ns f.reports) none (no_key refl refl)
        (keys_of-All ns f.reports))

-- the keys of a node that are reported, in the order in which they are met
unfoldable pub big : Redis → Str → ℤ → List Str → List KeyReport
unfolding report_of
big r addr t [] = []
big r addr t (k ∷ ks) =
    let rest = big r addr t ks in
    elim (r.memory_usage addr k) [
      | err e ↦ rest
      | ok size ↦ if lt_int size t then rest else report_of r addr k size ∷ rest
    ]

reports_step :
    (r : Redis) (addr k : Str) (t : ℤ) (ks : List Str) (f : Found)
    → (inspect_key r addr t k f).reports ++ big r addr t ks ≡ f.reports ++ big r addr t (k ∷ ks)
unfolding inspect_key big
reports_step r addr k t ks f = go (r.memory_usage addr k)
  where
    pick :
        (b : Bool) (size : ℤ)
        → (if b then f else add_report f (report_of r addr k size)).reports ++ big r addr t ks
          ≡ f.reports ++ (if b then big r addr t ks else report_of r addr k size ∷ big r addr t ks)
    pick true size = refl
    pick false size = (append_assoc f.reports (report_of r addr k size ∷ []) (big r addr t ks))

    go :
        (m : Result ℤ)
        → (elim m as (λ x. Found) [
          | err e ↦ f
          | ok size ↦ if lt_int size t then f else add_report f (report_of r addr k size)
        ]).reports
            ++ big r addr t ks
          ≡ f.reports ++ elim m as (λ x. List KeyReport) [
            | err e ↦ big r addr t ks
            | ok size ↦
                if lt_int size t then big r addr t ks else report_of r addr k size ∷ big r addr t ks
          ]
    go (err e) = refl
    go (ok size) = pick (lt_int size t) size

visit_reports :
    (r : Redis) (ctx : ℕ → Option Err) (addr : Str) (t : ℤ) (ks : List Str) (f : Found)
    → (visit ctx (r.scan addr (str "*")) (inspect_key r addr t) ks f).reports
      ≡ f.reports ++ big r addr t ks
visit_reports r ctx addr t [] f = unfold big in sym (append-nil f.reports)
visit_reports r ctx addr t (k ∷ ks) f =
    visit_reports r ctx addr t ks (inspect_key r addr t k f) ∙ reports_step r addr k t ks f

-- the scan of a node ended without an error, and streamed these keys after those before
pub record Streams (f : Found) (keys : List KeyReport) (o : Option (Option Err × ℕ × Found))
    : Type 0 where
  pub next_check : ℕ
  pub found : Found
  pub ends : o ≡ some (none, next_check, found)
  pub streamed : found.reports ≡ f.reports ++ keys

-- Where the pages of a node come to an end and the context is not cancelled, fuel for the pages is
-- enough for scanNode, which streams every key of the pages whose size is known and reaches the
-- threshold, in their order, and no other.
pub scan_node-Streams :
    (r : Redis) (ctx : ℕ → Option Err) (addr : Str) (t : ℤ) (fuel n i : ℕ) (ks : List Str)
    (f : Found)
    → ((c : ℕ) → ctx c ≡ none)
    → Pages ctx (r.scan addr (str "*")) (inspect_key r addr t) 0 n ks
    → n ≤ fuel
    → Streams f (big r addr t ks) (scan_node r ctx fuel addr t i f)
unfolding scan_node
scan_node-Streams r ctx addr t fuel n i ks f running ps h =
    let (j, e) =
      walk-visit ctx (r.scan addr (str "*")) (inspect_key r addr t) running fuel 0 n i ks f ps h in
    record {
      next_check = j;
      found = visit ctx (r.scan addr (str "*")) (inspect_key r addr t) ks f;
      ends = e;
      streamed = visit_reports r ctx addr t ks f;
    }
