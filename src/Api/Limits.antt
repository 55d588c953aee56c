-- ===== src/Api/Limits.antt =====
-- How many entries the endpoint of the slow commands answers with.
use redis_admin.Base.{
  ℕ, ◌≤◌, ◌≡◌, ◌≢◌, refl, ap, sym, ◌∙◌, ◌⊎◌, inl, inr, Bool, true, false, not, ◌||◌, Option, none,
  length, some, List, [], ◌∷◌, ◌++◌, arith, Str, str, All, ℤ, pos, negsuc, pos_part, lt_int, NumErr,
  parse_int, if◌then◌else◌,
}
use mathlib.Core.Path.{subst}
use redis_admin.Errors.{Err, wrap, Result, ok, err, join_errors}
use redis_admin.Config.{Config}
use redis_admin.Redis.{Redis}
use redis_admin.Fanout.{cons_result, gather, answered, gather-answered}
use redis_admin.Sentinel.Topology.{NodeAddresses, get_node_addresses}
use redis_admin.Sentinel.Topology.Laws.{get_node_addresses-Failure}
use redis_admin.Diagnostics.Slowlog.{
  SlowlogEntry, fetch_slowlog, slowest, slowlog_of, get_slowlog, Slowest, slowest-Slowest, concat,
}
use redis_admin.Api.{Response, invalid_param, ok_response, err_response, node_unreachable_code}
use redis_admin.Api.Query.{is_none, slowlog_limit}
use redis_admin.Api.Reads.{reply_list, reply, slowlog_handler}
use redis_admin.Api.FanOut.{
  every_node, Unreachable, labelled-Unreachable, gather-Unreachable, reply-Unreachable, Unresolved,
  unresolved,
}

-- the query asks for so many entries: 50 where it says nothing
abbrev pub Asks : Str → ℕ → Type 0
Asks v n = ((v ≡ []) × (n ≡ 50)) ⊎ ((v ≢ []) × (parse_int v ≡ (pos n, none)))

accepted :
    (p : ℤ × Option NumErr)
    → (not (is_none p.1) || not (lt_int (pos 0) p.0) || lt_int (pos 200) p.0) ≡ false
    → (p ≡ (pos (pos_part p.0), none)) × (1 ≤ pos_part p.0) × (pos_part p.0 ≤ 200)
accepted (pos n, none) h = (refl, ground arith, ground arith)
accepted (negsuc n, none) h = absurd (ground arith)
accepted (n, some e) h = absurd (cc)

-- what the handler takes for the limit
limit_some : (v : Str) (n : ℕ) → slowlog_limit v ≡ some n → Asks v n × (1 ≤ n) × (n ≤ 200)
unfolding slowlog_limit
limit_some [] n h = let e : 50 ≡ n = cc in (inl (refl, sym e), omega (arith, e), omega (arith, e))
limit_some (c ∷ v) n h = go (parse_int (c ∷ v)) refl _ refl h
  where
    go :
        (p : ℤ × Option NumErr)
        → parse_int (c ∷ v) ≡ p
        → (b : Bool) → (not (is_none p.1) || not (lt_int (pos 0) p.0) || lt_int (pos 200) p.0) ≡ b
        → ◌≡◌ {A = Option ℕ} (if b then none else some (pos_part p.0)) (some n)
        → Asks (c ∷ v) n × (1 ≤ n) × (n ≤ 200)
    go p e true d k = absurd (cc)
    go p e false d k =
        let (q, lo, hi) = accepted p d in
        let same : pos_part p.0 ≡ n = cc in
        (
          inr (λ z. cc z, e ∙ q ∙ ap (λ m. (pos m, none)) same),
          omega (arith, same, lo),
          omega (arith, same, hi),
        )

limit_none : (v : Str) → slowlog_limit v ≡ none → (n : ℕ) → Asks v n → 1 ≤ n → n ≤ 200 → ⊥
unfolding slowlog_limit
limit_none [] h n a lo hi = cc
limit_none (c ∷ v) h n (inl a) lo hi = cc (a.0)
limit_none (c ∷ v) h n (inr a) lo hi =
    let k =
      subst
        (λ (p : ℤ × Option NumErr).
          ◌≡◌ {A = Option ℕ}
            (if not (is_none p.1) || not (lt_int (pos 0) p.0) || lt_int (pos 200) p.0
              then none
              else some (pos_part p.0))
            none)
        a.1 h in
    ground arith

-- the entries of the nodes that answered
abbrev pub entries_of : Redis → NodeAddresses → List SlowlogEntry
entries_of r addrs = concat (answered (fetch_slowlog r 128) (every_node addrs))

-- the node answers SLOWLOG GET
abbrev pub Answers : Redis → Str → Type 0
Answers r a = (es : List SlowlogEntry) × (fetch_slowlog r 128 a ≡ ok es)

-- some node of the list does not
pub data Fails (r : Redis) : List Str → Type 0 where
  this_one :
      {a : Str} {as' : List Str} (e : Err) → fetch_slowlog r 128 a ≡ err e → Fails r (a ∷ as')
  later_one : {a : Str} {as' : List Str} → Fails r as' → Fails r (a ∷ as')

-- What the endpoint answers to the parameter `limit`.
pub data SlowlogAnswer (r : Redis) (cfg : Config) (v : Str) (q : Response (List SlowlogEntry))
    : Type 0 where
  refused :
      ((n : ℕ) → Asks v n → 1 ≤ n → n ≤ 200 → ⊥)
      → q ≡ err_response 400 invalid_param
      → SlowlogAnswer r cfg v q
  served :
      (n : ℕ) (addrs : NodeAddresses) (entries : List SlowlogEntry)
      → Asks v n
      → 1 ≤ n
      → n ≤ 200
      → get_node_addresses r cfg ≡ ok addrs
      → (entries_of r addrs ≢ []) ⊎ All (Answers r) (every_node addrs)
      → Slowest n (entries_of r addrs) entries
      → q ≡ ok_response entries
      → SlowlogAnswer r cfg v q
  no_entry :
      (n : ℕ) (addrs : NodeAddresses)
      → Asks v n
      → 1 ≤ n
      → n ≤ 200
      → get_node_addresses r cfg ≡ ok addrs
      → entries_of r addrs ≡ []
      → Fails r (every_node addrs)
      → q ≡ err_response 502 node_unreachable_code
      → SlowlogAnswer r cfg v q
  no_nodes : (n : ℕ) → Asks v n → 1 ≤ n → n ≤ 200 → Unresolved r cfg q → SlowlogAnswer r cfg v q

slowlog_silent : (r : Redis) (a : Str) (e : Err) → fetch_slowlog r 128 a ≡ err e → Unreachable e
unfolding fetch_slowlog
slowlog_silent r a e h = labelled-Unreachable (str "SLOWLOG GET on " ++ a) e (ground arith)

-- the errors of a round say whether a node failed
gather-Answers :
    (r : Redis) (label : Str → Err → Err) (as' : List Str)
    → (gather label (fetch_slowlog r 128) as').1 ≡ []
    → All (Answers r) as'
unfolding gather
gather-Answers r label [] = λ h. tt
gather-Answers r label (a ∷ as') = go (fetch_slowlog r 128 a) refl (gather-Answers r label as')
  where
    go :
        (q : Result (List SlowlogEntry))
        → fetch_slowlog r 128 a ≡ q
        → ((gather label (fetch_slowlog r 128) as').1 ≡ [] → All (Answers r) as')
        → (cons_result q (label a) (gather label (fetch_slowlog r 128) as')).1 ≡ []
        → Answers r a × All (Answers r) as'
    go (ok es) e ih h = ((es, e), ih h)
    go (err x) e ih h = absurd (cc)

gather-Fails :
    (r : Redis) (label : Str → Err → Err) (as' : List Str) (f : Err) (fs : List Err)
    → (gather label (fetch_slowlog r 128) as').1 ≡ f ∷ fs
    → Fails r as'
unfolding gather
gather-Fails r label [] f fs = λ h. absurd (cc h)
gather-Fails r label (a ∷ as') f fs =
    go (fetch_slowlog r 128 a) refl (gather-Fails r label as' f fs)
  where
    go :
        (q : Result (List SlowlogEntry))
        → fetch_slowlog r 128 a ≡ q
        → ((gather label (fetch_slowlog r 128) as').1 ≡ f ∷ fs → Fails r as')
        → (cons_result q (label a) (gather label (fetch_slowlog r 128) as')).1 ≡ f ∷ fs
        → Fails r (a ∷ as')
    go (ok es) e ih h = later_one (ih h)
    go (err x) e ih h = this_one x e

-- where none is kept there is none
kept_none : (n : ℕ) (all : List SlowlogEntry) → 1 ≤ n → Slowest n all [] → all ≡ []
kept_none n [] lo s = refl
kept_none n (x ∷ xs) lo s = absurd (omega (arith, s.count, lo))

module _ (r : Redis) (cfg : Config) (v : Str) (n : ℕ) (asks : Asks v n) (lo : 1 ≤ n)
    (hi : n ≤ 200) where
  entries-SlowlogAnswer :
      (addrs : NodeAddresses) (all : List SlowlogEntry) (es : List Err)
      → get_node_addresses r cfg ≡ ok addrs
      → all ≡ entries_of r addrs
      → All Unreachable es
      → (es ≡ [] → All (Answers r) (every_node addrs))
      → ((f : Err) (fs : List Err) → es ≡ f ∷ fs → Fails r (every_node addrs))
      → SlowlogAnswer r cfg v (reply_list (slowest n all) (join_errors es))
  entries-SlowlogAnswer addrs all es known same u answer fail =
      go (slowest n all) es u answer fail
        (subst (λ a. Slowest n a (slowest n all)) same (slowest-Slowest n all))
    where
      go :
          (kept : List SlowlogEntry) (fs : List Err)
          → All Unreachable fs
          → (fs ≡ [] → All (Answers r) (every_node addrs))
          → ((f : Err) (gs : List Err) → fs ≡ f ∷ gs → Fails r (every_node addrs))
          → Slowest n (entries_of r addrs) kept
          → SlowlogAnswer r cfg v (reply_list kept (join_errors fs))
      go [] [] w a x s = served n addrs [] asks lo hi known (inr (a refl)) s refl
      go [] (f ∷ fs) w a x s =
          no_entry n addrs asks lo hi known (kept_none n (entries_of r addrs) lo s) (x f fs refl)
            (reply-Unreachable (f ∷ fs) (λ z. cc z) w)
      go (k ∷ kept) fs w a x s =
          served n addrs (k ∷ kept) asks lo hi known (inl (kept_some k kept s)) s refl
        where
          kept_some :
              (k : SlowlogEntry) (kept : List SlowlogEntry)
              → Slowest n (entries_of r addrs) (k ∷ kept)
              → entries_of r addrs ≢ []
          kept_some k kept s h = absurd (omega (arith, s.count, ap length h))

  accepted-SlowlogAnswer :
      (q : Result NodeAddresses)
      → get_node_addresses r cfg ≡ q
      → SlowlogAnswer r cfg v (reply (get_slowlog r cfg n))
  unfolding get_slowlog slowlog_of
  accepted-SlowlogAnswer (err e) h =
      rw (h, get_slowlog)
        (no_nodes n asks lo hi
          (unresolved r cfg (str "get slowlog") e (get_node_addresses-Failure r cfg e h)))
  accepted-SlowlogAnswer (ok addrs) h =
      rw (h, get_slowlog)
        (entries-SlowlogAnswer addrs
          (concat
            (gather (λ a e. wrap (str "node " ++ a) e) (fetch_slowlog r 128)
              (addrs.master ∷ addrs.replicas)).0)
          (gather (λ a e. wrap (str "node " ++ a) e) (fetch_slowlog r 128)
            (addrs.master ∷ addrs.replicas)).1
          h
          (ap concat (
            gather-answered (λ a e. wrap (str "node " ++ a) e) (fetch_slowlog r 128)
              (addrs.master ∷ addrs.replicas)))
          (gather-Unreachable (λ a. str "node " ++ a) (fetch_slowlog r 128) (slowlog_silent r)
            (addrs.master ∷ addrs.replicas))
          (gather-Answers r (λ a e. wrap (str "node " ++ a) e) (addrs.master ∷ addrs.replicas))
          (gather-Fails r (λ a e. wrap (str "node " ++ a) e) (addrs.master ∷ addrs.replicas)))

-- The endpoint of the slow commands refuses with 400 each `limit` that is not a number from 1 to 200, and
-- only those. To any other, where the nodes are known and some node gave an entry or every node answers,
-- it answers with 200 and the slowest entries of the nodes that answered, as many as there are up to
-- the limit, slowest first, none that is left out being slower than one that is kept. It answers with
-- 502 where the nodes are known, none gave an entry and one fails, and where every configured sentinel
-- is silent; and with 503 where the first sentinel that answers names no master. Without the parameter
-- the limit is 50.
pub slowlog_handler-Answer :
    (r : Redis) (cfg : Config) (v : Str) → SlowlogAnswer r cfg v (slowlog_handler r cfg v)
unfolding slowlog_handler
slowlog_handler-Answer r cfg v = go (slowlog_limit v) refl
  where
    go :
        (l : Option ℕ)
        → slowlog_limit v ≡ l
        → SlowlogAnswer r cfg v (elim l [
          | none ↦ err_response 400 invalid_param
          | some n ↦ reply (get_slowlog r cfg n)
        ])
    go none h = refused (limit_none v h) refl
    go (some n) h =
        let (asks, lo, hi) = limit_some v n h in
        accepted-SlowlogAnswer r cfg v n asks lo hi (get_node_addresses r cfg) refl
