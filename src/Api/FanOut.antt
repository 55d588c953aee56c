-- ===== src/Api/FanOut.antt =====
-- What an endpoint that asks every node of a list answers, where each node that fails is reported as
-- ErrNodeUnreachable.
use redis_admin.Base.{
  ◌≡◌, ◌≢◌, refl, ap, sym, ◌∙◌, Bool, true, false, ◌||◌, List, [], ◌∷◌, arith, Str, All,
}
use redis_admin.Errors.{
  Cause, Err, is, is_any, wrap, typed, to_errs, join_errors, same_cause, node_unreachable, Result,
  ok, err,
}
use redis_admin.Config.{Config}
use redis_admin.Redis.{Redis}
use redis_admin.Fanout.{cons_result, gather, gather-length, fan_out, answered, gather-answered}
use redis_admin.Sentinel.Topology.{NodeAddresses, get_node_addresses}
use redis_admin.Sentinel.Topology.Laws.{
  Silent, FirstReachable, NamesNone, Failure, all_silent, unnamed,
}
use redis_admin.Api.{
  Response, ok_response, err_response, handle_err, node_unreachable_code, no_master_code,
}
use redis_admin.Api.Status.{unreachable_status, no_master_status}
use redis_admin.Api.Reads.{reply_list, reply}

-- errors.Is finds ErrNodeUnreachable in the error and nothing else
abbrev pub Unreachable : Err → Type 0
Unreachable e = (c : Cause) → is c e ≡ same_cause c node_unreachable

same_twice : (b : Bool) → (b || b) ≡ b
same_twice true = refl
same_twice false = refl

is_any-Unreachable :
    (e : Err) (es : List Err)
    → Unreachable e
    → All Unreachable es
    → (c : Cause) → (is c e || is_any c (to_errs es)) ≡ same_cause c node_unreachable
unfolding is
is_any-Unreachable e [] h k c = rw (h c) (go (same_cause c node_unreachable))
  where
    go : (b : Bool) → (b || false) ≡ b
    go true = refl
    go false = refl
is_any-Unreachable e (f ∷ es) h k c =
    rw (h c) (rw (is_any-Unreachable f es k.0 k.1 c) (same_twice (same_cause c node_unreachable)))

-- what the service returns where no node gave anything
pub reply-Unreachable :
    {A : Type 0} (es : List Err)
    → es ≢ []
    → All Unreachable es
    → ◌≡◌ {A = Response (List A)}
        (reply_list [] (join_errors es))
        (err_response 502 node_unreachable_code)
unfolding is
reply-Unreachable [] n h = absurd (n refl)
reply-Unreachable (e ∷ es) n h = unreachable_status _ (is_any-Unreachable e es h.0 h.1)

module _ {N A : Type 0} (label : N → Str) (fetch : N → Result A)
    (silent : (n : N) (e : Err) → fetch n ≡ err e → Unreachable e) where
  abbrev labelled : N → Err → Err
  labelled n e = wrap (label n) e

  pub gather-Unreachable : (ns : List N) → All Unreachable (gather labelled fetch ns).1
  unfolding gather is
  gather-Unreachable [] = tt
  gather-Unreachable (n ∷ ns) = go (fetch n) refl (gather-Unreachable ns)
    where
      go :
          (q : Result A)
          → fetch n ≡ q
          → All Unreachable (gather labelled fetch ns).1
          → All Unreachable (cons_result q (labelled n) (gather labelled fetch ns)).1
      go (ok a) e ih = ih
      go (err x) e ih = (silent n x e, ih)

  -- every node gives a result or an error
  pub gather_some :
      (n : N) (ns : List N)
      → (gather labelled fetch (n ∷ ns)).0 ≡ []
      → (gather labelled fetch (n ∷ ns)).1 ≢ []
  unfolding gather
  gather_some n ns h k = ground (arith, gather-length labelled fetch (n ∷ ns))

-- The endpoint answers with what the nodes gave, with 502 where no node answers or every configured
-- sentinel is silent, and with 503 where the first sentinel that answers names no master.
pub data Answer {N A : Type 0} (r : Redis) (cfg : Config) (nodes : NodeAddresses → List N)
    (fetch : N → Result A) (q : Response (List A)) : Type 0 where
  given :
      (addrs : NodeAddresses)
      → get_node_addresses r cfg ≡ ok addrs
      → answered fetch (nodes addrs) ≢ []
      → q ≡ ok_response (answered fetch (nodes addrs))
      → Answer r cfg nodes fetch q
  no_node :
      (addrs : NodeAddresses)
      → get_node_addresses r cfg ≡ ok addrs
      → answered fetch (nodes addrs) ≡ []
      → q ≡ err_response 502 node_unreachable_code
      → Answer r cfg nodes fetch q
  every_sentinel_silent :
      All (Silent r) cfg.sentinel_addrs
      → q ≡ err_response 502 node_unreachable_code
      → Answer r cfg nodes fetch q
  no_master_named :
      (a : Str)
      → FirstReachable r cfg.sentinel_addrs a
      → NamesNone r cfg a
      → q ≡ err_response 503 no_master_code
      → Answer r cfg nodes fetch q

-- an answer where the nodes are not known: 502 where every sentinel is silent, and 503 where the first
-- that answers names no master
pub data Unresolved {A : Type 0} (r : Redis) (cfg : Config) (q : Response A) : Type 0 where
  silent_all :
      All (Silent r) cfg.sentinel_addrs
      → q ≡ err_response 502 node_unreachable_code
      → Unresolved r cfg q
  none_named :
      (a : Str)
      → FirstReachable r cfg.sentinel_addrs a
      → NamesNone r cfg a
      → q ≡ err_response 503 no_master_code
      → Unresolved r cfg q

pub unresolved :
    {A : Type 0} (r : Redis) (cfg : Config) (label : Str) (e : Err)
    → Failure r cfg e
    → Unresolved {A = A} r cfg (handle_err (wrap label e))
unfolding is
unresolved r cfg label e (all_silent all h) = silent_all all (unreachable_status (wrap label e) h)
unresolved r cfg label e (unnamed a first names h) =
    none_named a first names (no_master_status (wrap label e) h)

-- so do the endpoints that ask every node
pub unresolved-Answer :
    {N A : Type 0} (r : Redis) (cfg : Config) (nodes : NodeAddresses → List N)
    (fetch : N → Result A) (q : Response (List A))
    → Unresolved r cfg q
    → Answer r cfg nodes fetch q
unresolved-Answer r cfg nodes fetch q (silent_all all h) = every_sentinel_silent all h
unresolved-Answer r cfg nodes fetch q (none_named a first names h) = no_master_named a first names h

module _ {N A : Type 0} (label : N → Str) (fetch : N → Result A)
    (silent : (n : N) (e : Err) → fetch n ≡ err e → Unreachable e) (r : Redis) (cfg : Config)
    (n : N) (ns : List N) where
  fan_out_given :
      (x : A) (xs : List A)
      → answered fetch (n ∷ ns) ≡ x ∷ xs
      → reply (fan_out (labelled label fetch silent) fetch (n ∷ ns))
        ≡ ok_response (answered fetch (n ∷ ns))
  unfolding fan_out
  fan_out_given x xs h =
      let e = gather-answered (labelled label fetch silent) fetch (n ∷ ns) ∙ h in
      ap
        (λ as'.
          reply_list as' (join_errors (gather (labelled label fetch silent) fetch (n ∷ ns)).1))
        e
      ∙ ap ok_response (sym h)

  fan_out_no_node :
      answered fetch (n ∷ ns) ≡ []
      → reply (fan_out (labelled label fetch silent) fetch (n ∷ ns))
        ≡ err_response 502 node_unreachable_code
  unfolding fan_out
  fan_out_no_node h =
      let e = gather-answered (labelled label fetch silent) fetch (n ∷ ns) ∙ h in
      ap
        (λ as'.
          reply_list as' (join_errors (gather (labelled label fetch silent) fetch (n ∷ ns)).1))
        e
      ∙ reply-Unreachable (gather (labelled label fetch silent) fetch (n ∷ ns)).1
          (gather_some label fetch silent n ns e) (gather-Unreachable label fetch silent (n ∷ ns))

  pub fan_out-Answer :
      (nodes : NodeAddresses → List N) (addrs : NodeAddresses)
      → nodes addrs ≡ n ∷ ns
      → get_node_addresses r cfg ≡ ok addrs
      → Answer r cfg nodes fetch (reply (fan_out (labelled label fetch silent) fetch (n ∷ ns)))
  fan_out-Answer nodes addrs l known = go (answered fetch (n ∷ ns)) refl
    where
      at : answered fetch (nodes addrs) ≡ answered fetch (n ∷ ns)
      at = ap (answered fetch) l

      go :
          (as' : List A)
          → answered fetch (n ∷ ns) ≡ as'
          → Answer r cfg nodes fetch (reply (fan_out (labelled label fetch silent) fetch (n ∷ ns)))
      go [] h = no_node addrs known (at ∙ h) (fan_out_no_node h)
      go (x ∷ xs) h =
          given addrs known (λ k. cc (at, h, k)) (fan_out_given x xs h ∙ ap ok_response (sym at))

pub labelled-Unreachable : (s : Str) (e : Err) → e ≡ wrap s (typed node_unreachable) → Unreachable e
unfolding is
labelled-Unreachable s e h c = ap (is c) h

-- the master and the replicas
abbrev pub every_node : NodeAddresses → List Str
every_node addrs = addrs.master ∷ addrs.replicas
