-- ===== src/Sentinel/Listener/Sessions.antt =====
-- What the listener of a sentinel publishes over any number of connections, and how long it waits.
use redis_admin.Base.{
  ℕ, suc, ◌^◌, ◌≡◌, refl, ap, sym, ◌∙◌, Bool, true, false, List, [], ◌∷◌, ◌++◌, Dict, ltb, map,
  if◌then◌else◌,
}
use mathlib.Core.Path.{ap₂}
use redis_admin.Sentinel.Listener.Sent.{sent_as, heard_as_sent}
use redis_admin.Sentinel.EventBus.{Event, Bus, publish}
use redis_admin.Sentinel.EventBus.Delivery.{publish_all}
use redis_admin.Sentinel.Flapping.{detect_flapping}
use redis_admin.Sentinel.Flapping.Stream.{detect_all, flag_all, Ordered, detect_all_lem}
use redis_admin.Sentinel.Listener.{
  Message, heard_as, Session, session, after_delay, listen, listen_sentinel, next_backoff, backoff,
  backoff_lem,
}

-- the events of all connections, up to the one after which the context is done
abbrev pub heard_with : (Message → Event × ℕ) → List Session → List (Event × ℕ)
heard_with f [] = []
heard_with f (s ∷ ss) = map f s.messages ++ (if s.waits then heard_with f ss else [])

abbrev pub heard : List Session → List (Event × ℕ)
heard = heard_with sent_as

-- the delays from the reconnection `n` on
abbrev pub delays : ℕ → List Session → List ℕ
delays n [] = []
delays n (s ∷ ss) = if s.waits then (if ltb n 5 then 2 ^ n else 32) ∷ delays (suc n) ss else []

session-publish_all :
    (tracker : Dict (List ℕ)) (b : Bus) (ms : List Message) (es : List (Event × ℕ))
    → publish_all b (detect_all tracker (map heard_as ms ++ es))
      ≡ publish_all (session tracker b ms).1 (detect_all (session tracker b ms).0 es)
unfolding session detect_all publish_all
session-publish_all tracker b [] es = refl
session-publish_all tracker b (m ∷ ms) es =
    let (e, tracker') = detect_flapping (heard_as m).0 m.counted_at tracker in
    session-publish_all tracker' (publish b e) ms es

listen-publish_all :
    (tracker : Dict (List ℕ)) (b : Bus) (n : ℕ) (ss : List Session)
    → (listen tracker b n ss).0 ≡ publish_all b (detect_all tracker (heard_with heard_as ss))
unfolding listen detect_all publish_all
listen-publish_all tracker b n [] = refl
listen-publish_all tracker b n (s ∷ ss) =
    go s.waits (listen-publish_all after.0 after.1 (next_backoff n) ss)
  where
    after : Dict (List ℕ) × Bus
    after = session tracker b s.messages

    go :
        (w : Bool)
        → (listen after.0 after.1 (next_backoff n) ss).0
          ≡ publish_all after.1 (detect_all after.0 (heard_with heard_as ss))
        → (after_delay w n after.1 (listen after.0 after.1 (next_backoff n) ss)).0
          ≡ publish_all b (
              detect_all tracker
                (map heard_as s.messages ++ (if w then heard_with heard_as ss else [])))
    go true ih = ih ∙ sym (session-publish_all tracker b s.messages (heard_with heard_as ss))
    go false ih = sym (session-publish_all tracker b s.messages [])

listen-delays :
    (tracker : Dict (List ℕ)) (b : Bus) (n : ℕ) (ss : List Session)
    → (listen tracker b (backoff n) ss).1 ≡ delays n ss
unfolding listen backoff
listen-delays tracker b n [] = refl
listen-delays tracker b n (s ∷ ss) =
    let after = session tracker b s.messages in
    go s.waits after.1 (listen after.0 after.1 (backoff (suc n)) ss)
      (listen-delays after.0 after.1 (suc n) ss)
  where
    go :
        (w : Bool) (c : Bus) (rest : Bus × List ℕ)
        → rest.1 ≡ delays (suc n) ss
        → (after_delay w (backoff n) c rest).1
          ≡ (if w then (if ltb n 5 then 2 ^ n else 32) ∷ delays (suc n) ss else [])
    go true c rest ih = ap₂ (λ x l. x ∷ l) (backoff_lem n) ih
    go false c rest ih = refl

-- However often the connection to a sentinel is lost, the listener publishes every event that it hears
-- before the context is done, once and in order; flagged are exactly the +sdown events of a node that
-- has at least three of them less than 60 seconds old, those of earlier connections included, on a
-- clock that does not go back. It waits 1, 2, 4, 8 and 16 seconds before the first five reconnections and
-- 32 seconds before every later one, also after a connection that worked.
pub listen_sentinel_lem :
    (b : Bus) (ss : List Session)
    → Ordered 0 (heard ss)
    → ((listen_sentinel b ss).0 ≡ publish_all b (flag_all [] (heard ss)))
      × ((listen_sentinel b ss).1 ≡ delays 0 ss)
unfolding listen_sentinel backoff
listen_sentinel_lem b ss o = (
  listen-publish_all [] b 1 ss
      ∙ ap (λ f. publish_all b (detect_all [] (heard_with f ss))) heard_as_sent
      ∙ ap (publish_all b) (detect_all_lem (heard ss) o),
  listen-delays [] b 0 ss,
)
