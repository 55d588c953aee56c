-- ===== src/Samples/Listeners.antt =====
-- What two sentinels report of one node that goes down and comes back.
use redis_admin.Base.{ℕ, ◌+◌, ◌≡◌, true, false, List, [], ◌∷◌, map, arith, str}
use redis_admin.Sentinel.EventBus.{new_event_bus}
use redis_admin.Sentinel.EventBus.Delivery.{publish_all}
use redis_admin.Sentinel.Flapping.Stream.{Ordered, flag_all}
use redis_admin.Sentinel.Listener.{Message, Session, listen_sentinel}
use redis_admin.Sentinel.Listener.Sent.{sent_as}
use redis_admin.Sentinel.Listener.Sessions.{heard, listen_sentinel_lem}
use redis_admin.Sentinel.Listener.Sentinels.{listeners, of_listener, listeners_lem}

abbrev down : ℕ → Message
down t = record {
  channel = str "+sdown";
  payload = str "slave r 10.0.0.2 1 @ m";
  parsed_at = t;
  counted_at = t + 1;
}

abbrev sessions : List Session
sessions =
    record { messages = down 1 ∷ down 4 ∷ []; waits = true }
    ∷ record { messages = down 9 ∷ []; waits = false }
    ∷ []

in_order : Ordered 0 (heard sessions)
in_order = omega arith

listen_sentinel_lem_example :
    ((listen_sentinel new_event_bus sessions).0
      ≡ publish_all new_event_bus (flag_all [] (heard sessions)))
    × ((listen_sentinel new_event_bus sessions).1 ≡ 1 ∷ [])
listen_sentinel_lem_example = listen_sentinel_lem new_event_bus sessions in_order

abbrev both : List (ℕ × Message)
both = (0, down 1) ∷ (1, down 2) ∷ (0, down 4) ∷ (1, down 9) ∷ (0, down 11) ∷ []

both_in_order : (i : ℕ) → Ordered 0 (map sent_as (of_listener i both))
both_in_order i = ground arith

listeners_lem_example :
    ((listeners (λ i. []) new_event_bus both).0
      ≡ publish_all new_event_bus (map (λ p. p.1) (listeners (λ i. []) new_event_bus both).1))
    × ((i : ℕ)
        → of_listener i (listeners (λ i. []) new_event_bus both).1
          ≡ flag_all [] (map sent_as (of_listener i both)))
listeners_lem_example = listeners_lem new_event_bus both both_in_order
