-- ===== src/Sentinel/Listener/Sent.antt =====
-- The event of a message by the documented format of its payload:
-- "<role> <name> <ip> <port> @ <master-name> <master-ip> <master-port>".
use redis_admin.Base.{ℕ, ◌≡◌, refl, false, List, [], ◌∷◌, ◌++◌, Str, drop, fields}
use redis_admin.Sentinel.EventBus.{Event}
use redis_admin.Sentinel.Flapping.{node_addr_of, parse_event}
use redis_admin.Sentinel.Listener.{Message, heard_as}

-- "<ip>:<port>" of the fields from the address on
abbrev pub address_from : List Str → Str
address_from [] = []
address_from (ip ∷ []) = []
address_from (ip ∷ port ∷ more) = ip ++ b':' ∷ port

-- the event that a message stands for, not flagged, with the time at which it is counted
abbrev pub sent_as : Message → Event × ℕ
sent_as m = (
  record {
    channel = m.channel;
    payload = m.payload;
    node_addr = address_from (drop 2 (fields m.payload));
    is_flapping = false;
    timestamp = m.parsed_at;
  },
  m.counted_at,
)

heard_as-sent_as : (m : Message) → heard_as m ≡ sent_as m
unfolding parse_event
heard_as-sent_as m = go (fields m.payload)
  where
    at : Str → Event × ℕ
    at a = (
      record {
        channel = m.channel;
        payload = m.payload;
        node_addr = a;
        is_flapping = false;
        timestamp = m.parsed_at;
      },
      m.counted_at,
    )

    go : (fs : List Str) → at (node_addr_of fs) ≡ at (address_from (drop 2 fs))
    go [] = refl
    go (a ∷ []) = refl
    go (a ∷ b ∷ []) = refl
    go (a ∷ b ∷ c ∷ []) = refl
    go (a ∷ b ∷ c ∷ d ∷ fs) = refl

pub heard_as_sent : heard_as ≡ sent_as
heard_as_sent i m = heard_as-sent_as m i
