-- ===== src/Samples/EventStreams.antt =====
-- The two streams of the API on the cluster of the samples.
use redis_admin.Base.{
  Dict, ℕ, ◌+◌, ◌*◌, ◌≤◌, ◌≡◌, ◌≢◌, refl, ◌↔◌, Bool, true, false, Option, none, some, List, [], ◌∷◌,
  ◌++◌, arith, Str, str, eq_str, ℤ, pos, length, All, if◌then◌else◌, ◌==◌, lt_int,
}
use redis_admin.Errors.{Err}
use redis_admin.Keys.Scanner.{NamespaceAverage}
use redis_admin.Sentinel.EventBus.{Event, Bus, new_event_bus, buffer, subscribe}
use redis_admin.Sentinel.EventBus.Delivery.{publish_all}
use redis_admin.Api.Query.{threshold_bytes}
use redis_admin.Api.EventStream.{Turn, published, selected, event_stream}
use redis_admin.Api.EventStream.Refinement.{
  frames, served, events_of, SameFor, event_stream-Refines,
}
use redis_admin.Api.BigkeyStream.{
  SseEvent, key_found, summary, done, stream_bigkeys, Framed, stream_bigkeys-Framed,
}
use redis_admin.Samples.Cluster.{config}
use redis_admin.Samples.Services.{keyed, whole}

abbrev calm : ℕ → Option Err
calm n = none

abbrev event : Str → Event
event payload = record {
  channel = str "+sdown";
  payload = payload;
  node_addr = str "a:1";
  is_flapping = false;
  timestamp = 4;
}

abbrev marshal : Event → Option Str
marshal e = some e.payload

abbrev turns : List Turn
turns = selected ∷ published (event (str "x")) ∷ published (event (str "y")) ∷ selected ∷ []

event_stream-Refines_example :
    (b' : Bus) × (event_stream marshal new_event_bus turns
      ≡ some (b', frames marshal (served [] turns)))
    × (buffer (subscribe new_event_bus).0 b'.subs ≡ none)
    × SameFor (subscribe new_event_bus).0 b' (publish_all new_event_bus (events_of turns))
event_stream-Refines_example = event_stream-Refines marshal new_event_bus turns tt

abbrev met : Str → Str → Str → SseEvent ℕ
met addr key ns = key_found (record {
  key = key;
  type_name = str "hash";
  size_bytes = pos 64;
  node_addr = addr;
  namespace = ns;
  ttl_seconds = pos 0;
})

abbrev both : Str → NamespaceAverage ℕ
both ns = record {
  stat = record { namespace = ns; key_count = 2; total_bytes = pos 128; max_bytes = pos 64 };
  avg_bytes = 64;
}

abbrev stream : List (SseEvent ℕ)
stream =
    met (str "b:1") (str "u:1") (str "u")
    ∷ met (str "b:1") (str "v") (str "v")
    ∷ met (str "c:1") (str "u:1") (str "u")
    ∷ met (str "c:1") (str "v") (str "v")
    ∷ summary (both (str "u") ∷ both (str "v") ∷ [])
    ∷ done
    ∷ []

streamed : stream_bigkeys whole keyed config calm 3 (str "60") ≡ some stream
unfolding stream_bigkeys redis_admin.Base.insert eq_str
streamed = refl

stream_bigkeys-Framed_example :
    (lt_int (pos 0) (threshold_bytes (str "60")) ≡ true)
    × Framed whole (threshold_bytes (str "60")) stream
stream_bigkeys-Framed_example =
    stream_bigkeys-Framed whole keyed config calm 3 (str "60") stream streamed
