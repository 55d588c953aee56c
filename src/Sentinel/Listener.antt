-- ===== src/Sentinel/Listener.antt =====
-- internal/sentinel/pubsub.go: listenSentinel and subscribe, for one sentinel. A session is what one
-- connection brings before its channel is closed or the context is done. Delays are in seconds.
pub mod Sent
pub mod Sessions
pub mod Sentinels
use redis_admin.Base.{
  ℕ, zero, suc, ◌*◌, ◌^◌, ◌≡◌, refl, ap, ◌∙◌, Bool, true, false, List, [], ◌∷◌, Str, Dict, ltb,
  if◌then◌else◌, arith,
}
use redis_admin.Sentinel.EventBus.{Event, Bus, publish}
use redis_admin.Sentinel.Flapping.{parse_event, detect_flapping}

-- a message of the sentinel, with the times at which parseEvent and detectFlapping read the clock
pub record Message : Type 0 where
  pub channel : Str
  pub payload : Str
  pub parsed_at : ℕ
  pub counted_at : ℕ

-- the event that parseEvent makes of a message, with the time at which it is counted
abbrev pub heard_as : Message → Event × ℕ
heard_as m = (parse_event m.channel m.payload m.parsed_at, m.counted_at)

-- what one connection brings, and whether the delay after it goes by before the context is done
pub record Session : Type 0 where
  pub messages : List Message
  pub waits : Bool

-- the loop of subscribe: the tracker and the bus after the messages
unfoldable pub session : Dict (List ℕ) → Bus → List Message → Dict (List ℕ) × Bus
unfolding parse_event detect_flapping publish
session tracker b [] = (tracker, b)
session tracker b (m ∷ ms) =
    let (e, tracker') = detect_flapping (heard_as m).0 m.counted_at tracker in
    session tracker' (publish b e) ms

-- `if backoff < 30*time.Second { backoff *= 2 }`
pub next_backoff : ℕ → ℕ
next_backoff b = if ltb b 30 then b * 2 else b

-- what follows a connection: the next one, or the return where the context is done
abbrev pub after_delay : Bool → ℕ → Bus → Bus × List ℕ → Bus × List ℕ
after_delay true delay b rest = (rest.0, delay ∷ rest.1)
after_delay false delay b rest = (b, [])

-- the loop of listenSentinel with the tracker, which it keeps, and the delay: the bus and the delays
-- that went by. The sessions end where the context is found done before a connection.
unfoldable pub listen : Dict (List ℕ) → Bus → ℕ → List Session → Bus × List ℕ
unfolding session next_backoff
listen tracker b delay [] = (b, [])
listen tracker b delay (s ∷ ss) =
    let after = session tracker b s.messages in
    let rest = listen after.0 after.1 (next_backoff delay) ss in
    after_delay s.waits delay after.1 rest

-- listenSentinel
unfoldable pub listen_sentinel : Bus → List Session → Bus × List ℕ
unfolding listen
listen_sentinel b ss = listen [] b 1 ss

-- the delay before the reconnection `n`, from 0
unfoldable pub backoff : ℕ → ℕ
unfolding next_backoff
backoff zero = 1
backoff (suc n) = next_backoff (backoff n)

backoff_five : (n : ℕ) → backoff (suc (suc (suc (suc (suc n))))) ≡ 32
unfolding backoff
backoff_five zero = refl
backoff_five (suc n) = ap next_backoff (backoff_five n)

-- The delays are 1, 2, 4, 8 and 16 seconds, and 32 seconds for every later reconnection: the bound
-- of 30 seconds in the test is passed by one doubling, and the delay never falls again.
pub backoff_lem : (n : ℕ) → backoff n ≡ (if ltb n 5 then 2 ^ n else 32)
backoff_lem zero = unfold backoff in refl
backoff_lem (suc zero) = unfold backoff in refl
backoff_lem (suc (suc zero)) = unfold backoff in refl
backoff_lem (suc (suc (suc zero))) = unfold backoff in refl
backoff_lem (suc (suc (suc (suc zero)))) = unfold backoff in refl
backoff_lem (suc (suc (suc (suc (suc n))))) = backoff_five n ∙ ground arith
