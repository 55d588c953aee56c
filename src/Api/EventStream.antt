-- ===== src/Api/EventStream.antt =====
-- internal/api/handlers/events.go: the stream of the Sentinel events. The handler subscribes, takes
-- one event after the other from its channel until the client is gone, and unsubscribes. Its goroutine
-- runs beside those that publish: a run is the sequence of their turns, and its end is the turn at
-- which the handler finds the context done.
pub mod Refinement
use redis_admin.Base.{ℕ, Option, none, some, List, [], ◌∷◌, ◌++◌, Str, str}
use redis_admin.Sentinel.EventBus.{Event, Bus, subscribe, unsubscribe, publish, receive}

pub data Turn : Type 0 where
  -- another goroutine publishes an event
  published : Event → Turn
  -- the handler's select, which takes an event where the channel has one
  selected : Turn

-- what the handler writes of an event: nothing where json.Marshal fails
abbrev pub frame : Option Str → List Str
frame none = []
frame (some text) = (str "event: sentinel\ndata: " ++ text ++ str "\n\n") ∷ []

module _ (marshal : Event → Option Str) where
  abbrev wrote : Bus → List Str → Option (Event × Bus) → Bus × List Str
  wrote b out none = (b, out)
  wrote b out (some (e, b')) = (b', out ++ frame (marshal e))

  unfoldable pub turn : ℕ → Bus → List Str → Turn → Bus × List Str
  unfolding publish receive
  turn ch b out (published e) = (publish b e, out)
  turn ch b out selected = wrote b out (receive b ch)

  -- the loop, with what has been written so far
  unfoldable pub stream_loop : ℕ → Bus → List Str → List Turn → Bus × List Str
  unfolding turn
  stream_loop ch b out [] = (b, out)
  stream_loop ch b out (t ∷ ts) = stream_loop ch (turn ch b out t).0 (turn ch b out t).1 ts

  abbrev closed : Option Bus → List Str → Option (Bus × List Str)
  closed none out = none
  closed (some b) out = some (b, out)

  -- EventStream: the bus after it and what the client was sent, and `none` for the panic of closing a
  -- channel that is closed
  unfoldable pub event_stream : Bus → List Turn → Option (Bus × List Str)
  unfolding subscribe stream_loop unsubscribe
  event_stream b ts =
      let (ch, b') = subscribe b in
      let (after, out) = stream_loop ch b' [] ts in closed (unsubscribe after ch) out
