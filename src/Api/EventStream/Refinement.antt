-- ===== src/Api/EventStream/Refinement.antt =====
-- The stream of one client against a single queue.
use redis_admin.Base.{
  ℕ, ◌<◌, ◌≡◌, ◌≢◌, ap, sym, ◌∙◌, Option, none, some, List, [], ◌∷◌, ◌++◌, Str, append-nil,
  append_assoc, All, if◌then◌else◌, ltb, length,
}
use mathlib.Core.Option
use redis_admin.Sentinel.EventBus.{Event, Bus, capacity, buffer, subscribe, offer, publish}
use redis_admin.Sentinel.EventBus.Delivery.{
  publish_all, unsubscribe_subscribed, buffer-publish, buffer_published, unsubscribe_lem,
}
use redis_admin.Sentinel.EventBus.Receive.{receive_oldest, receive_nothing, subscribe_lem}
use redis_admin.Api.EventStream.{
  Turn, published, selected, frame, turn, stream_loop, closed, event_stream,
}

-- One queue of the capacity of a channel: an event that finds it full is dropped, and a turn of the
-- handler takes the oldest.
abbrev pub served : List Event → List Turn → List Event
served q [] = []
served q (published e ∷ ts) = served (if ltb (length q) capacity then q ++ e ∷ [] else q) ts
served [] (selected ∷ ts) = served [] ts
served (e ∷ q) (selected ∷ ts) = e ∷ served q ts

-- the events that are published, in order
abbrev pub events_of : List Turn → List Event
events_of [] = []
events_of (published e ∷ ts) = e ∷ events_of ts
events_of (selected ∷ ts) = events_of ts

abbrev pub frames : (Event → Option Str) → List Event → List Str
frames marshal [] = []
frames marshal (e ∷ es) = frame (marshal e) ++ frames marshal es

-- the other channels have the same buffers on both
abbrev pub SameFor : ℕ → Bus → Bus → Type 0
SameFor ch b c = (other : ℕ) → ch ≢ other → buffer other b.subs ≡ buffer other c.subs

SameFor-publish :
    (ch : ℕ) (b c : Bus) (e : Event) → SameFor ch b c → SameFor ch (publish b e) (publish c e)
SameFor-publish ch b c e h other n =
    buffer-publish other b e
    ∙ ap (Option.map (offer e)) (h other n)
    ∙ sym (buffer-publish other c e)

module _ (marshal : Event → Option Str) (ch : ℕ) where
  -- what holds at the end of a run from a queue on
  abbrev Served : Bus × List Str → Bus → List Str → List Event → List Turn → Type 0
  Served p c out q ts =
      (rest : List Event) × (buffer ch p.0.subs ≡ some rest)
      × (p.1 ≡ out ++ frames marshal (served q ts))
      × SameFor ch p.0 (publish_all c (events_of ts))

  stream_loop-Served :
      (b c : Bus) (q : List Event) (out : List Str) (ts : List Turn)
      → buffer ch b.subs ≡ some q
      → SameFor ch b c
      → Served (stream_loop marshal ch b out ts) c out q ts
  unfolding stream_loop turn publish_all offer
  stream_loop-Served b c q out [] h s = (q, h, sym (append-nil out), s)
  stream_loop-Served b c q out (published e ∷ ts) h s =
      stream_loop-Served (publish b e) (publish c e) (offer e q) out ts (buffer_published ch b e h)
        (SameFor-publish ch b c e s)
  stream_loop-Served b c [] out (selected ∷ ts) h s =
      rw (receive_nothing b ch h, stream_loop, turn) (stream_loop-Served b c [] out ts h s)
  stream_loop-Served b c (e ∷ q) out (selected ∷ ts) h s =
      let (b', got, left, others) = receive_oldest b ch e q h in
      let (rest, k, wrote_all, same) =
        stream_loop-Served b' c q (out ++ frame (marshal e)) ts left
          (λ other n. others other n ∙ s other n) in
      rw (got, stream_loop, turn)
        ((
          rest,
          k,
          wrote_all ∙ append_assoc out (frame (marshal e)) (frames marshal (served q ts)),
          same,
        ))

-- What a client is sent is what one queue of the capacity of a channel would have given it: the events
-- that are published while it is connected, in their order, without those that find the queue full,
-- and without those that json.Marshal refuses. The handler never panics, its channel is gone
-- afterwards, and every other channel has the buffer that it would have without this client.
pub event_stream-Refines :
    (marshal : Event → Option Str) (b : Bus) (ts : List Turn)
    → All (λ s. s.0 < b.next) b.subs
    → (b' : Bus) × (event_stream marshal b ts ≡ some (b', frames marshal (served [] ts)))
      × (buffer (subscribe b).0 b'.subs ≡ none)
      × SameFor (subscribe b).0 b' (publish_all b (events_of ts))
unfolding event_stream
event_stream-Refines marshal b ts handed_out =
    let ch = (subscribe b).0 in
    let (empty, others) = subscribe_lem b handed_out in
    let run = stream_loop marshal ch (subscribe b).1 [] ts in
    let (rest, left, wrote_all, same) =
      stream_loop-Served marshal ch (subscribe b).1 b [] [] ts empty others in
    let (b', e) = unsubscribe_subscribed ch run.0 left in
    let (gone, kept, twice) = unsubscribe_lem ch run.0 b' e in
    (
      b',
      ap (λ o. closed marshal o run.1) e ∙ ap (λ out. some (b', out)) wrote_all,
      gone,
      λ other n. kept other n ∙ same other n,
    )
