-- ===== src/Sentinel/EventBus/Queues.antt =====
-- The event bus of internal/sentinel/pubsub.go against one queue for each subscriber.
use redis_admin.Base.{
  ℕ, ◌+◌, ◌<◌, ◌≡◌, Option, none, some, List, [], ◌∷◌, ◌++◌, length, ltb, ◌==◌, if◌then◌else◌, All,
}
use mathlib.Core.Option
use redis_admin.Sentinel.EventBus.{Event, Bus, subscribe, buffer, unsubscribe, publish, receive}

-- one call of the bus, or a receiver that takes what its channel has
pub data Call : Type 0 where
  subscribes : Call
  unsubscribes : ℕ → Call
  publishes : Event → Call
  receives : ℕ → Call

abbrev pub Received : Type 0
Received = List (ℕ × Event)

abbrev taken : Bus → ℕ → Option (Event × Bus) → Received × Bus
taken b ch none = ([], b)
taken b ch (some (e, b')) = ((ch, e) ∷ [], b')

-- what the call gives to a receiver, and the bus after it; `none` is a panic
abbrev pub bus_step : Bus → Call → Option (Received × Bus)
bus_step b subscribes = some ([], (subscribe b).1)
bus_step b (unsubscribes ch) = Option.map (λ b'. ([], b')) (unsubscribe b ch)
bus_step b (publishes e) = some ([], publish b e)
bus_step b (receives ch) = some (taken b ch (receive b ch))

-- The reference: the number of the next channel, and a queue for each channel that is subscribed.
pub record Queues : Type 0 where
  pub next : ℕ
  pub queue : ℕ → Option (List Event)

abbrev pub no_queues : Queues
no_queues = record { next = 0; queue = λ i. none }

abbrev put : ℕ → Option (List Event) → Queues → Queues
put ch o s = record s { queue = λ i. if ch == i then o else s.queue i }

-- a queue of 64 events, which drops what finds it full
abbrev enqueue : Event → List Event → List Event
enqueue e q = if ltb (length q) 64 then q ++ e ∷ [] else q

abbrev dequeue : Queues → ℕ → Option (List Event) → Received × Queues
dequeue s ch none = ([], s)
dequeue s ch (some []) = ([], s)
dequeue s ch (some (e ∷ q)) = ((ch, e) ∷ [], put ch (some q) s)

abbrev pub queue_step : Queues → Call → Option (Received × Queues)
queue_step s subscribes = some ([], record (put s.next (some []) s) { next = s.next + 1 })
queue_step s (unsubscribes ch) = Option.map (λ q. ([], put ch none s)) (s.queue ch)
queue_step s (publishes e) = some ([], record s { queue = λ i. Option.map (enqueue e) (s.queue i) })
queue_step s (receives ch) = some (dequeue s ch (s.queue ch))

-- several calls, one after the other, with everything that was received
unfoldable pub run_calls :
    {S : Type 0} → (S → Call → Option (Received × S)) → S → List Call → Option (Received × S)
run_calls step s [] = some ([], s)
run_calls step s (c ∷ cs) = elim (step s c) [
  | none ↦ none
  | some p ↦ Option.map (λ r. (p.0 ++ r.0, r.1)) (run_calls step p.1 cs)
]

-- each channel of the bus has the buffer that is its queue
pub record Matches (b : Bus) (s : Queues) : Type 0 where
  pub same : (ch : ℕ) → buffer ch b.subs ≡ s.queue ch
  pub numbered : b.next ≡ s.next
  pub handed_out : All (λ x. x.0 < b.next) b.subs

-- both panic, or both go on with the same events received
abbrev pub Agree : Option (Received × Bus) → Option (Received × Queues) → Type 0
Agree none none = Unit
Agree none (some q) = ⊥
Agree (some p) none = ⊥
Agree (some p) (some q) = (p.0 ≡ q.0) × Matches p.1 q.1
