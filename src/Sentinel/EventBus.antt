-- ===== src/Sentinel/EventBus.antt =====
-- internal/sentinel/pubsub.go: SentinelEvent and EventBus. A subscriber's channel is a number that
-- Subscribe has not handed out before, with what its buffer holds, oldest first.
pub mod Buffers
pub mod Queues
pub mod Delivery
pub mod Receive
use redis_admin.Base.{
  ℕ, suc, ◌+◌, Bool, Option, none, some, List, [], ◌∷◌, ◌++◌, Str, length, ltb, if◌then◌else◌, ◌==◌,
}

pub record Event : Type 0 where
  pub channel : Str
  pub payload : Str
  pub node_addr : Str
  pub is_flapping : Bool
  pub timestamp : ℕ

pub record Bus : Type 0 where
  pub subs : List (ℕ × List Event)
  pub next : ℕ

-- NewEventBus
abbrev pub new_event_bus : Bus
new_event_bus = record { subs = []; next = 0 }

-- the capacity of a subscriber's channel
abbrev pub capacity : ℕ
capacity = 64

unfoldable pub subscribe : Bus → ℕ × Bus
subscribe b = (b.next, record { subs = b.subs ++ (b.next, []) ∷ []; next = b.next + 1 })

-- the buffer of a channel that is subscribed
unfoldable pub buffer : ℕ → List (ℕ × List Event) → Option (List Event)
buffer ch [] = none
buffer ch ((id, buf) ∷ subs) = if id == ch then some buf else buffer ch subs

unfoldable pub delete : ℕ → List (ℕ × List Event) → List (ℕ × List Event)
delete ch [] = []
delete ch ((id, buf) ∷ subs) =
    let rest = delete ch subs in if id == ch then rest else (id, buf) ∷ rest

-- `none` is the panic of closing a channel that is closed: each channel of Subscribe that is no
-- longer subscribed has been closed.
unfoldable pub unsubscribe : Bus → ℕ → Option Bus
unfolding buffer delete
unsubscribe b ch = elim (buffer ch b.subs) [
  | none ↦ none
  | some buf ↦ some (record b { subs = delete ch b.subs })
]

-- the select with a default: an event that finds the buffer full is dropped
unfoldable pub offer : Event → List Event → List Event
offer e buf = if ltb (length buf) capacity then buf ++ e ∷ [] else buf

pub offer_each : Event → List (ℕ × List Event) → List (ℕ × List Event)
unfolding offer
offer_each e [] = []
offer_each e ((id, buf) ∷ subs) = (id, offer e buf) ∷ offer_each e subs

unfoldable pub publish : Bus → Event → Bus
unfolding offer_each
publish b e = record b { subs = offer_each e b.subs }

pub set_buffer : ℕ → List Event → List (ℕ × List Event) → List (ℕ × List Event)
set_buffer ch new [] = []
set_buffer ch new ((id, buf) ∷ subs) =
    if id == ch then (id, new) ∷ subs else (id, buf) ∷ set_buffer ch new subs

abbrev receive_from : Bus → ℕ → Option (List Event) → Option (Event × Bus)
receive_from b ch none = none
receive_from b ch (some []) = none
receive_from b ch (some (e ∷ buf)) = some (e, record b { subs = set_buffer ch buf b.subs })

-- `<-ch` on a channel that has an event; `none` where the receiver would wait
unfoldable pub receive : Bus → ℕ → Option (Event × Bus)
unfolding buffer set_buffer
receive b ch = receive_from b ch (buffer ch b.subs)
