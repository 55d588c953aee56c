-- ===== src/Sentinel/EventBus/Receive.antt =====
-- What Subscribe and a receiver do to the buffers of the event bus.
use redis_admin.Base.{
  ℕ, ◌<◌, ◌≡◌, ◌≢◌, refl, ap, inl, inr, none, some, List, [], ◌∷◌, ◌++◌, arith, ◌==◌, Bool-cases,
  All,
}
use redis_admin.Sentinel.EventBus.{Event, Bus, subscribe, buffer, set_buffer, receive_from, receive}

pub buffer-set_buffer :
    (ch : ℕ) (new : List Event) (subs : List (ℕ × List Event)) {buf : List Event}
    → buffer ch subs ≡ some buf
    → buffer ch (set_buffer ch new subs) ≡ some new
unfolding buffer set_buffer
buffer-set_buffer ch new [] h = absurd (cc)
buffer-set_buffer ch new ((id, old) ∷ subs) h = elim (Bool-cases (id == ch)) [
  | inl e ↦ rw e (rw e refl)
  | inr e ↦ rw e (rw e (buffer-set_buffer ch new subs (rw e at h)))
]

pub buffer-set_buffer_ne :
    (ch other : ℕ) (new : List Event) (subs : List (ℕ × List Event))
    → ch ≢ other
    → buffer other (set_buffer ch new subs) ≡ buffer other subs
unfolding buffer set_buffer
buffer-set_buffer_ne ch other new [] n = refl
buffer-set_buffer_ne ch other new ((id, old) ∷ subs) n =
    ground (arith, buffer-set_buffer_ne ch other new subs)

-- the oldest event of a buffer that has one is received, and the other buffers stay
pub receive_oldest :
    (b : Bus) (ch : ℕ) (e : Event) (buf : List Event)
    → buffer ch b.subs ≡ some (e ∷ buf)
    → (b' : Bus) × (receive b ch ≡ some (e, b'))
      × (buffer ch b'.subs ≡ some buf)
      × ((other : ℕ) → ch ≢ other → buffer other b'.subs ≡ buffer other b.subs)
unfolding receive
receive_oldest b ch e buf h = (
  record b { subs = set_buffer ch buf b.subs },
  ap (receive_from b ch) h,
  buffer-set_buffer ch buf b.subs h,
  λ other n. buffer-set_buffer_ne ch other buf b.subs n,
)

-- there is nothing to receive from an empty buffer
pub receive_nothing : (b : Bus) (ch : ℕ) → buffer ch b.subs ≡ some [] → receive b ch ≡ none
unfolding receive
receive_nothing b ch h = ap (receive_from b ch) h

pub buffer-append_new :
    (ch : ℕ) (subs : List (ℕ × List Event))
    → All (λ s. s.0 < ch) subs
    → buffer ch (subs ++ (ch, []) ∷ []) ≡ some []
unfolding buffer
buffer-append_new ch [] h = ground arith
buffer-append_new ch ((id, buf) ∷ subs) h = ground (arith, buffer-append_new ch subs)

pub buffer-append_ne :
    (ch other : ℕ) (subs : List (ℕ × List Event))
    → ch ≢ other
    → buffer other (subs ++ (ch, []) ∷ []) ≡ buffer other subs
unfolding buffer
buffer-append_ne ch other [] n = ground arith
buffer-append_ne ch other ((id, buf) ∷ subs) n = ground (arith, buffer-append_ne ch other subs)

-- a new channel has an empty buffer, and the other buffers stay
pub subscribe_lem :
    (b : Bus)
    → All (λ s. s.0 < b.next) b.subs
    → (buffer (subscribe b).0 (subscribe b).1.subs ≡ some [])
      × ((other : ℕ)
          → (subscribe b).0 ≢ other
          → buffer other (subscribe b).1.subs ≡ buffer other b.subs)
unfolding subscribe
subscribe_lem b h =
    (buffer-append_new b.next b.subs h, λ other n. buffer-append_ne b.next other b.subs n)
