-- ===== src/Sentinel/Listener/Sentinels.antt =====
-- internal/sentinel/pubsub.go: Run, one listener for each sentinel, which share the bus and nothing else. A
-- turn is a message that the listener of one sentinel handles; the turns stand in the order in which the bus
-- takes their events.
use redis_admin.Base.{
  ℕ, ◌≡◌, refl, ap, sym, ◌∙◌, Bool, true, false, List, [], ◌∷◌, Dict, map, if◌then◌else◌, ◌==◌,
  arith,
}
use mathlib.Core.Path.{subst}
use redis_admin.Sentinel.Listener.Sent.{sent_as, heard_as_sent}
use redis_admin.Sentinel.EventBus.{Event, Bus, publish}
use redis_admin.Sentinel.EventBus.Delivery.{publish_all}
use redis_admin.Sentinel.Flapping.{detect_flapping}
use redis_admin.Sentinel.Flapping.Stream.{detect_all, flag_all, Ordered, detect_all_lem}
use redis_admin.Sentinel.Listener.{Message, heard_as}

-- the flapTracker of each listener, by the position of its sentinel in the configuration
abbrev pub Trackers : Type 0
Trackers = ℕ → Dict (List ℕ)

abbrev pub set_tracker : ℕ → Dict (List ℕ) → Trackers → Trackers
set_tracker i t trackers = λ j. if i == j then t else trackers j

-- Run, up to some turn: the bus, and what was published, with the listener
unfoldable pub listeners : Trackers → Bus → List (ℕ × Message) → Bus × List (ℕ × Event)
unfolding detect_flapping publish
listeners trackers b [] = (b, [])
listeners trackers b ((i, m) ∷ turns) =
    let (e, t) = detect_flapping (heard_as m).0 m.counted_at (trackers i) in
    let (b', log) = listeners (set_tracker i t trackers) (publish b e) turns in (b', (i, e) ∷ log)

-- what belongs to one listener
abbrev pub of_listener {ℓ} : {A : Type ℓ} → ℕ → List (ℕ × A) → List A
of_listener i [] = []
of_listener i ((j, a) ∷ rest) = if j == i then a ∷ of_listener i rest else of_listener i rest

listeners-publish_all :
    (trackers : Trackers) (b : Bus) (turns : List (ℕ × Message))
    → (listeners trackers b turns).0 ≡ publish_all b (map (λ p. p.1) (listeners trackers b turns).1)
unfolding listeners publish_all
listeners-publish_all trackers b [] = refl
listeners-publish_all trackers b ((i, m) ∷ turns) =
    let (e, t) = detect_flapping (heard_as m).0 m.counted_at (trackers i) in
    listeners-publish_all (set_tracker i t trackers) (publish b e) turns

listeners-detect_all :
    (trackers : Trackers) (b : Bus) (turns : List (ℕ × Message)) (i : ℕ)
    → of_listener i (listeners trackers b turns).1
      ≡ detect_all (trackers i) (map heard_as (of_listener i turns))
unfolding listeners detect_all
listeners-detect_all trackers b [] i = refl
listeners-detect_all trackers b ((j, m) ∷ turns) i =
    let (e, t) = detect_flapping (heard_as m).0 m.counted_at (trackers j) in
    go e t (listeners (set_tracker j t trackers) (publish b e) turns).1 refl (j == i)
      (λ h. ground arith) (listeners-detect_all (set_tracker j t trackers) (publish b e) turns i)
  where
    go :
        (e : Event) (t : Dict (List ℕ)) (log : List (ℕ × Event))
        → detect_flapping (heard_as m).0 m.counted_at (trackers j) ≡ (e, t)
        → (mine : Bool) → (mine ≡ true → j ≡ i)
        → of_listener i log
          ≡ detect_all (if mine then t else trackers i) (map heard_as (of_listener i turns))
        → (if mine then e ∷ of_listener i log else of_listener i log)
          ≡ detect_all
              (trackers i)
              (map heard_as (if mine then m ∷ of_listener i turns else of_listener i turns))
    go e t log h true same ih =
        ap (λ l. e ∷ l) ih
        ∙ sym (ap (λ q. q.0 ∷ detect_all q.1 (map heard_as (of_listener i turns))) h)
        ∙ ap (λ k. detect_all (trackers k) (heard_as m ∷ map heard_as (of_listener i turns)))
            (same refl)
    go e t log h false same ih = ih

listeners-flag_all :
    (b : Bus) (turns : List (ℕ × Message))
    → ((i : ℕ) → Ordered 0 (map heard_as (of_listener i turns)))
    → (i : ℕ)
    → of_listener i (listeners (λ i. []) b turns).1
      ≡ flag_all [] (map heard_as (of_listener i turns))
listeners-flag_all b turns o i =
    listeners-detect_all (λ i. []) b turns i
    ∙ detect_all_lem (map heard_as (of_listener i turns)) (o i)

-- Whatever the sentinels send, and in whatever order their listeners come to the bus, the bus is given the
-- events that are published one after the other; those of each listener are the messages of its sentinel,
-- once and in order, and flagged by what that sentinel alone has sent: exactly the +sdown events of a node
-- with at least three of them less than 60 seconds old, on a clock that does not go back.
pub listeners_lem :
    (b : Bus) (turns : List (ℕ × Message))
    → ((i : ℕ) → Ordered 0 (map sent_as (of_listener i turns)))
    → ((listeners (λ i. []) b turns).0
        ≡ publish_all b (map (λ p. p.1) (listeners (λ i. []) b turns).1))
      × ((i : ℕ)
          → of_listener i (listeners (λ i. []) b turns).1
            ≡ flag_all [] (map sent_as (of_listener i turns)))
listeners_lem b turns o = (
  listeners-publish_all (λ i. []) b turns,
  subst
      (λ (f : Message → Event × ℕ).
        ((i : ℕ) → Ordered 0 (map f (of_listener i turns)))
        → (i : ℕ)
        → of_listener i (listeners (λ i. []) b turns).1 ≡ flag_all [] (map f (of_listener i turns)))
      heard_as_sent (listeners-flag_all b turns) o,
)
