-- ===== src/Sentinel/EventBus/Delivery.antt =====
-- What a subscriber of the event bus gets.
use redis_admin.Base.{
  ℕ, zero, suc, ◌≤◌, ◌≡◌, refl, ap, sym, ◌∙◌, ◌≢◌, Option, none, some, List, [], ◌∷◌, ◌++◌,
  append_assoc, append-nil, arith, length, take, length-append, ltb, ◌==◌, Bool-cases, inl, inr,
}
use mathlib.Core.Option
use redis_admin.Sentinel.EventBus.{
  Event, Bus, capacity, buffer, delete, unsubscribe, offer, offer_each, publish,
}

-- several events, one after the other
unfoldable pub publish_all : Bus → List Event → Bus
publish_all b [] = b
publish_all b (e ∷ es) = publish_all (publish b e) es

take_all {ℓ} : {A : Type ℓ} (n : ℕ) (xs : List A) → length xs ≤ n → take n xs ≡ xs
take_all zero [] h = refl
take_all zero (x ∷ xs) h = elim h [ ]
take_all (suc n) [] h = refl
take_all (suc n) (x ∷ xs) h = ap (λ l. x ∷ l) (take_all n xs (omega arith))

take_full {ℓ} :
    {A : Type ℓ} (n : ℕ) (xs ys : List A) → n ≤ length xs → take n (xs ++ ys) ≡ take n xs
take_full zero xs ys h = refl
take_full (suc n) [] ys h = elim h [ ]
take_full (suc n) (x ∷ xs) ys h = ap (λ l. x ∷ l) (take_full n xs ys (omega arith))

take-take_append {ℓ} :
    {A : Type ℓ} (n : ℕ) (xs ys : List A) → take n (take n xs ++ ys) ≡ take n (xs ++ ys)
take-take_append zero xs ys = refl
take-take_append (suc n) [] ys = refl
take-take_append (suc n) (x ∷ xs) ys = ap (λ l. x ∷ l) (take-take_append n xs ys)

offer-take :
    (e : Event) (buf : List Event)
    → length buf ≤ capacity
    → offer e buf ≡ take capacity (buf ++ e ∷ [])
unfolding offer
offer-take e buf h = elim (Bool-cases (ltb (length buf) capacity)) [
  | inl room ↦
      rw room (sym (take_all capacity (buf ++ e ∷ []) (ground (arith, length-append buf (e ∷ [])))))
  | inr full ↦
      rw full (sym (take_full capacity buf (e ∷ []) (ground arith) ∙ take_all capacity buf h))
]

buffer-offer_each :
    (ch : ℕ) (e : Event) (subs : List (ℕ × List Event))
    → buffer ch (offer_each e subs) ≡ Option.map (offer e) (buffer ch subs)
unfolding buffer offer_each
buffer-offer_each ch e [] = refl
buffer-offer_each ch e ((id, buf) ∷ subs) = elim (Bool-cases (id == ch)) [
  | inl q ↦ rw q
  | inr q ↦ rw q (buffer-offer_each ch e subs)
]

offer_fits :
    (e : Event) (buf : List Event) → length buf ≤ capacity → length (offer e buf) ≤ capacity
unfolding offer
offer_fits e buf h = ground (arith, length-append buf (e ∷ []))

pub buffer-publish :
    (ch : ℕ) (b : Bus) (e : Event)
    → buffer ch (publish b e).subs ≡ Option.map (offer e) (buffer ch b.subs)
unfolding publish
buffer-publish ch b e = buffer-offer_each ch e b.subs

pub buffer_published :
    (ch : ℕ) (b : Bus) (e : Event) {buf : List Event}
    → buffer ch b.subs ≡ some buf
    → buffer ch (publish b e).subs ≡ some (offer e buf)
buffer_published ch b e h = buffer-publish ch b e ∙ ap (Option.map (offer e)) h

-- A subscriber that reads nothing while events are published finds, after what its buffer held,
-- the events in the order in which they were published, up to the capacity of its channel; those
-- that came later are lost. Publishing never waits.
pub buffer-publish_all :
    (ch : ℕ) (b : Bus) (es buf : List Event)
    → length buf ≤ capacity
    → buffer ch b.subs ≡ some buf
    → buffer ch (publish_all b es).subs ≡ some (take capacity (buf ++ es))
unfolding publish_all
buffer-publish_all ch b [] buf k h =
    h ∙ ap some (sym (ap (take capacity) (append-nil buf) ∙ take_all capacity buf k))
buffer-publish_all ch b (e ∷ es) buf k h =
    buffer-publish_all ch (publish b e) es (offer e buf) (offer_fits e buf k)
      (buffer_published ch b e h)
    ∙ ap some (
        ap (λ l. take capacity (l ++ es)) (offer-take e buf k)
        ∙ take-take_append capacity (buf ++ e ∷ []) es
        ∙ ap (take capacity) (append_assoc buf (e ∷ []) es))

pub buffer-delete : (ch : ℕ) (subs : List (ℕ × List Event)) → buffer ch (delete ch subs) ≡ none
unfolding buffer delete
buffer-delete ch [] = refl
buffer-delete ch ((id, buf) ∷ subs) = elim (Bool-cases (id == ch)) [
  | inl e ↦ rw e (buffer-delete ch subs)
  | inr e ↦ rw e (rw e (buffer-delete ch subs))
]

pub buffer-delete_ne :
    (ch other : ℕ) (subs : List (ℕ × List Event))
    → ch ≢ other
    → buffer other (delete ch subs) ≡ buffer other subs
unfolding buffer delete
buffer-delete_ne ch other [] h = refl
buffer-delete_ne ch other ((id, buf) ∷ subs) h = ground (arith, buffer-delete_ne ch other subs h)

unsubscribe_inv :
    (ch : ℕ) (b b' : Bus) → unsubscribe b ch ≡ some b' → b' ≡ record b { subs = delete ch b.subs }
unfolding unsubscribe
unsubscribe_inv ch b b' h = go (buffer ch b.subs) h
  where
    go :
        (o : Option (List Event))
        → ◌≡◌ {A = Option Bus}
            (elim o [ none ↦ none | some buf ↦ some (record b { subs = delete ch b.subs }) ])
            (some b')
        → b' ≡ record b { subs = delete ch b.subs }
    go none h = absurd (cc)
    go (some buf) h = cc

-- a channel that is subscribed can be unsubscribed
pub unsubscribe_subscribed :
    (ch : ℕ) (b : Bus) {buf : List Event}
    → buffer ch b.subs ≡ some buf
    → (b' : Bus) × (unsubscribe b ch ≡ some b')
unfolding unsubscribe
unsubscribe_subscribed ch b h = (record b { subs = delete ch b.subs }, rw (h, unsubscribe) refl)

unsubscribe_absent : (ch : ℕ) (b : Bus) → buffer ch b.subs ≡ none → unsubscribe b ch ≡ none
unfolding unsubscribe
unsubscribe_absent ch b h = rw (h, unsubscribe)

-- Unsubscribe takes the channel out of the bus, so that no later event is offered to it, leaves
-- every other channel with what its buffer holds, and panics if it is called again.
pub unsubscribe_lem :
    (ch : ℕ) (b b' : Bus)
    → unsubscribe b ch ≡ some b'
    → (buffer ch b'.subs ≡ none)
      × ((other : ℕ) → ch ≢ other → buffer other b'.subs ≡ buffer other b.subs)
      × (unsubscribe b' ch ≡ none)
unsubscribe_lem ch b b' h =
    let e = unsubscribe_inv ch b b' h in
    let gone = ap (λ (x : Bus). buffer ch x.subs) e ∙ buffer-delete ch b.subs in
    (
      gone,
      λ other ne. ap (λ (x : Bus). buffer other x.subs) e ∙ buffer-delete_ne ch other b.subs ne,
      unsubscribe_absent ch b' gone,
    )
