-- ===== src/Sentinel/EventBus/Buffers.antt =====
-- What the calls of the bus do to the list of the buffers.
use redis_admin.Base.{ℕ, inl, inr, List, [], ◌∷◌, All, ◌==◌, Bool-cases}
use redis_admin.Sentinel.EventBus.{Event, delete, offer_each, set_buffer}

module _ (e : Event) where
  pub offer_each_ids :
      (P : ℕ → Type 0) (subs : List (ℕ × List Event))
      → All (λ s. P s.0) subs
      → All (λ s. P s.0) (offer_each e subs)
  unfolding offer_each
  offer_each_ids P [] h = tt
  offer_each_ids P ((id, buf) ∷ subs) h = (h.0, offer_each_ids P subs h.1)

module _ (ch : ℕ) where
  pub delete-All :
      (P : ℕ × List Event → Type 0) (subs : List (ℕ × List Event))
      → All P subs
      → All P (delete ch subs)
  unfolding delete
  delete-All P [] h = tt
  delete-All P ((id, buf) ∷ subs) h = elim (Bool-cases (id == ch)) [
    | inl e ↦ rw e (delete-All P subs h.1)
    | inr e ↦ rw e ((h.0, delete-All P subs h.1))
  ]

module _ (ch : ℕ) (new : List Event) where
  pub set_buffer_ids :
      (P : ℕ → Type 0) (subs : List (ℕ × List Event))
      → All (λ s. P s.0) subs
      → All (λ s. P s.0) (set_buffer ch new subs)
  unfolding set_buffer
  set_buffer_ids P [] h = tt
  set_buffer_ids P ((id, buf) ∷ subs) h = elim (Bool-cases (id == ch)) [
    | inl e ↦ rw e h
    | inr e ↦ rw e ((h.0, set_buffer_ids P subs h.1))
  ]
