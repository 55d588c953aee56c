-- ===== src/Sentinel/Flapping/Stream.antt =====
-- detectFlapping over a whole stream of events, against a reference that keeps every event.
use mathlib.Core.Path.{ap₂}
use redis_admin.Base.{
  ℕ, suc, ◌*◌, ◌||◌, not, Bool, str, is_empty, ltb, ◌+◌, ◌≤◌, ◌≡◌, refl, ap, sym, ◌∙◌, true, false,
  ◌&&◌, List, [], ◌∷◌, ◌++◌, arith, leb, if◌then◌else◌, length, length-append, Bool-cases, inl, inr,
  Str, eq_str, eq_str_iff, eq_str_refl, Dict, lookup, lookup-insert, append-nil,
}
use redis_admin.Sentinel.EventBus.{Event}
use redis_admin.Sentinel.Flapping.{prune, counts, times_of, new_times, detect_flapping}
use redis_admin.Sentinel.Flapping.Window.{prune-append, prune-prune}

-- the loop of subscribe: each event with the time at which it is handled
unfoldable pub detect_all : Dict (List ℕ) → List (Event × ℕ) → List Event
unfolding detect_flapping
detect_all tracker [] = []
detect_all tracker ((e, now) ∷ es) =
    let (e', tracker') = detect_flapping e now tracker in e' ∷ detect_all tracker' es

-- a +sdown event that names a node
abbrev pub is_sdown : Event → Bool
is_sdown e = eq_str e.channel (str "+sdown") && not (is_empty e.node_addr)

-- the times of the +sdown events of one node
unfoldable pub sdowns : Str → List (Event × ℕ) → List ℕ
unfolding eq_str
sdowns addr [] = []
sdowns addr ((e, now) ∷ es) =
    let rest = sdowns addr es in if is_sdown e && eq_str e.node_addr addr then now ∷ rest else rest

-- how many of the times are less than 60 seconds, in nanoseconds, before `now`
unfoldable pub recent_count : ℕ → List ℕ → ℕ
recent_count now [] = 0
recent_count now (t ∷ ts) =
    let rest = recent_count now ts in if ltb now (t + 60 * 1000000000) then suc rest else rest

recent_count-prune : (now : ℕ) (ts : List ℕ) → length (prune now ts) ≡ recent_count now ts
unfolding prune recent_count
recent_count-prune now [] = refl
recent_count-prune now (t ∷ ts) = ground (arith, recent_count-prune now ts)

counts-is_sdown : (e : Event) → counts e ≡ is_sdown e
unfolding counts
counts-is_sdown e = go (is_empty e.node_addr) (eq_str e.channel (str "+sdown"))
  where
    go : (a c : Bool) → not (a || not c) ≡ c && not a
    go true true = refl
    go true false = refl
    go false true = refl
    go false false = refl

-- The reference: an event is flagged when it is a +sdown of a node that has at least three of them
-- in the last 60 seconds, this one included, among all events of the stream so far.
abbrev flag : List (Event × ℕ) → Event → ℕ → Event
flag past e now =
    if is_sdown e && leb 3 (recent_count now (sdowns e.node_addr past) + 1)
    then record e { is_flapping = true }
    else e

unfoldable pub flag_all : List (Event × ℕ) → List (Event × ℕ) → List Event
flag_all past [] = []
flag_all past ((e, now) ∷ es) = flag past e now ∷ flag_all (past ++ (e, now) ∷ []) es

-- The clock does not go back.
abbrev pub Ordered : ℕ → List (Event × ℕ) → Type 0
Ordered from [] = Unit
Ordered from ((e, now) ∷ es) = (from ≤ now) × Ordered now es

-- seen from any later time the tracker is as good as the whole past
abbrev Tracks : ℕ → List (Event × ℕ) → Dict (List ℕ) → Type 0
Tracks at past tracker =
    (addr : Str) (now : ℕ)
    → at ≤ now
    → prune now (times_of (lookup addr tracker)) ≡ prune now (sdowns addr past)

sdowns-append :
    (addr : Str) (past : List (Event × ℕ)) (e : Event) (now : ℕ)
    → sdowns addr (past ++ (e, now) ∷ [])
      ≡ sdowns addr past ++ (if is_sdown e && eq_str e.node_addr addr then now ∷ [] else [])
unfolding sdowns
sdowns-append addr [] e now = refl
sdowns-append addr ((f, t) ∷ past) e now =
    elim (Bool-cases (is_sdown f && eq_str f.node_addr addr)) [
      | inl q ↦ rw q (ap (λ l. t ∷ l) (sdowns-append addr past e now))
      | inr q ↦ rw q (sdowns-append addr past e now)
    ]

-- an event that adds no time of the node leaves what is known of it
unchanged :
    (addr : Str) (past : List (Event × ℕ)) (e : Event) (now : ℕ)
    → (is_sdown e && eq_str e.node_addr addr) ≡ false
    → sdowns addr (past ++ (e, now) ∷ []) ≡ sdowns addr past
unchanged addr past e now h =
    sdowns-append addr past e now
    ∙ ap (λ b. sdowns addr past ++ (if b then now ∷ [] else [])) h
    ∙ append-nil (sdowns addr past)

module _ (e : Event) (at now : ℕ) (past : List (Event × ℕ)) (tracker : Dict (List ℕ))
    (tracks : Tracks at past tracker) (later : at ≤ now) where
  -- the window that the code computes is the reference's
  new_times-sdowns : new_times e now tracker ≡ prune now (sdowns e.node_addr past) ++ now ∷ []
  unfolding new_times
  new_times-sdowns = ap (λ l. l ++ now ∷ []) (tracks e.node_addr now later)

  detect_flapping-flag : (detect_flapping e now tracker).0 ≡ flag past e now
  unfolding detect_flapping
  detect_flapping-flag =
      let same = counts-is_sdown e in
      elim (Bool-cases (counts e)) [
        | inl c ↦ rw (← same) (
            rw c (
              rw new_times-sdowns (
                rw (
                  length-append (prune now (sdowns e.node_addr past)) (now ∷ []),
                  recent_count-prune now (sdowns e.node_addr past),
                ))))
        | inr c ↦ rw (← same) (rw c)
      ]

  counted : counts e ≡ true → (is_sdown e && eq_str e.node_addr e.node_addr) ≡ true
  counted c = cc (c, counts-is_sdown e, eq_str_refl e.node_addr)

  added :
      (addr : Str)
      → counts e ≡ true
      → e.node_addr ≡ addr
      → sdowns addr (past ++ (e, now) ∷ []) ≡ sdowns e.node_addr past ++ now ∷ []
  added addr c q = rw (← q) (
      sdowns-append e.node_addr past e now
      ∙ ap (λ b. sdowns e.node_addr past ++ (if b then now ∷ [] else [])) (counted c))

  other_node :
      (addr : Str) (t : ℕ)
      → now ≤ t
      → (is_sdown e && eq_str e.node_addr addr) ≡ false
      → prune t (times_of (lookup addr tracker)) ≡ prune t (sdowns addr (past ++ (e, now) ∷ []))
  other_node addr t h q =
      tracks addr t (omega arith) ∙ ap (prune t) (sym (unchanged addr past e now q))

  same_node :
      (addr : Str) (t : ℕ)
      → now ≤ t
      → counts e ≡ true
      → e.node_addr ≡ addr
      → prune t (new_times e now tracker) ≡ prune t (sdowns addr (past ++ (e, now) ∷ []))
  same_node addr t h c q =
      ap (prune t) new_times-sdowns
      ∙ prune-append t (prune now (sdowns e.node_addr past)) (now ∷ [])
      ∙ ap (λ l. l ++ prune t (now ∷ [])) (prune-prune now t (sdowns e.node_addr past) h)
      ∙ sym (prune-append t (sdowns e.node_addr past) (now ∷ []))
      ∙ ap (prune t) (sym (added addr c q))

  Tracks-detect_flapping : Tracks now (past ++ (e, now) ∷ []) (detect_flapping e now tracker).1
  unfolding detect_flapping
  Tracks-detect_flapping addr t h = elim (Bool-cases (counts e)) [
    | inl c ↦ rw c (
        rw lookup-insert (elim (Bool-cases (eq_str e.node_addr addr)) [
          | inl q ↦ rw q (same_node addr t h c ((eq_str_iff e.node_addr addr).0 q))
          | inr q ↦ rw q (other_node addr t h (cc (c, q, counts-is_sdown e)))
        ]))
    | inr c ↦ rw c (other_node addr t h (cc (c, counts-is_sdown e)))
  ]

detect_all-flag_all :
    (at : ℕ) (past : List (Event × ℕ)) (tracker : Dict (List ℕ)) (es : List (Event × ℕ))
    → Tracks at past tracker
    → Ordered at es
    → detect_all tracker es ≡ flag_all past es
unfolding detect_all flag_all
detect_all-flag_all at past tracker [] tracks o = refl
detect_all-flag_all at past tracker ((e, now) ∷ es) tracks o =
    ap₂ (λ x l. x ∷ l) (detect_flapping-flag e at now past tracker tracks o.0)
      (detect_all-flag_all now (past ++ (e, now) ∷ []) (detect_flapping e now tracker).1 es
        (Tracks-detect_flapping e at now past tracker tracks o.0) o.1)

-- Over any stream of events that a sentinel sends, on a clock that does not go back, the detector
-- with its pruned windows returns the events of the reference: flagged are exactly the +sdown
-- events of a node that has at least three of them, the event included, less than 60 seconds old.
pub detect_all_lem : (es : List (Event × ℕ)) → Ordered 0 es → detect_all [] es ≡ flag_all [] es
detect_all_lem es o = detect_all-flag_all 0 [] [] es (λ addr now h. unfold lookup sdowns in refl) o
