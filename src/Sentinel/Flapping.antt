-- ===== src/Sentinel/Flapping.antt =====
-- internal/sentinel/pubsub.go: parseEvent and detectFlapping. Times are nanoseconds on one clock.
pub mod Window
pub mod Stream
use redis_admin.Base.{
  ℕ, ◌+◌, ◌*◌, ◌^◌, Bool, true, false, not, ◌||◌, Option, none, some, List, [], ◌∷◌, ◌++◌, Str, str,
  is_empty, eq_str, fields, Dict, lookup, insert, length, ltb, leb, if◌then◌else◌,
}
use redis_admin.Sentinel.EventBus.{Event}

abbrev pub node_addr_of : List Str → Str
node_addr_of (role ∷ name ∷ ip ∷ port ∷ more) = ip ++ b':' ∷ port
node_addr_of _ = []

-- parseEvent at the time `now`
unfoldable pub parse_event : Str → Str → ℕ → Event
unfolding fields
parse_event channel payload now = record {
  channel = channel;
  payload = payload;
  node_addr = node_addr_of (fields payload);
  is_flapping = false;
  timestamp = now;
}

-- 60 * time.Second
abbrev pub window : ℕ
window = 60000000000

abbrev pub threshold : ℕ
threshold = 3

-- t.After(now.Add(-window))
abbrev pub is_recent : ℕ → ℕ → Bool
is_recent now t = ltb now (t + window)

-- the loop that prunes the times outside the window
unfoldable pub prune : ℕ → List ℕ → List ℕ
prune now [] = []
prune now (t ∷ ts) = let rest = prune now ts in if is_recent now t then t ∷ rest else rest

-- the events that detectFlapping counts
unfoldable pub counts : Event → Bool
unfolding eq_str
counts e = not (is_empty e.node_addr || not (eq_str e.channel (str "+sdown")))

abbrev times_of : Option (List ℕ) → List ℕ
times_of none = []
times_of (some ts) = ts

-- the window of the event's node, after the event at `now`
unfoldable pub new_times : Event → ℕ → Dict (List ℕ) → List ℕ
unfolding lookup prune
new_times e now tracker = prune now (times_of (lookup e.node_addr tracker)) ++ now ∷ []

-- detectFlapping: the event that goes on, and the tracker after it
unfoldable pub detect_flapping : Event → ℕ → Dict (List ℕ) → Event × Dict (List ℕ)
unfolding counts new_times insert
detect_flapping e now tracker =
    if counts e
    then (
      if leb threshold (length (new_times e now tracker))
          then record e { is_flapping = true }
          else e,
      insert e.node_addr (new_times e now tracker) tracker,
    )
    else (e, tracker)
