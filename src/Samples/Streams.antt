-- ===== src/Samples/Streams.antt =====
-- Streams of events, a bus with one subscriber, replies of INFO, and entries of the audit log.
use redis_admin.Base.{
  ℕ, ◌≡◌, refl, false, List, [], ◌∷◌, arith, Str, str, ◌↔◌, has_prefix, trim_space,
}
use redis_admin.Info.{parse_info_section}
use redis_admin.Info.RoundTrip.{IsField, render, insert_all, parse_info_section-render}
use redis_admin.Operations.Audit.{AuditEntry}
use redis_admin.Operations.ConfigDiff.{NodeConfigValue, drifts}
use redis_admin.Operations.ConfigDiff.Drift.{Uniform, drifts-Uniform}
use redis_admin.Sentinel.EventBus.{Event}
use redis_admin.Sentinel.EventBus.Queues.{Call, subscribes, unsubscribes, publishes, receives}
use redis_admin.Sentinel.Flapping.Stream.{detect_all, flag_all, Ordered, detect_all_lem}

abbrev event : Str → Event
event channel = record {
  channel = channel;
  payload = str "x";
  node_addr = str "b:1";
  is_flapping = false;
  timestamp = 5;
}

abbrev stream : List (Event × ℕ)
stream =
    (event (str "+sdown"), 1)
    ∷ (event (str "+sdown"), 2)
    ∷ (event (str "-sdown"), 2)
    ∷ (event (str "+sdown"), 9)
    ∷ []

stream-Ordered : Ordered 0 stream
stream-Ordered = (omega arith, (omega arith, (omega arith, (omega arith, tt))))

detect_all_lem_example : detect_all [] stream ≡ flag_all [] stream
detect_all_lem_example = detect_all_lem stream stream-Ordered

abbrev two_clients : List Call
two_clients =
    subscribes
    ∷ subscribes
    ∷ publishes (event (str "+odown"))
    ∷ receives 1
    ∷ unsubscribes 0
    ∷ publishes (event (str "-odown"))
    ∷ receives 1
    ∷ receives 1
    ∷ []

abbrev role_field : Str × Str
role_field = (str "role", str "master")

role_field-IsField : IsField role_field
role_field-IsField =
    unfold has_prefix trim_space in
    record {
      named = refl;
      not_comment = refl;
      no_colon = refl;
      one_line = refl;
      one_line_value = refl;
      trimmed = refl;
      trimmed_value = refl;
    }

parse_info_section-render_example :
    parse_info_section (render (role_field ∷ [])) ≡ insert_all [] (role_field ∷ [])
parse_info_section-render_example =
    parse_info_section-render (role_field ∷ []) (role_field-IsField, tt)

abbrev entry : AuditEntry
entry = record {
  timestamp = 1;
  node_addr = str "a:1";
  key = str "k";
  old_value = str "1";
  new_value = str "2";
  remote_ip = str "r";
}

abbrev value_on : Str → Str → NodeConfigValue
value_on addr value = record { node_addr = addr; value = value }

drifts-Uniform_example :
    (drifts (value_on (str "a:1") (str "1") ∷ value_on (str "b:1") (str "2") ∷ []) ≡ false)
    ↔ Uniform (value_on (str "a:1") (str "1") ∷ value_on (str "b:1") (str "2") ∷ [])
drifts-Uniform_example =
    drifts-Uniform (value_on (str "a:1") (str "1") ∷ value_on (str "b:1") (str "2") ∷ [])
      (refl, (refl, tt))
