-- ===== src/Keys/Hotkey.antt =====
-- internal/keys/hotkey.go: the keys of the highest frequencies. The min-heap of the standard library
-- is a list in ascending order, whose head is what the heap has at its top: which of several equal
-- elements a heap has there is left open by the language.
pub mod Heap
pub mod Top
use redis_admin.Base.{
  ℕ, ◌≤◌, ◌≡◌, refl, ap, ◌∙◌, Bool, true, false, Option, none, some, List, [], ◌∷◌, ◌++◌, arith,
  Str, str, eq_str, Dict, lookup_str, ℤ, lt_int, length, ltb, leb, if◌then◌else◌,
}
use redis_admin.Errors.{Err, other, wrap, Result, ok, err, value_or}
use redis_admin.Config.{Config}
use redis_admin.Redis.{Redis}
use redis_admin.Keys.Walk.{walk}
use redis_admin.Keys.Scanner.{key_namespace, targets_of}
use redis_admin.Sentinel.Topology.{NodeAddresses, get_node_addresses}

pub record HotKeyReport : Type 0 where
  pub key : Str
  pub type_name : Str
  pub frequency : ℤ
  pub node_addr : Str
  pub namespace : Str

-- heap.Push
unfoldable pub push_hot : HotKeyReport → List HotKeyReport → List HotKeyReport
push_hot e [] = e ∷ []
push_hot e (m ∷ h) =
    let rest = push_hot e h in if lt_int m.frequency e.frequency then m ∷ rest else e ∷ m ∷ h

abbrev replace_lowest : HotKeyReport → List HotKeyReport → List HotKeyReport
replace_lowest e [] = []
replace_lowest e (m ∷ h) = if lt_int m.frequency e.frequency then push_hot e h else m ∷ h

-- the heap keeps the `top_n` highest
unfoldable pub offer_hot : ℕ → HotKeyReport → List HotKeyReport → List HotKeyReport
unfolding push_hot
offer_hot top_n e h = if ltb (length h) top_n then push_hot e h else replace_lowest e h

abbrev hot_report : Redis → Str → Str → ℤ → HotKeyReport
hot_report r addr key freq = record {
  key = key;
  type_name = value_or [] (r.type_of addr key);
  frequency = freq;
  node_addr = addr;
  namespace = key_namespace key;
}

-- the body of the loop over the keys
unfoldable pub hot_key : Redis → Str → ℕ → Str → List HotKeyReport → List HotKeyReport
unfolding offer_hot key_namespace
hot_key r addr top_n key h = elim (r.object_freq addr key) [
  | err e ↦ h
  | ok freq ↦ offer_hot top_n (hot_report r addr key freq) h
]

-- `policy[len(policy)-3:] == "lfu"` of a policy of at least three bytes
unfoldable pub is_lfu : Str → Bool
unfolding eq_str
is_lfu [] = false
is_lfu (c ∷ s) = if eq_str (c ∷ s) (str "lfu") then true else is_lfu s

-- the policy, which is read only out of a map of two entries or more
unfoldable pub policy_of : Dict Str → Str
unfolding lookup_str
policy_of vals = if leb 2 (length vals) then lookup_str (str "maxmemory-policy") vals else []

abbrev with_policy :
    Str
    → ℕ
    → List HotKeyReport
    → Option (Option Err × ℕ × List HotKeyReport)
    → Result (Dict Str)
    → Option (Option Err × ℕ × List HotKeyReport)
with_policy addr i h scanned (err e) =
    some (some (wrap (str "CONFIG GET maxmemory-policy on " ++ addr) e), i, h)
with_policy addr i h scanned (ok vals) =
    if is_lfu (policy_of vals)
    then scanned
    else some (some (other (str "maxmemory-policy is not an LFU policy")), i, h)

-- collectHotkeys
unfoldable pub collect_hotkeys :
    Redis
    → (ℕ → Option Err)
    → ℕ
    → Str
    → ℕ
    → ℕ
    → List HotKeyReport
    → Option (Option Err × ℕ × List HotKeyReport)
unfolding walk hot_key is_lfu policy_of
collect_hotkeys r ctx fuel addr top_n i h =
    with_policy addr i h (walk ctx (r.scan addr (str "*")) (hot_key r addr top_n) fuel 0 i h)
      (r.config_get addr (str "maxmemory-policy"))

-- the loop over the nodes, which goes on where one fails
unfoldable pub hot_nodes :
    Redis → (ℕ → Option Err) → ℕ → List Str → ℕ → ℕ → List HotKeyReport → Option (List HotKeyReport)
unfolding collect_hotkeys
hot_nodes r ctx fuel [] top_n i h = some h
hot_nodes r ctx fuel (addr ∷ addrs) top_n i h =
    let rest =
      λ (p : Option Err × ℕ × List HotKeyReport). hot_nodes r ctx fuel addrs top_n p.1 p.2 in
    elim (collect_hotkeys r ctx fuel addr top_n i h) [ none ↦ none | some p ↦ rest p ]

abbrev reversed : List HotKeyReport → List HotKeyReport → List HotKeyReport
reversed done [] = done
reversed done (x ∷ xs) = reversed (x ∷ done) xs

abbrev popped : Option (List HotKeyReport) → Option (Result (List HotKeyReport))
popped none = none
popped (some h) = some (ok (reversed [] h))

-- GetHotkeys: the heap is emptied from its lowest element, which comes last
unfoldable pub get_hotkeys :
    Redis → Config → (ℕ → Option Err) → ℕ → ℕ → Option (Result (List HotKeyReport))
unfolding get_node_addresses hot_nodes
get_hotkeys r cfg ctx fuel top_n = elim (get_node_addresses r cfg) [
  | err e ↦ some (err (wrap (str "get hotkeys") e))
  | ok addrs ↦ popped (hot_nodes r ctx fuel (targets_of addrs) top_n 0 [])
]

no_policy : (vals : Dict Str) → length vals ≤ 1 → is_lfu (policy_of vals) ≡ false
unfolding policy_of is_lfu
no_policy [] h = refl
no_policy (x ∷ []) h = refl
no_policy (x ∷ y ∷ vals) h = absurd (omega arith)

module _ (r : Redis)
    (one_entry : (addr : Str) (vals : Dict Str)
      → r.config_get addr (str "maxmemory-policy") ≡ ok vals
      → length vals ≤ 1) where
  with_policy_unchanged :
      (addr : Str) (i : ℕ) (h : List HotKeyReport)
      (scanned : Option (Option Err × ℕ × List HotKeyReport)) (q : Result (Dict Str))
      → r.config_get addr (str "maxmemory-policy") ≡ q
      → (e : Err) × (with_policy addr i h scanned q ≡ some (some e, i, h))
  with_policy_unchanged addr i h scanned (err e) k = (_, refl)
  with_policy_unchanged addr i h scanned (ok vals) k = (
    other (str "maxmemory-policy is not an LFU policy"),
    rw (no_policy vals (one_entry addr vals k)) refl,
  )

  hot_nodes_nothing :
      (ctx : ℕ → Option Err) (fuel : ℕ) (addrs : List Str) (top_n i : ℕ)
      → hot_nodes r ctx fuel addrs top_n i [] ≡ some []
  unfolding hot_nodes collect_hotkeys
  hot_nodes_nothing ctx fuel [] top_n i = refl
  hot_nodes_nothing ctx fuel (addr ∷ addrs) top_n i =
      let (e, h) =
        with_policy_unchanged addr i []
          (walk ctx (r.scan addr (str "*")) (hot_key r addr top_n) fuel 0 i [])
          (r.config_get addr (str "maxmemory-policy")) refl in
      ap
        (λ o. elim o as (λ x. Option (List HotKeyReport)) [
          | none ↦ none
          | some p ↦ hot_nodes r ctx fuel addrs top_n p.1 p.2
        ])
        h
      ∙ hot_nodes_nothing ctx fuel addrs top_n i

-- The client library gives at most one entry for CONFIG GET of one name, and the policy is read only
-- out of two: wherever the nodes are known, GetHotkeys returns no key, whatever the policy is.
pub get_hotkeys_nothing :
    (r : Redis) (cfg : Config) (ctx : ℕ → Option Err) (fuel top_n : ℕ) (addrs : NodeAddresses)
    → ((addr : Str) (vals : Dict Str)
        → r.config_get addr (str "maxmemory-policy") ≡ ok vals
        → length vals ≤ 1)
    → get_node_addresses r cfg ≡ ok addrs
    → get_hotkeys r cfg ctx fuel top_n ≡ some (ok [])
unfolding get_hotkeys
get_hotkeys_nothing r cfg ctx fuel top_n addrs one_entry h =
    ap
      (λ a. elim a as (λ x. Option (Result (List HotKeyReport))) [
        | err e ↦ some (err (wrap (str "get hotkeys") e))
        | ok addrs ↦ popped (hot_nodes r ctx fuel (targets_of addrs) top_n 0 [])
      ])
      h
    ∙ ap popped (hot_nodes_nothing r one_entry ctx fuel (targets_of addrs) top_n 0)
