-- ===== src/SimConfig.antt =====
-- The settings of the network sims, in src/goldnet_multiplayer.cpp: apply_sim_config, read_sim_config and
-- the properties sim_config and recv_sim_config, over the sim's setters and getters.
pub mod RoundTrip
pub mod PeerStats
pub mod Environment
mod Examples
use goldnet_godot.Common.{
  ℕ, Bool, true, false, ◌&&◌, ◌||◌, not, ◌≡◌, String, Option, none, some, List, [], ◌∷◌, map, any,
  HashMap, get, put, string_eq, if◌then◌else◌,
}

-- goldnet::NetSim's settings, by the name that a setting's getter has (`loss_percent()`) and its setter
-- (`set_loss_percent`): its defaults, its getters, and its setters, each of a value cast to what the
-- setter takes. Setting one leaves the others; what it reads as afterwards depends on the value set
-- only; and a value that was read reads the same when it is set.
pub record Settings : Type 1 where
  pub S : Type 0
  pub Value : Type 0
  pub default : String → Value
  pub setting : String → S → Value
  pub set : String → Value → S → S
  pub setting-set_other :
      (j k : String) (v : Value) (s : S)
      → string_eq.beq k j ≡ false
      → setting j (set k v s) ≡ setting j s
  pub setting-set :
      (k : String) (v : Value) (s t : S) → setting k (set k v s) ≡ setting k (set k v t)
  pub set-setting : (k : String) (s t : S) → setting k (set k (setting k s) t) ≡ setting k s

-- The keys of the Dictionary that are known.
abbrev pub sim_keys : List String
sim_keys =
    "loss_percent" ∷ "seed" ∷ "latency_min_ms" ∷ "latency_max_ms" ∷ "spike_ms" ∷ "spike_interval_s"
    ∷ "spike_duration_s" ∷ "link_bps" ∷ "link_queue_ms" ∷ "link_overhead" ∷ []

-- The calls of apply_sim_config, in order: the key whose value each takes, and what it sets.
abbrev pub sim_setters : List (String × String)
sim_setters =
    ("loss_percent", "loss_percent")
    ∷ ("seed", "seed")
    ∷ ("latency_min_ms", "latency_min_ms")
    ∷ ("latency_max_ms", "latency_max_ms")
    ∷ ("spike_ms", "spike_ms")
    ∷ ("spike_interval_s", "spike_interval_s")
    ∷ ("spike_duration_s", "spike_duration_s")
    ∷ ("link_bps", "bandwidth_bps")
    ∷ ("link_queue_ms", "queue_ms")
    ∷ ("link_overhead", "packet_overhead")
    ∷ []

-- The assignments of read_sim_config, in order: the key, and what is read for it.
abbrev pub sim_getters : List (String × String)
sim_getters =
    ("loss_percent", "loss_percent")
    ∷ ("seed", "seed")
    ∷ ("latency_min_ms", "latency_min_ms")
    ∷ ("latency_max_ms", "latency_max_ms")
    ∷ ("spike_ms", "spike_ms")
    ∷ ("spike_interval_s", "spike_interval_s")
    ∷ ("spike_duration_s", "spike_duration_s")
    ∷ ("link_bps", "bandwidth_bps")
    ∷ ("link_queue_ms", "queue_ms")
    ∷ ("link_overhead", "packet_overhead")
    ∷ []

unfoldable pub is_sim_key : String → Bool
is_sim_key k = any (string_eq.beq k) sim_keys

module _ (c : Settings) where
  open c use {S, Value, default, setting, set}

  abbrev pub Dictionary : Type 0
  Dictionary = HashMap String Value

  unfoldable pub has_unknown_key : Dictionary → Bool
  has_unknown_key [] = false
  has_unknown_key ((k, v) ∷ cfg) = not (is_sim_key k) || has_unknown_key cfg

  -- `p_cfg.get(key, default)`, of the default that what is set has.
  unfoldable pub value_or_default : Dictionary → String → String → Value
  value_or_default cfg key member = elim (get cfg key) [ none ↦ default member | some v ↦ v ]

  unfoldable pub apply_each : S → Dictionary → List (String × String) → S
  apply_each s cfg [] = s
  apply_each s cfg ((key, member) ∷ rest) =
      apply_each (set member (value_or_default cfg key member) s) cfg rest

  -- apply_sim_config: false, and the sim as it was, where a key is unknown.
  unfoldable pub apply_sim_config : S → Dictionary → S × Bool
  apply_sim_config s cfg =
      if has_unknown_key cfg then (s, false) else (apply_each s cfg sim_setters, true)

  unfoldable pub read_each : S → Dictionary → List (String × String) → Dictionary
  read_each s d [] = d
  read_each s d ((key, member) ∷ rest) = read_each s (put d key (setting member s)) rest

  -- read_sim_config
  unfoldable pub read_sim_config : S → Dictionary
  read_sim_config s = read_each s [] sim_getters

  -- set_sim_config
  unfoldable pub set_sim_config : S → Dictionary → S
  set_sim_config s cfg = (apply_sim_config s cfg).0

  -- set_recv_sim_config, of the settings kept and the sim of the receive side, if there is one.
  unfoldable pub set_recv_sim_config : S → Option S → Dictionary → S × Option S
  set_recv_sim_config s none cfg = ((apply_sim_config s cfg).0, none)
  set_recv_sim_config s (some recv) cfg =
      let (s1, taken) = apply_sim_config s cfg in
      (s1, some (if taken then (apply_sim_config recv cfg).0 else recv))
