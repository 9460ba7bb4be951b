-- ===== src/SimConfig/Environment.antt =====
-- The settings that a sim starts with, in src/goldnet_multiplayer.cpp: what the constructor reads of the
-- environment.
use goldnet_godot.Common.{String, Option, none, some, List, [], ◌∷◌, ◌++◌, string_eq, if◌then◌else◌}
use goldnet_godot.SimConfig.{Settings}

module _ (c : Settings) where
  open c use {S, Value, default, setting, set}

  -- The C library's and the engine's: getenv, atoi, String's split at commas, to_int and to_float, and 0.
  pub record Environment : Type 0 where
    pub getenv : String → Option String
    pub atoi : String → Value
    pub split : String → List String
    pub to_int : String → Value
    pub to_float : String → Value
    pub zero : Value

  module _ (e : Environment) where
    open e use {getenv, atoi, split, to_int, to_float, zero}

    -- `v ? atoi(v) : 0`
    unfoldable pub atoi_or_zero : String → Value
    atoi_or_zero name = elim (getenv name) [ none ↦ zero | some v ↦ atoi v ]

    -- The parts of a variable, none where it is not set.
    unfoldable pub parts : String → List String
    parts name = elim (getenv name) [ none ↦ [] | some v ↦ split v ]

    -- What each of these variables sets, in order, by its parts.
    unfoldable pub latency : List String → List (String × Value)
    latency [] = []
    latency (one ∷ []) =
        if string_eq.beq one ""
        then []
        else ("latency_min_ms", to_int one) ∷ ("latency_max_ms", to_int one) ∷ []
    latency (least ∷ most ∷ rest) =
        ("latency_min_ms", to_int least) ∷ ("latency_max_ms", to_int most) ∷ []

    unfoldable pub first_part : String → String → List (String × Value)
    first_part key one = if string_eq.beq one "" then [] else (key, to_int one) ∷ []

    unfoldable pub link : List String → List (String × Value)
    link [] = []
    link (bps ∷ []) = first_part "bandwidth_bps" bps
    link (bps ∷ queue ∷ rest) = first_part "bandwidth_bps" bps ++ ("queue_ms", to_int queue) ∷ []

    unfoldable pub spike : List String → List (String × Value)
    spike [] = []
    spike (ms ∷ []) = first_part "spike_ms" ms
    spike (ms ∷ every ∷ []) = first_part "spike_ms" ms ++ ("spike_interval_s", to_float every) ∷ []
    spike (ms ∷ every ∷ lasting ∷ rest) =
        first_part "spike_ms" ms
        ++ ("spike_interval_s", to_float every) ∷ ("spike_duration_s", to_float lasting) ∷ []

    -- All that the constructor sets, in order.
    unfoldable pub from_environment : List (String × Value)
    from_environment =
        ("loss_percent", atoi_or_zero "GOLDNET_LOSS")
        ∷ ("seed", atoi_or_zero "GOLDNET_SIM_SEED")
        ∷ (latency (parts "GOLDNET_LATENCY")
            ++ (link (parts "GOLDNET_LINK") ++ spike (parts "GOLDNET_SPIKE")))

  unfoldable pub set_each : List (String × Value) → S → S
  set_each [] s = s
  set_each ((k, v) ∷ rest) s = set_each rest (set k v s)

  -- The constructor's sim.
  unfoldable pub start_sim : Environment → S → S
  start_sim e s = set_each (from_environment e) s
