-- ===== src/SimConfig/Examples.antt =====
-- Tests of a sim's settings, at settings kept by their key.
use goldnet_godot.Common.{
  ℕ, none, some, true, ◌≡◌, refl, String, [], ◌∷◌, string_eq, if◌then◌else◌, arith,
}
use goldnet_godot.SimConfig.{Settings, apply_sim_config, read_sim_config, Dictionary}
use goldnet_godot.SimConfig.RoundTrip.{read-apply_sim_config}
use goldnet_godot.SimConfig.Environment.{
  Environment, start_sim, set_each, from_environment, atoi_or_zero, parts, latency, link, spike,
  first_part,
}

abbrev kept : Settings
kept = record {
  S = String → ℕ;
  Value = ℕ;
  default = λ k. 0;
  setting = λ k s. s k;
  set = λ k v s j. if string_eq.beq k j then v else s j;
  setting-set_other = λ j k v s e. rw e refl;
  setting-set = λ k v s t. ground (arith, string_eq.beq_iff k k);
  set-setting = λ k s t. ground (arith, string_eq.beq_iff k k);
}

abbrev quiet : String → ℕ
quiet k = 0

abbrev lossy : String → ℕ
lossy k = if string_eq.beq k "loss_percent" then 30 else 5

read-apply_sim_config_example :
    let (s1, taken) = apply_sim_config kept quiet (read_sim_config kept lossy) in
    (taken ≡ true) × (read_sim_config kept s1 ≡ read_sim_config kept lossy)
read-apply_sim_config_example = read-apply_sim_config kept quiet lossy

abbrev misspelt : Dictionary kept
misspelt = ("los_percent", 100) ∷ []

-- An environment with a range of latencies and a link of one part.
abbrev shell : Environment kept
shell = record {
  getenv = λ name.
      if string_eq.beq name "GOLDNET_LATENCY"
      then some "20,40"
      else if string_eq.beq name "GOLDNET_LINK"
      then some "2400"
      else none;
  atoi = λ v. 1;
  split = λ v. if string_eq.beq v "20,40" then "20" ∷ "40" ∷ [] else v ∷ [];
  to_int =
      λ part. if string_eq.beq part "20" then 20 else if string_eq.beq part "40" then 40 else 2400;
  to_float = λ part. 0;
  zero = 0;
}

starts :
    (start_sim kept shell lossy "latency_min_ms" ≡ 20)
    × (start_sim kept shell lossy "latency_max_ms" ≡ 40)
    × (start_sim kept shell lossy "bandwidth_bps" ≡ 2400)
    × (start_sim kept shell lossy "queue_ms" ≡ 5)
    × (start_sim kept shell lossy "loss_percent" ≡ 0)
unfolding start_sim set_each from_environment atoi_or_zero parts latency link spike first_part
starts = (refl, refl, refl, refl, refl)
