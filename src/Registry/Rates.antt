-- ===== src/Registry/Rates.antt =====
-- The cadence as the members keep it, in src/goldnet_multiplayer.cpp: _refresh_interval, set_snapshot_rate and
-- what _object_configuration_add and _object_configuration_remove do to it. What the engine says of a
-- synchronizer is an argument: its interval, or none where it has been freed.
pub mod Prompt
mod Examples
use goldnet_godot.Common.{
  ℕ, ◌+◌, ◌^◌, ◌<◌, ◌≤◌, ◌≡◌, ◌⊎◌, refl, ap, sym, ◌∙◌, inl, inr, Bool, true, false, Bool-cases,
  Option, none, some, List, [], ◌∷◌, map, HashSet, contains, if◌then◌else◌, nat_eq, arith,
}
use mathlib.Core.Path.{subst}
use goldnet_godot.Platform.{Platform}
use goldnet_godot.Cadence.{
  Seconds, Session, Timing, Act, server_tick, sync_us, min_interval_us, send_timer, timed_tick,
}
use goldnet_godot.Cadence.Interval.{AtMostAll, NoneLive, min_interval_us_least}
use goldnet_godot.Registry.{Registry}
use goldnet_godot.Registry.Configuration.{
  Config, spawner, synchronizer, unknown, object_configuration_add, object_configuration_remove,
}

module _ (d : Seconds) where
  open d use {D, is_positive}

  -- snapshot_rate_setting, with the members that _poll reads.
  pub record Pacing : Type 0 where
    pub snapshot_rate_setting : D
    pub timing : Timing

  -- What moves the cadence.
  pub data Change (Callable : Type 0) : Type 0 where
    added : Bool → Bool → Config Callable → Change Callable
    removed : Config Callable → Change Callable
    rated : D → Change Callable

  module _ (rate_of_us : ℕ → D) (interval : ℕ → Option D) where
    -- _refresh_interval, and the rate that the core's server is told.
    unfoldable pub refresh_interval : HashSet → Pacing → Pacing × D
    refresh_interval owned c =
        let us = min_interval_us d c.snapshot_rate_setting (map interval owned) in
        (
          record c { timing = record c.timing { cached_min_interval_us = us } },
          if is_positive c.snapshot_rate_setting then c.snapshot_rate_setting else rate_of_us us,
        )

    -- set_snapshot_rate; `zero` is 0.0.
    unfoldable pub set_snapshot_rate : D → HashSet → D → Pacing → Pacing × D
    set_snapshot_rate zero owned hz c =
        refresh_interval owned
          (record c { snapshot_rate_setting = if is_positive hz then hz else zero })

    module _ (p : Platform) {Callable : Type 0} where
      -- _object_configuration_add: a synchronizer that is taken refreshes the interval.
      unfoldable pub add_refreshing :
          Registry p Callable
          → Pacing
          → Bool
          → Bool
          → Config Callable
          → Registry p Callable × Pacing
      add_refreshing r c on_server has_object config =
          let r1 = (object_configuration_add p r on_server has_object config).0 in
          (
            r1,
            elim config [
              | spawner sp fn ↦ c
              | synchronizer sync streams ↦ if streams then (refresh_interval r1.owned c).0 else c
              | unknown ↦ c
            ],
          )

      -- _object_configuration_remove: so does one of ours that goes.
      unfoldable pub remove_refreshing :
          Registry p Callable → Pacing → Config Callable → Registry p Callable × Pacing
      remove_refreshing r c config =
          let r1 = (object_configuration_remove p r config).0 in
          (
            r1,
            elim config [
              | spawner sp fn ↦ c
              | synchronizer sync streams ↦
                  if contains r.owned sync then (refresh_interval r1.owned c).0 else c
              | unknown ↦ c
            ],
          )

      unfoldable pub change :
          D → Registry p Callable × Pacing → Change Callable → Registry p Callable × Pacing
      change zero (r, c) (added on_server has_object config) =
          add_refreshing r c on_server has_object config
      change zero (r, c) (removed config) = remove_refreshing r c config
      change zero (r, c) (rated hz) = (r, (set_snapshot_rate zero r.owned hz c).0)

      unfoldable pub change_all :
          D → Registry p Callable × Pacing → List (Change Callable) → Registry p Callable × Pacing
      change_all zero s [] = s
      change_all zero s (x ∷ xs) = change_all zero (change zero s x) xs
