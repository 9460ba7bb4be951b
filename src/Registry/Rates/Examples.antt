-- ===== src/Registry/Rates/Examples.antt =====
-- A server whose synchronizers and rate change, and a poll of it.
use goldnet_godot.Common.{
  ℕ, ◌/◌, ◌≡◌, refl, true, false, Option, none, some, List, [], ◌∷◌, ltb, nat_eq, ◌==◌,
  if◌then◌else◌, insert, discard, get, arith,
}
use goldnet_godot.Platform.Toy.{toy}
use goldnet_godot.NetIds.{init, release, id}
use goldnet_godot.Cadence.{Seconds, Session, poll, min_interval_us, best_us, better, sync_us}
use goldnet_godot.Registry.{Registry}
use goldnet_godot.Registry.Configuration.{
  synchronizer, object_configuration_add, object_configuration_remove,
}
use goldnet_godot.Registry.Rates.{
  Pacing, Change, added, removed, rated, refresh_interval, set_snapshot_rate, add_refreshing,
  remove_refreshing, change, change_all,
}
use goldnet_godot.Registry.Rates.Prompt.{Sends, change_all-poll}

-- Seconds held as microseconds.
abbrev micros : Seconds
micros = record {
  D = ℕ;
  is_positive = λ x. ltb 0 x;
  us_of_rate = λ x. 1000000 / x;
  us_of_sec = λ x. x;
}

abbrev rate_of_us : ℕ → ℕ
rate_of_us us = 1000000 / us

-- Two synchronizers, at 60 Hz and 100 Hz.
abbrev interval : ℕ → Option ℕ
interval o = if o == 70 then some 16667 else if o == 71 then some 10000 else none

abbrev fresh : Registry toy ℕ
fresh = record {
  ids = init;
  owned = [];
  bind_ids = [];
  entities_to_add = [];
  spawners = [];
  spawners_scanned = true;
  pending_spawns = [];
  server_spawned = [];
  client_spawned = [];
  client_slot_codings = [];
  dirty_route = [];
}

abbrev running : Pacing micros
running = record {
  snapshot_rate_setting = 0;
  timing = record { last_send_us = 20000; cached_min_interval_us = 33000 };
}

-- A rate is set and taken back, and the faster synchronizer goes.
abbrev changes : List (Change micros ℕ)
changes =
    rated 10
    ∷ added true true (synchronizer 70 true)
    ∷ added true true (synchronizer 71 true)
    ∷ removed (synchronizer 71 true)
    ∷ rated 0
    ∷ []

abbrev hosting : Session
hosting = record {
  peer_null = false;
  disconnected = false;
  rpc_stats = false;
  unique_id = 1;
  manual_send = false;
  peer_count = 2;
  now_us = 40000;
}

change_all-poll_example :
    Sends hosting
      (poll hosting
        (change_all micros rate_of_us interval toy 0 (fresh, running) changes).1.timing).1
unfolding change_all change add_refreshing remove_refreshing refresh_interval set_snapshot_rate
    object_configuration_add object_configuration_remove insert discard min_interval_us best_us
    better sync_us release id get init
change_all-poll_example =
    change_all-poll micros rate_of_us interval toy 0 fresh running changes hosting 70 16667 refl
      refl refl refl (omega arith) (omega arith) (omega arith) (refl, refl, refl, refl, omega arith)

-- With it, the interval that is kept is its own.
faster :
    (change_all micros rate_of_us interval toy 0
      (fresh, running)
      (added true true (synchronizer 71 true)
        ∷ added true true (synchronizer 70 true)
        ∷ [])).1.timing.cached_min_interval_us
    ≡ 10000
unfolding change_all change add_refreshing refresh_interval object_configuration_add insert
    min_interval_us best_us better sync_us
faster = refl
