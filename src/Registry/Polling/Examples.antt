-- ===== src/Registry/Polling/Examples.antt =====
-- The theorem on polls at a server with a spawn that is due and one whose node is not in the tree yet.
use goldnet_godot.Common.{
  ℕ, true, false, not, ◌&&◌, refl, Option, some, List, [], ◌∷◌, has, get, length, arith, ltb, ◌==◌,
  if◌then◌else◌, ◌+◌, ◌<◌, ◌^◌,
}
use goldnet_godot.Platform.{other}
use goldnet_godot.Platform.Toy.{toy}
use goldnet_godot.Cadence.{Session, Timing, poll}
use goldnet_godot.NetIds.{init}
use goldnet_godot.NetIds.Session.{init-Handed}
use goldnet_godot.Registry.{node, leaf, grow, Scene, PendingSpawn, Registry, collect_syncs}
use goldnet_godot.Registry.Spawning.{capture_spawners}
use goldnet_godot.Registry.Polling.{ensure_link, perform_all}
use goldnet_godot.Registry.Polling.Drain.{cost}
use goldnet_godot.Registry.Polling.Handover.{HandedOver, perform_all-poll}

abbrev world : Scene
world = record {
  alive = λ o. ltb 0 o && ltb o 100;
  in_tree = λ o. not (o == 7);
  is_authority = λ o. true;
  subtree = λ o.
      if o == 20
      then node 20 false (grow (node 21 true leaf) (grow (node 22 true leaf) leaf))
      else node o false leaf;
  ancestry = λ o. if o == 21 then 21 ∷ 20 ∷ [] else o ∷ [];
  path = λ o. if o == 10 then "Level/Spawner" else "Level";
  path_to = λ n o. if o == 21 then "Sync" else "Other";
}

abbrev pending_20 : PendingSpawn toy
pending_20 = record { spawner_objid = 10; spawn_data = other 9 }

abbrev server : Registry toy ℕ
server = record {
  ids = init;
  owned = 21 ∷ [];
  bind_ids = [];
  entities_to_add = 21 ∷ [];
  spawners = (10, 5) ∷ [];
  spawners_scanned = true;
  pending_spawns = (20, pending_20) ∷ (7, pending_20) ∷ [];
  server_spawned = [];
  client_spawned = [];
  client_slot_codings = [];
  dirty_route = [];
}

abbrev found : Option (List (ℕ × ℕ))
found = some []

abbrev session : Session
session = record {
  peer_null = false;
  disconnected = false;
  rpc_stats = false;
  unique_id = 1;
  manual_send = false;
  peer_count = 2;
  now_us = 40000;
}

abbrev timing : Timing
timing = record { last_send_us = 1000; cached_min_interval_us = 33000 }

roomy :
    server.ids.next + cost toy world server.pending_spawns + length server.entities_to_add < 2 ^ 32
unfolding init collect_syncs
roomy = omega arith

perform_all-poll_example :
    let (z, ops) = perform_all toy server world found (poll session timing).1 in
    HandedOver toy z ops 20
unfolding ensure_link capture_spawners get has
perform_all-poll_example =
    perform_all-poll toy session timing server world found 20 pending_20 refl refl init-Handed roomy
      refl refl refl
