-- ===== src/Snapshots/Examples.antt =====
-- The theorems on snapshots at a concrete snapshot: a spawn of node 20 with the state of its synchronizer.
use goldnet_godot.Common.{
  ℕ, true, false, ◌&&◌, not, ◌≡◌, [], ◌∷◌, ◌++◌, keep, contains, arith, nat_eq, none, some, List,
  map, get, erase, put, insert, ltb, ◌==◌, if◌then◌else◌, length, refl, ◌^◌, ◌+◌, ◌<◌, Option,
}
use goldnet_godot.Platform.{Variant, other, int, float}
use goldnet_godot.Platform.Toy.{toy}
use goldnet_godot.Messages.{any_peer}
use goldnet_godot.NetIds.{NetIds, init, id, object, drop, bind, release, put_entry, assign}
use goldnet_godot.NetIds.Session.{init-Handed}
use goldnet_godot.NetIds.Invariant.{init-WellFormed, bind-WellFormed}
use goldnet_godot.Registry.{
  node, leaf, grow, Scene, SpawnRecord, PendingSpawn, Registry, collect_syncs,
}
use goldnet_godot.Registry.Spawning.{name_syncs, promote, spawner_net_id}
use goldnet_godot.Registry.Client.{Build, spawned_signal, insert_all}
use goldnet_godot.Registry.Ends.Promotion.{record_of}
use goldnet_godot.Registry.Ends.Agreement.{Copied, Sized}
use goldnet_godot.Values.{quant_auto, sk_int_step, sk_float_grid}
use goldnet_godot.Values.Slots.{grid_q}
use goldnet_godot.Values.Slots.RoundTrip.{quanta}
use goldnet_godot.SlotSetup.{SlotCode}
use goldnet_godot.Hosts.{
  applied as applied_entity, EntityUpdate, Codings, Local, Outcome, set_nodes, coding_of,
}
use goldnet_godot.Hosts.Transfer.{Changed, arrives, encode_each}
use goldnet_godot.Snapshots.{
  Snapshot, applied, message, spawn_record, entity_update, Moment, Client, Heard, signalled, taken,
  take,
}
use goldnet_godot.Snapshots.Arrival.{take-spawn_then_state}

abbrev world : Scene
world = record {
  alive = λ o. ltb 0 o && ltb o 100;
  in_tree = λ o. not (o == 7);
  is_authority = λ o. true;
  subtree = λ o.
      if o == 20
      then node 20 false (grow (node 21 true leaf) (grow (node 22 true leaf) leaf))
      else node o false leaf;
  ancestry = λ o. if o == 21 then 21 ∷ 20 ∷ [] else o ∷ [];
  path = λ o. if o == 10 then "Level/Spawner" else "Level";
  path_to = λ n o. if o == 21 then "Sync" else "Other";
}

abbrev pending_20 : PendingSpawn toy
pending_20 = record { spawner_objid = 10; spawn_data = other 9 }

abbrev server : Registry toy ℕ
server = record {
  ids = init;
  owned = 21 ∷ [];
  bind_ids = [];
  entities_to_add = 21 ∷ [];
  spawners = (10, 5) ∷ [];
  spawners_scanned = true;
  pending_spawns = (20, pending_20) ∷ (7, pending_20) ∷ [];
  server_spawned = [];
  client_spawned = [];
  client_slot_codings = [];
  dirty_route = [];
}

roomy : server.ids.next + (length (collect_syncs (world.subtree 20)) + 2) < 2 ^ 32
unfolding init collect_syncs
roomy = omega arith

abbrev client_ids : NetIds
client_ids = bind init 1 50

abbrev client : Registry toy ℕ
client = record server {
  ids = client_ids;
  owned = [];
  entities_to_add = [];
  spawners = (50, 6) ∷ [];
  pending_spawns = [];
}

abbrev engine : Build (Variant toy.F toy.O) ℕ
engine = record {
  alive = λ o. true;
  has_spawn_root = λ o. true;
  call = λ fn v. some 60;
  registers = λ o. 61 ∷ [];
  sync_at = λ n path. some 61;
}

abbrev end_ids : NetIds
end_ids = (promote toy server world 20 pending_20).0.ids

abbrev written : SpawnRecord
written = record_of toy end_ids server.owned world 20 pending_20

knows_spawner : get client.spawners (object client.ids (id end_ids 10)) ≡ some 6
unfolding promote spawner_net_id collect_syncs name_syncs assign put_entry id object bind release
    drop init get put erase
knows_spawner = refl

Copied-60 :
    Copied world 20
      (engine.sync_at 60)
      (insert_all client.owned (engine.registers 60))
      60
      (λ o. 61)
      (keep (contains server.owned) (collect_syncs (world.subtree 20)))
unfolding collect_syncs insert_all insert
Copied-60 = ((refl, refl, omega arith, omega arith, tt), tt)

Sized-20 : Sized toy world 20 (keep (contains server.owned) (collect_syncs (world.subtree 20)))
unfolding collect_syncs
Sized-20 = (omega arith, tt)

abbrev health : SlotCode toy
health = record { kind = sk_int_step; grid = 0; quant = quant_auto }

abbrev height : SlotCode toy
height = record { kind = sk_float_grid; grid = 4; quant = quant_auto }

abbrev local : Local toy
local = record {
  slots = 2;
  made = (health ∷ height ∷ [], 9);
  resolve = λ s. if s == 0 then some (5, "health") else none;
}

abbrev codings : Codings toy
codings = record { client_slot_codings = []; warned_kinds = [] }

abbrev both : List (Changed toy)
both =
    record { slot = 0; code = health; value = int 7 }
    ∷ record { slot = 1; code = height; value = float 22 }
    ∷ []

abbrev held : ℕ → Option (Variant ℕ ℕ)
held s = if s == 1 then some (float 41) else none

abbrev update : EntityUpdate toy
update = record {
  net_id = id end_ids 21;
  whole = true;
  kinds_check = 9;
  changed = 0 ∷ 1 ∷ [];
  base = λ s. if s == 1 then some (float 40) else none;
  server_time = 100;
  reader = toy.reader (encode_each toy both held 100 ++ []);
}

abbrev moments : ℕ → Moment toy ℕ
moments n = record {
  world = record {
    node_at = λ path. some 7;
    node_in_tree = λ o. true;
    rpc_mode = λ o method. some any_peer;
    authority_of = λ o. 1;
  };
  scene = world;
  build = engine;
  node_at = λ path. none;
  parting = record { is_there = λ o. true; spawner_of = λ spawners o. none };
  local_sync = local;
  rpcs = λ s. s;
}

abbrev fresh : Client toy ℕ
fresh = record {
  registry = client;
  codings = codings;
  messages = record {
    msg_ids = [];
    msg_next_id = 1;
    msg_registered = [];
    msg_targets =
        (
          1,
          (5, record { path = "/root/Player"; method = "hit"; object_id = 7; warned = false }) ∷ [],
        )
        ∷ [];
  };
  warned_given_up = [];
  update_rate_granted = none;
}

take-spawn_then_state_example :
    (out : Outcome toy) × (after : List (Heard toy)) × ((take toy fresh moments 0 (
        spawn_record
          (id end_ids 20)
          written.spawner_net_id
          written.data_bytes
          (λ took. entity_update update (λ a values. applied [] none)))).1
      ≡ signalled (spawned_signal (object client.ids (id end_ids 10)) 60 ∷ [])
        ∷ taken (id end_ids 21) out
        ∷ after)
    × (out.result ≡ applied_entity)
    × (out.values ≡ map (arrives toy) both)
    × (out.sets ≡ set_nodes toy local.resolve (map (arrives toy) both))
unfolding coding_of quanta grid_q get collect_syncs
take-spawn_then_state_example =
    take-spawn_then_state toy server world 20 pending_20 fresh moments 0 60 6 (λ o. 61) 21 update
      (health ∷ height ∷ []) 9 held [] both
      (λ took. entity_update update (λ a values. applied [] none)) (λ a values. applied [] none)
      init-Handed roomy Sized-20 (bind-WellFormed init 1 50 init-WellFormed (omega arith))
      knows_spawner refl refl refl Copied-60 refl refl refl refl refl refl refl refl refl
      (omega arith)
      (
        (omega arith, refl, tt, omega arith, omega arith),
        ((omega arith, refl, refl, omega arith, omega arith), tt),
      )

-- A core that finds a message in every packet.
abbrev finds_message : List ℕ → Snapshot toy
finds_message bytes = message (toy.put_uvarint 5 ++ toy.put_uvarint 0) (applied [] none)
