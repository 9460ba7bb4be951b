-- ===== src/Registry/Examples.antt =====
-- Tests of what becomes of synchronizers and spawns, at concrete nodes.
use goldnet_godot.Common.{
  List, discard, ℕ, true, false, ◌&&◌, not, ◌≡◌, [], ◌∷◌, ◌++◌, keep, All, contains, arith, nat_eq,
  none, some, get, erase, put, insert, ltb, ◌==◌, ◌||◌, if◌then◌else◌, length, refl, ◌^◌, ◌+◌, ◌<◌,
}
use goldnet_godot.Platform.{Variant, other}
use goldnet_godot.Platform.Toy.{toy}
use goldnet_godot.NetIds.{NetIds, init, id, object, drop, bind, release, put_entry, assign}
use goldnet_godot.NetIds.Session.{init-Handed}
use goldnet_godot.NetIds.Invariant.{init-WellFormed, bind-WellFormed}
use goldnet_godot.NetIds.Binding.{Names}
use goldnet_godot.Registry.{
  add_spawn, gone_ids, drop_each, node, leaf, grow, Scene, SpawnRecord, despawn, mark_dirty,
  PendingSpawn, Registry, detect_despawns, collect_syncs,
}
use goldnet_godot.Registry.Spawning.{name_syncs, promote, spawner_net_id}
use goldnet_godot.Registry.Configuration.{
  synchronizer, object_configuration_add, object_configuration_remove, mark_object, owned_child,
}
use goldnet_godot.Registry.Client.{Build, spawned_signal, insert_all, spawn}
use goldnet_godot.Registry.Despawns.{despawns, detect_despawns_keeps}
use goldnet_godot.Registry.Steps.{Waits, enters, Step-Waits}
use goldnet_godot.Registry.{add_entities}
use goldnet_godot.Registry.Removal.{
  Marking, registers, leaves, marks, mark_step, mark_steps, mark_object_misses,
}
use goldnet_godot.Registry.Ends.Promotion.{record_of}
use goldnet_godot.Registry.Ends.Agreement.{Copied, Sized, promote-spawn}

-- A spawned node 20 with the synchronizers 21, ours, and 22; 7 is not in the tree.
abbrev world : Scene
world = record {
  alive = λ o. ltb 0 o && ltb o 100;
  in_tree = λ o. not (o == 7);
  is_authority = λ o. true;
  subtree = λ o.
      if o == 20
      then node 20 false (grow (node 21 true leaf) (grow (node 22 true leaf) leaf))
      else node o false leaf;
  ancestry = λ o. if o == 21 then 21 ∷ 20 ∷ [] else o ∷ [];
  path = λ o. if o == 10 then "Level/Spawner" else "Level";
  path_to = λ n o. if o == 21 then "Sync" else "Other";
}

-- Ids 1 and 2 name the objects 400, which is gone, and 21.
abbrev two_ids : NetIds
two_ids = record {
  by_id =
      (1, record { obj = 400; learned = false }) ∷ (2, record { obj = 21; learned = false }) ∷ [];
  by_obj = (400, 1) ∷ (21, 2) ∷ [];
  next = 3;
}

abbrev pending_20 : PendingSpawn toy
pending_20 = record { spawner_objid = 10; spawn_data = other 9 }

abbrev server : Registry toy ℕ
server = record {
  ids = init;
  owned = 21 ∷ [];
  bind_ids = [];
  entities_to_add = 21 ∷ [];
  spawners = (10, 5) ∷ [];
  spawners_scanned = true;
  pending_spawns = (20, pending_20) ∷ (7, pending_20) ∷ [];
  server_spawned = [];
  client_spawned = [];
  client_slot_codings = [];
  dirty_route = [];
}

abbrev later : Registry toy ℕ
later = record server { ids = two_ids; server_spawned = 1 ∷ []; bind_ids = 2 ∷ [] }

detect_despawns_keeps_example :
    let (r1, ops) = detect_despawns toy later world in
    let gone =
      (contains later.server_spawned 1 || contains later.bind_ids 1)
      && not (world.alive (object later.ids 1)) in
    (contains r1.server_spawned 1
      ≡ (contains later.server_spawned 1 && world.alive (object later.ids 1)))
    × (contains r1.bind_ids 1 ≡ (contains later.bind_ids 1 && world.alive (object later.ids 1)))
    × (object r1.ids 1 ≡ (if gone then 0 else object later.ids 1))
    × (despawns ops 1 ≡ gone)
detect_despawns_keeps_example = detect_despawns_keeps toy later world 1 refl

detect_despawns_asks : (detect_despawns toy later world).1 ≡ despawn 1 ∷ []
unfolding detect_despawns gone_ids object get drop_each drop erase
detect_despawns_asks = refl

roomy : server.ids.next + (length (collect_syncs (world.subtree 20)) + 2) < 2 ^ 32
unfolding init collect_syncs
roomy = omega arith

server-Waits : Waits toy server
server-Waits k h = h

-- The child 31 registers, another comes and goes, and the node is marked.
abbrev markings : List (Marking ℕ)
markings =
    registers true true (synchronizer 31 true)
    ∷ registers true true (synchronizer 32 true)
    ∷ leaves (synchronizer 32 true)
    ∷ marks 30 (some (31 ∷ []))
    ∷ []

mark_object_misses_example :
    let after = mark_steps toy (mark_object toy server 30 (some (29 ∷ []))).0 markings in
    ((mark_object toy after 30 (some (31 ∷ []))).1 ≡ [])
    × ((mark_object toy
          (record after { dirty_route = erase after.dirty_route 30 })
          30
          (some (31 ∷ []))).1
        ≡ mark_dirty (id after.ids 31) ∷ [])
unfolding mark_steps mark_step mark_object object_configuration_add object_configuration_remove
    owned_child insert discard get release id init put
mark_object_misses_example =
    mark_object_misses toy server 30 31 (29 ∷ []) (31 ∷ []) markings refl refl refl refl refl refl

-- A client that knows spawner 10 as its own 50; its spawn function builds 60, with the synchronizer 61.
abbrev client_ids : NetIds
client_ids = bind init 1 50

abbrev client : Registry toy ℕ
client = record server {
  ids = client_ids;
  owned = [];
  entities_to_add = [];
  spawners = (50, 6) ∷ [];
  pending_spawns = [];
}

abbrev engine : Build (Variant toy.F toy.O) ℕ
engine = record {
  alive = λ o. true;
  has_spawn_root = λ o. true;
  call = λ fn v. some 60;
  registers = λ o. 61 ∷ [];
  sync_at = λ n path. some 61;
}

abbrev end_ids : NetIds
end_ids = (promote toy server world 20 pending_20).0.ids

abbrev written : SpawnRecord
written = record_of toy end_ids server.owned world 20 pending_20

knows_spawner : get client.spawners (object client.ids (id end_ids 10)) ≡ some 6
unfolding promote spawner_net_id collect_syncs name_syncs assign put_entry id object bind release
    drop init get put erase
knows_spawner = refl

Copied-60 :
    Copied world 20
      (engine.sync_at 60)
      (insert_all client.owned (engine.registers 60))
      60
      (λ o. 61)
      (keep (contains server.owned) (collect_syncs (world.subtree 20)))
unfolding collect_syncs insert_all insert
Copied-60 = ((refl, refl, omega arith, omega arith, tt), tt)

Sized-20 : Sized toy world 20 (keep (contains server.owned) (collect_syncs (world.subtree 20)))
unfolding collect_syncs
Sized-20 = (omega arith, tt)

promote-spawn_example :
    let (c1, signals, taken) =
      spawn toy client engine
        (λ path. none)
        (id end_ids 20)
        written.spawner_net_id
        written.data_bytes in
    ((promote toy server world 20 pending_20).1
      ≡ (spawner_net_id toy server world 10).1 ++ add_spawn (id end_ids 20) written ∷ [])
    × Names c1.ids (id end_ids 20) 60
    × All
        (λ o. Names c1.ids (id end_ids o) 61)
        (keep (contains server.owned) (collect_syncs (world.subtree 20)))
    × (signals ≡ spawned_signal (object client.ids (id end_ids 10)) 60 ∷ [])
    × (taken ≡ true)
promote-spawn_example =
    promote-spawn toy server world 20 pending_20 client engine 60 6 (λ o. 61) (λ path. none)
      init-Handed roomy Sized-20 (bind-WellFormed init 1 50 init-WellFormed (omega arith))
      knows_spawner refl refl refl Copied-60

Step-Waits_example : Waits toy (add_entities toy server world).0
Step-Waits_example = Step-Waits toy {r = server} (enters world) server-Waits
