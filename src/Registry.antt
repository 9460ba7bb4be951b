-- ===== src/Registry.antt =====
-- What GoldNetMultiplayer keeps of synchronizers, spawners and spawned nodes, in
-- src/goldnet_multiplayer.cpp, and its server's side: capturing spawners, turning spawns into the core's
-- records, noticing freed nodes and handing synchronizers to the core. Nodes are object ids; what the
-- engine says of them is an argument, and what the core is asked to do a list.
pub mod Spawning
pub mod Configuration
pub mod Client
pub mod Despawns
pub mod Records
pub mod Steps
pub mod Polling
pub mod Removal
pub mod Rates
pub mod Ends
mod Examples
use goldnet_godot.Common.{
  ℕ, ◌+◌, ◌%◌, ◌^◌, Bool, true, false, ◌&&◌, ◌||◌, not, String, Option, none, some, List, [], ◌∷◌,
  ◌++◌, map, any, keep, HashMap, get, put, erase, has, nat_eq, HashSet, contains, insert, discard,
  discard_all, ◌==◌, if◌then◌else◌,
}
use goldnet_godot.Platform.{Platform, Variant}
use goldnet_godot.NetIds.{NetIds, id, object, assign, drop}
use goldnet_godot.Spawns.{SpawnSync, bind_spawner, put_spawn_data}

mutual
  -- A node and what is under it: its object id, and whether it is a synchronizer.
  pub data Tree : Type 0 where
    node : ℕ → Bool → Forest → Tree

  pub data Forest : Type 0 where
    leaf : Forest
    grow : Tree → Forest → Forest

unfoldable mutual
  -- collect_syncs
  pub collect_syncs : Tree → List ℕ
  collect_syncs (node o is_sync children) =
      if is_sync then o ∷ collect_children children else collect_children children

  pub collect_children : Forest → List ℕ
  collect_children leaf = []
  collect_children (grow t ts) = collect_syncs t ++ collect_children ts

-- What the engine says of objects: whether one is still there (ObjectDB::get_instance), is in the tree,
-- is ours to replicate (is_multiplayer_authority); the tree under a node, the nodes from it up to the
-- root, its path, and the path from it to another.
pub record Scene : Type 0 where
  pub alive : ℕ → Bool
  pub in_tree : ℕ → Bool
  pub is_authority : ℕ → Bool
  pub subtree : ℕ → Tree
  pub ancestry : ℕ → List ℕ
  pub path : ℕ → String
  pub path_to : ℕ → ℕ → String

-- goldnet's SpawnRecord
pub record SpawnRecord : Type 0 where
  pub spawner_net_id : ℕ
  pub entities : List ℕ
  pub data_bytes : List ℕ

-- What the core is asked to do: Server's add_spawn, add_entity (with its bind record, if it has one),
-- despawn, remove_entity and mark_dirty, and Client's forget.
pub data CoreOp : Type 0 where
  add_spawn : ℕ → SpawnRecord → CoreOp
  add_entity : ℕ → Option SpawnRecord → CoreOp
  despawn remove_entity mark_dirty forget : ℕ → CoreOp

-- The ids in a set whose object is gone.
unfoldable pub gone_ids : NetIds → Scene → HashSet → List ℕ
gone_ids ids w s = keep (λ i. not (w.alive (object ids i))) s

unfoldable pub drop_each : NetIds → List ℕ → NetIds
drop_each ids [] = ids
drop_each ids (i ∷ is) = drop_each (drop ids i) is

module _ (p : Platform) where
  open p use {F, O, utf8}

  -- PendingSpawn
  pub record PendingSpawn : Type 0 where
    pub spawner_objid : ℕ
    pub spawn_data : Variant F O

  -- The members of GoldNetMultiplayer. A spawner's entry is its own spawn function, a Callable.
  pub record Registry (Callable : Type 0) : Type 0 where
    pub ids : NetIds
    pub owned : HashSet
    pub bind_ids : HashSet
    pub entities_to_add : HashSet
    pub spawners : HashMap ℕ Callable
    pub spawners_scanned : Bool
    pub pending_spawns : HashMap ℕ PendingSpawn
    pub server_spawned : HashSet
    pub client_spawned : HashSet
    pub client_slot_codings : HashSet
    pub dirty_route : HashMap ℕ ℕ

  -- _bind_record
  unfoldable pub bind_record : Scene → ℕ → ℕ → Bool → SpawnRecord
  bind_record w n net_id gated = record {
    spawner_net_id = bind_spawner;
    entities = if gated then net_id ∷ [] else [];
    data_bytes = utf8 (w.path n);
  }

  module _ {Callable : Type 0} where
    -- _wrap_spawner, of a spawner with this spawn function.
    unfoldable pub wrap_spawner : Registry Callable → ℕ → Callable → Registry Callable
    wrap_spawner r spawner fn =
        if has r.spawners spawner then r else record r { spawners = put r.spawners spawner fn }

    -- _detect_despawns
    unfoldable pub detect_despawns : Registry Callable → Scene → Registry Callable × List CoreOp
    detect_despawns r w =
        let spawned = gone_ids r.ids w r.server_spawned in
        let ids1 = drop_each r.ids spawned in
        let bound = gone_ids ids1 w r.bind_ids in
        (
          record r {
            ids = drop_each ids1 bound;
            server_spawned = discard_all r.server_spawned spawned;
            bind_ids = discard_all r.bind_ids bound;
          },
          map despawn (spawned ++ bound),
        )

    -- _under_spawned
    unfoldable pub under_spawned : Registry Callable → Scene → ℕ → Bool
    under_spawned r w n = any (λ o. contains r.server_spawned (id r.ids o)) (w.ancestry n)

    -- One round of _add_entities' loop; the layout that the core is given is SlotSetup's.
    unfoldable pub enter : Registry Callable → Scene → ℕ → Registry Callable × List CoreOp × Bool
    enter r w sync =
        let (ids, i) = assign r.ids sync in
        let r1 : Registry Callable = record r { ids = ids } in
        if not (w.alive sync)
        then (r, [], true)
        else if not (w.in_tree sync && w.is_authority sync)
        then (r, [], false)
        else if under_spawned r1 w sync
        then (r1, add_entity i none ∷ [], true)
        else (
          record r1 { bind_ids = insert r1.bind_ids i },
          add_entity i (some (bind_record w sync i true)) ∷ [],
          true,
        )

    unfoldable pub enter_each :
        Registry Callable → Scene → List ℕ → Registry Callable × List CoreOp × List ℕ
    enter_each r w [] = (r, [], [])
    enter_each r w (sync ∷ syncs) =
        let (r1, ops, done) = enter r w sync in
        let rest = enter_each r1 w syncs in
        (rest.0, ops ++ rest.1, if done then sync ∷ rest.2 else rest.2)

    -- _add_entities
    unfoldable pub add_entities : Registry Callable → Scene → Registry Callable × List CoreOp
    add_entities r w =
        let (r1, ops, done) = enter_each r w r.entities_to_add in
        (record r1 { entities_to_add = discard_all r1.entities_to_add done }, ops)
