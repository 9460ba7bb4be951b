-- ===== src/Registry/Configuration.antt =====
-- How synchronizers and spawners register, and the marks of a game, in src/goldnet_multiplayer.cpp:
-- _object_configuration_add, _object_configuration_remove and mark_dirty.
use goldnet_godot.Common.{
  ℕ, Bool, true, false, ◌&&◌, not, Option, none, some, List, [], ◌∷◌, get, put, has, nat_eq,
  HashSet, contains, insert, discard, ◌==◌, if◌then◌else◌,
}
use goldnet_godot.Platform.{Platform}
use goldnet_godot.NetIds.{id, release}
use goldnet_godot.Registry.{Registry, CoreOp, mark_dirty, forget, remove_entity, wrap_spawner}

-- What a configuration is: a spawner with its spawn function, a synchronizer that carries replicated
-- state or none, or anything else.
pub data Config (Callable : Type 0) : Type 0 where
  spawner : ℕ → Callable → Config Callable
  synchronizer : ℕ → Bool → Config Callable
  unknown : Config Callable

-- Whether we take the configuration, or the inner API does.
pub data Claim : Type 0 where
  ours inners : Claim

-- The first synchronizer we own among a node's children.
unfoldable pub owned_child : HashSet → List ℕ → Option ℕ
owned_child owned [] = none
owned_child owned (sync ∷ syncs) =
    let rest = owned_child owned syncs in if contains owned sync then some sync else rest

module _ (p : Platform) {Callable : Type 0} where
  -- _object_configuration_add, of an object or none, on the server or not. Taking a synchronizer also
  -- refreshes the send interval (Registry/Rates).
  unfoldable pub object_configuration_add :
      Registry p Callable → Bool → Bool → Config Callable → Registry p Callable × Claim
  object_configuration_add r on_server has_object (spawner sp fn) = (
    if has_object && on_server && not (has r.spawners sp) then wrap_spawner p r sp fn else r,
    ours,
  )
  object_configuration_add r on_server has_object (synchronizer sync true) = (
    record r { owned = insert r.owned sync; entities_to_add = insert r.entities_to_add sync },
    ours,
  )
  object_configuration_add r on_server has_object (synchronizer sync false) = (r, inners)
  object_configuration_add r on_server has_object unknown = (r, inners)

  -- _object_configuration_remove
  unfoldable pub object_configuration_remove :
      Registry p Callable → Config Callable → Registry p Callable × List CoreOp × Claim
  object_configuration_remove r (spawner sp fn) = (r, [], ours)
  object_configuration_remove r (synchronizer sync streams) =
      let (ids, net_id) = release r.ids sync in
      let r1 : Registry p Callable = record r {
        ids = ids;
        client_slot_codings = discard r.client_slot_codings sync;
      } in
      let r2 : Registry p Callable = record r1 {
        owned = discard r.owned sync;
        entities_to_add = discard r.entities_to_add sync;
      } in
      if not (contains r.owned sync)
      then (r1, [], inners)
      else if net_id == 0
      then (r2, [], ours)
      else (
        record r2 { bind_ids = discard r.bind_ids net_id },
        forget net_id ∷ remove_entity net_id ∷ [],
        ours,
      )
  object_configuration_remove r unknown = (r, [], inners)

  -- mark_dirty of an object, with the synchronizers among its children if it is a node.
  unfoldable pub mark_object :
      Registry p Callable → ℕ → Option (List ℕ) → Registry p Callable × List CoreOp
  mark_object r o children =
      if contains r.owned o then (r, mark_dirty (id r.ids o) ∷ []) else elim (get r.dirty_route o) [
        | some routed ↦
            (r, if contains r.owned routed then mark_dirty (id r.ids routed) ∷ [] else [])
        | none ↦ elim children [
          | none ↦ (r, [])
          | some syncs ↦ elim (owned_child r.owned syncs) [
            | some sync ↦ (
              record r { dirty_route = put r.dirty_route o sync },
              mark_dirty (id r.ids sync) ∷ [],
            )
            | none ↦ (record r { dirty_route = put r.dirty_route o 0 }, [])
          ]
        ]
      ]
