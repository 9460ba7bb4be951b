-- ===== src/Registry/Spawning.antt =====
-- The server's spawns, in src/goldnet_multiplayer.cpp: capturing spawners and what they spawn, and turning
-- it into the core's records.
use goldnet_godot.Common.{
  ℕ, Bool, true, false, not, Option, none, some, List, [], ◌∷◌, ◌++◌, HashMap, get, put, erase, has,
  nat_eq, HashSet, contains, insert, ◌==◌, if◌then◌else◌,
}
use goldnet_godot.Platform.{Platform, Variant}
use goldnet_godot.NetIds.{NetIds, id, assign}
use goldnet_godot.Spawns.{SpawnSync, put_spawn_data}
use goldnet_godot.Registry.{
  collect_syncs, Scene, SpawnRecord, CoreOp, add_spawn, PendingSpawn, Registry, bind_record,
  wrap_spawner,
}

module _ (p : Platform) where
  open p use {F, O}

  -- The synchronizers of a spawned node: the ids of all, and the named ones of those we own.
  unfoldable pub name_syncs :
      NetIds → HashSet → Scene → ℕ → List ℕ → NetIds × List ℕ × List SpawnSync
  name_syncs ids owned w n [] = (ids, [], [])
  name_syncs ids owned w n (sync ∷ syncs) =
      let (ids1, i) = assign ids sync in
      let rest = name_syncs ids1 owned w n syncs in
      (
        rest.0,
        i ∷ rest.1,
        if contains owned sync
            then record { net_id = i; path = w.path_to n sync } ∷ rest.2
            else rest.2,
      )

  unfoldable pub erase_all : HashMap ℕ (PendingSpawn p) → List ℕ → HashMap ℕ (PendingSpawn p)
  erase_all m [] = m
  erase_all m (n ∷ ns) = erase_all (erase m n) ns

  module _ {Callable : Type 0} where
    unfoldable pub wrap_all : Registry p Callable → List (ℕ × Callable) → Registry p Callable
    wrap_all r [] = r
    wrap_all r ((spawner, fn) ∷ rest) = wrap_all (wrap_spawner p r spawner fn) rest

    -- capture_spawners, with the spawners in the tree, if there is one yet.
    unfoldable pub capture_spawners :
        Registry p Callable → Option (List (ℕ × Callable)) → Registry p Callable
    capture_spawners r none = r
    capture_spawners r (some found) =
        if r.spawners_scanned then r else wrap_all (record r { spawners_scanned = true }) found

    -- _spawn_trampoline, where the spawn function built a node or none.
    unfoldable pub spawn_trampoline :
        Registry p Callable
        → ℕ
        → Variant F O
        → (Callable → Option ℕ)
        → Registry p Callable × Option ℕ
    spawn_trampoline r spawner v build =
        let built = elim (get r.spawners spawner) as (λ _. Option ℕ) [
          | none ↦ none
          | some fn ↦ build fn
        ] in
        elim built [
          | none ↦ (r, none)
          | some n ↦ (
            record r {
              pending_spawns =
                  put r.pending_spawns n (record { spawner_objid = spawner; spawn_data = v });
            },
            some n,
          )
        ]

    -- _spawner_net_id: the id, and what the core is asked the first time.
    unfoldable pub spawner_net_id :
        Registry p Callable → Scene → ℕ → Registry p Callable × List CoreOp × ℕ
    spawner_net_id r w spawner =
        let (ids, i) = assign r.ids spawner in
        if not (id r.ids spawner == 0)
        then (r, [], id r.ids spawner)
        else if w.alive spawner
        then (
          record r { ids = ids; bind_ids = insert r.bind_ids i },
          add_spawn i (bind_record p w spawner i false) ∷ [],
          i,
        )
        else (record r { ids = ids }, [], i)

    -- A captured spawn whose node is in the tree becomes a record.
    unfoldable pub promote :
        Registry p Callable → Scene → ℕ → PendingSpawn p → Registry p Callable × List CoreOp
    promote r w n ps =
        let (r1, ops, spawner) = spawner_net_id r w ps.spawner_objid in
        let (ids1, entities, named) =
          name_syncs r1.ids r1.owned w n (collect_syncs (w.subtree n)) in
        let (ids2, net_id) = assign ids1 n in
        let made : SpawnRecord = record {
          spawner_net_id = spawner;
          entities = entities;
          data_bytes = put_spawn_data p named ps.spawn_data;
        } in
        (
          record r1 { ids = ids2; server_spawned = insert r1.server_spawned net_id },
          ops ++ add_spawn net_id made ∷ [],
        )

    -- One round of _drain_pending_spawns' loop: whether the spawn is done with, too.
    unfoldable pub drain_one :
        Registry p Callable → Scene → ℕ → PendingSpawn p → Registry p Callable × List CoreOp × Bool
    drain_one r w n ps =
        let done = promote r w n ps in
        if not (w.alive n)
        then (r, [], true)
        else if not (w.in_tree n)
        then (r, [], false)
        else if has r.spawners ps.spawner_objid
        then (done.0, done.1, true)
        else (r, [], true)

    unfoldable pub drain_each :
        Registry p Callable
        → Scene
        → HashMap ℕ (PendingSpawn p)
        → Registry p Callable × List CoreOp × List ℕ
    drain_each r w [] = (r, [], [])
    drain_each r w ((n, ps) ∷ pending) =
        let (r1, ops, done) = drain_one r w n ps in
        let rest = drain_each r1 w pending in
        (rest.0, ops ++ rest.1, if done then n ∷ rest.2 else rest.2)

    -- _drain_pending_spawns
    unfoldable pub drain_pending_spawns :
        Registry p Callable → Scene → Registry p Callable × List CoreOp
    drain_pending_spawns r w =
        let (r1, ops, done) = drain_each r w r.pending_spawns in
        (record r1 { pending_spawns = erase_all r1.pending_spawns done }, ops)
