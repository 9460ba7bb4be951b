-- ===== src/Registry/Client.antt =====
-- The client's side of spawn and bind records, in src/goldnet_multiplayer.cpp: _apply_spawn, _apply_bind,
-- _apply_despawn and ClientHost::spawn. What the engine answers while they run is an argument.
use goldnet_godot.Common.{
  ℕ, Bool, true, false, not, String, Option, none, some, List, [], ◌∷◌, ◌==◌, ◌++◌, HashMap, get,
  nat_eq, HashSet, contains, insert, discard, if◌then◌else◌,
}
use goldnet_godot.Platform.{Platform, Variant}
use goldnet_godot.NetIds.{NetIds, object, bind, drop}
use goldnet_godot.Spawns.{SpawnSync, bind_spawner, get_spawn_data}
use goldnet_godot.Registry.{Registry, CoreOp, forget, wrap_spawner}

-- What the engine does for a spawn: whether the spawner is still there, whether its spawn path is, the
-- node that its spawn function builds of the data, and the synchronizers that entered the tree with it
-- (by object id) with the one at a path.
pub record Build (V Callable : Type 0) : Type 0 where
  pub alive : ℕ → Bool
  pub has_spawn_root : ℕ → Bool
  pub call : Callable → V → Option ℕ
  pub registers : ℕ → List ℕ
  pub sync_at : ℕ → String → Option ℕ

-- What the game hears of, and what is freed.
pub data Signal : Type 0 where
  spawned_signal : ℕ → ℕ → Signal
  missing_sync : ℕ → String → Signal
  despawned_signal : ℕ → ℕ → Signal
  queue_free : ℕ → Signal

unfoldable pub insert_all : HashSet → List ℕ → HashSet
insert_all s [] = s
insert_all s (k ∷ ks) = insert_all (insert s k) ks

-- The record's ids, bound to the synchronizers at its paths that we own.
unfoldable pub bind_syncs :
    NetIds → HashSet → (String → Option ℕ) → ℕ → List SpawnSync → NetIds × List Signal
bind_syncs ids owned at n [] = (ids, [])
bind_syncs ids owned at n (s ∷ ss) =
    let missed = bind_syncs ids owned at n ss in
    let found = λ (o : ℕ). bind_syncs (bind ids s.net_id o) owned at n ss in
    elim (at s.path) [
      | none ↦ (missed.0, missing_sync n s.path ∷ missed.1)
      | some o ↦ if contains owned o then found o else (missed.0, missing_sync n s.path ∷ missed.1)
    ]

-- What a despawn asks of the engine: whether the node is there, and the spawner whose spawn path is its
-- parent, the first of those we hold.
pub record Parting : Type 0 where
  pub is_there : ℕ → Bool
  pub spawner_of : List ℕ → ℕ → Option ℕ

unfoldable pub keys : {V : Type 0} → HashMap ℕ V → List ℕ
keys [] = []
keys ((k, v) ∷ m) = k ∷ keys m

module _ (p : Platform) {Callable : Type 0} where
  open p use {F, O}

  -- A built node enters the tree, its synchronizers register, and the record's ids are bound.
  unfoldable pub adopt :
      Registry p Callable
      → Build (Variant F O) Callable
      → ℕ
      → ℕ
      → List SpawnSync
      → ℕ
      → Registry p Callable × List Signal
  adopt r e net_id spawner syncs n =
      let owned = insert_all r.owned (e.registers n) in
      let (ids, signals) = bind_syncs (bind r.ids net_id n) owned (e.sync_at n) n syncs in
      (
        record r {
          ids = ids;
          owned = owned;
          entities_to_add = insert_all r.entities_to_add (e.registers n);
          client_spawned = insert r.client_spawned net_id;
        },
        signals ++ spawned_signal spawner n ∷ [],
      )

  -- _apply_spawn, from the spawner that is there on: false asks for the record again.
  unfoldable pub build_spawn :
      Registry p Callable
      → Build (Variant F O) Callable
      → ℕ
      → ℕ
      → Callable
      → List ℕ
      → Registry p Callable × List Signal × Bool
  build_spawn r e net_id spawner fn bytes = elim (get_spawn_data p bytes) [
    | none ↦ (r, [], true)
    | some (syncs, v) ↦
        if not (e.has_spawn_root spawner) then (r, [], false) else elim (e.call fn v) [
          | none ↦ (r, [], false)
          | some n ↦ let done = adopt r e net_id spawner syncs n in (done.0, done.1, true)
        ]
  ]

  unfoldable pub apply_spawn :
      Registry p Callable
      → Build (Variant F O) Callable
      → ℕ
      → ℕ
      → List ℕ
      → Registry p Callable × List Signal × Bool
  apply_spawn r e net_id spawner_net_id bytes =
      let spawner = object r.ids spawner_net_id in
      elim (get r.spawners spawner) [
        | none ↦ (r, [], false)
        | some fn ↦
            if e.alive spawner then build_spawn r e net_id spawner fn bytes else (r, [], false)
      ]

  -- _apply_bind: the node at the record's path, if it is there, and its spawn function if it is a
  -- spawner.
  unfoldable pub apply_bind :
      Registry p Callable
      → (String → Option (ℕ × Option Callable))
      → ℕ
      → List ℕ
      → Registry p Callable × Bool
  apply_bind r node_at net_id bytes = elim (node_at (p.of_utf8 bytes)) [
    | none ↦ (r, false)
    | some (n, some fn) ↦
        let r1 = wrap_spawner p r n fn in (record r1 { ids = bind r1.ids net_id n }, true)
    | some (n, none) ↦
        if contains r.owned n then (record r { ids = bind r.ids net_id n }, true) else (r, false)
  ]

  -- ClientHost::spawn: a bind record or a spawn record.
  unfoldable pub spawn :
      Registry p Callable
      → Build (Variant F O) Callable
      → (String → Option (ℕ × Option Callable))
      → ℕ
      → ℕ
      → List ℕ
      → Registry p Callable × List Signal × Bool
  spawn r e node_at net_id spawner_net_id bytes =
      let (bound, taken) = apply_bind r node_at net_id bytes in
      if spawner_net_id == bind_spawner
      then (bound, [], taken)
      else apply_spawn r e net_id spawner_net_id bytes

  -- _apply_despawn
  unfoldable pub apply_despawn :
      Registry p Callable → Parting → ℕ → Registry p Callable × List CoreOp × List Signal
  apply_despawn r e net_id =
      let n = object r.ids net_id in
      let r1 : Registry p Callable = record r { ids = drop r.ids net_id } in
      let heard = elim (e.spawner_of (keys r.spawners) n) as (λ _. List Signal) [
        | none ↦ []
        | some spawner ↦ despawned_signal spawner n ∷ []
      ] in
      if not (contains r.client_spawned net_id) then (r1, forget net_id ∷ [], []) else (
        record r1 { client_spawned = discard r.client_spawned net_id },
        [],
        if e.is_there n then heard ++ queue_free n ∷ [] else [],
      )
