-- ===== src/Registry/Ends/Promotion.antt =====
-- The record of a promoted spawn, in terms of the ids that the server ends up with.
use goldnet_godot.Common.{
  ℕ, ◌+◌, ◌^◌, ◌<◌, ◌≡◌, ◌≢◌, refl, ap, sym, ◌∙◌, List, [], ◌∷◌, ◌++◌, map, keep, All, HashSet,
  insert, length, contains, arith, nat_eq, Bool-cases, inl, inr, ◌==◌,
}
use goldnet_godot.Platform.{Platform}
use goldnet_godot.NetIds.{NetIds, id, assign}
use goldnet_godot.NetIds.Session.{Handed}
use goldnet_godot.NetIds.Handing.{
  assign_names, assign_named, Follows, Follows-refl, Follows-trans, assign-Follows,
}
use goldnet_godot.Spawns.{SpawnSync, put_spawn_data}
use goldnet_godot.Registry.{Scene, add_spawn, Registry, PendingSpawn, SpawnRecord, collect_syncs}
use goldnet_godot.Registry.Spawning.{promote, spawner_net_id, name_syncs}

-- A synchronizer of the node n by the id it has and its path.
abbrev pub named_in : NetIds → Scene → ℕ → ℕ → SpawnSync
named_in t w n o = record { net_id = id t o; path = w.path_to n o }

module _ (p : Platform) where
  name_syncs-Follows :
      (ids : NetIds) (owned : HashSet) (w : Scene) (n : ℕ) (syncs : List ℕ)
      → ids.next + length syncs < 2 ^ 32
      → Handed ids
      → Follows ids (name_syncs p ids owned w n syncs).0 (length syncs)
  unfolding name_syncs
  name_syncs-Follows ids owned w n [] h v = Follows-refl ids v
  name_syncs-Follows ids owned w n (sync ∷ syncs) h v =
      let one = assign-Follows ids sync (omega arith) v in
      Follows-trans ids (assign ids sync).0 (name_syncs p (assign ids sync).0 owned w n syncs).0 1
        (length syncs) (length (sync ∷ syncs)) (omega arith) one
        (name_syncs-Follows (assign ids sync).0 owned w n syncs (omega (arith, one.room))
          one.handed)

  -- The ids that name_syncs gives are those the synchronizers have after it, in any table that keeps
  -- them, and none is 0.
  name_syncs_ids :
      (ids u : NetIds) (owned : HashSet) (w : Scene) (n : ℕ) (syncs : List ℕ)
      → ids.next + length syncs < 2 ^ 32
      → Handed ids
      → let (t, entities, named) = name_syncs p ids owned w n syncs in
        ((k : ℕ) → id t k ≢ 0 → id u k ≡ id t k)
        → (entities ≡ map (id u) syncs)
          × (named ≡ map (named_in u w n) (keep (contains owned) syncs))
          × All (λ o. id u o ≢ 0) syncs
  unfolding name_syncs
  name_syncs_ids ids u owned w n [] h v later = (refl, refl, tt)
  name_syncs_ids ids u owned w n (sync ∷ syncs) h v later =
      let one = assign-Follows ids sync (omega arith) v in
      let (nonzero, names, has_id) = assign_names ids sync v in
      let roomy : (assign ids sync).0.next + length syncs < 2 ^ 32 = omega (arith, one.room) in
      let more = name_syncs-Follows (assign ids sync).0 owned w n syncs roomy one.handed in
      let (entities, named, rest) =
        name_syncs_ids (assign ids sync).0 u owned w n syncs roomy one.handed later in
      let kept = more.kept sync (ground (arith, nonzero, has_id)) ∙ has_id in
      let still = later sync (λ z. nonzero (sym kept ∙ z)) ∙ kept in
      (
        cc,
        elim (Bool-cases (contains owned sync)) [ inl q ↦ rw (q) (cc) | inr q ↦ rw (q) named ],
        (λ z. nonzero (sym still ∙ z), rest),
      )

  -- The record that the table u makes of a spawn of node n.
  abbrev pub record_of : NetIds → HashSet → Scene → ℕ → PendingSpawn p → SpawnRecord
  record_of u owned w n ps =
      let syncs = collect_syncs (w.subtree n) in
      record {
        spawner_net_id = id u ps.spawner_objid;
        entities = map (id u) syncs;
        data_bytes =
            put_spawn_data p (map (named_in u w n) (keep (contains owned) syncs)) ps.spawn_data;
      }

  module _ {Callable : Type 0} where
    -- _spawner_net_id names the spawner as an assignment does, and leaves the rest alone.
    spawner_net_id-assign :
        (r : Registry p Callable) (w : Scene) (o : ℕ)
        → let (r1, ops, i) = spawner_net_id p r w o in
          (r1.ids ≡ (assign r.ids o).0) × (i ≡ (assign r.ids o).1) × (r1.owned ≡ r.owned)
    unfolding spawner_net_id
    spawner_net_id-assign r w o = elim (Bool-cases (id r.ids o == 0)) [
      | inl unnamed ↦ ground arith
      | inr named ↦ rw (named, assign_named r.ids o (ground arith)) (refl, refl, refl)
    ]

    spawner_net_id-spawned :
        (r : Registry p Callable) (w : Scene) (o : ℕ)
        → (spawner_net_id p r w o).0.server_spawned ≡ r.server_spawned
    unfolding spawner_net_id
    spawner_net_id-spawned r w o = ground arith

    -- A captured spawn is written in the ids that the server's table ends up with: the node's id, the
    -- spawner's, those of all its synchronizers as the entities, and those of the synchronizers we own
    -- with their paths; no id among them is 0, each names its object, and those that the server had
    -- handed out before are kept. The counter has room for them.
    pub promote_writes :
        (r : Registry p Callable) (w : Scene) (n : ℕ) (ps : PendingSpawn p)
        → Handed r.ids
        → let syncs = collect_syncs (w.subtree n) in
          r.ids.next + (length syncs + 2) < 2 ^ 32
          → let (r1, ops) = promote p r w n ps in
            (ops
              ≡ (spawner_net_id p r w ps.spawner_objid).1
                ++ add_spawn (id r1.ids n) (record_of r1.ids r.owned w n ps) ∷ [])
            × Follows r.ids r1.ids (length syncs + 2)
            × (id r1.ids n ≢ 0)
            × (id r1.ids ps.spawner_objid ≢ 0)
            × All (λ o. id r1.ids o ≢ 0) syncs
    unfolding promote
    promote_writes r w n ps v h =
        let syncs = collect_syncs (w.subtree n) in
        let (r1, ops, i) = spawner_net_id p r w ps.spawner_objid in
        let (ids_are, i_is, owned_is) = spawner_net_id-assign r w ps.spawner_objid in
        let a = assign-Follows r.ids ps.spawner_objid (omega arith) v in
        let (nz, names, has_id) = assign_names r.ids ps.spawner_objid v in
        let t = (assign r.ids ps.spawner_objid).0 in
        let b = name_syncs-Follows t r.owned w n syncs (omega (arith, a.room)) a.handed in
        let t1 = (name_syncs p t r.owned w n syncs).0 in
        let c = assign-Follows t1 n (omega (arith, a.room, b.room)) b.handed in
        let u = (assign t1 n).0 in
        let (entities, named, each) =
          name_syncs_ids t u r.owned w n syncs (omega (arith, a.room)) a.handed c.kept in
        let (node_nz, node_names, node_id) = assign_names t1 n b.handed in
        let bc = Follows-trans t t1 u (length syncs) 1 (length syncs + 1) refl b c in
        let spawner_nz : id t ps.spawner_objid ≢ 0 = λ z. nz (sym has_id ∙ z) in
        let still = bc.kept ps.spawner_objid spawner_nz in
        let all =
          Follows-trans r.ids t u 1 (length syncs + 1) (length syncs + 2) (omega arith) a bc in
        rw (ids_are, i_is, owned_is)
          (
            rw (entities, named, node_id, still, has_id),
            all,
            λ z. node_nz (sym node_id ∙ z),
            λ z. spawner_nz (sym still ∙ z),
            each,
          )

    -- The node's id goes into server_spawned.
    pub promote-server_spawned :
        (r : Registry p Callable) (w : Scene) (n : ℕ) (ps : PendingSpawn p)
        → Handed r.ids
        → r.ids.next + (length (collect_syncs (w.subtree n)) + 2) < 2 ^ 32
        → let r1 = (promote p r w n ps).0 in
          r1.server_spawned ≡ insert r.server_spawned (id r1.ids n)
    unfolding promote
    promote-server_spawned r w n ps v h =
        let syncs = collect_syncs (w.subtree n) in
        let (ids_are, i_is, owned_is) = spawner_net_id-assign r w ps.spawner_objid in
        let a = assign-Follows r.ids ps.spawner_objid (omega arith) v in
        let t = (assign r.ids ps.spawner_objid).0 in
        let b = name_syncs-Follows t r.owned w n syncs (omega (arith, a.room)) a.handed in
        let t1 = (name_syncs p t r.owned w n syncs).0 in
        let (node_nz, node_names, node_id) = assign_names t1 n b.handed in
        rw (ids_are, owned_is, node_id)
          (ap (λ (s : HashSet). insert s (assign t1 n).1)
            (spawner_net_id-spawned r w ps.spawner_objid))

    pub promote-spawners :
        (r : Registry p Callable) (w : Scene) (n : ℕ) (ps : PendingSpawn p)
        → (promote p r w n ps).0.spawners ≡ r.spawners
    unfolding promote spawner_net_id
    promote-spawners r w n ps = ground arith
