-- ===== src/Registry/Records.antt =====
-- What draining the captured spawns does, in src/goldnet_multiplayer.cpp: _drain_pending_spawns and
-- _spawner_net_id.
use goldnet_godot.Common.{
  ℕ, false, ◌&&◌, ◌||◌, not, ◌≡◌, ◌≢◌, refl, ap, ◌∙◌, List, [], ◌∷◌, HashMap, get, erase, has,
  get-erase, contains, arith, nat_eq, none, Bool-cases, inl, inr, ◌==◌, if◌then◌else◌,
}
use mathlib.Core.Path.{subst}
use goldnet_godot.Platform.{Platform}
use goldnet_godot.NetIds.{NetIds, id, object, assign}
use goldnet_godot.NetIds.Session.{Handed}
use goldnet_godot.NetIds.Handing.{assign_names, assign_named}
use goldnet_godot.Registry.{Scene, Registry, PendingSpawn}
use goldnet_godot.Registry.Spawning.{
  drain_one, drain_each, drain_pending_spawns, erase_all, promote, spawner_net_id,
}

module _ (p : Platform) where
  get-erase_all :
      (m : HashMap ℕ (PendingSpawn p)) (ns : List ℕ) (k : ℕ)
      → get (erase_all p m ns) k ≡ (if contains ns k then none else get m k)
  unfolding erase_all
  get-erase_all m [] k = refl
  get-erase_all m (n ∷ ns) k = ground (arith, get-erase_all (erase m n) ns k, get-erase m n k)

  module _ {Callable : Type 0} where
    spawner_net_id-pending :
        (r : Registry p Callable) (w : Scene) (o : ℕ)
        → (spawner_net_id p r w o).0.pending_spawns ≡ r.pending_spawns
    unfolding spawner_net_id
    spawner_net_id-pending r w o = ground arith

    drain_one-pending :
        (r : Registry p Callable) (w : Scene) (n : ℕ) (ps : PendingSpawn p)
        → ((drain_one p r w n ps).0.pending_spawns ≡ r.pending_spawns)
          × ((drain_one p r w n ps).2 ≡ (not (w.alive n) || w.in_tree n))
    unfolding drain_one promote
    drain_one-pending r w n ps =
        (ground (arith, spawner_net_id-pending r w ps.spawner_objid), ground arith)

    drain_each-pending :
        (r : Registry p Callable) (w : Scene) (m : HashMap ℕ (PendingSpawn p)) (k : ℕ)
        → ((drain_each p r w m).0.pending_spawns ≡ r.pending_spawns)
          × (contains (drain_each p r w m).2 k ≡ (has m k && (not (w.alive k) || w.in_tree k)))
    unfolding drain_each has get
    drain_each-pending r w [] k = (refl, refl)
    drain_each-pending r w ((n, ps) ∷ m) k =
        let (kept, done) = drain_one-pending r w n ps in
        let (rest, more) = drain_each-pending (drain_one p r w n ps).0 w m k in
        (rest ∙ kept, ground (arith, done, more, ap {A = ℕ} w.alive, ap {A = ℕ} w.in_tree))

    -- After _drain_pending_spawns a spawn is still pending exactly where its node is there and not in
    -- the tree yet, with the data it had.
    pub drain_pending_spawns_leaves :
        (r : Registry p Callable) (w : Scene) (k : ℕ)
        → get (drain_pending_spawns p r w).0.pending_spawns k
          ≡ (if w.alive k && not (w.in_tree k) then get r.pending_spawns k else none)
    unfolding drain_pending_spawns has
    drain_pending_spawns_leaves r w k =
        let (same, done) = drain_each-pending r w r.pending_spawns k in
        ground (
          arith,
          get-erase_all (drain_each p r w r.pending_spawns).0.pending_spawns
              (drain_each p r w r.pending_spawns).2 k,
          done,
          ap (λ (m : HashMap ℕ (PendingSpawn p)). get m k) same,
        )

    -- While a server's counter has not wrapped, a spawner gets an id that is not 0, the id of the bind
    -- records, and the id names the spawner; asked a second time, it is the same and the core is asked
    -- for nothing.
    pub spawner_net_id_named :
        (r : Registry p Callable) (w : Scene) (o : ℕ)
        → Handed r.ids
        → let (r1, ops, i) = spawner_net_id p r w o in
          (i ≢ 0) × (object r1.ids i ≡ o) × (spawner_net_id p r1 w o ≡ (r1, [], i))
    unfolding spawner_net_id
    spawner_net_id_named r w o v =
        let (nonzero, names, has_id) = assign_names r.ids o v in
        let still : (id (assign r.ids o).0 o == 0) ≡ false = ground (arith, has_id) in
        elim (Bool-cases (id r.ids o == 0)) [
          | inl unnamed ↦ elim (Bool-cases (w.alive o)) [
            | inl there ↦ (
              rw (unnamed, there, spawner_net_id) nonzero,
              rw (unnamed, there, spawner_net_id) names,
              rw (unnamed, there, still, has_id, spawner_net_id),
            )
            | inr away ↦ (
              rw (unnamed, away, spawner_net_id) nonzero,
              rw (unnamed, away, spawner_net_id) names,
              rw (unnamed, away, still, has_id, spawner_net_id),
            )
          ]
          | inr named ↦
              let same = assign_named r.ids o (ground arith) in
              let kept = subst (λ (a : NetIds × ℕ). object a.0 a.1 ≡ o) same names in
              (
                rw (named, spawner_net_id) (ground arith),
                rw (named, spawner_net_id) kept,
                rw (named, named, spawner_net_id),
              )
        ]
