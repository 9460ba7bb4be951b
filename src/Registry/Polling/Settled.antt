-- ===== src/Registry/Polling/Settled.antt =====
-- What stands once a server's poll is over: every captured spawn that could be is with the core.
use goldnet_godot.Common.{
  ℕ, ◌+◌, ◌^◌, ◌<◌, ◌≤◌, ◌≡◌, ◌≢◌, refl, ap, sym, ◌∙◌, true, false, ◌&&◌, Bool-cases, inl, inr,
  none, some, List, [], ◌∷◌, HashMap, get, contains, length, arith, nat_eq,
}
use goldnet_godot.Platform.{Platform}
use goldnet_godot.NetIds.{NetIds, id, object, drop, assign}
use goldnet_godot.NetIds.Session.{Handed, drop-Handed}
use goldnet_godot.NetIds.Handing.{object-id, assign-Handed, assign_keeps, next-assign}
use goldnet_godot.Registry.{
  Scene, CoreOp, add_spawn, Registry, PendingSpawn, drop_each, detect_despawns, enter, enter_each,
  under_spawned,
}
use goldnet_godot.Registry.Spawning.{
  promote, spawner_net_id, drain_one, drain_each, drain_pending_spawns,
}
use goldnet_godot.Registry.Despawns.{despawns, despawns-++, detect_despawns_keeps}
use goldnet_godot.Registry.Records.{drain_pending_spawns_leaves}
use goldnet_godot.Registry.Polling.Drain.{adds, cost, due, drain_each-Grows, drain_each-Spawned}

pub drop_each-Handed :
    (ids : NetIds) (is : List ℕ)
    → Handed ids
    → Handed (drop_each ids is) × ((drop_each ids is).next ≡ ids.next)
unfolding drop_each drop
drop_each-Handed ids [] v = (v, refl)
drop_each-Handed ids (i ∷ is) v =
    let (h, e) = drop_each-Handed (drop ids i) is (drop-Handed ids i v) in (h, e ∙ ground arith)

module _ (p : Platform) {Callable : Type 0} where
  -- The spawn of node n stands under the id i: the id names the node, counts as spawned, and nothing is
  -- pending for the node.
  abbrev pub Stands : Registry p Callable → ℕ → ℕ → Type 0
  Stands r i n =
      (object r.ids i ≡ n) × (contains r.server_spawned i ≡ true) × (get r.pending_spawns n ≡ none)

  spawner_net_id-despawns :
      (r : Registry p Callable) (w : Scene) (o k : ℕ)
      → despawns (spawner_net_id p r w o).1 k ≡ false
  unfolding spawner_net_id despawns
  spawner_net_id-despawns r w o k = ground arith

  promote-despawns :
      (r : Registry p Callable) (w : Scene) (n : ℕ) (ps : PendingSpawn p) (k : ℕ)
      → despawns (promote p r w n ps).1 k ≡ false
  unfolding promote despawns
  promote-despawns r w n ps k =
      despawns-++ (spawner_net_id p r w ps.spawner_objid).1 (add_spawn _ _ ∷ []) k
      ∙ ground (arith, spawner_net_id-despawns r w ps.spawner_objid k)

  drain_one-despawns :
      (r : Registry p Callable) (w : Scene) (n : ℕ) (ps : PendingSpawn p) (k : ℕ)
      → despawns (drain_one p r w n ps).1 k ≡ false
  unfolding drain_one despawns
  drain_one-despawns r w n ps k = ground (arith, promote-despawns r w n ps k)

  drain_each-despawns :
      (r : Registry p Callable) (w : Scene) (m : HashMap ℕ (PendingSpawn p)) (k : ℕ)
      → despawns (drain_each p r w m).1 k ≡ false
  unfolding drain_each despawns
  drain_each-despawns r w [] k = refl
  drain_each-despawns r w ((n, ps) ∷ m) k =
      let (t, ops, done) = drain_one p r w n ps in
      ground (
        arith,
        despawns-++ ops (drain_each p t w m).1 k,
        drain_one-despawns r w n ps k,
        drain_each-despawns t w m k,
      )

  -- What draining does, with the room that is left.
  pub drain_pending_spawns-Stands :
      (r : Registry p Callable) (w : Scene) (n : ℕ) (ps : PendingSpawn p)
      → Handed r.ids
      → r.ids.next + cost p w r.pending_spawns < 2 ^ 32
      → get r.pending_spawns n ≡ some ps
      → due p r w n ps ≡ true
      → let (t, ops) = drain_pending_spawns p r w in
        let i = id t.ids n in
        (i ≢ 0) × Stands t i n × (adds ops i ≡ true) × (despawns ops i ≡ false)
  unfolding drain_pending_spawns
  drain_pending_spawns-Stands r w n ps v room e now =
      let grows = drain_each-Grows p r w r.pending_spawns v room in
      let (nz, there, asked) = drain_each-Spawned p r w r.pending_spawns n ps v room e now in
      let t = (drain_each p r w r.pending_spawns).0 in
      let left = drain_pending_spawns_leaves p r w n in
      (
        nz,
        (
          object-id t.ids n grows.follows.handed.well_formed nz,
          there,
          unfold drain_pending_spawns in (left ∙ ground (arith, now)),
        ),
        asked,
        drain_each-despawns r w r.pending_spawns (id t.ids n),
      )

  -- Noticing freed nodes leaves a spawn whose node is there.
  pub detect_despawns-Stands :
      (r : Registry p Callable) (w : Scene) (i n : ℕ)
      → w.alive 0 ≡ false
      → w.alive n ≡ true
      → Stands r i n
      → let (t, ops) = detect_despawns p r w in Stands t i n × (despawns ops i ≡ false)
  detect_despawns-Stands r w i n none_at_0 there (names, spawned, settled) =
      let (a, b, c, d) = detect_despawns_keeps p r w i none_at_0 in
      let alive : w.alive (object r.ids i) ≡ true = ap w.alive names ∙ there in
      (
        (
          ground (arith, c, alive, names),
          ground (arith, a, spawned, alive),
          unfold detect_despawns in settled,
        ),
        ground (arith, d, alive),
      )

  -- What a synchronizer's entry leaves.
  abbrev Entered : Registry p Callable → Registry p Callable → List CoreOp → ℕ → ℕ → Type 0
  Entered r t ops i n =
      Stands t i n × (despawns ops i ≡ false) × Handed t.ids × (t.ids.next ≤ r.ids.next + 1)

  enter-Stands :
      (r : Registry p Callable) (w : Scene) (sync i n : ℕ)
      → Handed r.ids
      → r.ids.next + 1 < 2 ^ 32
      → n ≢ 0
      → Stands r i n
      → let (t, ops, done) = enter p r w sync in Entered r t ops i n
  unfolding enter despawns
  enter-Stands r w sync i n v room nz (names, spawned, settled) =
      let handed = assign-Handed r.ids sync room v in
      let kept = (assign_keeps r.ids sync i v).0 (λ z. nz (sym names ∙ z)) in
      let (up, bound) = next-assign r.ids sync room in
      let r1 : Registry p Callable = record r { ids = (assign r.ids sync).0 } in
      let same : Entered r r [] i n = ((names, spawned, settled), refl, v, omega arith) in
      let assigned : Entered r r1 [] i n =
        ((kept ∙ names, spawned, settled), refl, handed, bound) in
      elim (Bool-cases (w.alive sync)) [
        | inr gone ↦ rw (gone, enter) same
        | inl here ↦ elim (Bool-cases (w.in_tree sync && w.is_authority sync)) [
          | inr early ↦ rw (here, early, enter) same
          | inl ours ↦ elim (Bool-cases (under_spawned p r1 w sync)) [
            | inl under ↦ rw (here, ours, under, enter) assigned
            | inr alone ↦ rw (here, ours, alone, enter) assigned
          ]
        ]
      ]

  pub enter_each-Stands :
      (r : Registry p Callable) (w : Scene) (syncs : List ℕ) (i n : ℕ)
      → Handed r.ids
      → r.ids.next + length syncs < 2 ^ 32
      → n ≢ 0
      → Stands r i n
      → let (t, ops, done) = enter_each p r w syncs in Stands t i n × (despawns ops i ≡ false)
  unfolding enter_each despawns
  enter_each-Stands r w [] i n v room nz s = (s, refl)
  enter_each-Stands r w (sync ∷ syncs) i n v room nz s =
      let (s1, quiet, handed, bound) = enter-Stands r w sync i n v (omega arith) nz s in
      let (t, ops, done) = enter p r w sync in
      let (rest, more) = enter_each-Stands t w syncs i n handed (omega arith) nz s1 in
      (rest, ground (arith, despawns-++ ops (enter_each p t w syncs).1 i, quiet, more))
