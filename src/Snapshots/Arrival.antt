-- ===== src/Snapshots/Arrival.antt =====
-- A spawn and the state of one of its synchronizers in the same snapshot, from the server's encoding to
-- the properties set on the client.
use goldnet_godot.Common.{
  ℕ, suc, ◌+◌, ◌^◌, ◌<◌, Bool, true, false, ◌&&◌, not, ◌≡◌, ap, ◌∙◌, Option, some, List, [], ◌∷◌,
  ◌++◌, map, keep, All, length, contains, get, nat_eq, ◌==◌, Bool-cases, inl, inr, arith,
}
use mathlib.Core.Path.{subst}
use goldnet_godot.Platform.{Platform, Variant}
use goldnet_godot.NetIds.{id, object}
use goldnet_godot.NetIds.Invariant.{WellFormed}
use goldnet_godot.NetIds.Session.{Handed}
use goldnet_godot.NetIds.Binding.{Names}
use goldnet_godot.SlotSetup.{SlotCode}
use goldnet_godot.Registry.{Scene, Registry, PendingSpawn, collect_syncs}
use goldnet_godot.Registry.Spawning.{promote}
use goldnet_godot.Registry.Client.{Signal, spawned_signal, insert_all, spawn}
use goldnet_godot.Registry.Ends.Promotion.{record_of}
use goldnet_godot.Registry.Ends.Agreement.{Copied, Sized, promote-spawn}
use goldnet_godot.Hosts.{EntityResult, applied, EntityUpdate, Outcome, set_nodes, coding_of, entity}
use goldnet_godot.Hosts.Transfer.{Changed, arrives, encode_each, Carried, entity_takes}
use goldnet_godot.Snapshots.{
  Snapshot, spawn_record, entity_update, Moment, Client, Heard, signalled, taken, host_spawn,
  host_entity, take,
}

All-contains : (P : ℕ → Type 0) (os : List ℕ) (o : ℕ) → contains os o ≡ true → All P os → P o
All-contains P [] o h each = (let no : ⊥ = ground (arith, h) in elim no [ ])
All-contains P (x ∷ os) o h (here, each) = elim (Bool-cases (x == o)) [
  | inl same ↦ (let e : x ≡ o = ground (arith, same) in subst P e here)
  | inr other ↦ All-contains P os o (ground (arith, h, other)) each
]

module _ (p : Platform) {Callable : Type 0} where
  open p use {F, O, reader, var_to_bytes, bytes_to_var}

  -- The server promotes a captured spawn of node n, and the client takes its record and then, in the same
  -- snapshot, the state of a synchronizer o that the server owns under n, carried as the server encodes
  -- it. Then the game is told of the built node, and the state is applied: its values are what the
  -- slots' kinds leave of the server's, and each is set on the property that its slot resolves to. As
  -- in the parts: the server's counter has room, the client is short of nothing for the spawn and its
  -- node is a copy; the twin of o is in the tree, and its coding is the update's.
  pub take-spawn_then_state :
      (r : Registry p Callable) (w : Scene) (n : ℕ) (ps : PendingSpawn p) (s : Client p Callable)
      (ms : ℕ → Moment p Callable) (k m : ℕ) (fn : Callable) (twin : ℕ → ℕ) (o : ℕ)
      (u : EntityUpdate p) (codes : List (SlotCode p)) (check : ℕ) (base : ℕ → Option (Variant F O))
      (tail : List ℕ) (cs : List (Changed p)) (more : Bool → Snapshot p)
      (rest : EntityResult → List (ℕ × Variant F O) → Snapshot p)
      → let c = s.registry in
        let e = (ms k).build in
        let w1 = (ms (suc k)).scene in
        let l = (ms (suc k)).local_sync in
        let syncs = collect_syncs (w.subtree n) in
        let ours = keep (contains r.owned) syncs in
        let t = (promote p r w n ps).0.ids in
        let sp = id t ps.spawner_objid in
        let written = record_of p t r.owned w n ps in
        Handed r.ids
        → r.ids.next + (length syncs + 2) < 2 ^ 32
        → Sized p w n ours
        → WellFormed c.ids
        → get c.spawners (object c.ids sp) ≡ some fn
        → e.alive (object c.ids sp) ≡ true
        → e.has_spawn_root (object c.ids sp) ≡ true
        → e.call fn (bytes_to_var (var_to_bytes ps.spawn_data)) ≡ some m
        → Copied w n (e.sync_at m) (insert_all c.owned (e.registers m)) m twin ours
        → contains ours o ≡ true
        → more true ≡ entity_update u rest
        → u.net_id ≡ id t o
        → w1.alive (twin o) ≡ true
        → w1.in_tree (twin o) ≡ true
        → (coding_of p s.codings.client_slot_codings (twin o) l.made).1 ≡ (codes, check)
        → (u.whole && not (u.kinds_check == check)) ≡ false
        → u.changed ≡ map (λ x. x.slot) cs
        → u.reader ≡ reader (encode_each p cs base u.server_time ++ tail)
        → u.server_time < 2 ^ 32
        → All (Carried p l.slots codes base u.base) cs
        → (out : Outcome p) × (after : List (Heard p)) × ((take p s ms k
              (spawn_record (id t n) written.spawner_net_id written.data_bytes more)).1
            ≡ signalled (spawned_signal (object c.ids sp) m ∷ []) ∷ taken (id t o) out ∷ after)
          × (out.result ≡ applied)
          × (out.values ≡ map (arrives p) cs)
          × (out.sets ≡ set_nodes p l.resolve (map (arrives p) cs))
  unfolding take host_spawn host_entity
  take-spawn_then_state r w n ps s ms k m fn twin o u codes check base tail cs more rest handed room
        sized cw known there root built copied ours_o next_ named alive in_tree coding agrees
        changed bytes hn h =
      let c = s.registry in
      let e = (ms k).build in
      let w1 = (ms (suc k)).scene in
      let l = (ms (suc k)).local_sync in
      let ours = keep (contains r.owned) (collect_syncs (w.subtree n)) in
      let t = (promote p r w n ps).0.ids in
      let written = record_of p t r.owned w n ps in
      let (writes, node, each, signals, took) =
        promote-spawn p r w n ps c e m fn twin (ms k).node_at handed room sized cw known there root
          built copied in
      let spawned = spawn p c e (ms k).node_at (id t n) written.spawner_net_id written.data_bytes in
      let names = All-contains (λ x. Names spawned.0.ids (id t x) (twin x)) ours o ours_o each in
      let here : object spawned.0.ids u.net_id ≡ twin o =
        ap (λ i. object spawned.0.ids i) named ∙ names.0 in
      let out = entity p s.codings w1 spawned.0.ids l u in
      let (result, values, sets, synchronized) =
        entity_takes p s.codings w1 spawned.0.ids l u codes check base tail cs
          (ap w1.alive here ∙ alive) (ap w1.in_tree here ∙ in_tree)
          (ap (λ j. (coding_of p s.codings.client_slot_codings j l.made).1) here ∙ coding) agrees
          changed bytes hn h in
      let s1 : Client p Callable = record s { registry = spawned.0 } in
      let s2 = (host_entity p s1 (ms (suc k)) u).0 in
      let after = (take p s2 ms (suc (suc k)) (rest out.1.result out.1.values)).1 in
      let told : Heard p =
        signalled (spawned_signal (object c.ids (id t ps.spawner_objid)) m ∷ []) in
      (
        out.1,
        after,
        ap (λ (g : List Signal). signalled g ∷ (take p s1 ms (suc k) (more spawned.2)).1) signals
            ∙ ap (λ (b : Bool). told ∷ (take p s1 ms (suc k) (more b)).1) took
            ∙ ap (λ (q : Snapshot p). told ∷ (take p s1 ms (suc k) q).1) next_
            ∙ ap (λ (i : ℕ). told ∷ taken i out.1 ∷ after) named,
        result,
        values,
        sets,
      )
