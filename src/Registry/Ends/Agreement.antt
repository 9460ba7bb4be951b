-- ===== src/Registry/Ends/Agreement.antt =====
-- The ids of a spawn on both ends: what the server's record names is what the client's binds name.
use goldnet_godot.Common.{
  ℕ, ◌+◌, ◌^◌, ◌<◌, Bool, true, ◌≡◌, ◌≢◌, refl, ap, List, [], ◌∷◌, ◌++◌, ◌==◌, false, map, keep,
  All, HashSet, length, length-map, length-keep-le, String, contains, arith, nat_eq, Option, some,
  get,
}
use goldnet_godot.Platform.{Platform, Variant}
use goldnet_godot.NetIds.{NetIds, id, object, bind}
use goldnet_godot.NetIds.Invariant.{WellFormed, bind-WellFormed}
use goldnet_godot.NetIds.Session.{Handed}
use goldnet_godot.NetIds.Handing.{id-bound, ids_differ}
use goldnet_godot.NetIds.Binding.{Names, bind-Names}
use goldnet_godot.Spawns.{SpawnSync, bind_spawner, get_spawn_data}
use goldnet_godot.Spawns.RoundTrip.{Named, get-put_spawn_data}
use goldnet_godot.Registry.{Scene, add_spawn, Registry, PendingSpawn, collect_syncs}
use goldnet_godot.Registry.Spawning.{spawner_net_id, promote}
use goldnet_godot.Registry.Client.{
  Build, spawned_signal, insert_all, bind_syncs, adopt, build_spawn, apply_spawn, spawn,
}
use goldnet_godot.Registry.Ends.Promotion.{named_in, record_of, promote_writes}
use goldnet_godot.Registry.Ends.Adoption.{Avoids, Placed, Found, bind_syncs_names, bind_syncs_keeps}

-- The built node m is a copy of the server's node n: under m, each synchronizer o that the server owns
-- has its twin at the path that o has under n, the client owns it, and the twins are distinct.
abbrev pub Copied : (Scene) → ℕ → (String → Option ℕ) → HashSet → ℕ → (ℕ → ℕ) → List ℕ → Type 0
Copied w n at owned m twin [] = Unit
Copied w n at owned m twin (o ∷ os) =
    ((at (w.path_to n o) ≡ some (twin o))
      × (contains owned (twin o) ≡ true)
      × (twin o ≢ m)
      × (o ≢ n)
      × All (λ q. twin q ≢ twin o) os)
    × Copied w n at owned m twin os

All-keep : (P : ℕ → Type 0) (f : ℕ → Bool) (os : List ℕ) → All P os → All P (keep f os)
All-keep P f [] h = tt
All-keep P f (o ∷ os) (h, hs) = ground (arith, h, All-keep P f os hs)

module _ (t : NetIds) (w : Scene) (n m : ℕ) (at : String → Option ℕ) (owned : HashSet)
    (twin : ℕ → ℕ) (v : WellFormed t) where
  node-Avoids :
      (os : List ℕ)
      → id t n ≢ 0
      → All (λ o. id t o ≢ 0) os
      → Copied w n at owned m twin os
      → Avoids at (id t n) m (map (named_in t w n) os)
  node-Avoids [] nz each h = tt
  node-Avoids (o ∷ os) nz (o_nz, each) ((found, ours, apart, other, twins), h) =
      (ids_differ t o n v o_nz other, λ q e. ground arith, node-Avoids os nz each h)

  sync-Avoids :
      (a : ℕ) (os : List ℕ)
      → id t a ≢ 0
      → All (λ o. id t o ≢ 0) os
      → All (λ q. twin q ≢ twin a) os
      → Copied w n at owned m twin os
      → Avoids at (id t a) (twin a) (map (named_in t w n) os)
  sync-Avoids a [] nz each apart h = tt
  sync-Avoids a (o ∷ os) nz (o_nz, each) (o_apart, apart) ((found, ours, away, other, twins), h) = (
    ids_differ t o a v o_nz (λ e. o_apart (ap {A = ℕ} twin e)),
    λ q e. ground arith,
    sync-Avoids a os nz each apart h,
  )

  Copied-Placed :
      (os : List ℕ)
      → All (λ o. id t o ≢ 0) os
      → Copied w n at owned m twin os
      → Placed at owned (map (named_in t w n) os)
  Copied-Placed [] each h = tt
  Copied-Placed (o ∷ os) (o_nz, each) ((found, ours, away, other, twins), h) =
      ((twin o, found, ours, o_nz, sync-Avoids o os o_nz each twins h), Copied-Placed os each h)

  -- What was found is the twin.
  Found-twins :
      (u : NetIds) (os : List ℕ)
      → Copied w n at owned m twin os
      → All (Found at u) (map (named_in t w n) os)
      → All (λ o. Names u (id t o) (twin o)) os
  Found-twins u [] h f = tt
  Found-twins u (o ∷ os) ((found, ours, away, other, twins), h) ((q, at_q, names), fs) =
      (ground arith, Found-twins u os h fs)

module _ (p : Platform) where
  open p use {utf8, var_to_bytes, bytes_to_var}

  -- The paths fit the wire.
  abbrev pub Sized : Scene → ℕ → List ℕ → Type 0
  Sized w n os = All (λ o. length (utf8 (w.path_to n o)) < 2 ^ 32) os

  Sized-Named :
      (t : NetIds) (w : Scene) (n : ℕ) (os : List ℕ)
      → Handed t
      → t.next < 2 ^ 32
      → Sized w n os
      → All (Named p) (map (named_in t w n) os)
  Sized-Named t w n [] v h sized = tt
  Sized-Named t w n (o ∷ os) v h (small, sized) =
      ((omega (arith, id-bound t o v), small), Sized-Named t w n os v h sized)

  module _ {Callable : Type 0} where
    -- What _apply_spawn does where nothing is missing.
    apply_spawn_builds :
        (c : Registry p Callable) (e : Build (Variant p.F p.O) Callable) (i s m : ℕ) (fn : Callable)
        (b : List ℕ) (syncs : List SpawnSync) (v : Variant p.F p.O)
        → get c.spawners (object c.ids s) ≡ some fn
        → e.alive (object c.ids s) ≡ true
        → e.has_spawn_root (object c.ids s) ≡ true
        → get_spawn_data p b ≡ some (syncs, v)
        → e.call fn v ≡ some m
        → let done = adopt p c e i (object c.ids s) syncs m in
          apply_spawn p c e i s b ≡ (done.0, done.1, true)
    unfolding apply_spawn build_spawn
    apply_spawn_builds c e i s m fn b syncs v known there root read built =
        rw (known, there, read, root, built, apply_spawn, build_spawn)

    -- A spawn on both ends. The server promotes a captured spawn of node n, its counter having room, and
    -- asks the core for the record written here; the client, which knows the spawner by the server's id and is not short of anything (the spawn
    -- function builds m of the data, and m is a copy of n), takes the record. Then the id of n names m
    -- on the client, the id of each synchronizer that the server owns names its twin under m, both the
    -- other way around too; the record is taken, and the only signal is that of the spawn.
    pub promote-spawn :
        (r : Registry p Callable) (w : Scene) (n : ℕ) (ps : PendingSpawn p)
        (c : Registry p Callable) (e : Build (Variant p.F p.O) Callable) (m : ℕ) (fn : Callable)
        (twin : ℕ → ℕ) (node_at : String → Option (ℕ × Option Callable))
        → let syncs = collect_syncs (w.subtree n) in
          let ours = keep (contains r.owned) syncs in
          let t = (promote p r w n ps).0.ids in
          let sp = id t ps.spawner_objid in
          let written = record_of p t r.owned w n ps in
          Handed r.ids
          → r.ids.next + (length syncs + 2) < 2 ^ 32
          → Sized w n ours
          → WellFormed c.ids
          → get c.spawners (object c.ids sp) ≡ some fn
          → e.alive (object c.ids sp) ≡ true
          → e.has_spawn_root (object c.ids sp) ≡ true
          → e.call fn (bytes_to_var (var_to_bytes ps.spawn_data)) ≡ some m
          → Copied w n (e.sync_at m) (insert_all c.owned (e.registers m)) m twin ours
          → let (c1, signals, taken) =
              spawn p c e node_at (id t n) written.spawner_net_id written.data_bytes in
            ((promote p r w n ps).1
              ≡ (spawner_net_id p r w ps.spawner_objid).1 ++ add_spawn (id t n) written ∷ [])
            × Names c1.ids (id t n) m
            × All (λ o. Names c1.ids (id t o) (twin o)) ours
            × (signals ≡ spawned_signal (object c.ids sp) m ∷ [])
            × (taken ≡ true)
    unfolding adopt spawn
    promote-spawn r w n ps c e m fn twin node_at v room sized cw known there root built copied =
        let syncs = collect_syncs (w.subtree n) in
        let ours = keep (contains r.owned) syncs in
        let (writes, follows, n_nz, s_nz, each) = promote_writes p r w n ps v room in
        let t = (promote p r w n ps).0.ids in
        let tw = follows.handed.well_formed in
        let each_ours = All-keep (λ o. id t o ≢ 0) (contains r.owned) syncs each in
        let at = e.sync_at m in
        let owned = insert_all c.owned (e.registers m) in
        let named = map (named_in t w n) ours in
        let read =
          get-put_spawn_data p named ps.spawn_data
            (omega
              (arith, length-map ours (named_in t w n), length-keep-le (contains r.owned) syncs))
            (Sized-Named t w n ours follows.handed (omega (arith, follows.room)) sized) in
        let bound = bind c.ids (id t n) m in
        let bound_w = bind-WellFormed c.ids (id t n) m cw n_nz in
        let placed = Copied-Placed t w n m at owned twin tw ours each_ours copied in
        let (found, quiet) = bind_syncs_names bound owned at m named bound_w placed in
        let node =
          bind_syncs_keeps bound owned at m (id t n) m named bound_w n_nz placed
            (node-Avoids t w n m at owned twin tw ours n_nz each_ours copied)
            (bind-Names c.ids (id t n) m cw) in
        let no_bind : (id t ps.spawner_objid == bind_spawner) ≡ false = ground (arith, s_nz) in
        rw
          (
            no_bind,
            apply_spawn_builds c e (id t n) (id t ps.spawner_objid) m fn
                (record_of p t r.owned w n ps).data_bytes named
                (bytes_to_var (var_to_bytes ps.spawn_data)) known there root read built,
          )
          (
            writes,
            node,
            Found-twins t w n m at owned twin tw (bind_syncs bound owned at m named).0 ours copied
                found,
            rw quiet,
            refl,
          )
