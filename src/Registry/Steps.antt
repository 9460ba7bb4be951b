-- ===== src/Registry/Steps.antt =====
-- What GoldNetMultiplayer does to its registry, step by step, in src/goldnet_multiplayer.cpp: only what is
-- ours waits to enter the core.
use goldnet_godot.Common.{
  ℕ, Bool, true, false, ◌||◌, ◌≡◌, refl, ap, sym, ◌∙◌, String, Option, none, some, Option-cases,
  Bool-cases, inl, inr, List, [], ◌∷◌, HashMap, get, HashSet, contains, insert, contains-insert,
  contains-discard, contains-discard_all, nat_eq, arith,
}
use goldnet_godot.Platform.{Platform, Variant}
use goldnet_godot.NetIds.{object}
use goldnet_godot.Spawns.{SpawnSync, get_spawn_data}
use goldnet_godot.Registry.{
  Scene, PendingSpawn, Registry, wrap_spawner, detect_despawns, enter, enter_each, add_entities,
}
use goldnet_godot.Registry.Spawning.{
  wrap_all, capture_spawners, spawn_trampoline, spawner_net_id, promote, drain_one, drain_each,
  drain_pending_spawns,
}
use goldnet_godot.Registry.Configuration.{
  Config, spawner, synchronizer, unknown, object_configuration_add, object_configuration_remove,
  mark_object,
}
use goldnet_godot.Registry.Client.{
  Build, Parting, insert_all, adopt, build_spawn, apply_spawn, apply_bind, spawn, apply_despawn,
}

contains-insert_all :
    (s : HashSet) (ks : List ℕ) (k : ℕ)
    → contains (insert_all s ks) k ≡ (contains ks k || contains s k)
unfolding insert_all
contains-insert_all s [] k = refl
contains-insert_all s (j ∷ ks) k =
    ground (arith, contains-insert_all (insert s j) ks k, contains-insert s j k)

module _ (p : Platform) {Callable : Type 0} where
  open p use {F, O}

  -- The one registry owns what the other does, and the same of it waits to enter the core.
  abbrev pub Same : Registry p Callable → Registry p Callable → Type 0
  Same r t = (t.owned ≡ r.owned) × (t.entities_to_add ≡ r.entities_to_add)

  Same-wrap_spawner :
      (r : Registry p Callable) (sp : ℕ) (fn : Callable) → Same r (wrap_spawner p r sp fn)
  unfolding wrap_spawner
  Same-wrap_spawner r sp fn = (ground arith, ground arith)

  Same-wrap_all :
      (r : Registry p Callable) (found : List (ℕ × Callable)) → Same r (wrap_all p r found)
  unfolding wrap_all
  Same-wrap_all r [] = (refl, refl)
  Same-wrap_all r ((sp, fn) ∷ found) =
      let one = Same-wrap_spawner r sp fn in
      let rest = Same-wrap_all (wrap_spawner p r sp fn) found in (rest.0 ∙ one.0, rest.1 ∙ one.1)

  pub Same-capture_spawners :
      (r : Registry p Callable) (found : Option (List (ℕ × Callable)))
      → Same r (capture_spawners p r found)
  unfolding capture_spawners
  Same-capture_spawners r none = (refl, refl)
  Same-capture_spawners r (some found) =
      let all = Same-wrap_all (record r { spawners_scanned = true }) found in
      (ground (arith, all), ground (arith, all))

  Same-promote :
      (r : Registry p Callable) (w : Scene) (n : ℕ) (ps : PendingSpawn p)
      → Same r (promote p r w n ps).0
  unfolding promote spawner_net_id
  Same-promote r w n ps = (ground arith, ground arith)

  pub Same-drain_each :
      (r : Registry p Callable) (w : Scene) (m : HashMap ℕ (PendingSpawn p))
      → Same r (drain_each p r w m).0
  unfolding drain_each drain_one
  Same-drain_each r w [] = (refl, refl)
  Same-drain_each r w ((n, ps) ∷ m) =
      let one = Same-promote r w n ps in
      let rest = Same-drain_each (drain_one p r w n ps).0 w m in
      (rest.0 ∙ ground (arith, one), rest.1 ∙ ground (arith, one))

  Same-enter_each :
      (r : Registry p Callable) (w : Scene) (syncs : List ℕ) → Same r (enter_each p r w syncs).0
  unfolding enter_each enter
  Same-enter_each r w [] = (refl, refl)
  Same-enter_each r w (sync ∷ syncs) =
      let rest = Same-enter_each (enter p r w sync).0 w syncs in
      (rest.0 ∙ ground arith, rest.1 ∙ ground arith)

  -- Whatever waits to enter the core is ours.
  abbrev pub Waits : Registry p Callable → Type 0
  Waits r = (k : ℕ) → contains r.entities_to_add k ≡ true → contains r.owned k ≡ true

  Same-Waits : (r t : Registry p Callable) → Same r t → Waits r → Waits t
  Same-Waits r t (o, e) h k q =
      ap (λ (s : HashSet). contains s k) o ∙ h k (ap (λ (s : HashSet). contains s k) (sym e) ∙ q)

  -- A step of the registry: a handler of GoldNetMultiplayer, with what the engine says.
  pub data Step (r : Registry p Callable) : Registry p Callable → Type 0 where
    adds :
        (on_server has_object : Bool) (config : Config Callable)
        → Step r (object_configuration_add p r on_server has_object config).0
    removes : (config : Config Callable) → Step r (object_configuration_remove p r config).0
    marks : (o : ℕ) (children : Option (List ℕ)) → Step r (mark_object p r o children).0
    captures : (found : Option (List (ℕ × Callable))) → Step r (capture_spawners p r found)
    spawns :
        (sp : ℕ) (v : Variant F O) (build : Callable → Option ℕ)
        → Step r (spawn_trampoline p r sp v build).0
    drains : (w : Scene) → Step r (drain_pending_spawns p r w).0
    detects : (w : Scene) → Step r (detect_despawns p r w).0
    enters : (w : Scene) → Step r (add_entities p r w).0
    builds :
        (e : Build (Variant F O) Callable) (node_at : String → Option (ℕ × Option Callable))
        (net_id spawner_net_id : ℕ) (bytes : List ℕ)
        → Step r (spawn p r e node_at net_id spawner_net_id bytes).0
    despawns : (e : Parting) (net_id : ℕ) → Step r (apply_despawn p r e net_id).0

  Waits-adopt :
      (r : Registry p Callable) (e : Build (Variant F O) Callable) (net_id sp n : ℕ)
      (syncs : List SpawnSync)
      → Waits r
      → Waits (adopt p r e net_id sp syncs n).0
  unfolding adopt
  Waits-adopt r e net_id sp n syncs h k q = ground (
    arith,
    h k,
    contains-insert_all r.owned (e.registers n) k,
    contains-insert_all r.entities_to_add (e.registers n) k,
  )

  Waits-build_spawn :
      (r : Registry p Callable) (e : Build (Variant F O) Callable) (net_id sp : ℕ) (fn : Callable)
      (bytes : List ℕ)
      → Waits r
      → Waits (build_spawn p r e net_id sp fn bytes).0
  unfolding build_spawn
  Waits-build_spawn r e net_id sp fn bytes h = elim (Option-cases (get_spawn_data p bytes)) [
    | inl d ↦ rw (d, build_spawn) h
    | inr ((syncs, v), d) ↦ elim (Bool-cases (e.has_spawn_root sp)) [
      | inr away ↦ rw (d, away, build_spawn) h
      | inl there ↦ elim (Option-cases (e.call fn v)) [
        | inl c ↦ rw (d, there, c, build_spawn) h
        | inr (n, c) ↦ rw (d, there, c, build_spawn) (Waits-adopt r e net_id sp n syncs h)
      ]
    ]
  ]

  Waits-apply_spawn :
      (r : Registry p Callable) (e : Build (Variant F O) Callable) (net_id sp : ℕ) (bytes : List ℕ)
      → Waits r
      → Waits (apply_spawn p r e net_id sp bytes).0
  unfolding apply_spawn
  Waits-apply_spawn r e net_id sp bytes h = elim (Option-cases (get r.spawners (object r.ids sp))) [
    | inl c ↦ rw (c, apply_spawn) h
    | inr (fn, c) ↦ elim (Bool-cases (e.alive (object r.ids sp))) [
      | inr away ↦ rw (c, away, apply_spawn) h
      | inl there ↦
          rw (c, there, apply_spawn) (Waits-build_spawn r e net_id (object r.ids sp) fn bytes h)
    ]
  ]

  Same-apply_bind :
      (r : Registry p Callable) (node_at : String → Option (ℕ × Option Callable)) (net_id : ℕ)
      (bytes : List ℕ)
      → Same r (apply_bind p r node_at net_id bytes).0
  unfolding apply_bind
  Same-apply_bind r node_at net_id bytes = elim (Option-cases (node_at (p.of_utf8 bytes))) [
    | inl e ↦ (ground arith, ground arith)
    | inr ((n, none), e) ↦ (ground arith, ground arith)
    | inr ((n, some fn), e) ↦
        let one = Same-wrap_spawner r n fn in (ground (arith, one), ground (arith, one))
  ]

  -- Every step of the registry, on either end, keeps it that whatever waits to enter the core is ours.
  pub Step-Waits : {r t : Registry p Callable} → Step r t → Waits r → Waits t
  unfolding object_configuration_add object_configuration_remove mark_object spawn_trampoline
      drain_pending_spawns detect_despawns add_entities spawn apply_despawn
  Step-Waits {r} (adds on_server has_object (spawner sp fn)) h k q =
      let one = Same-wrap_spawner r sp fn in
      ground (
        arith,
        h k,
        one,
        ap (λ (s : HashSet). contains s k) one.0,
        ap (λ (s : HashSet). contains s k) one.1,
      )
  Step-Waits {r} (adds on_server has_object (synchronizer sync true)) h k q =
      ground (arith, h k, contains-insert r.owned sync k, contains-insert r.entities_to_add sync k)
  Step-Waits {r} (adds on_server has_object (synchronizer sync false)) h k q = h k q
  Step-Waits {r} (adds on_server has_object unknown) h k q = h k q
  Step-Waits {r} (removes (spawner sp fn)) h k q = h k q
  Step-Waits {r} (removes (synchronizer sync streams)) h k q =
      ground
        (arith, h k, contains-discard r.owned sync k, contains-discard r.entities_to_add sync k)
  Step-Waits {r} (removes unknown) h k q = h k q
  Step-Waits {r} (marks o children) h k q = ground (arith, h k)
  Step-Waits {r} (captures found) h k q =
      Same-Waits r (capture_spawners p r found) (Same-capture_spawners r found) h k q
  Step-Waits {r} (spawns sp v build) h k q = ground (arith, h k)
  Step-Waits {r} (drains w) h k q =
      Same-Waits r (drain_pending_spawns p r w).0 (Same-drain_each r w r.pending_spawns) h k q
  Step-Waits {r} (detects w) h k q = h k q
  Step-Waits {r} (enters w) h k q =
      let all = enter_each p r w r.entities_to_add in
      let same = Same-enter_each r w r.entities_to_add in
      ground (
        arith,
        h k,
        contains-discard_all all.0.entities_to_add all.2 k,
        ap (λ (s : HashSet). contains s k) same.0,
        ap (λ (s : HashSet). contains s k) same.1,
      )
  Step-Waits {r} (builds e node_at net_id sp bytes) h k q = ground (
    arith,
    Waits-apply_spawn r e net_id sp bytes h k,
    Same-Waits r (apply_bind p r node_at net_id bytes).0 (Same-apply_bind r node_at net_id bytes) h
        k,
  )
  Step-Waits {r} (despawns e net_id) h k q = ground (arith, h k)
