-- ===== src/Registry/Polling/Handover.antt =====
-- What a server's poll promises of its captured spawns.
use goldnet_godot.Common.{
  ℕ, ◌+◌, ◌^◌, ◌<◌, ◌≡◌, ◌≢◌, refl, ap, ◌∙◌, Bool, true, false, ◌&&◌, ◌||◌, not, Option, none, some,
  List, [], ◌∷◌, ◌++◌, get, length, arith, nat_eq, ◌==◌, if◌then◌else◌, ltb,
}
use goldnet_godot.Platform.{Platform}
use goldnet_godot.Cadence.{
  Act, drain_spawns, detect_despawns as look_despawns, server_tick as tick, send_uplink, inner_poll,
  pump_sim, print_stats, ensure_link as look_link, send_timer, Session, Timing, poll, server_poll,
  timed_tick,
}
use goldnet_godot.NetIds.{id}
use goldnet_godot.NetIds.Session.{Handed}
use goldnet_godot.Registry.{
  Scene, CoreOp, Registry, PendingSpawn, detect_despawns, drop_each, gone_ids, add_entities,
  wrap_spawner,
}
use goldnet_godot.Registry.Spawning.{wrap_all, capture_spawners, drain_each, drain_pending_spawns}
use goldnet_godot.Registry.Despawns.{despawns, despawns-++}
use goldnet_godot.Registry.Steps.{Same-drain_each}
use goldnet_godot.Registry.Polling.{ensure_link, server_tick, perform, perform_all}
use goldnet_godot.Registry.Polling.Drain.{adds, adds-++, cost, due, drain_each-Grows}
use goldnet_godot.Registry.Polling.Settled.{
  Stands, drop_each-Handed, drain_pending_spawns-Stands, detect_despawns-Stands, enter_each-Stands,
}

-- The acts of a server's pass.
abbrev pass : Bool → List Act
pass ticks = drain_spawns ∷ look_despawns ∷ (if ticks then tick ∷ [] else [])

abbrev head : Bool → List Act
head stats =
    send_uplink ∷ inner_poll ∷ look_link ∷ pump_sim ∷ (if stats then print_stats ∷ [] else [])

-- A server's poll on a connection makes its pass, and a tick in it or none.
poll_acts :
    (s : Session) (tm : Timing)
    → (s.unique_id == 1) ≡ true
    → (s.peer_null || s.disconnected) ≡ false
    → (ticks : Bool) × ((poll s tm).1 ≡ head s.rpc_stats ++ pass ticks)
unfolding poll server_poll timed_tick
poll_acts s tm server connected =
    let iv = if ltb 0 tm.cached_min_interval_us then tm.cached_min_interval_us else 1 in
    let due_now = (send_timer iv s.now_us tm.last_send_us).1 in
    (not s.manual_send && ltb 0 s.peer_count && due_now, ground arith)

module _ (p : Platform) {Callable : Type 0} where
  -- What capturing spawners leaves alone.
  abbrev Alike : Registry p Callable → Registry p Callable → Type 0
  Alike r t =
      (t.ids ≡ r.ids)
      × (t.server_spawned ≡ r.server_spawned)
      × (t.pending_spawns ≡ r.pending_spawns)
      × (t.entities_to_add ≡ r.entities_to_add)

  wrap_all-Alike :
      (r : Registry p Callable) (found : List (ℕ × Callable)) → Alike r (wrap_all p r found)
  unfolding wrap_all wrap_spawner
  wrap_all-Alike r [] = (refl, refl, refl, refl)
  wrap_all-Alike r ((sp, fn) ∷ found) =
      let (a, b, c, d) = wrap_all-Alike (wrap_spawner p r sp fn) found in
      (a ∙ ground arith, b ∙ ground arith, c ∙ ground arith, d ∙ ground arith)

  ensure_link-Alike :
      (r : Registry p Callable) (found : Option (List (ℕ × Callable)))
      → Alike r (ensure_link p r found).0
  unfolding ensure_link capture_spawners
  ensure_link-Alike r none = (refl, refl, refl, refl)
  ensure_link-Alike r (some found) =
      let (a, b, c, d) = wrap_all-Alike (record r { spawners_scanned = true }) found in
      (ground (arith, a), ground (arith, b), ground (arith, c), ground (arith, d))

  Alike-Stands : (r t : Registry p Callable) (i n : ℕ) → Alike r t → Stands p r i n → Stands p t i n
  Alike-Stands r t i n (a, b, c, d) (names, spawned, settled) =
      (rw a names, rw b spawned, rw c settled)

  server_tick-Stands :
      (r : Registry p Callable) (w : Scene) (found : Option (List (ℕ × Callable))) (i n : ℕ)
      → Handed r.ids
      → r.ids.next + length r.entities_to_add < 2 ^ 32
      → n ≢ 0
      → Stands p r i n
      → let (t, ops, ticked) = server_tick p r w found in Stands p t i n × (despawns ops i ≡ false)
  unfolding server_tick ensure_link add_entities despawns
  server_tick-Stands r w none i n v room nz s = (s, refl)
  server_tick-Stands r w (some found) i n v room nz s =
      let r0 = (ensure_link p r (some found)).0 in
      let alike = ensure_link-Alike r (some found) in
      enter_each-Stands p r0 w r0.entities_to_add i n (rw (alike.0) v) (rw (alike.0, alike.3) room)
        nz (Alike-Stands r r0 i n alike s)

  -- The spawn is with the core: it stands under an id that is not 0, and the core was asked to add it and
  -- not to remove it.
  abbrev pub HandedOver : Registry p Callable → List CoreOp → ℕ → Type 0
  HandedOver z ops n =
      (i : ℕ) × (i ≢ 0) × Stands p z i n × (adds ops i ≡ true) × (despawns ops i ≡ false)

  -- The room that draining and noticing freed nodes leave for a tick.
  pass_room :
      (r : Registry p Callable) (w : Scene)
      → Handed r.ids
      → r.ids.next + cost p w r.pending_spawns + length r.entities_to_add < 2 ^ 32
      → let u = (detect_despawns p (drain_pending_spawns p r w).0 w).0 in
        Handed u.ids × (u.ids.next + length u.entities_to_add < 2 ^ 32)
  unfolding drain_pending_spawns detect_despawns
  pass_room r w v room =
      let (owned, waiting) = Same-drain_each p r w r.pending_spawns in
      let grows = drain_each-Grows p r w r.pending_spawns v (omega arith) in
      let t = (drain_each p r w r.pending_spawns).0 in
      let spawned = gone_ids t.ids w t.server_spawned in
      let (h, e) = drop_each-Handed t.ids spawned grows.follows.handed in
      let bound = gone_ids (drop_each t.ids spawned) w t.bind_ids in
      let (h1, e1) = drop_each-Handed (drop_each t.ids spawned) bound h in
      (h1, rw (e1, e, waiting) (omega (arith, grows.follows.room)))

  pass_hands_over :
      (r : Registry p Callable) (w : Scene) (found : Option (List (ℕ × Callable))) (ticks : Bool)
      (n : ℕ) (ps : PendingSpawn p)
      → Handed r.ids
      → r.ids.next + cost p w r.pending_spawns + length r.entities_to_add < 2 ^ 32
      → get r.pending_spawns n ≡ some ps
      → due p r w n ps ≡ true
      → w.alive 0 ≡ false
      → let (z, ops) = perform_all p r w found (pass ticks) in HandedOver z ops n
  unfolding perform_all perform despawns
  pass_hands_over r w found ticks n ps v room e now none_at_0 =
      let (nz, stands, asked, quiet) =
        drain_pending_spawns-Stands p r w n ps v (omega arith) e now in
      let (t, ops) = drain_pending_spawns p r w in
      let i = id t.ids n in
      let there : w.alive n ≡ true = ground (arith, now) in
      let (stands1, quiet1) = detect_despawns-Stands p t w i n none_at_0 there stands in
      let (u, ops1) = detect_despawns p t w in
      let zero : n ≢ 0 = λ z. (let no : ⊥ = ground (arith, ap w.alive z, there, none_at_0) in no) in
      let (v1, room1) = pass_room r w v room in
      let (stands2, quiet2) = server_tick-Stands u w found i n v1 room1 zero stands1 in
      let (y, ops2, ticked) = server_tick p u w found in
      elim ticks as (λ b. let (z, all) = perform_all p r w found (pass b) in HandedOver z all n) [
        | false ↦ (
          i,
          nz,
          stands1,
          ground (arith, adds-++ ops (ops1 ++ []) i, asked),
          ground (arith, despawns-++ ops (ops1 ++ []) i, despawns-++ ops1 [] i, quiet, quiet1),
        )
        | true ↦ (
          i,
          nz,
          stands2,
          ground (arith, adds-++ ops (ops1 ++ (ops2 ++ [])) i, asked),
          ground (
            arith,
            despawns-++ ops (ops1 ++ (ops2 ++ [])) i,
            despawns-++ ops1 (ops2 ++ []) i,
            despawns-++ ops2 [] i,
            quiet,
            quiet1,
            quiet2,
          ),
        )
      ]

  -- A server's poll, on a connection, hands every captured spawn over to the core whose node is there and
  -- in the tree and whose spawner is known once the poll has looked for spawners: afterwards an id that is
  -- not 0 names the node and counts as spawned, the core was asked to add that id and not to remove it,
  -- and nothing is pending for the node, whether or not the poll also sends. The counter has room for
  -- what the poll may name, no object has the id 0, and the calls see the same scene.
  pub perform_all-poll :
      (s : Session) (tm : Timing) (r : Registry p Callable) (w : Scene)
      (found : Option (List (ℕ × Callable))) (n : ℕ) (ps : PendingSpawn p)
      → (s.unique_id == 1) ≡ true
      → (s.peer_null || s.disconnected) ≡ false
      → Handed r.ids
      → r.ids.next + cost p w r.pending_spawns + length r.entities_to_add < 2 ^ 32
      → get r.pending_spawns n ≡ some ps
      → due p (ensure_link p r found).0 w n ps ≡ true
      → w.alive 0 ≡ false
      → let (z, ops) = perform_all p r w found (poll s tm).1 in HandedOver z ops n
  unfolding perform_all perform
  perform_all-poll s tm r w found n ps server connected v room e now none_at_0 =
      let (ticks, acts) = poll_acts s tm server connected in
      let r0 = (ensure_link p r found).0 in
      let (a, b, c, d) = ensure_link-Alike r found in
      let passed =
        pass_hands_over r0 w found ticks n ps (rw a v) (rw (a, c, d) room) (rw c e) now none_at_0 in
      rw acts
        (elim s.rpc_stats
          as (λ st.
            let (z, all) = perform_all p r w found (head st ++ pass ticks) in HandedOver z all n) [
              | false ↦ passed
              | true ↦ passed
            ])
