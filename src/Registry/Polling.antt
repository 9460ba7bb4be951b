-- ===== src/Registry/Polling.antt =====
-- What a poll does to the registry, in src/goldnet_multiplayer.cpp: _ensure_link, _server_tick, and the
-- calls of _poll and send_snapshots (Cadence) that change it, in their order.
pub mod Drain
pub mod Settled
pub mod Handover
mod Examples
use goldnet_godot.Common.{ℕ, Bool, true, false, Option, none, some, List, [], ◌∷◌, ◌++◌}
use goldnet_godot.Platform.{Platform}
use goldnet_godot.Cadence.{
  Act, send_uplink, inner_poll, pump_sim, print_stats, drain_spawns,
  detect_despawns as look_despawns, server_tick as tick, ensure_link as look_link,
}
use goldnet_godot.Registry.{Scene, CoreOp, Registry, detect_despawns, add_entities}
use goldnet_godot.Registry.Spawning.{capture_spawners, drain_pending_spawns}

module _ (p : Platform) {Callable : Type 0} where
  -- _ensure_link, with the spawners in the tree, if there is a tree with a root: whether there is a
  -- carrier node, made if need be.
  unfoldable pub ensure_link :
      Registry p Callable → Option (List (ℕ × Callable)) → Registry p Callable × Bool
  ensure_link r none = (r, false)
  ensure_link r (some found) = (capture_spawners p r (some found), true)

  -- _server_tick, up to the core's tick: whether the core is told to make one.
  unfoldable pub server_tick :
      Registry p Callable
      → Scene
      → Option (List (ℕ × Callable))
      → Registry p Callable × List CoreOp × Bool
  server_tick r w found = elim (ensure_link r found).1 [
    | false ↦ ((ensure_link r found).0, [], false)
    | true ↦ let entered = add_entities p (ensure_link r found).0 w in (entered.0, entered.1, true)
  ]

  -- One of the calls, as far as it changes the registry. Game code that the inner's poll runs is not
  -- part of it.
  unfoldable pub perform :
      Registry p Callable
      → Scene
      → Option (List (ℕ × Callable))
      → Act
      → Registry p Callable × List CoreOp
  perform r w found send_uplink = (r, [])
  perform r w found inner_poll = (r, [])
  perform r w found look_link = ((ensure_link r found).0, [])
  perform r w found pump_sim = (r, [])
  perform r w found print_stats = (r, [])
  perform r w found drain_spawns = drain_pending_spawns p r w
  perform r w found look_despawns = detect_despawns p r w
  perform r w found tick = let ticked = server_tick r w found in (ticked.0, ticked.1)

  unfoldable pub perform_all :
      Registry p Callable
      → Scene
      → Option (List (ℕ × Callable))
      → List Act
      → Registry p Callable × List CoreOp
  perform_all r w found [] = (r, [])
  perform_all r w found (act ∷ acts) =
      let (r1, ops) = perform r w found act in
      let rest = perform_all r1 w found acts in (rest.0, ops ++ rest.1)
