-- ===== src/Cadence/Polling.antt =====
-- When a poll sends snapshots, and what it does before.
use goldnet_godot.Common.{
  ℕ, ◌+◌, ◌≡◌, Bool, true, false, ◌&&◌, ◌||◌, not, List, [], ◌∷◌, ltb, ◌==◌, if◌then◌else◌, arith,
  take,
}
use goldnet_godot.Cadence.{
  Act, send_uplink, inner_poll, drain_spawns, detect_despawns, server_tick, Session, Timing,
  send_timer, timed_tick, server_poll, poll, send_snapshots,
}

-- A server with a live peer of its own, whose snapshots goldnet times, and somebody to send to.
unfoldable pub times_itself : Session → Bool
times_itself s =
    not (s.peer_null || s.disconnected)
    && (s.unique_id == 1 && (not s.manual_send && ltb 0 s.peer_count))

abbrev pub interval : Timing → ℕ
interval t = if ltb 0 t.cached_min_interval_us then t.cached_min_interval_us else 1

abbrev pub due : Session → Timing → Bool
due s t = (send_timer (interval t) s.now_us t.last_send_us).1

-- The number of snapshots passes among the acts.
unfoldable pub ticks : List Act → ℕ
ticks [] = 0
ticks (server_tick ∷ acts) = 1 + ticks acts
ticks (_ ∷ acts) = ticks acts

-- A pass stands behind a drain of the spawns and a look for despawns, in this order.
unfoldable pub ready : Bool → Bool → List Act → Bool
ready drained detected [] = true
ready drained detected (drain_spawns ∷ acts) = ready true false acts
ready drained detected (detect_despawns ∷ acts) = ready drained drained acts
ready drained detected (server_tick ∷ acts) = detected && ready drained detected acts
ready drained detected (_ ∷ acts) = ready drained detected acts

-- A poll makes one pass if the server times itself and its timer is due, and none otherwise; the timer
-- moves in the first case only through `send_timer`, and not at all where the server does not time
-- itself; the uplink goes before the inner's poll; and a pass comes behind the drain of the spawns and
-- the look for despawns of its own poll.
pub poll_passes :
    (s : Session) (t : Timing)
    → (ticks (poll s t).1 ≡ (if times_itself s && due s t then 1 else 0))
      × ((poll s t).0.last_send_us ≡ (
          if times_itself s
          then (send_timer (interval t) s.now_us t.last_send_us).0
          else t.last_send_us))
      × (ready false false (poll s t).1 ≡ true)
      × (take 2 (poll s t).1 ≡ send_uplink ∷ inner_poll ∷ [])
unfolding poll server_poll timed_tick times_itself ticks ready
poll_passes s t = (ground arith, ground arith, ground arith, ground arith)

-- A manual send makes one pass, behind the drain and the look for despawns, exactly on a server that
-- has a peer and somebody to send to.
pub send_snapshots_passes :
    (s : Session)
    → (ticks (send_snapshots s)
        ≡ (if not s.peer_null && (s.unique_id == 1 && not (s.peer_count == 0)) then 1 else 0))
      × (ready false false (send_snapshots s) ≡ true)
unfolding send_snapshots ticks ready
send_snapshots_passes s = ground arith
