-- ===== src/Cadence.antt =====
-- When snapshots go out: _min_interval_us, the send timer of _poll, and _poll and send_snapshots as the
-- sequence of what they call, in src/goldnet_multiplayer.cpp. Times are microseconds, uint64_t.
pub mod Interval
pub mod Timer
pub mod Polling
mod Examples
use goldnet_godot.Common.{
  ℕ, ◌+◌, ◌-◌, ◌*◌, ◌%◌, ◌^◌, Bool, true, false, ◌&&◌, ◌||◌, not, Option, none, some, List, [], ◌∷◌,
  ◌++◌, ltb, leb, ◌==◌, if◌then◌else◌,
}
use goldnet_godot.Platform.{add64, sub64}

-- DEFAULT_INTERVAL_MS, in microseconds.
abbrev pub default_interval_us : ℕ
default_interval_us = 33000

-- The doubles that a rate and an interval are: their test for being positive, and the roundings
-- `(uint64_t)(1000000.0 / rate + 0.5)` and `(uint64_t)(sec * 1000000.0 + 0.5)`.
pub record Seconds : Type 1 where
  pub D : Type 0
  pub is_positive : D → Bool
  pub us_of_rate : D → ℕ
  pub us_of_sec : D → ℕ

module _ (d : Seconds) where
  open d use {D, is_positive, us_of_rate, us_of_sec}

  -- One live synchronizer's interval, at least a microsecond.
  unfoldable pub sync_us : D → ℕ
  sync_us sec =
      let us = if is_positive sec then us_of_sec sec else default_interval_us in
      if us == 0 then 1 else us

  -- `if (best == 0 || us < best) best = us`
  unfoldable pub better : D → ℕ → ℕ
  better sec best = if best == 0 || ltb (sync_us sec) best then sync_us sec else best

  -- The loop over the owned synchronizers; none is one that has been freed.
  unfoldable pub best_us : List (Option D) → ℕ → ℕ
  best_us [] best = best
  best_us (none ∷ syncs) best = best_us syncs best
  best_us (some sec ∷ syncs) best = best_us syncs (better sec best)

  unfoldable pub min_interval_us : D → List (Option D) → ℕ
  min_interval_us setting owned =
      if is_positive setting
      then (if us_of_rate setting == 0 then 1 else us_of_rate setting)
      else if best_us owned 0 == 0
      then default_interval_us
      else best_us owned 0

-- last_send_us after a poll, and whether the poll sends.
unfoldable pub send_timer : ℕ → ℕ → ℕ → ℕ × Bool
send_timer iv now last =
    let from = if last == 0 then now else last in
    let next = add64 from iv in
    if leb iv (sub64 now from)
    then (if leb iv (sub64 now next) then (now, true) else (next, true))
    else (from, false)

-- What _poll and send_snapshots call, in order.
pub data Act : Type 0 where
  send_uplink inner_poll ensure_link pump_sim print_stats : Act
  drain_spawns detect_despawns server_tick : Act

-- What a poll reads of the session, once the inner has polled.
pub record Session : Type 0 where
  pub peer_null : Bool
  pub disconnected : Bool
  pub rpc_stats : Bool
  pub unique_id : ℕ
  pub manual_send : Bool
  pub peer_count : ℕ
  pub now_us : ℕ

pub record Timing : Type 0 where
  pub last_send_us : ℕ
  pub cached_min_interval_us : ℕ

unfoldable pub timed_tick : Session → Timing → Timing × List Act
timed_tick s t =
    let iv = if ltb 0 t.cached_min_interval_us then t.cached_min_interval_us else 1 in
    let (last, due) = send_timer iv s.now_us t.last_send_us in
    (record t { last_send_us = last }, if due then server_tick ∷ [] else [])

unfoldable pub server_poll : Session → Timing → Timing × List Act
server_poll s t =
    let (t', acts) = if not s.manual_send && ltb 0 s.peer_count then timed_tick s t else (t, []) in
    (t', drain_spawns ∷ detect_despawns ∷ acts)

unfoldable pub poll : Session → Timing → Timing × List Act
poll s t =
    let before = send_uplink ∷ inner_poll ∷ ensure_link ∷ pump_sim ∷ [] in
    let stats = if s.rpc_stats then print_stats ∷ [] else [] in
    let (t', acts) = if s.unique_id == 1 then server_poll s t else (t, []) in
    if s.peer_null || s.disconnected then (t, before) else (t', before ++ (stats ++ acts))

unfoldable pub send_snapshots : Session → List Act
send_snapshots s =
    if s.peer_null || not (s.unique_id == 1) || s.peer_count == 0
    then []
    else drain_spawns ∷ detect_despawns ∷ server_tick ∷ []
