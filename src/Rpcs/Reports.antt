-- ===== src/Rpcs/Reports.antt =====
-- The windows of the RPC statistics, in src/goldnet_multiplayer.cpp: _rpc_stats_print, and what
-- ServerHost::send counts of snapshots. A report is what is printed, its rows in the map's order.
use goldnet_godot.Common.{
  ℕ, ◌+◌, Bool, ◌&&◌, not, String, Option, none, some, List, [], ◌∷◌, length, HashMap, string_eq,
  ltb, ◌==◌, if◌then◌else◌,
}
use goldnet_godot.Platform.{Platform, Variant, add64, sub64}
use goldnet_godot.Rpcs.{Recipient}
use goldnet_godot.Rpcs.Statistics.{
  RpcStat, rpc_header_est, stat_recipients, to_self, rpc_stats_count, sends_of,
}

-- The members of GoldNetMultiplayer that statistics use.
pub record RpcStats : Type 0 where
  pub methods : HashMap String RpcStat
  pub snap_bytes : ℕ
  pub snap_sends : ℕ
  pub last_ms : ℕ

pub record Report : Type 0 where
  pub span : ℕ
  pub rows : HashMap String RpcStat
  pub rpc_bytes : ℕ
  pub rpc_sends : ℕ
  pub snapshot_bytes : ℕ
  pub snapshot_sends : ℕ

unfoldable pub total_bytes : HashMap String RpcStat → ℕ
total_bytes [] = 0
total_bytes ((method, s) ∷ m) = add64 s.bytes (total_bytes m)

unfoldable pub total_sends : HashMap String RpcStat → ℕ
total_sends [] = 0
total_sends ((method, s) ∷ m) = add64 s.sends (total_sends m)

-- _rpc_stats_print: nothing at first, nor within five seconds of the last; and a report clears the counts.
unfoldable pub rpc_stats_print : RpcStats → ℕ → RpcStats × Option Report
rpc_stats_print s now =
    let span = sub64 now s.last_ms in
    let report : Report = record {
      span = span;
      rows = s.methods;
      rpc_bytes = total_bytes s.methods;
      rpc_sends = total_sends s.methods;
      snapshot_bytes = s.snap_bytes;
      snapshot_sends = s.snap_sends;
    } in
    if s.last_ms == 0
    then (record s { last_ms = now }, none)
    else if ltb span 5000
    then (s, none)
    else (record { methods = []; snap_bytes = 0; snap_sends = 0; last_ms = now }, some report)

-- What ServerHost::send counts of a snapshot, where statistics are on.
unfoldable pub count_snapshot : RpcStats → List ℕ → RpcStats
count_snapshot s bytes = record s {
  snap_bytes = add64 s.snap_bytes (length bytes + 8 + rpc_header_est);
  snap_sends = add64 s.snap_sends 1;
}

unfoldable pub reported : Option Report → List Report → List Report
reported none reports = reports
reported (some r) reports = r ∷ reports

module _ (p : Platform) where
  open p use {F, O}

  -- What happens to the statistics: a call is counted, with what the engine says of it, a snapshot is, or
  -- a poll prints at a time.
  pub data Event : Type 0 where
    counts : ℕ → List ℕ → Recipient → String → Bool → String → List (Variant F O) → Event
    snapshots : List ℕ → Event
    prints : ℕ → Event

  pub run : RpcStats → List Event → RpcStats × List Report
  run s [] = (s, [])
  run s (counts self peers to method unreliable owner args ∷ events) =
      run
        (record s {
          methods = rpc_stats_count p s.methods self peers to method unreliable owner args;
        })
        events
  run s (snapshots bytes ∷ events) = run (count_snapshot s bytes) events
  run s (prints now ∷ events) =
      let (s1, report) = rpc_stats_print s now in
      let rest = run s1 events in (rest.0, reported report rest.1)

  -- The sends of a method that the events count, and the snapshots.
  pub counted : String → List Event → ℕ
  counted k [] = 0
  counted k (counts self peers to method unreliable owner args ∷ events) =
      (if string_eq.beq method k && not (to_self to self) then stat_recipients to peers else 0)
      + counted k events
  counted k (snapshots bytes ∷ events) = counted k events
  counted k (prints now ∷ events) = counted k events

  pub snapshots_in : List Event → ℕ
  snapshots_in [] = 0
  snapshots_in (counts self peers to method unreliable owner args ∷ events) = snapshots_in events
  snapshots_in (snapshots bytes ∷ events) = 1 + snapshots_in events
  snapshots_in (prints now ∷ events) = snapshots_in events

-- The sends of a method, and the snapshots, over all reports.
pub sends_reported : String → List Report → ℕ
sends_reported k [] = 0
sends_reported k (r ∷ reports) = sends_of r.rows k + sends_reported k reports

pub snapshots_reported : List Report → ℕ
snapshots_reported [] = 0
snapshots_reported (r ∷ reports) = r.snapshot_sends + snapshots_reported reports
