-- ===== src/SimConfig/PeerStats.antt =====
-- get_peer_stats, in src/goldnet_multiplayer.cpp: the numbers of either end as one Dictionary, which is a
-- record here. The core's accounts are arguments.
use goldnet_godot.Common.{
  ℕ, ◌≡◌, refl, Bool, true, false, ◌&&◌, Option, none, some, ◌==◌, if◌then◌else◌,
}

-- goldnet::Server's PeerStats and silent_ms for a peer.
pub record ServerStats : Type 0 where
  pub silent_ms : ℕ
  pub chokes : ℕ
  pub messages_queued : ℕ
  pub messages_delivered : ℕ
  pub rate : ℕ
  pub update_rate : ℕ
  pub uplink_lag_ms : ℕ
  pub uplink_pps : ℕ

-- goldnet::Client's Stats and silent_ms; no update rate granted is the -1 of the source.
pub record ClientStats : Type 0 where
  pub silent_ms : ℕ
  pub snapshots_received : ℕ
  pub snapshots_lost : ℕ
  pub messages_queued : ℕ
  pub messages_delivered : ℕ
  pub commands_pending : ℕ
  pub commands_dropped : ℕ
  pub command_rtt_ms : ℕ
  pub rate : ℕ
  pub update_rate_granted : Option ℕ
  pub command_interval_ms : ℕ
  pub downlink_lag_ms : ℕ
  pub uplink_lag_ms : ℕ
  pub uplink_pps : ℕ
  pub delivered_bps : ℕ

abbrev pub no_client_stats : ClientStats
no_client_stats = record {
  silent_ms = 0;
  snapshots_received = 0;
  snapshots_lost = 0;
  messages_queued = 0;
  messages_delivered = 0;
  commands_pending = 0;
  commands_dropped = 0;
  command_rtt_ms = 0;
  rate = 0;
  update_rate_granted = none;
  command_interval_ms = 0;
  downlink_lag_ms = 0;
  uplink_lag_ms = 0;
  uplink_pps = 0;
  delivered_bps = 0;
}

-- The Dictionary. Its command rate goes by the interval that it is 1000 over, 0 for none.
pub record PeerStats : Type 0 where
  pub silent_ms : ℕ
  pub chokes : ℕ
  pub snapshots_received : ℕ
  pub snapshots_lost : ℕ
  pub messages_queued : ℕ
  pub messages_delivered : ℕ
  pub commands_pending : ℕ
  pub commands_dropped : ℕ
  pub command_rtt_ms : ℕ
  pub recv_sim_bytes : ℕ
  pub recv_sim_packets : ℕ
  pub rate : ℕ
  pub update_rate : ℕ
  pub command_interval_ms : ℕ
  pub downlink_lag_ms : ℕ
  pub uplink_lag_ms : ℕ
  pub uplink_pps : ℕ
  pub delivered_bps : ℕ

unfoldable pub or_zero : Option ℕ → ℕ
or_zero none = 0
or_zero (some n) = n

-- What has come through the receive sim, bytes and packets, on a client that has one.
unfoldable pub through_sim : Bool → Option (ℕ × ℕ) → ℕ × ℕ
through_sim true recv = (0, 0)
through_sim false none = (0, 0)
through_sim false (some counts) = counts

-- get_peer_stats, with the server's account of the peer, the client's, and the receive sim's counts.
unfoldable pub get_peer_stats : Bool → ℕ → ServerStats → ClientStats → Option (ℕ × ℕ) → PeerStats
get_peer_stats has_peer unique_id sv client recv =
    let on_server = has_peer && unique_id == 1 in
    let cl : ClientStats = if on_server then no_client_stats else client in
    let sim = through_sim on_server recv in
    record {
      silent_ms = if on_server then sv.silent_ms else client.silent_ms;
      chokes = if on_server then sv.chokes else 0;
      snapshots_received = cl.snapshots_received;
      snapshots_lost = cl.snapshots_lost;
      messages_queued = if on_server then sv.messages_queued else cl.messages_queued;
      messages_delivered = if on_server then sv.messages_delivered else cl.messages_delivered;
      commands_pending = cl.commands_pending;
      commands_dropped = cl.commands_dropped;
      command_rtt_ms = cl.command_rtt_ms;
      recv_sim_bytes = sim.0;
      recv_sim_packets = sim.1;
      rate = if on_server then sv.rate else cl.rate;
      update_rate = if on_server then sv.update_rate else or_zero cl.update_rate_granted;
      command_interval_ms = cl.command_interval_ms;
      downlink_lag_ms = cl.downlink_lag_ms;
      uplink_lag_ms = if on_server then sv.uplink_lag_ms else cl.uplink_lag_ms;
      uplink_pps = if on_server then sv.uplink_pps else cl.uplink_pps;
      delivered_bps = cl.delivered_bps;
    }

-- A server's numbers do not depend on what a client kept nor on a receive sim.
pub get_peer_stats_server :
    (sv : ServerStats) (cl cl' : ClientStats) (recv recv' : Option (ℕ × ℕ))
    → get_peer_stats true 1 sv cl recv ≡ get_peer_stats true 1 sv cl' recv'
unfolding get_peer_stats through_sim
get_peer_stats_server sv cl cl' recv recv' = refl

-- The numbers of an end that is not the server do not depend on a server's account.
pub get_peer_stats_client :
    (has_peer : Bool) (unique_id : ℕ) (sv sv' : ServerStats) (cl : ClientStats)
    (recv : Option (ℕ × ℕ))
    → (has_peer && unique_id == 1) ≡ false
    → get_peer_stats has_peer unique_id sv cl recv ≡ get_peer_stats has_peer unique_id sv' cl recv
unfolding get_peer_stats
get_peer_stats_client has_peer unique_id sv sv' cl recv h = rw h refl
