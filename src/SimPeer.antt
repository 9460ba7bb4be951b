-- ===== src/SimPeer.antt =====
-- The receive side of the network-condition sim, in src/goldnet_sim_peer.cpp: GoldNetSimPeer holds
-- what arrives on a client's peer in a goldnet::NetSim before the inner API reads it. NetSim and the
-- wrapped peer are parameters: the packets that a poll of the wrapped peer yields are an argument.
pub mod Packets
pub mod Links
pub mod Wrapped
mod Examples
use goldnet_godot.Common.{
  ℕ, ◌+◌, ◌%◌, ◌^◌, ◌≡◌, Bool, true, false, ◌&&◌, ◌||◌, not, Option, none, some, List, [], ◌∷◌,
  ◌++◌, length, keep, ltb, ◌==◌, nat_eq, if◌then◌else◌,
}

-- MultiplayerPeer::TransferMode
pub data TransferMode : Type 0 where
  unreliable unreliable_ordered reliable : TransferMode

pub record Packet : Type 0 where
  pub data_bytes : List ℕ
  pub from : ℕ
  pub channel : ℕ
  pub mode : TransferMode

abbrev pub droppable : Packet → Bool
droppable k = elim k.mode [ reliable ↦ false | unreliable ↦ true | unreliable_ordered ↦ true ]

abbrev pub count : (Packet → Bool) → List Packet → ℕ
count q ks = length (keep q ks)

-- goldnet::NetSim, as far as the wrapper uses it. `schedule` answers a delay, or none for a packet
-- the link has no room for. `held` counts the packets that a sim holds and a test accepts.
pub record NetSim : Type 1 where
  pub S : Type 0
  pub loss_percent : S → ℕ
  pub latency_max_ms : S → ℕ
  pub spike_ms : S → ℕ
  pub bandwidth_bps : S → ℕ
  pub pending : S → ℕ
  pub loss_roll : S → Bool × S
  pub schedule : S → ℕ → ℕ → Bool → ℕ → Option ℕ × S
  pub enqueue : S → ℕ → ℕ → Packet → ℕ → S
  pub pump : S → ℕ → List Packet × S
  pub forget_link : S → ℕ → S
  pub held : S → (Packet → Bool) → ℕ
  pub held-loss_roll : (s : S) (q : Packet → Bool) → held (loss_roll s).1 q ≡ held s q
  pub held-schedule :
      (s : S) (link size : ℕ) (drop : Bool) (now : ℕ) (q : Packet → Bool)
      → held (schedule s link size drop now).1 q ≡ held s q
  pub schedule_reliable :
      (s : S) (link size now : ℕ) → (d : ℕ) × ((schedule s link size false now).0 ≡ some d)
  pub held-enqueue :
      (s : S) (link d : ℕ) (k : Packet) (now : ℕ) (q : Packet → Bool)
      → held (enqueue s link d k now) q ≡ held s q + count q (k ∷ [])
  pub held-pump :
      (s : S) (now : ℕ) (q : Packet → Bool)
      → count q (pump s now).0 + held (pump s now).1 q ≡ held s q
  pub pump_idle : (s : S) (now : ℕ) → pending s ≡ 0 → pump s now ≡ ([], s)
  pub held-forget_link :
      (s : S) (link : ℕ) (q : Packet → Bool)
      → held (forget_link s link) q ≡ held s (λ k. not (k.from == link) && q k)

module _ (n : NetSim) where
  open n use {S, loss_roll, schedule, enqueue, pump, forget_link}

  -- The members of GoldNetSimPeer.
  pub record SimPeer : Type 0 where
    pub sim : S
    pub ready : List Packet
    pub current : List ℕ
    pub delivered_bytes : ℕ
    pub delivered_packets : ℕ

  -- _deliver
  unfoldable pub deliver : SimPeer → Packet → SimPeer
  deliver s k = record s {
    delivered_bytes = s.delivered_bytes + length k.data_bytes;
    delivered_packets = s.delivered_packets + 1;
    ready = s.ready ++ k ∷ [];
  }

  unfoldable pub deliver_all : SimPeer → List Packet → SimPeer
  deliver_all s [] = s
  deliver_all s (k ∷ ks) = deliver_all (deliver s k) ks

  -- `active` of _poll.
  unfoldable pub is_active : S → Bool
  is_active sim =
      ltb 0 (n.loss_percent sim)
      || (ltb 0 (n.latency_max_ms sim) || (ltb 0 (n.spike_ms sim) || ltb 0 (n.bandwidth_bps sim)))

  -- A packet that the sim does not lose: schedule it, and hold it for its delay.
  unfoldable pub hold : S → Packet → ℕ → S
  hold sim k now =
      let (delay, sim1) = schedule sim k.from (length k.data_bytes) (droppable k) now in
      elim delay [ none ↦ sim1 | some d ↦ enqueue sim1 k.from d k now ]

  unfoldable pub lose_or_hold : S → Packet → ℕ → S
  lose_or_hold sim k now =
      let (lost, sim1) = loss_roll sim in
      if droppable k then (if lost then sim1 else hold sim1 k now) else hold sim k now

  -- One round of _poll's loop.
  unfoldable pub receive : Bool → ℕ → SimPeer → Packet → SimPeer
  receive active now s k =
      if not active && n.pending s.sim == 0
      then deliver s k
      else record s { sim = lose_or_hold s.sim k now }

  unfoldable pub receive_all : Bool → ℕ → SimPeer → List Packet → SimPeer
  receive_all active now s [] = s
  receive_all active now s (k ∷ ks) = receive_all active now (receive active now s k) ks

  -- _poll, with the packets that the wrapped peer's poll made available.
  unfoldable pub poll : SimPeer → List Packet → ℕ → SimPeer
  poll s arrived now =
      let s1 = receive_all (is_active s.sim) now s arrived in
      let (out, sim1) = pump s1.sim now in deliver_all (record s1 { sim = sim1 }) out

  -- _get_packet: none for ERR_UNAVAILABLE.
  unfoldable pub get_packet : SimPeer → SimPeer × Option (List ℕ)
  get_packet s = elim s.ready [
    | [] ↦ (s, none)
    | k ∷ ks ↦ (record s { current = k.data_bytes; ready = ks }, some k.data_bytes)
  ]

  -- _get_available_packet_count, _get_packet_channel, _get_packet_mode and _get_packet_peer.
  unfoldable pub get_available_packet_count : SimPeer → ℕ
  get_available_packet_count s = length s.ready

  unfoldable pub get_packet_channel : SimPeer → ℕ
  get_packet_channel s = elim s.ready [ [] ↦ 0 | k ∷ _ ↦ k.channel ]

  unfoldable pub get_packet_mode : SimPeer → TransferMode
  get_packet_mode s = elim s.ready [ [] ↦ reliable | k ∷ _ ↦ k.mode ]

  unfoldable pub get_packet_peer : SimPeer → ℕ
  get_packet_peer s = elim s.ready [ [] ↦ 0 | k ∷ _ ↦ k.from ]

  -- _on_peer_disconnected
  unfoldable pub on_peer_disconnected : SimPeer → ℕ → SimPeer
  on_peer_disconnected s id = record s {
    sim = forget_link s.sim id;
    ready = keep (λ k. not (k.from == id)) s.ready;
  }

  -- _close, but for closing the wrapped peer.
  unfoldable pub close : SimPeer → SimPeer
  close s = record s { ready = []; sim = forget_link s.sim 1 }
