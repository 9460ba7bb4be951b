-- ===== src/SimPeer/Examples.antt =====
-- The sim peer's theorems at a concrete sim: it rolls no loss, has room for one droppable packet, and
-- lets through everything it holds when it is pumped.
use goldnet_godot.Common.{
  ℕ, ◌+◌, ◌≡◌, refl, suc, Bool, false, ◌&&◌, not, Option, none, some, List, [], ◌∷◌, ◌++◌, length,
  keep, ltb, ◌==◌, if◌then◌else◌, arith,
}
use goldnet_godot.SimPeer.{
  Packet, TransferMode, unreliable, unreliable_ordered, reliable, droppable, count, NetSim, SimPeer,
  poll,
}
use goldnet_godot.SimPeer.Packets.{kept, count-append, kept-poll}
use goldnet_godot.SimPeer.Links.{count-keep}

abbrev room : ℕ × List Packet → Bool → Option ℕ
room s drop = if drop && ltb 0 (length s.1) then none else some s.0

no_length : (ks : List Packet) → suc (length ks) ≡ 0 → ⊥
no_length ks e = omega (arith, e)

pump_empty :
    (s : ℕ × List Packet)
    → length s.1 ≡ 0
    → ◌≡◌ {A = List Packet × (ℕ × List Packet)} (s.1, (s.0, [])) ([], s)
pump_empty (latency, []) e = refl
pump_empty (latency, k ∷ ks) e = elim (no_length ks e) [ ]

abbrev queue_sim : NetSim
queue_sim = record {
  S = ℕ × List Packet;
  loss_percent = λ s. 0;
  latency_max_ms = λ s. s.0;
  spike_ms = λ s. 0;
  bandwidth_bps = λ s. 0;
  pending = λ s. length s.1;
  loss_roll = λ s. (false, s);
  schedule = λ s link size drop now. (room s drop, s);
  enqueue = λ s link d k now. (s.0, s.1 ++ k ∷ []);
  pump = λ s now. (s.1, (s.0, []));
  forget_link = λ s link. (s.0, keep (λ k. not (k.from == link)) s.1);
  held = λ s q. count q s.1;
  held-loss_roll = λ s q. refl;
  held-schedule = λ s link size drop now q. refl;
  schedule_reliable = λ s link size now. (s.0, refl);
  held-enqueue = λ s link d k now q. count-append q s.1 (k ∷ []);
  held-pump = λ s now q. omega arith;
  pump_idle = λ s now idle. pump_empty s idle;
  held-forget_link = λ s link q. count-keep link q s.1;
}

abbrev packet : ℕ → TransferMode → Packet
packet from mode = record { data_bytes = 1 ∷ 2 ∷ []; from = from; channel = 0; mode = mode }

abbrev with_latency : ℕ → SimPeer queue_sim
with_latency ms = record {
  sim = (ms, []);
  ready = packet 1 reliable ∷ [];
  current = [];
  delivered_bytes = 2;
  delivered_packets = 1;
}

abbrev arriving : List Packet
arriving = packet 1 unreliable ∷ packet 2 reliable ∷ packet 1 unreliable_ordered ∷ []

abbrev is_reliable : Packet → Bool
is_reliable k = not (droppable k)

kept-poll_example :
    kept queue_sim (poll queue_sim (with_latency 50) arriving 7) is_reliable
    ≡ kept queue_sim (with_latency 50) is_reliable + count is_reliable arriving
kept-poll_example =
    kept-poll queue_sim (with_latency 50) arriving 7 is_reliable (λ k e. ground arith)
