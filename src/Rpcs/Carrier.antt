-- ===== src/Rpcs/Carrier.antt =====
-- What rides the carrier node's unreliable RPCs, in src/goldnet_multiplayer.cpp: a snapshot
-- (ServerHost::send) and a client's uplink packet (_send_uplink). Counters for printing are left out.
use goldnet_godot.Common.{
  ℕ, ◌+◌, ◌≡◌, refl, Bool, true, false, ◌&&◌, ◌||◌, not, Bool-cases, inl, inr, some, List, [], ◌∷◌,
  any, length, ltb, ◌==◌, if◌then◌else◌, arith,
}
use goldnet_godot.Platform.{Platform, packed_bytes}
use goldnet_godot.Rpcs.{one, SendSim, Out, Answers, sim_send}
use goldnet_godot.Rpcs.Reach.{touches, touches-sim_send}

module _ (p : Platform) (n : SendSim) where
  open p use {F, O}
  open n use {S, loss_percent, loss_roll}

  -- ServerHost::send
  unfoldable pub send_snapshot : S → Answers → ℕ → List ℕ → S × List (Out F)
  send_snapshot sim a peer bytes =
      let (lost, sim1) = loss_roll sim in
      let sent =
        sim_send p n sim1 a (one peer) (packed_bytes bytes ∷ []) true
          (some (4 + 8 + length bytes)) in
      if lost then (sim1, []) else (sent.0, sent.1)

  -- _send_uplink, with what the core says of whether a packet is due, whether there is a carrier node,
  -- and the packet.
  unfoldable pub send_uplink : S → Answers → Bool → Bool → List ℕ → S × List (Out F)
  send_uplink sim a due has_link bytes =
      let (lost, rolled) = loss_roll sim in
      let sim1 = if ltb 0 (loss_percent sim) then rolled else sim in
      let sent =
        sim_send p n sim1 a (one 1) (packed_bytes bytes ∷ []) true (some (length bytes + 8)) in
      if not (a.has_peer && a.connected) || a.unique_id == 1
      then (sim, [])
      else if not due
      then (sim, [])
      else if not has_link
      then (sim, [])
      else if ltb 0 (loss_percent sim) && lost
      then (sim1, [])
      else (sent.0, sent.1)

  -- A snapshot goes to its own peer and to no other.
  pub touches-send_snapshot :
      (sim : S) (a : Answers) (peer t : ℕ) (bytes : List ℕ)
      → (peer == t) ≡ false
      → any (touches t) (send_snapshot sim a peer bytes).1 ≡ false
  unfolding send_snapshot
  touches-send_snapshot sim a peer t bytes apart = elim (Bool-cases (loss_roll sim).0) [
    | inl lost ↦ rw lost refl
    | inr kept ↦ rw kept (
        touches-sim_send p n (loss_roll sim).1 a t peer (packed_bytes bytes ∷ []) true
          (some (4 + 8 + length bytes)) apart)
  ]

  -- An uplink packet goes to the server alone, and none from the server itself, without a connection, or
  -- before one is due.
  pub touches-send_uplink :
      (sim : S) (a : Answers) (due has_link : Bool) (t : ℕ) (bytes : List ℕ)
      → (not (1 == t) || not due || not a.connected || a.unique_id == 1) ≡ true
      → any (touches t) (send_uplink sim a due has_link bytes).1 ≡ false
  unfolding send_uplink
  touches-send_uplink sim a due has_link t bytes h =
      let rolled = if ltb 0 (loss_percent sim) then (loss_roll sim).1 else sim in
      let sent =
        touches-sim_send p n rolled a t 1 (packed_bytes bytes ∷ []) true
          (some (length bytes + 8)) in
      ground (arith, sent, h)
