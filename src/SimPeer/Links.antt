-- ===== src/SimPeer/Links.antt =====
-- What the sim peer forgets when a peer disconnects.
use goldnet_godot.Common.{
  ℕ, ◌≡◌, refl, Bool, ◌&&◌, not, Bool-cases, List, [], ◌∷◌, keep, ◌==◌, arith, inl, inr,
}
use goldnet_godot.SimPeer.{Packet, count, NetSim, SimPeer, on_peer_disconnected}
use goldnet_godot.SimPeer.Packets.{kept}

abbrev pub others : ℕ → (Packet → Bool) → Packet → Bool
others id q k = not (k.from == id) && q k

pub count-keep :
    (id : ℕ) (q : Packet → Bool) (ks : List Packet)
    → count q (keep (λ k. not (k.from == id)) ks) ≡ count (others id q) ks
count-keep id q [] = refl
count-keep id q (k ∷ ks) = elim (Bool-cases (k.from == id)) [
  | inl e ↦ ground (arith, count-keep id q ks)
  | inr e ↦ ground (arith, count-keep id q ks)
]

module _ (n : NetSim) where
  -- A disconnect takes the peer's packets, held or ready, and no other's: whatever a test accepts, as
  -- many are left as it accepted of the other peers' before.
  pub kept-on_peer_disconnected :
      (s : SimPeer n) (id : ℕ) (q : Packet → Bool)
      → kept n (on_peer_disconnected n s id) q ≡ kept n s (others id q)
  unfolding kept on_peer_disconnected
  kept-on_peer_disconnected s id q =
      omega (arith, count-keep id q s.ready, n.held-forget_link s.sim id q)
