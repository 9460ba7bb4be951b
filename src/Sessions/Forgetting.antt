-- ===== src/Sessions/Forgetting.antt =====
-- What is forgotten when a peer goes or a session ends.
use goldnet_godot.Common.{
  ℕ, Bool, false, ◌&&◌, ◌||◌, not, ◌≡◌, refl, none, List, [], ◌∷◌, get, get-erase, contains, nat_eq,
  ◌==◌, if◌then◌else◌, arith,
}
use goldnet_godot.Platform.{Platform}
use goldnet_godot.Messages.{forget_peer}
use goldnet_godot.Sessions.{CoreServer, Session, SessionOp, forget_link, drop_peer, drop_peers}

-- Whether the send sim is asked to forget a link.
pub forgets_link : List SessionOp → ℕ → Bool
forgets_link [] k = false
forgets_link (forget_link j ∷ ops) k = j == k || forgets_link ops k
forgets_link (op ∷ ops) k = forgets_link ops k

module _ (p : Platform) (c : CoreServer) {Callable : Type 0} where
  open c use {peers}

  pub drop_peers_forgets :
      (s : Session p c Callable) (ks : List ℕ) (k : ℕ)
      → let (s1, ops) = drop_peers p c s ks in
        (contains (peers s1.server) k ≡ (not (contains ks k) && contains (peers s.server) k))
        × (get s1.messages.msg_registered k
            ≡ (if contains ks k then none else get s.messages.msg_registered k))
        × (get s1.messages.msg_targets k
            ≡ (if contains ks k then none else get s.messages.msg_targets k))
        × (forgets_link ops k ≡ contains ks k)
        × (s1.registry ≡ s.registry)
        × (s1.messages.msg_ids ≡ s.messages.msg_ids)
  unfolding drop_peers drop_peer forget_peer forgets_link
  drop_peers_forgets s [] k = (refl, refl, refl, refl, refl, refl)
  drop_peers_forgets s (j ∷ ks) k =
      let (rest, registered, targets, links, same, ids) =
        drop_peers_forgets (drop_peer p c s j).0 ks k in
      (
        ground (arith, rest, c.peers-remove_peer s.server j k),
        ground (arith, registered, get-erase s.messages.msg_registered j k),
        ground (arith, targets, get-erase s.messages.msg_targets j k),
        ground (arith, links),
        same,
        ids,
      )
