-- ===== src/Snapshots/Permission.antt =====
-- Whose calls a snapshot makes.
use goldnet_godot.Common.{
  ℕ, suc, ◌≡◌, refl, Bool, Bool-cases, Option, none, some, List, All, All-append, inl, inr,
}
use goldnet_godot.Platform.{Platform}
use goldnet_godot.Messages.{Call}
use goldnet_godot.Messages.Permission.{Permitted, deliver_message-Permitted}
use goldnet_godot.Hosts.{relevance_lost, apply_snapshot}
use goldnet_godot.Snapshots.{
  Snapshot, applied, protocol_mismatch, server_time, message, spawn_record, despawn, relevance,
  entity_update, Moment, Client, Heard, mismatch, server_time_received, called, signalled,
  asked_core, entity_relevance_lost, taken, gave_up, granted_rate, heard, heard_lost, host_message,
  host_spawn, host_despawn, host_entity, finish, take, gn_recv,
}

module _ (p : Platform) {Callable : Type 0} where
  -- A call is one that the server may make at the moment it is made.
  abbrev pub FromServer : (ℕ → Moment p Callable) → Heard p → Type 0
  FromServer m mismatch = Unit
  FromServer m (server_time_received ms) = Unit
  FromServer m (called n c) = Permitted p (m n).world 1 c
  FromServer m (signalled signals) = Unit
  FromServer m (asked_core ops) = Unit
  FromServer m (entity_relevance_lost sync) = Unit
  FromServer m (taken net_id out) = Unit
  FromServer m (gave_up ids) = Unit
  FromServer m (granted_rate rate) = Unit

  heard-FromServer :
      (m : ℕ → Moment p Callable) (n : ℕ) (call : Option (Call p))
      → ((c : Call p) → call ≡ some c → Permitted p (m n).world 1 c)
      → All (FromServer m) (heard p n call)
  unfolding heard
  heard-FromServer m n none h = tt
  heard-FromServer m n (some c) h = (h c refl, tt)

  heard_lost-FromServer :
      (m : ℕ → Moment p Callable) (lost : Option ℕ) → All (FromServer m) (heard_lost p lost)
  unfolding heard_lost
  heard_lost-FromServer m none = tt
  heard_lost-FromServer m (some sync) = (tt, tt)

  finish-FromServer :
      (s : Client p Callable) (m : ℕ → Moment p Callable) (given_up : List ℕ) (granted : Option ℕ)
      → All (FromServer m) (finish p s given_up granted).1
  unfolding finish
  finish-FromServer s m given_up granted =
      let changed = (apply_snapshot s.warned_given_up s.update_rate_granted given_up granted).3 in
      elim (Bool-cases changed) [ inl e ↦ rw e (tt, (tt, tt)) | inr e ↦ rw e (tt, tt) ]

  take-FromServer :
      (s : Client p Callable) (m : ℕ → Moment p Callable) (n : ℕ) (k : Snapshot p)
      → All (FromServer m) (take p s m n k).1
  unfolding take host_message
  take-FromServer s m n (applied given_up granted) = finish-FromServer s m given_up granted
  take-FromServer s m n (protocol_mismatch rest) = (tt, take-FromServer s m (suc n) rest)
  take-FromServer s m n (server_time ms rest) = (tt, take-FromServer s m (suc n) rest)
  take-FromServer s m n (message bytes rest) =
      let (s1, call) = host_message p s (m n) bytes in
      All-append (FromServer m) (heard p n call) (take p s1 m (suc n) rest).1
        (heard-FromServer m n call (deliver_message-Permitted p s.messages (m n).world 1 bytes))
        (take-FromServer s1 m (suc n) rest)
  take-FromServer s m n (spawn_record net_id spawner_net_id bytes rest) =
      let (s1, signals, took) = host_spawn p s (m n) net_id spawner_net_id bytes in
      (tt, take-FromServer s1 m (suc n) (rest took))
  take-FromServer s m n (despawn net_id rest) =
      let (s1, ops, signals) = host_despawn p s (m n) net_id in
      (tt, (tt, take-FromServer s1 m (suc n) rest))
  take-FromServer s m n (relevance net_id rest) =
      let lost = relevance_lost (m n).scene s.registry.ids net_id in
      All-append (FromServer m) (heard_lost p lost) (take p s m (suc n) rest).1
        (heard_lost-FromServer m lost) (take-FromServer s m (suc n) rest)
  take-FromServer s m n (entity_update u rest) =
      let (s1, out) = host_entity p s (m n) u in
      (tt, take-FromServer s1 m (suc n) (rest out.result out.values))

  -- Whatever the core makes of the bytes of a snapshot, every call that the snapshot makes comes from the server, peer 1, and is of an @rpc method that the
  -- node's authority lets the server call when it is made.
  gn_recv-FromServer :
      (apply : List ℕ → Snapshot p) (s : Client p Callable) (m : ℕ → Moment p Callable)
      (is_goldnet : Bool) (bytes : List ℕ)
      → All (FromServer m) (gn_recv p apply s m is_goldnet bytes).1
  unfolding gn_recv
  gn_recv-FromServer apply s m is_goldnet bytes = elim (Bool-cases is_goldnet) [
    | inl e ↦ rw e (take-FromServer s m 0 (apply bytes))
    | inr e ↦ rw e tt
  ]
