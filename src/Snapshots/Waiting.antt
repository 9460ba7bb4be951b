-- ===== src/Snapshots/Waiting.antt =====
-- What of the registry a snapshot keeps.
use goldnet_godot.Common.{ℕ, suc}
use goldnet_godot.Platform.{Platform}
use goldnet_godot.Registry.Steps.{Waits, builds, despawns, Step-Waits}
use goldnet_godot.Snapshots.{
  Snapshot, applied, protocol_mismatch, server_time, message, spawn_record, despawn, relevance,
  entity_update, Moment, Client, host_message, host_spawn, host_despawn, host_entity, finish, take,
}

module _ (p : Platform) {Callable : Type 0} where
  -- A snapshot keeps it that whatever waits to enter the core is ours.
  pub take-Waits :
      (s : Client p Callable) (m : ℕ → Moment p Callable) (n : ℕ) (k : Snapshot p)
      → Waits p s.registry
      → Waits p (take p s m n k).0.registry
  unfolding take host_message host_spawn host_despawn host_entity finish
  take-Waits s m n (applied given_up granted) h = h
  take-Waits s m n (protocol_mismatch rest) h = take-Waits s m (suc n) rest h
  take-Waits s m n (server_time ms rest) h = take-Waits s m (suc n) rest h
  take-Waits s m n (message bytes rest) h =
      take-Waits (host_message p s (m n) bytes).0 m (suc n) rest h
  take-Waits s m n (spawn_record net_id spawner_net_id bytes rest) h =
      let (s1, signals, took) = host_spawn p s (m n) net_id spawner_net_id bytes in
      take-Waits s1 m (suc n) (rest took)
        (Step-Waits p (builds (m n).build (m n).node_at net_id spawner_net_id bytes) h)
  take-Waits s m n (despawn net_id rest) h =
      take-Waits (host_despawn p s (m n) net_id).0 m (suc n) rest
        (Step-Waits p (despawns (m n).parting net_id) h)
  take-Waits s m n (relevance net_id rest) h = take-Waits s m (suc n) rest h
  take-Waits s m n (entity_update u rest) h =
      let (s1, out) = host_entity p s (m n) u in
      take-Waits s1 m (suc n) (rest out.result out.values) h
