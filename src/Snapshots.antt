-- ===== src/Snapshots.antt =====
-- A snapshot on its way into a client, in src/goldnet_link.cpp (_gn_recv) and src/goldnet_multiplayer.cpp
-- (apply_snapshot and ClientHost). What goldnet::Client makes of the bytes is a parameter: a tree of
-- the questions that it asks its host. The engine's answers while one of them is answered, and what a
-- called method does to the messages meanwhile, are arguments.
pub mod Permission
pub mod Waiting
pub mod Arrival
mod Examples
use goldnet_godot.Common.{
  ℕ, zero, suc, Bool, true, false, String, Option, none, some, List, [], ◌∷◌, ◌++◌, HashMap,
  HashSet, ◌==◌, if◌then◌else◌,
}
use goldnet_godot.Platform.{Platform, Variant}
use goldnet_godot.Messages.{Messages, World, Call, deliver_message}
use goldnet_godot.Registry.{Scene, CoreOp, Registry}
use goldnet_godot.Registry.Client.{Build, Signal, Parting, keys, spawn, apply_despawn}
use goldnet_godot.Hosts.{
  EntityResult, EntityUpdate, SlotCoding, Codings, Local, Outcome, entity, relevance_lost,
  apply_snapshot,
}

module _ (p : Platform) where
  open p use {F, O}

  -- What goldnet::Client::apply asks of its host for a snapshot, in order, and at the end what it gave
  -- up on and the update rate that it was granted. A spawn and an entity are answered before what
  -- follows.
  pub data Snapshot : Type 0 where
    applied : List ℕ → Option ℕ → Snapshot
    protocol_mismatch : Snapshot → Snapshot
    server_time : ℕ → Snapshot → Snapshot
    message : List ℕ → Snapshot → Snapshot
    spawn_record : ℕ → ℕ → List ℕ → (Bool → Snapshot) → Snapshot
    despawn : ℕ → Snapshot → Snapshot
    relevance : ℕ → Snapshot → Snapshot
    entity_update : EntityUpdate p → (EntityResult → List (ℕ × Variant F O) → Snapshot) → Snapshot

  -- What is answered during one of the host's calls, with what a method that is called does to the
  -- messages by its own RPCs.
  pub record Moment (Callable : Type 0) : Type 0 where
    pub world : World
    pub scene : Scene
    pub build : Build (Variant F O) Callable
    pub node_at : String → Option (ℕ × Option Callable)
    pub parting : Parting
    pub local_sync : Local p
    pub rpcs : Messages → Messages

  -- The members of GoldNetMultiplayer that a snapshot touches.
  pub record Client (Callable : Type 0) : Type 0 where
    pub registry : Registry p Callable
    pub codings : Codings p
    pub messages : Messages
    pub warned_given_up : HashSet
    pub update_rate_granted : Option ℕ

  -- What comes of it, in order: what is reported, signalled and set, what the core is asked to do, and
  -- a method called at the moment of this number.
  pub data Heard : Type 0 where
    mismatch : Heard
    server_time_received : ℕ → Heard
    called : ℕ → Call p → Heard
    signalled : List Signal → Heard
    asked_core : List CoreOp → Heard
    entity_relevance_lost : ℕ → Heard
    taken : ℕ → Outcome p → Heard
    gave_up : List ℕ → Heard
    granted_rate : Option ℕ → Heard

  unfoldable pub heard : ℕ → Option (Call p) → List Heard
  heard n none = []
  heard n (some c) = called n c ∷ []

  unfoldable pub heard_lost : Option ℕ → List Heard
  heard_lost none = []
  heard_lost (some sync) = entity_relevance_lost sync ∷ []

  module _ {Callable : Type 0} where
    -- ClientHost::message: the server's id is 1.
    unfoldable pub host_message :
        Client Callable → Moment Callable → List ℕ → Client Callable × Option (Call p)
    host_message s m bytes =
        let (messages, call) = deliver_message p s.messages m.world 1 bytes in
        (record s { messages = elim call [ none ↦ messages | some _ ↦ m.rpcs messages ] }, call)

    -- ClientHost::spawn
    unfoldable pub host_spawn :
        Client Callable → Moment Callable → ℕ → ℕ → List ℕ → Client Callable × List Signal × Bool
    host_spawn s m net_id spawner_net_id bytes =
        let (registry, signals, took) =
          spawn p s.registry m.build m.node_at net_id spawner_net_id bytes in
        (record s { registry = registry }, signals, took)

    -- ClientHost::despawn
    unfoldable pub host_despawn :
        Client Callable → Moment Callable → ℕ → Client Callable × List CoreOp × List Signal
    host_despawn s m net_id =
        let (registry, ops, signals) = apply_despawn p s.registry m.parting net_id in
        (record s { registry = registry }, ops, signals)

    -- ClientHost::entity. The codings are held with their keys.
    unfoldable pub host_entity :
        Client Callable → Moment Callable → EntityUpdate p → Client Callable × Outcome p
    host_entity s m u =
        let (codings, out) = entity p s.codings m.scene s.registry.ids m.local_sync u in
        (
          record s {
            codings = codings;
            registry = record (s.registry) {
              client_slot_codings = keys codings.client_slot_codings;
            };
          },
          out,
        )

    -- The end of apply_snapshot.
    unfoldable pub finish : Client Callable → List ℕ → Option ℕ → Client Callable × List Heard
    finish s given_up granted =
        let (warned, rate, warns, changed) =
          apply_snapshot s.warned_given_up s.update_rate_granted given_up granted in
        (
          record s { warned_given_up = warned; update_rate_granted = rate },
          gave_up warns ∷ (if changed then granted_rate granted ∷ [] else []),
        )

    -- The host's calls for a snapshot, from the moment of number n on.
    unfoldable pub take :
        Client Callable → (ℕ → Moment Callable) → ℕ → Snapshot → Client Callable × List Heard
    take s m n (applied given_up granted) = finish s given_up granted
    take s m n (protocol_mismatch rest) =
        let after = take s m (suc n) rest in (after.0, mismatch ∷ after.1)
    take s m n (server_time ms rest) =
        let after = take s m (suc n) rest in (after.0, server_time_received ms ∷ after.1)
    take s m n (message bytes rest) =
        let (s1, call) = host_message s (m n) bytes in
        let after = take s1 m (suc n) rest in (after.0, heard n call ++ after.1)
    take s m n (spawn_record net_id spawner_net_id bytes rest) =
        let (s1, signals, took) = host_spawn s (m n) net_id spawner_net_id bytes in
        let after = take s1 m (suc n) (rest took) in (after.0, signalled signals ∷ after.1)
    take s m n (despawn net_id rest) =
        let (s1, ops, signals) = host_despawn s (m n) net_id in
        let after = take s1 m (suc n) rest in
        (after.0, asked_core ops ∷ signalled signals ∷ after.1)
    take s m n (relevance net_id rest) =
        let lost = relevance_lost (m n).scene s.registry.ids net_id in
        let after = take s m (suc n) rest in (after.0, heard_lost lost ++ after.1)
    take s m n (entity_update u rest) =
        let (s1, out) = host_entity s (m n) u in
        let after = take s1 m (suc n) (rest out.result out.values) in
        (after.0, taken u.net_id out ∷ after.1)

    -- GoldNetLink::_gn_recv, of what the core makes of the bytes; is_goldnet where the node's
    -- MultiplayerAPI is a GoldNetMultiplayer. It asks neither who sent them nor which end this is.
    unfoldable pub gn_recv :
        (List ℕ → Snapshot)
        → Client Callable
        → (ℕ → Moment Callable)
        → Bool
        → List ℕ
        → Client Callable × List Heard
    gn_recv apply s m is_goldnet bytes =
        let got = take s m 0 (apply bytes) in if is_goldnet then got else (s, [])
