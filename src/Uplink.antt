-- ===== src/Uplink.antt =====
-- An uplink packet on its way to the server, in src/goldnet_link.cpp (_gn_up) and
-- src/goldnet_multiplayer.cpp (on_uplink and UplinkHost). What goldnet::Server makes of a packet is a
-- parameter: a tree of the questions that it asks its host. The engine's answers while one of them is
-- answered, and what the called method does to the messages meanwhile, are arguments.
pub mod Permission
mod Examples
use goldnet_godot.Common.{
  ℕ, zero, suc, Bool, true, false, String, Option, none, some, List, [], ◌∷◌, ◌++◌, ◌==◌,
  if◌then◌else◌,
}
use goldnet_godot.Platform.{Platform, Variant}
use goldnet_godot.Messages.{Messages, World, Call, deliver_message}
use goldnet_godot.Commands.{Field, Dictionaries}
use goldnet_godot.Commands.Signatures.{FieldKind}
use goldnet_godot.Commands.Targets.{CommandTarget, Tree, Targets, command_target, deliver_command}
use goldnet_godot.Senders.{get_remote_sender_id}

-- What goldnet::Server::receive_uplink asks of its host for a packet, in order, and the server's state
-- after it. A stream's schema is answered before what follows.
pub data Packet (S F : Type 0) : Type 0 where
  received : S → Packet S F
  protocol_mismatch : ℕ → Packet S F → Packet S F
  command_schema : ℕ → ℕ → (Option (List FieldKind) → Packet S F) → Packet S F
  command : ℕ → ℕ → List (Field F) → Packet S F → Packet S F
  message : ℕ → List ℕ → Packet S F → Packet S F

-- What is answered during one of the host's calls: the nodes, which objects are still there, the scene
-- tree, the clock, and what a method that is called does to the messages by its own RPCs.
pub record Moment : Type 0 where
  pub world : World
  pub alive : ℕ → Bool
  pub tree : Option Tree
  pub now_ms : ℕ
  pub rpcs : Messages → Messages

module _ (p : Platform) (hash : String → ℕ) (max_command_fields : ℕ) where
  open p use {F, O}

  -- The members of GoldNetMultiplayer that an uplink packet touches.
  pub record Server (S : Type 0) : Type 0 where
    pub server : S
    pub messages : Messages
    pub targets : Targets
    pub command_sender : ℕ

  -- What comes of it: a mismatch reported of a peer, a method called, at the moment of this number.
  pub data Heard : Type 0 where
    mismatch : ℕ → Heard
    called : ℕ → Call p → Heard

  unfoldable pub heard : ℕ → Option (Call p) → List Heard
  heard n none = []
  heard n (some c) = called n c ∷ []

  module _ {S : Type 0} (blank : Field F) (dict : Dictionaries (Variant F O)) where
    -- UplinkHost::command_schema
    unfoldable pub host_command_schema : Server S → Moment → ℕ → Server S × Option (List FieldKind)
    host_command_schema s m stream =
        let found =
          command_target hash max_command_fields s.targets m.alive m.tree m.now_ms stream in
        (record s { targets = found.0 }, elim found.1 [ none ↦ none | some t ↦ some t.sig.kinds ])

    -- UplinkHost::command
    unfoldable pub host_command :
        Server S → Moment → ℕ → ℕ → List (Field F) → Server S × Option (Call p)
    host_command s m peer stream cmd =
        let (targets, call) =
          deliver_command hash max_command_fields p blank dict m.world s.targets m.alive m.tree
            m.now_ms peer stream cmd in
        (
          record s {
            targets = targets;
            messages = elim call [ none ↦ s.messages | some _ ↦ m.rpcs s.messages ];
          },
          call,
        )

    -- UplinkHost::message
    unfoldable pub host_message : Server S → Moment → ℕ → List ℕ → Server S × Option (Call p)
    host_message s m peer bytes =
        let (messages, call) = deliver_message p s.messages m.world peer bytes in
        (record s { messages = elim call [ none ↦ messages | some _ ↦ m.rpcs messages ] }, call)

    -- The host's calls for a packet, from the moment of number n on.
    unfoldable pub serve : Server S → (ℕ → Moment) → ℕ → Packet S F → Server S × List Heard
    serve s m n (received server) = (record s { server = server }, [])
    serve s m n (protocol_mismatch peer rest) =
        let after = serve s m (suc n) rest in (after.0, mismatch peer ∷ after.1)
    serve s m n (command_schema peer stream rest) =
        let asked = host_command_schema s (m n) stream in serve asked.0 m (suc n) (rest asked.1)
    serve s m n (command peer stream cmd rest) =
        let (s1, call) = host_command s (m n) peer stream cmd in
        let after = serve s1 m (suc n) rest in (after.0, heard n call ++ after.1)
    serve s m n (message peer bytes rest) =
        let (s1, call) = host_message s (m n) peer bytes in
        let after = serve s1 m (suc n) rest in (after.0, heard n call ++ after.1)

    -- on_uplink, with the core's receive_uplink, of a peer's bytes at a time.
    unfoldable pub on_uplink :
        (S → ℕ → List ℕ → ℕ → Packet S F)
        → Server S
        → (ℕ → Moment)
        → ℕ
        → ℕ
        → ℕ
        → List ℕ
        → Server S × List Heard
    on_uplink receive_uplink s m unique_id now peer bytes =
        let taken = serve s m 0 (receive_uplink s.server peer bytes now) in
        if unique_id == 1 then taken else (s, [])

    -- GoldNetLink::_gn_up, of an RPC that the inner API says came from of_inner; is_goldnet where the
    -- node's MultiplayerAPI is a GoldNetMultiplayer.
    unfoldable pub gn_up :
        (S → ℕ → List ℕ → ℕ → Packet S F)
        → Server S
        → (ℕ → Moment)
        → Bool
        → ℕ
        → ℕ
        → ℕ
        → List ℕ
        → Server S × List Heard
    gn_up receive_uplink s m is_goldnet unique_id now of_inner bytes =
        let taken =
          on_uplink receive_uplink s m unique_id now
            (get_remote_sender_id s.command_sender of_inner) bytes in
        if is_goldnet then taken else (s, [])
