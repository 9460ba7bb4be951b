-- ===== src/Uplink/Permission.antt =====
-- Whose calls an uplink packet makes.
use goldnet_godot.Common.{
  ℕ, suc, ◌≡◌, refl, ◌==◌, Bool, false, Bool-cases, String, Option, none, some, List, [], All,
  All-append, arith, inl, inr,
}
use mathlib.Core.Path.{subst}
use goldnet_godot.Platform.{Platform, Variant}
use goldnet_godot.Messages.{Call}
use goldnet_godot.Messages.Permission.{Permitted, deliver_message-Permitted}
use goldnet_godot.Commands.{Field, Dictionaries}
use goldnet_godot.Commands.Signatures.{FieldKind}
use goldnet_godot.Commands.Targets.{deliver_command}
use goldnet_godot.Commands.Scans.{Filed, command_target-Filed}
use goldnet_godot.Commands.Permission.{deliver_command-Permitted}
use goldnet_godot.Senders.{get_remote_sender_id}
use goldnet_godot.Uplink.{
  Packet, received, protocol_mismatch, command_schema, command, message, Moment, Server, Heard,
  mismatch, called, heard, host_command_schema, host_command, host_message, serve, on_uplink, gn_up,
}

-- The core names the peer whose packet it is, whatever schemas it is answered.
abbrev pub OfPeer : {S F : Type 0} → ℕ → Packet S F → Type 0
OfPeer peer (received s) = Unit
OfPeer peer (protocol_mismatch k rest) = (k ≡ peer) × OfPeer peer rest
OfPeer peer (command_schema k stream rest) =
    (k ≡ peer) × ((a : Option (List FieldKind)) → OfPeer peer (rest a))
OfPeer peer (command k stream cmd rest) = (k ≡ peer) × OfPeer peer rest
OfPeer peer (message k bytes rest) = (k ≡ peer) × OfPeer peer rest

module _ (p : Platform) (hash : String → ℕ) (max_command_fields : ℕ) where
  open p use {F, O}

  -- What is heard is of the peer, and a call is one that the peer may make at the moment it is made.
  abbrev pub FromPeer : (ℕ → Moment) → ℕ → Heard p hash max_command_fields → Type 0
  FromPeer m peer (mismatch k) = k ≡ peer
  FromPeer m peer (called n c) = Permitted p (m n).world peer c

  heard-FromPeer :
      (m : ℕ → Moment) (peer n : ℕ) (call : Option (Call p))
      → ((c : Call p) → call ≡ some c → Permitted p (m n).world peer c)
      → All (FromPeer m peer) (heard p hash max_command_fields n call)
  unfolding heard
  heard-FromPeer m peer n none h = tt
  heard-FromPeer m peer n (some c) h = (h c refl, tt)

  module _ {S : Type 0} (blank : Field F) (dict : Dictionaries (Variant F O)) where
    abbrev serves :
        Server p hash max_command_fields S
        → (ℕ → Moment)
        → ℕ
        → Packet S F
        → Server p hash max_command_fields S × List (Heard p hash max_command_fields)
    serves = serve p hash max_command_fields blank dict

    -- Where the packet is of one peer, so is all that is heard, every call is one that the peer may make at
    -- the moment it is made, and the targets stay under their signatures' ids.
    pub serve-FromPeer :
        (s : Server p hash max_command_fields S) (m : ℕ → Moment) (n peer : ℕ) (k : Packet S F)
        → OfPeer peer k
        → Filed s.targets.command_targets
        → All (FromPeer m peer) (serves s m n k).1
          × Filed (serves s m n k).0.targets.command_targets
    unfolding serve host_command_schema host_command host_message deliver_command
    serve-FromPeer s m n peer (received server) of_peer filed = (tt, filed)
    serve-FromPeer s m n peer (protocol_mismatch k rest) (same, of_peer) filed =
        let (a, f) = serve-FromPeer s m (suc n) peer rest of_peer filed in ((same, a), f)
    serve-FromPeer s m n peer (command_schema k stream rest) (same, of_peer) filed =
        let asked = host_command_schema p hash max_command_fields blank dict s (m n) stream in
        let kept =
          command_target-Filed hash max_command_fields s.targets (m n).alive (m n).tree (m n).now_ms
            stream filed in
        serve-FromPeer asked.0 m (suc n) peer (rest asked.1) (of_peer asked.1) kept.0
    serve-FromPeer s m n peer (command k stream cmd rest) (same, of_peer) filed =
        let (s1, call) = host_command p hash max_command_fields blank dict s (m n) k stream cmd in
        let kept =
          command_target-Filed hash max_command_fields s.targets (m n).alive (m n).tree (m n).now_ms
            stream filed in
        let (a, f) = serve-FromPeer s1 m (suc n) peer rest of_peer kept.0 in
        (
          All-append (FromPeer m peer) (heard p hash max_command_fields n call)
              (serves s1 m (suc n) rest).1
              (heard-FromPeer m peer n call (λ c e.
                subst (λ j. Permitted p (m n).world j c) same
                  (deliver_command-Permitted hash max_command_fields p blank dict (m n).world
                    s.targets (m n).alive (m n).tree (m n).now_ms k stream cmd c filed e).0))
              a,
          f,
        )
    serve-FromPeer s m n peer (message k bytes rest) (same, of_peer) filed =
        let (s1, call) = host_message p hash max_command_fields blank dict s (m n) k bytes in
        let (a, f) = serve-FromPeer s1 m (suc n) peer rest of_peer filed in
        (
          All-append (FromPeer m peer) (heard p hash max_command_fields n call)
              (serves s1 m (suc n) rest).1
              (heard-FromPeer m peer n call (λ c e.
                subst (λ j. Permitted p (m n).world j c) same
                  (deliver_message-Permitted p s.messages (m n).world k bytes c e)))
              a,
          f,
        )

    -- A packet that comes in by the carrier node's RPC, whatever its bytes, makes calls of the RPC's
    -- sender only, each of an @rpc method that the node's authority lets that sender call when it is
    -- made, and none on an end that is not the server; the targets stay under their signatures' ids. The
    -- core is taken to name the peer whose packet it is given, and no other call is being delivered.
    pub gn_up-FromPeer :
        (receive_uplink : S → ℕ → List ℕ → ℕ → Packet S F) (s : Server p hash max_command_fields S)
        (m : ℕ → Moment) (is_goldnet : Bool) (unique_id now of_inner : ℕ) (bytes : List ℕ)
        → ((t : S) (k : ℕ) (b : List ℕ) (ms : ℕ) → OfPeer k (receive_uplink t k b ms))
        → s.command_sender ≡ 0
        → Filed s.targets.command_targets
        → let (s1, hears) =
            gn_up p hash max_command_fields blank dict receive_uplink s m is_goldnet unique_id now
              of_inner bytes in
          All (FromPeer m of_inner) hears
          × Filed s1.targets.command_targets
          × ((unique_id == 1) ≡ false → hears ≡ [])
    unfolding gn_up on_uplink
    gn_up-FromPeer receive_uplink s m is_goldnet unique_id now of_inner bytes core top filed =
        let taken =
          serve-FromPeer s m 0 of_inner (receive_uplink s.server of_inner bytes now)
            (core s.server of_inner bytes now) filed in
        let sender : get_remote_sender_id s.command_sender of_inner ≡ of_inner =
          unfold get_remote_sender_id in ground (arith, top) in
        elim (Bool-cases is_goldnet) [
          | inr other ↦ rw (other, gn_up) (tt, filed, λ e. refl)
          | inl ours ↦ elim (Bool-cases (unique_id == 1)) [
            | inr client ↦ rw (ours, client, gn_up, on_uplink) (tt, filed, λ e. refl)
            | inl host ↦
                rw (ours, host, sender, gn_up, on_uplink) (taken.0, taken.1, λ e. ground arith)
          ]
        ]
