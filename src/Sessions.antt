-- ===== src/Sessions.antt =====
-- Sessions and peers, in src/goldnet_multiplayer.cpp: what GoldNetMultiplayer forgets when a peer goes or
-- a session ends (_forget_peer, _end_server_session, _reset_client_state), what it does at the inner
-- API's signals (the _relay_ handlers), and the change of its peer (_set_multiplayer_peer).
pub mod Forgetting
pub mod Kept
mod Examples
use goldnet_godot.Common.{
  ℕ, Bool, true, false, ◌&&◌, ◌||◌, not, ◌≡◌, Option, none, some, List, [], ◌∷◌, ◌++◌, HashMap,
  HashSet, contains, ◌==◌, if◌then◌else◌,
}
use goldnet_godot.Platform.{Platform}
use goldnet_godot.NetIds.{forget_learned}
use goldnet_godot.Messages.{Messages, forget_peer, forget_peers}
use goldnet_godot.Registry.{Registry}
use goldnet_godot.Registry.Spawning.{capture_spawners}

-- The core's server as far as its peers go: peers, add_peer and remove_peer.
pub record CoreServer : Type 1 where
  pub S : Type 0
  pub peers : S → List ℕ
  pub add_peer : S → ℕ → S
  pub remove_peer : S → ℕ → S
  pub peers-add_peer :
      (s : S) (j k : ℕ) → contains (peers (add_peer s j)) k ≡ (j == k || contains (peers s) k)
  pub peers-remove_peer :
      (s : S) (j k : ℕ)
      → contains (peers (remove_peer s j)) k ≡ (not (j == k) && contains (peers s) k)

-- What the engine and the core are asked besides: Client's reset and set_auto_command_rate, the send
-- sim's forget_link, hold_enet_throttle, the signals, the inner's set_multiplayer_peer, of the game's own
-- peer or of a receive sim around it, and the peer's disconnect_peer and close.
pub data SessionOp : Type 0 where
  client_reset set_auto_command_rate : SessionOp
  forget_link hold_enet_throttle : ℕ → SessionOp
  emit_peer_connected emit_peer_disconnected : ℕ → SessionOp
  emit_connected_to_server emit_connection_failed emit_server_disconnected : SessionOp
  set_inner_peer set_inner_recv_peer : SessionOp
  disconnect_peer : ℕ → SessionOp
  close_peer : SessionOp

module _ (p : Platform) (c : CoreServer) where
  open c use {S, peers, add_peer, remove_peer}

  -- The members of GoldNetMultiplayer that sessions touch; no rate granted is the -1 of the source.
  pub record Session (Callable : Type 0) : Type 0 where
    pub server : S
    pub registry : Registry p Callable
    pub messages : Messages
    pub warned_kinds : HashSet
    pub warned_given_up : HashSet
    pub update_rate_granted : Option ℕ
    pub has_recv_peer : Bool

  module _ {Callable : Type 0} where
    -- _reset_client_state
    unfoldable pub reset_client_state : Session Callable → Session Callable × List SessionOp
    reset_client_state s = (
      record s {
        registry = record (s.registry) {
          ids = forget_learned s.registry.ids;
          client_spawned = [];
          client_slot_codings = [];
        };
        warned_kinds = [];
        warned_given_up = [];
        update_rate_granted = none;
        messages = forget_peers s.messages;
      },
      client_reset ∷ set_auto_command_rate ∷ [],
    )

    -- _forget_peer
    unfoldable pub drop_peer : Session Callable → ℕ → Session Callable × List SessionOp
    drop_peer s k = (
      record s { server = remove_peer s.server k; messages = forget_peer s.messages k },
      forget_link k ∷ [],
    )

    unfoldable pub drop_peers : Session Callable → List ℕ → Session Callable × List SessionOp
    drop_peers s [] = (s, [])
    drop_peers s (k ∷ ks) =
        let (s1, ops) = drop_peer s k in let rest = drop_peers s1 ks in (rest.0, ops ++ rest.1)

    -- _end_server_session
    unfoldable pub end_server_session : Session Callable → Session Callable × List SessionOp
    end_server_session s = drop_peers s (peers s.server)

    -- _check_overflow of a peer: whether there is a peer and this end is the server, and whether the core
    -- says that the reliable channel overflowed.
    unfoldable pub check_overflow :
        Session Callable → Bool → Bool → Bool → ℕ → Session Callable × List SessionOp
    check_overflow s has_peer is_host overflowed k =
        if not (has_peer && overflowed)
        then (s, [])
        else if is_host
        then (record s { server = remove_peer s.server k }, disconnect_peer k ∷ [])
        else (s, client_reset ∷ close_peer ∷ [])

    -- _relay_peer_connected; is_host where the inner's id is 1.
    unfoldable pub relay_peer_connected :
        Session Callable → Bool → ℕ → Session Callable × List SessionOp
    relay_peer_connected s is_host k = (
      if is_host then record s { server = add_peer s.server k } else s,
      hold_enet_throttle k ∷ emit_peer_connected k ∷ [],
    )

    -- _relay_peer_disconnected
    unfoldable pub relay_peer_disconnected :
        Session Callable → ℕ → Session Callable × List SessionOp
    relay_peer_disconnected s k =
        let (s1, ops) = drop_peer s k in (s1, ops ++ emit_peer_disconnected k ∷ [])

    -- _relay_connected_to_server
    unfoldable pub relay_connected_to_server : Session Callable → Session Callable × List SessionOp
    relay_connected_to_server s =
        let (s1, ops) = reset_client_state s in (s1, ops ++ emit_connected_to_server ∷ [])

    -- _relay_connection_failed
    unfoldable pub relay_connection_failed : Session Callable → Session Callable × List SessionOp
    relay_connection_failed s = (s, emit_connection_failed ∷ [])

    -- _relay_server_disconnected
    unfoldable pub relay_server_disconnected : Session Callable → Session Callable × List SessionOp
    relay_server_disconnected s =
        let (s1, ended) = end_server_session s in
        let (s2, reset) = reset_client_state s1 in
        (s2, ended ++ (reset ++ forget_link 1 ∷ emit_server_disconnected ∷ []))

    -- _set_multiplayer_peer, with the spawners in the tree, if there is one yet, and the new peer's id, if
    -- there is a peer. A client's peer goes in behind the receive sim.
    unfoldable pub set_multiplayer_peer :
        Session Callable
        → Option (List (ℕ × Callable))
        → Option ℕ
        → Session Callable × List SessionOp
    set_multiplayer_peer s found peer =
        let captured : Session Callable = record s {
          registry = capture_spawners p s.registry found;
        } in
        let (s1, ended) = end_server_session captured in
        let is_client = elim peer as (λ _. Bool) [ none ↦ false | some k ↦ not (k == 1) ] in
        (
          record s1 { has_recv_peer = is_client },
          ended ++ (if is_client then set_inner_recv_peer else set_inner_peer) ∷ [],
        )
