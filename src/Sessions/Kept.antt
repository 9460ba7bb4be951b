-- ===== src/Sessions/Kept.antt =====
-- No state of a gone peer is left, whatever the order of signals, calls and deliveries.
use goldnet_godot.Common.{
  ℕ, Bool, true, false, ◌&&◌, ◌||◌, not, ◌≡◌, refl, ap, ◌∙◌, String, Option, List, [], ◌∷◌, get,
  put, get-put, discard, contains-discard, if◌then◌else◌, has, contains, nat_eq, string_eq, ◌==◌,
  arith,
}
use goldnet_godot.Platform.{Platform, Variant}
use goldnet_godot.Messages.{
  init, Messages, Stats, World, key, msg_id, is_known, put_call, put_registration, at_peer,
  queue_call, send_message, deliver_to, deliver_message, forget_peers,
}
use goldnet_godot.Registry.Spawning.{capture_spawners}
use goldnet_godot.Sessions.{
  CoreServer, Session, drop_peers, end_server_session, reset_client_state, relay_peer_connected,
  relay_peer_disconnected, relay_connected_to_server, relay_connection_failed,
  relay_server_disconnected, set_multiplayer_peer, check_overflow,
}
use goldnet_godot.Sessions.Forgetting.{drop_peers_forgets}

-- Whether anything is kept of a peer's messages.
unfoldable pub knows : Messages → ℕ → Bool
knows m k = has m.msg_registered k || has m.msg_targets k

knows_nothing :
    (m : Messages) (k : ℕ)
    → knows m k ≡ false
    → (at_peer m.msg_registered k ≡ []) × (at_peer m.msg_targets k ≡ [])
unfolding knows has at_peer
knows_nothing m k h = (ground arith, ground arith)

knows-init : (k : ℕ) → knows init k ≡ false
unfolding knows has init get
knows-init k = refl

module _ (p : Platform) where
  open p use {F, O}

  knows-msg_id : (m : Messages) (name : String) (k : ℕ) → knows (msg_id m name).0 k ≡ knows m k
  unfolding msg_id knows
  knows-msg_id m name k = ground arith

  knows-queue_call :
      (m : Messages) (st : Stats) (peer i : ℕ) (registration call : List ℕ) (rel : Bool) (k : ℕ)
      → knows (queue_call p m st peer i registration call rel).0 k ≡ (peer == k || knows m k)
  unfolding queue_call knows has
  knows-queue_call m st peer i registration call rel k =
      let r = at_peer m.msg_registered peer in
      ground (
        arith,
        get-put m.msg_registered peer k r,
        get-put m.msg_registered peer k (put r i st.queued),
      )

  -- A call leaves something kept of its own peer, and of the others what there was.
  pub knows-send_message :
      (m : Messages) (st : Stats) (peer : ℕ) (path method : String) (args : List (Variant F O))
      (rel : Bool) (k : ℕ)
      → knows (send_message p m st peer path method args rel).0 k ≡ (peer == k || knows m k)
  unfolding send_message
  knows-send_message m st peer path method args rel k =
      let s1 = (msg_id m (key path method)).0 in
      let i = (msg_id m (key path method)).1 in
      let r = at_peer s1.msg_registered peer in
      let call = put_call p (rel || is_known (get r i) st.delivered) i path method args in
      let refused : knows (record s1 { msg_registered = put s1.msg_registered peer r }) k
          ≡ (peer == k || knows s1 k) =
        unfold knows has in ground (arith, get-put s1.msg_registered peer k r) in
      ground (
        arith,
        refused,
        knows-msg_id m (key path method) k,
        knows-queue_call s1 st peer i (put_registration p i path method) call rel k,
      )

  pub knows-deliver_message :
      (m : Messages) (w : World) (from : ℕ) (bytes : List ℕ) (k : ℕ)
      → knows (deliver_message p m w from bytes).0 k ≡ (from == k || knows m k)
  unfolding deliver_message knows has
  knows-deliver_message m w from bytes k = ground (
    arith,
    get-put m.msg_targets from k (deliver_to p (at_peer m.msg_targets from) w from bytes).0,
  )

  module _ (c : CoreServer) {Callable : Type 0} where
    open c use {peers}

    -- A call on the netchan that is taken: the message, and then the check for an overflow.
    abbrev pub call :
        Session p c Callable
        → Stats
        → ℕ
        → String
        → String
        → List (Variant F O)
        → Bool
        → Bool
        → Bool
        → Bool
        → Session p c Callable
    call s st peer path method args rel has_peer is_host overflowed =
        let sending = send_message p s.messages st peer path method args rel in
        let s1 : Session p c Callable = record s { messages = sending.0 } in
        if sending.2 then (check_overflow p c s1 has_peer is_host overflowed peer).0 else s1

    -- A step of a session: the inner's signals, the change of the peer, and calls to and messages from the
    -- peers. `away` are the peers that the core was told to drop for an overflow and whose disconnection
    -- the inner has not signalled: they are not the core's any more, and may still be called and heard.
    pub data Step (s : Session p c Callable) (away : List ℕ)
        : Session p c Callable → List ℕ → Type 0 where
      joins : (is_host : Bool) (k : ℕ) → Step s away (relay_peer_connected p c s is_host k).0 away
      leaves : (k : ℕ) → Step s away (relay_peer_disconnected p c s k).0 (discard away k)
      connects : Step s away (relay_connected_to_server p c s).0 []
      fails : Step s away (relay_connection_failed p c s).0 away
      closes : Step s away (relay_server_disconnected p c s).0 []
      swaps :
          (found : Option (List (ℕ × Callable))) (peer : Option ℕ)
          → Step s away (set_multiplayer_peer p c s found peer).0 away
      calls :
          (st : Stats) (peer : ℕ) (path method : String) (args : List (Variant F O)) (rel : Bool)
          (has_peer is_host overflowed : Bool)
          → (contains (peers s.server) peer || peer == 1 || contains away peer) ≡ true
          → Step s away
              (call s st peer path method args rel has_peer is_host overflowed)
              (if has_peer && overflowed && is_host then peer ∷ away else away)
      hears :
          (w : World) (from : ℕ) (bytes : List ℕ)
          → (contains (peers s.server) from || from == 1 || contains away from) ≡ true
          → Step s away (record s { messages = (deliver_message p s.messages w from bytes).0 }) away

    -- Whatever is kept of messages is kept of a peer of the core, of the server, or of one that is away.
    abbrev pub Kept : Session p c Callable → List ℕ → Type 0
    Kept s away =
        (k : ℕ)
        → knows s.messages k ≡ true
        → (contains (peers s.server) k || k == 1 || contains away k) ≡ true

    -- Peers that are dropped are gone from the core, and all that is kept of their messages.
    knows-drop_peers :
        (s : Session p c Callable) (ks : List ℕ) (k : ℕ)
        → let s1 = (drop_peers p c s ks).0 in
          (contains (peers s1.server) k ≡ (not (contains ks k) && contains (peers s.server) k))
          × (knows s1.messages k ≡ (not (contains ks k) && knows s.messages k))
    unfolding knows has
    knows-drop_peers s ks k =
        let (gone, registered, targets, links, same, ids) = drop_peers_forgets p c s ks k in
        (gone, ground (arith, registered, targets))

    -- Every step of a session keeps it that registrations and targets are kept only of the core's peers,
    -- of the server, and of peers dropped for an overflow whose disconnection is still to be signalled.
    pub Step-Kept :
        {s t : Session p c Callable} {away away' : List ℕ}
        → Step s away t away'
        → Kept s away
        → Kept t away'
    unfolding relay_peer_connected relay_peer_disconnected relay_connected_to_server
        relay_connection_failed relay_server_disconnected set_multiplayer_peer reset_client_state
        forget_peers check_overflow
    Step-Kept {s} (joins is_host k) kept j h = ground (arith, kept j, c.peers-add_peer s.server k j)
    Step-Kept {s} {away = away} (leaves k) kept j h =
        unfold drop_peers in
        ground (arith, kept j, knows-drop_peers s (k ∷ []) j, contains-discard away k j)
    Step-Kept {s} connects kept j h = unfold knows has get in absurd (ground (arith, h))
    Step-Kept {s} fails kept j h = kept j h
    Step-Kept {s} closes kept j h = unfold knows has get in absurd (ground (arith, h))
    Step-Kept {s} (swaps found peer) kept j h =
        let captured : Session p c Callable = record s {
          registry = capture_spawners p s.registry found;
        } in
        unfold end_server_session in
        ground (arith, kept j, knows-drop_peers captured (peers s.server) j)
    Step-Kept {s} (calls st peer path method args rel has_peer is_host overflowed at) kept j h =
        ground (
          arith,
          kept j,
          at,
          h,
          knows-send_message s.messages st peer path method args rel j,
          c.peers-remove_peer s.server peer j,
        )
    Step-Kept {s} (hears w from bytes at) kept j h =
        ground (arith, kept j, at, knows-deliver_message s.messages w from bytes j)

    -- The sessions that GoldNetMultiplayer comes to, from its start without messages, with the peers that
    -- are away.
    pub data Reach : Session p c Callable → List ℕ → Type 0 where
      start : (s : Session p c Callable) → s.messages ≡ init → Reach s []
      later :
          {s t : Session p c Callable} {away away' : List ℕ}
          → Reach s away
          → Step s away t away'
          → Reach t away'

    pub Reach-Kept : {s : Session p c Callable} {away : List ℕ} → Reach s away → Kept s away
    Reach-Kept (start s e) k h =
        let nothing = ap (λ (m : Messages). knows m k) e ∙ knows-init k in absurd (ground arith)
    Reach-Kept (later r st) k h = Step-Kept st (Reach-Kept r) k h

    -- Whatever came before, once the game changes its peer no peer is the core's, and none but the
    -- server's own id and the peers that are away, dropped for an overflow with no disconnection
    -- signalled since, has a registration or a target left; of a peer that was not the core's, the
    -- registrations stay as they were. Once a server disconnects, or this end has connected to one, none
    -- has any registration or target.
    pub Reach_forgets :
        (s : Session p c Callable) (away : List ℕ) (k : ℕ) (found : Option (List (ℕ × Callable)))
        (peer : Option ℕ)
        → Reach s away
        → let swapped = (set_multiplayer_peer p c s found peer).0 in
          let closed = (relay_server_disconnected p c s).0 in
          let connected = (relay_connected_to_server p c s).0 in
          (contains (peers swapped.server) k ≡ false)
          × ((k == 1 || contains away k) ≡ false
              → (at_peer swapped.messages.msg_registered k ≡ [])
                × (at_peer swapped.messages.msg_targets k ≡ []))
          × (contains (peers s.server) k ≡ false
              → get swapped.messages.msg_registered k ≡ get s.messages.msg_registered k)
          × (contains (peers closed.server) k ≡ false)
          × (at_peer closed.messages.msg_registered k ≡ [])
          × (at_peer closed.messages.msg_targets k ≡ [])
          × (at_peer connected.messages.msg_registered k ≡ [])
          × (at_peer connected.messages.msg_targets k ≡ [])
    unfolding relay_connected_to_server relay_server_disconnected set_multiplayer_peer
        reset_client_state forget_peers end_server_session
    Reach_forgets s away k found peer r =
        let captured : Session p c Callable = record s {
          registry = capture_spawners p s.registry found;
        } in
        let swapped = (set_multiplayer_peer p c s found peer).0 in
        let ended = knows-drop_peers captured (peers s.server) k in
        let registered = (drop_peers_forgets p c captured (peers s.server) k).1 in
        let closing = knows-drop_peers s (peers s.server) k in
        let nothing = knows_nothing (forget_peers s.messages) k (unfold knows has get in refl) in
        (
          ground (arith, ended),
          λ other. knows_nothing swapped.messages k (ground (arith, Reach-Kept r k, ended, other)),
          λ gone. ground (arith, gone, registered),
          ground (arith, closing),
          nothing.0,
          nothing.1,
          nothing.0,
          nothing.1,
        )
