-- ===== src/Sessions/Examples.antt =====
-- Tests of sessions, at a host with one peer.
use goldnet_godot.Common.{
  ℕ, true, false, ◌≡◌, refl, none, List, [], contains, discard, insert, contains-insert,
  contains-discard, ◌==◌, ◌||◌, get, nat_eq, ◌∷◌,
}
use goldnet_godot.Platform.Toy.{toy}
use goldnet_godot.NetIds
use goldnet_godot.Messages
use goldnet_godot.Messages.{Stats, at_peer}
use goldnet_godot.Sessions.{
  CoreServer, Session, relay_peer_connected, relay_connected_to_server, relay_server_disconnected,
  set_multiplayer_peer, check_overflow,
}
use goldnet_godot.Sessions.Kept.{
  call, Step, joins, calls, Kept, Step-Kept, Reach, Reach-Kept, start, later, Reach_forgets,
}

-- A core whose peers are a set.
abbrev core : CoreServer
core = record {
  S = List ℕ;
  peers = λ s. s;
  add_peer = insert;
  remove_peer = discard;
  peers-add_peer = contains-insert;
  peers-remove_peer = contains-discard;
}

abbrev started : Session toy core ℕ
started = record {
  server = [];
  registry = record {
    ids = NetIds.init;
    owned = [];
    bind_ids = [];
    entities_to_add = [];
    spawners = [];
    spawners_scanned = false;
    pending_spawns = [];
    server_spawned = [];
    client_spawned = [];
    client_slot_codings = [];
    dirty_route = [];
  };
  messages = Messages.init;
  warned_kinds = [];
  warned_given_up = [];
  update_rate_granted = none;
  has_recv_peer = false;
}

abbrev joined : Session toy core ℕ
joined = (relay_peer_connected toy core started true 2).0

abbrev unsent : Stats
unsent = record { queued = 0; delivered = 0 }

-- A reliable call to the peer that joined, whose channel then overflows.
abbrev called : Session toy core ℕ
called = call toy core joined unsent 2 "/root/Player" "hit" [] true true true true

call_step : Step toy core joined [] called (2 ∷ [])
unfolding relay_peer_connected insert
call_step = calls unsent 2 "/root/Player" "hit" [] true true true true refl

called-Reach : Reach toy core called (2 ∷ [])
called-Reach = later (later (start started refl) (joins true 2)) call_step

Step-Kept_example : Kept toy core called (2 ∷ [])
Step-Kept_example =
    Step-Kept toy core call_step (Reach-Kept toy core (later (start started refl) (joins true 2)))

Reach_forgets_example :
    let swapped = (set_multiplayer_peer toy core called none none).0 in
    let closed = (relay_server_disconnected toy core called).0 in
    let connected = (relay_connected_to_server toy core called).0 in
    (contains (core.peers swapped.server) 2 ≡ false)
    × ((2 == 1 || contains (2 ∷ []) 2) ≡ false
        → (at_peer swapped.messages.msg_registered 2 ≡ [])
          × (at_peer swapped.messages.msg_targets 2 ≡ []))
    × (contains (core.peers called.server) 2 ≡ false
        → get swapped.messages.msg_registered 2 ≡ get called.messages.msg_registered 2)
    × (contains (core.peers closed.server) 2 ≡ false)
    × (at_peer closed.messages.msg_registered 2 ≡ [])
    × (at_peer closed.messages.msg_targets 2 ≡ [])
    × (at_peer connected.messages.msg_registered 2 ≡ [])
    × (at_peer connected.messages.msg_targets 2 ≡ [])
Reach_forgets_example = Reach_forgets toy core called (2 ∷ []) 2 none none called-Reach

-- The peer is not the core's any more.
dropped : contains (core.peers called.server) 2 ≡ false
unfolding relay_peer_connected check_overflow Messages.send_message Messages.queue_call insert
    discard get at_peer Messages.msg_id Messages.init
dropped = refl
