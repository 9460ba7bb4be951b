-- ===== src/Senders.antt =====
-- Who a call comes from, in src/goldnet_multiplayer.cpp: _get_remote_sender_id, and command_sender, which
-- _deliver_command and _deliver_message set around the call that they make.
pub mod Nesting
mod Examples
use goldnet_godot.Common.{ℕ, String, List, [], ◌∷◌, ◌++◌, ◌==◌, if◌then◌else◌}

mutual
  -- What runs while a method runs, as far as senders go: it asks for the sender when the inner API would
  -- answer with some peer; or the method polls, and the inner API makes a call of _gn_up, whose packet
  -- makes a call (on a server), or of _gn_recv, whose snapshot does (on a client).
  pub data Act : Type 0 where
    ask : ℕ → Act
    uplink : ℕ → Body → Act
    snapshot : Body → Act

  pub data Body : Type 0 where
    done : Body
    next : Act → Body → Body

-- _get_remote_sender_id
unfoldable pub get_remote_sender_id : ℕ → ℕ → ℕ
get_remote_sender_id command_sender of_inner =
    if command_sender == 0 then of_inner else command_sender

-- command_sender after each, and the senders answered, in order. _gn_up asks who sent the packet, as a
-- method does, and a snapshot is the server's. A delivery keeps the outer sender, sets its own, makes the
-- call and puts the outer one back.
unfoldable mutual
  pub run_act : ℕ → Act → ℕ × List ℕ
  run_act command_sender (ask of_inner) =
      (command_sender, get_remote_sender_id command_sender of_inner ∷ [])
  run_act command_sender (uplink of_inner body) =
      let outer_sender = command_sender in
      let called = run (get_remote_sender_id command_sender of_inner) body in
      (outer_sender, called.1)
  run_act command_sender (snapshot body) =
      let outer_sender = command_sender in let called = run 1 body in (outer_sender, called.1)

  pub run : ℕ → Body → ℕ × List ℕ
  run command_sender done = (command_sender, [])
  run command_sender (next act body) =
      let acted = run_act command_sender act in
      let rest = run acted.0 body in (rest.0, acted.1 ++ rest.1)
