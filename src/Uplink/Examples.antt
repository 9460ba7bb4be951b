-- ===== src/Uplink/Examples.antt =====
-- The theorems on uplink packets at a packet that carries a message and a command.
use goldnet_godot.Common.{
  ℕ, ◌≡◌, refl, Bool, true, false, All, String, none, some, List, [], ◌∷◌, ◌++◌,
}
use goldnet_godot.Platform.{Variant, nil, int_type}
use goldnet_godot.Platform.Toy.{toy}
use goldnet_godot.Messages.{any_peer}
use goldnet_godot.Commands.{Field, Dictionaries}
use goldnet_godot.Commands.Targets.{node, leaf}
use goldnet_godot.Commands.Scans.{Filed, empty-Filed}
use goldnet_godot.Uplink.{Packet, received, command_schema, command, message, Moment, Server, gn_up}
use goldnet_godot.Uplink.Permission.{FromPeer, gn_up-FromPeer}

abbrev hash_length : String → ℕ
hash_length s = 77

abbrev blank : Field ℕ
blank = record { i = 0; f = 0; bytes = [] }

abbrev dict : Dictionaries (Variant ℕ ℕ)
dict = record { entries = λ v. none; of_entries = λ d. nil }

-- A core that finds a message of a known target and a command in every packet.
abbrev receive_uplink : ℕ → ℕ → List ℕ → ℕ → Packet ℕ ℕ
receive_uplink t k b ms = message k (toy.put_uvarint 5 ++ toy.put_uvarint 0) (
    command_schema k 77 (λ a. command k 77 (record { i = 5; f = 0; bytes = [] } ∷ []) (received t)))

-- Every method is one that any peer may call.
abbrev moment : ℕ → Moment
moment n = record {
  world = record {
    node_at = λ path. some 7;
    node_in_tree = λ o. true;
    rpc_mode = λ o method. some any_peer;
    authority_of = λ o. 1;
  };
  alive = λ o. true;
  tree = some (
      node
        (record {
          object_id = 4;
          path = "/root/Player";
          gn_commands = some ("move" ∷ []);
          gn_command_fields = [];
          methods = ("move", ("to", int_type) ∷ []) ∷ [];
          is_rpc = λ m. true;
        })
        leaf);
  now_ms = 5000;
  rpcs = λ s. s;
}

abbrev server : Server toy hash_length 8 ℕ
server = record {
  server = 0;
  messages = record {
    msg_ids = [];
    msg_next_id = 1;
    msg_registered = [];
    msg_targets =
        (
          2,
          (5, record { path = "/root/Player"; method = "hit"; object_id = 7; warned = false }) ∷ [],
        )
        ∷ [];
  };
  targets = record { command_targets = []; command_scan_ms = 0 };
  command_sender = 0;
}

gn_up-FromPeer_example :
    let (s1, hears) =
      gn_up toy hash_length 8 blank dict receive_uplink server moment true 1 60 2 [] in
    All (FromPeer toy hash_length 8 moment 2) hears
    × Filed s1.targets.command_targets
    × (◌≡◌ {A = Bool} true false → hears ≡ [])
gn_up-FromPeer_example =
    gn_up-FromPeer toy hash_length 8 blank dict receive_uplink server moment true 1 60 2 []
      (λ t k b ms. (refl, (refl, λ a. (refl, tt)))) refl (empty-Filed hash_length 8)
