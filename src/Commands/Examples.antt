-- ===== src/Commands/Examples.antt =====
-- The theorems on commands at concrete values, over the toy platform.
use goldnet_godot.Common.{
  inl, inr, put, ℕ, ◌≡◌, refl, true, String, Option, none, some, List, [], ◌∷◌, HashMap, get, arith,
}
use goldnet_godot.Platform.{Variant, int, string, other, int_type}
use goldnet_godot.Platform.Toy.{toy}
use goldnet_godot.Values.Arguments.{put_arg}
use goldnet_godot.Commands.{
  Form, arg_int, arg_variant, Field, Dictionaries, command_from_args, command_args, to_field,
  to_fields,
}
use goldnet_godot.Messages.{World, any_peer, Call, permits}
use goldnet_godot.Commands.Typing.{Suits, deliver_command-Suits}
use goldnet_godot.Commands.{command_arg_form, of_field, of_fields}
use goldnet_godot.Commands.Signatures.{make_command_signature, command_signature, declared_forms}
use goldnet_godot.Commands.Targets.{
  deliver_command, live_target, may_scan, rescan, scan_command_targets, add_targets, add_target,
  permitted_call,
}
use goldnet_godot.Commands.RoundTrip.{received_all, received}
use goldnet_godot.Commands.Signatures.{Node, marks}
use goldnet_godot.Commands.Targets.{CommandTarget, Tree, node, leaf, no_targets, command_target}
use goldnet_godot.Commands.Arrival.{deliver_command-command_from_args}
use goldnet_godot.Commands.Scans.{Lookup}

abbrev blank : Field ℕ
blank = record { i = 0; f = 0; bytes = [] }

abbrev forms : List Form
forms = arg_int ∷ arg_variant ∷ []

abbrev call_args : List (Variant ℕ ℕ)
call_args = int 5 ∷ string "jump" ∷ []

abbrev entries : Variant ℕ ℕ → Option (HashMap String (Variant ℕ ℕ))
entries (other o) = some (("move", int 5) ∷ ("action", string "jump") ∷ [])
entries _ = none

abbrev dict : Dictionaries (Variant ℕ ℕ)
dict = record { entries = entries; of_entries = λ d. other 1 }

abbrev cmd : List (Field ℕ)
cmd =
    record { i = 5; f = 0; bytes = [] }
    ∷ record { i = 0; f = 0; bytes = put_arg toy (string "jump") }
    ∷ []

abbrev names : List String
names = "move" ∷ "action" ∷ []

abbrev hash_length : String → ℕ
hash_length s = 77

abbrev player : Node
player = record {
  object_id = 4;
  path = "/root/Player";
  gn_commands = some ("move" ∷ []);
  gn_command_fields = [];
  methods = ("move", ("to", int_type) ∷ []) ∷ [];
  is_rpc = λ m. true;
}

abbrev scene : Option Tree
scene = some (node player leaf)

abbrev lookups_of_unknown : List (Lookup hash_length 8)
lookups_of_unknown =
    record { gap = 10; stream = 3; alive = λ o. true; tree = scene }
    ∷ record { gap = 400; stream = 3; alive = λ o. true; tree = scene }
    ∷ record { gap = 700; stream = 3; alive = λ o. true; tree = scene }
    ∷ []

abbrev world : World
world = record {
  node_at = λ path. some 4;
  node_in_tree = λ o. true;
  rpc_mode = λ o method. some any_peer;
  authority_of = λ o. 1;
}

abbrev move_to : Call toy
move_to = record { node = 4; method = "move"; args = int 5 ∷ []; sender = 2 }

deliver_command-Suits_example :
    (t : CommandTarget) × ((command_target hash_length 8 no_targets (λ o. true) scene 5000 77).1
      ≡ some t)
    × (move_to.method ≡ t.method)
    × Suits toy blank t.sig.table t.sig.forms move_to.args
unfolding deliver_command command_target live_target may_scan rescan scan_command_targets
    add_targets add_target make_command_signature command_signature declared_forms command_arg_form
    permitted_call permits command_args of_fields of_field no_targets get put
deliver_command-Suits_example =
    deliver_command-Suits hash_length 8 toy blank dict world no_targets (λ o. true) scene 5000 2 77
      (record { i = 5; f = 0; bytes = [] } ∷ []) move_to refl

-- The same node on a client.
abbrev player_there : Node
player_there = record player { object_id = 90; gn_commands = none }

deliver_command-command_from_args_example :
    (deliver_command hash_length 8 toy blank dict world no_targets
      (λ o. true)
      scene
      5000
      2
      77
      (record { i = 5; f = 0; bytes = [] } ∷ [])).1
    ≡ some move_to
unfolding command_target live_target may_scan no_targets make_command_signature command_signature
    declared_forms command_arg_form command_from_args to_fields to_field permits get put marks
    received_all received
deliver_command-command_from_args_example =
    deliver_command-command_from_args hash_length 8 toy blank dict world no_targets (λ o. true)
      (node player leaf) 5000 2 player_there player "move" (int 5 ∷ [])
      (record { i = 5; f = 0; bytes = [] } ∷ []) any_peer
      (record { paths = refl; fields = refl; methods = refl }) refl (omega arith) (tt, tt) refl
      (inr (refl, refl, ((λ e. refl, tt), tt), inl (refl, refl), refl)) refl refl
