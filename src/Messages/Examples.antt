-- ===== src/Messages/Examples.antt =====
-- The theorems on messages at concrete values, over the toy platform.
use goldnet_godot.Common.{
  get, refl, ◌++◌, ◌≡◌, ℕ, some, List, [], ◌∷◌, All, true, false, length, arith, ◌+◌, ◌<◌, ◌≤◌,
}
use goldnet_godot.Platform.{Variant, int, string}
use goldnet_godot.Platform.Toy.{toy}
use goldnet_godot.Messages.{
  Messages, Call, deliver_message, deliver_call, make_call, get_args, get_each, at_peer, find_node,
  permits, Stats, init, send_message, World, any_peer, deliver_to,
}
use goldnet_godot.Messages.Permission.{Permitted, deliver_message-Permitted}
use goldnet_godot.Messages.Bounds.{deliver_message-args, get_each_stops}
use goldnet_godot.Messages.Sending.{Fitting, send_message-Fitting}

abbrev world : World
world = record {
  node_at = λ path. some 7;
  node_in_tree = λ o. true;
  rpc_mode = λ o method. some any_peer;
  authority_of = λ o. 1;
}

abbrev call_args : List (Variant ℕ ℕ)
call_args = int 3 ∷ string "jump" ∷ []

abbrev stats : Stats
stats = record { queued = 4; delivered = 2 }

send_message-Fitting_example :
    All Fitting (send_message toy init stats 2 "/root/Player" "hit" call_args false).1
    × ((send_message toy init stats 2 "/root/Player" "hit" call_args false).2 ≡ false
        → (send_message toy init stats 2 "/root/Player" "hit" call_args false).1 ≡ [])
send_message-Fitting_example =
    send_message-Fitting toy init stats 2 "/root/Player" "hit" call_args false

-- Peer 2 knows the target 5.
abbrev knows_player : Messages
knows_player = record {
  msg_ids = [];
  msg_next_id = 1;
  msg_registered = [];
  msg_targets =
      (2, (5, record { path = "/root/Player"; method = "hit"; object_id = 7; warned = false }) ∷ [])
      ∷ [];
}

abbrev hit : Call toy
hit = record { node = 7; method = "hit"; args = []; sender = 2 }

deliver_message-Permitted_example : Permitted toy world 2 hit
unfolding deliver_message deliver_to deliver_call make_call get_args get_each at_peer find_node
    permits get
deliver_message-Permitted_example =
    deliver_message-Permitted toy knows_player world 2 (toy.put_uvarint 5 ++ toy.put_uvarint 0) hit
      refl

deliver_message-args_example : length hit.args + 1 < length (toy.put_uvarint 5 ++ toy.put_uvarint 0)
unfolding deliver_message deliver_to deliver_call make_call get_args get_each at_peer find_node
    permits get
deliver_message-args_example =
    deliver_message-args toy knows_player world 2 (toy.put_uvarint 5 ++ toy.put_uvarint 0) hit refl

get_each_stops_example :
    (get_each toy 1000 (toy.reader (64 ∷ [])) ≡ get_each toy 2 (toy.reader (64 ∷ [])))
    × (length (get_each toy 1000 (toy.reader (64 ∷ []))).0
        ≤ toy.remaining (toy.reader (64 ∷ [])) + 1)
get_each_stops_example =
    get_each_stops toy 2 1000 (toy.reader (64 ∷ [])) (omega arith) (omega arith)
