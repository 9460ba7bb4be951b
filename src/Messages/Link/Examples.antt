-- ===== src/Messages/Link/Examples.antt =====
-- The theorems on links at a concrete one, over the toy platform.
use goldnet_godot.Common.{
  ℕ, ◌≡◌, refl, sym, ◌∙◌, true, false, some, List, [], ◌∷◌, map, get, put, arith, inr, nat_eq,
  string_eq,
}
use goldnet_godot.Platform.{Variant, int, string}
use goldnet_godot.Platform.Toy.{toy}
use goldnet_godot.Messages.{
  World, any_peer, send_message, msg_id, init, at_peer, is_known, key, put_call, put_registration,
  put_args, put_each,
}
use goldnet_godot.Values.{put_value, put_payload, tag_for}
use goldnet_godot.Values.Arguments.{put_str, put_arg}
use goldnet_godot.Messages.Link.{
  Naming, call, queued, Link, stats, fresh, Step, send, start, later, wires, after_send,
}
use goldnet_godot.Messages.Link.Account.{send_message-wires}
use goldnet_godot.Messages.Link.Safety.{Linked, Step-Linked, fresh-Linked, Lands, Reach-Lands}

abbrev naming : Naming toy
naming = record {
  Named = λ path method. (path ≡ "/root/Player") × (method ≡ "hit");
  fits = λ path method h. rw (h.0, h.1) (omega arith, omega arith);
  apart = λ path method path' method' h h' e. (h.0 ∙ sym h'.0, h.1 ∙ sym h'.1);
}

abbrev call_args : List (Variant ℕ ℕ)
call_args = int 3 ∷ string "jump" ∷ []

abbrev world : World
world = record {
  node_at = λ path. some 7;
  node_in_tree = λ o. true;
  rpc_mode = λ o method. some any_peer;
  authority_of = λ o. 1;
}

-- An unreliable call by a fresh sender.
abbrev called_once : Link toy
called_once = after_send toy (fresh toy) 2 "/root/Player" "hit" call_args false

call_once : Step toy naming 2 1 (fresh toy) called_once
unfolding init
call_once =
    send "/root/Player" "hit" call_args false (refl, refl)
      (omega arith, (omega arith, (omega arith, tt))) (omega arith)

Reach-Lands_example :
    Lands toy naming 2 1 called_once world (call false 1 "/root/Player" "hit" call_args)
unfolding after_send wires msg_id init at_peer get put is_known key put_call put_registration
    put_args put_each put_str put_arg put_value put_payload tag_for
Reach-Lands_example =
    Reach-Lands toy naming 2 1 called_once world (call false 1 "/root/Player" "hit" call_args)
      (later start call_once) (inr (0, refl))

Step-Linked_example : Linked toy naming 2 1 called_once
Step-Linked_example = Step-Linked toy naming 2 1 call_once (fresh-Linked toy naming 2 1)

send_message-wires_example :
    (send_message toy init (stats toy (fresh toy)) 2 "/root/Player" "hit" call_args false).1
    ≡ map (queued toy) (wires toy (fresh toy) 2 "/root/Player" "hit" call_args false)
send_message-wires_example =
    send_message-wires toy (fresh toy) 2 "/root/Player" "hit" call_args false
