-- ===== src/Rpcs/Examples.antt =====
-- The theorems on RPCs at concrete calls, over the toy platform and a sim that delays by 20 ms.
use goldnet_godot.Common.{
  ◌%◌, ◌^◌, ℕ, ◌+◌, length, ◌≡◌, refl, true, false, some, List, [], ◌∷◌, any, arith,
}
use goldnet_godot.Platform.{Variant, int, string}
use goldnet_godot.Platform.Toy.{toy}
use goldnet_godot.Messages.{init}
use goldnet_godot.Rpcs.{SendSim, Answers, everyone_but, recipients}
use goldnet_godot.Rpcs.{one, everyone}
use goldnet_godot.Rpcs.Reports.{RpcStats, Event, counts, snapshots, prints}
use goldnet_godot.Rpcs.Statistics.{
  to_self, rpc_stats_count, overlooked, sends_of, rpc_stats_count_sends,
}
use goldnet_godot.Rpcs.Routing.{Rpcs, send_to_each, netchan_down}
use goldnet_godot.Rpcs.Reach.{touches, touches-everyone_but}
use goldnet_godot.Rpcs.Delivery.{Carried, Carried-send_to_each}

abbrev delay_sim : SendSim
delay_sim = record {
  S = ℕ;
  loss_percent = λ s. 0;
  bandwidth_bps = λ s. 0;
  loss_roll = λ s. (false, s);
  schedule = λ s link size drop now. (some s, s);
  schedule_reliable = λ s link size now. (s, refl);
}

abbrev hosting : Answers
hosting = record {
  has_peer = true;
  connected = true;
  unique_id = 1;
  peers = 2 ∷ 3 ∷ 4 ∷ [];
  stats = λ t. record { queued = 0; delivered = 0 };
  overflowed = λ t. false;
  rate = λ t. 20000;
  has_schema = λ id kinds. false;
  now_ms = 900;
}

abbrev fresh : Rpcs toy delay_sim
fresh = record { messages = init; sim = 20; streams = []; unreliable_calls = [] }

abbrev call_args : List (Variant ℕ ℕ)
call_args = int 3 ∷ string "jump" ∷ []

touches-everyone_but_example :
    any
      (touches 3)
      (netchan_down toy delay_sim fresh hosting "/root/Player" "hit" call_args true
        (everyone_but 3)
        true).1
    ≡ false
touches-everyone_but_example =
    touches-everyone_but toy delay_sim fresh hosting "/root/Player" "hit" call_args true true 3
      (omega arith)

Carried-send_to_each_example :
    let (s1, outs) =
      send_to_each toy delay_sim fresh hosting "/root/Player" "hit" call_args true (2 ∷ 4 ∷ []) in
    Carried toy delay_sim fresh.messages s1.messages 4 "/root/Player" "hit" call_args outs
Carried-send_to_each_example =
    Carried-send_to_each toy delay_sim fresh hosting "/root/Player" "hit" call_args 4 (2 ∷ 4 ∷ [])
      refl

rpc_stats_count_sends_example :
    (sends_of
          (rpc_stats_count toy [] 1
            (2 ∷ 3 ∷ 4 ∷ [])
            (everyone_but 1)
            "hit"
            true
            "player.gd"
            call_args)
          "hit"
        + overlooked (everyone_but 1) (2 ∷ 3 ∷ 4 ∷ []))
      % 2 ^ 64
    ≡ (sends_of [] "hit" + length (recipients (everyone_but 1) (2 ∷ 3 ∷ 4 ∷ []))) % 2 ^ 64
unfolding to_self
rpc_stats_count_sends_example =
    rpc_stats_count_sends toy [] 1 (2 ∷ 3 ∷ 4 ∷ []) (everyone_but 1) "hit" true "player.gd"
      call_args (refl, (refl, (refl, tt))) refl

-- Two windows: a call and a snapshot before the first report, a call after it.
abbrev window_events : List (Event toy)
window_events =
    prints 1000
    ∷ counts 1 (2 ∷ 3 ∷ []) everyone "hit" false "player.gd" call_args
    ∷ snapshots (7 ∷ [])
    ∷ prints 3000
    ∷ prints 7000
    ∷ counts 1 (2 ∷ 3 ∷ []) (one 2) "hit" false "player.gd" call_args
    ∷ []

abbrev no_stats : RpcStats
no_stats = record { methods = []; snap_bytes = 0; snap_sends = 0; last_ms = 0 }
