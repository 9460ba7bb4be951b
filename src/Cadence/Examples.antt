-- ===== src/Cadence/Examples.antt =====
-- The cadence at concrete intervals and polls.
use goldnet_godot.Common.{
  ℕ, ◌+◌, ◌-◌, ◌*◌, ◌/◌, ◌≤◌, ◌≡◌, true, false, Option, none, some, List, [], ◌∷◌, ltb, arith,
}
use goldnet_godot.Cadence.{Seconds, Session, Timing}
use goldnet_godot.Cadence.Timer.{sends, last_poll, sends_at_most, sends_every_interval}

-- Seconds held as microseconds.
abbrev micros : Seconds
micros = record {
  D = ℕ;
  is_positive = λ d. ltb 0 d;
  us_of_rate = λ d. 1000000 / d;
  us_of_sec = λ d. d;
}

abbrev three_syncs : List (Option ℕ)
three_syncs = some 50000 ∷ none ∷ some 16667 ∷ some 0 ∷ []

-- Polls about every 6 ms, at a nominal 60 Hz.
abbrev frames : List ℕ
frames = 7000 ∷ 13000 ∷ 19000 ∷ 25500 ∷ 31000 ∷ 38000 ∷ []

sends_at_most_example : 1000 + sends 16667 0 (1000 ∷ frames) * 16667 ≤ last_poll 1000 frames
sends_at_most_example =
    sends_at_most 16667 40000 1000 frames (omega arith) (omega arith) (omega arith) (omega arith)

sends_every_interval_example :
    sends 16667 0 (1000 ∷ frames) ≡ (last_poll 1000 frames - 1000) / 16667
sends_every_interval_example =
    sends_every_interval 16667 40000 1000 frames (omega arith) (omega arith) (omega arith)
      (omega arith) (omega arith)

abbrev hosting : Session
hosting = record {
  peer_null = false;
  disconnected = false;
  rpc_stats = true;
  unique_id = 1;
  manual_send = false;
  peer_count = 2;
  now_us = 50000;
}

abbrev running : Timing
running = record { last_send_us = 20000; cached_min_interval_us = 16667 }
