-- ===== src/Senders/Examples.antt =====
-- The theorem on senders at a method that asks, takes a packet from peer 4 whose call takes one from peer
-- 7, and asks again.
use goldnet_godot.Common.{◌≡◌, refl, none, [], ◌∷◌, arith}
use goldnet_godot.Senders.{ask, uplink, Body, done, next, run}
use goldnet_godot.Senders.Nesting.{told, run-told}

abbrev nested : Body
nested = next (ask 3) (
    next (uplink 4 (next (ask 4) (next (uplink 7 (next (ask 7) done)) (next (ask 4) done))))
      (next (ask 3) done))

run-told_example : run 0 nested ≡ (0, told none nested)
run-told_example =
    run-told nested (tt, ((omega arith, (tt, ((omega arith, (tt, tt)), (tt, tt)))), (tt, tt)))

-- The call of peer 7's packet counts as peer 4's.
misnamed : told none nested ≡ 3 ∷ 4 ∷ 4 ∷ 4 ∷ 3 ∷ []
misnamed = refl
