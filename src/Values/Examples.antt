-- ===== src/Values/Examples.antt =====
-- The wire's theorems at concrete values, over the toy platform.
use goldnet_godot.Common.{ℕ, ◌≡◌, refl, none, some, List, [], ◌∷◌, ◌++◌, map, arith}
use goldnet_godot.Platform.{Variant, int, float, string}
use goldnet_godot.Platform.Toy.{toy}
use goldnet_godot.Values.{quant_auto, sk_float_grid}
use goldnet_godot.Values.Slots.{put_slot, get_slot, grid_q}
use goldnet_godot.Values.Slots.RoundTrip.{slot_value, quanta, get-put_slot}
use goldnet_godot.Values.Slots.Stream.{put_stream, get_stream, get-put_stream}
use goldnet_godot.Values.Arguments.{put_arg, get_arg}
use goldnet_godot.Values.Arguments.RoundTrip.{arrives, get-put_arg}

abbrev stamp : Variant ℕ ℕ
stamp = int 95

-- A float on a grid of 4 steps back from 41 to 22, while the receiver holds 40 for 41.
get-put_slot_example :
    get_slot toy
      (toy.reader (put_slot toy sk_float_grid 4 quant_auto (float 22) (some (float 41)) 0 ++ []))
      sk_float_grid
      4
      (some (float 40))
      0
    ≡ (slot_value toy sk_float_grid 4 quant_auto (float 22), toy.reader [])
unfolding quanta grid_q
get-put_slot_example =
    get-put_slot toy sk_float_grid quant_auto 0 4 (float 22) (some (float 41)) (some (float 40)) []
      refl (omega arith) (omega arith) (omega arith)

abbrev track : List (Variant ℕ ℕ × ℕ)
track = (float 41, 0) ∷ (float 22, 16) ∷ (float 23, 33) ∷ []

get-put_stream_example :
    get_stream toy sk_float_grid quant_auto 4 none track
      (toy.reader (put_stream toy sk_float_grid quant_auto 4 none track ++ []))
    ≡ (map (λ u. slot_value toy sk_float_grid 4 quant_auto u.0) track, toy.reader [])
unfolding quanta grid_q slot_value
get-put_stream_example =
    get-put_stream toy sk_float_grid quant_auto 4 track none none [] tt (omega arith) (
      (omega arith, omega arith, refl),
      ((omega arith, omega arith, refl), ((omega arith, omega arith, refl), tt)),
    )

get-put_arg_example :
    get_arg toy (toy.reader (put_arg toy (string "jump") ++ 1 ∷ []))
    ≡ (arrives toy (string "jump"), toy.reader (1 ∷ []))
get-put_arg_example = get-put_arg toy (string "jump") (1 ∷ []) (omega arith)
