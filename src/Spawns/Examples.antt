-- ===== src/Spawns/Examples.antt =====
-- A spawn record at a concrete node.
use goldnet_godot.Common.{◌≡◌, some, List, [], ◌∷◌, arith}
use goldnet_godot.Platform.{other}
use goldnet_godot.Platform.Toy.{toy}
use goldnet_godot.Spawns.{SpawnSync, put_spawn_data, get_spawn_data}
use goldnet_godot.Spawns.RoundTrip.{get-put_spawn_data}

abbrev player_syncs : List SpawnSync
player_syncs = record { net_id = 3; path = "Sync" } ∷ record { net_id = 4; path = "Gun/Sync" } ∷ []

get-put_spawn_data_example :
    get_spawn_data toy (put_spawn_data toy player_syncs (other 9))
    ≡ some (player_syncs, toy.bytes_to_var (toy.var_to_bytes (other 9)))
get-put_spawn_data_example =
    get-put_spawn_data toy player_syncs (other 9) (omega arith) (omega arith)
