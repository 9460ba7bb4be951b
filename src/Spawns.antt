-- ===== src/Spawns.antt =====
-- The records of src/goldnet_multiplayer.cpp in the core's spawn section: put_spawn_data and
-- get_spawn_data. A spawned node's synchronizers go by id and path, then the spawn's data.
pub mod RoundTrip
pub mod Bounds
mod Examples
use goldnet_godot.Common.{
  ℕ, zero, suc, ◌+◌, ◌-◌, ◌%◌, ◌^◌, Bool, String, Option, none, some, List, [], ◌∷◌, ◌++◌, length,
  if◌then◌else◌,
}
use goldnet_godot.Platform.{Platform, Variant}
use goldnet_godot.Values.Arguments.{put_str, get_str}

pub record SpawnSync : Type 0 where
  pub net_id : ℕ
  pub path : String

-- The spawner id of a bind record.
abbrev pub bind_spawner : ℕ
bind_spawner = 0

abbrev pub drop : ℕ → List ℕ → List ℕ
drop zero b = b
drop (suc n) [] = []
drop (suc n) (x ∷ b) = drop n b

module _ (p : Platform) where
  open p use {F, O, Reader, reader, failed, remaining, put_uvarint, get_uvarint, var_to_bytes}
  open p use {bytes_to_var}

  unfoldable pub put_syncs : List SpawnSync → List ℕ
  put_syncs [] = []
  put_syncs (s ∷ ss) = put_uvarint s.net_id ++ (put_str p s.path ++ put_syncs ss)

  unfoldable pub put_spawn_data : List SpawnSync → Variant F O → List ℕ
  put_spawn_data syncs v =
      put_uvarint (length syncs % 2 ^ 32) ++ (put_syncs syncs ++ var_to_bytes v)

  -- `for (i = 0; i < n && !r.failed(); i++)`, over the rounds left.
  unfoldable pub get_syncs : ℕ → Reader → List SpawnSync × Reader
  get_syncs zero r = ([], r)
  get_syncs (suc n) r =
      let (i, r1) = get_uvarint r in
      let (path, r2) = get_str p r1 in
      let rest = get_syncs n r2 in
      if failed r then ([], r) else (record { net_id = i; path = path } ∷ rest.0, rest.1)

  -- None is the answer false. The data is what the reader has left of the record's bytes.
  unfoldable pub get_spawn_data : List ℕ → Option (List SpawnSync × Variant F O)
  get_spawn_data b =
      let (n, r1) = get_uvarint (reader b) in
      let (syncs, r2) = get_syncs n r1 in
      if failed r2 then none else some (syncs, bytes_to_var (drop (length b - remaining r2) b))
