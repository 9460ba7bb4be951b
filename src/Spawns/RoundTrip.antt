-- ===== src/Spawns/RoundTrip.antt =====
-- A spawn record reads back as it was written.
use goldnet_godot.Common.{
  ℕ, ◌-◌, ◌%◌, ◌^◌, ◌<◌, ◌≡◌, refl, some, List, [], ◌∷◌, ◌++◌, length, length-append, All, arith,
}
use mathlib.Core.List.{append_assoc}
use goldnet_godot.Platform.{Platform, Variant}
use goldnet_godot.Values.Arguments.{put_str}
use goldnet_godot.Values.Arguments.RoundTrip.{get-put_str}
use goldnet_godot.Spawns.{SpawnSync, put_syncs, put_spawn_data, get_syncs, get_spawn_data, drop}

drop-append : (a b : List ℕ) → drop (length a) (a ++ b) ≡ b
drop-append [] b = refl
drop-append (x ∷ a) b = drop-append a b

-- What is left of a record behind its ids and paths.
drop_front : (a b d : List ℕ) → drop (length (a ++ (b ++ d)) - length d) (a ++ (b ++ d)) ≡ d
drop_front a b d =
    let front : length (a ++ (b ++ d)) - length d ≡ length (a ++ b) =
      omega (arith, length-append {0} a (b ++ d), length-append {0} b d, length-append {0} a b) in
    rw (front, ← append_assoc a b d) (drop-append (a ++ b) d)

module _ (p : Platform) where
  open p use {F, O, Reader, reader, utf8, var_to_bytes, bytes_to_var}

  -- An id and a path that the wire can carry.
  abbrev pub Named : SpawnSync → Type 0
  Named s = (s.net_id < 2 ^ 32) × (length (utf8 s.path) < 2 ^ 32)

  get-put_syncs :
      (syncs : List SpawnSync) (rest : List ℕ)
      → All Named syncs
      → get_syncs p (length syncs) (reader (put_syncs p syncs ++ rest)) ≡ (syncs, reader rest)
  unfolding get_syncs put_syncs
  get-put_syncs [] rest h = refl
  get-put_syncs (s ∷ ss) rest ((hi, hp), hs) =
      let body = put_str p s.path in
      let more = put_syncs p ss in
      rw (
        append_assoc (p.put_uvarint s.net_id) (body ++ more) rest,
        append_assoc body more rest,
        p.failed_reader (p.put_uvarint s.net_id ++ (body ++ (more ++ rest))),
        p.get-put_uvarint s.net_id (body ++ (more ++ rest)) hi,
        get-put_str p s.path (more ++ rest) hp,
        get-put_syncs ss rest hs,
      )

  -- A spawn record reads back whole: the ids and paths in order, and the data as Godot's encoding
  -- gives it back.
  pub get-put_spawn_data :
      (syncs : List SpawnSync) (v : Variant F O)
      → length syncs < 2 ^ 32
      → All Named syncs
      → get_spawn_data p (put_spawn_data p syncs v) ≡ some (syncs, bytes_to_var (var_to_bytes v))
  unfolding get_spawn_data put_spawn_data
  get-put_spawn_data syncs v hn hs =
      let count = p.put_uvarint (length syncs) in
      let body = put_syncs p syncs in
      let bytes = var_to_bytes v in
      let small : length syncs % 2 ^ 32 ≡ length syncs = omega arith in
      rw (
        small,
        p.get-put_uvarint (length syncs) (body ++ bytes) hn,
        get-put_syncs syncs bytes hs,
        p.failed_reader bytes,
        p.remaining_reader bytes,
        drop_front count body bytes,
      )
