-- ===== src/Spawns/Bounds.antt =====
-- What the bytes of a spawn record bound, whatever count they claim.
use goldnet_godot.Common.{
  ℕ, zero, suc, ◌+◌, ◌*◌, ◌<◌, ◌≤◌, ◌≡◌, refl, true, false, Bool-cases, inl, inr, List, [], length,
  some, arith,
}
use goldnet_godot.Platform.{Platform, Variant}
use goldnet_godot.Values.Arguments.{get_str}
use goldnet_godot.Values.Arguments.Bounds.{get_str-Takes}
use goldnet_godot.Spawns.{SpawnSync, get_syncs, get_spawn_data}

module _ (p : Platform) where
  open p use {F, O, Reader, reader, failed, remaining, get_uvarint}

  get_syncs_failed : (n : ℕ) (r : Reader) → failed r ≡ true → get_syncs p n r ≡ ([], r)
  unfolding get_syncs
  get_syncs_failed zero r h = refl
  get_syncs_failed (suc n) r h = rw h refl

  -- A sync is at least two bytes.
  get_syncs_left :
      (n : ℕ) (r : Reader)
      → let (ss, r1) = get_syncs p n r in
        failed r1 ≡ false → (failed r ≡ false) × (2 * length ss + remaining r1 ≤ remaining r)
  unfolding get_syncs
  get_syncs_left zero r e = (e, omega arith)
  get_syncs_left (suc n) r e = elim (Bool-cases (failed r)) [
    | inl bad ↦ (let no : ⊥ = ground (arith, e, bad) in elim no [ ])
    | inr good ↦
        let r1 = (get_uvarint r).1 in
        let r2 = (get_str p r1).1 in
        let (a, x) = get_syncs_left n r2 (ground (arith, e, good)) in
        let (b, y) = get_str-Takes p r1 a in
        let (c, z) = p.get_uvarint_takes r b in (good, rw good (omega (arith, x, y, z)))
  ]

  -- However many synchronizers a spawn record claims, the loop over them is done after more rounds than
  -- bytes are left: further rounds change nothing.
  pub get_syncs_stops :
      (n claimed : ℕ) (r : Reader)
      → remaining r < n
      → n ≤ claimed
      → get_syncs p claimed r ≡ get_syncs p n r
  unfolding get_syncs
  get_syncs_stops zero claimed r h le = (let no : ⊥ = omega arith in elim no [ ])
  get_syncs_stops (suc n) zero r h le = (let no : ⊥ = omega arith in elim no [ ])
  get_syncs_stops (suc n) (suc m) r h le = elim (Bool-cases (failed r)) [
    | inl bad ↦ rw bad refl
    | inr good ↦
        let r1 = (get_uvarint r).1 in
        let r2 = (get_str p r1).1 in
        elim (Bool-cases (failed r2)) [
          | inl over ↦ rw (good, get_syncs_failed m r2 over, get_syncs_failed n r2 over) refl
          | inr more ↦
              let (b, y) = get_str-Takes p r1 more in
              let (c, z) = p.get_uvarint_takes r b in
              rw (good, get_syncs_stops n m r2 (omega (arith, y, z)) (omega arith)) refl
        ]
  ]

  -- A spawn record that is taken, whatever its bytes, names fewer than half as many synchronizers as it has
  -- bytes.
  pub get_spawn_data-few :
      (b : List ℕ) (syncs : List SpawnSync) (v : Variant F O)
      → get_spawn_data p b ≡ some (syncs, v)
      → 2 * length syncs < length b
  unfolding get_spawn_data
  get_spawn_data-few b syncs v e =
      let (n, r1) = get_uvarint (reader b) in
      let (ss, r2) = get_syncs p n r1 in
      elim (Bool-cases (failed r2)) [
        | inl bad ↦ (let no : ⊥ = ground (arith, e, bad) in elim no [ ])
        | inr good ↦
            let same : ss ≡ syncs = ground (arith, e, good) in
            let (a, x) = get_syncs_left n r1 good in
            let (c, y) = p.get_uvarint_takes (reader b) a in
            rw⁻¹ same (omega (arith, x, y, p.remaining_reader b))
      ]
