-- ===== src/Values/Slots.antt =====
-- put_slot and get_slot of src/goldnet_multiplayer.cpp: a slot's value coded by its kind, as its step
-- from the value the peer holds when there is one (`base`), and whole when there is none.
pub mod RoundTrip
pub mod Stream
use goldnet_godot.Common.{
  ℕ, ◌^◌, ◌%◌, Bool, true, false, ◌||◌, Option, none, some, List, [], ◌∷◌, ◌++◌, ◌==◌,
  if◌then◌else◌,
}
use goldnet_godot.Platform.{Platform, Variant, int, float, vector3, add64, sub64}
use goldnet_godot.Values.{
  tag_angle16, tag_angle8, sk_int_step, sk_angle16_step, sk_angle8_step, sk_float_grid,
  sk_vec3_grid, sk_tagged, angle_step, put_payload, put_value, get_tagged, get_value,
}

module _ (p : Platform) where
  open p use {F, O, f32, of_int, fdiv, fmul, is_finite, llround, tau, to_int, to_double, to_vector3}
  open p use {Reader, put_varint, angle_quanta, get_varint}

  unfoldable pub grid_q : F → F → ℕ
  grid_q v grid = if is_finite (fdiv v grid) then llround (fdiv v grid) else 0

  -- `p_base ? … : 0`, and the same for the axes of a vector.
  unfoldable pub base_int : Option (Variant F O) → ℕ
  base_int none = 0
  base_int (some b) = to_int b

  unfoldable pub base_grid : F → Option (Variant F O) → ℕ
  base_grid grid none = 0
  base_grid grid (some b) = grid_q (to_double b) grid

  unfoldable pub grid_axes : F → Variant F O → ℕ × ℕ × ℕ
  grid_axes grid v =
      let (x, y, z) = to_vector3 v in
      (grid_q (f32 x) grid, grid_q (f32 y) grid, grid_q (f32 z) grid)

  unfoldable pub base_axes : F → Option (Variant F O) → ℕ × ℕ × ℕ
  base_axes grid none = (0, 0, 0)
  base_axes grid (some b) = grid_axes grid b

  unfoldable pub put_angle_slot : ℕ → ℕ → Variant F O → Option (Variant F O) → ℕ → List ℕ
  put_angle_slot bits tag v none now = put_payload p tag v now
  put_angle_slot bits tag v (some b) now = put_varint (
      angle_step (angle_quanta (f32 (to_double v)) bits) (angle_quanta (f32 (to_double b)) bits)
        bits)

  unfoldable pub put_axes : ℕ × ℕ × ℕ → ℕ × ℕ × ℕ → List ℕ
  put_axes (x, y, z) (a, b, c) =
      put_varint (sub64 x a) ++ (put_varint (sub64 y b) ++ put_varint (sub64 z c))

  unfoldable pub put_slot : ℕ → F → ℕ → Variant F O → Option (Variant F O) → ℕ → List ℕ
  put_slot kind grid quant v base now =
      if kind == sk_int_step
      then put_varint (sub64 (to_int v) (base_int base))
      else if kind == sk_angle16_step
      then put_angle_slot 16 tag_angle16 v base now
      else if kind == sk_angle8_step
      then put_angle_slot 8 tag_angle8 v base now
      else if kind == sk_float_grid
      then put_varint (sub64 (grid_q (to_double v) grid) (base_grid grid base))
      else if kind == sk_vec3_grid
      then put_axes (grid_axes grid v) (base_axes grid base)
      else if kind == sk_tagged
      then put_value p v quant now
      else put_payload p kind v now

  unfoldable pub get_angle_slot : ℕ → ℕ → Reader → Option (Variant F O) → ℕ → Variant F O × Reader
  get_angle_slot bits tag r none ref = get_tagged p tag r ref
  get_angle_slot bits tag r (some b) ref =
      let (step, r1) = get_varint r in
      let q = add64 (angle_quanta (f32 (to_double b)) bits) step % 2 ^ bits in
      (float (fmul (f32 (fdiv (f32 (of_int q)) (f32 (of_int (2 ^ bits))))) tau), r1)

  unfoldable pub get_axes : Reader → F → ℕ × ℕ × ℕ → Variant F O × Reader
  get_axes r grid (a, b, c) =
      let (x, r1) = get_varint r in
      let (y, r2) = get_varint r1 in
      let (z, r3) = get_varint r2 in
      (
        vector3 (f32 (fmul (of_int (add64 a x)) grid)) (f32 (fmul (of_int (add64 b y)) grid))
            (f32 (fmul (of_int (add64 c z)) grid)),
        r3,
      )

  unfoldable pub get_slot : Reader → ℕ → F → Option (Variant F O) → ℕ → Variant F O × Reader
  get_slot r kind grid base ref =
      if kind == sk_int_step
      then (let (step, r1) = get_varint r in (int (add64 (base_int base) step), r1))
      else if kind == sk_angle16_step
      then get_angle_slot 16 tag_angle16 r base ref
      else if kind == sk_angle8_step
      then get_angle_slot 8 tag_angle8 r base ref
      else if kind == sk_float_grid
      then (let (step, r1) = get_varint r in
          (float (fmul (of_int (add64 (base_grid grid base) step)) grid), r1))
      else if kind == sk_vec3_grid
      then get_axes r grid (base_axes grid base)
      else if kind == sk_tagged
      then get_value p r ref
      else get_tagged p kind r ref
