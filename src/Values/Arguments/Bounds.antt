-- ===== src/Values/Arguments/Bounds.antt =====
-- How much an argument takes of what is read, whatever its bytes are.
use goldnet_godot.Common.{ℕ, ◌+◌, ◌≤◌, ◌≡◌, Bool, true, false, if◌then◌else◌, arith}
use goldnet_godot.Platform.{Platform}
use goldnet_godot.Values.{get_vec3, get_float_by, get_opaque, get_tagged}
use goldnet_godot.Values.Arguments.{get_str, get_bytes, get_double, get_arg_tagged, get_arg}

module _ (p : Platform) where
  open p use {F, O, Reader, failed, remaining, get_u8, get_u32, get_uvarint, get_varint, get_data}

  -- A read that does not fail was made in good health and took at least n bytes.
  abbrev pub Takes : {A : Type 0} → ℕ → (Reader → A × Reader) → Type 0
  Takes n get =
      (r : Reader)
      → failed (get r).1 ≡ false
      → (failed r ≡ false) × (remaining (get r).1 + n ≤ remaining r)

  Takes-if :
      {A : Type 0} (n : ℕ) (b : Bool) (get other : Reader → A × Reader)
      → Takes n get
      → Takes n other
      → Takes n (λ r. if b then get r else other r)
  Takes-if n true get other h k = h
  Takes-if n false get other h k = k

  get_vec3-Takes : (get : Reader → F × Reader) → Takes 1 get → Takes 1 (get_vec3 p get)
  unfolding get_vec3
  get_vec3-Takes get h r e =
      let r1 = (get r).1 in
      let r2 = (get r1).1 in
      let (c, z) = h r2 e in
      let (b, y) = h r1 c in let (a, x) = h r b in (a, omega (arith, x, y, z))

  get_opaque-Takes : Takes 1 (get_opaque p)
  unfolding get_opaque
  get_opaque-Takes r e =
      let (n, r1) = get_u32 r in
      let (b, y) = p.get_data_takes r1 n e in
      let (a, x) = p.get_u32_takes r b in (a, omega (arith, x, y))

  pub get_str-Takes : Takes 1 (get_str p)
  unfolding get_str
  get_str-Takes r e =
      let (n, r1) = get_uvarint r in
      let (b, y) = p.get_data_takes r1 n e in
      let (a, x) = p.get_uvarint_takes r b in (a, omega (arith, x, y))

  get_bytes-Takes : Takes 1 (get_bytes p)
  unfolding get_bytes
  get_bytes-Takes r e =
      let (n, r1) = get_uvarint r in
      let (b, y) = p.get_data_takes r1 n e in
      let (a, x) = p.get_uvarint_takes r b in (a, omega (arith, x, y))

  get_double-Takes : Takes 1 (get_double p)
  unfolding get_double
  get_double-Takes r e =
      let r1 = (get_u32 r).1 in
      let (b, y) = p.get_u32_takes r1 e in
      let (a, x) = p.get_u32_takes r b in (a, omega (arith, x, y))

  get_tagged-Takes : (tag ref : ℕ) → Takes 1 (λ r. get_tagged p tag r ref)
  unfolding get_tagged get_float_by
  get_tagged-Takes tag ref r e = ground (
    arith,
    e,
    p.get_float_takes r,
    p.get_half_takes r,
    p.get_angle16_takes r,
    p.get_angle8_takes r,
    p.get_varint_takes r,
    p.get_u8_takes r,
    get_vec3-Takes p.get_float (λ s k. ground (arith, p.get_float_takes s k)) r,
    get_vec3-Takes p.get_half (λ s k. ground (arith, p.get_half_takes s k)) r,
    get_opaque-Takes r,
  )

  get_arg_tagged-Takes : (tag : ℕ) → Takes 0 (λ r. get_arg_tagged p tag r)
  unfolding get_arg_tagged
  get_arg_tagged-Takes tag r e =
      ground
        (arith, e, get_str-Takes r, get_bytes-Takes r, get_double-Takes r, get_tagged-Takes tag 0 r)

  -- An argument that reads takes at least a byte.
  pub get_arg-Takes : Takes 1 (get_arg p)
  unfolding get_arg
  get_arg-Takes r e =
      let (tag, r1) = get_u8 r in
      let (b, y) = get_arg_tagged-Takes tag r1 e in
      let (a, x) = p.get_u8_takes r b in (a, omega (arith, x, y))
