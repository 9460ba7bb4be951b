-- ===== src/Values/Slots/RoundTrip.antt =====
-- What get_slot reads of what put_slot wrote, where the two ends hold bases with the same quanta.
use goldnet_godot.Common.{
  ℕ, ◌%◌, ◌^◌, ◌<◌, ◌≡◌, Option, none, some, List, ◌++◌, length, ◌==◌, if◌then◌else◌, arith,
}
use mathlib.Core.List.{append_assoc}
use goldnet_godot.Platform.{Platform, Variant, int, float, vector3, add64, sub64}
use goldnet_godot.Values.{
  tag_angle16, tag_angle8, sk_int_step, sk_angle16_step, sk_angle8_step, sk_float_grid,
  sk_vec3_grid, sk_tagged, tag_for, angle_step,
}
use goldnet_godot.Values.Tagged.{precision, angle_value, get-put_payload, get-put_value}
use goldnet_godot.Values.Slots.{
  grid_q, base_int, base_grid, grid_axes, base_axes, put_angle_slot, put_axes, put_slot,
  get_angle_slot, get_axes, get_slot,
}

-- An angle step leads from the one number of quanta to the other, and the step is the short way
-- round: at most half a turn either way, as a signed number.
pub angle_step_8 :
    (to from : ℕ) → to < 2 ^ 8 → from < 2 ^ 8 → add64 from (angle_step to from 8) % 2 ^ 8 ≡ to
unfolding angle_step
angle_step_8 to from h k = omega arith

pub angle_step_16 :
    (to from : ℕ) → to < 2 ^ 16 → from < 2 ^ 16 → add64 from (angle_step to from 16) % 2 ^ 16 ≡ to
unfolding angle_step
angle_step_16 to from h k = omega arith

step_back : (a b : ℕ) → a < 2 ^ 64 → b < 2 ^ 64 → add64 b (sub64 a b) ≡ a
step_back a b h k = omega arith

module _ (p : Platform) where
  open p use {F, O, f32, of_int, fdiv, fmul, tau, to_int, to_double, to_vector3, var_to_bytes}
  open p use {Reader, reader, angle_quanta}

  pub grid_q_lt : (v grid : F) → grid_q p v grid < 2 ^ 64
  unfolding grid_q
  grid_q_lt v grid = ground (arith, p.llround_lt (p.fdiv v grid))

  axis_value : F → ℕ → F
  axis_value grid q = f32 (fmul (of_int q) grid)

  axes_value : F → ℕ × ℕ × ℕ → Variant F O
  axes_value grid (x, y, z) = vector3 (axis_value grid x) (axis_value grid y) (axis_value grid z)

  -- What a slot's kind leaves of a value: no base in sight.
  unfoldable pub slot_value : ℕ → F → ℕ → Variant F O → Variant F O
  unfolding axes_value axis_value
  slot_value kind grid quant v =
      if kind == sk_int_step
      then int (to_int v)
      else if kind == sk_angle16_step
      then float (angle_value p (angle_quanta (f32 (to_double v)) 16) 16)
      else if kind == sk_angle8_step
      then float (angle_value p (angle_quanta (f32 (to_double v)) 8) 8)
      else if kind == sk_float_grid
      then float (fmul (of_int (grid_q p (to_double v) grid)) grid)
      else if kind == sk_vec3_grid
      then axes_value grid (grid_axes p grid v)
      else if kind == sk_tagged
      then precision p (tag_for v quant) v
      else precision p kind v

  -- The quanta that a stepped kind steps from.
  unfoldable pub quanta : ℕ → F → Variant F O → ℕ × ℕ × ℕ
  quanta kind grid v =
      if kind == sk_int_step
      then (to_int v, 0, 0)
      else if kind == sk_angle16_step
      then (angle_quanta (f32 (to_double v)) 16, 0, 0)
      else if kind == sk_angle8_step
      then (angle_quanta (f32 (to_double v)) 8, 0, 0)
      else if kind == sk_float_grid
      then (grid_q p (to_double v) grid, 0, 0)
      else if kind == sk_vec3_grid
      then grid_axes p grid v
      else (0, 0, 0)

  -- The two ends step from the same place: both hold no base, or bases with the same quanta.
  abbrev pub SameBase : ℕ → F → Option (Variant F O) → Option (Variant F O) → Type 0
  SameBase kind grid none none = Unit
  SameBase kind grid none (some c) = ⊥
  SameBase kind grid (some b) none = ⊥
  SameBase kind grid (some b) (some c) = quanta kind grid b ≡ quanta kind grid c

  Word : ℕ × ℕ × ℕ → Type 0
  Word (x, y, z) = (x < 2 ^ 64) × (y < 2 ^ 64) × (z < 2 ^ 64)

  grid_axes-Word : (grid : F) (v : Variant F O) → Word (grid_axes p grid v)
  unfolding grid_axes Word
  grid_axes-Word grid v = (grid_q_lt _ grid, grid_q_lt _ grid, grid_q_lt _ grid)

  base_axes-Word : (grid : F) (b : Option (Variant F O)) → Word (base_axes p grid b)
  unfolding base_axes Word
  base_axes-Word grid none = omega arith
  base_axes-Word grid (some b) = grid_axes-Word grid b

  get-put_axes :
      (grid : F) (q b : ℕ × ℕ × ℕ) (rest : List ℕ)
      → Word q
      → Word b
      → get_axes p (reader (put_axes p q b ++ rest)) grid b ≡ (axes_value grid q, reader rest)
  unfolding get_axes put_axes Word axes_value axis_value
  get-put_axes grid (x, y, z) (a, b, c) rest (hx, hy, hz) (ha, hb, hc) = simp (
    append_assoc,
    p.get-put_varint (sub64 x a) (p.put_varint (sub64 y b) ++ (p.put_varint (sub64 z c) ++ rest))
        (omega arith),
    p.get-put_varint (sub64 y b) (p.put_varint (sub64 z c) ++ rest) (omega arith),
    p.get-put_varint (sub64 z c) rest (omega arith),
    step_back x a hx ha,
    step_back y b hy hb,
    step_back z c hz hc,
  )

  get-put_step :
      (make : ℕ → Variant F O) (a b : ℕ) (rest : List ℕ)
      → a < 2 ^ 64
      → b < 2 ^ 64
      → (let (step, r1) = p.get_varint (reader (p.put_varint (sub64 a b) ++ rest)) in
          ◌≡◌ {A = Variant F O × Reader} (make (add64 b step), r1) (make a, reader rest))
  get-put_step make a b rest ha hb =
      rw (p.get-put_varint (sub64 a b) rest (omega arith), step_back a b ha hb)

  angle_step_lt : (a b bits : ℕ) → angle_step a b bits < 2 ^ 64
  unfolding angle_step
  angle_step_lt a b bits = omega arith

  -- The step of an angle leads back to its quanta, at the two widths that there are.
  Leads : ℕ → Type 0
  Leads bits =
      (to from : ℕ)
      → to < 2 ^ bits
      → from < 2 ^ bits
      → add64 from (angle_step to from bits) % 2 ^ bits ≡ to

  get-put_angle_slot :
      (bits tag : ℕ) (v b c : Variant F O) (now : ℕ) (rest : List ℕ)
      → Leads bits
      → angle_quanta (f32 (to_double b)) bits ≡ angle_quanta (f32 (to_double c)) bits
      → get_angle_slot p bits tag
          (reader (put_angle_slot p bits tag v (some b) now ++ rest))
          (some c)
          now
        ≡ (float (angle_value p (angle_quanta (f32 (to_double v)) bits) bits), reader rest)
  unfolding get_angle_slot put_angle_slot angle_value Leads
  get-put_angle_slot bits tag v b c now rest leads same =
      let to = angle_quanta (f32 (to_double v)) bits in
      let from = angle_quanta (f32 (to_double b)) bits in
      rw (
        ← same,
        p.get-put_varint (angle_step to from bits) rest (angle_step_lt to from bits),
        leads to from (p.angle_quanta_lt _ bits) (p.angle_quanta_lt _ bits),
      )

  base_int_lt : (b : Option (Variant F O)) → base_int p b < 2 ^ 64
  unfolding base_int
  base_int_lt none = omega arith
  base_int_lt (some b) = p.to_int_lt b

  base_grid_lt : (grid : F) (b : Option (Variant F O)) → base_grid p grid b < 2 ^ 64
  unfolding base_grid
  base_grid_lt grid none = omega arith
  base_grid_lt grid (some b) = grid_q_lt _ grid

  -- What a reader over a written slot gives, for each way to be without or with a base.
  get-put_slot_whole :
      (kind quant now : ℕ) (grid : F) (v : Variant F O) (rest : List ℕ)
      → quant < 256
      → now < 2 ^ 32
      → length (var_to_bytes v) < 2 ^ 32
      → get_slot p (reader (put_slot p kind grid quant v none now ++ rest)) kind grid none now
        ≡ (slot_value kind grid quant v, reader rest)
  unfolding get_slot put_slot slot_value base_int base_grid base_axes get_angle_slot put_angle_slot
      precision
  get-put_slot_whole kind quant now grid v rest hq hn hs = ground (
    arith,
    get-put_step (λ i. int i) (to_int v) 0 rest (p.to_int_lt v) (omega arith),
    get-put_payload p tag_angle16 v now rest hn hs,
    get-put_payload p tag_angle8 v now rest hn hs,
    get-put_step (λ q. float (fmul (of_int q) grid)) (grid_q p (to_double v) grid) 0 rest
        (grid_q_lt _ grid) (omega arith),
    get-put_axes grid (grid_axes p grid v) (0, 0, 0) rest (grid_axes-Word grid v)
        (base_axes-Word grid none),
    get-put_value p v quant now rest hq hn hs,
    get-put_payload p kind v now rest hn hs,
  )

  get-put_slot_stepped :
      (kind quant now : ℕ) (grid : F) (v b c : Variant F O) (rest : List ℕ)
      → quanta kind grid b ≡ quanta kind grid c
      → quant < 256
      → now < 2 ^ 32
      → length (var_to_bytes v) < 2 ^ 32
      → get_slot p
          (reader (put_slot p kind grid quant v (some b) now ++ rest))
          kind
          grid
          (some c)
          now
        ≡ (slot_value kind grid quant v, reader rest)
  unfolding get_slot put_slot slot_value base_int base_grid base_axes quanta Leads
  get-put_slot_stepped kind quant now grid v b c rest same hq hn hs = ground (
    arith,
    get-put_step (λ i. int i) (to_int v) (to_int c) rest (p.to_int_lt v) (p.to_int_lt c),
    get-put_angle_slot 16 tag_angle16 v b c now rest angle_step_16,
    get-put_angle_slot 8 tag_angle8 v b c now rest angle_step_8,
    get-put_step (λ q. float (fmul (of_int q) grid)) (grid_q p (to_double v) grid)
        (grid_q p (to_double c) grid) rest (grid_q_lt _ grid) (grid_q_lt _ grid),
    get-put_axes grid (grid_axes p grid v) (grid_axes p grid c) rest (grid_axes-Word grid v)
        (grid_axes-Word grid c),
    get-put_value p v quant now rest hq hn hs,
    get-put_payload p kind v now rest hn hs,
  )

  -- Whatever the slot's kind, and with a base or without one: a slot written reads as the value that
  -- its kind's precision leaves, the same with any base, if the two ends hold none or hold bases of
  -- the same quanta; and the reader stands behind the slot.
  pub get-put_slot :
      (kind quant now : ℕ) (grid : F) (v : Variant F O) (b c : Option (Variant F O)) (rest : List ℕ)
      → SameBase kind grid b c
      → quant < 256
      → now < 2 ^ 32
      → length (var_to_bytes v) < 2 ^ 32
      → get_slot p (reader (put_slot p kind grid quant v b now ++ rest)) kind grid c now
        ≡ (slot_value kind grid quant v, reader rest)
  get-put_slot kind quant now grid v none none rest same hq hn hs =
      get-put_slot_whole kind quant now grid v rest hq hn hs
  get-put_slot kind quant now grid v none (some c) rest same hq hn hs = absurd same
  get-put_slot kind quant now grid v (some b) none rest same hq hn hs = absurd same
  get-put_slot kind quant now grid v (some b) (some c) rest same hq hn hs =
      get-put_slot_stepped kind quant now grid v b c rest same hq hn hs
