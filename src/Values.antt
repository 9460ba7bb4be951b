-- ===== src/Values.antt =====
-- src/goldnet_multiplayer.cpp: tagged values, quantisation hints, slots coded by kind, and the
-- arguments of a call. A C++ switch is a chain of tests on the number that it switches over.
pub mod Tagged
pub mod Slots
pub mod Arguments
mod Examples
use goldnet_godot.Common.{
  ℕ, ◌+◌, ◌-◌, ◌*◌, ◌/◌, ◌%◌, ◌^◌, Bool, true, false, ◌&&◌, ◌||◌, not, String, Option, none, some,
  List, [], ◌∷◌, ◌++◌, length, ltb, leb, ◌==◌, if◌then◌else◌, string_eq,
}
use goldnet_godot.Platform.{
  Platform, Variant, nil, bool, int, float, vector3, string, string_name, packed_bytes, other,
  VariantType, nil_type, bool_type, int_type, float_type, vector3_type, string_type,
  string_name_type, packed_bytes_type, other_type, get_type, add64, sub64,
}

-- enum ValueTag
abbrev pub tag_opaque : ℕ
tag_opaque = 0

abbrev pub tag_float : ℕ
tag_float = 1

abbrev pub tag_int : ℕ
tag_int = 2

abbrev pub tag_vec3 : ℕ
tag_vec3 = 3

abbrev pub tag_bool : ℕ
tag_bool = 4

abbrev pub tag_angle16 : ℕ
tag_angle16 = 5

abbrev pub tag_half : ℕ
tag_half = 6

abbrev pub tag_vec3_half : ℕ
tag_vec3_half = 7

abbrev pub tag_angle8 : ℕ
tag_angle8 = 8

abbrev pub tag_time_delta : ℕ
tag_time_delta = 9

abbrev pub quant_auto : ℕ
quant_auto = 255

-- enum SlotKind
abbrev pub sk_int_step : ℕ
sk_int_step = 32

abbrev pub sk_angle16_step : ℕ
sk_angle16_step = 33

abbrev pub sk_angle8_step : ℕ
sk_angle8_step = 34

abbrev pub sk_float_grid : ℕ
sk_float_grid = 35

abbrev pub sk_vec3_grid : ℕ
sk_vec3_grid = 36

abbrev pub sk_tagged : ℕ
sk_tagged = 37

-- gn_quant_from_name
unfoldable pub quant_from_name : String → ℕ
quant_from_name name =
    if string_eq.beq name "angle16"
    then tag_angle16
    else if string_eq.beq name "angle8"
    then tag_angle8
    else if string_eq.beq name "half"
    then tag_half
    else if string_eq.beq name "vec3_half"
    then tag_vec3_half
    else if string_eq.beq name "time_delta"
    then tag_time_delta
    else quant_auto

abbrev pub is_int : VariantType → Bool
is_int int_type = true
is_int _ = false

abbrev pub type_tag : VariantType → ℕ
type_tag float_type = tag_float
type_tag int_type = tag_int
type_tag vector3_type = tag_vec3
type_tag bool_type = tag_bool
type_tag _ = tag_opaque

-- gn_tag_for
unfoldable pub tag_for : {F O : Type 0} → Variant F O → ℕ → ℕ
tag_for v quant =
    if quant == tag_angle16 || quant == tag_angle8 || quant == tag_half || quant == tag_vec3_half
    then quant
    else if quant == tag_time_delta && is_int (get_type v)
    then quant
    else type_tag (get_type v)

unfoldable pub slot_kind_stepped : ℕ → Bool
slot_kind_stepped kind = leb sk_int_step kind && ltb kind sk_tagged

-- The shortest way round from one angle step to another; `&` with a power of two less one is `%`.
unfoldable pub angle_step : ℕ → ℕ → ℕ → ℕ
angle_step to from bits = sub64 (add64 (sub64 to from) (2 ^ bits / 2) % 2 ^ bits) (2 ^ bits / 2)

module _ (p : Platform) where
  open p use {
    F, O, f32, half, of_int, fdiv, fmul, is_finite, llround, tau, to_int, to_double, to_bool,
    to_vector3, var_to_bytes, bytes_to_var, Reader, put_u8, put_u32, put_varint, put_float,
    put_half, put_angle16, put_angle8, angle_quanta, get_u8, get_u32, get_varint, get_float,
    get_half, get_angle16, get_angle8, get_data,
  }

  -- The cases of gn_put_payload.
  put_vec3 : (F → List ℕ) → Variant F O → List ℕ
  put_vec3 put v = let (x, y, z) = to_vector3 v in put (f32 x) ++ (put (f32 y) ++ put (f32 z))

  put_opaque : Variant F O → List ℕ
  put_opaque v = put_u32 (length (var_to_bytes v) % 2 ^ 32) ++ var_to_bytes v

  unfoldable pub put_payload : ℕ → Variant F O → ℕ → List ℕ
  unfolding put_vec3 put_opaque
  put_payload tag v now =
      if tag == tag_angle16
      then put_angle16 (f32 (to_double v))
      else if tag == tag_angle8
      then put_angle8 (f32 (to_double v))
      else if tag == tag_half
      then put_half (f32 (to_double v))
      else if tag == tag_vec3_half
      then put_vec3 put_half v
      else if tag == tag_time_delta
      then put_varint (sub64 (to_int v) now)
      else if tag == tag_float
      then put_float (f32 (to_double v))
      else if tag == tag_int
      then put_varint (to_int v)
      else if tag == tag_vec3
      then put_vec3 put_float v
      else if tag == tag_bool
      then put_u8 (if to_bool v then 1 else 0)
      else put_opaque v

  unfoldable pub put_value : Variant F O → ℕ → ℕ → List ℕ
  put_value v quant now = put_u8 (tag_for v quant) ++ put_payload (tag_for v quant) v now

  -- The cases of gn_get_tagged.
  get_vec3 : (Reader → F × Reader) → Reader → Variant F O × Reader
  get_vec3 get r =
      let (x, r1) = get r in let (y, r2) = get r1 in let (z, r3) = get r2 in (vector3 x y z, r3)

  get_float_by : (Reader → F × Reader) → Reader → Variant F O × Reader
  get_float_by get r = let (d, r1) = get r in (float d, r1)

  abbrev opaque_value : Option (List ℕ) → Variant F O
  opaque_value none = nil
  opaque_value (some b) = bytes_to_var b

  get_opaque : Reader → Variant F O × Reader
  get_opaque r = let (n, r1) = get_u32 r in let (b, r2) = get_data r1 n in (opaque_value b, r2)

  unfoldable pub get_tagged : ℕ → Reader → ℕ → Variant F O × Reader
  unfolding get_vec3 get_float_by get_opaque
  get_tagged tag r ref =
      if tag == tag_float
      then get_float_by get_float r
      else if tag == tag_int
      then (let (i, r1) = get_varint r in (int i, r1))
      else if tag == tag_vec3
      then get_vec3 get_float r
      else if tag == tag_bool
      then (let (b, r1) = get_u8 r in (bool (not (b == 0)), r1))
      else if tag == tag_angle16
      then get_float_by get_angle16 r
      else if tag == tag_angle8
      then get_float_by get_angle8 r
      else if tag == tag_half
      then get_float_by get_half r
      else if tag == tag_vec3_half
      then get_vec3 get_half r
      else if tag == tag_time_delta
      then (let (i, r1) = get_varint r in (int (add64 ref i), r1))
      else get_opaque r

  unfoldable pub get_value : Reader → ℕ → Variant F O × Reader
  get_value r ref = let (tag, r1) = get_u8 r in get_tagged tag r1 ref
