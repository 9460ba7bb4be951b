-- ===== src/Values/Arguments.antt =====
-- put_str, get_str, put_arg and get_arg of src/goldnet_multiplayer.cpp: a call's arguments on the wire.
pub mod RoundTrip
pub mod Bounds
use goldnet_godot.Common.{
  ℕ, ◌+◌, ◌*◌, ◌/◌, ◌%◌, ◌^◌, Bool, true, false, String, Option, none, some, List, [], ◌∷◌, ◌++◌,
  length, ◌==◌, if◌then◌else◌,
}
use goldnet_godot.Platform.{
  Platform, Variant, nil, bool, int, float, vector3, string, string_name, packed_bytes, other,
}
use goldnet_godot.Values.{quant_auto, put_value, get_tagged}

abbrev pub arg_nil : ℕ
arg_nil = 64

abbrev pub arg_string : ℕ
arg_string = 65

abbrev pub arg_string_name : ℕ
arg_string_name = 66

abbrev pub arg_bytes : ℕ
arg_bytes = 67

abbrev pub arg_double : ℕ
arg_double = 68

module _ (p : Platform) where
  open p use {F, O, f32, feq, double_bits, bits_double, utf8, of_utf8, Reader}
  open p use {put_u8, put_u32, put_uvarint, get_u8, get_u32, get_uvarint, get_data}

  -- uvarint length, then the bytes.
  unfoldable pub put_bytes : List ℕ → List ℕ
  put_bytes b = put_uvarint (length b % 2 ^ 32) ++ b

  unfoldable pub put_str : String → List ℕ
  unfolding put_bytes
  put_str s = put_bytes (utf8 s)

  unfoldable pub get_str : Reader → String × Reader
  get_str r =
      let (n, r1) = get_uvarint r in
      let (b, r2) = get_data r1 n in (elim b [ none ↦ "" | some u ↦ of_utf8 u ], r2)

  unfoldable pub get_bytes : Reader → List ℕ × Reader
  get_bytes r =
      let (n, r1) = get_uvarint r in
      let (b, r2) = get_data r1 n in (elim b [ none ↦ [] | some u ↦ u ], r2)

  put_double : F → List ℕ
  put_double d =
      put_u8 arg_double
      ++ (put_u32 (double_bits d % 2 ^ 32) ++ put_u32 (double_bits d / 2 ^ 32 % 2 ^ 32))

  unfoldable pub put_arg : Variant F O → List ℕ
  unfolding put_double
  put_arg nil = put_u8 arg_nil
  put_arg (string s) = put_u8 arg_string ++ put_str s
  put_arg (string_name s) = put_u8 arg_string_name ++ put_str s
  put_arg (packed_bytes b) = put_u8 arg_bytes ++ put_bytes b
  put_arg (float d) = if feq (f32 d) d then put_value p (float d) quant_auto 0 else put_double d
  put_arg (bool b) = put_value p (bool b) quant_auto 0
  put_arg (int i) = put_value p (int i) quant_auto 0
  put_arg (vector3 x y z) = put_value p (vector3 x y z) quant_auto 0
  put_arg (other o) = put_value p (other o) quant_auto 0

  get_double : Reader → Variant F O × Reader
  get_double r =
      let (lo, r1) = get_u32 r in
      let (hi, r2) = get_u32 r1 in (float (bits_double (lo + hi * 2 ^ 32)), r2)

  unfoldable pub get_arg_tagged : ℕ → Reader → Variant F O × Reader
  unfolding get_double
  get_arg_tagged tag r =
      if tag == arg_nil
      then (nil, r)
      else if tag == arg_string
      then (let (s, r1) = get_str r in (string s, r1))
      else if tag == arg_string_name
      then (let (s, r1) = get_str r in (string_name s, r1))
      else if tag == arg_bytes
      then (let (b, r1) = get_bytes r in (packed_bytes b, r1))
      else if tag == arg_double
      then get_double r
      else get_tagged p tag r 0

  unfoldable pub get_arg : Reader → Variant F O × Reader
  unfolding get_arg_tagged
  get_arg r = let (tag, r1) = get_u8 r in get_arg_tagged tag r1
