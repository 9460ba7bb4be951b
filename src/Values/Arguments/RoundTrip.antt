-- ===== src/Values/Arguments/RoundTrip.antt =====
-- What get_str and get_arg read of what put_str and put_arg wrote.
use goldnet_godot.Common.{
  ℕ, ◌+◌, ◌*◌, ◌/◌, ◌%◌, ◌^◌, ◌<◌, ◌≡◌, ◌∙◌, String, List, ◌++◌, length, arith, inl, inr,
  Bool-cases,
}
use mathlib.Core.List.{append_assoc}
use goldnet_godot.Platform.{
  Platform, Variant, nil, bool, int, float, vector3, string, string_name, packed_bytes, other,
  get_type,
}
use goldnet_godot.Values.{quant_auto, tag_for, put_value, put_payload, type_tag}
use goldnet_godot.Values.Tagged.{precision, get-put_payload}
use goldnet_godot.Values.Arguments.{
  arg_nil, arg_string, arg_string_name, arg_bytes, arg_double, put_bytes, put_str, get_str,
  get_bytes, put_double, put_arg, get_arg, get_arg_tagged,
}

module _ (p : Platform) where
  open p use {F, O, f32, feq, double_bits, utf8, var_to_bytes, bytes_to_var, Reader, reader}

  -- What an argument is when it arrives: a vector in floats, another type as its Variant encoding
  -- gives it back, and everything else as it was.
  unfoldable pub arrives : Variant F O → Variant F O
  arrives (vector3 x y z) = vector3 (f32 x) (f32 y) (f32 z)
  arrives (other o) = bytes_to_var (var_to_bytes (other o))
  arrives v = v

  -- The sizes that the wire can carry, and numbers of 64 bits that are such.
  abbrev pub Fits : Variant F O → Type 0
  Fits (string s) = length (utf8 s) < 2 ^ 32
  Fits (string_name s) = length (utf8 s) < 2 ^ 32
  Fits (packed_bytes b) = length b < 2 ^ 32
  Fits (int i) = (i < 2 ^ 64) × (length (var_to_bytes (int i)) < 2 ^ 32)
  Fits (float d) = (double_bits d < 2 ^ 64) × (length (var_to_bytes (float d)) < 2 ^ 32)
  Fits v = length (var_to_bytes v) < 2 ^ 32

  get-put_bytes :
      (b rest : List ℕ)
      → length b < 2 ^ 32
      → get_bytes p (reader (put_bytes p b ++ rest)) ≡ (b, reader rest)
  unfolding get_bytes put_bytes
  get-put_bytes b rest h = ground (
    arith,
    append_assoc (p.put_uvarint (length b)) b rest,
    p.get-put_uvarint (length b) (b ++ rest) h,
    p.get_data-append b rest,
  )

  pub get-put_str :
      (s : String) (rest : List ℕ)
      → length (utf8 s) < 2 ^ 32
      → get_str p (reader (put_str p s ++ rest)) ≡ (s, reader rest)
  unfolding get_str put_str
  get-put_str s rest h =
      let b = utf8 s in
      ground (
        arith,
        append_assoc (p.put_uvarint (length b)) b rest,
        p.get-put_uvarint (length b) (b ++ rest) h,
        p.get_data-append b rest,
        p.of_utf8-utf8 s,
      )

  -- Behind one tag byte, what the tag's reader gives.
  get_arg-tag :
      (tag : ℕ) (body rest : List ℕ)
      → tag < 256
      → get_arg p (reader ((p.put_u8 tag ++ body) ++ rest))
        ≡ get_arg_tagged p tag (reader (body ++ rest))
  unfolding get_arg
  get_arg-tag tag body rest h =
      rw (append_assoc (p.put_u8 tag) body rest, p.get-put_u8 tag (body ++ rest) h)

  get-put_double :
      (d : F) (rest : List ℕ)
      → double_bits d < 2 ^ 64
      → get_arg p (reader (put_double p d ++ rest)) ≡ (float d, reader rest)
  unfolding put_double get_arg_tagged
  get-put_double d rest small =
      let lo = double_bits d % 2 ^ 32 in
      let hi = double_bits d / 2 ^ 32 % 2 ^ 32 in
      let whole : lo + hi * 2 ^ 32 ≡ double_bits d = omega arith in
      get_arg-tag arg_double (p.put_u32 lo ++ p.put_u32 hi) rest (omega arith)
      ∙ rw (
        append_assoc (p.put_u32 lo) (p.put_u32 hi) rest,
        p.get-put_u32 lo (p.put_u32 hi ++ rest) (omega arith),
        p.get-put_u32 hi rest (omega arith),
        whole,
        p.bits_double-double_bits d,
      )

  type_tag_lt : (v : Variant F O) → type_tag (get_type v) < 10
  type_tag_lt nil = omega arith
  type_tag_lt _ = omega arith

  -- A value that goes as the snapshot's tagged values do: no value tag is an argument's.
  get_arg_tagged-payload :
      (tag : ℕ) (v : Variant F O) (rest : List ℕ)
      → tag < 10
      → length (var_to_bytes v) < 2 ^ 32
      → get_arg_tagged p tag (reader (put_payload p tag v 0 ++ rest))
        ≡ (precision p tag v, reader rest)
  unfolding get_arg_tagged
  get_arg_tagged-payload tag v rest ht h =
      ground (arith, get-put_payload p tag v 0 rest (omega arith) h)

  get-put_arg_value :
      (v : Variant F O) (rest : List ℕ)
      → length (var_to_bytes v) < 2 ^ 32
      → get_arg p (reader (put_value p v quant_auto 0 ++ rest))
        ≡ (precision p (type_tag (get_type v)) v, reader rest)
  unfolding put_value tag_for
  get-put_arg_value v rest h =
      let tag = type_tag (get_type v) in
      get_arg-tag tag (put_payload p tag v 0) rest (omega (arith, type_tag_lt v))
      ∙ get_arg_tagged-payload tag v rest (type_tag_lt v) h

  get-put_arg_float :
      (d : F) (rest : List ℕ)
      → double_bits d < 2 ^ 64
      → length (var_to_bytes (float d)) < 2 ^ 32
      → get_arg p (reader (put_arg p (float d) ++ rest)) ≡ (float d, reader rest)
  unfolding put_arg precision
  get-put_arg_float d rest small h = elim (Bool-cases (feq (f32 d) d)) [
    | inl same ↦
        ground (arith, get-put_arg_value (float d) rest h, p.feq_f32 d, p.to_double_float d)
    | inr wide ↦ ground (arith, get-put_double d rest small)
  ]

  -- An argument of a call reads as it was sent, a double to the last bit, but for a vector, which
  -- comes in floats, and a type with no form of its own, which Godot's encoding carries.
  pub get-put_arg :
      (v : Variant F O) (rest : List ℕ)
      → Fits v
      → get_arg p (reader (put_arg p v ++ rest)) ≡ (arrives v, reader rest)
  unfolding put_arg arrives precision
  get-put_arg nil rest h =
      unfold get_arg get_arg_tagged in rw (p.get-put_u8 arg_nil rest (omega arith))
  get-put_arg (bool b) rest h = ground (arith, get-put_arg_value (bool b) rest h, p.to_bool_bool b)
  get-put_arg (int i) rest h =
      ground (arith, get-put_arg_value (int i) rest h.1, p.to_int_int i h.0)
  get-put_arg (float d) rest h = get-put_arg_float d rest h.0 h.1
  get-put_arg (vector3 x y z) rest h =
      ground (arith, get-put_arg_value (vector3 x y z) rest h, p.to_vector3_vector3 x y z)
  get-put_arg (string s) rest h =
      get_arg-tag arg_string (put_str p s) rest (omega arith)
      ∙ unfold get_arg_tagged in rw (get-put_str s rest h)
  get-put_arg (string_name s) rest h =
      get_arg-tag arg_string_name (put_str p s) rest (omega arith)
      ∙ unfold get_arg_tagged in rw (get-put_str s rest h)
  get-put_arg (packed_bytes b) rest h =
      get_arg-tag arg_bytes (put_bytes p b) rest (omega arith)
      ∙ unfold get_arg_tagged in rw (get-put_bytes b rest h)
  get-put_arg (other o) rest h = get-put_arg_value (other o) rest h
