-- ===== src/Values/Tagged.antt =====
-- The round trip of a tagged value (gn_put_value, gn_get_value): what the receiver reads is the value
-- that the tag's precision leaves of the one that was sent, and the reader stands behind it.
use goldnet_godot.Common.{ℕ, ◌^◌, ◌<◌, ◌≡◌, List, ◌++◌, length, ◌==◌, if◌then◌else◌, arith}
use mathlib.Core.List.{append_assoc}
use goldnet_godot.Platform.{Platform, Variant, bool, int, float, vector3, add64, sub64}
use goldnet_godot.Values.{
  tag_float, tag_int, tag_vec3, tag_bool, tag_angle16, tag_half, tag_vec3_half, tag_angle8,
  tag_time_delta, tag_for, put_vec3, put_opaque, put_payload, put_value, get_vec3, get_float_by,
  get_opaque, get_tagged, get_value,
}

module _ (p : Platform) where
  open p use {F, O, f32, half, of_int, fdiv, fmul, tau, to_int, to_double, to_bool, to_vector3}
  open p use {var_to_bytes, bytes_to_var, Reader, reader, angle_quanta, put_float, put_half}
  open p use {get_float, get_half}

  -- The angle that stands for a number of quanta, as get_angle16 and get_angle8 decode it.
  unfoldable pub angle_value : ℕ → ℕ → F
  angle_value q bits = fmul (f32 (fdiv (f32 (of_int q)) (f32 (of_int (2 ^ bits))))) tau

  unfoldable pub rounded : (F → F) → F × F × F → Variant F O
  rounded r (x, y, z) = vector3 (r (f32 x)) (r (f32 y)) (r (f32 z))

  -- What a tag's precision leaves of a value.
  unfoldable pub precision : ℕ → Variant F O → Variant F O
  unfolding rounded
  precision tag v =
      if tag == tag_float
      then float (f32 (to_double v))
      else if tag == tag_int
      then int (to_int v)
      else if tag == tag_vec3
      then rounded (λ d. d) (to_vector3 v)
      else if tag == tag_bool
      then bool (to_bool v)
      else if tag == tag_angle16
      then float (angle_value (angle_quanta (f32 (to_double v)) 16) 16)
      else if tag == tag_angle8
      then float (angle_value (angle_quanta (f32 (to_double v)) 8) 8)
      else if tag == tag_half
      then float (half (f32 (to_double v)))
      else if tag == tag_vec3_half
      then rounded half (to_vector3 v)
      else if tag == tag_time_delta
      then int (to_int v)
      else bytes_to_var (var_to_bytes v)

  get-put_vec3 :
      (put : F → List ℕ) (get : Reader → F × Reader) (r : F → F) (v : Variant F O) (rest : List ℕ)
      → ((d : F) (more : List ℕ) → get (reader (put (f32 d) ++ more)) ≡ (r (f32 d), reader more))
      → get_vec3 p get (reader (put_vec3 p put v ++ rest)) ≡ (rounded r (to_vector3 v), reader rest)
  unfolding get_vec3 put_vec3 rounded
  get-put_vec3 put get r v rest h = simp (append_assoc, h)

  get-put_opaque :
      (v : Variant F O) (rest : List ℕ)
      → length (var_to_bytes v) < 2 ^ 32
      → get_opaque p (reader (put_opaque p v ++ rest))
        ≡ (bytes_to_var (var_to_bytes v), reader rest)
  unfolding get_opaque put_opaque
  get-put_opaque v rest h =
      let b = var_to_bytes v in
      ground (
        arith,
        append_assoc (p.put_u32 (length b)) b rest,
        p.get-put_u32 (length b) (b ++ rest) h,
        p.get_data-append b rest,
      )

  sub64-add64 : (a b : ℕ) → a < 2 ^ 64 → b < 2 ^ 64 → add64 b (sub64 a b) ≡ a
  sub64-add64 a b ha hb = omega arith

  get-put_float_by :
      (bytes : List ℕ) (get : Reader → F × Reader) (d : F) (rest : List ℕ)
      → get (reader (bytes ++ rest)) ≡ (d, reader rest)
      → get_float_by p get (reader (bytes ++ rest)) ≡ (float d, reader rest)
  unfolding get_float_by
  get-put_float_by bytes get d rest h = rw h

  -- Reading the payload of a tag gives the value at that tag's precision, for a time stamp against
  -- the reference that it was written against.
  pub get-put_payload :
      (tag : ℕ) (v : Variant F O) (now : ℕ) (rest : List ℕ)
      → now < 2 ^ 32
      → length (var_to_bytes v) < 2 ^ 32
      → get_tagged p tag (reader (put_payload p tag v now ++ rest)) now
        ≡ (precision tag v, reader rest)
  unfolding get_tagged put_payload precision angle_value
  get-put_payload tag v now rest hn hs = ground (
    arith,
    get-put_vec3 put_float get_float (λ d. d) v rest (λ d more. p.get-put_float d more),
    get-put_vec3 put_half get_half half v rest (λ d more. p.get-put_half (f32 d) more),
    get-put_opaque v rest hs,
    get-put_float_by _ get_float _ rest (p.get-put_float (to_double v) rest),
    get-put_float_by _ get_half _ rest (p.get-put_half (f32 (to_double v)) rest),
    get-put_float_by _ p.get_angle16 _ rest (p.get-put_angle16 (f32 (to_double v)) rest),
    get-put_float_by _ p.get_angle8 _ rest (p.get-put_angle8 (f32 (to_double v)) rest),
    p.get-put_varint (to_int v) rest (p.to_int_lt v),
    p.get-put_varint (sub64 (to_int v) now) rest (omega arith),
    sub64-add64 (to_int v) now (p.to_int_lt v) (omega arith),
    p.get-put_u8 0 rest (omega arith),
    p.get-put_u8 1 rest (omega arith),
  )

  tag_for_lt : (v : Variant F O) (quant : ℕ) → quant < 256 → tag_for v quant < 256
  unfolding tag_for
  tag_for_lt v quant h = ground arith

  -- A value written behind its tag reads as that value at the tag's precision, whatever follows.
  pub get-put_value :
      (v : Variant F O) (quant now : ℕ) (rest : List ℕ)
      → quant < 256
      → now < 2 ^ 32
      → length (var_to_bytes v) < 2 ^ 32
      → get_value p (reader (put_value p v quant now ++ rest)) now
        ≡ (precision (tag_for v quant) v, reader rest)
  unfolding get_value put_value
  get-put_value v quant now rest hq hn hs =
      let tag = tag_for v quant in
      let body = put_payload p tag v now in
      ground (
        arith,
        append_assoc (p.put_u8 tag) body rest,
        p.get-put_u8 tag (body ++ rest) (tag_for_lt v quant hq),
        get-put_payload tag v now rest hn hs,
      )
