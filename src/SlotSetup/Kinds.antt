-- ===== src/SlotSetup/Kinds.antt =====
-- The kind of a slot against the tag of its values.
use goldnet_godot.Common.{ℕ, ◌<◌, ◌≡◌, Bool, true, false, ◌||◌, ◌==◌, arith}
use goldnet_godot.Platform.{
  Variant, VariantType, get_type, nil, bool, int, float, vector3, string, string_name, packed_bytes,
  other, nil_type, bool_type, int_type, float_type, vector3_type, string_type, string_name_type,
  packed_bytes_type, other_type,
}
use goldnet_godot.Values.{
  quant_auto, tag_for, tag_half, tag_vec3_half, tag_angle16, tag_angle8, tag_time_delta,
  sk_int_step,
}
use goldnet_godot.SlotSetup.{slot_kind}

-- The hints that are meant for values of a type.
abbrev pub suits : VariantType → ℕ → Bool
suits int_type q = q == quant_auto || q == tag_time_delta
suits float_type q = q == quant_auto || (q == tag_half || (q == tag_angle16 || q == tag_angle8))
suits vector3_type q = q == quant_auto || q == tag_vec3_half
suits bool_type q = q == quant_auto
suits nil_type q = q == quant_auto
suits string_type q = q == quant_auto
suits string_name_type q = q == quant_auto
suits packed_bytes_type q = q == quant_auto
suits other_type q = q == quant_auto

-- A slot whose kind is a bare tag carries its values as they go behind their tag: the kind is the tag
-- that gn_tag_for gives any value of the slot's declared type, if the hint is one for that type.
pub slot_kind-tag_for :
    {F O : Type 0} (v : Variant F O) (q : ℕ) (grid : Bool)
    → suits (get_type v) q ≡ true
    → slot_kind (get_type v) q grid < sk_int_step
    → tag_for v q ≡ slot_kind (get_type v) q grid
unfolding slot_kind tag_for
slot_kind-tag_for nil q grid fits small = ground arith
slot_kind-tag_for (bool b) q grid fits small = ground arith
slot_kind-tag_for (int i) q grid fits small = ground arith
slot_kind-tag_for (float x) q true fits small = ground arith
slot_kind-tag_for (float x) q false fits small = ground arith
slot_kind-tag_for (vector3 x y z) q true fits small = ground arith
slot_kind-tag_for (vector3 x y z) q false fits small = ground arith
slot_kind-tag_for (string s) q grid fits small = ground arith
slot_kind-tag_for (string_name s) q grid fits small = ground arith
slot_kind-tag_for (packed_bytes b) q grid fits small = ground arith
slot_kind-tag_for (other o) q grid fits small = ground arith
