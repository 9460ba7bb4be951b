-- ===== src/SlotSetup.antt =====
-- How a synchronizer's slots are set up, in src/goldnet_multiplayer.cpp: is_replicated_slot,
-- _should_intercept, get_sync_slots, _read_quant, _read_push and _make_slot_coding. The replication
-- config is a list of properties; the declared type of a slot's property is the engine's answer, nil
-- for one that has none; goldnet::MAX_SLOTS is a parameter.
pub mod Kinds
pub mod Slots
pub mod Plan
mod Examples
use Prim.Native.Nat.{◌/◌}
use goldnet_godot.Common.{
  ℕ, zero, suc, ◌+◌, ◌*◌, ◌%◌, ◌^◌, Bool, true, false, ◌&&◌, ◌||◌, not, String, Option, none, some,
  List, [], ◌∷◌, ◌++◌, length, get_or, any, map, HashMap, get, string_eq, ◌==◌, if◌then◌else◌,
}
use goldnet_godot.Platform.{
  Platform, Variant, VariantType, nil_type, bool_type, int_type, float_type, vector3_type,
  string_type, string_name_type, packed_bytes_type, other_type,
}
use goldnet_godot.Values.{
  quant_auto, quant_from_name, tag_float, tag_bool, tag_vec3, tag_half, tag_vec3_half, tag_angle16,
  tag_angle8, tag_time_delta, sk_int_step, sk_angle16_step, sk_angle8_step, sk_float_grid,
  sk_vec3_grid, sk_tagged,
}

-- A property of a replication config: its path's last subname ("" for none), by which the hints name
-- it, and whether the config has it as ALWAYS (sync) or ON_CHANGE (watch).
pub record Property : Type 0 where
  pub leaf : String
  pub sync : Bool
  pub watch : Bool

unfoldable pub is_replicated_slot : Property → Bool
is_replicated_slot c = c.sync || c.watch

-- _should_intercept, of a synchronizer with this config or none.
unfoldable pub should_intercept : Option (List Property) → Bool
should_intercept none = false
should_intercept (some props) = any is_replicated_slot props

-- The loop of get_sync_slots, over the room left of MAX_SLOTS.
unfoldable pub collect_slots : ℕ → List Property → List Property
collect_slots zero props = []
collect_slots (suc room) [] = []
collect_slots (suc room) (c ∷ props) =
    let with = collect_slots room props in
    let without = collect_slots (suc room) props in
    if is_replicated_slot c then c ∷ with else without

unfoldable pub get_sync_slots : ℕ → Option (List Property) → List Property
get_sync_slots max_slots none = []
get_sync_slots max_slots (some props) = collect_slots max_slots props

-- The hint of one slot, from the gn_quant meta.
unfoldable pub slot_quant : HashMap String String → Property → ℕ
slot_quant hints c = elim (get hints c.leaf) [
  | none ↦ quant_auto
  | some name ↦ quant_from_name name
]

-- _read_quant: none of them if no slot has a hint.
unfoldable pub read_quant : HashMap String String → List Property → List ℕ
read_quant [] slots = []
read_quant (h ∷ hints) slots =
    let codes = map (slot_quant (h ∷ hints)) slots in
    if any (λ q. not (q == quant_auto)) codes then codes else []

-- _read_push, of the names that the gn_push meta holds if it is an array.
unfoldable pub slot_push : List String → Property → Bool
slot_push names c = not (string_eq.beq c.leaf "") && any (string_eq.beq c.leaf) names

unfoldable pub read_push : Option (List String) → List Property → List Bool
read_push none slots = []
read_push (some names) slots =
    let pushed = map (slot_push names) slots in if any (λ b. b) pushed then pushed else []

-- The kind of a slot, from its declared type, its hint, and whether it has a grid.
unfoldable pub slot_kind : VariantType → ℕ → Bool → ℕ
slot_kind int_type q grid = if q == tag_time_delta then tag_time_delta else sk_int_step
slot_kind bool_type q grid = tag_bool
slot_kind float_type q grid =
    if grid
    then sk_float_grid
    else if q == tag_angle16
    then sk_angle16_step
    else if q == tag_angle8
    then sk_angle8_step
    else if q == tag_half
    then tag_half
    else tag_float
slot_kind vector3_type q grid =
    if grid then sk_vec3_grid else if q == tag_vec3_half then tag_vec3_half else tag_vec3
slot_kind nil_type q grid = sk_tagged
slot_kind string_type q grid = sk_tagged
slot_kind string_name_type q grid = sk_tagged
slot_kind packed_bytes_type q grid = sk_tagged
slot_kind other_type q grid = sk_tagged

-- `^` on numbers of so many bits.
unfoldable pub bit_xor : ℕ → ℕ → ℕ → ℕ
bit_xor zero a b = 0
bit_xor (suc bits) a b = (a + b) % 2 + 2 * bit_xor bits (a / 2) (b / 2)

-- `mix`, a step of FNV-1a over uint32_t.
unfoldable pub mix : ℕ → ℕ → ℕ
mix h b = (bit_xor 32 h b * 16777619) % 2 ^ 32

unfoldable pub fold_check : ℕ → ℕ
fold_check h =
    bit_xor 8 (bit_xor 8 (h % 2 ^ 8) (h / 2 ^ 8 % 2 ^ 8))
      (bit_xor 8 (h / 2 ^ 16 % 2 ^ 8) (h / 2 ^ 24 % 2 ^ 8))

module _ (p : Platform) where
  open p use {F, O, f32, float_bits, is_positive, to_double, zero_double}

  -- One slot of a SlotCoding.
  pub record SlotCode : Type 0 where
    pub kind : ℕ
    pub grid : F
    pub quant : ℕ

  unfoldable pub slot_grid : HashMap String (Variant F O) → Property → F
  slot_grid grids c = elim (get grids c.leaf) [ none ↦ zero_double | some g ↦ to_double g ]

  unfoldable pub slot_code : VariantType → ℕ → F → SlotCode
  slot_code type q grid = record {
    kind = slot_kind type q (is_positive grid);
    grid = grid;
    quant = q;
  }

  unfoldable pub mix_bytes : ℕ → ℕ → ℕ
  mix_bytes h bits =
      mix (mix (mix (mix h (bits % 2 ^ 8)) (bits / 2 ^ 8 % 2 ^ 8)) (bits / 2 ^ 16 % 2 ^ 8))
        (bits / 2 ^ 24 % 2 ^ 8)

  unfoldable pub mix_code : ℕ → SlotCode → ℕ
  mix_code h c =
      if c.kind == sk_float_grid || c.kind == sk_vec3_grid
      then mix_bytes (mix h c.kind) (float_bits (f32 c.grid))
      else mix h c.kind

  -- The loop of _make_slot_coding, over the slots and the declared types, whose hints are `quant`'s.
  unfoldable pub slot_codes :
      List ℕ → HashMap String (Variant F O) → ℕ → List Property → List VariantType → List SlotCode
  slot_codes quant grids s (c ∷ slots) (type ∷ types) =
      slot_code type (get_or quant s quant_auto) (slot_grid grids c)
      ∷ slot_codes quant grids (suc s) slots types
  slot_codes quant grids s _ _ = []

  unfoldable pub mix_codes : ℕ → List SlotCode → ℕ
  mix_codes h [] = h
  mix_codes h (c ∷ codes) = mix_codes (mix_code h c) codes

  -- _make_slot_coding: the codes and the check.
  unfoldable pub make_slot_coding :
      HashMap String String
      → HashMap String (Variant F O)
      → List Property
      → List VariantType
      → List SlotCode × ℕ
  make_slot_coding hints grids slots types =
      let codes = slot_codes (read_quant hints slots) grids 0 slots types in
      (codes, fold_check (mix_codes 2166136261 codes))
