-- ===== src/Commands.antt =====
-- Command streams, in src/goldnet_multiplayer.cpp: a call's arguments as the fields of a goldnet
-- command (command_from_args) and back (_deliver_command). goldnet::Field is a record here, whose
-- initial value is a parameter; Godot's Dictionary is an interface.
pub mod Signatures
pub mod Targets
pub mod RoundTrip
pub mod Scans
pub mod Permission
pub mod Typing
pub mod Finding
pub mod Arrival
mod Examples
use goldnet_godot.Common.{
  ℕ, zero, suc, ◌≡◌, Bool, true, false, ◌&&◌, not, String, Option, none, some, List, [], ◌∷◌, ◌++◌,
  length, HashMap, get, put, string_eq, ◌==◌, ◌>>=◌, if◌then◌else◌,
}
use goldnet_godot.Platform.{
  Platform, Variant, VariantType, int, float, bool, packed_bytes, get_type, nil_type, bool_type,
  int_type, float_type, vector3_type, string_type, string_name_type, packed_bytes_type, other_type,
}
use goldnet_godot.Values.Arguments.{put_arg, get_arg}

-- CMD_ARG_INT and those after it: what a field holds of its argument.
pub data Form : Type 0 where
  arg_int arg_float arg_bool arg_bytes arg_variant : Form

unfoldable pub command_arg_form : VariantType → Form
command_arg_form int_type = arg_int
command_arg_form float_type = arg_float
command_arg_form bool_type = arg_bool
command_arg_form packed_bytes_type = arg_bytes
command_arg_form nil_type = arg_variant
command_arg_form vector3_type = arg_variant
command_arg_form string_type = arg_variant
command_arg_form string_name_type = arg_variant
command_arg_form other_type = arg_variant

-- goldnet::Field, as far as the adapter fills it.
pub record Field (F : Type 0) : Type 0 where
  pub i : ℕ
  pub f : F
  pub bytes : List ℕ

-- What a call's only argument is to a command with a field table: a Dictionary, none for a value that
-- is no dictionary; and the value that a dictionary is.
pub record Dictionaries (V : Type 0) : Type 0 where
  pub entries : V → Option (HashMap String V)
  pub of_entries : HashMap String V → V

-- `number` of command_from_args.
abbrev pub is_number : VariantType → Bool
is_number int_type = true
is_number float_type = true
is_number bool_type = true
is_number nil_type = false
is_number vector3_type = false
is_number string_type = false
is_number string_name_type = false
is_number packed_bytes_type = false
is_number other_type = false

module _ (p : Platform) (blank : Field p.F) where
  open p use {F, O, f32, to_int, to_double, to_bool, reader, failed}

  -- The field of one argument; none if its declared type can't take it.
  unfoldable pub to_field : Form → Variant F O → Option (Field F)
  to_field arg_int v = if is_number (get_type v) then some (record blank { i = to_int v }) else none
  to_field arg_float v =
      if is_number (get_type v) then some (record blank { f = f32 (to_double v) }) else none
  to_field arg_bool v =
      if is_number (get_type v)
      then some (record blank { i = if to_bool v then 1 else 0 })
      else none
  to_field arg_bytes (packed_bytes b) = some (record blank { bytes = b })
  to_field arg_bytes _ = none
  to_field arg_variant v = some (record blank { bytes = put_arg p v })

  -- The loop of command_from_args over the arguments, which are as many as the forms.
  unfoldable pub to_fields : List Form → List (Variant F O) → Option (List (Field F))
  to_fields [] vs = some []
  to_fields (t ∷ ts) [] = none
  to_fields (t ∷ ts) (v ∷ vs) = do k ← to_field t v; ks ← to_fields ts vs; some (k ∷ ks)

  -- The values of a table's fields, in its order.
  unfoldable pub lookups : HashMap String (Variant F O) → List String → Option (List (Variant F O))
  lookups d [] = some []
  lookups d (name ∷ names) = do v ← get d name; vs ← lookups d names; some (v ∷ vs)

  unfoldable pub table_args :
      Dictionaries (Variant F O) → List String → List (Variant F O) → Option (List (Variant F O))
  table_args dict names (v ∷ []) = do
    d ← dict.entries v
    vs ← lookups d names
    if length d == length names then some vs else none
  table_args dict names _ = none

  unfoldable pub command_from_args :
      Dictionaries (Variant F O)
      → List Form
      → List String
      → Bool
      → List (Variant F O)
      → Option (List (Field F))
  command_from_args dict forms names true call_args = do
    args ← table_args dict names call_args
    to_fields forms args
  command_from_args dict forms names false call_args =
      if length call_args == length forms then to_fields forms call_args else none

  -- The argument of one field; none if its bytes are no argument.
  unfoldable pub of_field : Form → Field F → Option (Variant F O)
  of_field arg_int k = some (int k.i)
  of_field arg_float k = some (float k.f)
  of_field arg_bool k = some (bool (not (k.i == 0)))
  of_field arg_bytes k = some (packed_bytes k.bytes)
  of_field arg_variant k =
      let (v, r) = get_arg p (reader k.bytes) in if failed r then none else some v

  unfoldable pub of_fields : List Form → List (Field F) → Option (List (Variant F O))
  of_fields (t ∷ ts) (k ∷ ks) = do v ← of_field t k; vs ← of_fields ts ks; some (v ∷ vs)
  of_fields _ _ = some []

  -- `fields[names[k]] = args[k]`
  unfoldable pub name_fields :
      HashMap String (Variant F O) → List String → List (Variant F O) → HashMap String (Variant F O)
  name_fields d (name ∷ names) (v ∷ vs) = name_fields (put d name v) names vs
  name_fields d _ _ = d

  -- The arguments that _deliver_command calls the method with.
  unfoldable pub command_args :
      Dictionaries (Variant F O)
      → List Form
      → List String
      → Bool
      → List (Field F)
      → Option (List (Variant F O))
  command_args dict forms names table cmd =
      if length cmd == length forms
      then (do
        args ← of_fields forms cmd
        if table then some (dict.of_entries (name_fields [] names args) ∷ []) else some args)
      else none
