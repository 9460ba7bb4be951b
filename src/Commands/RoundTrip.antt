-- ===== src/Commands/RoundTrip.antt =====
-- What a command's method is called with, of what it was called with at the other end.
use goldnet_godot.Common.{
  ◌≡◌, refl, true, false, String, some, Option-cases, List, [], ◌∷◌, length, any, HashMap, get,
  get-put, put, string_eq, ◌==◌, arith, inl, inr, Bool-cases,
}
use mathlib.Core.List.{append-nil}
use goldnet_godot.Platform.{
  Platform, Variant, nil, int, float, bool, vector3, string, string_name, packed_bytes, other,
  get_type,
}
use goldnet_godot.Values.Arguments.RoundTrip.{arrives, Fits, get-put_arg}
use goldnet_godot.Commands.{
  Form, arg_int, arg_float, arg_bool, arg_bytes, arg_variant, Field, Dictionaries, is_number,
  to_field, to_fields, lookups, table_args, command_from_args, of_field, of_fields, name_fields,
  command_args,
}

module _ (p : Platform) (blank : Field p.F) where
  open p use {F, O, f32, to_int, to_double, to_bool, reader}

  -- An argument of a declared type as the other end has it.
  unfoldable pub received : Form → Variant F O → Variant F O
  received arg_int v = int (to_int v)
  received arg_float v = float (f32 (to_double v))
  received arg_bool v = bool (to_bool v)
  received arg_bytes v = v
  received arg_variant v = arrives p v

  unfoldable pub received_all : List Form → List (Variant F O) → List (Variant F O)
  received_all (t ∷ ts) (v ∷ vs) = received t v ∷ received_all ts vs
  received_all _ _ = []

  abbrev pub FieldFits : Form → Variant F O → Type 0
  FieldFits arg_variant v = Fits p v
  FieldFits _ v = Unit

  abbrev pub FieldsFit : List Form → List (Variant F O) → Type 0
  FieldsFit (t ∷ ts) (v ∷ vs) = FieldFits t v × FieldsFit ts vs
  FieldsFit _ _ = Unit

  of_field-to_field :
      (t : Form) (v : Variant F O) (k : Field F)
      → FieldFits t v
      → to_field p blank t v ≡ some k
      → of_field p blank t k ≡ some (received t v)
  unfolding to_field of_field received
  of_field-to_field arg_int v k fits e = elim (Bool-cases (is_number (get_type v))) [
    | inl f ↦ ground arith
    | inr f ↦ ground arith
  ]
  of_field-to_field arg_float v k fits e = elim (Bool-cases (is_number (get_type v))) [
    | inl f ↦ ground arith
    | inr f ↦ ground arith
  ]
  of_field-to_field arg_bool v k fits e = elim (Bool-cases (is_number (get_type v))) [
    | inl f ↦ elim (Bool-cases (to_bool v)) [ inl g ↦ ground arith | inr g ↦ ground arith ]
    | inr f ↦ ground arith
  ]
  of_field-to_field arg_bytes (packed_bytes b) k fits e = ground arith
  of_field-to_field arg_bytes nil k fits e = ground arith
  of_field-to_field arg_bytes (bool b) k fits e = ground arith
  of_field-to_field arg_bytes (int i) k fits e = ground arith
  of_field-to_field arg_bytes (float f) k fits e = ground arith
  of_field-to_field arg_bytes (vector3 x y z) k fits e = ground arith
  of_field-to_field arg_bytes (string s) k fits e = ground arith
  of_field-to_field arg_bytes (string_name s) k fits e = ground arith
  of_field-to_field arg_bytes (other o) k fits e = ground arith
  of_field-to_field arg_variant v k fits e =
      let back = rw append-nil at (get-put_arg p v [] fits) in
      ground (arith, back, p.failed_reader [])

  of_fields-to_fields :
      (ts : List Form) (vs : List (Variant F O)) (ks : List (Field F))
      → FieldsFit ts vs
      → to_fields p blank ts vs ≡ some ks
      → (of_fields p blank ts ks ≡ some (received_all ts vs)) × (length ks ≡ length ts)
  unfolding to_fields of_fields received_all
  of_fields-to_fields [] vs ks fits e = ground arith
  of_fields-to_fields (t ∷ ts) [] ks fits e = ground arith
  of_fields-to_fields (t ∷ ts) (v ∷ vs) ks (fit, fits) e =
      elim (Option-cases (to_field p blank t v)) [
        | inl f ↦ ground arith
        | inr (k, f) ↦ elim (Option-cases (to_fields p blank ts vs)) [
          | inl g ↦ ground arith
          | inr (rest, g) ↦
              ground (arith, of_field-to_field t v k fit f, of_fields-to_fields ts vs rest fits g)
        ]
      ]

  -- A call that command_from_args takes is made at the other end with as many arguments, each as its
  -- declared type leaves it: a number as an int, a float of 32 bits or a bool, an untyped one as RPC
  -- arguments arrive.
  pub command_args-command_from_args :
      (dict : Dictionaries (Variant F O)) (forms : List Form) (names : List String)
      (args : List (Variant F O)) (cmd : List (Field F))
      → FieldsFit forms args
      → command_from_args p blank dict forms names false args ≡ some cmd
      → command_args p blank dict forms names false cmd ≡ some (received_all forms args)
  unfolding command_from_args command_args
  command_args-command_from_args dict forms names args cmd fits e =
      elim (Bool-cases (length args == length forms)) [
        | inl f ↦ ground (arith, of_fields-to_fields forms args cmd fits)
        | inr f ↦ ground arith
      ]

  abbrev pub DistinctNames : List String → Type 0
  DistinctNames [] = Unit
  DistinctNames (name ∷ names) = (any (string_eq.beq name) names ≡ false) × DistinctNames names

  get-name_fields :
      (d : HashMap String (Variant F O)) (names : List String) (vs : List (Variant F O))
      (name : String)
      → any (string_eq.beq name) names ≡ false
      → get (name_fields p blank d names vs) name ≡ get d name
  unfolding name_fields
  get-name_fields d [] vs name absent = refl
  get-name_fields d (n ∷ ns) [] name absent = refl
  get-name_fields d (n ∷ ns) (v ∷ vs) name absent = ground (
    arith,
    get-put d n name v,
    get-name_fields (put d n v) ns vs name,
    string_eq.beq_iff n name,
    string_eq.beq_iff name n,
  )

  lookups-name_fields :
      (d : HashMap String (Variant F O)) (names : List String) (vs : List (Variant F O))
      → DistinctNames names
      → length names ≡ length vs
      → lookups p blank (name_fields p blank d names vs) names ≡ some vs
  unfolding name_fields lookups
  lookups-name_fields d [] [] distinct same = refl
  lookups-name_fields d [] (v ∷ vs) distinct same = ground arith
  lookups-name_fields d (n ∷ ns) [] distinct same = ground arith
  lookups-name_fields d (n ∷ ns) (v ∷ vs) (fresh, distinct) same = ground (
    arith,
    get-put d n n v,
    get-name_fields (put d n v) ns vs n fresh,
    lookups-name_fields (put d n v) ns vs distinct,
    string_eq.beq_iff n n,
  )

  length-received_all :
      (forms : List Form) (vs : List (Variant F O)) (cmd : List (Field F))
      → to_fields p blank forms vs ≡ some cmd
      → length (received_all forms vs) ≡ length forms
  unfolding to_fields received_all
  length-received_all [] vs cmd e = refl
  length-received_all (t ∷ ts) [] cmd e = ground arith
  length-received_all (t ∷ ts) (v ∷ vs) cmd e = elim (Option-cases (to_field p blank t v)) [
    | inl f ↦ ground arith
    | inr (k, f) ↦ elim (Option-cases (to_fields p blank ts vs)) [
      | inl g ↦ ground arith
      | inr (rest, g) ↦ ground (arith, length-received_all ts vs rest)
    ]
  ]

  -- A command with a field table, called with a dictionary: the method is called with one dictionary,
  -- in which each name of the table has the value that was sent under it as its form leaves it.
  pub command_args_table :
      (dict : Dictionaries (Variant F O)) (forms : List Form) (names : List String)
      (v : Variant F O) (d : HashMap String (Variant F O)) (vs : List (Variant F O))
      (cmd : List (Field F))
      → DistinctNames names
      → length names ≡ length forms
      → dict.entries v ≡ some d
      → lookups p blank d names ≡ some vs
      → FieldsFit forms vs
      → command_from_args p blank dict forms names true (v ∷ []) ≡ some cmd
      → (e : HashMap String (Variant F O)) × (command_args p blank dict forms names true cmd
          ≡ some (dict.of_entries e ∷ []))
        × (lookups p blank e names ≡ some (received_all forms vs))
  unfolding command_from_args command_args table_args
  command_args_table dict forms names v d vs cmd distinct same ev el fits e =
      let e2 : to_fields p blank forms vs ≡ some cmd =
        elim (Bool-cases (length d == length names)) [
          | inl f ↦ ground arith
          | inr f ↦ ground arith
        ] in
      let back = of_fields-to_fields forms vs cmd fits e2 in
      let made = name_fields p blank [] names (received_all forms vs) in
      (
        made,
        ground (arith, back),
        lookups-name_fields [] names (received_all forms vs) distinct
            (omega (arith, length-received_all forms vs cmd e2)),
      )
