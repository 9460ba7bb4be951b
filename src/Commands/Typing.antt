-- ===== src/Commands/Typing.antt =====
-- What a command's method is called with, whatever fields the client sent.
use goldnet_godot.Common.{
  ℕ, ◌≡◌, ap, sym, Bool, true, false, Bool-cases, inl, inr, ◌==◌, String, Option, some,
  Option-cases, List, [], ◌∷◌, length, arith,
}
use mathlib.Core.Path.{subst}
use goldnet_godot.Platform.{
  Platform, Variant, get_type, int_type, float_type, bool_type, packed_bytes_type,
}
use goldnet_godot.Messages.{World, permits, Call}
use goldnet_godot.Commands.{
  Form, arg_int, arg_float, arg_bool, arg_bytes, arg_variant, Field, Dictionaries, of_field,
  of_fields, name_fields, command_args,
}
use goldnet_godot.Commands.Targets.{
  CommandTarget, Tree, Targets, command_target, permitted_call, deliver_command,
}

module _ (p : Platform) (blank : Field p.F) where
  open p use {F, O}

  -- The value is of the type that the form stands for; any value is where that is Variant.
  abbrev pub OfForm : Form → Variant F O → Type 0
  OfForm arg_int v = get_type v ≡ int_type
  OfForm arg_float v = get_type v ≡ float_type
  OfForm arg_bool v = get_type v ≡ bool_type
  OfForm arg_bytes v = get_type v ≡ packed_bytes_type
  OfForm arg_variant v = Unit

  -- One value for each form, of its type.
  abbrev pub Typed : List Form → List (Variant F O) → Type 0
  Typed [] [] = Unit
  Typed (t ∷ ts) (v ∷ vs) = OfForm t v × Typed ts vs
  Typed [] (v ∷ vs) = ⊥
  Typed (t ∷ ts) [] = ⊥

  -- What a signature takes: its fields, or one table of them.
  abbrev pub Suits : Bool → List Form → List (Variant F O) → Type 0
  Suits true forms args = length args ≡ 1
  Suits false forms args = Typed forms args

  of_field-OfForm :
      (t : Form) (k : Field F) (v : Variant F O) → of_field p blank t k ≡ some v → OfForm t v
  unfolding of_field
  of_field-OfForm arg_int k v e = ground arith
  of_field-OfForm arg_float k v e = ground arith
  of_field-OfForm arg_bool k v e = ground arith
  of_field-OfForm arg_bytes k v e = ground arith
  of_field-OfForm arg_variant k v e = tt

  of_fields-Typed :
      (ts : List Form) (ks : List (Field F)) (vs : List (Variant F O))
      → length ks ≡ length ts
      → of_fields p blank ts ks ≡ some vs
      → Typed ts vs
  unfolding of_fields
  of_fields-Typed [] [] [] h e = tt
  of_fields-Typed [] [] (v ∷ vs) h e = (let no : ⊥ = ground arith in elim no [ ])
  of_fields-Typed [] (k ∷ ks) vs h e = (let no : ⊥ = ground arith in elim no [ ])
  of_fields-Typed (t ∷ ts) [] vs h e = (let no : ⊥ = ground arith in elim no [ ])
  of_fields-Typed (t ∷ ts) (k ∷ ks) us h e = elim (Option-cases (of_field p blank t k)) [
    | inl f ↦ (let no : ⊥ = ground arith in elim no [ ])
    | inr (v, f) ↦ elim (Option-cases (of_fields p blank ts ks)) [
      | inl g ↦ (let no : ⊥ = ground arith in elim no [ ])
      | inr (vs, g) ↦
          let same : v ∷ vs ≡ us = ground arith in
          subst (Typed (t ∷ ts)) same
            (of_field-OfForm t k v f, of_fields-Typed ts ks vs (ground arith) g)
    ]
  ]

  command_args-Suits :
      (dict : Dictionaries (Variant F O)) (forms : List Form) (names : List String) (table : Bool)
      (cmd : List (Field F)) (args : List (Variant F O))
      → command_args p blank dict forms names table cmd ≡ some args
      → Suits table forms args
  unfolding command_args
  command_args-Suits dict forms names true cmd args e =
      elim (Option-cases (of_fields p blank forms cmd)) [
        | inl f ↦ (let no : ⊥ = ground (arith, e) in elim no [ ])
        | inr (vs, f) ↦ elim (Bool-cases (length cmd == length forms)) [
          | inr apart ↦ (let no : ⊥ = ground (arith, e) in elim no [ ])
          | inl same ↦
              let one : dict.of_entries (name_fields p blank [] names vs) ∷ [] ≡ args =
                ground (arith, e) in
              ap length (sym one)
        ]
      ]
  command_args-Suits dict forms names false cmd args e =
      elim (Option-cases (of_fields p blank forms cmd)) [
        | inl f ↦ (let no : ⊥ = ground (arith, e) in elim no [ ])
        | inr (vs, f) ↦ elim (Bool-cases (length cmd == length forms)) [
          | inr apart ↦ (let no : ⊥ = ground (arith, e) in elim no [ ])
          | inl same ↦
              let all : vs ≡ args = ground (arith, e) in
              subst (Typed forms) all (of_fields-Typed forms cmd vs (ground (arith, same)) f)
        ]
      ]

module _ (hash : String → ℕ) (max_command_fields : ℕ) (p : Platform) (blank : Field p.F) where
  permitted_call-args :
      (w : World) (t : CommandTarget) (peer : ℕ) (args : List (Variant p.F p.O)) (c : Call p)
      → permitted_call hash max_command_fields p w t peer args ≡ some c
      → (args ≡ c.args) × (t.method ≡ c.method)
  unfolding permitted_call
  permitted_call-args w t peer args c e = elim (Option-cases (w.rpc_mode t.object_id t.method)) [
    | inl f ↦ (let no : ⊥ = ground arith in elim no [ ])
    | inr (mode, f) ↦ elim (Bool-cases (permits mode (w.authority_of t.object_id) peer)) [
      | inl g ↦ (ground arith, ground arith)
      | inr g ↦ (let no : ⊥ = ground arith in elim no [ ])
    ]
  ]

  -- Whatever fields a client's command carries, the call that it makes is of a target that its stream
  -- names, with one argument for each field that the target declares, of the declared type where that is
  -- int, float, bool or PackedByteArray; or with one table, where the target declares its fields in a
  -- table.
  pub deliver_command-Suits :
      (dict : Dictionaries (Variant p.F p.O)) (w : World) (s : Targets) (alive : ℕ → Bool)
      (tree : Option Tree) (now peer stream : ℕ) (cmd : List (Field p.F)) (c : Call p)
      → (deliver_command hash max_command_fields p blank dict w s alive tree now peer stream cmd).1
        ≡ some c
      → (t : CommandTarget) × ((command_target hash max_command_fields s alive tree now stream).1
          ≡ some t)
        × (c.method ≡ t.method)
        × Suits p blank t.sig.table t.sig.forms c.args
  unfolding deliver_command
  deliver_command-Suits dict w s alive tree now peer stream cmd c e =
      let found = command_target hash max_command_fields s alive tree now stream in
      elim (Option-cases found.1) [
        | inl f ↦ (let no : ⊥ = ground arith in elim no [ ])
        | inr (t, f) ↦
            elim (Option-cases
              (command_args p blank dict t.sig.forms t.sig.names t.sig.table cmd)) [
                | inl g ↦ (let no : ⊥ = ground arith in elim no [ ])
                | inr (args, g) ↦
                    let suits =
                      command_args-Suits p blank dict t.sig.forms t.sig.names t.sig.table cmd args
                        g in
                    let back = permitted_call-args w t peer args c (ground arith) in
                    (t, f, sym back.1, subst (Suits p blank t.sig.table t.sig.forms) back.0 suits)
              ]
      ]
