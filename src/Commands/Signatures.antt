-- ===== src/Commands/Signatures.antt =====
-- Command signatures, in src/goldnet_multiplayer.cpp: command_signature, make_command_signature and
-- _command_stream. String::hash and goldnet's limit on a command's fields are parameters.
use Prim.Native.String.{◌++◌ as concat}
use goldnet_godot.Common.{
  ℕ, Bool, true, false, ◌&&◌, String, Option, none, some, List, [], ◌∷◌, length, any, map, HashMap,
  get, put, nat_eq, string_eq, ltb, ◌==◌, if◌then◌else◌,
}
use goldnet_godot.Platform.{VariantType}
use goldnet_godot.Commands.{
  Form, arg_int, arg_float, arg_bool, arg_bytes, arg_variant, command_arg_form,
}

-- goldnet::FieldKind
pub data FieldKind : Type 0 where
  field_int field_float field_bool field_bytes : FieldKind

unfoldable pub command_field_kind : Form → FieldKind
command_field_kind arg_int = field_int
command_field_kind arg_float = field_float
command_field_kind arg_bool = field_bool
command_field_kind arg_bytes = field_bytes
command_field_kind arg_variant = field_bytes

-- The parameters of a method, or the entries of a field table, in order.
abbrev pub Declared : Type 0
Declared = List (String × VariantType)

-- What a signature asks of a node: its id and path, the metas gn_commands and gn_command_fields, its
-- methods, and whether a method of it is an @rpc.
pub record Node : Type 0 where
  pub object_id : ℕ
  pub path : String
  pub gn_commands : Option (List String)
  pub gn_command_fields : HashMap String Declared
  pub methods : HashMap String Declared
  pub is_rpc : String → Bool

-- CommandSignature. Id 0 is no command stream, and its other members are not read then.
pub record CommandSignature : Type 0 where
  pub id : ℕ
  pub kinds : List FieldKind
  pub forms : List Form
  pub names : List String
  pub table : Bool

abbrev pub no_signature : CommandSignature
no_signature = record { id = 0; kinds = []; forms = []; names = []; table = false }

-- String::chr('a' + form)
unfoldable pub form_letter : Form → String
form_letter arg_int = "a"
form_letter arg_float = "b"
form_letter arg_bool = "c"
form_letter arg_bytes = "d"
form_letter arg_variant = "e"

-- `sig` of make_command_signature, from the fields on.
unfoldable pub field_letters : List String → List Form → String
field_letters (name ∷ names) (t ∷ ts) =
    concat name (concat ":" (concat (form_letter t) (concat "," (field_letters names ts))))
field_letters _ _ = ""

-- command_stream_cache
abbrev pub StreamCache : Type 0
StreamCache = HashMap ℕ (HashMap String CommandSignature)

module _ (hash : String → ℕ) (max_command_fields : ℕ) where
  unfoldable pub declared_forms : Declared → Option (List Form × List String)
  declared_forms fields =
      if ltb max_command_fields (length fields)
      then none
      else some (map (λ d. command_arg_form d.1) fields, map (λ d. d.0) fields)

  -- The forms, the names, and whether a table gave them; none for a method that isn't there or has too
  -- many fields.
  unfoldable pub command_signature : Node → String → Option (List Form × List String × Bool)
  command_signature n method = elim (get n.gn_command_fields method) [
    | some table ↦ elim (declared_forms table) [
      | none ↦ none
      | some (forms, names) ↦ some (forms, names, true)
    ]
    | none ↦ elim (get n.methods method) [
      | none ↦ none
      | some args ↦ elim (declared_forms args) [
        | none ↦ none
        | some (forms, names) ↦ some (forms, names, false)
      ]
    ]
  ]

  unfoldable pub signature_text : Node → String → List Form → List String → Bool → String
  signature_text n method forms names table = concat n.path (
      concat "::" (concat method (concat (if table then "{" else "(") (field_letters names forms))))

  unfoldable pub make_command_signature : Node → String → CommandSignature
  make_command_signature n method = elim (command_signature n method) [
    | none ↦ no_signature
    | some (forms, names, table) ↦
        let h = hash (signature_text n method forms names table) in
        record {
          id = if h == 0 then 1 else h;
          kinds = map command_field_kind forms;
          forms = forms;
          names = names;
          table = table;
        }
  ]

  unfoldable pub marks : Node → String → Bool
  marks n method = elim n.gn_commands [
    | none ↦ false
    | some methods ↦ any (string_eq.beq method) methods
  ]

  -- _command_stream of the object with this id, a node or not: the cache, and the signature if the
  -- method is a command stream.
  unfoldable pub command_stream :
      StreamCache → ℕ → Option Node → String → StreamCache × Option CommandSignature
  command_stream cache oid o method =
      let methods : HashMap String CommandSignature = elim (get cache oid) [
        | none ↦ []
        | some m ↦ m
      ] in
      let made : CommandSignature = elim o [
        | none ↦ no_signature
        | some n ↦
            if marks n method && n.is_rpc method
            then make_command_signature n method
            else no_signature
      ] in
      elim (get methods method) [
        | some sig ↦ (put cache oid methods, if sig.id == 0 then none else some sig)
        | none ↦ (put cache oid (put methods method made), if made.id == 0 then none else some made)
      ]
