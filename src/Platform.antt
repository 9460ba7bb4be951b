-- ===== src/Platform.antt =====
-- What the adapter uses of code that is not in this repository: the byte primitives of goldnet
-- (extern/goldnet: buffer.h, codec.h), Godot's Variant with its conversions and its byte encoding,
-- and the floating-point arithmetic of C++. All of it is a parameter of the model.
pub mod Toy
use goldnet_godot.Common.{
  ℕ, ◌+◌, ◌-◌, ◌%◌, ◌^◌, ◌<◌, ◌≡◌, Bool, true, false, String, Option, none, some, List, [], ◌∷◌,
  ◌++◌, length,
}

-- godot::Variant. `F` is a C++ double and `O` every other type of value. An int64_t is a bit pattern
-- below 2 ^ 64; the components of a Vector3 are floats, held as the doubles they widen to.
pub data Variant (F O : Type 0) : Type 0 where
  nil : Variant F O
  bool : Bool → Variant F O
  int : ℕ → Variant F O
  float : F → Variant F O
  vector3 : F → F → F → Variant F O
  string : String → Variant F O
  string_name : String → Variant F O
  packed_bytes : List ℕ → Variant F O
  other : O → Variant F O

-- Variant::Type, as far as the code tells types apart.
pub data VariantType : Type 0 where
  nil_type bool_type int_type float_type vector3_type : VariantType
  string_type string_name_type packed_bytes_type other_type : VariantType

abbrev pub get_type : {F O : Type 0} → Variant F O → VariantType
get_type nil = nil_type
get_type (bool b) = bool_type
get_type (int i) = int_type
get_type (float f) = float_type
get_type (vector3 x y z) = vector3_type
get_type (string s) = string_type
get_type (string_name s) = string_name_type
get_type (packed_bytes b) = packed_bytes_type
get_type (other o) = other_type

-- int64_t arithmetic on bit patterns.
abbrev pub add64 : ℕ → ℕ → ℕ
add64 a b = (a + b) % 2 ^ 64

abbrev pub sub64 : ℕ → ℕ → ℕ
sub64 a b = (a + 2 ^ 64 - b) % 2 ^ 64

-- A writer is the bytes it holds, so each `put_` gives the bytes it appends. `reader b` is a reader
-- in good health over the bytes `b`; the laws say that reading what was written gives it back and
-- leaves a reader over what follows.
pub record Platform : Type 1 where
  pub F : Type 0
  pub O : Type 0
  -- C++ floating point.
  pub f32 : F → F
  pub half : F → F
  pub of_int : ℕ → F
  pub fdiv : F → F → F
  pub fmul : F → F → F
  pub feq : F → F → Bool
  pub is_positive : F → Bool
  pub is_finite : F → Bool
  pub llround : F → ℕ
  pub double_bits : F → ℕ
  pub bits_double : ℕ → F
  pub float_bits : F → ℕ
  pub tau : F
  pub zero_double : F
  pub feq_f32 : (d : F) → feq (f32 d) d ≡ true → f32 d ≡ d
  pub bits_double-double_bits : (d : F) → bits_double (double_bits d) ≡ d
  pub llround_lt : (d : F) → llround d < 2 ^ 64
  -- Variant's conversions and encoding.
  pub to_int : Variant F O → ℕ
  pub to_double : Variant F O → F
  pub to_bool : Variant F O → Bool
  pub to_vector3 : Variant F O → F × F × F
  pub to_int_lt : (v : Variant F O) → to_int v < 2 ^ 64
  pub to_int_int : (i : ℕ) → i < 2 ^ 64 → to_int (int i) ≡ i
  pub to_double_float : (f : F) → to_double (float f) ≡ f
  pub to_bool_bool : (b : Bool) → to_bool (bool b) ≡ b
  pub to_vector3_vector3 : (x y z : F) → to_vector3 (vector3 x y z) ≡ (x, y, z)
  pub var_to_bytes : Variant F O → List ℕ
  pub bytes_to_var : List ℕ → Variant F O
  pub utf8 : String → List ℕ
  pub of_utf8 : List ℕ → String
  pub of_utf8-utf8 : (s : String) → of_utf8 (utf8 s) ≡ s
  -- goldnet's writer and reader.
  pub Reader : Type 0
  pub reader : List ℕ → Reader
  pub failed : Reader → Bool
  pub remaining : Reader → ℕ
  pub put_u8 : ℕ → List ℕ
  pub put_u32 : ℕ → List ℕ
  pub put_uvarint : ℕ → List ℕ
  pub put_varint : ℕ → List ℕ
  pub put_float : F → List ℕ
  pub put_half : F → List ℕ
  pub put_angle16 : F → List ℕ
  pub put_angle8 : F → List ℕ
  pub angle_quanta : F → ℕ → ℕ
  pub get_u8 : Reader → ℕ × Reader
  pub get_u32 : Reader → ℕ × Reader
  pub get_uvarint : Reader → ℕ × Reader
  pub get_varint : Reader → ℕ × Reader
  pub get_float : Reader → F × Reader
  pub get_half : Reader → F × Reader
  pub get_angle16 : Reader → F × Reader
  pub get_angle8 : Reader → F × Reader
  pub get_data : Reader → ℕ → Option (List ℕ) × Reader
  pub failed_reader : (b : List ℕ) → failed (reader b) ≡ false
  pub remaining_reader : (b : List ℕ) → remaining (reader b) ≡ length b
  pub get-put_u8 :
      (n : ℕ) (rest : List ℕ) → n < 256 → get_u8 (reader (put_u8 n ++ rest)) ≡ (n, reader rest)
  pub get-put_u32 :
      (n : ℕ) (rest : List ℕ) → n < 2 ^ 32 → get_u32 (reader (put_u32 n ++ rest)) ≡ (n, reader rest)
  pub get-put_uvarint :
      (n : ℕ) (rest : List ℕ)
      → n < 2 ^ 32
      → get_uvarint (reader (put_uvarint n ++ rest)) ≡ (n, reader rest)
  pub put_uvarint_pos : (n : ℕ) → 0 < length (put_uvarint n)
  pub get-put_varint :
      (n : ℕ) (rest : List ℕ)
      → n < 2 ^ 64
      → get_varint (reader (put_varint n ++ rest)) ≡ (n, reader rest)
  pub get-put_float :
      (d : F) (rest : List ℕ)
      → get_float (reader (put_float (f32 d) ++ rest)) ≡ (f32 d, reader rest)
  pub get-put_half :
      (d : F) (rest : List ℕ) → get_half (reader (put_half d ++ rest)) ≡ (half d, reader rest)
  -- An angle goes as its quanta, and reads as `angle_quanta / full * TAU` in floats.
  pub angle_quanta_lt : (d : F) (bits : ℕ) → angle_quanta d bits < 2 ^ bits
  pub get-put_angle16 :
      (d : F) (rest : List ℕ)
      → get_angle16 (reader (put_angle16 d ++ rest)) ≡ (
        fmul (f32 (fdiv (f32 (of_int (angle_quanta d 16))) (f32 (of_int (2 ^ 16))))) tau,
        reader rest,
      )
  pub get-put_angle8 :
      (d : F) (rest : List ℕ)
      → get_angle8 (reader (put_angle8 d ++ rest)) ≡ (
        fmul (f32 (fdiv (f32 (of_int (angle_quanta d 8))) (f32 (of_int (2 ^ 8))))) tau,
        reader rest,
      )
  pub get_data-append :
      (b rest : List ℕ) → get_data (reader (b ++ rest)) (length b) ≡ (some b, reader rest)
  -- A read that does not fail was made in good health and took at least a byte, and one of n bytes took
  -- n.
  pub get_u8_takes :
      (r : Reader)
      → failed (get_u8 r).1 ≡ false
      → (failed r ≡ false) × (remaining (get_u8 r).1 < remaining r)
  pub get_u32_takes :
      (r : Reader)
      → failed (get_u32 r).1 ≡ false
      → (failed r ≡ false) × (remaining (get_u32 r).1 < remaining r)
  pub get_uvarint_takes :
      (r : Reader)
      → failed (get_uvarint r).1 ≡ false
      → (failed r ≡ false) × (remaining (get_uvarint r).1 < remaining r)
  pub get_varint_takes :
      (r : Reader)
      → failed (get_varint r).1 ≡ false
      → (failed r ≡ false) × (remaining (get_varint r).1 < remaining r)
  pub get_float_takes :
      (r : Reader)
      → failed (get_float r).1 ≡ false
      → (failed r ≡ false) × (remaining (get_float r).1 < remaining r)
  pub get_half_takes :
      (r : Reader)
      → failed (get_half r).1 ≡ false
      → (failed r ≡ false) × (remaining (get_half r).1 < remaining r)
  pub get_angle16_takes :
      (r : Reader)
      → failed (get_angle16 r).1 ≡ false
      → (failed r ≡ false) × (remaining (get_angle16 r).1 < remaining r)
  pub get_angle8_takes :
      (r : Reader)
      → failed (get_angle8 r).1 ≡ false
      → (failed r ≡ false) × (remaining (get_angle8 r).1 < remaining r)
  pub get_data_takes :
      (r : Reader) (n : ℕ)
      → failed (get_data r n).1 ≡ false
      → (failed r ≡ false) × (remaining (get_data r n).1 + n ≡ remaining r)
