-- ===== src/Platform/Toy.antt =====
-- A concrete platform, which shows that what the model assumes of its platform can hold: a double is a
-- number, every primitive writes one cell, and a text is written as its code points.
use Prim.Native.Nat.{compare, Ordering}
use Prim.Native.Char.{Char, char, IsScalar, code}
use native.Mathlib.Nat.{pow-suc}
use text.Mathlib.TextEquality.{Char-path}
use goldnet_godot.Common.{
  ℕ, zero, suc, ◌*◌, ◌/◌, ◌+◌, ◌%◌, ◌^◌, ◌<◌, ◌≡◌, refl, ap, sym, ◌∙◌, Bool, true, false, String,
  Option, none, some, List, [], ◌∷◌, ◌++◌, length, ltb, ◌==◌, arith,
}
use goldnet_godot.Platform.{Platform, Variant, nil, bool, int, float, vector3, other}

-- A character from its number.
abbrev scalar :
    (n : ℕ) (a b c : Ordering)
    → compare n 55296 ≡ a
    → compare 57343 n ≡ b
    → compare n 1114112 ≡ c
    → Option (IsScalar n)
scalar n Ordering.lt b c e f g = some (rw e tt)
scalar n Ordering.eq Ordering.lt Ordering.lt e f g = some (rw (e, f, g) tt)
scalar n Ordering.gt Ordering.lt Ordering.lt e f g = some (rw (e, f, g) tt)
scalar n _ _ _ e f g = none

scalar-ne-none :
    (n : ℕ) (a b c : Ordering) (e : compare n 55296 ≡ a) (f : compare 57343 n ≡ b)
    (g : compare n 1114112 ≡ c)
    → IsScalar n
    → scalar n a b c e f g ≡ none
    → ⊥
scalar-ne-none n Ordering.lt b c e f g h q = cc
scalar-ne-none n Ordering.eq Ordering.lt Ordering.lt e f g h q = cc
scalar-ne-none n Ordering.gt Ordering.lt Ordering.lt e f g h q = cc
scalar-ne-none n Ordering.eq Ordering.lt Ordering.eq e f g h q = rw (e, f, g) at h
scalar-ne-none n Ordering.eq Ordering.lt Ordering.gt e f g h q = rw (e, f, g) at h
scalar-ne-none n Ordering.gt Ordering.lt Ordering.eq e f g h q = rw (e, f, g) at h
scalar-ne-none n Ordering.gt Ordering.lt Ordering.gt e f g h q = rw (e, f, g) at h
scalar-ne-none n Ordering.eq Ordering.eq c e f g h q = rw (e, f) at h
scalar-ne-none n Ordering.eq Ordering.gt c e f g h q = rw (e, f) at h
scalar-ne-none n Ordering.gt Ordering.eq c e f g h q = rw (e, f) at h
scalar-ne-none n Ordering.gt Ordering.gt c e f g h q = rw (e, f) at h

abbrev of_scalar : (n : ℕ) → Option (IsScalar n) → Char
of_scalar n none = char 0 tt
of_scalar n (some h) = char n h

abbrev of_code : ℕ → Char
of_code n =
    of_scalar n (scalar n (compare n 55296) (compare 57343 n) (compare n 1114112) refl refl refl)

of_scalar-code : (n : ℕ) (o : Option (IsScalar n)) → (o ≡ none → ⊥) → code (of_scalar n o) ≡ n
of_scalar-code n none h = absurd (h refl)
of_scalar-code n (some x) h = refl

of_code-code : (c : Char) → of_code (code c) ≡ c
of_code-code (char n h) =
    Char-path _ _ (of_scalar-code n _ (scalar-ne-none n _ _ _ refl refl refl h))

abbrev pub codes : String → List ℕ
codes String.[] = []
codes (String.◌∷◌ c s) = code c ∷ codes s

abbrev pub of_codes : List ℕ → String
of_codes [] = String.[]
of_codes (n ∷ b) = String.◌∷◌ (of_code n) (of_codes b)

pub of_codes-codes : (s : String) → of_codes (codes s) ≡ s
of_codes-codes String.[] = refl
of_codes-codes (String.◌∷◌ c s) =
    rw (of_codes-codes s) (ap (λ (d : Char). String.◌∷◌ d s) (of_code-code c))

-- A reader that has failed holds nothing.
abbrev Cells : Type 0
Cells = Option (List ℕ)

abbrev get_cell : Cells → ℕ × Cells
get_cell none = (0, none)
get_cell (some []) = (0, none)
get_cell (some (x ∷ b)) = (x, some b)

abbrev after_cell : ℕ → Option (List ℕ) × Cells → Option (List ℕ) × Cells
after_cell x (none, r) = (none, r)
after_cell x (some b, r) = (some (x ∷ b), r)

abbrev split_cells : List ℕ → ℕ → Option (List ℕ) × Cells
split_cells b zero = (some [], some b)
split_cells [] (suc n) = (none, none)
split_cells (x ∷ b) (suc n) = after_cell x (split_cells b n)

abbrev get_cells : Cells → ℕ → Option (List ℕ) × Cells
get_cells none n = (none, none)
get_cells (some b) n = split_cells b n

pub get_cells-append :
    (b rest : List ℕ) → get_cells (some (b ++ rest)) (length b) ≡ (some b, some rest)
get_cells-append [] rest = refl
get_cells-append (x ∷ b) rest = rw (get_cells-append b rest)

abbrev cells_left : Cells → ℕ
cells_left none = 0
cells_left (some b) = length b

abbrev is_failed : Cells → Bool
is_failed none = true
is_failed (some b) = false

pub get_cell_takes :
    (r : Cells)
    → is_failed (get_cell r).1 ≡ false
    → (is_failed r ≡ false) × (cells_left (get_cell r).1 < cells_left r)
get_cell_takes none h = (let no : ⊥ = cc in elim no [ ])
get_cell_takes (some []) h = (let no : ⊥ = cc in elim no [ ])
get_cell_takes (some (x ∷ b)) h = (refl, omega arith)

after_cell_left :
    (x : ℕ) (d : Option (List ℕ) × Cells)
    → (is_failed (after_cell x d).1 ≡ is_failed d.1)
      × (cells_left (after_cell x d).1 ≡ cells_left d.1)
after_cell_left x (none, r) = (refl, refl)
after_cell_left x (some b, r) = (refl, refl)

split_cells_takes :
    (b : List ℕ) (n : ℕ)
    → is_failed (split_cells b n).1 ≡ false
    → cells_left (split_cells b n).1 + n ≡ length b
split_cells_takes b zero h = omega arith
split_cells_takes [] (suc n) h = (let no : ⊥ = cc in elim no [ ])
split_cells_takes (x ∷ b) (suc n) h =
    let (f, l) = after_cell_left x (split_cells b n) in
    omega (arith, l, split_cells_takes b n (sym f ∙ h))

pub get_cells_takes :
    (r : Cells) (n : ℕ)
    → is_failed (get_cells r n).1 ≡ false
    → (is_failed r ≡ false) × (cells_left (get_cells r n).1 + n ≡ cells_left r)
get_cells_takes none n h = (let no : ⊥ = cc in elim no [ ])
get_cells_takes (some b) n h = (refl, split_cells_takes b n h)

abbrev as_number : Variant ℕ ℕ → ℕ
as_number (int i) = i % 2 ^ 64
as_number v = 0

pub as_number_lt : (v : Variant ℕ ℕ) → as_number v < 2 ^ 64
as_number_lt (int i) = omega arith
as_number_lt _ = omega arith

abbrev as_double : Variant ℕ ℕ → ℕ
as_double (float d) = d
as_double v = 0

abbrev as_bool : Variant ℕ ℕ → Bool
as_bool (bool b) = b
as_bool v = false

abbrev as_vector : Variant ℕ ℕ → ℕ × ℕ × ℕ
as_vector (vector3 x y z) = (x, y, z)
as_vector v = (0, 0, 0)

abbrev as_bytes : Variant ℕ ℕ → List ℕ
as_bytes (other o) = o ∷ []
as_bytes v = []

abbrev from_bytes : List ℕ → Variant ℕ ℕ
from_bytes [] = nil
from_bytes (o ∷ b) = other o

pos_pow : (n : ℕ) → 0 < 2 ^ n
pos_pow zero = omega arith
pos_pow (suc n) = rw pow-suc (omega (arith, pos_pow n))

pub quanta_lt : (d bits : ℕ) → d % 2 ^ bits < 2 ^ bits
quanta_lt d bits = omega (arith, pos_pow bits)

abbrev pub toy : Platform
toy = record {
  F = ℕ;
  O = ℕ;
  f32 = λ d. d;
  half = λ d. d / 2 * 2;
  of_int = λ i. i;
  fdiv = λ a b. a / b;
  fmul = λ a b. a * b;
  feq = ◌==◌;
  is_positive = λ d. ltb 0 d;
  is_finite = λ d. true;
  llround = λ d. d % 2 ^ 64;
  double_bits = λ d. d;
  bits_double = λ d. d;
  float_bits = λ d. d % 2 ^ 32;
  tau = 6;
  zero_double = 0;
  feq_f32 = λ d h. refl;
  bits_double-double_bits = λ d. refl;
  llround_lt = λ d. omega arith;
  to_int = as_number;
  to_double = as_double;
  to_bool = as_bool;
  to_vector3 = as_vector;
  to_int_lt = as_number_lt;
  to_int_int = λ i h. omega arith;
  to_double_float = λ f. refl;
  to_bool_bool = λ b. refl;
  to_vector3_vector3 = λ x y z. refl;
  var_to_bytes = as_bytes;
  bytes_to_var = from_bytes;
  utf8 = codes;
  of_utf8 = of_codes;
  of_utf8-utf8 = of_codes-codes;
  Reader = Cells;
  reader = λ b. some b;
  failed = is_failed;
  remaining = cells_left;
  put_u8 = λ n. n ∷ [];
  put_u32 = λ n. n ∷ [];
  put_uvarint = λ n. n ∷ [];
  put_varint = λ n. n ∷ [];
  put_float = λ d. d ∷ [];
  put_half = λ d. (d / 2 * 2) ∷ [];
  put_angle16 = λ d. (d % 2 ^ 16 / 2 ^ 16 * 6) ∷ [];
  put_angle8 = λ d. (d % 2 ^ 8 / 2 ^ 8 * 6) ∷ [];
  angle_quanta = λ d bits. d % 2 ^ bits;
  get_u8 = get_cell;
  get_u32 = get_cell;
  get_uvarint = get_cell;
  get_varint = get_cell;
  get_float = get_cell;
  get_half = get_cell;
  get_angle16 = get_cell;
  get_angle8 = get_cell;
  get_data = get_cells;
  failed_reader = λ b. refl;
  remaining_reader = λ b. refl;
  get-put_u8 = λ n rest h. refl;
  get-put_u32 = λ n rest h. refl;
  get-put_uvarint = λ n rest h. refl;
  put_uvarint_pos = λ n. omega arith;
  get-put_varint = λ n rest h. refl;
  get-put_float = λ d rest. refl;
  get-put_half = λ d rest. refl;
  angle_quanta_lt = quanta_lt;
  get-put_angle16 = λ d rest. refl;
  get-put_angle8 = λ d rest. refl;
  get_data-append = get_cells-append;
  get_u8_takes = get_cell_takes;
  get_u32_takes = get_cell_takes;
  get_uvarint_takes = get_cell_takes;
  get_varint_takes = get_cell_takes;
  get_float_takes = get_cell_takes;
  get_half_takes = get_cell_takes;
  get_angle16_takes = get_cell_takes;
  get_angle8_takes = get_cell_takes;
  get_data_takes = get_cells_takes;
}
