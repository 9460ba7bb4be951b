-- ===== src/Common/HashMaps.antt =====
-- godot::HashMap as an association list in insertion order, as the engine's iterates: a write to a
-- key that is there replaces its value in place. One law for each operation, in `if` form.
use mathlib.Core.Path.{◌≡◌, refl}
use mathlib.Core.Bool.{Bool, true, false}
use mathlib.Core.List.{List, [], ◌∷◌}
use mathlib.Core.Option.{Option, none, some}
use native.Mathlib.Omega.{arith}
use goldnet_godot.Common.Tests.{if◌then◌else◌, Eq}

abbrev pub HashMap {ℓ} : Type ℓ → Type ℓ → Type ℓ
HashMap K V = List (K × V)

module _ {ℓ} {K V : Type ℓ} ⦃e : Eq K⦄ where
  -- getptr, find
  unfoldable pub get : HashMap K V → K → Option V
  get [] k = none
  get ((j, v) ∷ m) k = if e.beq j k then some v else get m k

  -- m[k] = v, insert
  unfoldable pub put : HashMap K V → K → V → HashMap K V
  put [] k v = (k, v) ∷ []
  put ((j, w) ∷ m) k v = let rest = put m k v in if e.beq j k then (k, v) ∷ m else (j, w) ∷ rest

  unfoldable pub erase : HashMap K V → K → HashMap K V
  erase [] k = []
  erase ((j, w) ∷ m) k = let rest = erase m k in if e.beq j k then rest else (j, w) ∷ rest

  unfoldable pub has : HashMap K V → K → Bool
  has m k = elim (get m k) [ none ↦ false | some _ ↦ true ]

  pub get-empty : (k : K) → get [] k ≡ none
  unfolding get
  get-empty k = refl

  pub get-put :
      (m : HashMap K V) (j k : K) (v : V)
      → get (put m j v) k ≡ (if e.beq j k then some v else get m k)
  unfolding get put
  get-put [] j k v = refl
  get-put ((i, w) ∷ m) j k v =
      ground (arith, e.beq_iff j k, e.beq_iff i k, e.beq_iff i j, get-put m j k v)

  pub get-erase :
      (m : HashMap K V) (j k : K) → get (erase m j) k ≡ (if e.beq j k then none else get m k)
  unfolding get erase
  get-erase [] j k = ground arith
  get-erase ((i, w) ∷ m) j k =
      ground (arith, e.beq_iff j k, e.beq_iff i k, e.beq_iff i j, get-erase m j k)

  -- No key stands twice, as in every map that `put` and `erase` build.
  abbrev pub Distinct : HashMap K V → Type ℓ
  Distinct [] = Unit
  Distinct ((k, v) ∷ m) = (get m k ≡ none) × Distinct m

  pub put-Distinct : (m : HashMap K V) (k : K) (v : V) → Distinct m → Distinct (put m k v)
  unfolding put get
  put-Distinct [] k v d = (refl, tt)
  put-Distinct ((j, w) ∷ m) k v d =
      ground (arith, e.beq_iff j k, e.beq_iff k j, get-put m k j v, put-Distinct m k v)

  pub erase-Distinct : (m : HashMap K V) (k : K) → Distinct m → Distinct (erase m k)
  unfolding erase
  erase-Distinct [] k d = tt
  erase-Distinct ((j, w) ∷ m) k d = ground (arith, get-erase m k j, erase-Distinct m k)
