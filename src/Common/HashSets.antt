-- ===== src/Common/HashSets.antt =====
-- godot::HashSet of numbers as a list without repeats.
use Prim.Native.Nat.{ℕ}
use mathlib.Core.Path.{◌≡◌}
use mathlib.Core.Bool.{Bool, false, ◌||◌, ◌&&◌, not}
use mathlib.Core.List.{List, [], ◌∷◌}
use native.Mathlib.Omega.{arith}
use goldnet_godot.Common.Tests.{◌==◌, if◌then◌else◌}

abbrev pub HashSet : Type 0
HashSet = List ℕ

abbrev pub contains : HashSet → ℕ → Bool
contains [] k = false
contains (x ∷ s) k = x == k || contains s k

unfoldable pub insert : HashSet → ℕ → HashSet
insert [] k = k ∷ []
insert (x ∷ s) k = let rest = insert s k in if x == k then x ∷ s else x ∷ rest

unfoldable pub discard : HashSet → ℕ → HashSet
discard [] k = []
discard (x ∷ s) k = let rest = discard s k in if x == k then rest else x ∷ rest

pub contains-insert : (s : HashSet) (j k : ℕ) → contains (insert s j) k ≡ (j == k || contains s k)
unfolding insert
contains-insert [] j k = ground arith
contains-insert (x ∷ s) j k = ground (arith, contains-insert s j k)

pub contains-discard :
    (s : HashSet) (j k : ℕ) → contains (discard s j) k ≡ (not (j == k) && contains s k)
unfolding discard
contains-discard [] j k = ground arith
contains-discard (x ∷ s) j k = ground (arith, contains-discard s j k)

-- `for (k : ks) s.erase(k)`
unfoldable pub discard_all : HashSet → List ℕ → HashSet
discard_all s [] = s
discard_all s (k ∷ ks) = discard_all (discard s k) ks

pub contains-discard_all :
    (s : HashSet) (ks : List ℕ) (k : ℕ)
    → contains (discard_all s ks) k ≡ (not (contains ks k) && contains s k)
unfolding discard_all
contains-discard_all s [] k = ground arith
contains-discard_all s (j ∷ js) k =
    ground (arith, contains-discard_all (discard s j) js k, contains-discard s j k)
