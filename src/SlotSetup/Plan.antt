-- ===== src/SlotSetup/Plan.antt =====
-- Where a synchronizer's slots are, and its weight, in src/goldnet_multiplayer.cpp: resolve_property,
-- cache_slot_plan and gn_read_priority.
use Prim.Native.String.{◌++◌ as concat}
use goldnet_godot.Common.{
  ℕ, String, Option, none, some, List, [], ◌∷◌, map, string_eq, if◌then◌else◌,
}
use goldnet_godot.Platform.{Platform, Variant, int, float}

-- A NodePath: the names up to a node, and the subnames of a property of it.
pub record NodePath : Type 0 where
  pub names : List String
  pub subnames : List String

-- `node_path`, from the text so far on.
unfoldable pub join_names : String → List String → String
join_names path [] = path
join_names path (n ∷ names) =
    let with =
      join_names (concat (concat path (if string_eq.beq path "" then "" else "/")) n) names in
    let without = join_names path names in if string_eq.beq n "." then without else with

-- `prop`, from the text so far on.
unfoldable pub join_subnames : String → List String → String
join_subnames prop [] = prop
join_subnames prop (n ∷ subnames) = join_subnames (concat prop (concat ":" n)) subnames

-- resolve_property under a root: the node and the property's path, if the node is there.
unfoldable pub resolve_property : (String → Option ℕ) → ℕ → NodePath → Option (ℕ × String)
resolve_property get_node root path =
    let node_path = join_names "" path.names in
    let target = if string_eq.beq node_path "" then some root else get_node node_path in
    elim target [ none ↦ none | some o ↦ some (o, join_subnames "" path.subnames) ]

-- A slot's place in the plan: a hole, with the id 0, where it doesn't resolve.
unfoldable pub place : Option (ℕ × String) → ℕ × String
place none = (0, "")
place (some (o, prop)) = (o, prop)

unfoldable pub resolve_slot : (String → Option ℕ) → Option ℕ → NodePath → Option (ℕ × String)
resolve_slot get_node none path = none
resolve_slot get_node (some root) path = resolve_property get_node root path

-- cache_slot_plan, with the root's object id, if it is there.
unfoldable pub cache_slot_plan : (String → Option ℕ) → Option ℕ → List NodePath → List (ℕ × String)
cache_slot_plan get_node root slots = map (λ path. place (resolve_slot get_node root path)) slots

module _ (p : Platform) where
  open p use {F, O, f32, is_positive, of_int, to_double}

  -- gn_read_priority, of the gn_priority meta, if there is one. The 1 is 1.0f.
  unfoldable pub gn_read_priority : Option (Variant F O) → F
  gn_read_priority (some (float f)) = if is_positive (f32 f) then f32 f else of_int 1
  gn_read_priority (some (int i)) =
      let v = f32 (to_double (int i)) in if is_positive v then v else of_int 1
  gn_read_priority _ = of_int 1
