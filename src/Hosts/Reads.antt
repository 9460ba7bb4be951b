-- ===== src/Hosts/Reads.antt =====
-- ServerHost::read's lookups, of which it makes one for a run of slots on one object.
use goldnet_godot.Common.{
  ℕ, String, some, false, zero, suc, get_elem?, ◌+◌, Bool, ◌&&◌, ◌≡◌, refl, ap, ◌∙◌, Option, none,
  List, [], ◌∷◌, ◌==◌, if◌then◌else◌, arith,
}
use goldnet_godot.Platform.{Platform, Variant, nil}
use goldnet_godot.SlotSetup.Plan.{NodePath, place, resolve_slot, cache_slot_plan}
use goldnet_godot.Hosts.{SlotPlan, Engine, look_up, value_of, read_slots, read}

module _ (p : Platform) where
  open p use {F, O}

  -- Every slot that is not skipped, with a lookup of its own.
  pub plain_read : Engine p → Bool → ℕ → List SlotPlan → List (ℕ × Variant F O)
  plain_read e polled_only s [] = []
  plain_read e polled_only s (c ∷ plan) =
      let rest = plain_read e polled_only (s + 1) plan in
      if polled_only && c.pushed
      then rest
      else (s, value_of p e (look_up p e c.slot_target_id) c.slot_prop) ∷ rest

  read_slots_plain :
      (e : Engine p) (polled_only : Bool) (last_id : ℕ) (last_obj : Option ℕ) (s : ℕ)
      (plan : List SlotPlan)
      → last_obj ≡ look_up p e last_id
      → read_slots p e polled_only last_id last_obj s plan ≡ plain_read e polled_only s plan
  unfolding read_slots plain_read
  read_slots_plain e polled_only last_id last_obj s [] h = refl
  read_slots_plain e polled_only last_id last_obj s (c ∷ plan) h =
      let i = c.slot_target_id in
      let obj = if i == last_id then last_obj else look_up p e i in
      let same : obj ≡ look_up p e i = ground (arith, h, ap {A = ℕ} (look_up p e)) in
      ground (
        arith,
        same,
        read_slots_plain e polled_only last_id last_obj (s + 1) plan h,
        read_slots_plain e polled_only i obj (s + 1) plan same,
      )

  -- The one lookup that a run of slots shares reads what a lookup for every slot would.
  pub read_plain :
      (e : Engine p) (polled_only : Bool) (plan : List SlotPlan)
      → read p e polled_only plan ≡ plain_read e polled_only 0 plan
  unfolding read
  read_plain e polled_only plan =
      read_slots_plain e polled_only 0 none 0 plan (unfold look_up in refl)

-- The plan that _add_entities caches, and which of its slots the game marks.
unfoldable pub plan_of : List (ℕ × String) → List Bool → List SlotPlan
plan_of [] pushed = []
plan_of ((o, prop) ∷ places) [] =
    record { slot_target_id = o; slot_prop = prop; pushed = false } ∷ plan_of places []
plan_of ((o, prop) ∷ places) (b ∷ pushed) =
    record { slot_target_id = o; slot_prop = prop; pushed = b } ∷ plan_of places pushed

module _ (p : Platform) (e : Engine p) (get_node : String → Option ℕ) (root : Option ℕ) where
  open p use {F, O}

  -- A slot's value: nil where the slot doesn't resolve.
  pub value_at : Option (ℕ × String) → Variant F O
  value_at none = nil
  value_at (some (o, prop)) = value_of p e (look_up p e o) prop

  place_value :
      (r : Option (ℕ × String)) → value_of p e (look_up p e (place r).0) (place r).1 ≡ value_at r
  unfolding place look_up value_of value_at
  place_value none = refl
  place_value (some (o, prop)) = refl

  first_stamp :
      (from : ℕ) (c path : NodePath)
      → some c ≡ some path
      → ◌≡◌ {A = ℕ × Variant F O}
          (
            from,
            value_of p e
                (look_up p e (place (resolve_slot get_node root c)).0)
                (place (resolve_slot get_node root c)).1,
          )
          (from + 0, value_at (resolve_slot get_node root path))
  first_stamp from c path h =
      let same : c ≡ path = cc in
      let here : from ≡ from + 0 = omega arith in
      rw (place_value (resolve_slot get_node root c), same, ← here) refl

  plain_read_at :
      (slots : List NodePath) (pushed : List Bool) (from s : ℕ) (path : NodePath)
      → get_elem? slots s ≡ some path
      → get_elem?
          (plain_read p e false from (plan_of (cache_slot_plan get_node root slots) pushed))
          s
        ≡ some (from + s, value_at (resolve_slot get_node root path))
  unfolding plain_read plan_of cache_slot_plan
  plain_read_at [] pushed from s path h = ground arith
  plain_read_at (c ∷ slots) [] from zero path h = ap some (first_stamp from c path h)
  plain_read_at (c ∷ slots) (b ∷ pushed) from zero path h = ap some (first_stamp from c path h)
  plain_read_at (c ∷ slots) [] from (suc s) path h =
      let up : from + 1 + s ≡ from + suc s = omega arith in
      rw (← up) (plain_read_at slots [] (from + 1) s path h)
  plain_read_at (c ∷ slots) (b ∷ pushed) from (suc s) path h =
      let up : from + 1 + s ≡ from + suc s = omega arith in
      rw (← up) (plain_read_at slots pushed (from + 1) s path h)

  -- A whole read of the cached plan stamps slot s with the value of the property that slot s resolves to,
  -- and with nil where it doesn't: a slot that is not found moves no other.
  pub read-cache_slot_plan :
      (slots : List NodePath) (pushed : List Bool) (s : ℕ) (path : NodePath)
      → get_elem? slots s ≡ some path
      → get_elem? (read p e false (plan_of (cache_slot_plan get_node root slots) pushed)) s
        ≡ some (s, value_at (resolve_slot get_node root path))
  read-cache_slot_plan slots pushed s path h =
      ap (λ (xs : List (ℕ × Variant F O)). get_elem? xs s)
        (read_plain p e false (plan_of (cache_slot_plan get_node root slots) pushed))
      ∙ plain_read_at slots pushed 0 s path h
      ∙ ap (λ (k : ℕ). some (k, value_at (resolve_slot get_node root path))) (omega arith)
