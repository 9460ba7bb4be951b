-- ===== src/Hosts/Examples.antt =====
-- Tests of entities' transfers, at concrete slots.
use goldnet_godot.Common.{
  ◌+◌, ◌≤◌, ℕ, true, false, not, ◌≡◌, ◌==◌, refl, get, Option, none, some, List, [], ◌∷◌, get_elem?,
  ◌++◌, map, length, contains, arith, if◌then◌else◌,
}
use goldnet_godot.Platform.{Variant, int, float}
use goldnet_godot.Platform.Toy.{toy}
use goldnet_godot.NetIds.{NetIds, object}
use goldnet_godot.Values.{quant_auto, sk_int_step, sk_float_grid}
use goldnet_godot.Values.Slots.{grid_q}
use goldnet_godot.Values.Slots.RoundTrip.{quanta}
use goldnet_godot.SlotSetup.{SlotCode}
use goldnet_godot.Registry.{node, leaf, Scene, Registry}
use goldnet_godot.Hosts.{
  applied, SlotPlan, Engine, read, EntityUpdate, Codings, Local, set_nodes, coding_of, entity,
}
use goldnet_godot.SlotSetup.Plan.{NodePath, resolve_slot, cache_slot_plan}
use goldnet_godot.Hosts.Reads.{plan_of, value_at, read-cache_slot_plan}
use goldnet_godot.Hosts.Transfer.{Changed, arrives, encode_each, entity_takes}
use goldnet_godot.Hosts.Refusals.{Arrival, reports, SetOfKinds, entity_reports_once}

abbrev engine : Engine toy
engine = record { instance_from_id = λ i. some i; get_indexed = λ o prop. int o }

abbrev plan : List SlotPlan
plan =
    record { slot_target_id = 5; slot_prop = "health"; pushed = false }
    ∷ record { slot_target_id = 5; slot_prop = "name"; pushed = true }
    ∷ []

-- The synchronizers 21, which is live, 22, which is not in the tree, and 23, which is gone.
abbrev world : Scene
world = record {
  alive = λ o. not (o == 23);
  in_tree = λ o. not (o == 22);
  is_authority = λ o. true;
  subtree = λ o. node o false leaf;
  ancestry = λ o. o ∷ [];
  path = λ o. "Level";
  path_to = λ n o. "Sync";
}

abbrev ids : NetIds
ids = record {
  by_id = (3, record { obj = 21; learned = true }) ∷ [];
  by_obj = (21, 3) ∷ [];
  next = 1;
}

abbrev registry : Registry toy ℕ
registry = record {
  ids = ids;
  owned = 21 ∷ 22 ∷ 23 ∷ [];
  bind_ids = [];
  entities_to_add = 21 ∷ 22 ∷ 23 ∷ [];
  spawners = [];
  spawners_scanned = true;
  pending_spawns = [];
  server_spawned = [];
  client_spawned = [];
  client_slot_codings = [];
  dirty_route = [];
}

abbrev health : SlotCode toy
health = record { kind = sk_int_step; grid = 0; quant = quant_auto }

abbrev height : SlotCode toy
height = record { kind = sk_float_grid; grid = 4; quant = quant_auto }

abbrev local : Local toy
local = record {
  slots = 2;
  made = (health ∷ height ∷ [], 9);
  resolve = λ s. if s == 0 then some (5, "health") else none;
}

abbrev codings : Codings toy
codings = record { client_slot_codings = []; warned_kinds = [] }

abbrev both : List (Changed toy)
both =
    record { slot = 0; code = health; value = int 7 }
    ∷ record { slot = 1; code = height; value = float 22 }
    ∷ []

abbrev held : ℕ → Option (Variant ℕ ℕ)
held s = if s == 1 then some (float 41) else none

abbrev update : ℕ → EntityUpdate toy
update check = record {
  net_id = 3;
  whole = true;
  kinds_check = check;
  changed = 0 ∷ 1 ∷ [];
  base = λ s. if s == 1 then some (float 40) else none;
  server_time = 100;
  reader = toy.reader (encode_each toy both held 100 ++ []);
}

entity_takes_example :
    let out = (entity toy codings world ids local (update 9)).1 in
    let sets = set_nodes toy local.resolve (map (arrives toy) both) in
    (out.result ≡ applied)
    × (out.values ≡ map (arrives toy) both)
    × (out.sets ≡ sets)
    × (out.synchronized ≡ not (length sets == 0))
unfolding object coding_of quanta grid_q get
entity_takes_example =
    entity_takes toy codings world ids local (update 9) (health ∷ height ∷ []) 9 held [] both refl
      refl refl refl refl refl (omega arith)
      (
        (omega arith, refl, tt, omega arith, omega arith),
        ((omega arith, refl, refl, omega arith, omega arith), tt),
      )

-- Two updates of other kinds, and one of this end's.
abbrev arrival : ℕ → Arrival toy
arrival check = record { scene = world; ids = ids; end = local; update = update check }

entity_reports_once_example :
    (reports toy 3 codings (arrival 8 ∷ arrival 8 ∷ arrival 9 ∷ [])
        + (if contains codings.warned_kinds 3 then 1 else 0)
      ≤ 1)
    × SetOfKinds toy codings (arrival 8 ∷ arrival 8 ∷ arrival 9 ∷ [])
entity_reports_once_example =
    entity_reports_once toy codings (arrival 8 ∷ arrival 8 ∷ arrival 9 ∷ []) 3

abbrev scene_slots : List NodePath
scene_slots =
    record { names = "." ∷ "Gun" ∷ []; subnames = "ammo" ∷ [] }
    ∷ record { names = "." ∷ []; subnames = "health" ∷ [] }
    ∷ []

-- The first slot's node is not there: the second is read at its place all the same.
read-cache_slot_plan_example :
    get_elem?
      (read toy engine false (plan_of (cache_slot_plan (λ path. none) (some 5) scene_slots) []))
      1
    ≡ some (
      1,
      value_at toy engine
          (λ path. none)
          (some 5)
          (resolve_slot
            (λ path. none)
            (some 5)
            (record { names = "." ∷ []; subnames = "health" ∷ [] })),
    )
read-cache_slot_plan_example =
    read-cache_slot_plan toy engine (λ path. none) (some 5) scene_slots [] 1
      (record { names = "." ∷ []; subnames = "health" ∷ [] }) refl
