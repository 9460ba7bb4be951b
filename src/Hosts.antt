-- ===== src/Hosts.antt =====
-- What the core asks for when it sends and takes entities, in src/goldnet_multiplayer.cpp: ServerHost's
-- live, read, visible, spawn_visible and encode, ClientHost's entity and relevance_lost, and
-- apply_snapshot.
pub mod Reads
pub mod Live
pub mod Transfer
pub mod Refusals
mod Examples
use goldnet_godot.Common.{
  ℕ, ◌+◌, Bool, true, false, ◌&&◌, ◌||◌, not, ◌≡◌, String, Option, none, some, List, [], ◌∷◌, ◌++◌,
  map, length, get_elem?, get_or, HashMap, get, put, nat_eq, HashSet, contains, insert, ltb, leb,
  ◌==◌, if◌then◌else◌,
}
use goldnet_godot.Platform.{Platform, Variant, nil}
use goldnet_godot.NetIds.{NetIds, object}
use goldnet_godot.Values.Slots.{put_slot, get_slot}
use goldnet_godot.SlotSetup.{SlotCode}
use goldnet_godot.Registry.{Scene}

-- ServerHost::live, of a synchronizer by its object id.
unfoldable pub live : Scene → ℕ → Bool
live w sync = w.alive sync && (w.in_tree sync && w.is_authority sync)

-- What a synchronizer's visibility is: public, or by peer.
pub record Visibility : Type 0 where
  pub is_visibility_public : ℕ → Bool
  pub get_visibility_for : ℕ → ℕ → Bool

-- ServerHost::visible
unfoldable pub visible : Visibility → ℕ → ℕ → Bool
visible v sync peer = v.is_visibility_public sync || v.get_visibility_for sync peer

-- ServerHost::spawn_visible
unfoldable pub spawn_visible : Visibility → Scene → NetIds → ℕ → ℕ → Bool
spawn_visible v w ids net_id peer =
    w.alive (object ids net_id) && visible v (object ids net_id) peer

-- ClientHost::relevance_lost: the synchronizer that the signal is of.
unfoldable pub relevance_lost : Scene → NetIds → ℕ → Option ℕ
relevance_lost w ids net_id = if w.alive (object ids net_id) then some (object ids net_id) else none

-- goldnet::EntityResult
pub data EntityResult : Type 0 where
  skip not_ready applied : EntityResult

-- A slot of the server's plan of an entity: the object that has the property, the property, and
-- whether the game marks it.
pub record SlotPlan : Type 0 where
  pub slot_target_id : ℕ
  pub slot_prop : String
  pub pushed : Bool

module _ (p : Platform) where
  open p use {F, O, Reader, failed}

  -- What the engine says of objects' properties.
  pub record Engine : Type 0 where
    pub instance_from_id : ℕ → Option ℕ
    pub get_indexed : ℕ → String → Variant F O

  unfoldable pub look_up : Engine → ℕ → Option ℕ
  look_up e i = if i == 0 then none else e.instance_from_id i

  unfoldable pub value_of : Engine → Option ℕ → String → Variant F O
  value_of e none prop = nil
  value_of e (some o) prop = e.get_indexed o prop

  -- The loop of ServerHost::read, from slot s on, with last_id and last_obj; its stamps in order.
  unfoldable pub read_slots :
      Engine → Bool → ℕ → Option ℕ → ℕ → List SlotPlan → List (ℕ × Variant F O)
  read_slots e polled_only last_id last_obj s [] = []
  read_slots e polled_only last_id last_obj s (c ∷ plan) =
      let skipped = read_slots e polled_only last_id last_obj (s + 1) plan in
      let i = c.slot_target_id in
      let obj = if i == last_id then last_obj else look_up e i in
      let rest = read_slots e polled_only i obj (s + 1) plan in
      if polled_only && c.pushed then skipped else (s, value_of e obj c.slot_prop) ∷ rest

  -- ServerHost::read
  unfoldable pub read : Engine → Bool → List SlotPlan → List (ℕ × Variant F O)
  read e polled_only plan = read_slots e polled_only 0 none 0 plan

  -- ServerHost::encode, of an entity with this coding and value.
  unfoldable pub encode : SlotCode p → Variant F O → Option (Variant F O) → ℕ → List ℕ
  encode c v base now = put_slot p c.kind c.grid c.quant v base now

  -- goldnet::EntityUpdate, as far as it is asked.
  pub record EntityUpdate : Type 0 where
    pub net_id : ℕ
    pub whole : Bool
    pub kinds_check : ℕ
    pub changed : List ℕ
    pub base : ℕ → Option (Variant F O)
    pub server_time : ℕ
    pub reader : Reader

  -- A client's slot coding of a synchronizer: its slots' codes and the check.
  abbrev pub SlotCoding : Type 0
  SlotCoding = List (SlotCode p) × ℕ

  -- The loop of ClientHost::entity: the values it sets, by slot, for an end of so many slots.
  unfoldable pub take_slots :
      ℕ
      → List (SlotCode p)
      → (ℕ → Option (Variant F O))
      → ℕ
      → Reader
      → List ℕ
      → List (ℕ × Variant F O)
  take_slots slots codes base now r [] = []
  take_slots slots codes base now r (s ∷ changed) = elim (get_elem? codes s) [
    | none ↦ []
    | some c ↦
        let (v, r1) = get_slot p r c.kind c.grid (base s) now in
        let rest = take_slots slots codes base now r1 changed in
        if leb slots s || failed r1 then [] else (s, v) ∷ rest
  ]

  -- The values set on nodes: those of the slots that resolve to one.
  unfoldable pub set_nodes :
      (ℕ → Option (ℕ × String)) → List (ℕ × Variant F O) → List (ℕ × String × Variant F O)
  set_nodes resolve [] = []
  set_nodes resolve ((s, v) ∷ values) = elim (resolve s) [
    | none ↦ set_nodes resolve values
    | some (o, prop) ↦ (o, prop, v) ∷ set_nodes resolve values
  ]

  -- What comes of an entity's update: the answer, the values the update is given, the properties set,
  -- whether the synchronizer signals `synchronized`, and whether its kinds are reported.
  pub record Outcome : Type 0 where
    pub result : EntityResult
    pub values : List (ℕ × Variant F O)
    pub sets : List (ℕ × String × Variant F O)
    pub synchronized : Bool
    pub reported : Bool

  unfoldable pub nothing : EntityResult → Outcome
  nothing a = record { result = a; values = []; sets = []; synchronized = false; reported = false }

  -- The members of GoldNetMultiplayer that an update touches.
  pub record Codings : Type 0 where
    pub client_slot_codings : HashMap ℕ SlotCoding
    pub warned_kinds : HashSet

  -- What this end's synchronizer is: its number of slots, the coding made of them when there is none,
  -- and the node and property that a slot resolves to.
  pub record Local : Type 0 where
    pub slots : ℕ
    pub made : SlotCoding
    pub resolve : ℕ → Option (ℕ × String)

  -- client_slot_codings' entry, made where there is none.
  unfoldable pub coding_of :
      HashMap ℕ SlotCoding → ℕ → SlotCoding → HashMap ℕ SlotCoding × SlotCoding
  coding_of m sync made = elim (get m sync) [ none ↦ (put m sync made, made) | some c ↦ (m, c) ]

  unfoldable pub take_update : Local → SlotCoding → EntityUpdate → Outcome
  take_update l c u =
      let values = take_slots l.slots c.0 u.base u.server_time u.reader u.changed in
      let sets = set_nodes l.resolve values in
      record {
        result = applied;
        values = values;
        sets = sets;
        synchronized = not (length sets == 0);
        reported = false;
      }

  -- ClientHost::entity
  unfoldable pub entity : Codings → Scene → NetIds → Local → EntityUpdate → Codings × Outcome
  entity s w ids l u =
      let sync = object ids u.net_id in
      let (codings, c) = coding_of s.client_slot_codings sync l.made in
      let s1 : Codings = record s { client_slot_codings = codings } in
      if not (w.alive sync)
      then (s, nothing skip)
      else if not (w.in_tree sync)
      then (s, nothing not_ready)
      else if u.whole && not (u.kinds_check == c.1)
      then (
        record s1 { warned_kinds = insert s1.warned_kinds u.net_id },
        record (nothing skip) { reported = not (contains s1.warned_kinds u.net_id) },
      )
      else (s1, take_update l c u)

-- The loop of apply_snapshot over what the core gave up on: the ids it warns of.
unfoldable pub warn_each : HashSet → List ℕ → HashSet × List ℕ
warn_each warned [] = (warned, [])
warn_each warned (net_id ∷ given_up) =
    let known = warn_each warned given_up in
    let new = warn_each (insert warned net_id) given_up in
    if contains warned net_id then known else (new.0, net_id ∷ new.1)

-- `granted == update_rate_granted`, where -1 is none.
unfoldable pub same_rate : Option ℕ → Option ℕ → Bool
same_rate none none = true
same_rate (some a) (some b) = a == b
same_rate _ _ = false

-- apply_snapshot, after the core took it: warned_given_up and update_rate_granted, the ids warned of,
-- and the rate signalled, if it changed.
unfoldable pub apply_snapshot :
    HashSet → Option ℕ → List ℕ → Option ℕ → HashSet × Option ℕ × List ℕ × Bool
apply_snapshot warned rate given_up granted =
    let (warned1, warns) = warn_each warned given_up in
    (warned1, granted, warns, not (same_rate granted rate))
