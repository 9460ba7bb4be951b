-- ===== src/Hosts/Transfer.antt =====
-- An entity's changed slots, from ServerHost::encode to what ClientHost::entity sets.
use goldnet_godot.Common.{
  ℕ, ◌^◌, ◌<◌, true, false, ◌&&◌, ◌||◌, not, ◌≡◌, refl, ◌∙◌, Option, some, List, [], ◌∷◌, ◌++◌, map,
  All, length, get_elem?, nat_eq, leb, ◌==◌, if◌then◌else◌, arith,
}
use mathlib.Core.List.{append_assoc}
use goldnet_godot.Platform.{Platform, Variant}
use goldnet_godot.NetIds.{NetIds, object}
use goldnet_godot.Values.Slots.{put_slot, get_slot}
use goldnet_godot.Values.Slots.RoundTrip.{SameBase, slot_value, get-put_slot}
use goldnet_godot.SlotSetup.{SlotCode}
use goldnet_godot.Registry.{Scene}
use goldnet_godot.Hosts.{
  applied, encode, EntityUpdate, take_slots, set_nodes, Codings, Local, coding_of, take_update,
  entity,
}

module _ (p : Platform) where
  open p use {F, O, reader, failed, var_to_bytes}

  -- A slot that changed: its place, its code and its value at the server.
  pub record Changed : Type 0 where
    pub slot : ℕ
    pub code : SlotCode p
    pub value : Variant F O

  -- The changed slots as the server encodes them, in order, each against the server's base.
  pub encode_each : List Changed → (ℕ → Option (Variant F O)) → ℕ → List ℕ
  encode_each [] base now = []
  encode_each (c ∷ cs) base now =
      encode p c.code c.value (base c.slot) now ++ encode_each cs base now

  -- What a changed slot arrives as: what its kind's precision leaves.
  abbrev pub arrives : Changed → ℕ × Variant F O
  arrives c = (c.slot, slot_value p c.code.kind c.code.grid c.code.quant c.value)

  -- The slot is one that the client has with the same code; the two ends step from the same place; and
  -- the value fits the wire.
  abbrev pub Carried :
      ℕ
      → List (SlotCode p)
      → (ℕ → Option (Variant F O))
      → (ℕ → Option (Variant F O))
      → Changed
      → Type 0
  Carried slots codes base base' c =
      (c.slot < slots)
      × (get_elem? codes c.slot ≡ some c.code)
      × SameBase p c.code.kind c.code.grid (base c.slot) (base' c.slot)
      × (c.code.quant < 256)
      × (length (var_to_bytes c.value) < 2 ^ 32)

  take_found :
      (slots : ℕ) (codes : List (SlotCode p)) (base : ℕ → Option (Variant F O)) (now s : ℕ)
      (r : p.Reader) (ss : List ℕ) (c : SlotCode p)
      → get_elem? codes s ≡ some c
      → let (v, r1) = get_slot p r c.kind c.grid (base s) now in
        take_slots p slots codes base now r (s ∷ ss) ≡ (
          if leb slots s || failed r1 then [] else (s, v) ∷ take_slots p slots codes base now r1 ss)
  unfolding take_slots
  take_found slots codes base now s r ss c e = rw (e, take_slots)

  take-encode_each :
      (slots : ℕ) (codes : List (SlotCode p)) (base base' : ℕ → Option (Variant F O)) (now : ℕ)
      (rest : List ℕ) (cs : List Changed)
      → now < 2 ^ 32
      → All (Carried slots codes base base') cs
      → take_slots p slots codes base' now
          (reader (encode_each cs base now ++ rest))
          (map (λ c. c.slot) cs)
        ≡ map arrives cs
  unfolding encode_each encode take_slots
  take-encode_each slots codes base base' now rest [] hn h = refl
  take-encode_each slots codes base base' now rest (c ∷ cs) hn ((small, code, same, hq, hs), h) =
      let more = encode_each cs base now in
      let here : leb slots c.slot ≡ false = ground (arith, small) in
      let bytes = reader (
        (put_slot p c.code.kind c.code.grid c.code.quant c.value (base c.slot) now ++ more)
        ++ rest) in
      take_found slots codes base' now c.slot bytes (map (λ x. x.slot) cs) c.code code
      ∙ rw (
        append_assoc (put_slot p c.code.kind c.code.grid c.code.quant c.value (base c.slot) now)
            more rest,
        get-put_slot p c.code.kind c.code.quant now c.code.grid c.value (base c.slot) (base' c.slot)
            (more ++ rest) same hq hn hs,
        p.failed_reader (more ++ rest),
        here,
        take-encode_each slots codes base base' now rest cs hn h,
      )

  -- An update of slots that the client has, carried as the server encodes them: it is applied, the
  -- values are what the slots' kinds leave of the server's, in order, each is set on the property that
  -- its slot resolves to here, and the synchronizer signals exactly where any was. The synchronizer is in
  -- the tree, and its coding is this end's, whose check is the update's where that is whole.
  pub entity_takes :
      (s : Codings p) (w : Scene) (ids : NetIds) (l : Local p) (u : EntityUpdate p)
      (codes : List (SlotCode p)) (check : ℕ) (base : ℕ → Option (Variant F O)) (rest : List ℕ)
      (cs : List Changed)
      → w.alive (object ids u.net_id) ≡ true
      → w.in_tree (object ids u.net_id) ≡ true
      → (coding_of p s.client_slot_codings (object ids u.net_id) l.made).1 ≡ (codes, check)
      → (u.whole && not (u.kinds_check == check)) ≡ false
      → u.changed ≡ map (λ c. c.slot) cs
      → u.reader ≡ reader (encode_each cs base u.server_time ++ rest)
      → u.server_time < 2 ^ 32
      → All (Carried l.slots codes base u.base) cs
      → let out = (entity p s w ids l u).1 in
        let sets = set_nodes p l.resolve (map arrives cs) in
        (out.result ≡ applied)
        × (out.values ≡ map arrives cs)
        × (out.sets ≡ sets)
        × (out.synchronized ≡ not (length sets == 0))
  unfolding entity take_update
  entity_takes s w ids l u codes check base rest cs alive in_tree coding agrees changed bytes hn h =
      let values = take-encode_each l.slots codes base u.base u.server_time rest cs hn h in
      rw (coding, alive, in_tree, agrees, changed, bytes, values, entity, take_update)
        (refl, refl, refl, refl)
