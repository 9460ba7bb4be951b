-- ===== src/Hosts/Refusals.antt =====
-- Updates whose slot kinds are not this end's, over a run of updates: ClientHost::entity.
use goldnet_godot.Common.{
  ℕ, suc, ◌+◌, ◌≤◌, true, false, ◌&&◌, ◌||◌, not, ◌≡◌, ◌⊎◌, Bool, Bool-cases, List, [], ◌∷◌,
  contains, contains-insert, ◌==◌, if◌then◌else◌, arith, inl, inr,
}
use goldnet_godot.Platform.{Platform}
use goldnet_godot.NetIds.{NetIds, object}
use goldnet_godot.Registry.{Scene}
use goldnet_godot.Hosts.{nothing, EntityUpdate, Codings, Local, coding_of, take_update, entity}

module _ (p : Platform) where
  -- An update with the state of this end when it arrives.
  pub record Arrival : Type 0 where
    pub scene : Scene
    pub ids : NetIds
    pub end : Local p
    pub update : EntityUpdate p

  abbrev pub after : Codings p → Arrival → Codings p
  after s a = (entity p s a.scene a.ids a.end a.update).0

  -- How often the kinds of an id are reported in a run of updates.
  unfoldable pub reports : ℕ → Codings p → List Arrival → ℕ
  reports i s [] = 0
  reports i s (a ∷ late) =
      let rest = reports i (after s a) late in
      if (entity p s a.scene a.ids a.end a.update).1.reported && a.update.net_id == i
      then suc rest
      else rest

  -- An update is not whole, or is of the kinds that this end then has.
  abbrev pub of_kinds : Codings p → Arrival → Bool
  of_kinds s a =
      not a.update.whole
      || a.update.kinds_check
        == (coding_of p s.client_slot_codings (object a.ids a.update.net_id) a.end.made).1.1

  -- Of a run of updates, any that sets or signals something is of this end's kinds.
  abbrev pub SetOfKinds : Codings p → List Arrival → Type 0
  SetOfKinds s [] = Unit
  SetOfKinds s (a ∷ late) =
      let out = (entity p s a.scene a.ids a.end a.update).1 in
      ((of_kinds s a ≡ true) ⊎ ((out.sets ≡ []) × (out.values ≡ []) × (out.synchronized ≡ false)))
      × SetOfKinds (after s a) late

  entity_reports :
      (s : Codings p) (a : Arrival) (i : ℕ)
      → let out = (entity p s a.scene a.ids a.end a.update).1 in
        ((out.reported && a.update.net_id == i) ≡ true
          → (contains s.warned_kinds i ≡ false) × (contains (after s a).warned_kinds i ≡ true))
        × (contains s.warned_kinds i ≡ true → contains (after s a).warned_kinds i ≡ true)
  unfolding entity nothing take_update
  entity_reports s a i =
      let held = contains-insert s.warned_kinds a.update.net_id i in
      (ground (arith, held), ground (arith, held))

  entity-of_kinds :
      (s : Codings p) (a : Arrival)
      → let out = (entity p s a.scene a.ids a.end a.update).1 in
        (of_kinds s a ≡ true) ⊎ ((out.sets ≡ []) × (out.values ≡ []) × (out.synchronized ≡ false))
  unfolding entity nothing
  entity-of_kinds s a = elim (Bool-cases (of_kinds s a)) [
    | inl same ↦ inl same
    | inr other ↦ inr (ground (arith, other), ground (arith, other), ground (arith, other))
  ]

  -- However updates come, and whatever synchronizer, slots and kinds this end then has for an id, the
  -- kinds of the id are reported once at most, and not at all where they were before; and every update
  -- that sets a property or signals is of the kinds that this end then has, or is not whole.
  pub entity_reports_once :
      (s : Codings p) (late : List Arrival) (i : ℕ)
      → (reports i s late + (if contains s.warned_kinds i then 1 else 0) ≤ 1) × SetOfKinds s late
  unfolding reports
  entity_reports_once s [] i = (ground arith, tt)
  entity_reports_once s (a ∷ late) i =
      let (least, guarded) = entity_reports_once (after s a) late i in
      (ground (arith, least, entity_reports s a i), (entity-of_kinds s a, guarded))
