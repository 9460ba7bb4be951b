-- ===== src/Registry/Removal.antt =====
-- What is left of a synchronizer that is removed, and which marks are lost, in
-- src/goldnet_multiplayer.cpp: _object_configuration_remove and mark_dirty.
use goldnet_godot.Common.{
  ℕ, Bool, true, false, ◌&&◌, not, ◌≡◌, ◌≢◌, ap, sym, ◌∙◌, refl, [], ◌∷◌, contains,
  contains-discard, arith, nat_eq, none, some, get, get-put, erase, get-erase, HashMap, List,
  Option, Option-cases, Bool-cases, inl, inr, ◌==◌, if◌then◌else◌,
}
use goldnet_godot.Platform.{Platform}
use goldnet_godot.NetIds.{NetIds, id, object, release}
use goldnet_godot.NetIds.Invariant.{WellFormed}
use goldnet_godot.NetIds.Session.{id-drop}
use goldnet_godot.NetIds.Handing.{object-id}
use goldnet_godot.Registry.{Registry, CoreOp, wrap_spawner, forget, remove_entity}
use goldnet_godot.Registry.Steps.{Waits}
use goldnet_godot.Registry.Configuration.{
  Config, spawner, synchronizer, unknown, object_configuration_add, object_configuration_remove,
  mark_object, owned_child,
}

-- A release takes an object's id and leaves the others theirs.
id-release :
    (s : NetIds) (o k : ℕ) → WellFormed s → id (release s o).0 k ≡ (if o == k then 0 else id s k)
unfolding release
id-release s o k w =
    let same : id s k ≢ 0 → id s k ≡ id s o → o ≡ k = λ h e.
      sym (object-id s o w (λ z. h (e ∙ z)))
      ∙ ap (λ (i : ℕ). object s i) (sym e)
      ∙ object-id s k w h in
    ground (arith, id-drop s (id s o) k w, same)

-- What a game and the scene do to the marks of nodes.
pub data Marking (Callable : Type 0) : Type 0 where
  registers : Bool → Bool → Config Callable → Marking Callable
  leaves : Config Callable → Marking Callable
  marks : ℕ → Option (List ℕ) → Marking Callable

module _ (p : Platform) {Callable : Type 0} where
  -- Once a synchronizer is removed it has no id, and every other object the id it had; it is ours no
  -- more, its slot coding is forgotten, it does not wait to enter the core where only our own do, and
  -- the core is asked to forget and remove its id exactly where it was ours and had one, which then is
  -- no bind record's.
  pub object_configuration_remove_forgets :
      (r : Registry p Callable) (s k : ℕ) (streams : Bool)
      → WellFormed r.ids
      → Waits p r
      → let (r1, ops, claim) = object_configuration_remove p r (synchronizer s streams) in
        let was_in = contains r.owned s && not (id r.ids s == 0) in
        (id r1.ids k ≡ (if s == k then 0 else id r.ids k))
        × (contains r1.owned k ≡ (not (s == k) && contains r.owned k))
        × (contains r1.client_slot_codings k ≡ (not (s == k) && contains r.client_slot_codings k))
        × (contains r1.entities_to_add k ≡ (not (s == k) && contains r.entities_to_add k))
        × (contains r1.bind_ids k ≡ (not (was_in && id r.ids s == k) && contains r.bind_ids k))
        × (ops ≡ (if was_in then forget (id r.ids s) ∷ remove_entity (id r.ids s) ∷ [] else []))
  unfolding object_configuration_remove
  object_configuration_remove_forgets r s k streams w waits =
      let ids_at = id-release r.ids s k w in
      let codings_at = contains-discard r.client_slot_codings s k in
      let owned_at = contains-discard r.owned s k in
      let waiting_at = contains-discard r.entities_to_add s k in
      let binds_at = contains-discard r.bind_ids (id r.ids s) k in
      let released : (release r.ids s).1 ≡ id r.ids s = unfold release in refl in
      elim (Bool-cases (contains r.owned s)) [
        | inl mine ↦ (
          ground (arith, ids_at, released),
          ground (arith, owned_at),
          ground (arith, codings_at),
          ground (arith, waiting_at),
          ground (arith, binds_at, released),
          ground (arith, released),
        )
        | inr others ↦
            let not_waiting : contains r.entities_to_add s ≡ false = ground (arith, waits s) in
            (
              ground (arith, ids_at),
              ground (arith, ap {A = ℕ} (contains r.owned)),
              ground (arith, codings_at),
              ground (arith, ap {A = ℕ} (contains r.entities_to_add)),
              ground arith,
              ground arith,
            )
      ]

  unfoldable pub mark_step : Registry p Callable → Marking Callable → Registry p Callable
  mark_step r (registers on_server has_object config) =
      (object_configuration_add p r on_server has_object config).0
  mark_step r (leaves config) = (object_configuration_remove p r config).0
  mark_step r (marks o children) = (mark_object p r o children).0

  unfoldable pub mark_steps : Registry p Callable → List (Marking Callable) → Registry p Callable
  mark_steps r [] = r
  mark_steps r (x ∷ xs) = mark_steps (mark_step r x) xs

  routed_add :
      (r : Registry p Callable) (on_server has_object : Bool) (config : Config Callable)
      → (object_configuration_add p r on_server has_object config).0.dirty_route ≡ r.dirty_route
  unfolding object_configuration_add wrap_spawner
  routed_add r on_server has_object (spawner sp fn) = ground arith
  routed_add r on_server has_object (synchronizer sync true) = refl
  routed_add r on_server has_object (synchronizer sync false) = refl
  routed_add r on_server has_object unknown = refl

  routed_remove :
      (r : Registry p Callable) (config : Config Callable)
      → (object_configuration_remove p r config).0.dirty_route ≡ r.dirty_route
  unfolding object_configuration_remove
  routed_remove r (spawner sp fn) = refl
  routed_remove r (synchronizer sync streams) = ground arith
  routed_remove r unknown = refl

  -- A node's route stays where it was first put.
  routed_mark :
      (r : Registry p Callable) (k : ℕ) (children : Option (List ℕ)) (o to : ℕ)
      → get r.dirty_route o ≡ some to
      → get (mark_object p r k children).0.dirty_route o ≡ some to
  unfolding mark_object
  routed_mark r k none o to e = ground (arith, e)
  routed_mark r k (some syncs) o to e = elim (Option-cases (owned_child r.owned syncs)) [
    | inl f ↦ ground (arith, e, f, get-put r.dirty_route k o 0, ap {A = ℕ} (get r.dirty_route))
    | inr (sync, f) ↦
        ground (arith, e, f, get-put r.dirty_route k o sync, ap {A = ℕ} (get r.dirty_route))
  ]

  routed_steps :
      (r : Registry p Callable) (xs : List (Marking Callable)) (o to : ℕ)
      → get r.dirty_route o ≡ some to
      → get (mark_steps r xs).dirty_route o ≡ some to
  unfolding mark_steps mark_step
  routed_steps r [] o to e = e
  routed_steps r (registers on_server has_object config ∷ xs) o to e =
      routed_steps (object_configuration_add p r on_server has_object config).0 xs o to
        (ap (λ (m : HashMap ℕ ℕ). get m o) (routed_add r on_server has_object config) ∙ e)
  routed_steps r (leaves config ∷ xs) o to e =
      routed_steps (object_configuration_remove p r config).0 xs o to
        (ap (λ (m : HashMap ℕ ℕ). get m o) (routed_remove r config) ∙ e)
  routed_steps r (marks k children ∷ xs) o to e =
      routed_steps (mark_object p r k children).0 xs o to (routed_mark r k children o to e)

  routed_nowhere :
      (r : Registry p Callable) (o : ℕ) (children : List ℕ)
      → contains r.owned o ≡ false
      → get r.dirty_route o ≡ none
      → owned_child r.owned children ≡ none
      → get (mark_object p r o (some children)).0.dirty_route o ≡ some 0
  unfolding mark_object
  routed_nowhere r o children not_ours unrouted childless =
      ground (arith, not_ours, unrouted, childless, get-put r.dirty_route o o 0)

  -- A mark of a node that is not ours and none of whose children is ours is remembered as leading
  -- nowhere: whatever synchronizers and spawners then register or leave and whatever is marked, every
  -- later mark of the node asks the core for nothing, while neither the node nor 0 is a synchronizer of
  -- ours; where a child of the node is ours by then, the same mark would ask for the child's id, had the
  -- node not been marked too early.
  pub mark_object_misses :
      (r : Registry p Callable) (o s : ℕ) (before now : List ℕ) (xs : List (Marking Callable))
      → contains r.owned o ≡ false
      → get r.dirty_route o ≡ none
      → owned_child r.owned before ≡ none
      → let after = mark_steps (mark_object p r o (some before)).0 xs in
        contains after.owned o ≡ false
        → contains after.owned 0 ≡ false
        → owned_child after.owned now ≡ some s
        → ((mark_object p after o (some now)).1 ≡ [])
          × ((mark_object p
                (record after { dirty_route = erase after.dirty_route o })
                o
                (some now)).1
              ≡ CoreOp.mark_dirty (id after.ids s) ∷ [])
  unfolding mark_object
  mark_object_misses r o s before now xs not_ours unrouted childless still nor_0 child =
      let after = mark_steps (mark_object p r o (some before)).0 xs in
      let routed =
        routed_steps (mark_object p r o (some before)).0 xs o 0
          (routed_nowhere r o before not_ours unrouted childless) in
      (
        ground (arith, still, nor_0, routed),
        ground (arith, still, child, get-erase after.dirty_route o o),
      )
