-- ===== src/Registry/Despawns.antt =====
-- What is left of the server's records after _detect_despawns, in src/goldnet_multiplayer.cpp.
use goldnet_godot.Common.{
  ℕ, Bool, false, ◌&&◌, ◌||◌, not, ◌≡◌, refl, ap, List, [], ◌∷◌, ◌++◌, map, keep, HashSet, contains,
  contains-discard_all, arith, ◌==◌, if◌then◌else◌,
}
use goldnet_godot.Platform.{Platform}
use goldnet_godot.NetIds.{NetIds, object, drop}
use goldnet_godot.NetIds.Invariant.{get-drop}
use goldnet_godot.Registry.{
  Scene, CoreOp, add_spawn, add_entity, despawn, remove_entity, mark_dirty, forget, Registry,
  gone_ids, drop_each, detect_despawns,
}

contains-keep : (f : ℕ → Bool) (s : HashSet) (k : ℕ) → contains (keep f s) k ≡ (contains s k && f k)
contains-keep f [] k = refl
contains-keep f (x ∷ s) k = ground (arith, contains-keep f s k, ap {A = ℕ} f)

contains-++ : (s t : List ℕ) (k : ℕ) → contains (s ++ t) k ≡ (contains s k || contains t k)
contains-++ [] t k = refl
contains-++ (x ∷ s) t k = ground (arith, contains-++ s t k)

-- Whether the core is asked to despawn an id.
unfoldable pub despawns : List CoreOp → ℕ → Bool
despawns [] k = false
despawns (despawn i ∷ ops) k = i == k || despawns ops k
despawns (add_spawn i x ∷ ops) k = despawns ops k
despawns (add_entity i x ∷ ops) k = despawns ops k
despawns (remove_entity i ∷ ops) k = despawns ops k
despawns (mark_dirty i ∷ ops) k = despawns ops k
despawns (forget i ∷ ops) k = despawns ops k

despawns-map : (s : List ℕ) (k : ℕ) → despawns (map despawn s) k ≡ contains s k
unfolding despawns
despawns-map [] k = refl
despawns-map (x ∷ s) k = ground (arith, despawns-map s k)

pub despawns-++ :
    (ops more : List CoreOp) (k : ℕ)
    → despawns (ops ++ more) k ≡ (despawns ops k || despawns more k)
unfolding despawns
despawns-++ [] more k = refl
despawns-++ (add_spawn i x ∷ ops) more k = despawns-++ ops more k
despawns-++ (despawn i ∷ ops) more k = ground (arith, despawns-++ ops more k)
despawns-++ (add_entity i x ∷ ops) more k = despawns-++ ops more k
despawns-++ (remove_entity i ∷ ops) more k = despawns-++ ops more k
despawns-++ (mark_dirty i ∷ ops) more k = despawns-++ ops more k
despawns-++ (forget i ∷ ops) more k = despawns-++ ops more k

pub object-drop_each :
    (ids : NetIds) (s : List ℕ) (k : ℕ)
    → object (drop_each ids s) k ≡ (if contains s k then 0 else object ids k)
unfolding drop_each object
object-drop_each ids [] k = refl
object-drop_each ids (i ∷ s) k = ground (arith, object-drop_each (drop ids i) s k, get-drop ids i k)

-- After _detect_despawns each of the two sets keeps exactly the ids whose object is still there; the ids
-- of the others name nothing and every id else names what it did; and the core is asked to despawn
-- exactly the ids, of either set, whose object is gone.
pub detect_despawns_keeps :
    (p : Platform) {Callable : Type 0} (r : Registry p Callable) (w : Scene) (k : ℕ)
    → w.alive 0 ≡ false
    → let (r1, ops) = detect_despawns p r w in
      let gone =
        (contains r.server_spawned k || contains r.bind_ids k) && not (w.alive (object r.ids k)) in
      (contains r1.server_spawned k ≡ (contains r.server_spawned k && w.alive (object r.ids k)))
      × (contains r1.bind_ids k ≡ (contains r.bind_ids k && w.alive (object r.ids k)))
      × (object r1.ids k ≡ (if gone then 0 else object r.ids k))
      × (despawns ops k ≡ gone)
unfolding detect_despawns
detect_despawns_keeps p r w k none_at_0 =
    let spawned = gone_ids r.ids w r.server_spawned in
    let ids1 = drop_each r.ids spawned in
    let bound = gone_ids ids1 w r.bind_ids in
    let in_spawned : contains spawned k
        ≡ (contains r.server_spawned k && not (w.alive (object r.ids k))) =
      unfold gone_ids in contains-keep (λ i. not (w.alive (object r.ids i))) r.server_spawned k in
    let in_bound : contains bound k ≡ (contains r.bind_ids k && not (w.alive (object ids1 k))) =
      unfold gone_ids in contains-keep (λ i. not (w.alive (object ids1 i))) r.bind_ids k in
    let at1 = object-drop_each r.ids spawned k in
    let same : w.alive (object ids1 k) ≡ (not (contains spawned k) && w.alive (object r.ids k)) =
      ground (arith, at1, none_at_0, ap {A = ℕ} w.alive at1) in
    (
      ground (arith, contains-discard_all r.server_spawned spawned k, in_spawned),
      ground (arith, contains-discard_all r.bind_ids bound k, in_bound, same, in_spawned),
      ground (arith, object-drop_each ids1 bound k, at1, in_bound, same, in_spawned),
      ground (
        arith,
        despawns-map (spawned ++ bound) k,
        contains-++ spawned bound k,
        in_bound,
        same,
        in_spawned,
      ),
    )
