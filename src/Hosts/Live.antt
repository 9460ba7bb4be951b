-- ===== src/Hosts/Live.antt =====
-- _add_entities hands the core what ServerHost::live would say yes to.
use goldnet_godot.Common.{
  ℕ, ◌&&◌, ◌||◌, not, ◌≡◌, refl, ap, ◌∙◌, List, [], ◌∷◌, length, length-append, keep, HashSet,
  contains, contains-discard_all, if◌then◌else◌, arith,
}
use goldnet_godot.Platform.{Platform}
use goldnet_godot.Registry.{Scene, Registry, enter, enter_each, add_entities}
use goldnet_godot.Hosts.{live}

module _ (p : Platform) {Callable : Type 0} where
  enter_one :
      (r : Registry p Callable) (w : Scene) (sync : ℕ)
      → let (r1, ops, done) = enter p r w sync in
        (r1.entities_to_add ≡ r.entities_to_add)
        × (length ops ≡ (if live w sync then 1 else 0))
        × (done ≡ (live w sync || not (w.alive sync)))
  unfolding enter live
  enter_one r w sync = (ground arith, ground arith, ground arith)

  enter_many :
      (r : Registry p Callable) (w : Scene) (syncs : List ℕ) (k : ℕ)
      → let (r1, ops, done) = enter_each p r w syncs in
        (r1.entities_to_add ≡ r.entities_to_add)
        × (length ops ≡ length (keep (live w) syncs))
        × (contains done k ≡ (contains syncs k && (live w k || not (w.alive k))))
  unfolding enter_each
  enter_many r w [] k = (refl, refl, refl)
  enter_many r w (sync ∷ syncs) k =
      let (kept, added, done) = enter_one r w sync in
      let (more_kept, more, rest) = enter_many (enter p r w sync).0 w syncs k in
      (
        more_kept ∙ kept,
        ground (
          arith,
          length-append (enter p r w sync).1 (enter_each p (enter p r w sync).0 w syncs).1,
          added,
          more,
        ),
        ground (arith, done, rest, ap {A = ℕ} (live w), ap {A = ℕ} w.alive),
      )

  -- The core is handed as many entities as waiting synchronizers are live; those left to wait are the
  -- ones that are there and not live yet.
  pub add_entities-live :
      (r : Registry p Callable) (w : Scene) (k : ℕ)
      → let (r1, ops) = add_entities p r w in
        (length ops ≡ length (keep (live w) r.entities_to_add))
        × (contains r1.entities_to_add k
            ≡ (contains r.entities_to_add k && (w.alive k && not (live w k))))
  unfolding add_entities
  add_entities-live r w k =
      let (kept, added, done) = enter_many r w r.entities_to_add k in
      let all = enter_each p r w r.entities_to_add in
      (
        added,
        ground (
          arith,
          kept,
          done,
          contains-discard_all all.0.entities_to_add all.2 k,
          ap (λ (s : HashSet). contains s k) kept,
        ),
      )
