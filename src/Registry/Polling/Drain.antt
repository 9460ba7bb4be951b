-- ===== src/Registry/Polling/Drain.antt =====
-- Which captured spawns reach the core when they are drained.
use goldnet_godot.Common.{
  ℕ, ◌+◌, ◌^◌, ◌<◌, ◌≡◌, ◌≢◌, refl, ap, sym, ◌∙◌, Bool, true, false, ◌&&◌, ◌||◌, Bool-cases, inl,
  inr, some, List, [], ◌∷◌, ◌++◌, HashMap, get, contains, contains-insert, has, length, arith,
  nat_eq, ◌==◌,
}
use mathlib.Core.Path.{subst}
use goldnet_godot.Platform.{Platform}
use goldnet_godot.NetIds.{id}
use goldnet_godot.NetIds.Session.{Handed}
use goldnet_godot.NetIds.Handing.{Follows, Follows-trans}
use goldnet_godot.Registry.{
  Scene, CoreOp, add_spawn, add_entity, despawn, remove_entity, mark_dirty, forget, Registry,
  PendingSpawn, collect_syncs,
}
use goldnet_godot.Registry.Spawning.{promote, spawner_net_id, drain_one, drain_each}
use goldnet_godot.Registry.Ends.Promotion.{
  record_of, promote_writes, promote-server_spawned, promote-spawners,
}

-- Whether the core is asked for a spawn of this id.
unfoldable pub adds : List CoreOp → ℕ → Bool
adds [] k = false
adds (add_spawn i x ∷ ops) k = i == k || adds ops k
adds (despawn i ∷ ops) k = adds ops k
adds (add_entity i x ∷ ops) k = adds ops k
adds (remove_entity i ∷ ops) k = adds ops k
adds (mark_dirty i ∷ ops) k = adds ops k
adds (forget i ∷ ops) k = adds ops k

pub adds-++ : (ops more : List CoreOp) (k : ℕ) → adds (ops ++ more) k ≡ (adds ops k || adds more k)
unfolding adds
adds-++ [] more k = refl
adds-++ (add_spawn i x ∷ ops) more k = ground (arith, adds-++ ops more k)
adds-++ (despawn i ∷ ops) more k = adds-++ ops more k
adds-++ (add_entity i x ∷ ops) more k = adds-++ ops more k
adds-++ (remove_entity i ∷ ops) more k = adds-++ ops more k
adds-++ (mark_dirty i ∷ ops) more k = adds-++ ops more k
adds-++ (forget i ∷ ops) more k = adds-++ ops more k

module _ (p : Platform) where
  -- The ids that draining may hand out.
  abbrev pub cost : Scene → HashMap ℕ (PendingSpawn p) → ℕ
  cost w [] = 0
  cost w ((n, ps) ∷ m) = length (collect_syncs (w.subtree n)) + 2 + cost w m

  module _ {Callable : Type 0} where
    -- A captured spawn whose node is in the tree and whose spawner is known.
    abbrev pub due : Registry p Callable → Scene → ℕ → PendingSpawn p → Bool
    due r w n ps = w.alive n && (w.in_tree n && has r.spawners ps.spawner_objid)

    drain_one-due :
        (r : Registry p Callable) (w : Scene) (n : ℕ) (ps : PendingSpawn p)
        → due r w n ps ≡ true
        → drain_one p r w n ps ≡ ((promote p r w n ps).0, (promote p r w n ps).1, true)
    unfolding drain_one
    drain_one-due r w n ps h = ground (arith, h)

    drain_one_waits :
        (r : Registry p Callable) (w : Scene) (n : ℕ) (ps : PendingSpawn p)
        → due r w n ps ≡ false
        → ((drain_one p r w n ps).0 ≡ r) × ((drain_one p r w n ps).1 ≡ [])
    unfolding drain_one
    drain_one_waits r w n ps h = (ground (arith, h), ground (arith, h))

    -- The ids of r are kept in t, which n more may follow, with its spawners and what it counts as spawned.
    pub record Grows (r t : Registry p Callable) (n : ℕ) : Type 0 where
      pub follows : Follows r.ids t.ids n
      pub same : t.spawners ≡ r.spawners
      pub keeps : (k : ℕ) → contains r.server_spawned k ≡ true → contains t.server_spawned k ≡ true

    Grows-refl : (r : Registry p Callable) (n : ℕ) → Handed r.ids → Grows r r n
    Grows-refl r n v = record {
      follows = record { handed = v; room = omega arith; kept = λ k h. refl };
      same = refl;
      keeps = λ k h. h;
    }

    drain_one-Grows :
        (r : Registry p Callable) (w : Scene) (n : ℕ) (ps : PendingSpawn p)
        → Handed r.ids
        → r.ids.next + (length (collect_syncs (w.subtree n)) + 2) < 2 ^ 32
        → Grows r (drain_one p r w n ps).0 (length (collect_syncs (w.subtree n)) + 2)
    drain_one-Grows r w n ps v room =
        let (writes, follows, n_nz, s_nz, each) = promote_writes p r w n ps v room in
        let spawned = promote-server_spawned p r w n ps v room in
        let t = (promote p r w n ps).0 in
        elim (Bool-cases (due r w n ps)) [
          | inl now ↦
              subst (λ u. Grows r u (length (collect_syncs (w.subtree n)) + 2))
                (sym (ap (λ d. d.0) (drain_one-due r w n ps now)))
                (record {
                  follows = follows;
                  same = promote-spawners p r w n ps;
                  keeps = λ k h. ground (
                    arith,
                    h,
                    ap (λ s. contains s k) spawned,
                    contains-insert r.server_spawned (id t.ids n) k,
                  );
                })
          | inr early ↦
              subst (λ u. Grows r u (length (collect_syncs (w.subtree n)) + 2))
                (sym (drain_one_waits r w n ps early).0)
                (Grows-refl r (length (collect_syncs (w.subtree n)) + 2) v)
        ]

    -- A spawn that is due has an id, counts as spawned, and the core is asked for it.
    abbrev pub Spawned : Registry p Callable → List CoreOp → ℕ → Type 0
    Spawned t ops n =
        (id t.ids n ≢ 0)
        × (contains t.server_spawned (id t.ids n) ≡ true)
        × (adds ops (id t.ids n) ≡ true)

    drain_one-Spawned :
        (r : Registry p Callable) (w : Scene) (n : ℕ) (ps : PendingSpawn p)
        → Handed r.ids
        → r.ids.next + (length (collect_syncs (w.subtree n)) + 2) < 2 ^ 32
        → due r w n ps ≡ true
        → Spawned (drain_one p r w n ps).0 (drain_one p r w n ps).1 n
    unfolding adds
    drain_one-Spawned r w n ps v room now =
        let (writes, follows, n_nz, s_nz, each) = promote_writes p r w n ps v room in
        let spawned = promote-server_spawned p r w n ps v room in
        let t = (promote p r w n ps).0 in
        let i = id t.ids n in
        let before = (spawner_net_id p r w ps.spawner_objid).1 in
        subst (λ d. Spawned d.0 d.1 n) (sym (drain_one-due r w n ps now))
          (
            n_nz,
            ground (arith, ap (λ s. contains s i) spawned, contains-insert r.server_spawned i i),
            ap (λ ops. adds ops i) writes
                ∙ ground
                    (arith, adds-++ before (add_spawn i (record_of p t.ids r.owned w n ps) ∷ []) i),
          )

    Spawned-later :
        (t u : Registry p Callable) (ops more : List CoreOp) (n k : ℕ)
        → Grows t u k
        → Spawned t ops n
        → Spawned u (ops ++ more) n
    Spawned-later t u ops more n k g (nz, there, asked) =
        let same = g.follows.kept n nz in
        (
          λ z. nz (sym same ∙ z),
          ap (contains u.server_spawned) same ∙ g.keeps (id t.ids n) there,
          ap (adds (ops ++ more)) same ∙ ground (arith, adds-++ ops more (id t.ids n), asked),
        )

    Grows-trans :
        (r t u : Registry p Callable) (m n k : ℕ)
        → m + n ≡ k
        → Grows r t m
        → Grows t u n
        → Grows r u k
    Grows-trans r t u m n k both f g = record {
      follows = Follows-trans r.ids t.ids u.ids m n k both f.follows g.follows;
      same = g.same ∙ f.same;
      keeps = λ j h. g.keeps j (f.keeps j h);
    }

    pub drain_each-Grows :
        (r : Registry p Callable) (w : Scene) (m : HashMap ℕ (PendingSpawn p))
        → Handed r.ids
        → r.ids.next + cost w m < 2 ^ 32
        → Grows r (drain_each p r w m).0 (cost w m)
    unfolding drain_each
    drain_each-Grows r w [] v room = Grows-refl r 0 v
    drain_each-Grows r w ((n, ps) ∷ m) v room =
        let first = length (collect_syncs (w.subtree n)) + 2 in
        let t = (drain_one p r w n ps).0 in
        let one = drain_one-Grows r w n ps v (omega arith) in
        Grows-trans r t (drain_each p t w m).0 first (cost w m) (first + cost w m) refl one
          (drain_each-Grows t w m one.follows.handed (omega (arith, one.follows.room)))

    -- Every spawn of the list that is due is spawned once the list is drained.
    pub drain_each-Spawned :
        (r : Registry p Callable) (w : Scene) (m : HashMap ℕ (PendingSpawn p)) (n : ℕ)
        (ps : PendingSpawn p)
        → Handed r.ids
        → r.ids.next + cost w m < 2 ^ 32
        → get m n ≡ some ps
        → due r w n ps ≡ true
        → let (t, ops, done) = drain_each p r w m in Spawned t ops n
    unfolding drain_each get
    drain_each-Spawned r w [] n ps v room e now = (let no : ⊥ = ground arith in elim no [ ])
    drain_each-Spawned r w ((j, qs) ∷ m) n ps v room e now =
        let (t, ops, done) = drain_one p r w j qs in
        let one = drain_one-Grows r w j qs v (omega arith) in
        let roomy : t.ids.next + cost w m < 2 ^ 32 = omega (arith, one.follows.room) in
        let (u, more, rest) = drain_each p t w m in
        elim (Bool-cases (j == n)) [
          | inl same ↦
              let j_n : j ≡ n = ground (arith, same) in
              let qs_ps : qs ≡ ps = ground (arith, same, e) in
              let now' : due r w j qs ≡ true =
                ap (λ (s : PendingSpawn p). due r w j s) qs_ps
                ∙ ap (λ (x : ℕ). due r w x ps) j_n
                ∙ now in
              subst (λ x. Spawned u (ops ++ more) x) j_n
                (Spawned-later t u ops more j (cost w m)
                  (drain_each-Grows t w m one.follows.handed roomy)
                  (drain_one-Spawned r w j qs v (omega arith) now'))
          | inr other ↦
              let (a, b, c) =
                drain_each-Spawned t w m n ps one.follows.handed roomy (ground (arith, other, e)) (
                  ap
                    (λ (s : HashMap ℕ Callable).
                      w.alive n && (w.in_tree n && has s ps.spawner_objid))
                    one.same
                  ∙ now) in
              (a, b, ground (arith, adds-++ ops more (id u.ids n), c))
        ]
