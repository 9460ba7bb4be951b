-- ===== src/NetIds/Invariant.antt =====
-- The two tables of NetIds are each other's inverse, and every operation keeps them so.
use goldnet_godot.Common.{
  ℕ, ◌+◌, ◌%◌, ◌^◌, ◌≡◌, ◌≢◌, refl, Bool, true, false, none, some, List, [], ◌∷◌, get, nat_eq, ◌==◌,
  get-put, get-erase, arith, inl, inr, Option-cases, Bool-cases, if◌then◌else◌,
}
use goldnet_godot.NetIds.{
  NetIds, Entry, init, put_entry, id, drop, release, assign, bind, learned_keys, drop_all,
  forget_learned,
}

-- The tables agree: the entry of an id names the object that the other table maps back to the id,
-- and no id is 0.
pub record WellFormed (s : NetIds) : Type 0 where
  pub forward : (i : ℕ) (e : Entry) → get s.by_id i ≡ some e → get s.by_obj e.obj ≡ some i
  pub backward :
      (o i : ℕ) → get s.by_obj o ≡ some i → (e : Entry) × (get s.by_id i ≡ some e) × (e.obj ≡ o)
  pub nonzero : get s.by_id 0 ≡ none

pub init-WellFormed : WellFormed init
unfolding init get
init-WellFormed = record { forward = λ i e h. cc; backward = λ o i h. cc; nonzero = refl }

-- After `drop` an id names nothing, and every other id what it named.
pub get-drop :
    (s : NetIds) (i k : ℕ) → get (drop s i).by_id k ≡ (if i == k then none else get s.by_id k)
unfolding drop
get-drop s i k = ground (arith, get-erase s.by_id i k)

drop_named-WellFormed :
    (s : NetIds) (i : ℕ) (x : Entry) → get s.by_id i ≡ some x → WellFormed s → WellFormed (drop s i)
unfolding drop
drop_named-WellFormed s i x hx w =
    rw (hx, drop)
      (record {
        forward = λ k e h. ground (
          arith,
          get-erase s.by_id i k,
          get-erase s.by_obj x.obj e.obj,
          w.forward i x,
          w.forward k e,
        );
        backward = λ o j h.
            let old : get s.by_obj o ≡ some j = ground (arith, get-erase s.by_obj x.obj o) in
            let (e, named, same) = w.backward o j old in
            (e, ground (arith, get-erase s.by_id i j, get-erase s.by_obj x.obj o), same);
        nonzero = ground (arith, get-erase s.by_id i 0, w.nonzero);
      })

pub drop-WellFormed : (s : NetIds) (i : ℕ) → WellFormed s → WellFormed (drop s i)
unfolding drop
drop-WellFormed s i w = elim (Option-cases (get s.by_id i)) [
  | inl e ↦ rw (e, drop) w
  | inr (x, e) ↦ drop_named-WellFormed s i x e w
]

-- Once released, an object has no id.
pub release_unnamed : (s : NetIds) (o : ℕ) → WellFormed s → get (release s o).0.by_obj o ≡ none
unfolding release drop id
release_unnamed s o w = elim (Option-cases (get s.by_obj o)) [
  | inl e ↦ ground (arith, w.nonzero)
  | inr (j, e) ↦
      let (x, named, same) = w.backward o j e in ground (arith, get-erase s.by_obj x.obj o)
]

put_entry-WellFormed :
    (s : NetIds) (i o : ℕ) (l : Bool)
    → WellFormed s
    → get s.by_id i ≡ none
    → get s.by_obj o ≡ none
    → i ≢ 0
    → WellFormed (put_entry s i o l)
unfolding put_entry
put_entry-WellFormed s i o l w hi ho nz = record {
  forward = λ k e h. ground (
    arith,
    get-put s.by_id i k (record { obj = o; learned = l }),
    get-put s.by_obj o e.obj i,
    w.forward k e,
  );
  backward = λ p j h. elim (Bool-cases (o == p)) [
    | inl same ↦ (
      record { obj = o; learned = l },
      ground (arith, get-put s.by_id i j (record { obj = o; learned = l }), get-put s.by_obj o p i),
      ground arith,
    )
    | inr other ↦
        let old : get s.by_obj p ≡ some j = ground (arith, get-put s.by_obj o p i) in
        let (e, named, at) = w.backward p j old in
        (e, ground (arith, get-put s.by_id i j (record { obj = o; learned = l })), at)
  ];
  nonzero = ground (arith, get-put s.by_id i 0 (record { obj = o; learned = l }), w.nonzero);
}

pub release-WellFormed : (s : NetIds) (o : ℕ) → WellFormed s → WellFormed (release s o).0
unfolding release
release-WellFormed s o w = drop-WellFormed s (id s o) w

next-WellFormed : (s : NetIds) (n : ℕ) → WellFormed s → WellFormed (record s { next = n })
next-WellFormed s n w = record { forward = w.forward; backward = w.backward; nonzero = w.nonzero }

-- Handing out an id keeps the tables inverse, if the counter stands at an id that names nothing and
-- is not 0.
pub assign-WellFormed :
    (s : NetIds) (o : ℕ)
    → WellFormed s
    → get s.by_id s.next ≡ none
    → s.next ≢ 0
    → WellFormed (assign s o).0
unfolding assign
assign-WellFormed s o w fresh nz = elim (Option-cases (get s.by_obj o)) [
  | inl e ↦
      rw (e, assign)
        (put_entry-WellFormed (record s { next = (s.next + 1) % 2 ^ 32 }) s.next o false
          (next-WellFormed s _ w) fresh e nz)
  | inr (j, e) ↦ rw (e, assign) w
]

-- Binding keeps the tables inverse, whatever the id and the object named before.
pub bind-WellFormed : (s : NetIds) (i o : ℕ) → WellFormed s → i ≢ 0 → WellFormed (bind s i o)
unfolding bind
bind-WellFormed s i o w nz =
    let dropped = drop-WellFormed s i w in
    put_entry-WellFormed (release (drop s i) o).0 i o true (release-WellFormed (drop s i) o dropped)
      (unfold release in
        rw (get-drop (drop s i) (id (drop s i) o) i) (ground (arith, get-drop s i i)))
      (release_unnamed (drop s i) o dropped) nz

pub drop_all-WellFormed : (s : NetIds) (is : List ℕ) → WellFormed s → WellFormed (drop_all s is)
unfolding drop_all
drop_all-WellFormed s [] w = w
drop_all-WellFormed s (i ∷ is) w = drop_all-WellFormed (drop s i) is (drop-WellFormed s i w)

pub forget_learned-WellFormed : (s : NetIds) → WellFormed s → WellFormed (forget_learned s)
unfolding forget_learned
forget_learned-WellFormed s w = drop_all-WellFormed s (learned_keys s.by_id) w
