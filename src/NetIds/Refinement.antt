-- ===== src/NetIds/Refinement.antt =====
-- The two tables of src/goldnet_net_ids.h implement one abstract naming: for each id what it names, with
-- a mark where a server gave it.
use goldnet_godot.Common.{
  ℕ, ◌≡◌, ◌≢◌, ◌⊎◌, refl, ap, ◌∙◌, Bool, true, false, ◌&&◌, not, Option, none, some, inl, inr,
  Option-cases, List, [], ◌∷◌, get, get-put, nat_eq, ◌==◌, Distinct, put-Distinct, erase-Distinct,
  if◌then◌else◌, arith,
}
use goldnet_godot.NetIds.{
  NetIds, Entry, put_entry, id, drop, release, assign, bind, learned_keys, drop_all, forget_learned,
}
use goldnet_godot.NetIds.Invariant.{
  WellFormed, get-drop, drop-WellFormed, release-WellFormed, assign-WellFormed, bind-WellFormed,
  forget_learned-WellFormed,
}
use goldnet_godot.NetIds.Session.{id-drop}
use goldnet_godot.NetIds.Forgetting.{is_learned, get-forget_learned}

-- An operation of the class.
pub data Op : Type 0 where
  assigns drops releases : ℕ → Op
  binds : ℕ → ℕ → Op
  forgets : Op

-- The tables after it, and its answer, 0 where it has none.
unfoldable pub apply : NetIds → Op → NetIds × ℕ
apply s (assigns o) = assign s o
apply s (drops i) = (drop s i, 0)
apply s (releases o) = release s o
apply s (binds i o) = (bind s i o, 0)
apply s forgets = (forget_learned s, 0)

-- The naming that the tables hold.
abbrev pub naming : NetIds → ℕ → Option Entry
naming s = get s.by_id

unfoldable pub names : Option Entry → ℕ → Bool
names none o = false
names (some e) o = e.obj == o

-- What an operation may do to a naming a, with the naming b after it and the answer n. Assigning names the
-- object by n and nothing else new: by the id it had, or by one that named nothing where it had none.
-- Binding takes the id and the object from whatever they were bound to.
abbrev pub Implements : Op → (ℕ → Option Entry) → (ℕ → Option Entry) → ℕ → Type 0
Implements (assigns o) a b n =
    (names (b n) o ≡ true)
    × ((k : ℕ) → k ≢ n → b k ≡ a k)
    × ((b n ≡ a n)
        ⊎ ((a n ≡ none)
            × (b n ≡ some (record { obj = o; learned = false }))
            × ((k : ℕ) → names (a k) o ≡ false)))
Implements (drops i) a b n = (k : ℕ) → b k ≡ (if i == k then none else a k)
Implements (releases o) a b n =
    ((k : ℕ) → b k ≡ (if names (a k) o then none else a k))
    × ((k : ℕ) → names (a k) o ≡ (not (n == 0) && n == k))
Implements (binds i o) a b n =
    (k : ℕ)
    → b k ≡ (
        if i == k
        then some (record { obj = o; learned = true })
        else if names (a k) o
        then none
        else a k)
Implements forgets a b n = (k : ℕ) → b k ≡ (if is_learned (a k) then none else a k)

-- What an operation needs: an assign, that the counter stands at an id that is free and not 0; a bind,
-- that the id is not 0.
abbrev pub Fits : NetIds → Op → Type 0
Fits s (assigns o) = (get s.by_id s.next ≡ none) × (s.next ≢ 0)
Fits s (binds i o) = i ≢ 0
Fits s (drops i) = Unit
Fits s (releases o) = Unit
Fits s forgets = Unit

-- The tables agree, and none holds a key twice.
pub record InOrder (s : NetIds) : Type 0 where
  pub well_formed : WellFormed s
  pub distinct : Distinct s.by_id

-- An id names an object exactly where the object has the id.
names-id :
    (s : NetIds) (o k : ℕ)
    → WellFormed s
    → names (naming s k) o ≡ (not (id s o == 0) && id s o == k)
unfolding names id
names-id s o k w = elim (Option-cases (get s.by_obj o)) [
  | inl e ↦ elim (Option-cases (get s.by_id k)) [
    | inl f ↦ ground arith
    | inr (x, f) ↦ ground (arith, w.forward k x f, ap {A = ℕ} (get s.by_obj))
  ]
  | inr (i, e) ↦
      let (y, named, at) = w.backward o i e in
      elim (Option-cases (get s.by_id k)) [
        | inl f ↦ ground (arith, ap {A = ℕ} (get s.by_id), w.nonzero)
        | inr (x, f) ↦
            ground (
              arith,
              w.forward k x f,
              ap {A = ℕ} (get s.by_obj),
              ap {A = ℕ} (get s.by_id),
              w.nonzero,
            )
      ]
]

drop-Distinct : (s : NetIds) (i : ℕ) → Distinct s.by_id → Distinct (drop s i).by_id
unfolding drop
drop-Distinct s i d = elim (Option-cases (get s.by_id i)) [
  | inl e ↦ rw (e, drop) d
  | inr (x, e) ↦ rw (e, drop) (erase-Distinct s.by_id i d)
]

drop_all-Distinct : (s : NetIds) (is : List ℕ) → Distinct s.by_id → Distinct (drop_all s is).by_id
unfolding drop_all
drop_all-Distinct s [] d = d
drop_all-Distinct s (i ∷ is) d = drop_all-Distinct (drop s i) is (drop-Distinct s i d)

assign-Implements :
    (s : NetIds) (o : ℕ)
    → WellFormed s
    → get s.by_id s.next ≡ none
    → s.next ≢ 0
    → let (t, n) = assign s o in Implements (assigns o) (naming s) (naming t) n
unfolding assign put_entry names
assign-Implements s o w free nz = elim (Option-cases (get s.by_obj o)) [
  | inr (i, e) ↦
      let (x, named, at) = w.backward o i e in
      rw (e, assign) (ground (arith, named, at), λ k h. refl, inl refl)
  | inl e ↦
      let put_at = λ (k : ℕ). get-put s.by_id s.next k (record { obj = o; learned = false }) in
      let none_has : (k : ℕ) → names (naming s k) o ≡ false =
        λ k. names-id s o k w ∙ unfold id in ground (arith, e) in
      rw (e, assign)
        (
          ground (arith, put_at s.next),
          λ k h. ground (arith, put_at k),
          inr (free, ground (arith, put_at s.next), unfold names in none_has),
        )
]

assign-Distinct : (s : NetIds) (o : ℕ) → Distinct s.by_id → Distinct (assign s o).0.by_id
unfolding assign put_entry
assign-Distinct s o d = elim (Option-cases (get s.by_obj o)) [
  | inl e ↦ rw (e, assign) (put-Distinct s.by_id s.next (record { obj = o; learned = false }) d)
  | inr (i, e) ↦ rw (e, assign) d
]

bind-Implements :
    (s : NetIds) (i o : ℕ)
    → WellFormed s
    → i ≢ 0
    → Implements (binds i o) (naming s) (naming (bind s i o)) 0
unfolding bind put_entry release
bind-Implements s i o w nz k =
    let d = drop s i in
    ground (
      arith,
      get-put (drop d (id d o)).by_id i k (record { obj = o; learned = true }),
      get-drop d (id d o) k,
      get-drop s i k,
      id-drop s i o w,
      names-id s o k w,
      w.nonzero,
      ap {A = ℕ} (get s.by_id),
    )

bind-Distinct : (s : NetIds) (i o : ℕ) → Distinct s.by_id → Distinct (bind s i o).by_id
unfolding bind put_entry release
bind-Distinct s i o d =
    let t = drop s i in
    put-Distinct (drop t (id t o)).by_id i (record { obj = o; learned = true })
      (drop-Distinct t (id t o) (drop-Distinct s i d))

-- Every operation does to the naming, and answers, what the abstract naming says, and keeps the tables in
-- order: an assign where the counter stands at an id that is free and not 0, a bind where its id is not 0,
-- and the others always.
pub apply-Implements :
    (s : NetIds) (op : Op)
    → InOrder s
    → Fits s op
    → let (t, n) = apply s op in Implements op (naming s) (naming t) n × InOrder t
unfolding apply
apply-Implements s (assigns o) v (free, nz) = (
  assign-Implements s o v.well_formed free nz,
  record {
    well_formed = assign-WellFormed s o v.well_formed free nz;
    distinct = assign-Distinct s o v.distinct;
  },
)
apply-Implements s (drops i) v h = (
  get-drop s i,
  record {
    well_formed = drop-WellFormed s i v.well_formed;
    distinct = drop-Distinct s i v.distinct;
  },
)
apply-Implements s (releases o) v h = (
  (
    λ k.
        unfold release in
        (get-drop s (id s o) k
          ∙ ground (arith, names-id s o k v.well_formed, v.well_formed.nonzero)),
    λ k. unfold release in names-id s o k v.well_formed,
  ),
  record {
    well_formed = release-WellFormed s o v.well_formed;
    distinct = unfold release in drop-Distinct s (id s o) v.distinct;
  },
)
apply-Implements s (binds i o) v nz = (
  bind-Implements s i o v.well_formed nz,
  record {
    well_formed = bind-WellFormed s i o v.well_formed nz;
    distinct = bind-Distinct s i o v.distinct;
  },
)
apply-Implements s forgets v h = (
  λ k. get-forget_learned s k v.distinct,
  record {
    well_formed = forget_learned-WellFormed s v.well_formed;
    distinct = unfold forget_learned in drop_all-Distinct s (learned_keys s.by_id) v.distinct;
  },
)
