-- ===== src/NetIds/Handing.antt =====
-- What a server's assignment of an id does to the names that NetIds holds.
use goldnet_godot.Common.{
  ℕ, ◌+◌, ◌^◌, ◌<◌, ◌≤◌, ◌≡◌, ◌≢◌, refl, ap, sym, ◌∙◌, false, get, nat_eq, get-put, arith, inl, inr,
  Option-cases,
}
use goldnet_godot.NetIds.{NetIds, put_entry, id, object, assign}
use goldnet_godot.NetIds.Invariant.{WellFormed}
use goldnet_godot.NetIds.Session.{Handed, fresh_at_next, server_step, assigns, server_step-Handed}

pub assign-Handed : (s : NetIds) (o : ℕ) → s.next + 1 < 2 ^ 32 → Handed s → Handed (assign s o).0
assign-Handed s o h v = unfold server_step in server_step-Handed s (assigns o) h v

pub next-assign :
    (s : NetIds) (o : ℕ)
    → s.next + 1 < 2 ^ 32
    → (s.next ≤ (assign s o).0.next) × ((assign s o).0.next ≤ s.next + 1)
unfolding assign put_entry
next-assign s o h = ground arith

-- An object that has an id is assigned the same, and nothing changes.
pub assign_named : (s : NetIds) (o : ℕ) → id s o ≢ 0 → assign s o ≡ (s, id s o)
unfolding id assign
assign_named s o h = elim (Option-cases (get s.by_obj o)) [
  | inl e ↦ ground arith
  | inr (i, e) ↦ rw (e, id, assign)
]

-- The id that an assignment answers names the object from then on.
pub assign_names :
    (s : NetIds) (o : ℕ)
    → Handed s
    → let (t, i) = assign s o in (i ≢ 0) × (object t i ≡ o) × (id t o ≡ i)
unfolding id object assign put_entry
assign_names s o v = elim (Option-cases (get s.by_obj o)) [
  | inl e ↦ ground (
    arith,
    v.positive,
    get-put s.by_id s.next s.next (record { obj = o; learned = false }),
    get-put s.by_obj o o s.next,
  )
  | inr (i, e) ↦
      let (x, named, at) = v.well_formed.backward o i e in ground (arith, v.well_formed.nonzero)
]

-- An assignment leaves alone what the other ids name, and the ids of the other objects.
pub assign_keeps :
    (s : NetIds) (o k : ℕ)
    → Handed s
    → ((object s k ≢ 0) → object (assign s o).0 k ≡ object s k)
      × ((id s k ≢ 0) → id (assign s o).0 k ≡ id s k)
unfolding id object assign put_entry
assign_keeps s o k v = elim (Option-cases (get s.by_obj o)) [
  | inl e ↦ (
    λ h.
        ground (
          arith,
          fresh_at_next s v,
          get-put s.by_id s.next k (record { obj = o; learned = false }),
        ),
    λ h. ground (arith, get-put s.by_obj o k s.next),
  )
  | inr (i, e) ↦ (λ h. rw (e, assign), λ h. rw (e, assign))
]

-- An object's id names the object.
pub object-id : (s : NetIds) (o : ℕ) → WellFormed s → id s o ≢ 0 → object s (id s o) ≡ o
unfolding id object
object-id s o w h = elim (Option-cases (get s.by_obj o)) [
  | inl e ↦ ground arith
  | inr (i, e) ↦ let (x, named, at) = w.backward o i e in ground arith
]

-- The ids of a server after n assignments: those that objects had are kept.
pub record Follows (s t : NetIds) (n : ℕ) : Type 0 where
  pub handed : Handed t
  pub room : t.next ≤ s.next + n
  pub kept : (k : ℕ) → id s k ≢ 0 → id t k ≡ id s k

pub Follows-refl : (s : NetIds) → Handed s → Follows s s 0
Follows-refl s v = record { handed = v; room = omega arith; kept = λ k h. refl }

pub Follows-trans :
    (s t u : NetIds) (m n k : ℕ) → m + n ≡ k → Follows s t m → Follows t u n → Follows s u k
Follows-trans s t u m n j both f g = record {
  handed = g.handed;
  room = omega (arith, f.room, g.room);
  kept = λ k h. let same = f.kept k h in g.kept k (λ z. h (sym same ∙ z)) ∙ same;
}

pub assign-Follows :
    (s : NetIds) (o : ℕ) → s.next + 1 < 2 ^ 32 → Handed s → Follows s (assign s o).0 1
assign-Follows s o h v = record {
  handed = assign-Handed s o h v;
  room = (next-assign s o h).1;
  kept = λ k. (assign_keeps s o k v).1;
}

-- An object's id lies below the counter.
pub id-bound : (s : NetIds) (o : ℕ) → Handed s → id s o < s.next
unfolding id
id-bound s o v = elim (Option-cases (get s.by_obj o)) [
  | inl e ↦ ground (arith, v.positive)
  | inr (i, e) ↦
      let (x, named, at) = v.well_formed.backward o i e in ground (arith, v.below i x named)
]

-- Two objects that have ids have two.
pub ids_differ : (s : NetIds) (a b : ℕ) → WellFormed s → id s a ≢ 0 → a ≢ b → id s a ≢ id s b
ids_differ s a b w h apart e =
    apart
      (sym (object-id s a w h) ∙ ap (λ (i : ℕ). object s i) e ∙ object-id s b w (λ z. h (e ∙ z)))
