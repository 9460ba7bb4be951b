-- ===== src/NetIds/Binding.antt =====
-- What a client's bind does to the names that NetIds holds.
use goldnet_godot.Common.{
  ℕ, ◌≡◌, ◌≢◌, ap, sym, ◌∙◌, Bool, true, nat_eq, ◌==◌, get-put, arith, if◌then◌else◌,
}
use goldnet_godot.NetIds.{NetIds, put_entry, id, object, drop, release, bind}
use goldnet_godot.NetIds.Invariant.{WellFormed, drop-WellFormed}
use goldnet_godot.NetIds.Session.{object-bind, id-drop}
use goldnet_godot.NetIds.Handing.{object-id}

-- The id names the object, and the object has the id.
abbrev pub Names : NetIds → ℕ → ℕ → Type 0
Names s i o = (object s i ≡ o) × (id s o ≡ i)

id-put_other :
    (s : NetIds) (i o k : ℕ) (l : Bool) → id (put_entry s i o l) k ≡ (if o == k then i else id s k)
unfolding id put_entry
id-put_other s i o k l = ground (arith, get-put s.by_obj o k i)

-- After a bind every other object has the id it had, but for the one that had this id, which has none.
pub id-bind :
    (s : NetIds) (i o k : ℕ)
    → WellFormed s
    → id (bind s i o) k ≡ (if o == k then i else if id s k == i then 0 else id s k)
unfolding bind release
id-bind s i o k w =
    let d = drop s i in
    let dw = drop-WellFormed s i w in
    let r = drop d (id d o) in
    let other : id d o ≢ 0 → id d k ≡ id d o → o ≡ k = λ h e.
      sym (object-id d o dw h)
      ∙ ap (λ (j : ℕ). object d j) (sym e)
      ∙ object-id d k dw (λ z. h (sym e ∙ z)) in
    ground (arith, id-put_other r i o k true, id-drop d (id d o) k dw, id-drop s i k w, other)

-- A bind keeps a name of another id for another object.
pub bind_keeps :
    (s : NetIds) (i o j q : ℕ)
    → WellFormed s
    → i ≢ 0
    → j ≢ i
    → q ≢ o
    → Names s i o
    → Names (bind s j q) i o
bind_keeps s i o j q w nz ji qo (names, has_id) =
    let other : id s q ≡ i → q ≡ o =
      λ e. sym (object-id s q w (λ z. nz (sym e ∙ z))) ∙ ap (λ (k : ℕ). object s k) e ∙ names in
    let free : id s q ≢ i = λ e. qo (other e) in
    (ground (arith, (object-bind s j q i w).0), ground (arith, id-bind s j q o w))

-- A bind names its object.
pub bind-Names : (s : NetIds) (i o : ℕ) → WellFormed s → Names (bind s i o) i o
bind-Names s i o w = let (at, has_id) = object-bind s i o i w in (ground arith, has_id)
