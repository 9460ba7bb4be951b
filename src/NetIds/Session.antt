-- ===== src/NetIds/Session.antt =====
-- What the ids of NetIds mean over a session: a client's binds, a server's ids, a new session.
use goldnet_godot.Common.{
  ℕ, ◌+◌, ◌^◌, ◌<◌, ◌≡◌, ◌≢◌, ◌⊎◌, refl, ap, ◌∙◌, Bool, true, false, none, some, List, [], ◌∷◌,
  ◌++◌, get, nat_eq, ◌==◌, get-put, get-erase, arith, inl, inr, length, Option-cases, if◌then◌else◌,
  zero, suc,
}
use goldnet_godot.NetIds.{NetIds, Entry, init, put_entry, id, object, drop, release, assign, bind}
use goldnet_godot.NetIds.Invariant.{
  WellFormed, get-drop, drop-WellFormed, assign-WellFormed, init-WellFormed,
}

pub id-drop :
    (s : NetIds) (i o : ℕ) → WellFormed s → id (drop s i) o ≡ (if id s o == i then 0 else id s o)
unfolding id drop
id-drop s i o w = elim (Option-cases (get s.by_obj o)) [
  | inl e ↦ elim (Option-cases (get s.by_id i)) [
    | inl f ↦ ground arith
    | inr (x, f) ↦ ground (arith, get-erase s.by_obj x.obj o)
  ]
  | inr (j, e) ↦
      let (y, named, at) = w.backward o j e in
      elim (Option-cases (get s.by_id i)) [
        | inl f ↦ ground arith
        | inr (x, f) ↦ ground (arith, get-erase s.by_obj x.obj o, w.forward i x f)
      ]
]

pub object-drop : (s : NetIds) (i k : ℕ) → object (drop s i) k ≡ (if i == k then 0 else object s k)
unfolding object
object-drop s i k = ground (arith, get-drop s i k)

pub object-put_entry :
    (s : NetIds) (i o k : ℕ) (l : Bool)
    → object (put_entry s i o l) k ≡ (if i == k then o else object s k)
unfolding object put_entry
object-put_entry s i o k l = ground (arith, get-put s.by_id i k (record { obj = o; learned = l }))

pub id-put_entry : (s : NetIds) (i o : ℕ) (l : Bool) → id (put_entry s i o l) o ≡ i
unfolding id put_entry
id-put_entry s i o l = ground (arith, get-put s.by_obj o o i)

pub object_zero : (s : NetIds) → WellFormed s → object s 0 ≡ 0
unfolding object
object_zero s w = ground (arith, w.nonzero)

-- After a bind the id names the object and the object has the id; the id that the object had before
-- names nothing, and every other id names what it did.
pub object-bind :
    (s : NetIds) (i o k : ℕ)
    → WellFormed s
    → (object (bind s i o) k ≡ (if i == k then o else if id s o == k then 0 else object s k))
      × (id (bind s i o) o ≡ i)
unfolding bind release
object-bind s i o k w =
    let d = drop s i in
    let r = drop d (id d o) in
    (
      ground (
        arith,
        object-put_entry r i o k true,
        object-drop d (id d o) k,
        object-drop s i k,
        id-drop s i o w,
        object_zero s w,
      ),
      id-put_entry r i o true,
    )

-- What a server does with its ids.
pub data ServerOp : Type 0 where
  assigns releases drops : ℕ → ServerOp

unfoldable pub server_step : NetIds → ServerOp → NetIds
server_step s (assigns o) = (assign s o).0
server_step s (releases o) = (release s o).0
server_step s (drops i) = drop s i

pub server_run : NetIds → List ServerOp → NetIds
server_run s [] = s
server_run s (op ∷ ops) = server_run (server_step s op) ops

-- The ids a step hands out anew.
fresh_ids : NetIds → ServerOp → List ℕ
fresh_ids s (assigns o) = elim (get s.by_obj o) [ none ↦ (assign s o).1 ∷ [] | some _ ↦ [] ]
fresh_ids s (releases o) = []
fresh_ids s (drops i) = []

pub handed_out : NetIds → List ServerOp → List ℕ
unfolding fresh_ids
handed_out s [] = []
handed_out s (op ∷ ops) = fresh_ids s op ++ handed_out (server_step s op) ops

-- n, n + 1, ... : as many numbers as the second argument says.
pub counting : ℕ → ℕ → List ℕ
counting n zero = []
counting n (suc k) = n ∷ counting (n + 1) k

next-server_step :
    (s : NetIds) (op : ServerOp)
    → s.next + 1 < 2 ^ 32
    → ((fresh_ids s op ≡ []) × ((server_step s op).next ≡ s.next))
      ⊎ ((fresh_ids s op ≡ s.next ∷ []) × ((server_step s op).next ≡ s.next + 1))
unfolding server_step fresh_ids assign release drop
next-server_step s (assigns o) h = elim (Option-cases (get s.by_obj o)) [
  | inl e ↦ inr (ground arith, ground arith)
  | inr (j, e) ↦ inl (ground arith, ground arith)
]
next-server_step s (releases o) h = inl (refl, ground arith)
next-server_step s (drops i) h = inl (refl, ground arith)

-- The ids a server hands out are consecutive numbers from its counter on, whatever is released or
-- dropped in between: none is given twice, as long as the counter does not wrap.
pub handed_out-counting :
    (s : NetIds) (ops : List ServerOp)
    → s.next + length ops < 2 ^ 32
    → handed_out s ops ≡ counting s.next (length (handed_out s ops))
unfolding handed_out counting
handed_out-counting s [] h = refl
handed_out-counting s (op ∷ ops) h = elim (next-server_step s op (omega arith)) [
  | inl (none_new, same) ↦ rw none_new (
      handed_out-counting (server_step s op) ops (omega arith)
      ∙ ap (λ n. counting n (length (handed_out (server_step s op) ops))) same)
  | inr (one_new, up) ↦ rw one_new (
      ap (◌∷◌ s.next) (
        handed_out-counting (server_step s op) ops (omega arith)
        ∙ ap (λ n. counting n (length (handed_out (server_step s op) ops))) up))
]

-- On a server every named id is one it handed out: it lies below the counter.
pub record Handed (s : NetIds) : Type 0 where
  pub well_formed : WellFormed s
  pub below : (i : ℕ) (e : Entry) → get s.by_id i ≡ some e → i < s.next
  pub positive : 0 < s.next

pub init-Handed : Handed init
unfolding init get
init-Handed = record { well_formed = init-WellFormed; below = λ i e h. cc; positive = omega arith }

pub fresh_at_next : (s : NetIds) → Handed s → get s.by_id s.next ≡ none
fresh_at_next s v = elim (Option-cases (get s.by_id s.next)) [
  | inl e ↦ e
  | inr (x, e) ↦ absurd (omega (arith, v.below s.next x e))
]

pub drop-Handed : (s : NetIds) (i : ℕ) → Handed s → Handed (drop s i)
drop-Handed s i v = record {
  well_formed = drop-WellFormed s i v.well_formed;
  below = λ k e h. unfold drop in ground (arith, get-drop s i k, v.below k e);
  positive = unfold drop in ground (arith, v.positive);
}

-- Every step of a server keeps the two tables of its ids inverse and each named id below the counter.
pub server_step-Handed :
    (s : NetIds) (op : ServerOp) → s.next + 1 < 2 ^ 32 → Handed s → Handed (server_step s op)
unfolding server_step assign release put_entry
server_step-Handed s (assigns o) h v = record {
  well_formed =
      assign-WellFormed s o v.well_formed (fresh_at_next s v) (ground (arith, v.positive));
  below = λ i e k.
      ground (arith, get-put s.by_id s.next i (record { obj = o; learned = false }), v.below i e);
  positive = ground (arith, v.positive);
}
server_step-Handed s (releases o) h v = drop-Handed s (id s o) v
server_step-Handed s (drops i) h v = drop-Handed s i v

collision :
    (s : NetIds) (o : ℕ) (e : Entry)
    → WellFormed s
    → get s.by_id s.next ≡ some e
    → get s.by_obj o ≡ none
    → let t = (assign s o).0 in
      (get t.by_obj o ≡ some s.next)
      × (get t.by_obj e.obj ≡ some s.next)
      × (get t.by_id s.next ≡ some (record { obj = o; learned = false }))
      × (o ≢ e.obj)
unfolding assign put_entry
collision s o e w named fresh =
    let kept = w.forward s.next e named in
    let apart : o ≢ e.obj = λ q. ground (arith, kept, ap (λ (p : ℕ). get s.by_obj p) q) in
    (
      ground (arith, get-put s.by_obj o o s.next),
      ground (arith, get-put s.by_obj o e.obj s.next),
      ground (arith, get-put s.by_id s.next s.next (record { obj = o; learned = false })),
      apart,
    )

-- Where the counter stands at an id that a former server gave to a node still here, the next
-- assignment gives that id to a second object as well, and the first keeps it too: two objects with
-- one id, which names the second only.
pub assign_collides :
    (s : NetIds) (o : ℕ) (e : Entry)
    → WellFormed s
    → get s.by_id s.next ≡ some e
    → get s.by_obj o ≡ none
    → let t = (assign s o).0 in
      (id t o ≡ s.next)
      × (id t e.obj ≡ s.next)
      × (object t s.next ≡ o)
      × (o ≢ e.obj)
      × (¬ WellFormed t)
unfolding id object
assign_collides s o e w named fresh =
    let (new, old, entry, apart) = collision s o e w named fresh in
    (
      rw (new, id),
      rw (old, id),
      rw (entry, object),
      apart,
      λ v. let (x, found, at) = v.backward e.obj s.next old in apart (cc),
    )
