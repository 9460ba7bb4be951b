-- ===== src/NetIds/Examples.antt =====
-- Runs of NetIds at concrete ids, and its theorems at inputs that meet their hypotheses.
use goldnet_godot.Common.{
  ℕ, ◌≡◌, ◌≢◌, refl, true, List, [], ◌∷◌, get, put, erase, nat_eq, length, arith,
}
use goldnet_godot.NetIds.{NetIds, init, put_entry, id, object, assign, bind, drop, release}
use goldnet_godot.NetIds.Invariant.{WellFormed, init-WellFormed, bind-WellFormed}
use goldnet_godot.NetIds.Session.{
  ServerOp, assigns, releases, drops, handed_out, counting, handed_out-counting, assign_collides,
}
use goldnet_godot.NetIds.Refinement.{InOrder, Implements, naming, binds, apply, apply-Implements}

-- A client that was told: id 1 names object 70, id 2 names object 80.
abbrev joined : NetIds
joined = bind (bind init 1 70) 2 80

joined-WellFormed : WellFormed joined
joined-WellFormed =
    bind-WellFormed (bind init 1 70) 2 80 (bind-WellFormed init 1 70 init-WellFormed (omega arith))
      (omega arith)

rebound : object (bind joined 1 80) 2 ≡ 0
unfolding init id object bind put_entry drop release get put erase
rebound = refl

abbrev served : List ServerOp
served = assigns 70 ∷ assigns 80 ∷ assigns 70 ∷ releases 70 ∷ assigns 70 ∷ drops 2 ∷ assigns 90 ∷ []

handed_out-counting_example :
    handed_out init served ≡ counting init.next (length (handed_out init served))
unfolding init
handed_out-counting_example = handed_out-counting init served (omega arith)

assign_collides_example :
    let t = (assign joined 90).0 in
    (id t 90 ≡ joined.next)
    × (id t 70 ≡ joined.next)
    × (object t joined.next ≡ 90)
    × (◌≢◌ {A = ℕ} 90 70)
    × (¬ WellFormed t)
unfolding init bind put_entry drop release get put erase id
assign_collides_example =
    assign_collides joined 90 (record { obj = 70; learned = true }) joined-WellFormed refl refl

joined-InOrder : InOrder joined
unfolding init bind put_entry drop release get put erase id
joined-InOrder = record { well_formed = joined-WellFormed; distinct = (refl, (refl, tt)) }

apply-Implements_example :
    Implements (binds 2 70) (naming joined) (naming (apply joined (binds 2 70)).0) 0
    × InOrder (apply joined (binds 2 70)).0
unfolding apply
apply-Implements_example = apply-Implements joined (binds 2 70) joined-InOrder (omega arith)
