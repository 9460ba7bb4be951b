-- ===== src/Messages/Link/Safety.antt =====
-- No call on a link meets a target that the receiver doesn't know.
use goldnet_godot.Common.{
  ℕ, ◌^◌, ◌≤◌, ◌<◌, ◌≡◌, ◌⊎◌, refl, sym, ap, ◌∙◌, true, String, none, some, Option-cases, List, [],
  ◌==◌, false, get_elem?, HashMap, get, erase, get-erase, get-empty, nat_eq, string_eq, arith, inl,
  inr,
}
use mathlib.Core.Option.{none-ne-some}
use goldnet_godot.Platform.{Platform, Variant}
use goldnet_godot.Messages.{
  Messages, forget_peer, forget_peers, init, at_peer, MsgTarget, World, learn, find_node,
  deliver_to,
}
use goldnet_godot.Messages.Wire.{reach, called, deliver_to-put_registration, deliver_to-put_call}
use goldnet_godot.Messages.Link.{
  Naming, Wire, registration, call, encode, Link, registered, fresh, Step, send, elsewhere, deliver,
  arrive, ack, parts, resets, parts_elsewhere, renewed, Reach, start, later, after_send,
  after_delivery,
}
use goldnet_godot.Messages.Link.Targets.{Holds-learn}
use goldnet_godot.Messages.Link.Invariant.{Fine, Inv, Bound-unique}
use goldnet_godot.Messages.Link.Delivery.{Inv-arrive, Inv-deliver, Nameable-Bound}
use goldnet_godot.Messages.Link.Sending.{Inv-after_send, Inv-elsewhere}

module _ (p : Platform) (n : Naming p) (peer from : ℕ) where
  open p use {F, O}

  -- What holds between the ends, and the sender knows no more to be delivered than is.
  pub record Linked (l : Link p) : Type 0 where
    pub inv :
        Inv p n l.sender.msg_ids l.sender.msg_next_id
          (registered p l peer)
          l.stream
          l.flying
          l.delivered
          l.targets
    pub behind : l.acked ≤ l.delivered

  -- A new channel to a peer of which nothing is registered, with ids that are in order.
  renewed-Linked :
      (s : Messages)
      → 0 < s.msg_next_id
      → s.msg_next_id < 2 ^ 32
      → ((k : String) (i : ℕ) → get s.msg_ids k ≡ some i → (0 < i) × (i < s.msg_next_id))
      → ((j k : String) (i : ℕ) → get s.msg_ids j ≡ some i → get s.msg_ids k ≡ some i → j ≡ k)
      → at_peer s.msg_registered peer ≡ []
      → Linked (renewed p s)
  renewed-Linked s positive small named apart nothing = record {
    behind = omega arith;
    inv = record {
      positive = positive;
      small = small;
      named = named;
      apart = apart;
      noted = λ i at e. absurd (none-ne-some at (sym (get-empty i) ∙ (rw nothing at e)));
      streams = λ k m e. absurd (none-ne-some m e);
      flies = λ k m e. absurd (none-ne-some m e);
      progress = omega arith;
      sound = λ i t e. absurd (none-ne-some t (sym (get-empty i) ∙ e));
      complete = λ i at e lt. absurd (omega (arith, lt));
    };
  }

  pub fresh-Linked : Linked (fresh p)
  unfolding init at_peer get
  fresh-Linked =
      renewed-Linked init (omega arith) (omega arith) (λ k i e. absurd (none-ne-some i e))
        (λ j k i e f. absurd (none-ne-some i e)) refl

  forgotten : (m : HashMap ℕ (HashMap ℕ ℕ)) → at_peer (erase m peer) peer ≡ []
  unfolding at_peer
  forgotten m = ground (arith, get-erase m peer peer)

  forgotten_elsewhere :
      (m : HashMap ℕ (HashMap ℕ ℕ)) (k : ℕ)
      → (k == peer) ≡ false
      → at_peer (erase m k) peer ≡ at_peer m peer
  unfolding at_peer
  forgotten_elsewhere m k differs = ground (arith, get-erase m k peer)

  -- Every step keeps what holds between the ends.
  pub Step-Linked : {l k : Link p} → Step p n peer from l k → Linked l → Linked k
  unfolding after_delivery after_send forget_peer forget_peers at_peer get
  Step-Linked {l} (send path method args rel h hs room) linked = record {
    inv = Inv-after_send p n l peer path method args rel h hs room linked.behind linked.inv;
    behind = linked.behind;
  }
  Step-Linked {l} (elsewhere other_peer st path method args rel differs h room) linked = record {
    inv = Inv-elsewhere p n l peer other_peer st path method args rel differs h room linked.inv;
    behind = linked.behind;
  }
  Step-Linked {l} (deliver w m e) linked = record {
    inv =
        Inv-deliver p n l.sender.msg_ids l.sender.msg_next_id (registered p l peer) l.stream
          l.flying l.delivered l.targets linked.inv w from m e;
    behind = omega (arith, linked.behind);
  }
  Step-Linked {l} (arrive w k m e) linked = record {
    inv =
        Inv-arrive p n l.sender.msg_ids l.sender.msg_next_id (registered p l peer) l.stream l.flying
          l.delivered l.targets linked.inv w from k m e;
    behind = linked.behind;
  }
  Step-Linked {l} ack linked = record { inv = linked.inv; behind = omega arith }
  Step-Linked {l} parts linked =
      let i = linked.inv in
      renewed-Linked (forget_peer l.sender peer) i.positive i.small i.named i.apart
        (forgotten l.sender.msg_registered)
  Step-Linked {l} resets linked =
      let i = linked.inv in
      renewed-Linked (forget_peers l.sender) i.positive i.small i.named i.apart refl
  Step-Linked {l} (parts_elsewhere other_peer differs) linked = record {
    inv = rw (forgotten_elsewhere l.sender.msg_registered other_peer differs) linked.inv;
    behind = linked.behind;
  }

  pub Reach-Linked : {l : Link p} → Reach p n peer from l → Linked l
  Reach-Linked start = fresh-Linked
  Reach-Linked (later r st) = Step-Linked st (Reach-Linked r)

  -- A message lands: a registration asks for no call, and a call is made of its own method, with its own
  -- arguments as they arrive, on the object that a target with its own path stands for, if that is
  -- there and the sender may call it.
  abbrev pub Lands : Link p → World → Wire p → Type 0
  Lands l w (registration i path method) =
      (deliver_to p l.targets w from (encode p (registration i path method))).1 ≡ none
  Lands l w (call short i path method args) =
      (t : MsgTarget) × (t.path ≡ path)
      × (t.method ≡ method)
      × ((deliver_to p l.targets w from (encode p (call short i path method args))).1
          ≡ elim (find_node w t) [ none ↦ none | some node ↦ called p w from node t.method args ])

  reach_call :
      (targets : HashMap ℕ MsgTarget) (w : World) (i : ℕ) (args : List (Variant F O))
      (t : MsgTarget)
      → get targets i ≡ some t
      → (reach p targets w from i args).1
        ≡ elim (find_node w t) [ none ↦ none | some node ↦ called p w from node t.method args ]
  unfolding reach
  reach_call targets w i args t e = elim (Option-cases (find_node w t)) [
    | inl f ↦ ground arith
    | inr (node, f) ↦ ground arith
  ]

  Fine-Lands :
      (l : Link p) (w : World) (m : Wire p)
      → Linked l
      → Fine p n l.sender.msg_ids (registered p l peer) l.delivered m
      → Lands l w m
  Fine-Lands l w (registration i path method) linked bound =
      ap (λ x. x.1)
        (deliver_to-put_registration p l.targets w from i path method
          (Nameable-Bound p n l.sender.msg_ids i path method bound))
  Fine-Lands l w (call true i path method args) linked (bound, hs, known) =
      let ids = l.sender.msg_ids in
      let r = registered p l peer in
      let (at, e, lt) = known refl in
      let (t, f) = linked.inv.complete i at e lt in
      let same =
        Bound-unique p n ids l.sender.msg_next_id r l.stream l.flying l.delivered l.targets
          linked.inv i t.path t.method path method (linked.inv.sound i t f) bound in
      let made =
        deliver_to-put_call p l.targets w from i path method args true
          (Nameable-Bound p n ids i path method bound) hs in
      (t, same.0, same.1, ap (λ x. x.1) made ∙ reach_call l.targets w i args t f)
  Fine-Lands l w (call false i path method args) linked (bound, hs, _) =
      let ids = l.sender.msg_ids in
      let (t, f, g, h) = Holds-learn l.targets i path method in
      let made =
        deliver_to-put_call p l.targets w from i path method args false
          (Nameable-Bound p n ids i path method bound) hs in
      (t, g, h, ap (λ x. x.1) made ∙ reach_call (learn l.targets i path method) w i args t f)

  -- Whatever the order of calls, deliveries, losses, repeats, acknowledgements and session ends, the
  -- message next on the stream and every datagram of the session land: none meets a target that the
  -- receiver doesn't know, or knows as another.
  pub Reach-Lands :
      (l : Link p) (w : World) (m : Wire p)
      → Reach p n peer from l
      → (get_elem? l.stream l.delivered ≡ some m) ⊎ ((k : ℕ) × (get_elem? l.flying k ≡ some m))
      → Lands l w m
  Reach-Lands l w m r (inl e) =
      let linked = Reach-Linked r in Fine-Lands l w m linked (linked.inv.streams l.delivered m e)
  Reach-Lands l w m r (inr (k, e)) =
      let linked = Reach-Linked r in Fine-Lands l w m linked (linked.inv.flies k m e)
