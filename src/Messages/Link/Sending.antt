-- ===== src/Messages/Link/Sending.antt =====
-- A call keeps what holds between the two ends of a link.
use goldnet_godot.Common.{
  ℕ, ◌+◌, ◌%◌, ◌^◌, ◌≤◌, ◌<◌, ◌≡◌, refl, sym, ap, Bool, true, false, String, Option, none, some,
  Option-cases, List, [], ◌∷◌, ◌++◌, length, length-append, HashMap, get, put, get-put, nat_eq,
  string_eq, ltb, ◌==◌, arith, inl, inr,
}
use mathlib.Core.List.{append_assoc, append-nil}
use goldnet_godot.Platform.{Platform, Variant}
use goldnet_godot.Messages.{
  max_unreliable_message, key, Messages, MsgTarget, Stats, at_peer, msg_id, is_known, put_call,
  send_message,
}
use goldnet_godot.Messages.Wire.{Sendable}
use goldnet_godot.Messages.Link.{
  Naming, Wire, registration, call, streamed_of, datagrams_of, sent_wires, Link, stats, registered,
  wires, after_send,
}
use goldnet_godot.Messages.Link.Invariant.{
  Bound, Inv, Inv-name, Inv-register, Inv-stream, Inv-fly, get_elem?-lt,
}
use goldnet_godot.Messages.Link.Account.{noted_after, send_message-Accounts, registered-msg_id}

module _ (p : Platform) (n : Naming p) where
  open p use {F, O}

  Inv-msg_id :
      (s : Messages) (r : HashMap ℕ ℕ) (stream flying : List (Wire p)) (delivered : ℕ)
      (targets : HashMap ℕ MsgTarget) (path method : String)
      → n.Named path method
      → s.msg_next_id + 1 < 2 ^ 32
      → Inv p n s.msg_ids s.msg_next_id r stream flying delivered targets
      → Inv p n
          (msg_id s (key path method)).0.msg_ids
          (msg_id s (key path method)).0.msg_next_id
          r
          stream
          flying
          delivered
          targets
        × Bound p n
            (msg_id s (key path method)).0.msg_ids
            (msg_id s (key path method)).1
            path
            method
  unfolding msg_id
  Inv-msg_id s r stream flying delivered targets path method h room inv =
      let k = key path method in
      elim (Option-cases (get s.msg_ids k)) [
        | inl e ↦
            let next =
              Inv-name p n s.msg_ids s.msg_next_id r stream flying delivered targets inv k e room in
            let wraps : (s.msg_next_id + 1) % 2 ^ 32 ≡ s.msg_next_id + 1 = omega (arith, room) in
            let found : get (put s.msg_ids k s.msg_next_id) k ≡ some s.msg_next_id =
              ground (arith, get-put s.msg_ids k k s.msg_next_id, string_eq.beq_iff k k) in
            rw (e, msg_id, wraps) (next, (h, found, inv.positive, inv.small))
        | inr (i, e) ↦
            let (pos, lt) = inv.named k i e in
            rw (e, msg_id) (inv, (h, e, pos, omega (arith, lt, inv.small)))
      ]

  -- What a call puts on the stream and sends keeps what holds.
  Inv-sent_wires :
      (ids : HashMap String ℕ) (next : ℕ) (r : HashMap ℕ ℕ) (stream flying : List (Wire p))
      (delivered : ℕ) (targets : HashMap ℕ MsgTarget) (acked i : ℕ) (path method : String)
      (args : List (Variant F O)) (rel : Bool) (o : Option ℕ) (big : Bool)
      → Inv p n ids next r stream flying delivered targets
      → acked ≤ delivered
      → Bound p n ids i path method
      → Sendable p args
      → get r i ≡ o
      → Inv p n ids next
          (noted_after p r o rel big i (length stream))
          (stream ++ streamed_of p (sent_wires p o acked rel big i path method args))
          (flying ++ datagrams_of p (sent_wires p o acked rel big i path method args))
          delivered
          targets
  Inv-sent_wires ids next r stream flying delivered targets acked i path method args false o true
        inv behind bound hs e =
      rw (append-nil stream, append-nil flying) inv
  Inv-sent_wires ids next r stream flying delivered targets acked i path method args false none
        false inv behind bound hs e =
      let m = registration i path method in
      let registered =
        Inv-register p n ids next r stream flying delivered targets inv i path method bound e in
      Inv-fly p n ids next (put r i (length stream)) (stream ++ m ∷ []) flying delivered targets
        registered (call false i path method args) (bound, hs, λ f. absurd (ground arith))
  Inv-sent_wires ids next r stream flying delivered targets acked i path method args false (some at)
        false inv behind bound hs e =
      rw (append-nil stream) (
        Inv-fly p n ids next r stream flying delivered targets inv
          (call (ltb at acked) i path method args)
          (bound, hs, λ f. (at, e, ground (arith, behind, f))))
  Inv-sent_wires ids next r stream flying delivered targets acked i path method args true none big
        inv behind bound hs e =
      let m = registration i path method in
      let r' = put r i (length stream) in
      let registered =
        Inv-register p n ids next r stream flying delivered targets inv i path method bound e in
      let both =
        Inv-stream p n ids next r' (stream ++ m ∷ []) flying delivered targets registered
          (call true i path method args)
          (
            bound,
            hs,
            λ f. (
              length stream,
              ground (arith, get-put r i i (length stream)),
              omega (arith, length-append stream (m ∷ [])),
            ),
          ) in
      rw (append-nil flying)
        (rw (append_assoc stream (m ∷ []) (call true i path method args ∷ [])) at both)
  Inv-sent_wires ids next r stream flying delivered targets acked i path method args true (some at)
        big inv behind bound hs e =
      let (path', method', _, at_stream) = inv.noted i at e in
      rw (append-nil flying) (
        Inv-stream p n ids next r stream flying delivered targets inv (call true i path method args)
          (
            bound,
            hs,
            λ f. (at, e, get_elem?-lt stream at (registration i path' method') at_stream),
          ))

  -- A call to the peer keeps what holds.
  pub Inv-after_send :
      (l : Link p) (peer : ℕ) (path method : String) (args : List (Variant F O)) (rel : Bool)
      → n.Named path method
      → Sendable p args
      → l.sender.msg_next_id + 1 < 2 ^ 32
      → l.acked ≤ l.delivered
      → Inv p n l.sender.msg_ids l.sender.msg_next_id
          (registered p l peer)
          l.stream
          l.flying
          l.delivered
          l.targets
      → Inv p n
          (after_send p l peer path method args rel).sender.msg_ids
          (after_send p l peer path method args rel).sender.msg_next_id
          (registered p (after_send p l peer path method args rel) peer)
          (after_send p l peer path method args rel).stream
          (after_send p l peer path method args rel).flying
          l.delivered
          l.targets
  unfolding after_send wires
  Inv-after_send l peer path method args rel h hs room behind inv =
      let s1 = (msg_id l.sender (key path method)).0 in
      let i = (msg_id l.sender (key path method)).1 in
      let r = at_peer s1.msg_registered peer in
      let o = get r i in
      let big =
        ltb max_unreliable_message (length (put_call p (is_known o l.acked) i path method args)) in
      let kept = ap (λ m. at_peer m peer) (registered-msg_id l.sender (key path method)) in
      let inv' = rw (sym kept) at inv in
      let (named, bound) =
        Inv-msg_id l.sender r l.stream l.flying l.delivered l.targets path method h room inv' in
      let done =
        Inv-sent_wires s1.msg_ids s1.msg_next_id r l.stream l.flying l.delivered l.targets l.acked i
          path method args rel o big named behind bound hs refl in
      let account = send_message-Accounts p l.sender (stats p l) peer path method args rel in
      rw (account.1, account.2, account.3) done

  -- A call to another peer keeps what holds with this one.
  pub Inv-elsewhere :
      (l : Link p) (peer other_peer : ℕ) (st : Stats) (path method : String)
      (args : List (Variant F O)) (rel : Bool)
      → (other_peer == peer) ≡ false
      → n.Named path method
      → l.sender.msg_next_id + 1 < 2 ^ 32
      → Inv p n l.sender.msg_ids l.sender.msg_next_id
          (registered p l peer)
          l.stream
          l.flying
          l.delivered
          l.targets
      → Inv p n
          (send_message p l.sender st other_peer path method args rel).0.msg_ids
          (send_message p l.sender st other_peer path method args rel).0.msg_next_id
          (at_peer
            (send_message p l.sender st other_peer path method args rel).0.msg_registered
            peer)
          l.stream
          l.flying
          l.delivered
          l.targets
  Inv-elsewhere l peer other_peer st path method args rel differs h room inv =
      let s1 = (msg_id l.sender (key path method)).0 in
      let kept = ap (λ m. at_peer m peer) (registered-msg_id l.sender (key path method)) in
      let inv' = rw (sym kept) at inv in
      let (named, _) =
        Inv-msg_id l.sender (at_peer s1.msg_registered peer) l.stream l.flying l.delivered l.targets
          path method h room inv' in
      let account = send_message-Accounts p l.sender st other_peer path method args rel in
      rw (account.1, account.2, account.4 peer differs) named
