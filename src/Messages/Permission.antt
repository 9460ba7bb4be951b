-- ===== src/Messages/Permission.antt =====
-- Which calls a message or a command can make: only those its peer may make.
use goldnet_godot.Common.{
  ℕ, ◌≡◌, true, ◌&&◌, ◌||◌, not, Bool-cases, String, some, Option-cases, List, get, HashMap, ◌==◌,
  nat_eq, arith, inl, inr,
}
use goldnet_godot.Platform.{Platform}
use goldnet_godot.Values.Arguments.{get_str}
use goldnet_godot.Messages.{
  Messages, MsgTarget, World, RpcMode, permits, at_peer, learn, find_node, get_args, Call,
  make_call, deliver_call, deliver_registration, deliver_to, deliver_message,
}

module _ (p : Platform) where
  open p use {Reader, failed, remaining, get_uvarint, reader}

  -- The call comes from the peer, and is of an @rpc method that the node's authority lets the peer call.
  abbrev pub Permitted : World → ℕ → Call p → Type 0
  Permitted w from c =
      (c.sender ≡ from)
      × ((mode : RpcMode) × (w.rpc_mode c.node c.method ≡ some mode)
          × (permits mode (w.authority_of c.node) from ≡ true))

  make_call-Permitted :
      (w : World) (from n : ℕ) (method : String) (r : Reader) (c : Call p)
      → make_call p w from n method r ≡ some c
      → Permitted w from c
  unfolding make_call
  make_call-Permitted w from n method r c e = elim (Option-cases (w.rpc_mode n method)) [
    | inl f ↦ (let no : ⊥ = ground arith in elim no [ ])
    | inr (mode, f) ↦
        elim (Bool-cases (not (failed (get_args p r).1) && permits mode (w.authority_of n) from)) [
          | inl g ↦
              let back : (c.sender ≡ from) × (c.node ≡ n) × (c.method ≡ method) = ground arith in
              (back.0, (mode, ground arith, ground arith))
          | inr g ↦ (let no : ⊥ = ground arith in elim no [ ])
        ]
  ]

  deliver_call-Permitted :
      (targets : HashMap ℕ MsgTarget) (w : World) (from i : ℕ) (r : Reader) (c : Call p)
      → (deliver_call p targets w from i r).1 ≡ some c
      → Permitted w from c
  unfolding deliver_call
  deliver_call-Permitted targets w from i r c e = elim (Option-cases (get targets i)) [
    | inl f ↦ (let no : ⊥ = ground arith in elim no [ ])
    | inr (t, f) ↦ elim (Option-cases (find_node w t)) [
      | inl g ↦ (let no : ⊥ = ground arith in elim no [ ])
      | inr (n, g) ↦ make_call-Permitted w from n t.method r c (ground arith)
    ]
  ]

  deliver_registration-Permitted :
      (targets : HashMap ℕ MsgTarget) (w : World) (from : ℕ) (r : Reader) (c : Call p)
      → (deliver_registration p targets w from r).1 ≡ some c
      → Permitted w from c
  unfolding deliver_registration
  deliver_registration-Permitted targets w from r c e =
      let i = (get_uvarint r).0 in
      let path = get_str p (get_uvarint r).1 in
      let method = get_str p path.1 in
      let learned = learn targets i path.0 method.0 in
      elim (Bool-cases (failed method.1 || i == 0)) [
        | inl f ↦ (let no : ⊥ = ground arith in elim no [ ])
        | inr f ↦ elim (Bool-cases (remaining method.1 == 0)) [
          | inl g ↦ (let no : ⊥ = ground arith in elim no [ ])
          | inr g ↦ deliver_call-Permitted learned w from i method.1 c (ground arith)
        ]
      ]

  -- Whatever bytes arrive, the call that a delivery makes comes from the peer that sent them, and is of
  -- an @rpc method that the node's authority lets that peer call.
  pub deliver_message-Permitted :
      (s : Messages) (w : World) (from : ℕ) (bytes : List ℕ) (c : Call p)
      → (deliver_message p s w from bytes).1 ≡ some c
      → Permitted w from c
  unfolding deliver_message deliver_to
  deliver_message-Permitted s w from bytes c e =
      let targets = at_peer s.msg_targets from in
      let head = get_uvarint (reader bytes) in
      elim (Bool-cases (head.0 == 0)) [
        | inl f ↦ deliver_registration-Permitted targets w from head.1 c (ground arith)
        | inr f ↦ deliver_call-Permitted targets w from head.0 head.1 c (ground arith)
      ]
