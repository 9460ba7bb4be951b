-- ===== src/Messages/Bounds.antt =====
-- What the bytes of a message bound, whatever counts they claim.
use goldnet_godot.Common.{
  ℕ, zero, suc, ◌+◌, ◌<◌, ◌≤◌, ◌≡◌, refl, true, false, ◌&&◌, ◌||◌, not, Bool-cases, inl, inr, ◌==◌,
  String, some, Option-cases, List, [], length, HashMap, get, nat_eq, arith,
}
use goldnet_godot.Platform.{Platform}
use goldnet_godot.Values.Arguments.{get_str, get_arg}
use goldnet_godot.Values.Arguments.Bounds.{get_str-Takes, get_arg-Takes}
use goldnet_godot.Messages.{
  Messages, MsgTarget, World, permits, at_peer, learn, find_node, get_each, get_args, Call,
  make_call, deliver_call, deliver_registration, deliver_to, deliver_message,
}

module _ (p : Platform) where
  open p use {Reader, reader, failed, remaining, get_uvarint}

  get_each_failed : (n : ℕ) (r : Reader) → failed r ≡ true → get_each p n r ≡ ([], r)
  unfolding get_each
  get_each_failed zero r h = refl
  get_each_failed (suc n) r h = rw h refl

  -- Rounds that end in good health read an argument each.
  get_each_left :
      (n : ℕ) (r : Reader)
      → let (vs, r1) = get_each p n r in
        failed r1 ≡ false → (failed r ≡ false) × (length vs + remaining r1 ≤ remaining r)
  unfolding get_each
  get_each_left zero r e = (e, omega arith)
  get_each_left (suc n) r e = elim (Bool-cases (failed r)) [
    | inl bad ↦ (let no : ⊥ = ground (arith, e, bad) in elim no [ ])
    | inr good ↦
        let r1 = (get_arg p r).1 in
        let (a, x) = get_each_left n r1 (ground (arith, e, good)) in
        let (b, y) = get_arg-Takes p r a in (good, rw good (omega (arith, x, y)))
  ]

  -- However many arguments a message claims, the loop over them is done after more rounds than bytes are
  -- left: further rounds change nothing, and at most one value more than those bytes is read.
  pub get_each_stops :
      (n claimed : ℕ) (r : Reader)
      → remaining r < n
      → n ≤ claimed
      → (get_each p claimed r ≡ get_each p n r)
        × (length (get_each p claimed r).0 ≤ remaining r + 1)
  unfolding get_each
  get_each_stops zero claimed r h le = (let no : ⊥ = omega arith in elim no [ ])
  get_each_stops (suc n) zero r h le = (let no : ⊥ = omega arith in elim no [ ])
  get_each_stops (suc n) (suc m) r h le = elim (Bool-cases (failed r)) [
    | inl bad ↦ rw bad (refl, omega arith)
    | inr good ↦
        let (v, r1) = get_arg p r in
        elim (Bool-cases (failed r1)) [
          | inl over ↦
              rw (good, get_each_failed m r1 over, get_each_failed n r1 over) (refl, omega arith)
          | inr more ↦
              let (b, y) = get_arg-Takes p r more in
              let (same, few) = get_each_stops n m r1 (omega (arith, y)) (omega arith) in
              (rw (good, same) refl, rw good (omega (arith, few, y)))
        ]
  ]

  -- Arguments that read in good health are fewer than the bytes that they and their count were read from.
  get_args_left :
      (r : Reader)
      → let (vs, r1) = get_args p r in
        failed r1 ≡ false → (failed r ≡ false) × (length vs < remaining r)
  unfolding get_args
  get_args_left r e =
      let (n, r1) = get_uvarint r in
      let (a, x) = get_each_left n r1 e in
      let (b, y) = p.get_uvarint_takes r a in (b, omega (arith, x, y))

  make_call-args :
      (w : World) (from n : ℕ) (method : String) (r : Reader) (c : Call p)
      → make_call p w from n method r ≡ some c
      → (failed r ≡ false) × (length c.args < remaining r)
  unfolding make_call
  make_call-args w from n method r c e = elim (Option-cases (w.rpc_mode n method)) [
    | inl f ↦ (let no : ⊥ = ground arith in elim no [ ])
    | inr (mode, f) ↦
        elim (Bool-cases (not (failed (get_args p r).1) && permits mode (w.authority_of n) from)) [
          | inl g ↦
              let same : c.args ≡ (get_args p r).0 = ground arith in
              let (a, x) = get_args_left r (ground arith) in (a, rw same x)
          | inr g ↦ (let no : ⊥ = ground arith in elim no [ ])
        ]
  ]

  deliver_call-args :
      (targets : HashMap ℕ MsgTarget) (w : World) (from i : ℕ) (r : Reader) (c : Call p)
      → (deliver_call p targets w from i r).1 ≡ some c
      → (failed r ≡ false) × (length c.args < remaining r)
  unfolding deliver_call
  deliver_call-args targets w from i r c e = elim (Option-cases (get targets i)) [
    | inl f ↦ (let no : ⊥ = ground arith in elim no [ ])
    | inr (t, f) ↦ elim (Option-cases (find_node w t)) [
      | inl g ↦ (let no : ⊥ = ground arith in elim no [ ])
      | inr (n, g) ↦ make_call-args w from n t.method r c (ground arith)
    ]
  ]

  deliver_registration-args :
      (targets : HashMap ℕ MsgTarget) (w : World) (from : ℕ) (r : Reader) (c : Call p)
      → (deliver_registration p targets w from r).1 ≡ some c
      → (failed r ≡ false) × (length c.args + 3 < remaining r)
  unfolding deliver_registration
  deliver_registration-args targets w from r c e =
      let (i, r1) = get_uvarint r in
      let (path, r2) = get_str p r1 in
      let (method, r3) = get_str p r2 in
      let learned = learn targets i path method in
      elim (Bool-cases (failed r3 || i == 0)) [
        | inl f ↦ (let no : ⊥ = ground arith in elim no [ ])
        | inr f ↦ elim (Bool-cases (remaining r3 == 0)) [
          | inl g ↦ (let no : ⊥ = ground arith in elim no [ ])
          | inr g ↦
              let (a, x) = deliver_call-args learned w from i r3 c (ground arith) in
              let (b, y) = get_str-Takes p r2 a in
              let (d, z) = get_str-Takes p r1 b in
              let (f1, u) = p.get_uvarint_takes r d in (f1, omega (arith, x, y, z, u))
        ]
      ]

  -- Whatever bytes arrive and whatever count they claim, a call that they make has fewer arguments than
  -- the message has bytes beside its first.
  pub deliver_message-args :
      (s : Messages) (w : World) (from : ℕ) (bytes : List ℕ) (c : Call p)
      → (deliver_message p s w from bytes).1 ≡ some c
      → length c.args + 1 < length bytes
  unfolding deliver_message deliver_to
  deliver_message-args s w from bytes c e =
      let targets = at_peer s.msg_targets from in
      let (i, r) = get_uvarint (reader bytes) in
      let all = p.remaining_reader bytes in
      elim (Bool-cases (i == 0)) [
        | inl f ↦
            let (a, x) = deliver_registration-args targets w from r c (ground arith) in
            let (b, y) = p.get_uvarint_takes (reader bytes) a in omega (arith, x, y, all)
        | inr f ↦
            let (a, x) = deliver_call-args targets w from i r c (ground arith) in
            let (b, y) = p.get_uvarint_takes (reader bytes) a in omega (arith, x, y, all)
      ]
