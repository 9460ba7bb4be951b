-- ===== src/Messages/Wire.antt =====
-- What _deliver_message does with the bytes that _send_message wrote.
use goldnet_godot.Common.{
  ℕ, ◌%◌, ◌^◌, ◌<◌, ◌≡◌, refl, Bool, true, false, String, Option, none, some, List, [], ◌∷◌, ◌++◌,
  map, length, length-append, All, HashMap, get, put, nat_eq, string_eq, ◌==◌, if◌then◌else◌, arith,
  inl, inr, Option-cases,
}
use mathlib.Core.List.{append_assoc, append-nil}
use goldnet_godot.Platform.{Platform, Variant}
use goldnet_godot.Values.Arguments.{put_str, put_arg}
use goldnet_godot.Values.Arguments.RoundTrip.{arrives, Fits, get-put_str, get-put_arg}
use goldnet_godot.Messages.{
  MsgTarget, World, permits, put_each, put_args, put_registration, put_call, get_each, get_args,
  Call, learn, find_node, make_call, deliver_call, deliver_registration, deliver_to,
}

module _ (p : Platform) where
  open p use {F, O, Reader, reader, utf8, put_uvarint}

  get-put_each :
      (args : List (Variant F O)) (rest : List ℕ)
      → All (Fits p) args
      → get_each p (length args) (reader (put_each p args ++ rest))
        ≡ (map (arrives p) args, reader rest)
  unfolding get_each put_each
  get-put_each [] rest h = refl
  get-put_each (v ∷ vs) rest (hv, hs) = rw (
    append_assoc (put_arg p v) (put_each p vs) rest,
    p.failed_reader (put_arg p v ++ (put_each p vs ++ rest)),
    get-put_arg p v (put_each p vs ++ rest) hv,
    get-put_each vs rest hs,
  )

  -- Arguments that the wire can carry.
  abbrev pub Sendable : List (Variant F O) → Type 0
  Sendable args = (length args < 2 ^ 32) × All (Fits p) args

  get-put_args :
      (args : List (Variant F O))
      → Sendable args
      → get_args p (reader (put_args p args)) ≡ (map (arrives p) args, reader [])
  unfolding get_args put_args
  get-put_args args (hn, hs) =
      let small : length args % 2 ^ 32 ≡ length args = omega arith in
      let whole = rw append-nil at (get-put_each args [] hs) in
      rw (small, p.get-put_uvarint (length args) (put_each p args) hn) whole

  -- The call that a delivery makes of a method on a node, if the peer may call it.
  unfoldable pub called : World → ℕ → ℕ → String → List (Variant F O) → Option (Call p)
  called w from n method args = elim (w.rpc_mode n method) [
    | none ↦ none
    | some mode ↦
        if permits mode (w.authority_of n) from
        then some (record { node = n; method = method; args = map (arrives p) args; sender = from })
        else none
  ]

  make_call_lem :
      (w : World) (from n : ℕ) (method : String) (args : List (Variant F O))
      → Sendable args
      → make_call p w from n method (reader (put_args p args)) ≡ called w from n method args
  unfolding make_call called
  make_call_lem w from n method args h = ground (arith, get-put_args args h, p.failed_reader [])

  -- What a delivery does once it has the target.
  unfoldable pub reach :
      HashMap ℕ MsgTarget
      → World
      → ℕ
      → ℕ
      → List (Variant F O)
      → HashMap ℕ MsgTarget × Option (Call p)
  reach targets w from i args = elim (get targets i) [
    | none ↦ (targets, none)
    | some t ↦ elim (find_node w t) [
      | none ↦ (put targets i (record t { object_id = 0; warned = true }), none)
      | some n ↦ (put targets i (record t { object_id = n }), called w from n t.method args)
    ]
  ]

  deliver_call_lem :
      (targets : HashMap ℕ MsgTarget) (w : World) (from i : ℕ) (args : List (Variant F O))
      → Sendable args
      → deliver_call p targets w from i (reader (put_args p args)) ≡ reach targets w from i args
  unfolding deliver_call reach
  deliver_call_lem targets w from i args h = elim (Option-cases (get targets i)) [
    | inl e ↦ ground arith
    | inr (t, e) ↦ elim (Option-cases (find_node w t)) [
      | inl f ↦ ground arith
      | inr (n, f) ↦ ground (arith, make_call_lem w from n t.method args h)
    ]
  ]

  -- A target that the wire can carry.
  abbrev pub Nameable : ℕ → String → String → Type 0
  Nameable i path method =
      (0 < i) × (i < 2 ^ 32) × (length (utf8 path) < 2 ^ 32) × (length (utf8 method) < 2 ^ 32)

  read_registration :
      (targets : HashMap ℕ MsgTarget) (w : World) (from i : ℕ) (path method : String)
      (rest : List ℕ)
      → Nameable i path method
      → deliver_to p targets w from (put_registration p i path method ++ rest) ≡ (
          if length rest == 0
          then (learn targets i path method, none)
          else deliver_call p (learn targets i path method) w from i (reader rest))
  unfolding deliver_to deliver_registration put_registration
  read_registration targets w from i path method rest (pos, hi, hp, hm) =
      let names = put_str p path ++ put_str p method in
      let apart : (i == 0) ≡ false = ground arith in
      rw (
        append_assoc (put_uvarint 0) (put_uvarint i ++ names) rest,
        append_assoc (put_uvarint i) names rest,
        append_assoc (put_str p path) (put_str p method) rest,
        p.get-put_uvarint 0 (put_uvarint i ++ (put_str p path ++ (put_str p method ++ rest)))
            (omega arith),
        p.get-put_uvarint i (put_str p path ++ (put_str p method ++ rest)) hi,
        get-put_str p path (put_str p method ++ rest) hp,
        get-put_str p method rest hm,
        p.failed_reader rest,
        p.remaining_reader rest,
        apart,
      )

  -- A registration is learned, and asks for no call.
  pub deliver_to-put_registration :
      (targets : HashMap ℕ MsgTarget) (w : World) (from i : ℕ) (path method : String)
      → Nameable i path method
      → deliver_to p targets w from (put_registration p i path method)
        ≡ (learn targets i path method, none)
  deliver_to-put_registration targets w from i path method h =
      rw append-nil at (read_registration targets w from i path method [] h)

  put_args_pos : (args : List (Variant F O)) → (length (put_args p args) == 0) ≡ false
  unfolding put_args
  put_args_pos args =
      let n = length args % 2 ^ 32 in
      ground (arith, p.put_uvarint_pos n, length-append (put_uvarint n) (put_each p args))

  -- A call to a target that the receiver may not know yet carries the registration in front: it
  -- reaches the target it names whatever the receiver has learned before. A call by id alone reaches
  -- what the receiver has under that id. Both make the call with the arguments as they arrive.
  pub deliver_to-put_call :
      (targets : HashMap ℕ MsgTarget) (w : World) (from i : ℕ) (path method : String)
      (args : List (Variant F O)) (short : Bool)
      → Nameable i path method
      → Sendable args
      → deliver_to p targets w from (put_call p short i path method args)
        ≡ reach (if short then targets else learn targets i path method) w from i args
  unfolding put_call deliver_to
  deliver_to-put_call targets w from i path method args true h hs =
      let apart : (i == 0) ≡ false = ground (arith, h.0) in
      rw (
        p.get-put_uvarint i (put_args p args) h.1,
        apart,
        deliver_call_lem targets w from i args hs,
      )
  deliver_to-put_call targets w from i path method args false h hs = rw (
    read_registration targets w from i path method (put_args p args) h,
    put_args_pos args,
    deliver_call_lem (learn targets i path method) w from i args hs,
  )
