-- ===== src/Messages.antt =====
-- RPCs on the netchan, in src/goldnet_multiplayer.cpp: _send_message and _deliver_message. A message
-- names its target, a node path and a method, by a small id, which the sending end registers with the
-- receiving one reliably the first time it uses it with that peer.
pub mod Wire
pub mod Sending
pub mod Bounds
pub mod Permission
pub mod Link
mod Examples
use Prim.Native.String.{◌++◌ as concat}
use goldnet_godot.Common.{
  ℕ, zero, suc, ◌+◌, ◌%◌, ◌^◌, Bool, true, false, ◌&&◌, ◌||◌, not, String, Option, none, some, List,
  [], ◌∷◌, ◌++◌, length, HashMap, get, put, erase, nat_eq, string_eq, ltb, ◌==◌, if◌then◌else◌,
}
use goldnet_godot.Platform.{Platform, Variant}
use goldnet_godot.Values.Arguments.{put_str, get_str, put_arg, get_arg}

-- MAX_UNRELIABLE_MESSAGE
abbrev pub max_unreliable_message : ℕ
max_unreliable_message = 512

-- The key of `msg_ids`: "path::method".
unfoldable pub key : String → String → String
key path method = concat path (concat "::" method)

-- What one end keeps of another's targets. 0 is no object yet.
pub record MsgTarget : Type 0 where
  pub path : String
  pub method : String
  pub object_id : ℕ
  pub warned : Bool

-- The members of GoldNetMultiplayer that messages use.
pub record Messages : Type 0 where
  pub msg_ids : HashMap String ℕ
  pub msg_next_id : ℕ
  pub msg_registered : HashMap ℕ (HashMap ℕ ℕ)
  pub msg_targets : HashMap ℕ (HashMap ℕ MsgTarget)

unfoldable pub init : Messages
init = record { msg_ids = []; msg_next_id = 1; msg_registered = []; msg_targets = [] }

-- `m[k]` on a map of maps, which starts an empty one where there is none.
unfoldable pub at_peer : {V : Type 0} → HashMap ℕ (List V) → ℕ → List V
at_peer m k = elim (get m k) [ none ↦ [] | some v ↦ v ]

-- What _forget_peer does to them, and what _reset_client_state does.
unfoldable pub forget_peer : Messages → ℕ → Messages
forget_peer s peer = record s {
  msg_registered = erase s.msg_registered peer;
  msg_targets = erase s.msg_targets peer;
}

unfoldable pub forget_peers : Messages → Messages
forget_peers s = record s { msg_registered = []; msg_targets = [] }

-- The core's account of its reliable stream to the peer.
pub record Stats : Type 0 where
  pub queued : ℕ
  pub delivered : ℕ

-- What a send hands the core.
pub data Queued : Type 0 where
  reliable unreliable : List ℕ → Queued

pub data RpcMode : Type 0 where
  disabled any_peer authority : RpcMode

-- What a delivery asks the engine: the node at a path, whether an object is a node in the tree, a
-- method's @rpc mode (none if it isn't an @rpc), and the authority over a node.
pub record World : Type 0 where
  pub node_at : String → Option ℕ
  pub node_in_tree : ℕ → Bool
  pub rpc_mode : ℕ → String → Option RpcMode
  pub authority_of : ℕ → ℕ

-- msg_ids and msg_next_id: the id of a target, given out on first use.
unfoldable pub msg_id : Messages → String → Messages × ℕ
msg_id s k = elim (get s.msg_ids k) [
  | some i ↦ (s, i)
  | none ↦ (
    record s {
      msg_ids = put s.msg_ids k s.msg_next_id;
      msg_next_id = (s.msg_next_id + 1) % 2 ^ 32;
    },
    s.msg_next_id,
  )
]

unfoldable pub is_known : Option ℕ → ℕ → Bool
is_known none delivered = false
is_known (some at) delivered = ltb at delivered

-- The mode check that a delivery makes before it calls.
unfoldable pub permits : RpcMode → ℕ → ℕ → Bool
permits disabled owner from = false
permits any_peer owner from = true
permits authority owner from = owner == from

unfoldable pub learn : HashMap ℕ MsgTarget → ℕ → String → String → HashMap ℕ MsgTarget
learn targets i path method =
    let made : MsgTarget = record { path = path; method = method; object_id = 0; warned = false } in
    elim (get targets i) [
      | none ↦ put targets i made
      | some t ↦
          if string_eq.beq t.path path && string_eq.beq t.method method
          then targets
          else put targets i made
    ]

-- The node a target stands for: the object it was, if that is still a node in the tree, or the node
-- at its path.
unfoldable pub find_node : World → MsgTarget → Option ℕ
find_node w t =
    if not (t.object_id == 0) && w.node_in_tree t.object_id
    then some t.object_id
    else w.node_at t.path

module _ (p : Platform) where
  open p use {F, O, Reader, reader, failed, remaining, put_uvarint, get_uvarint}

  unfoldable pub put_each : List (Variant F O) → List ℕ
  put_each [] = []
  put_each (v ∷ vs) = put_arg p v ++ put_each vs

  unfoldable pub put_args : List (Variant F O) → List ℕ
  put_args args = put_uvarint (length args % 2 ^ 32) ++ put_each args

  -- The registration of an id.
  unfoldable pub put_registration : ℕ → String → String → List ℕ
  put_registration i path method =
      put_uvarint 0 ++ (put_uvarint i ++ (put_str p path ++ put_str p method))

  unfoldable pub put_call : Bool → ℕ → String → String → List (Variant F O) → List ℕ
  put_call short i path method args =
      (if short then put_uvarint i else put_registration i path method) ++ put_args args

  -- `for (i = 0; i < argc && !r.failed(); i++)`, over the rounds left.
  unfoldable pub get_each : ℕ → Reader → List (Variant F O) × Reader
  get_each zero r = ([], r)
  get_each (suc n) r =
      let (v, r1) = get_arg p r in
      let rest = get_each n r1 in if failed r then ([], r) else (v ∷ rest.0, rest.1)

  unfoldable pub get_args : Reader → List (Variant F O) × Reader
  get_args r = let (n, r1) = get_uvarint r in get_each n r1

  -- The end of _send_message: register an id that isn't, and queue the call.
  unfoldable pub queue_call :
      Messages → Stats → ℕ → ℕ → List ℕ → List ℕ → Bool → Messages × List Queued × Bool
  queue_call s stats peer i registration call is_reliable =
      let registered = at_peer s.msg_registered peer in
      let out = if is_reliable then reliable call else unreliable call in
      elim (get registered i) [
        | some _ ↦
            (record s { msg_registered = put s.msg_registered peer registered }, out ∷ [], true)
        | none ↦ (
          record s { msg_registered = put s.msg_registered peer (put registered i stats.queued) },
          reliable registration ∷ out ∷ [],
          true,
        )
      ]

  -- The state, what the core is handed, and the answer: false if the inner should make the call.
  unfoldable pub send_message :
      Messages
      → Stats
      → ℕ
      → String
      → String
      → List (Variant F O)
      → Bool
      → Messages × List Queued × Bool
  send_message s stats peer path method args is_reliable =
      let (s1, i) = msg_id s (key path method) in
      let registered = at_peer s1.msg_registered peer in
      let known = is_known (get registered i) stats.delivered in
      let call = put_call (is_reliable || known) i path method args in
      if not is_reliable && ltb max_unreliable_message (length call)
      then (record s1 { msg_registered = put s1.msg_registered peer registered }, [], false)
      else queue_call s1 stats peer i (put_registration i path method) call is_reliable

  -- A call that the engine is asked to make.
  pub record Call : Type 0 where
    pub node : ℕ
    pub method : String
    pub args : List (Variant F O)
    pub sender : ℕ

  unfoldable pub make_call : World → ℕ → ℕ → String → Reader → Option Call
  make_call w from n method r =
      let (args, r1) = get_args r in
      elim (w.rpc_mode n method) [
        | none ↦ none
        | some mode ↦
            if not (failed r1) && permits mode (w.authority_of n) from
            then some (record { node = n; method = method; args = args; sender = from })
            else none
      ]

  -- The call of a known target, from the id on.
  unfoldable pub deliver_call :
      HashMap ℕ MsgTarget → World → ℕ → ℕ → Reader → HashMap ℕ MsgTarget × Option Call
  deliver_call targets w from i r = elim (get targets i) [
    | none ↦ (targets, none)
    | some t ↦ elim (find_node w t) [
      | none ↦ (put targets i (record t { object_id = 0; warned = true }), none)
      | some n ↦ (put targets i (record t { object_id = n }), make_call w from n t.method r)
    ]
  ]

  unfoldable pub deliver_registration :
      HashMap ℕ MsgTarget → World → ℕ → Reader → HashMap ℕ MsgTarget × Option Call
  deliver_registration targets w from r =
      let (i, r1) = get_uvarint r in
      let (path, r2) = get_str p r1 in
      let (method, r3) = get_str p r2 in
      let learned = learn targets i path method in
      if failed r3 || i == 0
      then (targets, none)
      else if remaining r3 == 0
      then (learned, none)
      else deliver_call learned w from i r3

  unfoldable pub deliver_to :
      HashMap ℕ MsgTarget → World → ℕ → List ℕ → HashMap ℕ MsgTarget × Option Call
  deliver_to targets w from bytes =
      let (i, r) = get_uvarint (reader bytes) in
      if i == 0 then deliver_registration targets w from r else deliver_call targets w from i r

  unfoldable pub deliver_message : Messages → World → ℕ → List ℕ → Messages × Option Call
  deliver_message s w from bytes =
      let (targets, call) = deliver_to (at_peer s.msg_targets from) w from bytes in
      (record s { msg_targets = put s.msg_targets from targets }, call)
