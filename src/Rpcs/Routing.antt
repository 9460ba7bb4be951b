-- ===== src/Rpcs/Routing.antt =====
-- Where an RPC goes, in src/goldnet_multiplayer.cpp: _rpc_is_unreliable, _netchan_rpc and _rpc, over
-- the models of _send_message, _sim_send and the command streams.
use goldnet_godot.Common.{
  ℕ, Bool, true, false, ◌&&◌, ◌||◌, not, String, Option, none, some, List, [], ◌∷◌, ◌++◌, map, any,
  HashMap, get, put, nat_eq, string_eq, ltb, ◌==◌, if◌then◌else◌,
}
use goldnet_godot.Platform.{Platform, Variant}
use goldnet_godot.SimPeer.{TransferMode, reliable, unreliable, unreliable_ordered}
use goldnet_godot.Messages.{Messages, send_message}
use goldnet_godot.Commands.{Field, Dictionaries, command_from_args}
use goldnet_godot.Commands.Signatures.{Node, StreamCache, CommandSignature, command_stream}
use goldnet_godot.Rpcs.{
  Recipient, one, everyone, everyone_but, recipients, SendSim, Out, queue, push_command, set_schema,
  inner_rpc, Answers, Answer, ok, invalid_parameter, charge_rpc, check_overflow, sim_send,
}

-- What an @rpc method is declared as, as far as the route depends on it.
pub record RpcConfig : Type 0 where
  pub channel : ℕ
  pub transfer_mode : TransferMode
  pub call_local : Bool

-- The called object: its id, the node it is, whether that is in the tree, and the method with its
-- @rpc declaration, none if it has none.
pub record Callee : Type 0 where
  pub object_id : ℕ
  pub node : Option Node
  pub in_tree : Bool
  pub method : String
  pub config : Option RpcConfig

abbrev pub is_reliable : TransferMode → Bool
is_reliable reliable = true
is_reliable unreliable = false
is_reliable unreliable_ordered = false

abbrev pub UnreliableCache : Type 0
UnreliableCache = HashMap ℕ (HashMap String Bool)

-- _rpc_is_unreliable
unfoldable pub rpc_is_unreliable : UnreliableCache → Callee → UnreliableCache × Bool
rpc_is_unreliable cache c =
    let methods : HashMap String Bool = elim (get cache c.object_id) [ none ↦ [] | some m ↦ m ] in
    let found : Bool = elim c.config [
      | none ↦ false
      | some cfg ↦ not (is_reliable cfg.transfer_mode)
    ] in
    elim (get methods c.method) [
      | some b ↦ (cache, b)
      | none ↦ (put cache c.object_id (put methods c.method found), found)
    ]

module _ (p : Platform) (n : SendSim) where
  open p use {F, O}

  -- The members of GoldNetMultiplayer that an RPC uses.
  pub record Rpcs : Type 0 where
    pub messages : Messages
    pub sim : n.S
    pub streams : StreamCache
    pub unreliable_calls : UnreliableCache

  -- One target's round in _netchan_rpc's loop.
  unfoldable pub send_to :
      Rpcs → Answers → String → String → List (Variant F O) → Bool → ℕ → Rpcs × List (Out F)
  send_to s a path method args rel t =
      let (messages, queued, sent) = send_message p s.messages (a.stats t) t path method args rel in
      let (sim, outs, _) = sim_send p n s.sim a (one t) args (not rel) none in
      if sent
      then (record s { messages = messages }, map (queue t) queued ++ check_overflow p a t)
      else (record s { messages = messages; sim = sim }, charge_rpc p a (one t) args ++ outs)

  unfoldable pub send_to_each :
      Rpcs → Answers → String → String → List (Variant F O) → Bool → List ℕ → Rpcs × List (Out F)
  send_to_each s a path method args rel [] = (s, [])
  send_to_each s a path method args rel (t ∷ ts) =
      let (s1, outs) = send_to s a path method args rel t in
      let rest = send_to_each s1 a path method args rel ts in (rest.0, outs ++ rest.1)

  -- Whether the server has the call made on itself as well.
  unfoldable pub calls_itself : Recipient → Bool
  calls_itself (one t) = false
  calls_itself everyone = true
  calls_itself (everyone_but k) = not (k == 1)

  -- A client's call on the netchan, to the server only.
  unfoldable pub netchan_up :
      Rpcs → Answers → String → String → List (Variant F O) → Bool → Rpcs × List (Out F) × Bool
  netchan_up s a path method args rel =
      let (messages, queued, sent) = send_message p s.messages (a.stats 1) 1 path method args rel in
      (
        record s { messages = messages },
        if sent then map (queue 1) queued ++ check_overflow p a 1 else [],
        sent,
      )

  unfoldable pub netchan_down :
      Rpcs
      → Answers
      → String
      → String
      → List (Variant F O)
      → Bool
      → Recipient
      → Bool
      → Rpcs × List (Out F) × Bool
  netchan_down s a path method args rel to call_local =
      let (s1, outs) = send_to_each s a path method args rel (recipients to a.peers) in
      (s1, outs ++ (if call_local && calls_itself to then inner_rpc (one 1) ∷ [] else []), true)

  -- Whether a server's peers take the call: not for a call to itself or to a peer it doesn't know.
  unfoldable pub reaches : Answers → Recipient → Bool
  reaches a (one t) = not (t == 1) && any (λ k. k == t) a.peers
  reaches a everyone = true
  reaches a (everyone_but k) = true

  abbrev pub is_server_id : Recipient → Bool
  is_server_id (one t) = t == 1
  is_server_id everyone = false
  is_server_id (everyone_but k) = false

  -- _netchan_rpc
  unfoldable pub netchan_rpc :
      Rpcs → Answers → Recipient → Callee → List (Variant F O) → Rpcs × List (Out F) × Bool
  netchan_rpc s a to c args = elim c.node [
    | none ↦ (s, [], false)
    | some nd ↦ elim c.config [
      | none ↦ (s, [], false)
      | some cfg ↦
          let rel = is_reliable cfg.transfer_mode in
          let fits = a.connected && (c.in_tree && cfg.channel == 0) in
          let up = netchan_up s a nd.path c.method args rel in
          let down = netchan_down s a nd.path c.method args rel to cfg.call_local in
          if fits && (not (a.unique_id == 1) && is_server_id to)
          then up
          else if fits && (a.unique_id == 1 && reaches a to)
          then down
          else (s, [], false)
    ]
  ]

  -- The end of _rpc: the call through the inner, over the simulated link.
  unfoldable pub rpc_through_inner :
      Rpcs → Answers → Recipient → Callee → List (Variant F O) → Rpcs × List (Out F) × Answer
  rpc_through_inner s a to c args =
      let simulating = ltb 0 (n.loss_percent s.sim) || ltb 0 (n.bandwidth_bps s.sim) in
      let (cache, unrel) = rpc_is_unreliable s.unreliable_calls c in
      let droppable = simulating && unrel in
      let s1 : Rpcs = if simulating then record s { unreliable_calls = cache } else s in
      let (lost, rolled) = n.loss_roll s.sim in
      let rolls = droppable && ltb 0 (n.loss_percent s.sim) in
      let sim1 : n.S = if rolls then rolled else s.sim in
      let (sim2, outs, answer) = sim_send p n sim1 a to args droppable none in
      if rolls && lost
      then (record s1 { sim = sim1 }, [], ok)
      else (record s1 { sim = sim2 }, charge_rpc p a to args ++ outs, answer)

  unfoldable pub rpc_as_message :
      Rpcs → Answers → Recipient → Callee → List (Variant F O) → Rpcs × List (Out F) × Answer
  rpc_as_message s a to c args =
      let (s1, outs, sent) = netchan_rpc s a to c args in
      if sent then (s1, outs, ok) else rpc_through_inner s1 a to c args

  -- A call of a command stream: its schema, where the core has another, and the command.
  unfoldable pub push :
      Dictionaries (Variant F O)
      → Field F
      → Answers
      → CommandSignature
      → List (Variant F O)
      → List (Out F) × Answer
  push dict blank a sig args =
      elim (command_from_args p blank dict sig.forms sig.names sig.table args) [
        | none ↦ ([], invalid_parameter)
        | some cmd ↦ (
          (if a.has_schema sig.id sig.kinds then [] else set_schema sig.id sig.kinds ∷ [])
              ++ push_command sig.id cmd ∷ [],
          ok,
        )
      ]

  module _ (hash : String → ℕ) (max_command_fields : ℕ) (dict : Dictionaries (Variant p.F p.O))
      (blank : Field p.F) where
    -- _rpc, with the statistics off.
    unfoldable pub rpc :
        Rpcs → Answers → Recipient → Callee → List (Variant F O) → Rpcs × List (Out F) × Answer
    rpc s a to c args =
        let (streams, sig) =
          command_stream hash max_command_fields s.streams c.object_id c.node c.method in
        let s1 : Rpcs = record s { streams = streams } in
        let pushed = λ (g : CommandSignature). push dict blank a g args in
        if is_server_id to && (a.has_peer && not (a.unique_id == 1))
        then elim sig [
          | none ↦ rpc_as_message s1 a to c args
          | some g ↦ (s1, (pushed g).0, (pushed g).1)
        ]
        else rpc_as_message s a to c args
