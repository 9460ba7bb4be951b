-- ===== src/Rpcs.antt =====
-- The way of an RPC, in src/goldnet_multiplayer.cpp: _rpc, _netchan_rpc, _sim_send, _charge_rpc,
-- _check_overflow and _rpc_is_unreliable. The send-side goldnet::NetSim is an interface; what the
-- engine and the core answer during a call is an argument, and what they are asked to do a list.
pub mod Routing
pub mod Reach
pub mod Delivery
pub mod Statistics
pub mod Reports
pub mod Carrier
mod Examples
use goldnet_godot.Common.{
  ℕ, zero, suc, ◌+◌, ◌%◌, ◌^◌, ◌-◌, ◌≡◌, Bool, true, false, ◌&&◌, ◌||◌, not, String, Option, none,
  some, List, [], ◌∷◌, ◌++◌, length, map, any, keep, HashMap, get, put, nat_eq, string_eq, ltb, leb,
  ◌==◌, if◌then◌else◌,
}
use goldnet_godot.Platform.{
  Platform, Variant, nil, bool, int, float, vector3, string, string_name, packed_bytes, other,
}
use goldnet_godot.SimPeer.{TransferMode, reliable, unreliable, unreliable_ordered}
use goldnet_godot.Messages.{Messages, Stats, Queued}
use goldnet_godot.Commands.{Field}
use goldnet_godot.Commands.Signatures.{FieldKind, StreamCache}

-- p_peer: a peer's id, 0, or an id negated.
pub data Recipient : Type 0 where
  one : ℕ → Recipient
  everyone : Recipient
  everyone_but : ℕ → Recipient

unfoldable pub recipients : Recipient → List ℕ → List ℕ
recipients (one t) peers = t ∷ []
recipients everyone peers = peers
recipients (everyone_but k) peers = keep (λ t. not (t == k)) peers

-- RPC_WIRE_OVERHEAD
abbrev pub rpc_wire_overhead : ℕ
rpc_wire_overhead = 38

-- goldnet::NetSim on the send leg, a link for each recipient. A packet that may not be dropped always
-- finds room.
pub record SendSim : Type 1 where
  pub S : Type 0
  pub loss_percent : S → ℕ
  pub bandwidth_bps : S → ℕ
  pub loss_roll : S → Bool × S
  pub schedule : S → Recipient → ℕ → Bool → ℕ → Option ℕ × S
  pub schedule_reliable :
      (s : S) (link : Recipient) (size now : ℕ)
      → (d : ℕ) × ((schedule s link size false now).0 ≡ some d)

-- What a call asks of the core and of the inner API: bytes on the netchan, a peer's removal, a charge
-- to a peer's rate, a command's schema and a command, and inner->rpc now or in some ms.
pub data Out (F : Type 0) : Type 0 where
  queue : ℕ → Queued → Out F
  drop_peer : ℕ → Out F
  charge : ℕ → ℕ → Out F
  set_schema : ℕ → List FieldKind → Out F
  push_command : ℕ → List (Field F) → Out F
  inner_rpc : Recipient → Out F
  later : Recipient → ℕ → Out F

-- What the engine and the core answer: the session, the peers, the core's account of its stream to a
-- peer, whether that overflows once the call is queued, a peer's rate, and the clock.
pub record Answers : Type 0 where
  pub has_peer : Bool
  pub connected : Bool
  pub unique_id : ℕ
  pub peers : List ℕ
  pub stats : ℕ → Stats
  pub overflowed : ℕ → Bool
  pub rate : ℕ → ℕ
  pub has_schema : ℕ → List FieldKind → Bool
  pub now_ms : ℕ

-- The Error that _rpc gives: its own, or what the inner answers.
pub data Answer : Type 0 where
  ok invalid_parameter of_inner : Answer

module _ (p : Platform) where
  open p use {F, O, var_to_bytes}

  unfoldable pub int_wire_bytes : ℕ → ℕ
  int_wire_bytes x =
      if ltb x (2 ^ 7) || leb (2 ^ 64 - 2 ^ 7) x
      then 1
      else if ltb x (2 ^ 15) || leb (2 ^ 64 - 2 ^ 15) x
      then 2
      else if ltb x (2 ^ 31) || leb (2 ^ 64 - 2 ^ 31) x
      then 4
      else 8

  unfoldable pub arg_wire_bytes : Variant F O → ℕ
  arg_wire_bytes nil = 1
  arg_wire_bytes (bool b) = 1
  arg_wire_bytes (int x) = 1 + int_wire_bytes x
  arg_wire_bytes (packed_bytes b) = 8 + length b
  arg_wire_bytes (float x) = length (var_to_bytes (float x))
  arg_wire_bytes (vector3 x y z) = length (var_to_bytes (vector3 x y z))
  arg_wire_bytes (string s) = length (var_to_bytes (string s))
  arg_wire_bytes (string_name s) = length (var_to_bytes (string_name s))
  arg_wire_bytes (other o) = length (var_to_bytes (other o))

  unfoldable pub args_wire_bytes : List (Variant F O) → ℕ
  args_wire_bytes [] = 0
  args_wire_bytes (v ∷ vs) = arg_wire_bytes v + args_wire_bytes vs

  unfoldable pub rpc_wire_bytes : List (Variant F O) → ℕ
  rpc_wire_bytes args = 4 + args_wire_bytes args

  unfoldable pub charge_each : Answers → ℕ → List ℕ → List (Out F)
  charge_each a bytes [] = []
  charge_each a bytes (t ∷ ts) =
      let rest = charge_each a bytes ts in if a.rate t == 0 then rest else charge t bytes ∷ rest

  -- _charge_rpc
  unfoldable pub charge_rpc : Answers → Recipient → List (Variant F O) → List (Out F)
  charge_rpc a to args =
      if a.unique_id == 1
      then charge_each a (rpc_wire_bytes args + rpc_wire_overhead) (recipients to a.peers)
      else []

  -- _check_overflow: drop a client, or leave the server, whose reliable channel overflowed.
  unfoldable pub check_overflow : Answers → ℕ → List (Out F)
  check_overflow a t = if a.has_peer && a.overflowed t then drop_peer t ∷ [] else []

  module _ (n : SendSim) where
    open n use {S, bandwidth_bps, schedule}

    -- _sim_send to one link.
    unfoldable pub sim_send_one :
        S → Answers → Recipient → List (Variant F O) → Bool → Option ℕ → S × List (Out F) × Answer
    sim_send_one sim a to args drop bytes =
        let guess = if ltb 0 (bandwidth_bps sim) then rpc_wire_bytes args else 0 in
        let size = elim bytes as (λ _. ℕ) [ none ↦ guess | some b ↦ b ] in
        let (delay, sim1) = schedule sim to size drop a.now_ms in
        elim delay [
          | none ↦ (sim1, [], ok)
          | some d ↦
              if d == 0 then (sim1, inner_rpc to ∷ [], of_inner) else (sim1, later to d ∷ [], ok)
        ]

    unfoldable pub sim_send_each :
        S → Answers → List ℕ → List (Variant F O) → Bool → Option ℕ → S × List (Out F)
    sim_send_each sim a [] args drop bytes = (sim, [])
    sim_send_each sim a (t ∷ ts) args drop bytes =
        let (sim1, outs, _) = sim_send_one sim a (one t) args drop bytes in
        let rest = sim_send_each sim1 a ts args drop bytes in (rest.0, outs ++ rest.1)

    abbrev pub is_one : Recipient → Bool
    is_one (one t) = true
    is_one everyone = false
    is_one (everyone_but k) = false

    -- _sim_send
    unfoldable pub sim_send :
        S → Answers → Recipient → List (Variant F O) → Bool → Option ℕ → S × List (Out F) × Answer
    sim_send sim a to args drop bytes =
        let each = sim_send_each sim a (recipients to a.peers) args drop bytes in
        if ltb 0 (bandwidth_bps sim) && not (is_one to)
        then (each.0, each.1, ok)
        else sim_send_one sim a to args drop bytes
