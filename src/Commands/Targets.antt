-- ===== src/Commands/Targets.antt =====
-- The server's command targets, in src/goldnet_multiplayer.cpp: _scan_command_targets, _command_target
-- and _deliver_command. The scene tree is a tree of nodes; whether an object is still there
-- (ObjectDB::get_instance) and what the engine says of a node are arguments.
use goldnet_godot.Common.{
  ℕ, Bool, ◌&&◌, not, String, Option, none, some, List, [], ◌∷◌, HashMap, get, put, nat_eq, ltb,
  ◌==◌, ◌>>=◌, if◌then◌else◌,
}
use goldnet_godot.Platform.{Platform, Variant, sub64}
use goldnet_godot.Messages.{World, permits, Call}
use goldnet_godot.Commands.{Field, Dictionaries, command_args}
use goldnet_godot.Commands.Signatures.{Node, CommandSignature, make_command_signature}

-- CommandTarget
pub record CommandTarget : Type 0 where
  pub object_id : ℕ
  pub method : String
  pub sig : CommandSignature

mutual
  -- The scene tree.
  pub data Tree : Type 0 where
    node : Node → Forest → Tree

  pub data Forest : Type 0 where
    leaf : Forest
    grow : Tree → Forest → Forest

-- command_targets and command_scan_ms
pub record Targets : Type 0 where
  pub command_targets : HashMap ℕ CommandTarget
  pub command_scan_ms : ℕ

unfoldable pub no_targets : Targets
no_targets = record { command_targets = []; command_scan_ms = 0 }

module _ (hash : String → ℕ) (max_command_fields : ℕ) where
  unfoldable pub add_target : HashMap ℕ CommandTarget → Node → String → HashMap ℕ CommandTarget
  add_target m n method =
      let s = make_command_signature hash max_command_fields n method in
      if s.id == 0
      then m
      else put m s.id (record { object_id = n.object_id; method = method; sig = s })

  unfoldable pub add_targets :
      HashMap ℕ CommandTarget → Node → List String → HashMap ℕ CommandTarget
  add_targets m n [] = m
  add_targets m n (method ∷ methods) = add_targets (add_target m n method) n methods

  unfoldable mutual
    pub scan_command_targets : HashMap ℕ CommandTarget → Tree → HashMap ℕ CommandTarget
    scan_command_targets m (node n children) =
        scan_children (elim n.gn_commands [ none ↦ m | some methods ↦ add_targets m n methods ])
          children

    pub scan_children : HashMap ℕ CommandTarget → Forest → HashMap ℕ CommandTarget
    scan_children m leaf = m
    scan_children m (grow t ts) = scan_children (scan_command_targets m t) ts

  -- The target of a stream, if its object is there.
  unfoldable pub live_target : (ℕ → Bool) → HashMap ℕ CommandTarget → ℕ → Option CommandTarget
  live_target alive m stream = elim (get m stream) [
    | none ↦ none
    | some t ↦ if alive t.object_id then some t else none
  ]

  -- Whether _command_target may walk the tree now: the last walk was a second ago, or there was none.
  unfoldable pub may_scan : ℕ → ℕ → Bool
  may_scan last now = not (not (last == 0) && ltb (sub64 now last) 1000)

  unfoldable pub rescan : Option Tree → HashMap ℕ CommandTarget
  rescan none = []
  rescan (some t) = scan_command_targets [] t

  -- _command_target, with `tree` the root's when there is one.
  unfoldable pub command_target :
      Targets → (ℕ → Bool) → Option Tree → ℕ → ℕ → Targets × Option CommandTarget
  command_target s alive tree now stream = elim (live_target alive s.command_targets stream) [
    | some t ↦ (s, some t)
    | none ↦
        if may_scan s.command_scan_ms now
        then (
          record { command_targets = rescan tree; command_scan_ms = now },
          live_target alive (rescan tree) stream,
        )
        else (s, none)
  ]

  -- What _deliver_command does with its target's arguments: the call, if the peer may make it.
  unfoldable pub permitted_call :
      (p : Platform) → World → CommandTarget → ℕ → List (Variant p.F p.O) → Option (Call p)
  permitted_call p w t peer args = elim (w.rpc_mode t.object_id t.method) [
    | none ↦ none
    | some mode ↦
        if permits mode (w.authority_of t.object_id) peer
        then some (record { node = t.object_id; method = t.method; args = args; sender = peer })
        else none
  ]

  -- _deliver_command: the call it makes, if any. The target is a node of the tree.
  unfoldable pub deliver_command :
      (p : Platform) (blank : Field p.F)
      → Dictionaries (Variant p.F p.O)
      → World
      → Targets
      → (ℕ → Bool)
      → Option Tree
      → ℕ
      → ℕ
      → ℕ
      → List (Field p.F)
      → Targets × Option (Call p)
  deliver_command p blank dict w s alive tree now peer stream cmd =
      let found = command_target s alive tree now stream in
      let call = found.1 >>= λ t.
      command_args p blank dict t.sig.forms t.sig.names t.sig.table cmd >>= λ args.
      permitted_call p w t peer args in
      (found.0, call)
