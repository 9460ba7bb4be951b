-- ===== src/Commands/Permission.antt =====
-- Which calls a client's command can make on the server: only those it may make.
use goldnet_godot.Common.{
  ℕ, ◌≡◌, Bool, true, Bool-cases, String, Option, some, Option-cases, List, arith, inl, inr,
}
use goldnet_godot.Platform.{Platform, Variant}
use goldnet_godot.Messages.{World, permits, Call}
use goldnet_godot.Messages.Permission.{Permitted}
use goldnet_godot.Commands.{Field, Dictionaries, command_args}
use goldnet_godot.Commands.Targets.{
  CommandTarget, Tree, Targets, command_target, permitted_call, deliver_command,
}
use goldnet_godot.Commands.Scans.{Filed, command_target-Filed}

module _ (hash : String → ℕ) (max_command_fields : ℕ) (p : Platform) (blank : Field p.F) where
  permitted_call-Permitted :
      (w : World) (t : CommandTarget) (peer : ℕ) (args : List (Variant p.F p.O)) (c : Call p)
      → permitted_call hash max_command_fields p w t peer args ≡ some c
      → Permitted p w peer c × (c.node ≡ t.object_id)
  unfolding permitted_call
  permitted_call-Permitted w t peer args c e =
      elim (Option-cases (w.rpc_mode t.object_id t.method)) [
        | inl f ↦ (let no : ⊥ = ground arith in elim no [ ])
        | inr (mode, f) ↦ elim (Bool-cases (permits mode (w.authority_of t.object_id) peer)) [
          | inl g ↦
              let back : (c.sender ≡ peer) × (c.node ≡ t.object_id) × (c.method ≡ t.method) =
                ground arith in
              ((back.0, (mode, ground arith, ground arith)), back.1)
          | inr g ↦ (let no : ⊥ = ground arith in elim no [ ])
        ]
      ]

  -- The call that a command makes comes from the client that sent it, is of an @rpc method that the
  -- node's authority lets the client call, and is made on an object that is still there.
  pub deliver_command-Permitted :
      (dict : Dictionaries (Variant p.F p.O)) (w : World) (s : Targets) (alive : ℕ → Bool)
      (tree : Option Tree) (now peer stream : ℕ) (cmd : List (Field p.F)) (c : Call p)
      → Filed s.command_targets
      → (deliver_command hash max_command_fields p blank dict w s alive tree now peer stream cmd).1
        ≡ some c
      → Permitted p w peer c × (alive c.node ≡ true)
  unfolding deliver_command
  deliver_command-Permitted dict w s alive tree now peer stream cmd c filed e =
      let found = command_target hash max_command_fields s alive tree now stream in
      elim (Option-cases found.1) [
        | inl f ↦ (let no : ⊥ = ground arith in elim no [ ])
        | inr (t, f) ↦
            elim (Option-cases
              (command_args p blank dict t.sig.forms t.sig.names t.sig.table cmd)) [
                | inl g ↦ (let no : ⊥ = ground arith in elim no [ ])
                | inr (args, g) ↦
                    let made = permitted_call-Permitted w t peer args c (ground arith) in
                    let there =
                      (command_target-Filed hash max_command_fields s alive tree now stream filed).1
                        t f in
                    (made.0, ground (arith, made.1, there.1))
              ]
      ]
