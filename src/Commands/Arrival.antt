-- ===== src/Commands/Arrival.antt =====
-- A client's command from the call to the method, in src/goldnet_multiplayer.cpp: the stream ids that both
-- ends make, the server's scan of its tree, and the delivery.
use goldnet_godot.Common.{
  ◌⊎◌, inl, inr, ℕ, ◌≡◌, ◌≢◌, refl, ap, sym, ◌∙◌, Bool, true, false, String, Option, none, some,
  List, nat_eq, string_eq, arith,
}
use mathlib.Core.Path.{subst}
use goldnet_godot.Platform.{Platform, Variant}
use goldnet_godot.Messages.{World, RpcMode, permits}
use goldnet_godot.Commands.{Field, Dictionaries, command_from_args, command_args}
use goldnet_godot.Commands.Signatures.{
  Node, CommandSignature, make_command_signature, command_signature, signature_text,
}
use goldnet_godot.Commands.Targets.{
  CommandTarget, Tree, Targets, live_target, may_scan, command_target, permitted_call,
  deliver_command,
}
use goldnet_godot.Commands.RoundTrip.{FieldsFit, received_all, command_args-command_from_args}
use goldnet_godot.Commands.Finding.{signature, target_of, Only, Has, command_target-finds}

module _ (hash : String → ℕ) (max_command_fields : ℕ) where
  -- Two nodes that are alike but for their objects: a client's and the server's of the same path.
  pub record Alike (n m : Node) : Type 0 where
    pub paths : m.path ≡ n.path
    pub fields : m.gn_command_fields ≡ n.gn_command_fields
    pub methods : m.methods ≡ n.methods

  Alike-signature :
      (n m : Node) (method : String)
      → Alike n m
      → signature hash max_command_fields m method ≡ signature hash max_command_fields n method
  unfolding make_command_signature command_signature signature_text
  Alike-signature n m method a = rw (a.paths, a.fields, a.methods) refl

  -- The server has the stream's target, or has none and finds it by a walk that it may make.
  abbrev pub Findable : Targets → (ℕ → Bool) → Tree → ℕ → ℕ → CommandTarget → Type 0
  Findable s alive b now id t =
      (live_target hash max_command_fields alive s.command_targets id ≡ some t)
      ⊎ ((live_target hash max_command_fields alive s.command_targets id ≡ none)
          × (may_scan hash max_command_fields s.command_scan_ms now ≡ true)
          × Only hash max_command_fields id t b
          × Has hash max_command_fields t b
          × (alive t.object_id ≡ true))

  command_target_found :
      (s : Targets) (alive : ℕ → Bool) (b : Tree) (now id : ℕ) (t : CommandTarget)
      → t.sig.id ≡ id
      → id ≢ 0
      → Findable s alive b now id t
      → (command_target hash max_command_fields s alive (some b) now id).1 ≡ some t
  unfolding command_target
  command_target_found s alive b now id t id_is nz (inl there) = rw (there, command_target) refl
  command_target_found s alive b now id t id_is nz (inr (missing, may, only, has_it, there)) =
      subst (λ i. (command_target hash max_command_fields s alive (some b) now i).1 ≡ some t) id_is
        (command_target-finds hash max_command_fields s alive b now t
          (ap (live_target hash max_command_fields alive s.command_targets) id_is ∙ missing) may
          (subst (λ i. Only hash max_command_fields i t b) (sym id_is) only)
          (λ z. nz (sym id_is ∙ z)) has_it there)

module _ (hash : String → ℕ) (max_command_fields : ℕ) (p : Platform) (blank : Field p.F) where
  deliver_command_makes :
      (dict : Dictionaries (Variant p.F p.O)) (w : World) (s : Targets) (alive : ℕ → Bool)
      (tree : Option Tree) (now peer stream : ℕ) (cmd : List (Field p.F)) (mode : RpcMode)
      (t : CommandTarget) (args : List (Variant p.F p.O))
      → (command_target hash max_command_fields s alive tree now stream).1 ≡ some t
      → command_args p blank dict t.sig.forms t.sig.names t.sig.table cmd ≡ some args
      → w.rpc_mode t.object_id t.method ≡ some mode
      → permits mode (w.authority_of t.object_id) peer ≡ true
      → (deliver_command hash max_command_fields p blank dict w s alive tree now peer stream cmd).1
        ≡ some (record { node = t.object_id; method = t.method; args = args; sender = peer })
  unfolding deliver_command
  deliver_command_makes dict w s alive tree now peer stream cmd mode t args found taken an_rpc
        allowed =
      rw (found, deliver_command)
        (rw (taken) (unfold permitted_call in ground (arith, an_rpc, allowed)))

  -- A client's call of an @rpc method with no field table, taken as a command, is made on the server, on
  -- the node of the same path and declarations, by that client, with the arguments as their declared
  -- types leave them. The server has the method's target already; or it has none for the stream, and it
  -- may walk its tree (a second has passed since the last walk), the node is there and marks the method,
  -- and no other stream of the tree has the id. The method's mode lets the client call it.
  pub deliver_command-command_from_args :
      (dict : Dictionaries (Variant p.F p.O)) (w : World) (s : Targets) (alive : ℕ → Bool)
      (b : Tree) (now peer : ℕ) (client server : Node) (method : String)
      (args : List (Variant p.F p.O)) (cmd : List (Field p.F)) (mode : RpcMode)
      → let sig = make_command_signature hash max_command_fields client method in
        let t = target_of hash max_command_fields server method in
        Alike hash max_command_fields client server
        → sig.table ≡ false
        → sig.id ≢ 0
        → FieldsFit p blank sig.forms args
        → command_from_args p blank dict sig.forms sig.names sig.table args ≡ some cmd
        → Findable hash max_command_fields s alive b now sig.id t
        → w.rpc_mode server.object_id method ≡ some mode
        → permits mode (w.authority_of server.object_id) peer ≡ true
        → (deliver_command hash max_command_fields p blank dict w s alive
            (some b)
            now
            peer
            sig.id
            cmd).1
          ≡ some (record {
            node = server.object_id;
            method = method;
            args = received_all p blank sig.forms args;
            sender = peer;
          })
  deliver_command-command_from_args dict w s alive b now peer client server method args cmd mode
        alike plain nz fits taken findable an_rpc allowed =
      let sig = make_command_signature hash max_command_fields client method in
      let t = target_of hash max_command_fields server method in
      let same = Alike-signature hash max_command_fields client server method alike in
      let id_is : t.sig.id ≡ sig.id = ap (λ (x : CommandSignature). x.id) same in
      let at =
        command_target_found hash max_command_fields s alive b now sig.id t id_is nz findable in
      let table_is =
        λ (q : Bool). command_from_args p blank dict sig.forms sig.names q args ≡ some cmd in
      let arrives =
        command_args-command_from_args p blank dict sig.forms sig.names args cmd fits
          (subst table_is plain taken) in
      let read : command_args p blank dict sig.forms sig.names sig.table cmd
          ≡ some (received_all p blank sig.forms args) =
        ap (λ (q : Bool). command_args p blank dict sig.forms sig.names q cmd) plain ∙ arrives in
      deliver_command_makes dict w s alive (some b) now peer sig.id cmd mode t
        (received_all p blank sig.forms args) at
        (ap (λ (x : CommandSignature). command_args p blank dict x.forms x.names x.table cmd) same
          ∙ read)
        an_rpc allowed
