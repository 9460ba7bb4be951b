-- ===== src/Commands/Finding.antt =====
-- Finding a command's method, in src/goldnet_multiplayer.cpp: what the walk of _scan_command_targets
-- registers over a whole tree, and the target that _command_target then has.
use goldnet_godot.Common.{
  ℕ, ◌≡◌, ◌≢◌, ◌⊎◌, ap, sym, ◌∙◌, Bool, true, Bool-cases, inl, inr, ◌==◌, String, Option, none,
  some, Option-cases, List, [], ◌∷◌, any, HashMap, get, get-put, nat_eq, string_eq, arith,
}
use mathlib.Core.Path.{subst}
use goldnet_godot.Commands.Signatures.{Node, CommandSignature, make_command_signature, marks}
use goldnet_godot.Commands.Targets.{
  CommandTarget, Tree, node, Forest, leaf, grow, Targets, add_target, add_targets,
  scan_command_targets, scan_children, live_target, may_scan, rescan, command_target,
}

module _ (hash : String → ℕ) (max_command_fields : ℕ) where
  abbrev pub signature : Node → String → CommandSignature
  signature = make_command_signature hash max_command_fields

  -- The target that a node's method is.
  abbrev pub target_of : Node → String → CommandTarget
  target_of n method = record { object_id = n.object_id; method = method; sig = signature n method }

  -- Of the methods, those whose stream has this id are this target.
  abbrev pub OnlyIn : ℕ → CommandTarget → Node → List String → Type 0
  OnlyIn id t n [] = Unit
  OnlyIn id t n (method ∷ methods) =
      ((signature n method).id ≡ id → target_of n method ≡ t) × OnlyIn id t n methods

  abbrev pub OnlyMarked : ℕ → CommandTarget → Node → Option (List String) → Type 0
  OnlyMarked id t n none = Unit
  OnlyMarked id t n (some methods) = OnlyIn id t n methods

  -- No other stream of the tree has the target's id.
  abbrev mutual
    pub Only : ℕ → CommandTarget → Tree → Type 0
    Only id t (node n children) = OnlyMarked id t n n.gn_commands × OnlyAll id t children

    pub OnlyAll : ℕ → CommandTarget → Forest → Type 0
    OnlyAll id t leaf = Unit
    OnlyAll id t (grow b bs) = Only id t b × OnlyAll id t bs

  -- The tree has a node that marks the method and whose target this is.
  abbrev mutual
    pub Has : CommandTarget → Tree → Type 0
    Has t (node n children) =
        ((marks hash max_command_fields n t.method ≡ true) × (target_of n t.method ≡ t))
        ⊎ HasAll t children

    pub HasAll : CommandTarget → Forest → Type 0
    HasAll t leaf = ⊥
    HasAll t (grow b bs) = Has t b ⊎ HasAll t bs

  add_target-keeps :
      (m : HashMap ℕ CommandTarget) (n : Node) (method : String) (id : ℕ) (t : CommandTarget)
      → ((signature n method).id ≡ id → target_of n method ≡ t)
      → get m id ≡ some t
      → get (add_target hash max_command_fields m n method) id ≡ some t
  unfolding add_target
  add_target-keeps m n method id t only e =
      let s = signature n method in
      elim (Bool-cases (s.id == 0)) [
        | inl z ↦ ground (arith, z, e)
        | inr nz ↦ elim (Bool-cases (s.id == id)) [
          | inl same ↦
              let t_is = only (ground (arith, same)) in
              ground (arith, nz, same, get-put m s.id id (target_of n method), t_is)
          | inr other ↦ ground (arith, nz, other, e, get-put m s.id id (target_of n method))
        ]
      ]

  add_target-finds :
      (m : HashMap ℕ CommandTarget) (n : Node) (method : String)
      → (signature n method).id ≢ 0
      → get (add_target hash max_command_fields m n method) (signature n method).id
        ≡ some (target_of n method)
  unfolding add_target
  add_target-finds m n method nz =
      let s = signature n method in ground (arith, nz, get-put m s.id s.id (target_of n method))

  add_targets-keeps :
      (m : HashMap ℕ CommandTarget) (n : Node) (methods : List String) (id : ℕ) (t : CommandTarget)
      → OnlyIn id t n methods
      → get m id ≡ some t
      → get (add_targets hash max_command_fields m n methods) id ≡ some t
  unfolding add_targets
  add_targets-keeps m n [] id t only e = e
  add_targets-keeps m n (method ∷ methods) id t (here, only) e =
      add_targets-keeps (add_target hash max_command_fields m n method) n methods id t only
        (add_target-keeps m n method id t here e)

  add_targets-finds :
      (m : HashMap ℕ CommandTarget) (n : Node) (methods : List String) (t : CommandTarget)
      → OnlyIn t.sig.id t n methods
      → t.sig.id ≢ 0
      → any (string_eq.beq t.method) methods ≡ true
      → target_of n t.method ≡ t
      → get (add_targets hash max_command_fields m n methods) t.sig.id ≡ some t
  unfolding add_targets
  add_targets-finds m n [] t only nz h e = (let no : ⊥ = ground (arith, h) in elim no [ ])
  add_targets-finds m n (method ∷ methods) t (here, only) nz h e =
      let m1 = add_target hash max_command_fields m n method in
      elim (Bool-cases (string_eq.beq t.method method)) [
        | inl same ↦
            let at : t.method ≡ method = ground (arith, same, string_eq.beq_iff t.method method) in
            let made : target_of n method ≡ t = ap (target_of n) (sym at) ∙ e in
            let id_is : (signature n method).id ≡ t.sig.id =
              ap (λ (x : CommandTarget). x.sig.id) made in
            add_targets-keeps m1 n methods t.sig.id t only (
              ap (get m1) (sym id_is)
              ∙ add_target-finds m n method (λ z. nz (sym id_is ∙ z))
              ∙ ap some made)
        | inr other ↦ add_targets-finds m1 n methods t only nz (ground (arith, h, other)) e
      ]

  mutual
    unfolding scan_command_targets scan_children

    scan-keeps :
        (m : HashMap ℕ CommandTarget) (b : Tree) (id : ℕ) (t : CommandTarget)
        → Only id t b
        → get m id ≡ some t
        → get (scan_command_targets hash max_command_fields m b) id ≡ some t
    scan-keeps m (node n children) id t (here, below) e = elim (Option-cases n.gn_commands) [
      | inl f ↦ rw f (scan_children-keeps m children id t below e)
      | inr (methods, f) ↦
          let only : OnlyIn id t n methods = subst (OnlyMarked id t n) f here in
          rw f (
            scan_children-keeps (add_targets hash max_command_fields m n methods) children id t
              below (add_targets-keeps m n methods id t only e))
    ]

    scan_children-keeps :
        (m : HashMap ℕ CommandTarget) (bs : Forest) (id : ℕ) (t : CommandTarget)
        → OnlyAll id t bs
        → get m id ≡ some t
        → get (scan_children hash max_command_fields m bs) id ≡ some t
    scan_children-keeps m leaf id t only e = e
    scan_children-keeps m (grow b bs) id t (here, only) e =
        scan_children-keeps (scan_command_targets hash max_command_fields m b) bs id t only
          (scan-keeps m b id t here e)

  mutual
    unfolding scan_command_targets scan_children marks

    scan-finds :
        (m : HashMap ℕ CommandTarget) (b : Tree) (t : CommandTarget)
        → Only t.sig.id t b
        → t.sig.id ≢ 0
        → Has t b
        → get (scan_command_targets hash max_command_fields m b) t.sig.id ≡ some t
    scan-finds m (node n children) t (here, below) nz (inl (marked, made)) =
        elim (Option-cases n.gn_commands) [
          | inl f ↦ (let no : ⊥ = ground (arith, marked, f) in elim no [ ])
          | inr (methods, f) ↦
              let only : OnlyIn t.sig.id t n methods = subst (OnlyMarked t.sig.id t n) f here in
              let found =
                add_targets-finds m n methods t only nz (ground (arith, marked, f)) made in
              rw f (
                scan_children-keeps (add_targets hash max_command_fields m n methods) children
                  t.sig.id t below found)
        ]
    scan-finds m (node n children) t (here, below) nz (inr under) =
        elim (Option-cases n.gn_commands) [
          | inl f ↦ rw f (scan_children-finds m children t below nz under)
          | inr (methods, f) ↦ rw f (
              scan_children-finds (add_targets hash max_command_fields m n methods) children t below
                nz under)
        ]

    scan_children-finds :
        (m : HashMap ℕ CommandTarget) (bs : Forest) (t : CommandTarget)
        → OnlyAll t.sig.id t bs
        → t.sig.id ≢ 0
        → HasAll t bs
        → get (scan_children hash max_command_fields m bs) t.sig.id ≡ some t
    scan_children-finds m leaf t only nz h = (let no : ⊥ = h in elim no [ ])
    scan_children-finds m (grow b bs) t (here, only) nz (inl at) =
        scan_children-keeps (scan_command_targets hash max_command_fields m b) bs t.sig.id t only
          (scan-finds m b t here nz at)
    scan_children-finds m (grow b bs) t (here, only) nz (inr later) =
        scan_children-finds (scan_command_targets hash max_command_fields m b) bs t only nz later

  live_target_found :
      (alive : ℕ → Bool) (m : HashMap ℕ CommandTarget) (stream : ℕ) (t : CommandTarget)
      → get m stream ≡ some t
      → alive t.object_id ≡ true
      → live_target hash max_command_fields alive m stream ≡ some t
  unfolding live_target
  live_target_found alive m stream t e there = ground (arith, e, there)

  -- A stream's target is found: it is there already, or it is not and the tree may be walked.
  pub command_target-finds :
      (s : Targets) (alive : ℕ → Bool) (b : Tree) (now : ℕ) (t : CommandTarget)
      → live_target hash max_command_fields alive s.command_targets t.sig.id ≡ none
      → may_scan hash max_command_fields s.command_scan_ms now ≡ true
      → Only t.sig.id t b
      → t.sig.id ≢ 0
      → Has t b
      → alive t.object_id ≡ true
      → (command_target hash max_command_fields s alive (some b) now t.sig.id).1 ≡ some t
  unfolding command_target rescan
  command_target-finds s alive b now t missing may only nz has_it there =
      let found = scan-finds [] b t only nz has_it in
      rw (missing, may, command_target)
        (live_target_found alive (rescan hash max_command_fields (some b)) t.sig.id t found there)
