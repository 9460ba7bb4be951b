-- ===== src/Commands/Scans.antt =====
-- What the server's command targets promise: a stream finds its own target, and a client can't make
-- the server walk its tree more than once a second.
use goldnet_godot.Common.{
  ℕ, ◌+◌, ◌≡◌, sym, ◌∙◌, Bool, true, false, Bool-cases, String, Option, none, some, Option-cases,
  List, [], ◌∷◌, HashMap, get, get-put, get-empty, nat_eq, ◌==◌, if◌then◌else◌, arith, inl, inr,
}
use mathlib.Core.Option.{none-ne-some}
use goldnet_godot.Commands.Signatures.{Node, make_command_signature}
use goldnet_godot.Commands.Targets.{
  CommandTarget, Tree, node, Forest, leaf, grow, Targets, add_target, add_targets,
  scan_command_targets, scan_children, live_target, may_scan, rescan, command_target,
}

-- Every target stands under its own signature's id.
unfoldable pub Filed : HashMap ℕ CommandTarget → Type 0
Filed m = (id : ℕ) (t : CommandTarget) → get m id ≡ some t → t.sig.id ≡ id

module _ (hash : String → ℕ) (max_command_fields : ℕ) where
  add_target-Filed :
      (m : HashMap ℕ CommandTarget) (n : Node) (method : String)
      → Filed m
      → Filed (add_target hash max_command_fields m n method)
  unfolding add_target Filed
  add_target-Filed m n method filed id t e =
      let s = make_command_signature hash max_command_fields n method in
      elim (Bool-cases (s.id == 0)) [
        | inl f ↦ ground (arith, filed id t)
        | inr f ↦ ground (
          arith,
          filed id t,
          get-put m s.id id (record { object_id = n.object_id; method = method; sig = s }),
        )
      ]

  add_targets-Filed :
      (m : HashMap ℕ CommandTarget) (n : Node) (methods : List String)
      → Filed m
      → Filed (add_targets hash max_command_fields m n methods)
  unfolding add_targets
  add_targets-Filed m n [] filed = filed
  add_targets-Filed m n (method ∷ methods) filed =
      add_targets-Filed (add_target hash max_command_fields m n method) n methods
        (add_target-Filed m n method filed)

  marked-Filed :
      (m : HashMap ℕ CommandTarget) (n : Node) (o : Option (List String))
      → Filed m
      → Filed (elim o [ none ↦ m | some methods ↦ add_targets hash max_command_fields m n methods ])
  marked-Filed m n none filed = filed
  marked-Filed m n (some methods) filed = add_targets-Filed m n methods filed

  mutual
    unfolding scan_command_targets scan_children

    scan_command_targets-Filed :
        (m : HashMap ℕ CommandTarget) (t : Tree)
        → Filed m
        → Filed (scan_command_targets hash max_command_fields m t)
    scan_command_targets-Filed m (node n children) filed =
        scan_children-Filed
          (elim n.gn_commands [
            | none ↦ m
            | some methods ↦ add_targets hash max_command_fields m n methods
          ])
          children (marked-Filed m n n.gn_commands filed)

    scan_children-Filed :
        (m : HashMap ℕ CommandTarget) (ts : Forest)
        → Filed m
        → Filed (scan_children hash max_command_fields m ts)
    scan_children-Filed m leaf filed = filed
    scan_children-Filed m (grow t ts) filed =
        scan_children-Filed (scan_command_targets hash max_command_fields m t) ts
          (scan_command_targets-Filed m t filed)

  pub empty-Filed : Filed []
  unfolding Filed
  empty-Filed id t e = elim (none-ne-some t (sym (get-empty id) ∙ e)) [ ]

  rescan-Filed : (tree : Option Tree) → Filed (rescan hash max_command_fields tree)
  unfolding rescan
  rescan-Filed none = empty-Filed
  rescan-Filed (some t) = scan_command_targets-Filed [] t empty-Filed

  live_target_lem :
      (alive : ℕ → Bool) (m : HashMap ℕ CommandTarget) (stream : ℕ) (t : CommandTarget)
      → Filed m
      → live_target hash max_command_fields alive m stream ≡ some t
      → (t.sig.id ≡ stream) × (alive t.object_id ≡ true)
  unfolding live_target Filed
  live_target_lem alive m stream t filed e = elim (Option-cases (get m stream)) [
    | inl f ↦ ground arith
    | inr (u, f) ↦ elim (Bool-cases (alive u.object_id)) [
      | inl g ↦ ground (arith, filed stream u f)
      | inr g ↦ ground arith
    ]
  ]

  -- Looking up a stream keeps every target under its own signature's id, and a target that is answered
  -- has the stream's id and an object that is still there.
  pub command_target-Filed :
      (s : Targets) (alive : ℕ → Bool) (tree : Option Tree) (now stream : ℕ)
      → Filed s.command_targets
      → Filed (command_target hash max_command_fields s alive tree now stream).0.command_targets
        × ((t : CommandTarget)
            → (command_target hash max_command_fields s alive tree now stream).1 ≡ some t
            → (t.sig.id ≡ stream) × (alive t.object_id ≡ true))
  unfolding command_target
  command_target-Filed s alive tree now stream filed =
      elim (Option-cases (live_target hash max_command_fields alive s.command_targets stream)) [
        | inr (u, f) ↦
            rw (f, command_target)
              (
                filed,
                λ t e. ground (arith, live_target_lem alive s.command_targets stream u filed f),
              )
        | inl f ↦ elim (Bool-cases (may_scan hash max_command_fields s.command_scan_ms now)) [
          | inl g ↦
              rw (f, g, command_target)
                (
                  rescan-Filed tree,
                  λ t e.
                      live_target_lem alive (rescan hash max_command_fields tree) stream t
                        (rescan-Filed tree) e,
                )
          | inr g ↦ rw (f, g, command_target) (filed, λ t e. ground arith)
        ]
      ]

  -- A lookup, `gap` ms after the one before.
  pub record Lookup : Type 0 where
    pub gap : ℕ
    pub stream : ℕ
    pub alive : ℕ → Bool
    pub tree : Option Tree

  -- Whether a lookup walks the tree.
  unfoldable pub scans_now : Targets → ℕ → Lookup → Bool
  scans_now s now l =
      elim (live_target hash max_command_fields l.alive s.command_targets l.stream) [
        | some _ ↦ false
        | none ↦ may_scan hash max_command_fields s.command_scan_ms now
      ]

  -- The walks of the tree that a run of lookups makes, the time being `now` before it.
  unfoldable pub scans : Targets → ℕ → List Lookup → ℕ
  scans s now [] = 0
  scans s now (l ∷ ls) =
      let next =
        (command_target hash max_command_fields s l.alive l.tree (now + l.gap) l.stream).0 in
      let rest = scans next (now + l.gap) ls in
      (if scans_now s (now + l.gap) l then 1 else 0) + rest

  unfoldable pub elapsed : List Lookup → ℕ
  elapsed [] = 0
  elapsed (l ∷ ls) = l.gap + elapsed ls
