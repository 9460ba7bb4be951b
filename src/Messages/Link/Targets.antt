-- ===== src/Messages/Link/Targets.antt =====
-- What a delivery does to the targets that the receiver keeps.
use goldnet_godot.Common.{
  ℕ, ◌≡◌, ◌⊎◌, refl, sym, ◌∙◌, ap, true, false, ◌&&◌, Bool-cases, String, some, Option-cases, List,
  HashMap, get, put, get-put, nat_eq, string_eq, ◌==◌, arith, inl, inr,
}
use goldnet_godot.Platform.{Platform, Variant}
use goldnet_godot.Messages.{MsgTarget, World, learn, find_node}
use goldnet_godot.Messages.Wire.{reach}

-- The target under an id has this path and method.
abbrev pub Holds : HashMap ℕ MsgTarget → ℕ → String → String → Type 0
Holds targets i path method =
    (t : MsgTarget) × (get targets i ≡ some t) × (t.path ≡ path) × (t.method ≡ method)

pub Holds-learn :
    (targets : HashMap ℕ MsgTarget) (i : ℕ) (path method : String)
    → Holds (learn targets i path method) i path method
unfolding learn
Holds-learn targets i path method =
    let made : MsgTarget = record { path = path; method = method; object_id = 0; warned = false } in
    elim (Option-cases (get targets i)) [
      | inl e ↦ (made, ground (arith, get-put targets i i made), refl, refl)
      | inr (t, e) ↦
          elim (Bool-cases (string_eq.beq t.path path && string_eq.beq t.method method)) [
            | inl f ↦ (
              t,
              ground arith,
              ground (arith, string_eq.beq_iff t.path path),
              ground (arith, string_eq.beq_iff t.method method),
            )
            | inr f ↦ (made, ground (arith, get-put targets i i made), refl, refl)
          ]
    ]

-- Learning a target leaves the others.
pub get-learn :
    (targets : HashMap ℕ MsgTarget) (i j : ℕ) (path method : String)
    → (i == j) ≡ false
    → get (learn targets i path method) j ≡ get targets j
unfolding learn
get-learn targets i j path method apart =
    let made : MsgTarget = record { path = path; method = method; object_id = 0; warned = false } in
    elim (Option-cases (get targets i)) [
      | inl e ↦ ground (arith, get-put targets i j made)
      | inr (t, e) ↦
          elim (Bool-cases (string_eq.beq t.path path && string_eq.beq t.method method)) [
            | inl f ↦ ground arith
            | inr f ↦ ground (arith, get-put targets i j made)
          ]
    ]

-- The same target, whatever object it was resolved to.
abbrev Renewed : MsgTarget → MsgTarget → Type 0
Renewed t u = (u.path ≡ t.path) × (u.method ≡ t.method)

Holds-put :
    (targets : HashMap ℕ MsgTarget) (i j : ℕ) (t u v : MsgTarget)
    → get targets i ≡ some t
    → Renewed t u
    → get targets j ≡ some v
    → Holds (put targets i u) j v.path v.method
Holds-put targets i j t u v e renewed f = elim (Bool-cases (i == j)) [
  | inl same ↦
      let one : t ≡ v = ground (arith, e, f, same) in
      (
        u,
        ground (arith, get-put targets i j u),
        renewed.0 ∙ ap (λ x. x.path) one,
        renewed.1 ∙ ap (λ x. x.method) one,
      )
  | inr apart ↦ (v, ground (arith, get-put targets i j u), refl, refl)
]

Holds-before :
    (targets : HashMap ℕ MsgTarget) (i j : ℕ) (t u v : MsgTarget)
    → get targets i ≡ some t
    → Renewed t u
    → get (put targets i u) j ≡ some v
    → Holds targets j v.path v.method
Holds-before targets i j t u v e renewed f = elim (Bool-cases (i == j)) [
  | inl same ↦
      let one : u ≡ v = ground (arith, get-put targets i j u) in
      (
        t,
        ground arith,
        sym renewed.0 ∙ ap (λ x. x.path) one,
        sym renewed.1 ∙ ap (λ x. x.method) one,
      )
  | inr apart ↦ (v, ground (arith, get-put targets i j u), refl, refl)
]

module _ (p : Platform) where
  reach_lem :
      (targets : HashMap ℕ MsgTarget) (w : World) (from i : ℕ) (args : List (Variant p.F p.O))
      → ((reach p targets w from i args).0 ≡ targets)
        ⊎ ((t u : MsgTarget) × (get targets i ≡ some t)
            × Renewed t u
            × ((reach p targets w from i args).0 ≡ put targets i u))
  unfolding reach
  reach_lem targets w from i args = elim (Option-cases (get targets i)) [
    | inl e ↦ inl (ground arith)
    | inr (t, e) ↦ elim (Option-cases (find_node w t)) [
      | inl f ↦ inr (t, record t { object_id = 0; warned = true }, e, (refl, refl), ground arith)
      | inr (n, f) ↦ inr (t, record t { object_id = n }, e, (refl, refl), ground arith)
    ]
  ]

  -- Reaching a target changes no path and no method.
  pub Holds-reach :
      (targets : HashMap ℕ MsgTarget) (w : World) (from i : ℕ) (args : List (Variant p.F p.O))
      (j : ℕ) (v : MsgTarget)
      → get targets j ≡ some v
      → Holds (reach p targets w from i args).0 j v.path v.method
  Holds-reach targets w from i args j v e = elim (reach_lem targets w from i args) [
    | inl same ↦ rw same (v, e, refl, refl)
    | inr (t, u, f, renewed, same) ↦ rw same (Holds-put targets i j t u v f renewed e)
  ]

  -- Reaching a target adds none.
  pub get-reach :
      (targets : HashMap ℕ MsgTarget) (w : World) (from i : ℕ) (args : List (Variant p.F p.O))
      (j : ℕ) (v : MsgTarget)
      → get (reach p targets w from i args).0 j ≡ some v
      → Holds targets j v.path v.method
  get-reach targets w from i args j v e = elim (reach_lem targets w from i args) [
    | inl same ↦ (v, rw same at e, refl, refl)
    | inr (t, u, f, renewed, same) ↦ Holds-before targets i j t u v f renewed (rw same at e)
  ]
