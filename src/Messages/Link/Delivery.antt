-- ===== src/Messages/Link/Delivery.antt =====
-- A delivery keeps what holds between the two ends of a link.
use goldnet_godot.Common.{
  ℕ, ◌+◌, ◌≡◌, sym, ap, ◌∙◌, Bool, true, false, Bool-cases, String, some, List, get_elem?, HashMap,
  get, nat_eq, string_eq, ◌==◌, if◌then◌else◌, arith, inl, inr,
}
use mathlib.Core.Path.{subst}
use goldnet_godot.Platform.{Platform, Variant}
use goldnet_godot.Messages.{MsgTarget, World, learn, deliver_to}
use goldnet_godot.Messages.Wire.{
  Sendable, Nameable, reach, deliver_to-put_registration, deliver_to-put_call,
}
use goldnet_godot.Messages.Link.{Naming, Wire, registration, call, encode}
use goldnet_godot.Messages.Link.Targets.{Holds, Holds-learn, get-learn, Holds-reach, get-reach}
use goldnet_godot.Messages.Link.Invariant.{Bound, Fine, Inv, get_elem?-lt, Fine-weaken}

-- Every id that names a target in one table does so in another.
abbrev pub Kept : HashMap ℕ MsgTarget → HashMap ℕ MsgTarget → Type 0
Kept targets targets' =
    (i : ℕ) (t : MsgTarget) → get targets i ≡ some t → (u : MsgTarget) × (get targets' i ≡ some u)

Kept-learn :
    (targets : HashMap ℕ MsgTarget) (i : ℕ) (path method : String)
    → Kept targets (learn targets i path method)
Kept-learn targets i path method j t e = elim (Bool-cases (i == j)) [
  | inl same ↦
      let one : i ≡ j = ground (arith, same) in
      let (u, f, _, _) = Holds-learn targets i path method in
      subst (λ q. (u : MsgTarget) × (get (learn targets i path method) q ≡ some u)) one (u, f)
  | inr differ ↦ (t, get-learn targets i j path method differ ∙ e)
]

module _ (p : Platform) (n : Naming p) where
  open p use {F, O, utf8}

  abbrev pub Sound : HashMap String ℕ → HashMap ℕ MsgTarget → Type 0
  Sound ids targets =
      (i : ℕ) (t : MsgTarget) → get targets i ≡ some t → Bound p n ids i t.path t.method

  Sound-Holds :
      (ids : HashMap String ℕ) (targets : HashMap ℕ MsgTarget) (i : ℕ) (path method : String)
      → Sound ids targets
      → Holds targets i path method
      → Bound p n ids i path method
  Sound-Holds ids targets i path method sound (t, e, f, g) =
      subst (λ a. Bound p n ids i a method) f (subst (Bound p n ids i t.path) g (sound i t e))

  Bound-Holds :
      (ids : HashMap String ℕ) (i j : ℕ) (path method path' method' : String)
      → i ≡ j
      → path ≡ path'
      → method ≡ method'
      → Bound p n ids i path method
      → Bound p n ids j path' method'
  Bound-Holds ids i j path method path' method' a b c bound =
      subst (λ k. Bound p n ids k path' method') a
        (subst (λ y. Bound p n ids i y method') b (subst (Bound p n ids i path) c bound))

  Sound-learn :
      (ids : HashMap String ℕ) (targets : HashMap ℕ MsgTarget) (i : ℕ) (path method : String)
      → Bound p n ids i path method
      → Sound ids targets
      → Sound ids (learn targets i path method)
  Sound-learn ids targets i path method bound sound j t e = elim (Bool-cases (i == j)) [
    | inl same ↦
        let one : i ≡ j = ground (arith, same) in
        let (u, f, g, h) = Holds-learn targets i path method in
        let known : u ≡ t = ground (arith, e, f, one) in
        Bound-Holds ids i j path method t.path t.method one (sym g ∙ ap (λ x. x.path) known)
          (sym h ∙ ap (λ x. x.method) known) bound
    | inr differ ↦ sound j t (sym (get-learn targets i j path method differ) ∙ e)
  ]

  Sound-reach :
      (ids : HashMap String ℕ) (targets : HashMap ℕ MsgTarget) (w : World) (from i : ℕ)
      (args : List (Variant F O))
      → Sound ids targets
      → Sound ids (reach p targets w from i args).0
  Sound-reach ids targets w from i args sound j t e =
      Sound-Holds ids targets j t.path t.method sound (get-reach p targets w from i args j t e)

  -- What a delivery does to the receiver's targets.
  abbrev pub after : HashMap ℕ MsgTarget → World → ℕ → Wire p → HashMap ℕ MsgTarget
  after targets w from m = (deliver_to p targets w from (encode p m)).0

  pub Nameable-Bound :
      (ids : HashMap String ℕ) (i : ℕ) (path method : String)
      → Bound p n ids i path method
      → Nameable p i path method
  Nameable-Bound ids i path method (named, e, pos, lt) =
      let (a, b) = n.fits path method named in (pos, lt, a, b)

  Kept-reach :
      (targets : HashMap ℕ MsgTarget) (w : World) (from i : ℕ) (args : List (Variant F O))
      → Kept targets (reach p targets w from i args).0
  Kept-reach targets w from i args j t e =
      let (u, f, _, _) = Holds-reach p targets w from i args j t e in (u, f)

  -- What a delivery makes of the targets: what it learns of a registration, and then reaches.
  after-registration :
      (targets : HashMap ℕ MsgTarget) (w : World) (from i : ℕ) (path method : String)
      → Nameable p i path method
      → after targets w from (registration i path method) ≡ learn targets i path method
  after-registration targets w from i path method h =
      ap (λ x. x.0) (deliver_to-put_registration p targets w from i path method h)

  after-call :
      (targets : HashMap ℕ MsgTarget) (w : World) (from i : ℕ) (path method : String)
      (args : List (Variant F O)) (short : Bool)
      → Nameable p i path method
      → Sendable p args
      → after targets w from (call short i path method args)
        ≡ (reach p (if short then targets else learn targets i path method) w from i args).0
  after-call targets w from i path method args short h hs =
      ap (λ x. x.0) (deliver_to-put_call p targets w from i path method args short h hs)

  abbrev Good : HashMap String ℕ → HashMap ℕ MsgTarget → HashMap ℕ MsgTarget → Type 0
  Good ids targets targets' = Sound ids targets' × Kept targets targets'

  -- A delivery keeps the targets sound and forgets none.
  pub after-Sound :
      (ids : HashMap String ℕ) (r : HashMap ℕ ℕ) (had : ℕ) (targets : HashMap ℕ MsgTarget)
      (w : World) (from : ℕ) (m : Wire p)
      → Fine p n ids r had m
      → Sound ids targets
      → Sound ids (after targets w from m) × Kept targets (after targets w from m)
  after-Sound ids r had targets w from (registration i path method) bound sound =
      subst (Good ids targets)
        (sym (
          after-registration targets w from i path method (Nameable-Bound ids i path method bound)))
        (Sound-learn ids targets i path method bound sound, Kept-learn targets i path method)
  after-Sound ids r had targets w from (call true i path method args) (bound, sendable, _) sound =
      subst (Good ids targets)
        (sym (
          after-call targets w from i path method args true (Nameable-Bound ids i path method bound)
            sendable))
        (Sound-reach ids targets w from i args sound, Kept-reach targets w from i args)
  after-Sound ids r had targets w from (call false i path method args) (bound, sendable, _) sound =
      let learned = learn targets i path method in
      subst (Good ids targets)
        (sym (
          after-call targets w from i path method args false
            (Nameable-Bound ids i path method bound) sendable))
        (
          Sound-reach ids learned w from i args (Sound-learn ids targets i path method bound sound),
          λ j t e.
              let (u, f) = Kept-learn targets i path method j t e in
              Kept-reach learned w from i args j u f,
        )

  -- The registration next on the stream leaves a target under its id.
  after_registration-Holds :
      (ids : HashMap String ℕ) (targets : HashMap ℕ MsgTarget) (w : World) (from i : ℕ)
      (path method : String)
      → Bound p n ids i path method
      → (t : MsgTarget) × (get (after targets w from (registration i path method)) i ≡ some t)
  after_registration-Holds ids targets w from i path method bound =
      subst (λ ts. (t : MsgTarget) × (get ts i ≡ some t))
        (sym (
          after-registration targets w from i path method (Nameable-Bound ids i path method bound)))
        (let (t, e, _, _) = Holds-learn targets i path method in (t, e))

  module _ (ids : HashMap String ℕ) (next : ℕ) (r : HashMap ℕ ℕ) (stream flying : List (Wire p))
      (delivered : ℕ) (targets : HashMap ℕ MsgTarget)
      (inv : Inv p n ids next r stream flying delivered targets) where
    open inv use {positive, small, named, apart, noted, streams, flies, progress, sound, complete}

    pub Inv-arrive :
        (w : World) (from k : ℕ) (m : Wire p)
        → get_elem? flying k ≡ some m
        → Inv p n ids next r stream flying delivered (after targets w from m)
    Inv-arrive w from k m e =
        let done = after-Sound ids r delivered targets w from m (flies k m e) sound in
        record {
          positive = positive;
          small = small;
          named = named;
          apart = apart;
          noted = noted;
          streams = streams;
          flies = flies;
          progress = progress;
          sound = done.0;
          complete = λ i at f lt. let (t, g) = complete i at f lt in done.1 i t g;
        }

    pub Inv-deliver :
        (w : World) (from : ℕ) (m : Wire p)
        → get_elem? stream delivered ≡ some m
        → Inv p n ids next r stream flying (delivered + 1) (after targets w from m)
    Inv-deliver w from m e =
        let done = after-Sound ids r delivered targets w from m (streams delivered m e) sound in
        record {
          positive = positive;
          small = small;
          named = named;
          apart = apart;
          noted = noted;
          streams = streams;
          flies = λ k u f.
              Fine-weaken p n ids ids r r delivered (delivered + 1) u (λ _ _ g. g) (λ _ _ g. g)
                (omega arith) (flies k u f);
          progress = omega (arith, get_elem?-lt stream delivered m e);
          sound = done.0;
          complete = λ i at f lt. elim (Bool-cases (at == delivered)) [
            | inr before ↦ let (t, g) = complete i at f (ground (arith, before, lt)) in done.1 i t g
            | inl now ↦
                let (path, method, bound, at_stream) = noted i at f in
                let here : registration i path method ≡ m = ground (arith, now, at_stream, e) in
                subst (λ u. (t : MsgTarget) × (get (after targets w from u) i ≡ some t)) here
                  (after_registration-Holds ids targets w from i path method bound)
          ];
        }
