-- ===== src/Messages/Link/Invariant.antt =====
-- What holds between the two ends of a link, and that naming, registering, sending and delivering keep
-- it.
use goldnet_godot.Common.{
  ℕ, zero, suc, ◌+◌, ◌^◌, ◌≤◌, ◌<◌, ◌≡◌, ◌⊎◌, refl, sym, true, Bool-cases, String, none, some, List,
  [], ◌∷◌, ◌++◌, length, length-append, get_elem?, HashMap, get, put, get-put, nat_eq, string_eq,
  ◌==◌, arith, inl, inr,
}
use mathlib.Core.Path.{subst}
use goldnet_godot.Platform.{Platform}
use goldnet_godot.Messages.{key, MsgTarget}
use goldnet_godot.Messages.Wire.{Sendable}
use goldnet_godot.Messages.Link.{Naming, Wire, registration, call}

get_elem?-before :
    {A : Type 0} (xs ys : List A) (k : ℕ) (x : A)
    → get_elem? xs k ≡ some x
    → get_elem? (xs ++ ys) k ≡ some x
get_elem?-before [] ys k x e = ground arith
get_elem?-before (y ∷ xs) ys zero x e = e
get_elem?-before (y ∷ xs) ys (suc k) x e = get_elem?-before xs ys k x e

-- An element of a list with one more at its end.
get_elem?-last :
    {A : Type 0} (xs : List A) (y : A) (k : ℕ) (x : A)
    → get_elem? (xs ++ y ∷ []) k ≡ some x
    → (get_elem? xs k ≡ some x) ⊎ ((k ≡ length xs) × (y ≡ x))
get_elem?-last [] y zero x e = inr (refl, ground arith)
get_elem?-last [] y (suc k) x e = ground arith
get_elem?-last (z ∷ xs) y zero x e = inl e
get_elem?-last (z ∷ xs) y (suc k) x e = elim (get_elem?-last xs y k x e) [
  | inl f ↦ inl f
  | inr (f, g) ↦ inr (omega (arith, f), g)
]

get_elem?-at : {A : Type 0} (xs : List A) (y : A) → get_elem? (xs ++ y ∷ []) (length xs) ≡ some y
get_elem?-at [] y = refl
get_elem?-at (x ∷ xs) y = get_elem?-at xs y

pub get_elem?-lt :
    {A : Type 0} (xs : List A) (k : ℕ) (x : A) → get_elem? xs k ≡ some x → k < length xs
get_elem?-lt [] k x e = ground arith
get_elem?-lt (y ∷ xs) zero x e = omega arith
get_elem?-lt (y ∷ xs) (suc k) x e = omega (arith, get_elem?-lt xs k x e)

module _ (p : Platform) (n : Naming p) where
  open p use {F, O, utf8}

  -- An id is the sender's for a path and a method.
  abbrev pub Bound : HashMap String ℕ → ℕ → String → String → Type 0
  Bound ids i path method =
      n.Named path method × (get ids (key path method) ≡ some i) × (0 < i) × (i < 2 ^ 32)

  -- A message that the receiver can take once it has had so much of the stream: its id is the sender's
  -- for its target, and a call by id alone comes behind the registration.
  abbrev pub Fine : HashMap String ℕ → HashMap ℕ ℕ → ℕ → Wire p → Type 0
  Fine ids r had (registration i path method) = Bound ids i path method
  Fine ids r had (call short i path method args) =
      Bound ids i path method
      × Sendable p args
      × (short ≡ true → (at : ℕ) × (get r i ≡ some at) × (at < had))

  pub record Inv (ids : HashMap String ℕ) (next : ℕ) (r : HashMap ℕ ℕ)
      (stream flying : List (Wire p)) (delivered : ℕ) (targets : HashMap ℕ MsgTarget) : Type 0 where
    pub positive : 0 < next
    pub small : next < 2 ^ 32
    pub named : (k : String) (i : ℕ) → get ids k ≡ some i → (0 < i) × (i < next)
    pub apart : (j k : String) (i : ℕ) → get ids j ≡ some i → get ids k ≡ some i → j ≡ k
    pub noted :
        (i at : ℕ)
        → get r i ≡ some at
        → (path : String) × (method : String) × Bound ids i path method
          × (get_elem? stream at ≡ some (registration i path method))
    pub streams : (k : ℕ) (m : Wire p) → get_elem? stream k ≡ some m → Fine ids r k m
    pub flies : (k : ℕ) (m : Wire p) → get_elem? flying k ≡ some m → Fine ids r delivered m
    pub progress : delivered ≤ length stream
    pub sound : (i : ℕ) (t : MsgTarget) → get targets i ≡ some t → Bound ids i t.path t.method
    pub complete :
        (i at : ℕ) → get r i ≡ some at → at < delivered → (t : MsgTarget) × (get targets i ≡ some t)

  Bound-weaken :
      (ids ids' : HashMap String ℕ) (i : ℕ) (path method : String)
      → ((k : String) (j : ℕ) → get ids k ≡ some j → get ids' k ≡ some j)
      → Bound ids i path method
      → Bound ids' i path method
  Bound-weaken ids ids' i path method more (named, e, pos, lt) =
      (named, more (key path method) i e, pos, lt)

  pub Fine-weaken :
      (ids ids' : HashMap String ℕ) (r r' : HashMap ℕ ℕ) (had had' : ℕ) (m : Wire p)
      → ((k : String) (j : ℕ) → get ids k ≡ some j → get ids' k ≡ some j)
      → ((j at : ℕ) → get r j ≡ some at → get r' j ≡ some at)
      → had ≤ had'
      → Fine ids r had m
      → Fine ids' r' had' m
  Fine-weaken ids ids' r r' had had' (registration i path method) more_ids more later fine =
      Bound-weaken ids ids' i path method more_ids fine
  Fine-weaken ids ids' r r' had had' (call short i path method args) more_ids more later
        (bound, sendable, known) =
      (
        Bound-weaken ids ids' i path method more_ids bound,
        sendable,
        λ e. let (at, f, lt) = known e in (at, more i at f, omega (arith, lt, later)),
      )

  module _ (ids : HashMap String ℕ) (next : ℕ) (r : HashMap ℕ ℕ) (stream flying : List (Wire p))
      (delivered : ℕ) (targets : HashMap ℕ MsgTarget)
      (inv : Inv ids next r stream flying delivered targets) where
    open inv use {positive, small, named, apart, noted, streams, flies, progress, sound, complete}

    kept_named :
        (k : String)
        → get ids k ≡ none
        → (j : String) (i : ℕ) → get ids j ≡ some i
        → get (put ids k next) j ≡ some i
    kept_named k new j i e = ground (arith, new, e, get-put ids k j next, string_eq.beq_iff k j)

    kept_registered :
        (i at : ℕ)
        → get r i ≡ none
        → (j old : ℕ) → get r j ≡ some old
        → get (put r i at) j ≡ some old
    kept_registered i at new j old e = ground (arith, new, e, get-put r i j at)

    registered_now :
        (i j at : ℕ)
        → (i == j) ≡ true
        → get (put r i (length stream)) j ≡ some at
        → (i ≡ j) × (at ≡ length stream)
    registered_now i j at same e = ground (arith, same, e, get-put r i j (length stream))

    -- Giving an id to a target that had none.
    pub Inv-name :
        (k : String)
        → get ids k ≡ none
        → next + 1 < 2 ^ 32
        → Inv (put ids k next) (next + 1) r stream flying delivered targets
    Inv-name k new room =
        let ids' = put ids k next in
        let more = kept_named k new in
        record {
          positive = omega arith;
          small = room;
          named = λ j i e. elim (Bool-cases (string_eq.beq k j)) [
            | inl same ↦ ground (arith, positive, e, get-put ids k j next)
            | inr differ ↦ ground (arith, e, get-put ids k j next, named j i)
          ];
          apart = λ j l i e f. ground (
            arith,
            e,
            f,
            get-put ids k j next,
            get-put ids k l next,
            named j i,
            named l i,
            apart j l i,
            string_eq.beq_iff k j,
            string_eq.beq_iff k l,
          );
          noted = λ i at e.
              let (path, method, bound, at_stream) = noted i at e in
              (path, method, Bound-weaken ids ids' i path method more bound, at_stream);
          streams = λ j m e.
              Fine-weaken ids ids' r r j j m more (λ _ _ f. f) (omega arith) (streams j m e);
          flies = λ j m e.
              Fine-weaken ids ids' r r delivered delivered m more (λ _ _ f. f) (omega arith)
                (flies j m e);
          progress = progress;
          sound = λ i t e. Bound-weaken ids ids' i t.path t.method more (sound i t e);
          complete = complete;
        }

    -- Registering an id puts its registration at the end of the stream.
    pub Inv-register :
        (i : ℕ) (path method : String)
        → Bound ids i path method
        → get r i ≡ none
        → Inv ids next
            (put r i (length stream))
            (stream ++ registration i path method ∷ [])
            flying
            delivered
            targets
    Inv-register i path method bound new =
        let r' = put r i (length stream) in
        let m = registration i path method in
        let more = kept_registered i (length stream) new in
        record {
          positive = positive;
          small = small;
          named = named;
          apart = apart;
          noted = λ j at e. elim (Bool-cases (i == j)) [
            | inl same ↦
                let (one, last) = registered_now i j at same e in
                subst
                  (λ q.
                    (path : String) × (method : String) × Bound ids q path method
                    × (get_elem? (stream ++ m ∷ []) at ≡ some (registration q path method)))
                  one (path, method, bound, rw last (get_elem?-at stream m))
            | inr differ ↦
                let old : get r j ≡ some at =
                  ground (arith, e, differ, get-put r i j (length stream)) in
                let (path', method', bound', at_stream) = noted j at old in
                (
                  path',
                  method',
                  bound',
                  get_elem?-before stream (m ∷ []) at (registration j path' method') at_stream,
                )
          ];
          streams = λ j w e. elim (get_elem?-last stream m j w e) [
            | inl f ↦ Fine-weaken ids ids r r' j j w (λ _ _ g. g) more (omega arith) (streams j w f)
            | inr (_, g) ↦ subst (Fine ids r' j) g bound
          ];
          flies = λ j w e.
              Fine-weaken ids ids r r' delivered delivered w (λ _ _ g. g) more (omega arith)
                (flies j w e);
          progress = omega (arith, length-append stream (m ∷ []));
          sound = sound;
          complete = λ j at e lt. elim (Bool-cases (i == j)) [
            | inl same ↦
                absurd (ground (arith, progress, e, lt, same, get-put r i j (length stream)))
            | inr differ ↦
                complete j at (ground (arith, e, differ, get-put r i j (length stream))) lt
          ];
        }

    -- A reliable call of a registered id goes to the end of the stream.
    pub Inv-stream :
        (m : Wire p)
        → Fine ids r (length stream) m
        → Inv ids next r (stream ++ m ∷ []) flying delivered targets
    Inv-stream m fine = record {
      positive = positive;
      small = small;
      named = named;
      apart = apart;
      flies = flies;
      sound = sound;
      complete = complete;
      noted = λ j at e.
          let (path, method, bound, at_stream) = noted j at e in
          (
            path,
            method,
            bound,
            get_elem?-before stream (m ∷ []) at (registration j path method) at_stream,
          );
      streams = λ j w e. elim (get_elem?-last stream m j w e) [
        | inl f ↦ streams j w f
        | inr (f, g) ↦ rw (f, sym g) fine
      ];
      progress = omega (arith, progress, length-append stream (m ∷ []));
    }

    -- A call that the receiver can take already may go as a datagram.
    pub Inv-fly :
        (m : Wire p)
        → Fine ids r delivered m
        → Inv ids next r stream (flying ++ m ∷ []) delivered targets
    Inv-fly m fine = record {
      positive = positive;
      small = small;
      named = named;
      apart = apart;
      noted = noted;
      streams = streams;
      progress = progress;
      sound = sound;
      complete = complete;
      flies = λ j w e. elim (get_elem?-last flying m j w e) [
        | inl f ↦ flies j w f
        | inr (f, g) ↦ rw (sym g) fine
      ];
    }

    -- An id is for one path and one method.
    pub Bound-unique :
        (i : ℕ) (path method path' method' : String)
        → Bound ids i path method
        → Bound ids i path' method'
        → (path ≡ path') × (method ≡ method')
    Bound-unique i path method path' method' (a, e, _, _) (b, f, _, _) =
        n.apart path method path' method' a b (apart (key path method) (key path' method') i e f)
