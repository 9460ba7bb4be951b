-- ===== src/Cadence/Interval.antt =====
-- The send interval is the least of the live synchronizers'.
use goldnet_godot.Common.{
  ℕ, ◌≤◌, ◌<◌, ◌≡◌, ◌⊎◌, inl, inr, refl, ◌∙◌, sym, false, Option, none, some, List, [], ◌∷◌, arith,
}
use mathlib.Core.Path.{subst}
use goldnet_godot.Cadence.{Seconds, default_interval_us, sync_us, better, best_us, min_interval_us}

module _ (d : Seconds) where
  open d use {D, is_positive}

  -- A bound on the interval of every synchronizer that is live.
  abbrev pub AtMostAll : ℕ → List (Option D) → Type 0
  AtMostAll us [] = Unit
  AtMostAll us (none ∷ syncs) = AtMostAll us syncs
  AtMostAll us (some sec ∷ syncs) = (us ≤ sync_us d sec) × AtMostAll us syncs

  -- The interval of some live synchronizer.
  abbrev pub IsOneOf : ℕ → List (Option D) → Type 0
  IsOneOf us [] = ⊥
  IsOneOf us (none ∷ syncs) = IsOneOf us syncs
  IsOneOf us (some sec ∷ syncs) = (us ≡ sync_us d sec) ⊎ IsOneOf us syncs

  abbrev pub NoneLive : List (Option D) → Type 0
  NoneLive [] = Unit
  NoneLive (none ∷ syncs) = NoneLive syncs
  NoneLive (some sec ∷ syncs) = ⊥

  sync_us_pos : (sec : D) → 0 < sync_us d sec
  unfolding sync_us
  sync_us_pos sec = ground arith

  better_lem :
      (sec : D) (best : ℕ)
      → 0 < best
      → (0 < better d sec best)
        × (better d sec best ≤ best)
        × (better d sec best ≤ sync_us d sec)
        × ((better d sec best ≡ best) ⊎ (better d sec best ≡ sync_us d sec))
  unfolding better
  better_lem sec best h = ground (arith, sync_us_pos sec)

  -- With a best so far, the loop ends at most there, and at one that it met.
  best_us_from :
      (syncs : List (Option D)) (best : ℕ)
      → 0 < best
      → (0 < best_us d syncs best)
        × (best_us d syncs best ≤ best)
        × AtMostAll (best_us d syncs best) syncs
        × ((best_us d syncs best ≡ best) ⊎ IsOneOf (best_us d syncs best) syncs)
  unfolding best_us
  best_us_from [] best h = (h, omega arith, tt, inl refl)
  best_us_from (none ∷ syncs) best h = best_us_from syncs best h
  best_us_from (some sec ∷ syncs) best h =
      let (pos, le, lt, here) = better_lem sec best h in
      let (a, b, c, e) = best_us_from syncs (better d sec best) pos in
      (
        a,
        omega arith,
        (omega arith, c),
        elim e [
          | inr later ↦ inr (inr later)
          | inl same ↦ elim here [ inl old ↦ inl (same ∙ old) | inr new ↦ inr (inl (same ∙ new)) ]
        ],
      )

  best_us_zero :
      (syncs : List (Option D))
      → (NoneLive syncs × (best_us d syncs 0 ≡ 0))
        ⊎ ((0 < best_us d syncs 0)
            × AtMostAll (best_us d syncs 0) syncs
            × IsOneOf (best_us d syncs 0) syncs)
  unfolding best_us better sync_us
  best_us_zero [] = inl (tt, refl)
  best_us_zero (none ∷ syncs) = best_us_zero syncs
  best_us_zero (some sec ∷ syncs) =
      let (a, b, c, e) = best_us_from syncs (sync_us d sec) (sync_us_pos sec) in inr (a, (b, c), e)

  -- With no snapshot rate set, the interval is positive, at most that of every live synchronizer and
  -- that of one of them; it is 33 ms where none is live.
  pub min_interval_us_least :
      (setting : D) (owned : List (Option D))
      → is_positive setting ≡ false
      → (NoneLive owned × (min_interval_us d setting owned ≡ default_interval_us))
        ⊎ ((0 < min_interval_us d setting owned)
            × AtMostAll (min_interval_us d setting owned) owned
            × IsOneOf (min_interval_us d setting owned) owned)
  unfolding min_interval_us
  min_interval_us_least setting owned h = elim (best_us_zero owned) [
    | inl (empty, e) ↦ inl (empty, rw (h, e))
    | inr (pos, all, one) ↦
        let same : min_interval_us d setting owned ≡ best_us d owned 0 = ground arith in
        inr (
          rw same pos,
          subst (λ us. AtMostAll us owned) (sym same) all,
          subst (λ us. IsOneOf us owned) (sym same) one,
        )
  ]
