-- ===== src/SlotSetup/Slots.antt =====
-- Which slots a synchronizer has, and which hint each of them gets.
use goldnet_godot.Common.{
  ℕ, zero, suc, ◌≡◌, refl, ap, false, not, Bool-cases, String, some, List, [], ◌∷◌, length,
  get_elem?, get_or, take, keep, any, map, HashMap, get-empty, string_eq, ltb, ◌==◌, arith, inl,
  inr,
}
use mathlib.Core.Option.{some-injective}
use goldnet_godot.Values.{quant_auto}
use goldnet_godot.SlotSetup.{
  Property, is_replicated_slot, should_intercept, collect_slots, get_sync_slots, slot_quant,
  read_quant,
}

collect_slots_lem :
    (room : ℕ) (props : List Property)
    → collect_slots room props ≡ take room (keep is_replicated_slot props)
unfolding collect_slots
collect_slots_lem zero props = refl
collect_slots_lem (suc room) [] = refl
collect_slots_lem (suc room) (c ∷ props) = elim (Bool-cases (is_replicated_slot c)) [
  | inl e ↦ ground (arith, collect_slots_lem room props)
  | inr e ↦ ground (arith, collect_slots_lem (suc room) props)
]

owned-collect_slots :
    (room : ℕ) (props : List Property)
    → any is_replicated_slot props ≡ ltb 0 (length (collect_slots (suc room) props))
unfolding collect_slots
owned-collect_slots room [] = ground arith
owned-collect_slots room (c ∷ props) = elim (Bool-cases (is_replicated_slot c)) [
  | inl e ↦ ground (arith, e)
  | inr e ↦ ground (arith, e, owned-collect_slots room props)
]

-- The slots are the config's replicated properties in its order, as many of them as fit, and a
-- synchronizer is taken over exactly if there is one.
pub get_sync_slots_lem :
    (room : ℕ) (props : List Property)
    → (get_sync_slots (suc room) (some props) ≡ take (suc room) (keep is_replicated_slot props))
      × (should_intercept (some props) ≡ ltb 0 (length (get_sync_slots (suc room) (some props))))
unfolding get_sync_slots should_intercept
get_sync_slots_lem room props = (collect_slots_lem (suc room) props, owned-collect_slots room props)

get_or-map :
    (f : Property → ℕ) (slots : List Property) (s : ℕ) (c : Property) (d : ℕ)
    → get_elem? slots s ≡ some c
    → get_or (map f slots) s d ≡ f c
get_or-map f [] s c d e = ground arith
get_or-map f (x ∷ xs) zero c d e = ap f (some-injective x c e)
get_or-map f (x ∷ xs) (suc s) c d e = get_or-map f xs s c d e

no_code :
    (codes : List ℕ) (s : ℕ)
    → any (λ q. not (q == quant_auto)) codes ≡ false
    → get_or codes s quant_auto ≡ quant_auto
no_code [] s e = refl
no_code (q ∷ qs) zero e = ground arith
no_code (q ∷ qs) (suc s) e = ground (arith, no_code qs s)

-- Leaving the hints out where no slot has one changes none: every slot gets the hint that the meta
-- gives its leaf, and none where the meta has no entry or no such hint.
pub get_or-read_quant :
    (hints : HashMap String String) (slots : List Property) (s : ℕ) (c : Property)
    → get_elem? slots s ≡ some c
    → get_or (read_quant hints slots) s quant_auto ≡ slot_quant hints c
unfolding read_quant slot_quant
get_or-read_quant [] slots s c e = rw (get-empty {V = String} c.leaf, slot_quant) refl
get_or-read_quant (h ∷ hints) slots s c e =
    let codes = map (slot_quant (h ∷ hints)) slots in
    let own = get_or-map (slot_quant (h ∷ hints)) slots s c quant_auto e in
    elim (Bool-cases (any (λ q. not (q == quant_auto)) codes)) [
      | inl f ↦ ground (arith, own)
      | inr f ↦ ground (arith, own, no_code codes s f)
    ]
