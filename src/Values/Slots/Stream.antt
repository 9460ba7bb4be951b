-- ===== src/Values/Slots/Stream.antt =====
-- A run of values of one slot, each coded against the one before: the sender steps from the exact
-- values, the receiver from what it decoded.
use goldnet_godot.Common.{
  ℕ, ◌^◌, ◌<◌, ◌≡◌, refl, sym, Option, some, List, [], ◌∷◌, ◌++◌, map, length, All,
}
use mathlib.Core.List.{append_assoc}
use goldnet_godot.Platform.{Platform, Variant}
use goldnet_godot.Values.Slots.{put_slot, get_slot}
use goldnet_godot.Values.Slots.RoundTrip.{slot_value, quanta, SameBase, get-put_slot}

module _ (p : Platform) (kind quant : ℕ) (grid : p.F) where
  open p use {F, O, Reader, reader, var_to_bytes}

  pub put_stream : Option (Variant F O) → List (Variant F O × ℕ) → List ℕ
  put_stream base [] = []
  put_stream base ((v, now) ∷ us) = put_slot p kind grid quant v base now ++ put_stream (some v) us

  pub get_stream :
      Option (Variant F O) → List (Variant F O × ℕ) → Reader → List (Variant F O) × Reader
  get_stream base [] r = ([], r)
  get_stream base ((_, now) ∷ us) r =
      let (v, r1) = get_slot p r kind grid base now in
      let (vs, r2) = get_stream (some v) us r1 in (v ∷ vs, r2)

  -- What the wire can carry, and a value whose decoded form lies on the same quanta as itself.
  abbrev pub Carried : Variant F O × ℕ → Type 0
  Carried (v, now) =
      (now < 2 ^ 32)
      × (length (var_to_bytes v) < 2 ^ 32)
      × (quanta p kind grid (slot_value p kind grid quant v) ≡ quanta p kind grid v)

  -- Values coded step by step do not drift: however long the run, the receiver's n-th value is what
  -- the slot's precision leaves of the n-th value alone.
  pub get-put_stream :
      (us : List (Variant F O × ℕ)) (b c : Option (Variant F O)) (rest : List ℕ)
      → SameBase p kind grid b c
      → quant < 256
      → All Carried us
      → get_stream c us (reader (put_stream b us ++ rest))
        ≡ (map (λ u. slot_value p kind grid quant u.0) us, reader rest)
  unfolding get_stream put_stream
  get-put_stream [] b c rest same hq h = refl
  get-put_stream ((v, now) ∷ us) b c rest same hq ((hn, hs, stable), h) =
      let here = put_slot p kind grid quant v b now in
      rw (
        append_assoc here (put_stream (some v) us) rest,
        get-put_slot p kind quant now grid v b c (put_stream (some v) us ++ rest) same hq hn hs,
        get-put_stream us (some v) (some (slot_value p kind grid quant v)) rest (sym stable) hq h,
      )
