-- ===== src/Registry/Ends/Adoption.antt =====
-- What a client binds when it takes a spawn record.
use goldnet_godot.Common.{
  ℕ, true, ◌≡◌, ◌≢◌, refl, sym, List, [], ◌∷◌, HashSet, String, contains, Option, some, All,
}
use mathlib.Core.Path.{subst}
use goldnet_godot.NetIds.{NetIds, bind}
use goldnet_godot.NetIds.Invariant.{WellFormed, bind-WellFormed}
use goldnet_godot.NetIds.Binding.{Names, bind_keeps, bind-Names}
use goldnet_godot.Spawns.{SpawnSync}
use goldnet_godot.Registry.Client.{Signal, bind_syncs}

-- No synchronizer of the list has this id or is at this object.
abbrev pub Avoids : (String → Option ℕ) → ℕ → ℕ → List SpawnSync → Type 0
Avoids at i o [] = Unit
Avoids at i o (s ∷ ss) = (s.net_id ≢ i) × ((q : ℕ) → at s.path ≡ some q → q ≢ o) × Avoids at i o ss

-- Each synchronizer is found at its path, is ours and has an id; no two share an id or an object.
abbrev pub Placed : (String → Option ℕ) → HashSet → List SpawnSync → Type 0
Placed at owned [] = Unit
Placed at owned (s ∷ ss) =
    ((o : ℕ) × (at s.path ≡ some o)
      × (contains owned o ≡ true)
      × (s.net_id ≢ 0)
      × Avoids at s.net_id o ss)
    × Placed at owned ss

-- Binding synchronizers keeps the names that they avoid.
pub bind_syncs_keeps :
    (ids : NetIds) (owned : HashSet) (at : String → Option ℕ) (n i o : ℕ) (ss : List SpawnSync)
    → WellFormed ids
    → i ≢ 0
    → Placed at owned ss
    → Avoids at i o ss
    → Names ids i o
    → Names (bind_syncs ids owned at n ss).0 i o
unfolding bind_syncs
bind_syncs_keeps ids owned at n i o [] w nz placed apart named = named
bind_syncs_keeps ids owned at n i o (s ∷ ss) w nz ((q, found, ours, id_nz, others), placed)
      (ids_differ, differ, rest) named =
    rw (found, ours, bind_syncs)
      (bind_syncs_keeps (bind ids s.net_id q) owned at n i o ss
        (bind-WellFormed ids s.net_id q w id_nz) nz placed rest
        (bind_keeps ids i o s.net_id q w nz ids_differ (differ q found) named))

-- Each synchronizer's id names the one found at its path.
abbrev pub Found : (String → Option ℕ) → NetIds → SpawnSync → Type 0
Found at t s = (o : ℕ) × (at s.path ≡ some o) × Names t s.net_id o

bind_syncs_found :
    (ids : NetIds) (owned : HashSet) (at : String → Option ℕ) (n q : ℕ) (s : SpawnSync)
    (ss : List SpawnSync)
    → at s.path ≡ some q
    → contains owned q ≡ true
    → bind_syncs ids owned at n (s ∷ ss) ≡ bind_syncs (bind ids s.net_id q) owned at n ss
unfolding bind_syncs
bind_syncs_found ids owned at n q s ss found ours = rw (found, ours, bind_syncs)

-- Binding them all names them all, and none is reported missing.
pub bind_syncs_names :
    (ids : NetIds) (owned : HashSet) (at : String → Option ℕ) (n : ℕ) (ss : List SpawnSync)
    → WellFormed ids
    → Placed at owned ss
    → let (t, signals) = bind_syncs ids owned at n ss in All (Found at t) ss × (signals ≡ [])
unfolding bind_syncs
bind_syncs_names ids owned at n [] w placed = (tt, refl)
bind_syncs_names ids owned at n (s ∷ ss) w ((q, found, ours, id_nz, others), placed) =
    let next = bind ids s.net_id q in
    let next_w = bind-WellFormed ids s.net_id q w id_nz in
    let (rest, quiet) = bind_syncs_names next owned at n ss next_w placed in
    let kept =
      bind_syncs_keeps next owned at n s.net_id q ss next_w id_nz placed others
        (bind-Names ids s.net_id q w) in
    subst (λ (x : NetIds × List Signal). All (Found at x.0) (s ∷ ss) × (x.1 ≡ []))
      (sym (bind_syncs_found ids owned at n q s ss found ours)) (((q, found, kept), rest), quiet)
