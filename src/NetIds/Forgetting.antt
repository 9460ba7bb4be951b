-- ===== src/NetIds/Forgetting.antt =====
-- What a new session leaves of the ids, in src/goldnet_net_ids.h: forget_learned.
use goldnet_godot.Common.{
  ℕ, ◌≡◌, refl, ap, ◌∙◌, Bool, false, ◌||◌, Option, none, some, List, [], ◌∷◌, HashMap, get, nat_eq,
  ◌==◌, Distinct, arith, if◌then◌else◌,
}
use goldnet_godot.NetIds.{NetIds, Entry, drop, learned_keys, drop_all, forget_learned}
use goldnet_godot.NetIds.Invariant.{get-drop}

-- A list of ids holds k.
member : ℕ → List ℕ → Bool
member k [] = false
member k (i ∷ is) = i == k || member k is

get-drop_all :
    (s : NetIds) (is : List ℕ) (k : ℕ)
    → get (drop_all s is).by_id k ≡ (if member k is then none else get s.by_id k)
unfolding drop_all member
get-drop_all s [] k = refl
get-drop_all s (i ∷ is) k = ground (arith, get-drop_all (drop s i) is k, get-drop s i k)

abbrev pub is_learned : Option Entry → Bool
is_learned none = false
is_learned (some e) = e.learned

member-learned_keys :
    (m : HashMap ℕ Entry) (k : ℕ) → Distinct m → member k (learned_keys m) ≡ is_learned (get m k)
unfolding member learned_keys get
member-learned_keys [] k d = refl
member-learned_keys ((i, e) ∷ m) k d =
    ground (arith, member-learned_keys m k d.1, ap (λ (o : Option Entry). is_learned o) d.0)

-- A new session forgets exactly the ids that a server gave: the others name what they did.
pub get-forget_learned :
    (s : NetIds) (k : ℕ)
    → Distinct s.by_id
    → get (forget_learned s).by_id k ≡ (if is_learned (get s.by_id k) then none else get s.by_id k)
unfolding forget_learned
get-forget_learned s k d =
    get-drop_all s (learned_keys s.by_id) k
    ∙ ap (λ b. if b then none else get s.by_id k) (member-learned_keys s.by_id k d)
