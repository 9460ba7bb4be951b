-- ===== src/NetIds.antt =====
-- src/goldnet_net_ids.h: which node each net_id names, on either end.
-- An id is a uint32_t and an object a Godot ObjectID; both are numbers here, and `next_` wraps at
-- 2 ^ 32 as the counter of the source does. 0 stands for "none" in the answers of `id` and `object`.
pub mod Invariant
pub mod Session
pub mod Forgetting
pub mod Handing
pub mod Binding
pub mod Refinement
mod Examples
use goldnet_godot.Common.{
  ℕ, ◌+◌, ◌%◌, ◌^◌, Bool, true, false, Option, none, some, List, [], ◌∷◌, map, HashMap, get, put,
  erase, nat_eq, if◌then◌else◌,
}

-- `learned`: bound from a server's record, not handed out here.
pub record Entry : Type 0 where
  pub obj : ℕ
  pub learned : Bool

pub record NetIds : Type 0 where
  pub by_id : HashMap ℕ Entry
  pub by_obj : HashMap ℕ ℕ
  pub next : ℕ

unfoldable pub init : NetIds
init = record { by_id = []; by_obj = []; next = 1 }

-- NetIds::put
unfoldable pub put_entry : NetIds → ℕ → ℕ → Bool → NetIds
put_entry s i o learned = record s {
  by_id = put s.by_id i (record { obj = o; learned = learned });
  by_obj = put s.by_obj o i;
}

unfoldable pub id : NetIds → ℕ → ℕ
id s o = elim (get s.by_obj o) [ none ↦ 0 | some i ↦ i ]

unfoldable pub object : NetIds → ℕ → ℕ
object s i = elim (get s.by_id i) [ none ↦ 0 | some e ↦ e.obj ]

unfoldable pub drop : NetIds → ℕ → NetIds
drop s i = elim (get s.by_id i) [
  | none ↦ s
  | some e ↦ record s { by_obj = erase s.by_obj e.obj; by_id = erase s.by_id i }
]

unfoldable pub release : NetIds → ℕ → NetIds × ℕ
release s o = (drop s (id s o), id s o)

unfoldable pub assign : NetIds → ℕ → NetIds × ℕ
unfolding put_entry
assign s o = elim (get s.by_obj o) [
  | some i ↦ (s, i)
  | none ↦ (put_entry (record s { next = (s.next + 1) % 2 ^ 32 }) s.next o false, s.next)
]

unfoldable pub bind : NetIds → ℕ → ℕ → NetIds
bind s i o = put_entry (release (drop s i) o).0 i o true

-- The keys of `by_id` that a server gave, in the map's order.
unfoldable pub learned_keys : HashMap ℕ Entry → List ℕ
learned_keys [] = []
learned_keys ((i, e) ∷ m) = let rest = learned_keys m in if e.learned then i ∷ rest else rest

unfoldable pub drop_all : NetIds → List ℕ → NetIds
drop_all s [] = s
drop_all s (i ∷ is) = drop_all (drop s i) is

unfoldable pub forget_learned : NetIds → NetIds
unfolding learned_keys drop_all
forget_learned s = drop_all s (learned_keys s.by_id)
