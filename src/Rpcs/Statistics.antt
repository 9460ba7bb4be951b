-- ===== src/Rpcs/Statistics.antt =====
-- The counts of _rpc_stats_count, in src/goldnet_multiplayer.cpp.
use goldnet_godot.Common.{
  ◌%◌, ◌^◌, ℕ, ◌+◌, ◌-◌, ◌*◌, ◌≡◌, refl, ap, Bool, true, false, ◌||◌, not, Bool-cases, Option-cases,
  inl, inr, String, none, some, List, [], ◌∷◌, length, keep, contains, HashMap, get, put, get-put,
  string_eq, ◌==◌, if◌then◌else◌, arith,
}
use goldnet_godot.Platform.{Platform, Variant, add64}
use goldnet_godot.Rpcs.{Recipient, one, everyone, everyone_but, recipients}

-- RPC_HEADER_EST
abbrev pub rpc_header_est : ℕ
rpc_header_est = 12

-- The counts are uint64_t.
pub record RpcStat : Type 0 where
  pub calls : ℕ
  pub sends : ℕ
  pub bytes : ℕ
  pub unreliable : Bool
  pub owner : String

-- The number of recipients that the statistics take a call to have.
unfoldable pub stat_recipients : Recipient → List ℕ → ℕ
stat_recipients (one t) peers = 1
stat_recipients everyone peers = length peers
stat_recipients (everyone_but k) peers = length peers - 1

unfoldable pub to_self : Recipient → ℕ → Bool
to_self (one t) unique_id = t == unique_id
to_self everyone unique_id = false
to_self (everyone_but k) unique_id = false

module _ (p : Platform) where
  open p use {F, O, var_to_bytes}

  unfoldable pub args_bytes : List (Variant F O) → ℕ
  args_bytes [] = 0
  args_bytes (v ∷ vs) = length (var_to_bytes v) + args_bytes vs

  -- `rpc_stats_methods[p_method]`, set up at its first call.
  unfoldable pub stat_of : HashMap String RpcStat → String → Bool → String → RpcStat
  stat_of stats method unreliable owner =
      let new : RpcStat = record {
        calls = 0;
        sends = 0;
        bytes = 0;
        unreliable = unreliable;
        owner = owner;
      } in
      elim (get stats method) [
        | none ↦ new
        | some s ↦ if s.calls == 0 then record s { unreliable = unreliable; owner = owner } else s
      ]

  -- _rpc_stats_count, with what the engine says of the method and of the object's script.
  unfoldable pub rpc_stats_count :
      HashMap String RpcStat
      → ℕ
      → List ℕ
      → Recipient
      → String
      → Bool
      → String
      → List (Variant F O)
      → HashMap String RpcStat
  rpc_stats_count stats unique_id peers to method unreliable owner args =
      let n = stat_recipients to peers in
      let s = stat_of stats method unreliable owner in
      let counted : RpcStat = record s {
        calls = add64 s.calls 1;
        sends = add64 s.sends n;
        bytes = add64 s.bytes ((rpc_header_est + args_bytes args) * n);
      } in
      if to_self to unique_id || n == 0 then stats else put stats method counted

-- No peer stands twice.
abbrev pub NoRepeat : List ℕ → Type 0
NoRepeat [] = Unit
NoRepeat (k ∷ ks) = (contains ks k ≡ false) × NoRepeat ks

length-keep_all :
    (k : ℕ) (peers : List ℕ)
    → contains peers k ≡ false
    → length (keep (λ t. not (t == k)) peers) ≡ length peers
length-keep_all k [] h = refl
length-keep_all k (t ∷ peers) h = ground (arith, length-keep_all k peers)

length-keep_but :
    (k : ℕ) (peers : List ℕ)
    → NoRepeat peers
    → contains peers k ≡ true
    → length (keep (λ t. not (t == k)) peers) + 1 ≡ length peers
length-keep_but k [] d h = ground arith
length-keep_but k (t ∷ peers) (new, d) h = elim (Bool-cases (t == k)) [
  | inl same ↦
      let absent : contains peers k ≡ false = ground (arith, new, ap {A = ℕ} (contains peers)) in
      ground (arith, length-keep_all k peers absent)
  | inr other ↦ ground (arith, length-keep_but k peers d)
]

-- The peers that a call goes to and the statistics leave out: one, where the one left out by the call is
-- not among the peers.
abbrev pub overlooked : Recipient → List ℕ → ℕ
overlooked (one t) peers = 0
overlooked everyone peers = 0
overlooked (everyone_but k) peers = if contains peers k || length peers == 0 then 0 else 1

stat_recipients_lem :
    (to : Recipient) (peers : List ℕ)
    → NoRepeat peers
    → length (recipients to peers) ≡ stat_recipients to peers + overlooked to peers
unfolding recipients stat_recipients
stat_recipients_lem (one t) peers d = refl
stat_recipients_lem everyone peers d = omega arith
stat_recipients_lem (everyone_but k) peers d = elim (Bool-cases (contains peers k)) [
  | inl there ↦ ground (arith, length-keep_but k peers d there)
  | inr absent ↦ ground (arith, length-keep_all k peers absent)
]

unfoldable pub sends_of : HashMap String RpcStat → String → ℕ
sends_of stats method = elim (get stats method) [ none ↦ 0 | some s ↦ s.sends ]

sends_of-put :
    (stats : HashMap String RpcStat) (method : String) (counted : RpcStat)
    → sends_of (put stats method counted) method ≡ counted.sends
unfolding sends_of
sends_of-put stats method counted =
    ground (arith, get-put stats method method counted, string_eq.beq_iff method method)

module _ (p : Platform) where
  open p use {F, O}

  pub sends-stat_of :
      (stats : HashMap String RpcStat) (method : String) (unreliable : Bool) (owner : String)
      → (stat_of p stats method unreliable owner).sends ≡ sends_of stats method
  unfolding stat_of sends_of
  sends-stat_of stats method unreliable owner = elim (Option-cases (get stats method)) [
    | inl e ↦ ground arith
    | inr (s, e) ↦ ground arith
  ]

  -- A call that is not to ourselves adds to its method's sends the number of peers it goes to, but for a
  -- call to everyone but a peer that is not among them (the server itself, in rpc(-1)): of that it
  -- adds one too few. Counts are up to a multiple of 2^64.
  pub rpc_stats_count_sends :
      (stats : HashMap String RpcStat) (unique_id : ℕ) (peers : List ℕ) (to : Recipient)
      (method : String) (unreliable : Bool) (owner : String) (args : List (Variant F O))
      → NoRepeat peers
      → to_self to unique_id ≡ false
      → (sends_of (rpc_stats_count p stats unique_id peers to method unreliable owner args) method
            + overlooked to peers)
          % 2 ^ 64
        ≡ (sends_of stats method + length (recipients to peers)) % 2 ^ 64
  unfolding rpc_stats_count
  rpc_stats_count_sends stats unique_id peers to method unreliable owner args d h =
      let n = stat_recipients to peers in
      let s = stat_of p stats method unreliable owner in
      let counted : RpcStat = record s {
        calls = add64 s.calls 1;
        sends = add64 s.sends n;
        bytes = add64 s.bytes ((rpc_header_est + args_bytes p args) * n);
      } in
      let there = sends_of-put stats method counted in
      let before = sends-stat_of stats method unreliable owner in
      let all = stat_recipients_lem to peers d in
      elim (Bool-cases (n == 0)) [
        | inl none_sent ↦ rw (h, none_sent) (ground (arith, all))
        | inr some_sent ↦ rw (h, some_sent, there) (omega (arith, all, before))
      ]
