-- ===== src/Rpcs/Reach.antt =====
-- Whom an RPC on the netchan reaches.
use goldnet_godot.Common.{
  ℕ, ◌≡◌, ◌≢◌, refl, Bool, true, false, ◌&&◌, ◌||◌, not, Bool-cases, String, Option, none, some,
  Option-cases, List, [], ◌∷◌, ◌++◌, map, any, keep, ltb, ◌==◌, if◌then◌else◌, arith, inl, inr,
}
use goldnet_godot.Platform.{Platform, Variant}
use goldnet_godot.Messages.{Queued, send_message}
use goldnet_godot.Rpcs.{
  Recipient, one, everyone, everyone_but, recipients, SendSim, Out, queue, drop_peer, charge,
  set_schema, push_command, inner_rpc, later, Answers, charge_each, charge_rpc, check_overflow,
  sim_send_one, sim_send, rpc_wire_bytes,
}
use goldnet_godot.Rpcs.Routing.{Rpcs, send_to, send_to_each, netchan_down, calls_itself}

abbrev pub is_among : ℕ → Recipient → Bool
is_among t (one k) = k == t
is_among t everyone = true
is_among t (everyone_but k) = not (k == t)

-- Whether something that a call asks for goes to a peer.
abbrev pub touches : {F : Type 0} → ℕ → Out F → Bool
touches t (queue k q) = k == t
touches t (drop_peer k) = k == t
touches t (charge k b) = k == t
touches t (set_schema id kinds) = false
touches t (push_command id cmd) = false
touches t (inner_rpc to) = is_among t to
touches t (later to d) = is_among t to

any-append :
    {A : Type 0} (f : A → Bool) (xs ys : List A) → any f (xs ++ ys) ≡ (any f xs || any f ys)
any-append f [] ys = refl
any-append f (x ∷ xs) ys = ground (arith, any-append f xs ys)

module _ (p : Platform) (n : SendSim) where
  open p use {F, O}

  touches-map :
      (qs : List Queued) (t u : ℕ)
      → (u == t) ≡ false
      → any (touches {F = F} t) (map (queue u) qs) ≡ false
  touches-map [] t u apart = refl
  touches-map (q ∷ qs) t u apart = ground (arith, touches-map qs t u)

  touches-check_overflow :
      (a : Answers) (t u : ℕ) → (u == t) ≡ false → any (touches t) (check_overflow p a u) ≡ false
  unfolding check_overflow
  touches-check_overflow a t u apart = ground arith

  touches-charge_rpc :
      (a : Answers) (t u : ℕ) (args : List (Variant F O))
      → (u == t) ≡ false
      → any (touches t) (charge_rpc p a (one u) args) ≡ false
  unfolding charge_rpc charge_each recipients
  touches-charge_rpc a t u args apart = ground arith

  touches-sim_send_one :
      (sim : n.S) (a : Answers) (t u : ℕ) (args : List (Variant F O)) (drop : Bool)
      (bytes : Option ℕ)
      → (u == t) ≡ false
      → any (touches t) (sim_send_one p n sim a (one u) args drop bytes).1 ≡ false
  unfolding sim_send_one
  touches-sim_send_one sim a t u args drop bytes apart =
      let guess = if ltb 0 (n.bandwidth_bps sim) then rpc_wire_bytes p args else 0 in
      let size = elim bytes as (λ _. ℕ) [ none ↦ guess | some b ↦ b ] in
      elim (Option-cases (n.schedule sim (one u) size drop a.now_ms).0) [
        | inl e ↦ ground arith
        | inr (d, e) ↦ elim (Bool-cases (d == 0)) [ inl f ↦ ground arith | inr f ↦ ground arith ]
      ]

  pub touches-sim_send :
      (sim : n.S) (a : Answers) (t u : ℕ) (args : List (Variant F O)) (drop : Bool)
      (bytes : Option ℕ)
      → (u == t) ≡ false
      → any (touches t) (sim_send p n sim a (one u) args drop bytes).1 ≡ false
  unfolding sim_send
  touches-sim_send sim a t u args drop bytes apart =
      elim (Bool-cases (ltb 0 (n.bandwidth_bps sim))) [
        | inl e ↦ rw (e, sim_send) (touches-sim_send_one sim a t u args drop bytes apart)
        | inr e ↦ rw (e, sim_send) (touches-sim_send_one sim a t u args drop bytes apart)
      ]

  touches-send_to :
      (s : Rpcs p n) (a : Answers) (path method : String) (args : List (Variant F O)) (rel : Bool)
      (t u : ℕ)
      → (u == t) ≡ false
      → any (touches t) (send_to p n s a path method args rel u).1 ≡ false
  unfolding send_to
  touches-send_to s a path method args rel t u apart =
      let sending = send_message p s.messages (a.stats u) u path method args rel in
      let outs = (sim_send p n s.sim a (one u) args (not rel) none).1 in
      elim (Bool-cases sending.2) [
        | inl e ↦
            rw
              (
                e,
                send_to,
                any-append (touches t) (map (queue u) sending.1) (check_overflow p a u),
                touches-map sending.1 t u apart,
              )
              (touches-check_overflow a t u apart)
        | inr e ↦
            rw
              (
                e,
                send_to,
                any-append (touches t) (charge_rpc p a (one u) args) outs,
                touches-charge_rpc a t u args apart,
              )
              (touches-sim_send s.sim a t u args (not rel) none apart)
      ]

  -- A call on the netchan does nothing to a peer that is not among its targets: no message, no packet
  -- through the inner, no charge and no removal.
  pub touches-send_to_each :
      (s : Rpcs p n) (a : Answers) (path method : String) (args : List (Variant F O)) (rel : Bool)
      (t : ℕ) (ts : List ℕ)
      → any (λ u. u == t) ts ≡ false
      → any (touches t) (send_to_each p n s a path method args rel ts).1 ≡ false
  unfolding send_to_each
  touches-send_to_each s a path method args rel t [] absent = refl
  touches-send_to_each s a path method args rel t (u ∷ us) absent =
      let first = send_to p n s a path method args rel u in
      let rest = send_to_each p n first.0 a path method args rel us in
      ground (
        arith,
        any-append (touches t) first.1 rest.1,
        touches-send_to s a path method args rel t u,
        touches-send_to_each first.0 a path method args rel t us,
      )

  absent_but : (k : ℕ) (peers : List ℕ) → any (λ u. u == k) (keep (λ u. not (u == k)) peers) ≡ false
  absent_but k [] = refl
  absent_but k (u ∷ us) = ground (arith, absent_but k us)

  -- A server's broadcast that leaves a peer out does nothing to that peer on the netchan.
  pub touches-everyone_but :
      (s : Rpcs p n) (a : Answers) (path method : String) (args : List (Variant F O))
      (rel call_local : Bool) (t : ℕ)
      → t ≢ 1
      → any (touches t) (netchan_down p n s a path method args rel (everyone_but t) call_local).1
        ≡ false
  unfolding netchan_down recipients
  touches-everyone_but s a path method args rel call_local t other_peer =
      let ts = keep (λ u. not (u == t)) a.peers in
      let outs = (send_to_each p n s a path method args rel ts).1 in
      let own =
        if call_local && calls_itself p n (everyone_but t) then inner_rpc (one 1) ∷ [] else [] in
      rw
        (
          any-append (touches t) outs own,
          touches-send_to_each s a path method args rel t ts (absent_but t a.peers),
        )
        (ground (arith, other_peer))
