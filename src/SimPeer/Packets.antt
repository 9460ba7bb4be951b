-- ===== src/SimPeer/Packets.antt =====
-- What the sim peer's poll does with packets: where each of them goes, and what the counters say.
use goldnet_godot.Common.{
  ℕ, ◌+◌, ◌≡◌, refl, sym, ◌∙◌, Bool, true, false, Bool-cases, none, Option-cases, List, [], ◌∷◌,
  ◌++◌, length, length-append, arith, inl, inr,
}
use mathlib.Core.List.{append_assoc, append-nil}
use goldnet_godot.SimPeer.{
  Packet, droppable, count, NetSim, SimPeer, deliver, deliver_all, is_active, hold, lose_or_hold,
  receive, receive_all, poll,
}

pub count-append :
    (q : Packet → Bool) (xs ys : List Packet) → count q (xs ++ ys) ≡ count q xs + count q ys
count-append q [] ys = omega arith
count-append q (x ∷ xs) ys = ground (arith, count-append q xs ys)

module _ (n : NetSim) where
  -- The packets that a test accepts and that are still to be read, held by the sim or ready.
  unfoldable pub kept : SimPeer n → (Packet → Bool) → ℕ
  kept s q = count q s.ready + n.held s.sim q

  -- The test accepts only packets that the link may not drop.
  abbrev pub OnlyReliable : (Packet → Bool) → Type 0
  OnlyReliable q = (k : Packet) → droppable k ≡ true → q k ≡ false

  kept-deliver :
      (s : SimPeer n) (k : Packet) (q : Packet → Bool)
      → kept (deliver n s k) q ≡ kept s q + count q (k ∷ [])
  unfolding kept deliver
  kept-deliver s k q = omega (arith, count-append q s.ready (k ∷ []))

  kept-deliver_all :
      (s : SimPeer n) (ks : List Packet) (q : Packet → Bool)
      → kept (deliver_all n s ks) q ≡ kept s q + count q ks
  unfolding deliver_all
  kept-deliver_all s [] q = omega arith
  kept-deliver_all s (k ∷ ks) q =
      ground (arith, kept-deliver s k q, kept-deliver_all (deliver n s k) ks q)

  -- A packet that finds no room is one that may be dropped.
  schedule_full :
      (sim : n.S) (k : Packet) (now : ℕ)
      → (n.schedule sim k.from (length k.data_bytes) (droppable k) now).0 ≡ none
      → droppable k ≡ true
  schedule_full sim k now e = elim (Bool-cases (droppable k)) [
    | inl f ↦ f
    | inr f ↦ ground (arith, n.schedule_reliable sim k.from (length k.data_bytes) now)
  ]

  held-hold :
      (sim : n.S) (k : Packet) (now : ℕ) (q : Packet → Bool)
      → OnlyReliable q
      → n.held (hold n sim k now) q ≡ n.held sim q + count q (k ∷ [])
  unfolding hold
  held-hold sim k now q only =
      let size = length k.data_bytes in
      let sim1 = (n.schedule sim k.from size (droppable k) now).1 in
      let same = n.held-schedule sim k.from size (droppable k) now q in
      elim (Option-cases (n.schedule sim k.from size (droppable k) now).0) [
        | inl e ↦ ground (arith, only k (schedule_full sim k now e), same)
        | inr (d, e) ↦ ground (arith, same, n.held-enqueue sim1 k.from d k now q)
      ]

  held-lose_or_hold :
      (sim : n.S) (k : Packet) (now : ℕ) (q : Packet → Bool)
      → OnlyReliable q
      → n.held (lose_or_hold n sim k now) q ≡ n.held sim q + count q (k ∷ [])
  unfolding lose_or_hold
  held-lose_or_hold sim k now q only = elim (Bool-cases (droppable k)) [
    | inl e ↦ elim (Bool-cases (n.loss_roll sim).0) [
      | inl f ↦ ground (arith, only k e, n.held-loss_roll sim q)
      | inr f ↦
          ground
            (arith, only k e, n.held-loss_roll sim q, held-hold (n.loss_roll sim).1 k now q only)
    ]
    | inr e ↦ ground (arith, held-hold sim k now q only)
  ]

  kept-receive :
      (active : Bool) (now : ℕ) (s : SimPeer n) (k : Packet) (q : Packet → Bool)
      → OnlyReliable q
      → kept (receive n active now s k) q ≡ kept s q + count q (k ∷ [])
  unfolding receive kept
  kept-receive active now s k q only =
      ground (arith, kept-deliver s k q, held-lose_or_hold s.sim k now q only)

  kept-receive_all :
      (active : Bool) (now : ℕ) (s : SimPeer n) (ks : List Packet) (q : Packet → Bool)
      → OnlyReliable q
      → kept (receive_all n active now s ks) q ≡ kept s q + count q ks
  unfolding receive_all
  kept-receive_all active now s [] q only = omega arith
  kept-receive_all active now s (k ∷ ks) q only = ground (
    arith,
    kept-receive active now s k q only,
    kept-receive_all active now (receive n active now s k) ks q only,
  )

  kept_pump :
      (s : SimPeer n) (now : ℕ) (q : Packet → Bool)
      → kept (record s { sim = (n.pump s.sim now).1 }) q + count q (n.pump s.sim now).0 ≡ kept s q
  unfolding kept
  kept_pump s now q = omega (arith, n.held-pump s.sim now q)

  -- A poll neither loses nor repeats a packet that the link may not drop: whatever a test accepts, if
  -- it accepts only such packets, as many are ready or held after it as before, plus those arrived.
  pub kept-poll :
      (s : SimPeer n) (arrived : List Packet) (now : ℕ) (q : Packet → Bool)
      → OnlyReliable q
      → kept (poll n s arrived now) q ≡ kept s q + count q arrived
  unfolding poll
  kept-poll s arrived now q only =
      let s1 = receive_all n (is_active n s.sim) now s arrived in
      let out = n.pump s1.sim now in
      let after : SimPeer n = record s1 { sim = out.1 } in
      omega (
        arith,
        kept-receive_all (is_active n s.sim) now s arrived q only,
        kept-deliver_all after out.0 q,
        kept_pump s1 now q,
      )

  receive_all_idle :
      (now : ℕ) (s : SimPeer n) (ks : List Packet)
      → n.pending s.sim ≡ 0
      → receive_all n false now s ks ≡ deliver_all n s ks
  unfolding receive_all receive deliver_all deliver
  receive_all_idle now s [] idle = refl
  receive_all_idle now s (k ∷ ks) idle = rw (idle, receive_all_idle now (deliver n s k) ks idle)

  ready-deliver_all :
      (s : SimPeer n) (ks : List Packet)
      → ((deliver_all n s ks).ready ≡ s.ready ++ ks) × ((deliver_all n s ks).sim ≡ s.sim)
  unfolding deliver_all deliver
  ready-deliver_all s [] = (sym (append-nil s.ready), refl)
  ready-deliver_all s (k ∷ ks) =
      let rest = ready-deliver_all (deliver n s k) ks in
      (rest.0 ∙ append_assoc s.ready (k ∷ []) ks, rest.1)

  -- With the sim off and nothing held, what arrives is ready to read at once, all of it and in order,
  -- behind what was, and the sim is left as it was.
  pub poll_idle :
      (s : SimPeer n) (arrived : List Packet) (now : ℕ)
      → is_active n s.sim ≡ false
      → n.pending s.sim ≡ 0
      → ((poll n s arrived now).ready ≡ s.ready ++ arrived) × ((poll n s arrived now).sim ≡ s.sim)
  unfolding poll deliver_all
  poll_idle s arrived now off idle =
      let kept_sim = (ready-deliver_all s arrived).1 in
      rw
        (
          off,
          receive_all_idle now s arrived idle,
          kept_sim,
          n.pump_idle s.sim now idle,
          (ready-deliver_all s arrived).0,
        )
        (refl, refl)

  counters-deliver_all :
      (s : SimPeer n) (ks : List Packet)
      → (deliver_all n s ks).delivered_packets + length s.ready
        ≡ s.delivered_packets + length (deliver_all n s ks).ready
  unfolding deliver_all deliver
  counters-deliver_all s [] = omega arith
  counters-deliver_all s (k ∷ ks) =
      omega (arith, counters-deliver_all (deliver n s k) ks, length-append s.ready (k ∷ []))

  counters-receive_all :
      (active : Bool) (now : ℕ) (s : SimPeer n) (ks : List Packet)
      → (receive_all n active now s ks).delivered_packets + length s.ready
        ≡ s.delivered_packets + length (receive_all n active now s ks).ready
  unfolding receive_all receive deliver
  counters-receive_all active now s [] = omega arith
  counters-receive_all active now s (k ∷ ks) = ground (
    arith,
    counters-receive_all active now (receive n active now s k) ks,
    length-append s.ready (k ∷ []),
  )

  -- The packets that a poll counts as delivered are those it adds to what is ready.
  pub counters-poll :
      (s : SimPeer n) (arrived : List Packet) (now : ℕ)
      → (poll n s arrived now).delivered_packets + length s.ready
        ≡ s.delivered_packets + length (poll n s arrived now).ready
  unfolding poll
  counters-poll s arrived now =
      let s1 = receive_all n (is_active n s.sim) now s arrived in
      let out = n.pump s1.sim now in
      let after : SimPeer n = record s1 { sim = out.1 } in
      omega (
        arith,
        counters-receive_all (is_active n s.sim) now s arrived,
        counters-deliver_all after out.0,
      )
