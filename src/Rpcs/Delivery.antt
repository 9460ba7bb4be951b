-- ===== src/Rpcs/Delivery.antt =====
-- A reliable RPC on the netchan goes to each of its targets.
use Prim.Native.String.{◌++◌ as concat}
use goldnet_godot.Common.{
  ◌∙◌, refl, false, none, some, get, put, get-put, HashMap, string_eq, nat_eq, Option-cases, ℕ, ◌≡◌,
  ◌⊎◌, ap, true, Bool-cases, String, List, [], ◌∷◌, ◌++◌, map, any, ◌==◌, ==_iff, arith, inl, inr,
}
use mathlib.Core.Path.{subst}
use goldnet_godot.Platform.{Platform, Variant}
use goldnet_godot.Messages.{
  Messages, Stats, Queued, reliable, at_peer, put_call, put_registration, queue_call, send_message,
  key, msg_id,
}
use goldnet_godot.Messages.Link.Account.{at_peer_apart}
use goldnet_godot.Messages.Sending.{Queues, send_message_reliable}
use goldnet_godot.Rpcs.{SendSim, Out, queue, Answers, check_overflow}
use goldnet_godot.Rpcs.Routing.{Rpcs, send_to, send_to_each}

-- One of the things that a call asks for.
abbrev pub Asks : {F : Type 0} → Out F → List (Out F) → Type 0
Asks o [] = ⊥
Asks o (x ∷ xs) = (x ≡ o) ⊎ Asks o xs

module _ {F : Type 0} where
  Asks-left : (o : Out F) (xs ys : List (Out F)) → Asks o xs → Asks o (xs ++ ys)
  Asks-left o [] ys h = elim h [ ]
  Asks-left o (x ∷ xs) ys (inl e) = inl e
  Asks-left o (x ∷ xs) ys (inr h) = inr (Asks-left o xs ys h)

  Asks-right : (o : Out F) (xs ys : List (Out F)) → Asks o ys → Asks o (xs ++ ys)
  Asks-right o [] ys h = h
  Asks-right o (x ∷ xs) ys h = inr (Asks-right o xs ys h)

Asks-map :
    (F : Type 0) (t : ℕ) (q : Queued) (qs : List Queued)
    → Queues q qs
    → Asks {F = F} (queue t q) (map (queue t) qs)
Asks-map F t q [] h = elim h [ ]
Asks-map F t q (x ∷ xs) (inl e) = inl (ap (queue t) e)
Asks-map F t q (x ∷ xs) (inr h) = inr (Asks-map F t q xs h)

msg_id_names :
    (s : Messages) (k : String)
    → (get (msg_id s k).0.msg_ids k ≡ some (msg_id s k).1)
      × ((msg_id s k).0.msg_registered ≡ s.msg_registered)
unfolding msg_id
msg_id_names s k = elim (Option-cases (get s.msg_ids k)) [
  | inl e ↦
      rw (e, msg_id)
        (ground (arith, get-put s.msg_ids k k s.msg_next_id, string_eq.beq_iff k k), refl)
  | inr (i, e) ↦ rw (e, msg_id) (e, refl)
]

msg_id_kept : (s : Messages) (k : String) (i : ℕ) → get s.msg_ids k ≡ some i → msg_id s k ≡ (s, i)
unfolding msg_id
msg_id_kept s k i e = rw (e, msg_id) refl

module _ (p : Platform) (n : SendSim) where
  open p use {F, O}

  -- What a reliable send leaves of names: its path and method keep their id, other peers' registrations
  -- are as they were; and where its peer has no registration of the id, one is queued.
  queue_call_names :
      (s : Messages) (st : Stats) (t i : ℕ) (registration call : List ℕ)
      → let queued = queue_call p s st t i registration call true in
        (queued.0.msg_ids ≡ s.msg_ids)
        × (get (at_peer s.msg_registered t) i ≡ none → Queues (reliable registration) queued.1)
        × ((k : ℕ)
            → (t == k) ≡ false
            → at_peer queued.0.msg_registered k ≡ at_peer s.msg_registered k)
  unfolding queue_call
  queue_call_names s st t i registration call =
      let r = at_peer s.msg_registered t in
      elim (Option-cases (get r i)) [
        | inl e ↦
            rw (e, queue_call)
              (refl, λ h. inl refl, λ k. at_peer_apart s.msg_registered t k (put r i st.queued))
        | inr (x, e) ↦
            rw (e, queue_call)
              (refl, λ h. absurd (ground (arith, h)), λ k. at_peer_apart s.msg_registered t k r)
      ]

  -- The netchan is asked to carry the call to a peer reliably, under the id of its path and method, and
  -- to register the id with its path and method where the peer had no registration of it.
  abbrev pub Carried :
      Messages → Messages → ℕ → String → String → List (Variant F O) → List (Out F) → Type 0
  Carried before after t path method args outs =
      (i : ℕ) × (get after.msg_ids (concat path (concat "::" method)) ≡ some i)
      × Asks (queue t (reliable (put_call p true i path method args))) outs
      × (get (at_peer before.msg_registered t) i ≡ none
          → Asks (queue t (reliable (put_registration p i path method))) outs)

  send_to_names :
      (s : Rpcs p n) (a : Answers) (path method : String) (args : List (Variant F O)) (t : ℕ)
      → let after = (send_to p n s a path method args true t).0.messages in
        (get after.msg_ids (key path method) ≡ some (msg_id s.messages (key path method)).1)
        × ((k : ℕ)
            → (t == k) ≡ false
            → at_peer after.msg_registered k ≡ at_peer s.messages.msg_registered k)
  unfolding send_to
  send_to_names s a path method args t =
      let m = s.messages in
      let (named, same) = msg_id_names m (key path method) in
      let i = (msg_id m (key path method)).1 in
      let (ids, registers, others) =
        queue_call_names (msg_id m (key path method)).0 (a.stats t) t i
          (put_registration p i path method) (put_call p true i path method args) in
      let taken = send_message_reliable p m (a.stats t) t path method args in
      rw (taken.0, send_to)
        (unfold send_message in
          (
            ap (λ (ms : HashMap String ℕ). get ms (key path method)) ids ∙ named,
            λ k apart. others k apart ∙ ap (λ (rs : HashMap ℕ (HashMap ℕ ℕ)). at_peer rs k) same,
          ))

  Carried-send_to :
      (s : Rpcs p n) (a : Answers) (path method : String) (args : List (Variant F O)) (t : ℕ)
      → let (s1, outs) = send_to p n s a path method args true t in
        Carried s.messages s1.messages t path method args outs
  unfolding key
  Carried-send_to s a path method args t =
      let m = s.messages in
      let sending = send_message p m (a.stats t) t path method args true in
      let (named, same) = msg_id_names m (key path method) in
      let i = (msg_id m (key path method)).1 in
      let (ids, registers, others) =
        queue_call_names (msg_id m (key path method)).0 (a.stats t) t i
          (put_registration p i path method) (put_call p true i path method args) in
      let taken = send_message_reliable p m (a.stats t) t path method args in
      let queued_too = λ (q : Queued) (h : Queues q sending.1).
        Asks-left (queue t q) (map (queue t) sending.1) (check_overflow p a t)
          (Asks-map F t q sending.1 h) in
      let registers_it : get (at_peer m.msg_registered t) i ≡ none
          → Queues (reliable (put_registration p i path method)) sending.1 =
        unfold send_message in
        λ h. registers (ap (λ (rs : HashMap ℕ (HashMap ℕ ℕ)). get (at_peer rs t) i) same ∙ h) in
      let name_it = (send_to_names s a path method args t).0 in
      (
        i,
        name_it,
        unfold send_to in
            rw (taken.0) (queued_too (reliable (put_call p true i path method args)) taken.1),
        λ h.
            unfold send_to in
            rw (taken.0)
              (queued_too (reliable (put_registration p i path method)) (registers_it h)),
      )

  -- Sends of the same call to further peers leave its id.
  id_kept :
      (s : Rpcs p n) (a : Answers) (path method : String) (args : List (Variant F O)) (ts : List ℕ)
      (i : ℕ)
      → get s.messages.msg_ids (key path method) ≡ some i
      → get (send_to_each p n s a path method args true ts).0.messages.msg_ids (key path method)
        ≡ some i
  unfolding send_to_each
  id_kept s a path method args [] i e = e
  id_kept s a path method args (t ∷ ts) i e =
      let same = ap (λ (r : Messages × ℕ). r.1) (msg_id_kept s.messages (key path method) i e) in
      id_kept (send_to p n s a path method args true t).0 a path method args ts i
        ((send_to_names s a path method args t).0 ∙ ap some same)

  -- A reliable call that a server makes on the netchan is queued reliably, its arguments with it, to
  -- every one of its targets, under the id that "path::method" then has; and a target that had no
  -- registration of the id gets one, of this path and method.
  pub Carried-send_to_each :
      (s : Rpcs p n) (a : Answers) (path method : String) (args : List (Variant F O)) (t : ℕ)
      (ts : List ℕ)
      → any (λ u. u == t) ts ≡ true
      → let (s1, outs) = send_to_each p n s a path method args true ts in
        Carried s.messages s1.messages t path method args outs
  unfolding send_to_each key
  Carried-send_to_each s a path method args t [] among = absurd (ground (arith, among))
  Carried-send_to_each s a path method args t (u ∷ us) among =
      let first = send_to p n s a path method args true u in
      let rest = send_to_each p n first.0 a path method args true us in
      let (named, others) = send_to_names s a path method args u in
      elim (Bool-cases (u == t)) [
        | inl e ↦
            let at : u ≡ t = (==_iff u t).0 e in
            let (i, name, call, registers) =
              subst (λ k. Carried s.messages first.0.messages k path method args first.1) at
                (Carried-send_to s a path method args u) in
            (
              i,
              id_kept first.0 a path method args us i name,
              Asks-left (queue t (reliable (put_call p true i path method args))) first.1 rest.1
                  call,
              λ h.
                  Asks-left (queue t (reliable (put_registration p i path method))) first.1 rest.1
                    (registers h),
            )
        | inr e ↦
            let (i, name, call, registers) =
              Carried-send_to_each first.0 a path method args t us (ground (arith, among, e)) in
            (
              i,
              name,
              Asks-right (queue t (reliable (put_call p true i path method args))) first.1 rest.1
                  call,
              λ h.
                  Asks-right (queue t (reliable (put_registration p i path method))) first.1 rest.1
                    (registers (ap (λ (r : HashMap ℕ ℕ). get r i) (others t e) ∙ h)),
            )
      ]
