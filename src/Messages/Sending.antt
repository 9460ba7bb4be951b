-- ===== src/Messages/Sending.antt =====
-- What _send_message hands the core.
use goldnet_godot.Common.{
  ℕ, ◌≤◌, ◌≡◌, ◌⊎◌, refl, Bool, true, false, Bool-cases, String, Option-cases, List, [], ◌∷◌,
  length, All, get, ltb, if◌then◌else◌, arith, inl, inr, nat_eq,
}
use goldnet_godot.Platform.{Platform, Variant}
use goldnet_godot.Messages.{
  max_unreliable_message, key, Messages, Stats, Queued, reliable, unreliable, at_peer, msg_id,
  is_known, put_call, put_registration, queue_call, send_message,
}

-- A message that fits: any reliable one, and an unreliable one of at most 512 bytes.
abbrev pub Fitting : Queued → Type 0
Fitting (reliable b) = Unit
Fitting (unreliable b) = length b ≤ max_unreliable_message

-- One of the messages.
abbrev pub Queues : Queued → List Queued → Type 0
Queues q [] = ⊥
Queues q (x ∷ xs) = (x ≡ q) ⊎ Queues q xs

module _ (p : Platform) where
  open p use {F, O}

  queue_call_lem :
      (s : Messages) (st : Stats) (peer i : ℕ) (registration call : List ℕ)
      → (queue_call p s st peer i registration call true).2 ≡ true
        × Queues (reliable call) (queue_call p s st peer i registration call true).1
  unfolding queue_call
  queue_call_lem s st peer i registration call =
      elim (Option-cases (get (at_peer s.msg_registered peer) i)) [
        | inl e ↦ rw (e, queue_call) (refl, inr (inl refl))
        | inr (r, e) ↦ rw (e, queue_call) (refl, inl refl)
      ]

  queue_call-Fitting :
      (s : Messages) (st : Stats) (peer i : ℕ) (registration call : List ℕ) (rel : Bool)
      → Fitting (if rel then reliable call else unreliable call)
      → (queue_call p s st peer i registration call rel).2 ≡ true
        × All Fitting (queue_call p s st peer i registration call rel).1
  unfolding queue_call
  queue_call-Fitting s st peer i registration call rel fits =
      elim (Option-cases (get (at_peer s.msg_registered peer) i)) [
        | inl e ↦ rw (e, queue_call) (refl, (tt, (fits, tt)))
        | inr (r, e) ↦ rw (e, queue_call) (refl, (fits, tt))
      ]

  -- A reliable call is always taken, and one of the messages queued for it is the call by id, under the
  -- id that its path and method have.
  pub send_message_reliable :
      (s : Messages) (st : Stats) (peer : ℕ) (path method : String) (args : List (Variant F O))
      → (send_message p s st peer path method args true).2 ≡ true
        × Queues
            (reliable (put_call p true (msg_id s (key path method)).1 path method args))
            (send_message p s st peer path method args true).1
  unfolding send_message
  send_message_reliable s st peer path method args =
      queue_call_lem (msg_id s (key path method)).0 st peer (msg_id s (key path method)).1
        (put_registration p (msg_id s (key path method)).1 path method)
        (put_call p true (msg_id s (key path method)).1 path method args)

  -- No send queues an unreliable message of more than 512 bytes, and one that is not taken queues
  -- nothing.
  pub send_message-Fitting :
      (s : Messages) (st : Stats) (peer : ℕ) (path method : String) (args : List (Variant F O))
      (rel : Bool)
      → All Fitting (send_message p s st peer path method args rel).1
        × ((send_message p s st peer path method args rel).2 ≡ false
            → (send_message p s st peer path method args rel).1 ≡ [])
  unfolding send_message
  send_message-Fitting s st peer path method args true =
      let i = (msg_id s (key path method)).1 in
      let queued =
        queue_call-Fitting (msg_id s (key path method)).0 st peer i
          (put_registration p i path method) (put_call p true i path method args) true tt in
      (queued.1, λ e. ground (arith, queued.0))
  send_message-Fitting s st peer path method args false =
      let s1 = (msg_id s (key path method)).0 in
      let i = (msg_id s (key path method)).1 in
      let known = is_known (get (at_peer s1.msg_registered peer) i) st.delivered in
      let call = put_call p known i path method args in
      elim (Bool-cases (ltb max_unreliable_message (length call))) [
        | inl e ↦ rw (e, send_message) (tt, λ f. refl)
        | inr e ↦
            let queued =
              queue_call-Fitting s1 st peer i (put_registration p i path method) call false
                (ground (arith, e)) in
            rw (e, send_message) (queued.1, λ f. ground (arith, queued.0))
      ]
