-- ===== src/Senders/Nesting.antt =====
-- What a method is told of its sender, however deliveries nest.
use goldnet_godot.Common.{
  ℕ, ◌<◌, ◌≡◌, refl, ap, Option, none, some, List, [], ◌∷◌, ◌++◌, ◌∙◌, arith,
}
use goldnet_godot.Senders.{
  Act, ask, uplink, snapshot, Body, done, next, get_remote_sender_id, run_act, run,
}

-- The peer that a call being delivered counts as, as what command_sender holds.
abbrev pub sender_of : Option ℕ → ℕ
sender_of none = 0
sender_of (some peer) = peer

-- The inner API names a peer, never 0, for every packet.
abbrev mutual
  pub FromPeersAct : Act → Type 0
  FromPeersAct (ask of_inner) = Unit
  FromPeersAct (uplink of_inner body) = (0 < of_inner) × FromPeers body
  FromPeersAct (snapshot body) = FromPeers body

  pub FromPeers : Body → Type 0
  FromPeers done = Unit
  FromPeers (next act body) = FromPeersAct act × FromPeers body

-- The senders to be answered: outside of all calls what the inner API says; within a call that a client's
-- packet makes, that client, also for every packet that the inner API takes from another client
-- meanwhile; and within one that a snapshot makes, the server.
abbrev mutual
  pub told_act : Option ℕ → Act → List ℕ
  told_act none (ask of_inner) = of_inner ∷ []
  told_act (some peer) (ask of_inner) = peer ∷ []
  told_act none (uplink of_inner body) = told (some of_inner) body
  told_act (some outer) (uplink of_inner body) = told (some outer) body
  told_act within (snapshot body) = told (some 1) body

  pub told : Option ℕ → Body → List ℕ
  told within done = []
  told within (next act body) = told_act within act ++ told within body

-- The sender within a call, if there is one, is a peer.
abbrev InPeer : Option ℕ → Type 0
InPeer none = Unit
InPeer (some peer) = 0 < peer

mutual
  unfolding run_act run get_remote_sender_id

  run_act-told :
      (within : Option ℕ) (act : Act)
      → InPeer within
      → FromPeersAct act
      → run_act (sender_of within) act ≡ (sender_of within, told_act within act)
  run_act-told none (ask of_inner) h f = refl
  run_act-told (some peer) (ask of_inner) h f = ground arith
  run_act-told none (uplink of_inner body) h (pos, f) =
      ap (λ (r : ℕ × List ℕ). (0, r.1)) (run-told_within (some of_inner) body pos f)
  run_act-told (some outer) (uplink of_inner body) h (pos, f) =
      let same : get_remote_sender_id outer of_inner ≡ outer = ground (arith, h) in
      ap (λ (peer : ℕ). (outer, (run peer body).1)) same
      ∙ ap (λ (r : ℕ × List ℕ). (outer, r.1)) (run-told_within (some outer) body h f)
  run_act-told none (snapshot body) h f =
      ap (λ (r : ℕ × List ℕ). (0, r.1)) (run-told_within (some 1) body (omega arith) f)
  run_act-told (some outer) (snapshot body) h f =
      ap (λ (r : ℕ × List ℕ). (outer, r.1)) (run-told_within (some 1) body (omega arith) f)

  run-told_within :
      (within : Option ℕ) (body : Body)
      → InPeer within
      → FromPeers body
      → run (sender_of within) body ≡ (sender_of within, told within body)
  run-told_within within done h f = refl
  run-told_within within (next act body) h (f, g) =
      rw (run_act-told within act h f, run-told_within within body h g) refl

-- However deliveries nest, every question for the sender is answered outside of all calls by the inner
-- API; within a call that a snapshot makes, with the server; and within one that a packet makes, with
-- the peer of the outermost packet around it that no snapshot's call comes between, whoever sent the
-- packets inside. Afterwards no sender is left. Every packet's peer is positive, and no call is being
-- delivered at the start.
pub run-told : (body : Body) → FromPeers body → run 0 body ≡ (0, told none body)
run-told body f = run-told_within none body tt f
