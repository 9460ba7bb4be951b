-- ===== src/Messages/Link/Account.antt =====
-- What a call does to the sender, and which messages it hands the core.
use goldnet_godot.Common.{
  ℕ, ◌≡◌, refl, Bool, true, false, ◌&&◌, ◌||◌, not, String, Option, none, some, Option-cases, List,
  [], ◌∷◌, map, length, HashMap, get, put, get-put, nat_eq, string_eq, ltb, ◌==◌, ==_refl,
  if◌then◌else◌, arith, inl, inr,
}
use goldnet_godot.Platform.{Platform, Variant}
use goldnet_godot.Messages.{
  max_unreliable_message, key, Messages, Stats, Queued, reliable, unreliable, at_peer, msg_id,
  is_known, put_call, put_registration, queue_call, send_message,
}
use goldnet_godot.Messages.Link.{queued, sent_wires, Link, stats, wires}

at_peer-put : {V : Type 0} (m : HashMap ℕ (List V)) (k : ℕ) (v : List V) → at_peer (put m k v) k ≡ v
unfolding at_peer
at_peer-put m k v = ground (arith, get-put m k k v, ==_refl k)

pub at_peer_apart :
    {V : Type 0} (m : HashMap ℕ (List V)) (j k : ℕ) (v : List V)
    → (j == k) ≡ false
    → at_peer (put m j v) k ≡ at_peer m k
unfolding at_peer
at_peer_apart m j k v apart = ground (arith, get-put m j k v)

module _ (p : Platform) where
  open p use {F, O}

  -- The registrations that the sender has noted after a call.
  abbrev pub noted_after : HashMap ℕ ℕ → Option ℕ → Bool → Bool → ℕ → ℕ → HashMap ℕ ℕ
  noted_after r o false true i queued = r
  noted_after r none false false i queued = put r i queued
  noted_after r (some at) false false i queued = r
  noted_after r none true big i queued = put r i queued
  noted_after r (some at) true big i queued = r

  -- The end of _send_message, once it has the id.
  abbrev finish :
      Messages
      → Stats
      → ℕ
      → ℕ
      → String
      → String
      → List (Variant F O)
      → Bool
      → Messages × List Queued × Bool
  finish s1 st peer i path method args rel =
      let r = at_peer s1.msg_registered peer in
      let body = put_call p (rel || is_known (get r i) st.delivered) i path method args in
      if not rel && ltb max_unreliable_message (length body)
      then (record s1 { msg_registered = put s1.msg_registered peer r }, [], false)
      else queue_call p s1 st peer i (put_registration p i path method) body rel

  -- A call's outcome is the one told by these messages and these registrations.
  abbrev pub Told :
      Messages
      → Stats
      → ℕ
      → ℕ
      → String
      → String
      → List (Variant F O)
      → Bool
      → Option ℕ
      → Bool
      → Messages × List Queued × Bool
      → Type 0
  Told s1 st peer i path method args rel o big out =
      (out.1 ≡ map (queued p) (sent_wires p o st.delivered rel big i path method args))
      × (out.0.msg_ids ≡ s1.msg_ids)
      × (out.0.msg_next_id ≡ s1.msg_next_id)
      × (at_peer out.0.msg_registered peer
          ≡ noted_after (at_peer s1.msg_registered peer) o rel big i st.queued)
      × ((k : ℕ)
          → (peer == k) ≡ false
          → at_peer out.0.msg_registered k ≡ at_peer s1.msg_registered k)

  queue_call_new :
      (s : Messages) (st : Stats) (peer i : ℕ) (reg body : List ℕ) (rel : Bool)
      → get (at_peer s.msg_registered peer) i ≡ none
      → queue_call p s st peer i reg body rel ≡ (
        record s {
          msg_registered =
              put s.msg_registered peer (put (at_peer s.msg_registered peer) i st.queued);
        },
        reliable reg ∷ (if rel then reliable body else unreliable body) ∷ [],
        true,
      )
  unfolding queue_call
  queue_call_new s st peer i reg body rel e = rw (e, queue_call) refl

  queue_call_known :
      (s : Messages) (st : Stats) (peer i at : ℕ) (reg body : List ℕ) (rel : Bool)
      → get (at_peer s.msg_registered peer) i ≡ some at
      → queue_call p s st peer i reg body rel ≡ (
        record s { msg_registered = put s.msg_registered peer (at_peer s.msg_registered peer) },
        (if rel then reliable body else unreliable body) ∷ [],
        true,
      )
  unfolding queue_call
  queue_call_known s st peer i at reg body rel e = rw (e, queue_call) refl

  finish_lem :
      (s1 : Messages) (st : Stats) (peer i : ℕ) (path method : String) (args : List (Variant F O))
      (rel : Bool) (o : Option ℕ) (big : Bool)
      → get (at_peer s1.msg_registered peer) i ≡ o
      → ltb max_unreliable_message
          (length (put_call p (is_known o st.delivered) i path method args))
        ≡ big
      → Told s1 st peer i path method args rel o big (finish s1 st peer i path method args rel)
  unfolding is_known
  finish_lem s1 st peer i path method args false none true e b =
      rw (e, b)
        (
          refl,
          refl,
          refl,
          at_peer-put s1.msg_registered peer (at_peer s1.msg_registered peer),
          λ k a. at_peer_apart s1.msg_registered peer k (at_peer s1.msg_registered peer) a,
        )
  finish_lem s1 st peer i path method args false (some at) true e b =
      rw (e, b)
        (
          refl,
          refl,
          refl,
          at_peer-put s1.msg_registered peer (at_peer s1.msg_registered peer),
          λ k a. at_peer_apart s1.msg_registered peer k (at_peer s1.msg_registered peer) a,
        )
  finish_lem s1 st peer i path method args false none false e b =
      let reg = put_registration p i path method in
      let body = put_call p false i path method args in
      let r = at_peer s1.msg_registered peer in
      rw (e, b, queue_call_new s1 st peer i reg body false e)
        (
          refl,
          refl,
          refl,
          at_peer-put s1.msg_registered peer (put r i st.queued),
          λ k a. at_peer_apart s1.msg_registered peer k (put r i st.queued) a,
        )
  finish_lem s1 st peer i path method args false (some at) false e b =
      let reg = put_registration p i path method in
      let body = put_call p (ltb at st.delivered) i path method args in
      rw (e, b, queue_call_known s1 st peer i at reg body false e)
        (
          refl,
          refl,
          refl,
          at_peer-put s1.msg_registered peer (at_peer s1.msg_registered peer),
          λ k a. at_peer_apart s1.msg_registered peer k (at_peer s1.msg_registered peer) a,
        )
  finish_lem s1 st peer i path method args true none big e b =
      let reg = put_registration p i path method in
      let body = put_call p true i path method args in
      let r = at_peer s1.msg_registered peer in
      rw (queue_call_new s1 st peer i reg body true e) (
        refl,
        refl,
        refl,
        at_peer-put s1.msg_registered peer (put r i st.queued),
        λ k a. at_peer_apart s1.msg_registered peer k (put r i st.queued) a,
      )
  finish_lem s1 st peer i path method args true (some at) big e b =
      let reg = put_registration p i path method in
      let body = put_call p true i path method args in
      rw (queue_call_known s1 st peer i at reg body true e) (
        refl,
        refl,
        refl,
        at_peer-put s1.msg_registered peer (at_peer s1.msg_registered peer),
        λ k a. at_peer_apart s1.msg_registered peer k (at_peer s1.msg_registered peer) a,
      )

  -- The messages and the state of a call, told by where its id was registered and whether it is too big.
  abbrev pub Accounts : Messages → Stats → ℕ → String → String → List (Variant F O) → Bool → Type 0
  Accounts s st peer path method args rel =
      let (s1, i) = msg_id s (key path method) in
      let o = get (at_peer s1.msg_registered peer) i in
      let short = put_call p (is_known o st.delivered) i path method args in
      Told s1 st peer i path method args rel o (ltb max_unreliable_message (length short))
        (send_message p s st peer path method args rel)

  pub send_message-Accounts :
      (s : Messages) (st : Stats) (peer : ℕ) (path method : String) (args : List (Variant F O))
      (rel : Bool)
      → Accounts s st peer path method args rel
  unfolding send_message
  send_message-Accounts s st peer path method args rel =
      let s1 = (msg_id s (key path method)).0 in
      let i = (msg_id s (key path method)).1 in
      finish_lem s1 st peer i path method args rel (get (at_peer s1.msg_registered peer) i)
        (ltb max_unreliable_message (
          length (
            put_call p (is_known (get (at_peer s1.msg_registered peer) i) st.delivered) i path
              method args)))
        refl refl

  -- What a call hands the core are the encodings of the messages that the link's send names, in order: a
  -- registration where the id has none, then the call, by its id alone where the registration is known
  -- to be delivered; and nothing where an unreliable call is too big for a datagram.
  pub send_message-wires :
      (l : Link p) (peer : ℕ) (path method : String) (args : List (Variant F O)) (rel : Bool)
      → (send_message p l.sender (stats p l) peer path method args rel).1
        ≡ map (queued p) (wires p l peer path method args rel)
  unfolding wires
  send_message-wires l peer path method args rel =
      (send_message-Accounts l.sender (stats p l) peer path method args rel).0

pub registered-msg_id :
    (s : Messages) (k : String) → (msg_id s k).0.msg_registered ≡ s.msg_registered
unfolding msg_id
registered-msg_id s k = elim (Option-cases (get s.msg_ids k)) [
  | inl e ↦ rw (e, msg_id) refl
  | inr (i, e) ↦ rw (e, msg_id) refl
]
