-- ===== src/Messages/Link.antt =====
-- Two ends of the netchan, in src/goldnet_multiplayer.cpp: one end's _send_message to a peer, the
-- other's _deliver_message, and the core's channels between them. The core promises a reliable stream
-- that arrives whole and in order; a datagram is lost, repeated or late as the network has it. Nodes
-- and methods have names whose key tells them apart.
pub mod Targets
pub mod Invariant
pub mod Delivery
pub mod Account
pub mod Sending
pub mod Safety
mod Examples
use goldnet_godot.Common.{
  ℕ, ◌+◌, ◌%◌, ◌^◌, ◌<◌, ◌≡◌, Bool, true, false, ◌&&◌, ◌||◌, not, String, Option, none, some, List,
  [], ◌∷◌, ◌++◌, length, get_elem?, HashMap, get, put, ltb, ◌==◌, nat_eq, string_eq, if◌then◌else◌,
}
use goldnet_godot.Platform.{Platform, Variant}
use goldnet_godot.Messages.{
  max_unreliable_message, key, Messages, MsgTarget, Stats, Queued, reliable, unreliable, World,
  at_peer, msg_id, is_known, init, forget_peer, forget_peers, put_registration, put_call,
  send_message, deliver_to,
}
use goldnet_godot.Messages.Wire.{Sendable}

-- The paths and methods that the calls name: their UTF-8 has a length of 32 bits, and "path::method"
-- tells them apart, since neither a node's name nor a method's has a colon.
pub record Naming (p : Platform) : Type 1 where
  pub Named : String → String → Type 0
  pub fits :
      (path method : String)
      → Named path method
      → (length (p.utf8 path) < 2 ^ 32) × (length (p.utf8 method) < 2 ^ 32)
  pub apart :
      (path method path' method' : String)
      → Named path method
      → Named path' method'
      → key path method ≡ key path' method'
      → (path ≡ path') × (method ≡ method')

module _ (p : Platform) where
  open p use {F, O}

  -- A message between the ends.
  pub data Wire : Type 0 where
    registration : ℕ → String → String → Wire
    call : Bool → ℕ → String → String → List (Variant F O) → Wire

  abbrev pub encode : Wire → List ℕ
  encode (registration i path method) = put_registration p i path method
  encode (call short i path method args) = put_call p short i path method args

  -- One that a send hands the core: on the stream, or as a datagram.
  pub data Sent : Type 0 where
    streamed datagram : Wire → Sent

  abbrev pub queued : Sent → Queued
  queued (streamed m) = reliable (encode m)
  queued (datagram m) = unreliable (encode m)

  -- The two ends: the sender, all it has put on the stream so far, how much of that has been
  -- delivered, how much the sender knows to be, the datagrams it has sent, and the targets that the
  -- receiver keeps of it.
  pub record Link : Type 0 where
    pub sender : Messages
    pub stream : List Wire
    pub delivered : ℕ
    pub acked : ℕ
    pub flying : List Wire
    pub targets : HashMap ℕ MsgTarget

  abbrev pub streamed_of : List Sent → List Wire
  streamed_of [] = []
  streamed_of (streamed m ∷ ms) = m ∷ streamed_of ms
  streamed_of (datagram m ∷ ms) = streamed_of ms

  abbrev pub datagrams_of : List Sent → List Wire
  datagrams_of [] = []
  datagrams_of (streamed m ∷ ms) = datagrams_of ms
  datagrams_of (datagram m ∷ ms) = m ∷ datagrams_of ms

  -- The core's account of the stream, as the sender reads it.
  abbrev pub stats : Link → Stats
  stats l = record { queued = length l.stream; delivered = l.acked }

  abbrev pub registered : Link → ℕ → HashMap ℕ ℕ
  registered l peer = at_peer l.sender.msg_registered peer

  -- What a call hands the core, as messages: of where its id was registered, how much the sender
  -- knows to be delivered, whether the call is reliable, and whether it is too big for a datagram.
  abbrev pub sent_wires :
      Option ℕ → ℕ → Bool → Bool → ℕ → String → String → List (Variant F O) → List Sent
  sent_wires o acked false true i path method args = []
  sent_wires none acked false false i path method args =
      streamed (registration i path method) ∷ datagram (call false i path method args) ∷ []
  sent_wires (some at) acked false false i path method args =
      datagram (call (ltb at acked) i path method args) ∷ []
  sent_wires none acked true big i path method args =
      streamed (registration i path method) ∷ streamed (call true i path method args) ∷ []
  sent_wires (some at) acked true big i path method args =
      streamed (call true i path method args) ∷ []

  unfoldable pub wires : Link → ℕ → String → String → List (Variant F O) → Bool → List Sent
  wires l peer path method args rel =
      let (s, i) = msg_id l.sender (key path method) in
      let o = get (at_peer s.msg_registered peer) i in
      let short = put_call p (is_known o l.acked) i path method args in
      sent_wires o l.acked rel (ltb max_unreliable_message (length short)) i path method args

  unfoldable pub after_send : Link → ℕ → String → String → List (Variant F O) → Bool → Link
  after_send l peer path method args rel =
      let ms = wires l peer path method args rel in
      record l {
        sender = (send_message p l.sender (stats l) peer path method args rel).0;
        stream = l.stream ++ streamed_of ms;
        flying = l.flying ++ datagrams_of ms;
      }

  unfoldable pub after_delivery : Link → World → ℕ → Wire → Link
  after_delivery l w from m = record l { targets = (deliver_to p l.targets w from (encode m)).0 }

  -- A session's start: the channel is a new one, and the receiver knows nothing of the sender, as both
  -- _forget_peer and _reset_client_state see to.
  abbrev pub renewed : Messages → Link
  renewed s = record {
    sender = s;
    stream = [];
    delivered = 0;
    acked = 0;
    flying = [];
    targets = [];
  }

  -- A step of either end or of the network: a call to this peer or to another, a delivery from the
  -- stream, the arrival of some datagram sent, the sender's learning how much was delivered, and the end
  -- of a session: the sender forgets this peer, all peers, or another. The sender's ids have not run
  -- out of 32 bits.
  pub data Step (n : Naming p) (peer from : ℕ) (l : Link) : Link → Type 0 where
    send :
        (path method : String) (args : List (Variant F O)) (rel : Bool)
        → n.Named path method
        → Sendable p args
        → l.sender.msg_next_id + 1 < 2 ^ 32
        → Step n peer from l (after_send l peer path method args rel)
    elsewhere :
        (other_peer : ℕ) (st : Stats) (path method : String) (args : List (Variant F O))
        (rel : Bool)
        → (other_peer == peer) ≡ false
        → n.Named path method
        → l.sender.msg_next_id + 1 < 2 ^ 32
        → Step n peer from l
            (record l { sender = (send_message p l.sender st other_peer path method args rel).0 })
    deliver :
        (w : World) (m : Wire)
        → get_elem? l.stream l.delivered ≡ some m
        → Step n peer from l (record (after_delivery l w from m) { delivered = l.delivered + 1 })
    arrive :
        (w : World) (k : ℕ) (m : Wire)
        → get_elem? l.flying k ≡ some m
        → Step n peer from l (after_delivery l w from m)
    ack : Step n peer from l (record l { acked = l.delivered })
    parts : Step n peer from l (renewed (forget_peer l.sender peer))
    resets : Step n peer from l (renewed (forget_peers l.sender))
    parts_elsewhere :
        (other_peer : ℕ)
        → (other_peer == peer) ≡ false
        → Step n peer from l (record l { sender = forget_peer l.sender other_peer })

  -- The first session: neither end knows anything of the other.
  abbrev pub fresh : Link
  fresh = renewed init

  pub data Reach (n : Naming p) (peer from : ℕ) : Link → Type 0 where
    start : Reach n peer from fresh
    later : {l k : Link} → Reach n peer from l → Step n peer from l k → Reach n peer from k
