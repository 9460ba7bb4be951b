-- ===== src/SimPeer/Wrapped.antt =====
-- The way out, in src/goldnet_sim_peer.cpp: what GoldNetSimPeer passes on to the peer that it wraps, which
-- is a parameter.
use goldnet_godot.Common.{ℕ, ◌^◌, ◌≡◌, refl, Bool, List, [], ◌∷◌, take, ◌==◌}
use goldnet_godot.SimPeer.{TransferMode, NetSim, SimPeer, close}

-- The wrapped MultiplayerPeer; an Error and a ConnectionStatus are numbers.
pub record MultiplayerPeer : Type 1 where
  pub W : Type 0
  pub put_packet : W → List ℕ → W × ℕ
  pub transfer_channel : W → ℕ
  pub set_transfer_channel : W → ℕ → W
  pub transfer_mode : W → TransferMode
  pub set_transfer_mode : W → TransferMode → W
  pub set_target_peer : W → ℕ → W
  pub unique_id : W → ℕ
  pub close_peer : W → W
  pub disconnect_peer : W → ℕ → Bool → W
  pub refuses : W → Bool
  pub set_refuses : W → Bool → W
  pub relays : W → Bool
  pub connection_status : W → ℕ

module _ (n : NetSim) (q : MultiplayerPeer) where
  open q use {W}

  -- GoldNetSimPeer with the peer that it wraps.
  pub record Wrapper : Type 0 where
    pub inbound : SimPeer n
    pub wrapped : W

  -- _put_packet, of a buffer and a size.
  unfoldable pub put_packet : Wrapper → List ℕ → ℕ → Wrapper × ℕ
  put_packet s buffer size =
      let (w, error) = q.put_packet s.wrapped (take size buffer) in
      (record s { wrapped = w }, error)

  -- _get_max_packet_size
  unfoldable pub get_max_packet_size : Wrapper → ℕ
  get_max_packet_size s = 2 ^ 25

  -- _set_transfer_channel, _set_transfer_mode, _set_target_peer, _disconnect_peer and
  -- _set_refuse_new_connections.
  unfoldable pub set_transfer_channel : Wrapper → ℕ → Wrapper
  set_transfer_channel s channel = record s { wrapped = q.set_transfer_channel s.wrapped channel }

  unfoldable pub set_transfer_mode : Wrapper → TransferMode → Wrapper
  set_transfer_mode s mode = record s { wrapped = q.set_transfer_mode s.wrapped mode }

  unfoldable pub set_target_peer : Wrapper → ℕ → Wrapper
  set_target_peer s peer = record s { wrapped = q.set_target_peer s.wrapped peer }

  unfoldable pub disconnect_peer : Wrapper → ℕ → Bool → Wrapper
  disconnect_peer s peer force = record s { wrapped = q.disconnect_peer s.wrapped peer force }

  unfoldable pub set_refuse_new_connections : Wrapper → Bool → Wrapper
  set_refuse_new_connections s enable = record s { wrapped = q.set_refuses s.wrapped enable }

  -- _close
  unfoldable pub close_wrapper : Wrapper → Wrapper
  close_wrapper s = record { inbound = close n s.inbound; wrapped = q.close_peer s.wrapped }

  -- The questions that are passed on.
  unfoldable pub get_transfer_channel : Wrapper → ℕ
  get_transfer_channel s = q.transfer_channel s.wrapped

  unfoldable pub get_transfer_mode : Wrapper → TransferMode
  get_transfer_mode s = q.transfer_mode s.wrapped

  unfoldable pub is_server : Wrapper → Bool
  is_server s = q.unique_id s.wrapped == 1

  unfoldable pub get_unique_id : Wrapper → ℕ
  get_unique_id s = q.unique_id s.wrapped

  unfoldable pub is_refusing_new_connections : Wrapper → Bool
  is_refusing_new_connections s = q.refuses s.wrapped

  unfoldable pub is_server_relay_supported : Wrapper → Bool
  is_server_relay_supported s = q.relays s.wrapped

  unfoldable pub get_connection_status : Wrapper → ℕ
  get_connection_status s = q.connection_status s.wrapped

  -- What the inner API does to send a packet.
  pub data Send : Type 0 where
    channel : ℕ → Send
    mode : TransferMode → Send
    target : ℕ → Send
    packet : List ℕ → ℕ → Send

  unfoldable pub send : Wrapper → Send → Wrapper
  unfolding put_packet set_transfer_channel set_transfer_mode set_target_peer
  send s (channel c) = set_transfer_channel s c
  send s (mode m) = set_transfer_mode s m
  send s (target t) = set_target_peer s t
  send s (packet buffer size) = (put_packet s buffer size).0

  unfoldable pub send_plain : W → Send → W
  send_plain w (channel c) = q.set_transfer_channel w c
  send_plain w (mode m) = q.set_transfer_mode w m
  send_plain w (target t) = q.set_target_peer w t
  send_plain w (packet buffer size) = (q.put_packet w (take size buffer)).0

  unfoldable pub send_all : Wrapper → List Send → Wrapper
  send_all s [] = s
  send_all s (o ∷ os) = send_all (send s o) os

  unfoldable pub send_all_plain : W → List Send → W
  send_all_plain w [] = w
  send_all_plain w (o ∷ os) = send_all_plain (send_plain w o) os

  -- The way out is not simulated: whatever is sent, the wrapped peer ends up as if it had been used itself,
  -- and what is on its way in is left alone.
  pub send_all-wrapped :
      (s : Wrapper) (os : List Send)
      → ((send_all s os).wrapped ≡ send_all_plain s.wrapped os)
        × ((send_all s os).inbound ≡ s.inbound)
  unfolding send_all send_all_plain send send_plain put_packet set_transfer_channel
      set_transfer_mode set_target_peer
  send_all-wrapped s [] = (refl, refl)
  send_all-wrapped s (channel c ∷ os) = send_all-wrapped (send s (channel c)) os
  send_all-wrapped s (mode m ∷ os) = send_all-wrapped (send s (mode m)) os
  send_all-wrapped s (target t ∷ os) = send_all-wrapped (send s (target t)) os
  send_all-wrapped s (packet buffer size ∷ os) = send_all-wrapped (send s (packet buffer size)) os
