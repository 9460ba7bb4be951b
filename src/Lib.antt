-- ===== src/Lib.antt =====
-- goldnet-godot: the logic of the Godot adapter of the goldnet netcode library, in src/. The adapter is
-- a MultiplayerAPI extension (GoldNetMultiplayer, src/goldnet_multiplayer.cpp and .h). It wraps Godot's
-- SceneMultiplayer, the inner API, and moves state snapshots, RPCs, spawns and client commands over a
-- channel of its own that the goldnet core (extern/goldnet, a submodule) keeps.
--
-- The parts, the files that model them, and how their operations correspond:
-- - Common: the shared names, Boolean tests on numbers, lists, chains of options, and HashMap, an
--   association list in insertion order with get (getptr, find), put ([]=), erase and has.
-- - Platform: what the adapter takes from elsewhere, as a record of operations and laws: C++ doubles,
--   Godot's Variant with its conversions and byte encoding, and the core's byte writer and reader. A
--   writer is the bytes it holds and an int64_t a bit pattern below 2 ^ 64, with its wrap written out.
--   The laws say that a primitive reads back what it wrote. Platform/Toy is an instance, for the
--   theorems' examples.
-- - NetIds (src/goldnet_net_ids.h): the two maps between net ids and objects: id, object, assign, bind,
--   release, drop and forget_learned. The counter is a uint32_t and wraps.
-- - Values (goldnet_multiplayer.cpp, from ValueTag to get_slot): a value behind its tag (gn_tag_for,
--   gn_put_value, gn_get_value), Values/Slots: a slot coded against a base value (put_slot, get_slot),
--   Values/Arguments: an RPC argument (put_arg, get_arg).
-- - SlotSetup (get_sync_slots, _read_quant, _read_push, _make_slot_coding): which properties of a
--   synchronizer are slots, and how each is coded. SlotSetup/Plan has where each slot's property is
--   (resolve_property, cache_slot_plan) and the entity's weight (gn_read_priority).
-- - Spawns (put_spawn_data, get_spawn_data): the record that a spawn carries.
-- - Cadence (_min_interval_us, _poll, send_snapshots): how often a server sends. A poll is the list of
--   the calls it makes, with what the session answers as an argument.
-- - Messages (_send_message, _deliver_message): an RPC on the netchan, which names its target by an id
--   that the sender registers with the receiver. The state is the four members that messages use; the
--   core's count of its reliable stream is an argument, and what a send hands the core a list.
--   Messages/Link puts the two ends together: a sender, a receiver and the channels between them as a
--   step relation, where datagrams are lost, repeated and late, and sessions end and start again.
-- - Registry: synchronizers, spawners and spawned nodes. Registry has the members and the server's despawns
--   and entities (_detect_despawns, _add_entities), Registry/Spawning its spawns (capture_spawners,
--   _spawn_trampoline, _drain_pending_spawns, _spawner_net_id),
--   Registry/Configuration how they register (_object_configuration_add, _object_configuration_remove)
--   and mark_dirty, Registry/Client the client's side (_apply_spawn, _apply_bind, _apply_despawn). The
--   tree under a node is a data type, and what the engine says of nodes an argument. Registry/Polling
--   performs the calls of a poll on it (_ensure_link, _server_tick), over Cadence. Registry/Rates
--   keeps the interval of the cadence (_refresh_interval, set_snapshot_rate).
-- - Sessions (the _relay_ handlers, _forget_peer, _end_server_session, _reset_client_state,
--   _set_multiplayer_peer, and what _check_overflow does to the peers): what is forgotten and when, over Registry and Messages. The core's peers are
--   an interface with its laws.
-- - Commands: a client's calls that ride the uplink. Commands has the fields of a call
--   (command_from_args, and the arguments that _deliver_command makes of them), Commands/Signatures the
--   stream ids (make_command_signature, _command_stream), Commands/Targets the server's table of targets
--   (_scan_command_targets, _command_target, _deliver_command). The scene tree is a data type.
--   Commands/Finding has what a walk of the tree registers, Commands/Arrival a call from the client to
--   the method.
-- - Rpcs (_sim_send, _charge_rpc, _check_overflow) and Rpcs/Routing (_rpc, _netchan_rpc,
--   _rpc_is_unreliable): which way a call goes, over Messages and Commands. What the engine and the core
--   answer while a call is made is an argument, and what they are asked to do a list. Rpcs/Statistics
--   counts calls (_rpc_stats_count), Rpcs/Reports their windows (_rpc_stats_print), and Rpcs/Carrier
--   has what rides the carrier node's RPCs: snapshots (ServerHost::send) and the uplink (_send_uplink).
-- - SimPeer (src/goldnet_sim_peer.cpp and .h): the wrapper around a client's peer that holds what
--   arrives in a goldnet::NetSim. The sim is an interface, with what it holds as a count for every test
--   on packets. SimPeer/Wrapped has what it passes on to the wrapped peer, an interface too.
-- - Hosts (ServerHost's live, read, visible, spawn_visible and encode, ClientHost's entity and
--   relevance_lost, apply_snapshot): what the core asks of the game when it sends and takes entities.
--   What the engine says of synchronizers and properties is an argument.
-- - Uplink (goldnet_link.cpp: _gn_up; on_uplink and UplinkHost): a client's packet on the server, over
--   Messages and Commands. What the core makes of a packet is a parameter, a tree of the questions that
--   it asks its host, where an answer chooses what follows.
-- - Snapshots (goldnet_link.cpp: _gn_recv; apply_snapshot and ClientHost): a snapshot on a client, over
--   Registry, Hosts and Messages, in the same way.
-- - Senders (_get_remote_sender_id, and command_sender around the calls of _deliver_command and
--   _deliver_message): the sender that a called method is told, and that _gn_up takes
--   for a packet's, where deliveries nest.
-- - SimConfig (apply_sim_config, read_sim_config, set_sim_config, set_recv_sim_config): the settings of the
--   sims as a Dictionary, over the sim's setters and getters as an interface with its laws.
--   SimConfig/Environment has what the
--   constructor reads of the environment, SimConfig/PeerStats get_peer_stats.
--
-- Every loop of the source here runs over a list or the scene tree, so recursion is structural and no
-- fuel is needed; the loops with a count read from the wire (an RPC's arguments, the synchronizers of a
-- spawn record) recurse on that count.
--
-- Left out: the goldnet core and godot-cpp, which are not part of the repository; warnings, errors and
-- what is only printed; the registration of the classes (src/register_types.cpp and _bind_methods); the
-- script addons, the example and the tests; and of goldnet_multiplayer.cpp what is not listed above, which
-- is mainly the rest of the constructor and the properties that only set a field of the core. In a
-- delivery inside of a packet, the called method's own RPCs are an argument, and what else it does to
-- GoldNetMultiplayer is left out.
pub mod Cadence
pub mod Commands
pub mod Common
pub mod Hosts
pub mod Messages
pub mod NetIds
pub mod Platform
pub mod Registry
pub mod Rpcs
pub mod Senders
pub mod Sessions
pub mod SimConfig
pub mod SimPeer
pub mod SlotSetup
pub mod Snapshots
pub mod Spawns
pub mod Uplink
pub mod Values
