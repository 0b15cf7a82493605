-- ===== src/Lib.antt =====
-- SmartEdge: swarms of nodes behind access points, with a coordinator that gives nodes their
-- addresses and watches over them. The parts interact as follows. A node generates a hash chain,
-- registers its last point over TCP and sends heartbeats over UDP (node_manager/heartbeat); the
-- heartbeat server of the coordinator verifies them and declares a silent node dead. The coordinator
-- takes requests of an adaptive coordinator, configures nodes, writes the database and sets routes
-- on the switches of the access points. An access point watches its stations come and go, attaches a
-- tunnel for each to its BMv2 switch, and configures it. Access points and coordinators find each
-- other by broadcasts.
--
-- Files, and the code that they are about:
-- - Base: Python's texts, bytes, integers, dictionaries and exceptions (`Exec`: a state that is kept
--   when an exception is raised).
-- - Address: `int_to_mac`, the addresses by host identifier and `extract_numbers` of
--   lib/helper_functions.py; Python's `ipaddress` as far as it is used. Address/Machine: the default
--   interface and the names that are made from addresses.
-- - Heartbeat/Chain, Heartbeat/Wire, Heartbeat/Client: node_manager/heartbeat/heartbeat_client.py.
--   `generate_winternitz_chain`, `load_chain`, `send_public_key` and `main` keep their names;
--   `send_heartbeat` is `heartbeat_message`, and its loop is `send_loop`.
-- - Heartbeat/Server: coordinator/heartbeat_server.py. The dictionary `STATE` is the field `state`;
--   Register is `_handle_tcp_client`, Receive is `_handle_hb_datagram`, and Timeout is one round of
--   `heartbeat_monitor`, and Preload is `preload_cache`. Guard specifies what sequences of datagrams
--   and rounds may do, Threads has the handlers side by side. Heartbeat/Run puts sender and receiver
--   together.
-- - Heartbeat/Monitor: the control loop of node_manager/heartbeat/heartbeat_monitor.py.
-- - Swarm/Io: the effects that the coordinator and the access points have, and their environment.
-- - Swarm/Database: lib/database_comms.py. Swarm/Switch, Swarm/Words: lib/bmv2_thrift_lib.py.
--   Swarm/Discovery: lib/node_discovery.py. Swarm/Settings: lib/global_config_defaults.py.
-- - Coordinator: coordinator/coordinator.py. Onboard is `onboard_node` and `offboard_node`, Requests
--   is `handle_ac_communication`, SwarmNode is `Swarm_Node_Handler`.
-- - AccessPoint: ap_manager/ap_manager.py. Vxlan holds the tunnels and the ARP table, Connect and
--   Disconnect the two handlers of stations, Monitor `initialize_program` and `monitor_stations`,
--   Exit `exit_handler`.
-- - Node: node_manager/node_manager.py. Message holds the dictionaries that the senders build and
--   `config_data` is read from, Service the process of the heartbeat client, Install the two
--   installations, Communication is `handle_communication`, and Wifi the lookups of addresses,
--   `monitor_wifi_status` and `exit_handler`.
-- - Launch: run.py, with the names of nodes in Launch/Names.
-- - Gui/Sockets: the connections of GUI/backend/websocket_handler.py. Gui/LogStream,
--   Gui/HeartbeatControl and Gui/Details: GUI/backend/heartbeat_api.py, whose endpoints hide those of
--   the same path in coordinator_log_server.py. Gui/LogServer, Gui/Requests and Gui/Listings:
--   GUI/backend/coordinator_log_server.py and cassandra_interface.py. Gui/LogParser:
--   GUI/backend/log_parser.py.
-- - Logging: lib/logger_utils.py.
--
-- A component's state is a record, and an operation is an action on it that may raise. SHA-256 is a
-- parameter of type `Bytes → Bytes`. Cassandra, the sockets, the shell, the command line of the
-- switch and the clock are fields of an environment `Env`, of which the heartbeat server and the node
-- have their own; their answers may depend on all events before, so no theorem relies on a fixed
-- database unless its statement says so. `IsUp` says that every statement that writes to the database
-- succeeds.
--
-- Texts and byte strings are lists of code points and of bytes. Times are whole microseconds. Numbers
-- are unbounded, as Python's are; `int` reads ASCII digits alone. There is no fuel but for the two loops of an access point that are
-- bounded in time: they go round as often as the environment says (`rounds`), for any number.
--
-- Threads: a handler of a datagram is three steps of Heartbeat/Server/Threads: up to its write, the
-- row of the database, and the cache; the reads of the first are taken together. Any handler may run
-- between, and so may a registration, which is one step, and a round of the monitor, which holds the
-- lock throughout. The replay of a history to a socket (Gui/LogStream) is one step. The tasks that a
-- request creates never wait, so they run in their order. A node handles its connections one by one;
-- that the answer can be sent is assumed.
--
-- Not modelled: the endpoints of the web backend that only copy rows or start a process, its
-- copy of the heartbeat server, the frontend (GUI), the P4 program, the generated Thrift classes
-- (lib/bmv2_pylibs), what is logged, argument parsing, and the setup of sockets and of the database's
-- tables.
pub mod Base
pub mod Address
pub mod Heartbeat
pub mod Swarm
pub mod Coordinator
pub mod AccessPoint
pub mod Gui
pub mod Launch
pub mod Logging
pub mod Node
