-- ===== src/Lib.antt =====
-- A model of the resilient overlay network node and of the client that connects it to the Partov
-- simulation server, with the theorems that make them correct.
--
-- The program has two layers. The client framework (base/cf.cpp) reads its arguments, talks to the
-- server over a TCP socket, and runs a loop that hands each frame of the server to the machine. The
-- machine (user/sm.cpp) is the overlay node: it pings the servers that it knows, keeps a table of
-- them, exchanges advertisements with other nodes to learn better paths, and forwards packets through
-- an address translation. Frames go back to the server through `sendFrame`.
--
-- Base: Boolean tests, lists by native numbers, association lists, exclusive or with ones, and in
--   Base/Texts the C texts of `strcmp`; in Base/Shown numbers as `cout` prints them.
-- Checksum: `check_sum_ip` and `check_sum_icmp` of user/sm.cpp.
-- Address: `ip_into_uint` and `ipUint_into_str` of user/sm.cpp.
-- Wire: the structures of user/sr_protocol.h and user/my_structs.h as bytes, byte order, and
--   `set_ip_header` and `set_icmp_header_in_ping_packet` of user/sm.cpp; in Wire/Network the words of
--   the messages to the server.
-- Filter: `is_valid_packet` of user/sm.cpp.
-- Send: the frames of `send_icmp_packet`, `send_advertise_packet` and `send_udp_packet`; in Send/Fields
--   the ports as they lie in a frame.
-- Servers: `server_infoes` with `get_index_by_ip`, `insert_into_server_infoes`,
--   `update_learning_table`, `fill_forwarding_table` and `reset_learning_table`; in Servers/Ping
--   `update_server_information`, `check_connections_is_alive` and `receive_ping_packet`.
-- Ports: `src_port`, `port_to_ip` and `my_port_to_src_port`.
-- Adverts: the payload of `advertise_data` and the loop of `receive_advertise_data`.
-- Node: `processFrame`, in Node/Commands the commands of `run`, and in Node/Startup `initialize` and
--   `initialize_server_information`. Node/Runs puts these together: `initialize`, then any sequence of
--   frames and commands, each as one step; Node/Halves cuts `send_udp_packet` in two, for what may come
--   in between, and Node/Forward has packets forwarded to the gateway. Node/Console has what `run`
--   prints on a command: `print_delay_table`, `print_loss_table`, `print_server_information`, and in
--   Node/Console/Frames the lines that `processFrame` prints.
-- Client: of base/cf.cpp, in Client/Arguments `parseArguments`, in Client/Args `parseIP` and
--   `parsePort`, in Client/Transfer `sendOrReceive`, in Client/Session the shared `buffer` with what
--   the negotiations do in it, in Client/Negotiation `doInitialNegotiations`,
--   `doInitialRecoveryNegotiations` and what they call, in Client/Messages `realSendFrame` and the two
--   notifications, in Client/Events `simulationEventLoop`; in Client/Machine base/machine.cpp and
--   base/interface.cpp; in Client/Screen `printArguments` and what both of these print. Client/Life puts these together, from `main` of base/main.cpp to
--   `recoverSimulation`, as the main thread sees it; Client/Threads has the two threads from
--   `simulateMachine` on, with the mutex, the condition variable and the calls of `send`, as steps in
--   any order.
--
-- Numbers are natural numbers; a field of a machine width wraps where the source stores into it. A
-- header is kept with its fields as they are stored, in network byte order, on a machine that stores
-- the low byte first. `none` is a fault: a read or a write outside of the memory that the code was
-- given, or through a null pointer.
--
-- Parameters: the doubles of the loss rates (`Rates`) and their texts (`Doubles`), the clock, what
-- memory from `new` holds before it is written (`raw`), `mac_into_byte`, which is a call of `sscanf`,
-- the system's `send` and `recv` (`Socket`), and its other calls with what the event loop leaves in the
-- buffer (`System`). `Delivers` is what the theorems on the client take from the system: some progress
-- in each call, in order; `Separate`, that the two directions do not touch each other. The texts of the
-- arguments have no NUL inside.
--
-- Loops are structural. The transfers of the client run on a number of calls: one for each byte is
-- enough, as the theorems on `sendOrReceive` show. The event loop runs on a number of rounds, and the
-- theorem on it holds for any, or for those that the messages need. The life of the client runs on a
-- number of turns of `recoverSimulation`, which the theorems choose.
--
-- Not modelled: the text of `usage` and the lines on the steps of the negotiations, which are console
-- output alone, the handler of SIGINT, the mutexes of user/sm.cpp, whose steps are taken one
-- after the other but for `send_udp_packet` against a translation, and the build files.
pub mod Base
pub mod Checksum
pub mod Address
pub mod Wire
pub mod Filter
pub mod Send
pub mod Servers
pub mod Ports
pub mod Adverts
pub mod Node
pub mod Client
