-- ===== src/Lib.antt =====
-- respondphp: an event-driven extension of PHP over libuv. A script makes servers, connectors
-- and timers, and then runs the loop; the process that runs it (the actor) forks two managers,
-- which keep a number of workers and routines alive, and hands its clients over to the workers.
--
-- The parts, from the repository's root:
--   * Zend (Zend/Values, Zend/Assoc, Zend/HashTable, Zend/Ordered): the values and hash tables
--     of the Zend engine, which is not part of the repository. `Hash` lists the operations that
--     the C code calls with their documented laws, and `ordered` is an instance of it.
--   * CString: the functions of string.h that the code calls.
--   * EventEmitter: src/internal/event_emitter.c and include/internal/event_emitter.h.
--     `EventHook` is `event_hook_t`, with its tables `hook` (what getListeners shows),
--     `hook_cache` (what emit calls) and `internal_hook` (the C callbacks). `on`, `off`,
--     `remove_listeners`, `get_listeners`, `on_internal`, `emit` and `emit_internal` are the
--     functions of the same names. A listener is a function from emitter to emitter, so that it
--     can change the tables while they are walked. EventEmitter/Methods are the five PHP methods
--     that each class repeats. EventEmitter/Removal and EventEmitter/SelfRemoval are the
--     emissions in which a listener removes listeners, EventEmitter/Numeric the events whose
--     names spell an integer. EventEmitter/Spec is the abstract emitter, EventEmitter/Views and
--     EventEmitter/Invariant relate the tables to it. EventEmitter/Visible is the emitter as PHP
--     code sees it, a quotient.
--   * StreamConnection: src/stream/connection.c. `Connection` is `rp_stream_connection_ext_t`;
--     the functions give the new connection and what they ask of libuv, as a list of effects.
--     StreamConnection/Protocol is an automaton over these effects. StreamConnection/Address is
--     src/internal/stream_connection.c, with sock_addr of include/respondphp.h.
--   * Request: what a request with a promise does to its memory and to its promise, shared by
--     Connector (src/connector/tcp.c, src/connector/pipe.c and src/internal/socket_connector.c),
--     Resolver (src/network/resolver.c) and SecureConnector. Their `…_life` functions put the
--     PHP method, the deferred callback and the callback of libuv together.
--   * SecureConnector: src/connector/secure.c, with the host name checks in
--     SecureConnector/Names and SecureConnector/Certificates, which names they accept in
--     SecureConnector/Identity and the connect in SecureConnector/Connect.
--   * Manager: src/worker_manager.c and src/routine_manager.c.
--   * Reactor: src/reactor.c, with Reactor/Messages for the pipes between the processes and
--     Reactor/Deferral for the work that waits for the loop.
--   * EventLoop: src/event_loop.c. `run` puts the managers and the reactor together.
--   * Timer: src/system/timer.c, with the `cancel` that its promise is given.
--   * SecureStream: src/stream/secure.c, over the operations of StreamConnection.
--   * CancelablePromise: src/async/cancelable_promise.c.
--   * Server/Routine: src/server/routine.c. `RoutineServer` is `rp_routine_ext_t` with the
--     memory of its executions; Server/Routine/Executions follows it over any history,
--     Server/Routine/Release is its end, and Server/Routine/RoundTrip one execution through the
--     pipes of Reactor/Messages.
--   * Server/Tcp, Server/Pipe, Server/Udp, Server/Http and Server/Secure: the files of these
--     names in src/server; Server/Udp/Layout is the memory of a datagram, byte for byte,
--     Server/Udp/Delivery and Server/Udp/Buffers put a send and its completions together, and
--     Server/Address is rp_addr of include/respondphp.h. Server/Setup, Server/Clients,
--     Server/Handover, Server/Accepting and Server/Emitters are about what they do together with
--     the reactor, the connections and the emitters. Server/Secure/Keys loads keys and
--     certificates, Server/Secure/Handshakes is a client's session, Server/Release the free
--     handlers with rp_event_hook_destroy.
--   * Extension: src/respondphp.c with the macros of include/common.h and src/interface: the
--     classes and interfaces that MINIT registers (Extension/Methods has their function tables,
--     Extension/Signatures the argument information of the headers, Extension/Interfaces and
--     Extension/Classes what CLASS_ENTRY_FUNCTION_D does for each, Extension/Startup puts them
--     in order), and the start and end of a request (Extension/Requests). `Registry` is the
--     global class entries and object handlers. Extension/Conformity holds the classes against
--     the interfaces they implement.
--   * Examples: the theorems at concrete inputs.
--
-- libuv, OpenSSL, picohttpparser and the system are the environment: what they answer is an
-- argument, and what is asked of them is an effect. Pointers are numbers.
--
-- The walks of `emit` and `emit_internal` run on fuel, since a listener that adds listeners can
-- make them endless; for listeners that leave the emitter alone, more fuel than there are
-- listeners is proved to be enough. `uint` counters wrap at 2^32, and the difference that
-- `makeForks` gets is read as an `int`. The memory of a datagram has the layout of a 64-bit
-- little-endian machine.
--
-- Not modelled: serialize and unserialize, which src/server/routine.c calls as PHP functions and
-- which are arguments here; the sizes of allocations, except for datagrams; the text that
-- src/respondphp.c shows in phpinfo; and the PHP code of phpsrc, one class of which a request
-- looks up.
pub mod Base
pub mod Zend
pub mod EventEmitter
pub mod CString
pub mod Request
pub mod Connector
pub mod Resolver
pub mod SecureConnector
pub mod StreamConnection
pub mod Manager
pub mod Reactor
pub mod EventLoop
pub mod Server
pub mod SecureStream
pub mod Timer
pub mod CancelablePromise
pub mod Extension
pub mod Examples
