-- ===== src/Extension/Startup.antt =====
-- The start of the module, of src/respondphp.c. `openssl` says that the module is built with
-- HAVE_OPENSSL.
use respondphp.Base.{List, [], ◌∷◌, ◌++◌, Bool, if◌then◌else◌}
use respondphp.Extension.{Step, in_order}
use respondphp.Extension.Interfaces.{
  init_event_event_emitter_interface, init_stream_server_interface,
  init_stream_writable_stream_interface, init_stream_readable_stream_interface,
  init_stream_connection_interface, init_socket_connector_interface, init_async_promise_interface,
}
use respondphp.Extension.Classes.{
  init_event_loop, init_server_tcp, init_server_udp, init_server_pipe, init_server_routine,
  init_server_http, init_server_secure, init_stream_connection, init_stream_secure,
  init_async_cancelable_promise, init_connector_pipe, init_connector_tcp, init_connector_secure,
  init_system_timer, init_network_resolver,
}

abbrev pub declare_interfaces : List Step
declare_interfaces =
    init_event_event_emitter_interface ∷ init_stream_server_interface
    ∷ init_stream_writable_stream_interface ∷ init_stream_readable_stream_interface
    ∷ init_stream_connection_interface ∷ init_socket_connector_interface
    ∷ init_async_promise_interface ∷ []

-- PHP_MINIT_FUNCTION. Its assertion that `main_loop.data` is NULL is left out: the process starts
-- with it so.
unfoldable pub minit : (openssl : Bool) → Step
unfolding in_order init_event_event_emitter_interface init_stream_server_interface
    init_stream_writable_stream_interface init_stream_readable_stream_interface
    init_stream_connection_interface init_socket_connector_interface init_async_promise_interface
    init_event_loop init_connector_pipe init_connector_tcp init_server_tcp init_server_udp
    init_server_pipe init_server_routine init_stream_connection init_network_resolver
    init_system_timer init_async_cancelable_promise init_server_http init_connector_secure
    init_server_secure init_stream_secure
minit openssl = in_order (
    declare_interfaces
    ++ (init_event_loop
        ∷ init_connector_pipe
        ∷ init_connector_tcp
        ∷ init_server_tcp
        ∷ init_server_udp
        ∷ init_server_pipe
        ∷ init_server_routine
        ∷ init_stream_connection
        ∷ init_network_resolver
        ∷ init_system_timer
        ∷ init_async_cancelable_promise
        ∷ init_server_http
        ∷ (if openssl
            then init_connector_secure ∷ init_server_secure ∷ init_stream_secure ∷ []
            else [])))
