-- ===== src/Extension/Methods.antt =====
-- The function tables of the classes, as DECLARE_FUNCTION_ENTRY lists them, and the two tables that
-- include/internal/event_emitter.h and include/internal/stream_connection.h put into others.
use respondphp.Base.{Option, none, some, List, [], ◌∷◌, ◌++◌, codes}
use Prim.Native.String.{String}
use respondphp.Extension.{
  Flag, acc_public, acc_private, acc_static, acc_abstract, acc_final, acc_ctor, ArgInfo, Method,
}
use respondphp.Extension.Signatures.Interfaces.{
  event_event_emitter_interface_on, event_event_emitter_interface_off,
  event_event_emitter_interface_remove_listeners, event_event_emitter_interface_get_listeners,
  event_event_emitter_interface_emit, stream_server_interface_close,
  stream_writable_stream_interface_is_writable, stream_writable_stream_interface_write,
  stream_writable_stream_interface_end, stream_writable_stream_interface_close,
  stream_readable_stream_interface_is_readable, stream_readable_stream_interface_close,
  stream_connection_interface_get_remote_address, stream_connection_interface_get_local_address,
  socket_connector_interface_connect, async_promise_interface_then, async_promise_interface_catch,
  async_promise_interface_finally, async_promise_interface_resolve, async_promise_interface_reject,
}
use respondphp.Extension.Signatures.Classes.{
  event_loop_run, server_tcp_construct, server_pipe_construct, server_udp_construct,
  server_udp_send, server_http_construct, server_secure_construct, server_routine_construct,
  server_routine_execute, connector_tcp_connect, connector_pipe_connect, connector_secure_connect,
  network_resolver_getaddrinfo, network_resolver_getnameinfo, system_timer_timeout,
}

-- PHP_ME
abbrev pub method : String → Option ArgInfo → List Flag → Method
method name arg_info flags = record { name = codes name; arg_info = arg_info; flags = flags }

-- PHP_ABSTRACT_ME
abbrev pub abstract_method : String → Option ArgInfo → Method
abstract_method name arg_info = method name arg_info (acc_public ∷ acc_abstract ∷ [])

-- TRAIT_FUNCTION_ENTRY_ME_event_emitter and TRAIT_FUNCTION_ENTRY_ME_stream_connection
abbrev pub event_emitter_entries : List Method
event_emitter_entries =
    method "on" (some event_event_emitter_interface_on) (acc_public ∷ [])
    ∷ method "off" (some event_event_emitter_interface_off) (acc_public ∷ [])
    ∷ method "removeListeners" (some event_event_emitter_interface_remove_listeners)
        (acc_public ∷ [])
    ∷ method "getListeners" (some event_event_emitter_interface_get_listeners) (acc_public ∷ [])
    ∷ method "emit" (some event_event_emitter_interface_emit) (acc_public ∷ [])
    ∷ []

abbrev pub stream_connection_entries : List Method
stream_connection_entries =
    method "getRemoteAddress" (some stream_connection_interface_get_remote_address)
      (acc_public ∷ [])
    ∷ method "getLocalAddress" (some stream_connection_interface_get_local_address)
        (acc_public ∷ [])
    ∷ []

-- The interfaces
abbrev pub event_event_emitter_interface_methods : List Method
event_event_emitter_interface_methods =
    abstract_method "on" (some event_event_emitter_interface_on)
    ∷ abstract_method "off" (some event_event_emitter_interface_off)
    ∷ abstract_method "removeListeners" (some event_event_emitter_interface_remove_listeners)
    ∷ abstract_method "getListeners" (some event_event_emitter_interface_get_listeners)
    ∷ abstract_method "emit" (some event_event_emitter_interface_emit)
    ∷ []

abbrev pub stream_server_interface_methods : List Method
stream_server_interface_methods = abstract_method "close" (some stream_server_interface_close) ∷ []

abbrev pub stream_writable_stream_interface_methods : List Method
stream_writable_stream_interface_methods =
    abstract_method "isWritable" (some stream_writable_stream_interface_is_writable)
    ∷ abstract_method "write" (some stream_writable_stream_interface_write)
    ∷ abstract_method "end" (some stream_writable_stream_interface_end)
    ∷ abstract_method "close" (some stream_writable_stream_interface_close)
    ∷ []

abbrev pub stream_readable_stream_interface_methods : List Method
stream_readable_stream_interface_methods =
    abstract_method "isReadable" (some stream_readable_stream_interface_is_readable)
    ∷ abstract_method "close" (some stream_readable_stream_interface_close)
    ∷ []

abbrev pub stream_connection_interface_methods : List Method
stream_connection_interface_methods =
    abstract_method "getRemoteAddress" (some stream_connection_interface_get_remote_address)
    ∷ abstract_method "getLocalAddress" (some stream_connection_interface_get_local_address)
    ∷ []

abbrev pub socket_connector_interface_methods : List Method
socket_connector_interface_methods =
    method "__construct" none (acc_private ∷ acc_abstract ∷ [])
    ∷ method "connect" (some socket_connector_interface_connect)
        (acc_public ∷ acc_abstract ∷ acc_static ∷ [])
    ∷ []

abbrev pub async_promise_interface_methods : List Method
async_promise_interface_methods =
    abstract_method "then" (some async_promise_interface_then)
    ∷ abstract_method "catch" (some async_promise_interface_catch)
    ∷ abstract_method "finally" (some async_promise_interface_finally)
    ∷ abstract_method "resolve" (some async_promise_interface_resolve)
    ∷ abstract_method "reject" (some async_promise_interface_reject)
    ∷ abstract_method "cancel" none
    ∷ []

-- The classes
abbrev pub event_loop_methods : List Method
event_loop_methods =
    method "create" none (acc_public ∷ acc_static ∷ [])
    ∷ method "__construct" none (acc_private ∷ acc_ctor ∷ [])
    ∷ method "run" (some event_loop_run) (acc_public ∷ [])
    ∷ method "end" none (acc_public ∷ [])
    ∷ method "alive" none (acc_public ∷ [])
    ∷ []

abbrev pub connector_pipe_methods : List Method
connector_pipe_methods =
    method "__construct" none (acc_private ∷ acc_final ∷ [])
    ∷ method "connect" (some connector_pipe_connect) (acc_public ∷ acc_static ∷ [])
    ∷ []

abbrev pub connector_tcp_methods : List Method
connector_tcp_methods =
    method "__construct" none (acc_private ∷ acc_final ∷ [])
    ∷ method "connect" (some connector_tcp_connect) (acc_public ∷ acc_static ∷ [])
    ∷ []

abbrev pub connector_secure_methods : List Method
connector_secure_methods =
    method "__construct" none (acc_private ∷ acc_final ∷ [])
    ∷ method "connect" (some connector_secure_connect) (acc_public ∷ acc_static ∷ [])
    ∷ []

abbrev pub server_tcp_methods : List Method
server_tcp_methods =
    method "__construct" (some server_tcp_construct) (acc_public ∷ acc_ctor ∷ [])
    ∷ method "close" none (acc_public ∷ [])
    ∷ event_emitter_entries

abbrev pub server_pipe_methods : List Method
server_pipe_methods =
    method "__construct" (some server_pipe_construct) (acc_public ∷ acc_ctor ∷ [])
    ∷ method "close" none (acc_public ∷ [])
    ∷ event_emitter_entries

abbrev pub server_http_methods : List Method
server_http_methods =
    method "__construct" (some server_http_construct) (acc_public ∷ acc_ctor ∷ [])
    ∷ method "close" none (acc_public ∷ [])
    ∷ event_emitter_entries

abbrev pub server_secure_methods : List Method
server_secure_methods =
    method "__construct" (some server_secure_construct) (acc_public ∷ acc_ctor ∷ [])
    ∷ method "close" none (acc_public ∷ [])
    ∷ event_emitter_entries

abbrev pub server_udp_methods : List Method
server_udp_methods =
    method "__construct" (some server_udp_construct) (acc_public ∷ acc_ctor ∷ [])
    ∷ method "send" (some server_udp_send) (acc_public ∷ [])
    ∷ method "close" none (acc_public ∷ [])
    ∷ event_emitter_entries

abbrev pub server_routine_methods : List Method
server_routine_methods =
    method "__construct" (some server_routine_construct) (acc_public ∷ acc_ctor ∷ [])
    ∷ method "execute" (some server_routine_execute) (acc_public ∷ [])
    ∷ []

abbrev pub stream_connection_methods : List Method
stream_connection_methods =
    method "__construct" none (acc_private ∷ acc_ctor ∷ [])
    ∷ method "close" none (acc_public ∷ [])
    ∷ method "isReadable" (some stream_readable_stream_interface_is_readable) (acc_public ∷ [])
    ∷ method "isWritable" (some stream_writable_stream_interface_is_writable) (acc_public ∷ [])
    ∷ method "write" (some stream_writable_stream_interface_write) (acc_public ∷ [])
    ∷ method "end" (some stream_writable_stream_interface_end) (acc_public ∷ [])
    ∷ (event_emitter_entries ++ stream_connection_entries)

abbrev pub stream_secure_methods : List Method
stream_secure_methods =
    method "__construct" none (acc_private ∷ acc_ctor ∷ [])
    ∷ method "close" none (acc_public ∷ [])
    ∷ method "isReadable" (some stream_readable_stream_interface_is_readable) (acc_public ∷ [])
    ∷ method "isWritable" (some stream_writable_stream_interface_is_writable) (acc_public ∷ [])
    ∷ method "write" (some stream_writable_stream_interface_write) (acc_public ∷ [])
    ∷ method "end" (some stream_writable_stream_interface_end) (acc_public ∷ [])
    ∷ (event_emitter_entries ++ stream_connection_entries)

abbrev pub network_resolver_methods : List Method
network_resolver_methods =
    method "__construct" none (acc_private ∷ acc_final ∷ [])
    ∷ method "getaddrinfo" (some network_resolver_getaddrinfo) (acc_public ∷ acc_static ∷ [])
    ∷ method "getnameinfo" (some network_resolver_getnameinfo) (acc_public ∷ acc_static ∷ [])
    ∷ []

abbrev pub system_timer_methods : List Method
system_timer_methods =
    method "__construct" none (acc_private ∷ acc_final ∷ [])
    ∷ method "timeout" (some system_timer_timeout) (acc_public ∷ acc_static ∷ [])
    ∷ []

abbrev pub async_cancelable_promise_methods : List Method
async_cancelable_promise_methods =
    method "__construct" none (acc_private ∷ acc_final ∷ [])
    ∷ method "then" (some async_promise_interface_then) (acc_public ∷ [])
    ∷ method "catch" (some async_promise_interface_catch) (acc_public ∷ [])
    ∷ method "finally" (some async_promise_interface_finally) (acc_public ∷ [])
    ∷ method "resolve" (some async_promise_interface_resolve) (acc_public ∷ [])
    ∷ method "reject" (some async_promise_interface_reject) (acc_public ∷ [])
    ∷ method "cancel" none (acc_public ∷ [])
    ∷ []
