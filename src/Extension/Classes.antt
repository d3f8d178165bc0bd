-- ===== src/Extension/Classes.antt =====
-- The classes: what CLASS_ENTRY_FUNCTION_D does for each, in the file of its methods.
use respondphp.Base.{[], ◌∷◌, codes}
use respondphp.Zend.{Zval, pos}
use respondphp.Extension.{
  respond_event_loop, respond_connector_pipe, respond_connector_tcp, respond_server_http,
  respond_server_tcp, respond_server_udp, respond_server_pipe, respond_server_routine,
  respond_stream_connection, respond_event_event_emitter_interface, respond_stream_server_interface,
  respond_stream_connection_interface, respond_socket_connector_interface,
  respond_async_promise_interface, respond_async_cancelable_promise, respond_network_resolver,
  respond_system_timer, respond_server_secure, respond_stream_secure, respond_connector_secure,
  acc_private, acc_static, Step, in_order, register_class, register_class_with_object_new,
  own_handlers, class_implements, class_constant, declare_property_null,
}
use respondphp.Extension.Methods.{
  event_loop_methods, connector_pipe_methods, connector_tcp_methods, server_http_methods,
  server_tcp_methods, server_udp_methods, server_pipe_methods, server_routine_methods,
  stream_connection_methods, async_cancelable_promise_methods, network_resolver_methods,
  system_timer_methods, server_secure_methods, stream_secure_methods, connector_secure_methods,
}

-- The classes with a resource of their own
unfoldable pub init_event_loop : Step
unfolding in_order register_class_with_object_new own_handlers class_constant declare_property_null
init_event_loop = in_order (
    register_class_with_object_new respond_event_loop (codes "Respond\\Event\\Loop")
      event_loop_methods
    ∷ own_handlers respond_event_loop
    ∷ class_constant respond_event_loop (codes "RUN_DEFAULT") (Zval.long (pos 0))
    ∷ class_constant respond_event_loop (codes "RUN_ONCE") (Zval.long (pos 1))
    ∷ class_constant respond_event_loop (codes "RUN_NOWAIT") (Zval.long (pos 2))
    ∷ declare_property_null respond_event_loop (codes "loop") (acc_private ∷ acc_static ∷ [])
    ∷ [])

unfoldable pub init_server_tcp : Step
unfolding in_order register_class_with_object_new own_handlers class_implements
init_server_tcp = in_order (
    register_class_with_object_new respond_server_tcp (codes "Respond\\Server\\Tcp")
      server_tcp_methods
    ∷ own_handlers respond_server_tcp
    ∷ class_implements respond_server_tcp (respond_stream_server_interface ∷ [])
    ∷ [])

unfoldable pub init_server_udp : Step
unfolding in_order register_class_with_object_new own_handlers class_implements
init_server_udp = in_order (
    register_class_with_object_new respond_server_udp (codes "Respond\\Server\\Udp")
      server_udp_methods
    ∷ own_handlers respond_server_udp
    ∷ class_implements respond_server_udp (respond_event_event_emitter_interface ∷ [])
    ∷ [])

unfoldable pub init_server_pipe : Step
unfolding in_order register_class_with_object_new own_handlers class_implements
init_server_pipe = in_order (
    register_class_with_object_new respond_server_pipe (codes "Respond\\Server\\Pipe")
      server_pipe_methods
    ∷ own_handlers respond_server_pipe
    ∷ class_implements respond_server_pipe (respond_stream_server_interface ∷ [])
    ∷ [])

unfoldable pub init_server_routine : Step
unfolding in_order register_class_with_object_new own_handlers
init_server_routine = in_order (
    register_class_with_object_new respond_server_routine (codes "Respond\\Server\\Routine")
      server_routine_methods
    ∷ own_handlers respond_server_routine
    ∷ [])

unfoldable pub init_server_http : Step
unfolding in_order register_class_with_object_new own_handlers class_implements
init_server_http = in_order (
    register_class_with_object_new respond_server_http (codes "Respond\\Server\\HTTP")
      server_http_methods
    ∷ own_handlers respond_server_http
    ∷ class_implements respond_server_http (respond_event_event_emitter_interface ∷ [])
    ∷ [])

unfoldable pub init_server_secure : Step
unfolding in_order register_class_with_object_new own_handlers class_implements
init_server_secure = in_order (
    register_class_with_object_new respond_server_secure (codes "Respond\\Server\\Secure")
      server_secure_methods
    ∷ own_handlers respond_server_secure
    ∷ class_implements respond_server_secure (respond_event_event_emitter_interface ∷ [])
    ∷ [])

unfoldable pub init_stream_connection : Step
unfolding in_order register_class_with_object_new own_handlers class_implements
init_stream_connection = in_order (
    register_class_with_object_new respond_stream_connection (codes "Respond\\Stream\\Connection")
      stream_connection_methods
    ∷ own_handlers respond_stream_connection
    ∷ class_implements respond_stream_connection (respond_stream_connection_interface ∷ [])
    ∷ [])

unfoldable pub init_stream_secure : Step
unfolding in_order register_class_with_object_new own_handlers class_implements
init_stream_secure = in_order (
    register_class_with_object_new respond_stream_secure (codes "Respond\\Stream\\Secure")
      stream_secure_methods
    ∷ own_handlers respond_stream_secure
    ∷ class_implements respond_stream_secure (respond_stream_connection_interface ∷ [])
    ∷ [])

unfoldable pub init_async_cancelable_promise : Step
unfolding in_order register_class_with_object_new own_handlers class_implements
    declare_property_null
init_async_cancelable_promise = in_order (
    register_class_with_object_new respond_async_cancelable_promise
      (codes "Respond\\Async\\CancelablePromise") async_cancelable_promise_methods
    ∷ own_handlers respond_async_cancelable_promise
    ∷ class_implements respond_async_cancelable_promise (respond_async_promise_interface ∷ [])
    ∷ declare_property_null respond_async_cancelable_promise (codes "promise") (acc_private ∷ [])
    ∷ [])

-- The classes without one
unfoldable pub init_connector_pipe : Step
unfolding in_order register_class class_implements
init_connector_pipe = in_order (
    register_class respond_connector_pipe (codes "Respond\\Connector\\Pipe") connector_pipe_methods
    ∷ class_implements respond_connector_pipe (respond_socket_connector_interface ∷ [])
    ∷ [])

unfoldable pub init_connector_tcp : Step
unfolding in_order register_class class_implements
init_connector_tcp = in_order (
    register_class respond_connector_tcp (codes "Respond\\Connector\\Tcp") connector_tcp_methods
    ∷ class_implements respond_connector_tcp (respond_socket_connector_interface ∷ [])
    ∷ [])

unfoldable pub init_connector_secure : Step
unfolding in_order register_class class_implements
init_connector_secure = in_order (
    register_class respond_connector_secure (codes "Respond\\Connector\\Secure")
      connector_secure_methods
    ∷ class_implements respond_connector_secure (respond_socket_connector_interface ∷ [])
    ∷ [])

unfoldable pub init_system_timer : Step
unfolding in_order register_class class_implements
init_system_timer = in_order (
    register_class respond_system_timer (codes "Respond\\System\\Timer") system_timer_methods
    ∷ class_implements respond_system_timer (respond_socket_connector_interface ∷ [])
    ∷ [])

unfoldable pub init_network_resolver : Step
unfolding register_class
init_network_resolver =
    register_class respond_network_resolver (codes "Respond\\Network\\Resolver")
      network_resolver_methods
