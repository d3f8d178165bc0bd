-- ===== src/Extension/Interfaces.antt =====
-- The interfaces of src/interface: what CLASS_ENTRY_FUNCTION_D does for each.
use respondphp.Base.{[], ◌∷◌, codes}
use respondphp.Zend.{Zval}
use respondphp.Extension.{
  respond_event_event_emitter_interface, respond_stream_server_interface,
  respond_stream_writable_stream_interface, respond_stream_readable_stream_interface,
  respond_stream_connection_interface, respond_socket_connector_interface,
  respond_async_promise_interface, Step, in_order, register_interface, class_implements,
  class_constant,
}
use respondphp.Extension.Methods.{
  event_event_emitter_interface_methods, stream_server_interface_methods,
  stream_writable_stream_interface_methods, stream_readable_stream_interface_methods,
  stream_connection_interface_methods, socket_connector_interface_methods,
  async_promise_interface_methods,
}

unfoldable pub init_event_event_emitter_interface : Step
unfolding register_interface
init_event_event_emitter_interface =
    register_interface respond_event_event_emitter_interface
      (codes "Respond\\Event\\EventEmitterInterface") event_event_emitter_interface_methods

unfoldable pub init_stream_server_interface : Step
unfolding in_order register_interface class_implements
init_stream_server_interface = in_order (
    register_interface respond_stream_server_interface (codes "Respond\\Stream\\ServerInterface")
      stream_server_interface_methods
    ∷ class_implements respond_stream_server_interface (respond_event_event_emitter_interface ∷ [])
    ∷ [])

unfoldable pub init_stream_writable_stream_interface : Step
unfolding register_interface
init_stream_writable_stream_interface =
    register_interface respond_stream_writable_stream_interface
      (codes "Respond\\Stream\\WritableStreamInterface") stream_writable_stream_interface_methods

unfoldable pub init_stream_readable_stream_interface : Step
unfolding register_interface
init_stream_readable_stream_interface =
    register_interface respond_stream_readable_stream_interface
      (codes "Respond\\Stream\\ReadableStreamInterface") stream_readable_stream_interface_methods

unfoldable pub init_stream_connection_interface : Step
unfolding in_order register_interface class_implements
init_stream_connection_interface = in_order (
    register_interface respond_stream_connection_interface
      (codes "Respond\\Stream\\ConnectionInterface") stream_connection_interface_methods
    ∷ class_implements respond_stream_connection_interface (
        respond_stream_readable_stream_interface ∷ respond_stream_writable_stream_interface
        ∷ respond_event_event_emitter_interface ∷ [])
    ∷ [])

unfoldable pub init_socket_connector_interface : Step
unfolding register_interface
init_socket_connector_interface =
    register_interface respond_socket_connector_interface
      (codes "Respond\\Socket\\ConnectorInterface") socket_connector_interface_methods

unfoldable pub init_async_promise_interface : Step
unfolding in_order register_interface class_constant
init_async_promise_interface = in_order (
    register_interface respond_async_promise_interface (codes "Respond\\Async\\PromiseInterface")
      async_promise_interface_methods
    ∷ class_constant respond_async_promise_interface (codes "PENDING")
        (Zval.string (codes "pending"))
    ∷ class_constant respond_async_promise_interface (codes "FULFILLED")
        (Zval.string (codes "fullfilled"))
    ∷ class_constant respond_async_promise_interface (codes "REJECTED")
        (Zval.string (codes "rejected"))
    ∷ [])
