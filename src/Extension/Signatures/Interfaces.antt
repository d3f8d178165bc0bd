-- ===== src/Extension/Signatures/Interfaces.antt =====
-- The argument information that the headers of include/interface declare.
use respondphp.Base.{none, some, [], ◌∷◌, true, false, codes}
use respondphp.Extension.{ArgInfo, is_string, is_array, is_bool, is_callable, is_object}
use respondphp.Extension.Signatures.{untyped_arg, typed_arg, variadic_arg}

abbrev pub event_event_emitter_interface_on : ArgInfo
event_event_emitter_interface_on = record {
  required = none;
  returns = none;
  arguments = typed_arg "event" is_string false ∷ typed_arg "listener" is_callable false ∷ [];
}

abbrev pub event_event_emitter_interface_off : ArgInfo
event_event_emitter_interface_off = record {
  required = none;
  returns = none;
  arguments = typed_arg "event" is_string false ∷ typed_arg "listener" is_callable false ∷ [];
}

abbrev pub event_event_emitter_interface_remove_listeners : ArgInfo
event_event_emitter_interface_remove_listeners = record {
  required = none;
  returns = none;
  arguments = typed_arg "event" is_string false ∷ [];
}

abbrev pub event_event_emitter_interface_get_listeners : ArgInfo
event_event_emitter_interface_get_listeners = record {
  required = none;
  returns = some (is_array, true);
  arguments = typed_arg "event" is_string false ∷ [];
}

abbrev pub event_event_emitter_interface_emit : ArgInfo
event_event_emitter_interface_emit = record {
  required = none;
  returns = none;
  arguments = typed_arg "event" is_string false ∷ variadic_arg "arguments" ∷ [];
}

abbrev pub stream_server_interface_close : ArgInfo
stream_server_interface_close = record { required = none; returns = none; arguments = [] }

abbrev pub stream_writable_stream_interface_is_writable : ArgInfo
stream_writable_stream_interface_is_writable = record {
  required = none;
  returns = some (is_bool, false);
  arguments = [];
}

abbrev pub stream_writable_stream_interface_write : ArgInfo
stream_writable_stream_interface_write = record {
  required = none;
  returns = some (is_bool, false);
  arguments = typed_arg "data" is_string false ∷ [];
}

abbrev pub stream_writable_stream_interface_end : ArgInfo
stream_writable_stream_interface_end = record {
  required = none;
  returns = some (is_bool, false);
  arguments = typed_arg "data" is_string true ∷ [];
}

abbrev pub stream_writable_stream_interface_close : ArgInfo
stream_writable_stream_interface_close = record { required = none; returns = none; arguments = [] }

abbrev pub stream_readable_stream_interface_is_readable : ArgInfo
stream_readable_stream_interface_is_readable = record {
  required = none;
  returns = some (is_bool, false);
  arguments = [];
}

abbrev pub stream_readable_stream_interface_close : ArgInfo
stream_readable_stream_interface_close = record { required = none; returns = none; arguments = [] }

abbrev pub stream_connection_interface_get_remote_address : ArgInfo
stream_connection_interface_get_remote_address = record {
  required = none;
  returns = some (is_string, true);
  arguments = [];
}

abbrev pub stream_connection_interface_get_local_address : ArgInfo
stream_connection_interface_get_local_address = record {
  required = none;
  returns = some (is_string, true);
  arguments = [];
}

abbrev pub socket_connector_interface_connect : ArgInfo
socket_connector_interface_connect = record {
  required = none;
  returns = some (is_object (codes "Respond\\Async\\PromiseInterface"), false);
  arguments = variadic_arg "arguments" ∷ [];
}

abbrev pub async_promise_interface_then : ArgInfo
async_promise_interface_then = record {
  required = some 0;
  returns = some (is_object (codes "Respond\\Async\\PromiseInterface"), false);
  arguments =
      typed_arg "onFullfiled" is_callable true
      ∷ typed_arg "onRejcted" is_callable true
      ∷ typed_arg "onFinaled" is_callable true
      ∷ [];
}

abbrev pub async_promise_interface_catch : ArgInfo
async_promise_interface_catch = record {
  required = none;
  returns = some (is_object (codes "Respond\\Async\\PromiseInterface"), false);
  arguments = typed_arg "onRejcted" is_callable false ∷ [];
}

abbrev pub async_promise_interface_finally : ArgInfo
async_promise_interface_finally = record {
  required = none;
  returns = some (is_object (codes "Respond\\Async\\PromiseInterface"), false);
  arguments = typed_arg "onFinal" is_callable false ∷ [];
}

abbrev pub async_promise_interface_resolve : ArgInfo
async_promise_interface_resolve = record {
  required = some 0;
  returns = none;
  arguments = untyped_arg "value" ∷ [];
}

abbrev pub async_promise_interface_reject : ArgInfo
async_promise_interface_reject = record {
  required = none;
  returns = none;
  arguments = typed_arg "reason" (is_object (codes "Throwable")) false ∷ [];
}
